-- ===== src/Sync/Laws.antt =====
-- internal/store/sync.go: what watching, unwatching and the entries of another tracker come to.
use mathlib.Core.Bool.{true≢false}
use mathlib.Core.Path.{subst}
use kuro.Base.{
  ℕ, zero, suc, ◌+◌, ◌-◌, ◌≤◌, ◌<◌, ◌≡◌, refl, ◌∙◌, max, Bool, true, false, not, ◌&&◌, ◌||◌, List,
  [], ◌∷◌, Option, none, some, Text, leb, ltb, ◌==◌, if◌then◌else◌, arith,
}
use kuro.Base.Int.{ℤ}
use kuro.Sync.Entry.{
  ListStatus, current, completed, ListEntry, is_completed, is_repeating, is_null, is_unfinished,
  first_row, progress_row, mark_progress, complete_row, complete, mark_watched, unwatch_row,
  unwatch,
}
use kuro.Sync.Edits.{if-P}

-- A show's episodes as they are watched, each at its time.
unfoldable pub mark_all : ℤ → ℕ → Text → List (ℕ × ℕ) → Option ListEntry → Option ListEntry
unfolding mark_watched
mark_all local_id count today [] row = row
mark_all local_id count today ((episode, now) ∷ calls) row =
    mark_all local_id count today calls (mark_watched local_id count episode today now row).0

-- The last episode of a list and of what was watched before.
abbrev pub furthest : ℕ → List (ℕ × ℕ) → ℕ
furthest n [] = n
furthest n ((episode, now) ∷ calls) = furthest (max n episode) calls

-- An entry with all episodes watched is completed.
abbrev pub IsFinished : ℕ → ListEntry → Type 0
IsFinished count e = 0 < count → count ≤ e.progress → is_completed e.status ≡ true

-- The row has this progress, and all episodes watched complete it.
abbrev pub Stands : ℕ → ℕ → Option ListEntry → Type 0
Stands count progress none = ⊥
Stands count progress (some e) = (e.progress ≡ progress) × IsFinished count e

complete_row-progress :
    (count : ℕ) (today : Text) (e : ListEntry) → (complete_row count today e).progress ≡ e.progress
unfolding complete_row
complete_row-progress count today e =
    if-P (λ x. x.progress ≡ e.progress) _ _ e (λ c. refl) (λ c. refl)

unfinished : (s : Option ListStatus) → is_null s ≡ false → is_unfinished s ≡ not (is_completed s)
unfolding is_unfinished is_null
unfinished none h = cc
unfinished (some s) h = refl

complete_row-IsFinished :
    (count : ℕ) (today : Text) (e : ListEntry)
    → 0 < e.progress
    → is_null e.status ≡ false
    → IsFinished count (complete_row count today e)
unfolding complete_row
complete_row-IsFinished count today e p n =
    if-P (IsFinished count)
      (is_unfinished e.status && ltb 0 e.progress && ltb 0 count && leb count e.progress) _ e
      (λ c k l. unfold is_completed in refl) (λ c k l. ground (arith, unfinished e.status n))

kept_status :
    (s : Option ListStatus)
    → is_null (if is_completed s || is_repeating s then s else some current) ≡ false
unfolding is_null is_completed is_repeating
kept_status none = refl
kept_status (some s) =
    if-P (λ x. is_null x ≡ false) _ (some s) (some current) (λ c. refl) (λ c. refl)

-- `MarkWatched` of an episode, on an entry.
mark_progress-Stands :
    (local_id : ℤ) (count episode : ℕ) (today : Text) (now : ℕ) (e : ListEntry)
    → 0 < episode
    → Stands count
        (max e.progress episode)
        (complete count today (mark_progress local_id episode today now (some e)).0)
unfolding mark_progress complete progress_row is_null
mark_progress-Stands local_id count episode today now e h =
    if-P
      (λ (x : Option ListEntry × Bool).
        Stands count (max e.progress episode) (complete count today x.0))
      (ltb e.progress episode || is_null e.status) (some (progress_row episode today now e), true)
      (some e, false)
      (λ b.
        let e1 : ListEntry = progress_row episode today now e in
        (
          complete_row-progress count today e1,
          complete_row-IsFinished count today e1 (omega arith) (kept_status e.status),
        ))
      (λ b.
        let (n, k) = neither (ltb e.progress episode) (is_null e.status) b in
        (
          complete_row-progress count today e ∙ ground arith,
          complete_row-IsFinished count today e (ground arith) k,
        ))
  where
    neither : (b c : Bool) → (b || c) ≡ false → (b ≡ false) × (c ≡ false)
    neither true c h = absurd (true≢false h)
    neither false c h = (refl, h)

mark_progress_new :
    (local_id : ℤ) (count episode : ℕ) (today : Text) (now : ℕ)
    → 0 < episode
    → Stands count episode (complete count today (mark_progress local_id episode today now none).0)
unfolding mark_progress complete
mark_progress_new local_id count episode today now h =
    let e : ListEntry = first_row local_id episode today now in
    (
      complete_row-progress count today e ∙ unfold first_row in refl,
      complete_row-IsFinished count today e (unfold first_row in h)
          (unfold first_row is_null in refl),
    )

real_episode : (n : ℕ) → (suc n == 0) ≡ true → ⊥
real_episode n z = ground arith

mark_watched-Stands :
    (local_id : ℤ) (count episode : ℕ) (today : Text) (now progress : ℕ) (row : Option ListEntry)
    → Stands count progress row
    → Stands count (max progress episode) (mark_watched local_id count episode today now row).0
unfolding mark_watched
mark_watched-Stands local_id count episode today now progress none h = absurd h
mark_watched-Stands local_id count zero today now progress (some e) (p, f) = (ground arith, f)
mark_watched-Stands local_id count (suc n) today now progress (some e) (p, f) =
    subst
      (λ x. Stands count (max x (suc n)) (mark_watched local_id count (suc n) today now (some e)).0)
      p
      (if-P (λ (x : Option ListEntry × Bool). Stands count (max e.progress (suc n)) x.0)
        (suc n == 0) (some e, false) _ (λ z. absurd (real_episode n z))
        (λ z. mark_progress-Stands local_id count (suc n) today now e (omega arith)))

mark_all-Stands :
    (local_id : ℤ) (count : ℕ) (today : Text) (calls : List (ℕ × ℕ)) (progress : ℕ)
    (row : Option ListEntry)
    → Stands count progress row
    → Stands count (furthest progress calls) (mark_all local_id count today calls row)
unfolding mark_all
mark_all-Stands local_id count today [] progress row h = h
mark_all-Stands local_id count today ((episode, now) ∷ calls) progress row h =
    mark_all-Stands local_id count today calls (max progress episode) _
      (mark_watched-Stands local_id count episode today now progress row h)

-- After the episodes of a show are marked in any order, repeated ones too, on a show that is not on the list
-- yet, the progress is the last of them, and if it reaches the number of episodes, where that is known,
-- the show is completed.
pub mark_all_lem :
    (local_id : ℤ) (count : ℕ) (today : Text) (first now : ℕ) (calls : List (ℕ × ℕ))
    → 0 < first
    → Stands count
        (furthest first calls)
        (mark_all local_id count today ((first, now) ∷ calls) none)
unfolding mark_all mark_watched
mark_all_lem local_id count today zero now calls h = absurd (omega arith)
mark_all_lem local_id count today (suc n) now calls h =
    mark_all-Stands local_id count today calls (suc n)
      (mark_watched local_id count (suc n) today now none).0
      (if-P (λ (x : Option ListEntry × Bool). Stands count (suc n) x.0) (suc n == 0) (none, false) _
        (λ z. absurd (real_episode n z))
        (λ z. mark_progress_new local_id count (suc n) today now h))

-- An entry with this status and progress, flagged for a push, and otherwise what a tracker is told of `e`.
abbrev pub With : ListStatus → ℕ → ListEntry → ListEntry → Type 0
With status progress e e' =
    (e'.status ≡ some status)
    × (e'.progress ≡ progress)
    × (e'.score ≡ e.score)
    × (e'.repeat_count ≡ e.repeat_count)
    × (e'.dirty ≡ true)

unwatch_row-With :
    (n now : ℕ) (e : ListEntry)
    → e.status ≡ some completed
    → e.progress ≡ suc n
    → With current n e (unwatch_row (suc n) now e)
unfolding unwatch_row
unwatch_row-With n now e s p =
    if-P (With current n e) (ltb (suc n - 1) e.progress || is_completed e.status) _ e
      (λ c. (current_again, omega arith, refl, refl, refl)) (λ c. absurd (too_far c))
  where
    current_again : (if is_completed e.status then some current else e.status) ≡ some current
    current_again = unfold is_completed in rw s refl

    too_far : (ltb (suc n - 1) e.progress || is_completed e.status) ≡ false → ⊥
    too_far c = ground arith

watch_again :
    (n count : ℕ) (today : Text) (now : ℕ) (e : ListEntry)
    → e.status ≡ some current
    → e.progress ≡ n
    → 0 < count
    → count ≤ suc n
    → With completed (suc n) e (complete_row count today (progress_row (suc n) today now e))
unfolding complete_row
watch_again n count today now e s p k l =
    let e1 : ListEntry = progress_row (suc n) today now e in
    if-P (With completed (suc n) e)
      (is_unfinished e1.status && ltb 0 e1.progress && ltb 0 count && leb count e1.progress) _ e1
      (λ c. (refl, reaches, unfold progress_row in refl, no_rewatch, refl))
      (λ c. absurd (not_done c))
  where
    still_current : (progress_row (suc n) today now e).status ≡ some current
    still_current = unfold progress_row is_completed is_repeating in rw s refl

    reaches : (progress_row (suc n) today now e).progress ≡ suc n
    reaches = unfold progress_row in omega arith

    no_rewatch :
        (progress_row (suc n) today now e).repeat_count
          + (if is_repeating (progress_row (suc n) today now e).status then 1 else 0)
        ≡ e.repeat_count
    no_rewatch = rw still_current (unfold is_repeating progress_row in omega arith)

    not_done :
        (is_unfinished (progress_row (suc n) today now e).status
            && ltb 0 (progress_row (suc n) today now e).progress
            && ltb 0 count
            && leb count (progress_row (suc n) today now e).progress)
          ≡ false
        → ⊥
    not_done c = unfold is_unfinished is_completed in ground (arith, still_current, reaches)

abbrev pub RowWith : ListStatus → ℕ → ListEntry → Option ListEntry → Type 0
RowWith status progress e none = ⊥
RowWith status progress e (some e') = With status progress e e'

With-mark_watched :
    (local_id : ℤ) (n count : ℕ) (today : Text) (later : ℕ) (e e1 : ListEntry)
    → With current n e e1
    → 0 < count
    → count ≤ suc n
    → RowWith completed (suc n) e (mark_watched local_id count (suc n) today later (some e1)).0
unfolding mark_watched mark_progress complete
With-mark_watched local_id n count today later e e1 (s, p, f, r, d) k l =
    if-P (λ (x : Option ListEntry × Bool). RowWith completed (suc n) e x.0) (suc n == 0)
      (some e1, false) _ (λ z. absurd (real_episode n z))
      (λ z.
        if-P
          (λ (x : Option ListEntry × Bool). RowWith completed (suc n) e (complete count today x.0))
          (ltb e1.progress (suc n) || is_null e1.status) _ (some e1, false)
          (λ c.
            let (s', p', f', r', d') = watch_again n count today later e1 s p k l in
            (s', p', f' ∙ f, r' ∙ r, d'))
          (λ c. absurd (short c)))
  where
    short : (ltb e1.progress (suc n) || is_null e1.status) ≡ false → ⊥
    short c = ground arith

-- Where a completed show has all its episodes watched, and their number is known: to unwatch the last one and
-- watch it again leaves the entry with the status, the progress, the score and the number of rewatches
-- that it had, flagged for a push.
pub mark_watched-unwatch :
    (local_id : ℤ) (n count : ℕ) (today : Text) (now later : ℕ) (e : ListEntry)
    → e.status ≡ some completed
    → e.progress ≡ suc n
    → 0 < count
    → count ≤ suc n
    → RowWith completed
        (suc n)
        e
        (mark_watched local_id count (suc n) today later (unwatch (suc n) now (some e))).0
unfolding unwatch
mark_watched-unwatch local_id n count today now later e s p k l =
    if-P (λ x. RowWith completed (suc n) e (mark_watched local_id count (suc n) today later x).0)
      (suc n == 0) (some e) (some (unwatch_row (suc n) now e)) (λ z. absurd (real_episode n z))
      (λ z.
        With-mark_watched local_id n count today later e (unwatch_row (suc n) now e)
          (unwatch_row-With n now e s p) k l)
