-- ===== src/Sync/Edits.antt =====
-- internal/store/sync.go: what each call that changes a row does to its flag and its time.
use mathlib.Core.Path.{subst}
use kuro.Base.{
  ℕ, ◌<◌, ◌≡◌, refl, sym, ap, ◌∙◌, ◌⊎◌, inl, inr, Bool, true, false, not, ◌||◌, Option, none, some,
  Text, leb, ltb, ◌==◌, if◌then◌else◌, arith,
}
use kuro.Base.Int.{ℤ}
use kuro.Sync.Entry.{
  ListStatus, current, ListEntry, local_row, bumped, is_completed, is_repeating, is_null, first_row,
  progress_row, mark_progress, complete_row, complete, mark_watched, unwatch_row, unwatch,
  set_score, set_list_status,
}
use kuro.Sync.Remote.{RemoteEntry, apply_remote}
use kuro.Sync.Push.{Edit, watches, unwatches, scores, lists, applies, run_edit, is_quiet}

pub if-P :
    {A : Type 0} (P : A → Type 0) (b : Bool) (x y : A)
    → (b ≡ true → P x)
    → (b ≡ false → P y)
    → P (if b then x else y)
if-P P true x y h k = h refl
if-P P false x y h k = k refl

-- An entry without a status becomes current, and nothing else of it that a tracker is told changes.
abbrev pub Touch : ListEntry → ListEntry → Type 0
Touch e e' =
    (e'.dirty ≡ e.dirty)
    × (e'.progress ≡ e.progress)
    × (e'.repeat_count ≡ e.repeat_count)
    × (e'.score ≡ e.score)
    × (e.status ≡ none)
    × (e'.status ≡ some current)

abbrev pub Changed : Bool → ListEntry → ListEntry → Type 0
Changed quiet e e' =
    ((e.local_updated_at < e'.local_updated_at) ⊎ (quiet ≡ true)) × ((e'.dirty ≡ true) ⊎ Touch e e')

-- What an edit does to the row.
abbrev pub Edited : Bool → Option ListEntry → Option ListEntry → Type 0
Edited quiet none none = Unit
Edited quiet none (some e') = e'.dirty ≡ true
Edited quiet (some e) none = ⊥
Edited quiet (some e) (some e') = (e' ≡ e) ⊎ Changed quiet e e'

bumped_later : (now : ℕ) (e : ListEntry) → e.local_updated_at < bumped now e
unfolding bumped
bumped_later now e = omega arith

progress_row-later :
    (episode : ℕ) (today : Text) (now : ℕ) (e : ListEntry)
    → e.local_updated_at < (progress_row episode today now e).local_updated_at
unfolding progress_row
progress_row-later episode today now e = bumped_later now e

complete_row-cases :
    (count : ℕ) (today : Text) (e : ListEntry)
    → (complete_row count today e ≡ e)
      ⊎ (((complete_row count today e).dirty ≡ true)
          × ((complete_row count today e).local_updated_at ≡ e.local_updated_at))
unfolding complete_row
complete_row-cases count today e =
    if-P (λ x. (x ≡ e) ⊎ ((x.dirty ≡ true) × (x.local_updated_at ≡ e.local_updated_at))) _ _ _
      (λ c. inr (refl, refl)) (λ c. inl refl)

first_row-dirty :
    (local_id : ℤ) (episode : ℕ) (today : Text) (now : ℕ)
    → (first_row local_id episode today now).dirty ≡ true
unfolding first_row local_row
first_row-dirty local_id episode today now = refl

complete_new :
    (count : ℕ) (today : Text) (e : ListEntry)
    → e.dirty ≡ true
    → (complete_row count today e).dirty ≡ true
complete_new count today e h = elim (complete_row-cases count today e) [
  | inl same ↦ ap (λ (x : ListEntry). x.dirty) same ∙ h
  | inr (d, l) ↦ d
]

complete-Changed :
    (count : ℕ) (today : Text) (e e1 : ListEntry)
    → e.local_updated_at < e1.local_updated_at
    → ((e1.dirty ≡ true) ⊎ Touch e e1)
    → Changed false e (complete_row count today e1)
complete-Changed count today e e1 later h = elim (complete_row-cases count today e1) [
  | inl same ↦ subst (λ x. Changed false e x) (sym same) (inl later, h)
  | inr (d, l) ↦ (inl (rw l later), inl d)
]

is_null-none : (s : Option ListStatus) → is_null s ≡ true → s ≡ none
unfolding is_null
is_null-none none h = refl
is_null-none (some s) h = cc

null_progress : (b c : Bool) → (b || c) ≡ true → (b ≡ true) ⊎ ((b ≡ false) × (c ≡ true))
null_progress true c h = inl refl
null_progress false c h = inr (refl, h)

progress_row-Touch :
    (e : ListEntry) (episode : ℕ) (today : Text) (now : ℕ)
    → ltb e.progress episode ≡ false
    → e.status ≡ none
    → Touch e (progress_row episode today now e)
unfolding progress_row is_completed is_repeating
progress_row-Touch e episode today now b n = (rw b refl, ground arith, refl, refl, n, rw n refl)

-- The first statement of `MarkWatched`, where it changes the row.
progress_row-Changed :
    (e : ListEntry) (episode : ℕ) (today : Text) (now : ℕ)
    → (ltb e.progress episode || is_null e.status) ≡ true
    → ((progress_row episode today now e).dirty ≡ true) ⊎ Touch e (progress_row episode today now e)
unfolding progress_row
progress_row-Changed e episode today now h =
    elim (null_progress (ltb e.progress episode) (is_null e.status) h) [
      | inl b ↦ inl (rw b refl)
      | inr (b, n) ↦ inr (progress_row-Touch e episode today now b (is_null-none e.status n))
    ]

complete-Quiet :
    (count : ℕ) (today : Text) (e : ListEntry)
    → (complete_row count today e ≡ e) ⊎ Changed true e (complete_row count today e)
complete-Quiet count today e = elim (complete_row-cases count today e) [
  | inl same ↦ inl same
  | inr (d, l) ↦ inr (inr refl, inl d)
]

-- What `MarkWatched` makes of a row that the first statement has been through.
abbrev After : ℕ → Text → ListEntry → Option ListEntry × Bool → Type 0
After count today e x = Edited (not x.1) (some e) (complete count today x.0)

mark_progress-After :
    (local_id : ℤ) (count episode : ℕ) (today : Text) (now : ℕ) (e : ListEntry)
    → After count today e (mark_progress local_id episode today now (some e))
unfolding mark_progress complete
mark_progress-After local_id count episode today now e =
    if-P (After count today e) (ltb e.progress episode || is_null e.status)
      (some (progress_row episode today now e), true) (some e, false)
      (λ b. inr (
        complete-Changed count today e (progress_row episode today now e)
          (progress_row-later episode today now e) (progress_row-Changed e episode today now b)))
      (λ b. complete-Quiet count today e)

mark_watched-Edited :
    (local_id : ℤ) (count episode : ℕ) (today : Text) (now : ℕ) (row : Option ListEntry)
    → Edited
        (not (mark_watched local_id count episode today now row).1)
        row
        (mark_watched local_id count episode today now row).0
unfolding mark_watched
mark_watched-Edited local_id count episode today now none =
    if-P (λ (x : Option ListEntry × Bool). Edited (not x.1) none x.0) (episode == 0) (none, false) _
      (λ z. tt)
      (λ z.
        unfold mark_progress complete in
        complete_new count today (first_row local_id episode today now)
          (first_row-dirty local_id episode today now))
mark_watched-Edited local_id count episode today now (some e) =
    if-P (λ (x : Option ListEntry × Bool). Edited (not x.1) (some e) x.0) (episode == 0)
      (some e, false) _ (λ z. inl refl)
      (λ z. mark_progress-After local_id count episode today now e)

unwatch-Edited :
    (episode now : ℕ) (row : Option ListEntry) → Edited false row (unwatch episode now row)
unfolding unwatch unwatch_row
unwatch-Edited episode now none = tt
unwatch-Edited episode now (some e) =
    if-P (Edited false (some e)) (episode == 0) (some e) _ (λ z. inl refl)
      (λ z.
        if-P (λ x. Edited false (some e) (some x)) _ _ e
          (λ c. inr (inl (bumped_later now e), inl refl)) (λ c. inl refl))

set_score-Edited :
    (local_id : ℤ) (score now : ℕ) (row : Option ListEntry)
    → Edited false row (set_score local_id score now row)
unfolding set_score local_row
set_score-Edited local_id score now none =
    if-P (Edited false none) (ltb 100 score) none _ (λ c. tt) (λ c. refl)
set_score-Edited local_id score now (some e) =
    if-P (Edited false (some e)) (ltb 100 score) (some e) _ (λ c. inl refl)
      (λ c. inr (inl (bumped_later now e), inl refl))

set_list_status-Edited :
    (local_id : ℤ) (read : Option ListEntry) (status : ListStatus) (score : Option ℕ) (today : Text)
    (now : ℕ) (row : Option ListEntry)
    → Edited false row (set_list_status local_id read status score today now row)
unfolding set_list_status local_row
set_list_status-Edited local_id read status score today now none = refl
set_list_status-Edited local_id read status score today now (some e) =
    inr (inl (bumped_later now e), inl refl)

apply_remote-Edited :
    (local_id : ℤ) (r : RemoteEntry) (today : Text) (now : ℕ) (row : Option ListEntry)
    → Edited false row (apply_remote local_id r today now row).0
unfolding apply_remote local_row
apply_remote-Edited local_id r today now none = refl
apply_remote-Edited local_id r today now (some e) =
    if-P (λ (x : Option ListEntry × Bool). Edited false (some e) x.0)
      (leb e.local_updated_at r.since) _ (some e, false)
      (λ c. inr (inl (bumped_later now e), inl refl)) (λ c. inl refl)

pub run_edit-Edited :
    (edit : Edit) (row : Option ListEntry) → Edited (is_quiet edit row) row (run_edit edit row)
unfolding run_edit is_quiet
run_edit-Edited (watches local_id count episode today now) row =
    mark_watched-Edited local_id count episode today now row
run_edit-Edited (unwatches episode now) row = unwatch-Edited episode now row
run_edit-Edited (scores local_id score now) row = set_score-Edited local_id score now row
run_edit-Edited (lists local_id read status score today now) row =
    set_list_status-Edited local_id read status score today now row
run_edit-Edited (applies local_id r today now) row = apply_remote-Edited local_id r today now row
