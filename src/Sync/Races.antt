-- ===== src/Sync/Races.antt =====
-- internal/store/sync.go and internal/library/sync.go: an edit against what another tracker brings, and the
-- completion of a show against a push.
use mathlib.Core.Bool.{true≢false}
use mathlib.Core.Path.{subst}
use kuro.Base.{
  ℕ, ◌≤◌, ◌<◌, ◌≡◌, ◌≢◌, refl, sym, ap, ◌∙◌, ◌⊎◌, inl, inr, Bool, true, false, not, ◌&&◌, List, [],
  ◌∷◌, Option, none, some, Text, leb, ltb, if◌then◌else◌, arith,
}
use kuro.Base.Int.{ℤ}
use kuro.Sync.Entry.{completed, ListEntry, is_completed, is_unfinished, complete, complete_row}
use kuro.Sync.Remote.{RemoteEntry, apply_remote, clear_dirty_at}
use kuro.Sync.Push.{
  set_progress, World, Message, idle, reading, begin, push_begin, answer, push_answer, clear,
  push_end, message_of, Edit, run_edit, is_quiet,
}
use kuro.Sync.Edits.{if-P, Edited, run_edit-Edited}

unfoldable pub run_edits : List Edit → Option ListEntry → Option ListEntry
unfolding run_edit
run_edits [] row = row
run_edits (edit ∷ edits) row = run_edits edits (run_edit edit row)

-- No edit completes the show without new progress.
abbrev pub Loud : List Edit → Option ListEntry → Type 0
Loud [] row = Unit
Loud (edit ∷ edits) row = (is_quiet edit row ≡ false) × Loud edits (run_edit edit row)

-- The row is still `e`, or was changed since.
abbrev pub Later : ListEntry → Option ListEntry → Type 0
Later e none = ⊥
Later e (some e') = (e' ≡ e) ⊎ (e.local_updated_at < e'.local_updated_at)

Edited-Later :
    (e : ListEntry) (row row' : Option ListEntry)
    → Edited false row row'
    → Later e row
    → Later e row'
Edited-Later e none row' h l = absurd l
Edited-Later e (some e1) none h l = absurd h
Edited-Later e (some e1) (some e2) (inl same) l = subst (λ x. Later e (some x)) (sym same) l
Edited-Later e (some e1) (some e2) (inr (inr q, t)) l = absurd (true≢false (sym q))
Edited-Later e (some e1) (some e2) (inr (inl later, t)) (inl same) =
    inr (subst (λ (x : ListEntry). x.local_updated_at < e2.local_updated_at) same later)
Edited-Later e (some e1) (some e2) (inr (inl later, t)) (inr l) = inr (omega arith)

run_edits-Later :
    (e : ListEntry) (edits : List Edit) (row : Option ListEntry)
    → Loud edits row
    → Later e row
    → Later e (run_edits edits row)
unfolding run_edits
run_edits-Later e [] row h l = l
run_edits-Later e (edit ∷ edits) row (h, hs) l = run_edits-Later e edits (run_edit edit row) hs (
    Edited-Later e row (run_edit edit row)
      (subst (λ x. Edited x row (run_edit edit row)) h (run_edit-Edited edit row)) l)

Later-apply_remote :
    (local_id : ℤ) (r : RemoteEntry) (today : Text) (now : ℕ) (e : ListEntry)
    (row : Option ListEntry)
    → r.since ≡ e.local_updated_at
    → Later e row
    → (row ≡ some e) ⊎ (apply_remote local_id r today now row ≡ (row, false))
unfolding apply_remote
Later-apply_remote local_id r today now e none s l = absurd l
Later-apply_remote local_id r today now e (some e') s (inl same) = inl (ap some same)
Later-apply_remote local_id r today now e (some e') s (inr l) = inr (
    if-P (λ (x : Option ListEntry × Bool). x ≡ (some e', false)) (leb e'.local_updated_at r.since) _
      (some e', false) (λ c. absurd (too_old c)) (λ c. refl))
  where
    too_old : leb e'.local_updated_at r.since ≡ true → ⊥
    too_old c = ground (arith, s)

-- What another tracker brings on the strength of a row read before is dropped if any edit changed the row
-- since, whatever the clock says, where no call of `MarkWatched` was one that only completes the show.
pub apply_remote-run_edits :
    (local_id : ℤ) (r : RemoteEntry) (today : Text) (now : ℕ) (e : ListEntry) (edits : List Edit)
    → r.since ≡ e.local_updated_at
    → Loud edits (some e)
    → (run_edits edits (some e) ≡ some e)
      ⊎ (apply_remote local_id r today now (run_edits edits (some e))
          ≡ (run_edits edits (some e), false))
apply_remote-run_edits local_id r today now e edits s loud =
    Later-apply_remote local_id r today now e (run_edits edits (some e)) s
      (run_edits-Later e edits (some e) loud (inl refl))

-- The row says completed and waits for no push, while the tracker was told otherwise.
abbrev pub Lost : World → Type 0
Lost w =
    (e : ListEntry) × (m : Message) × (w.row ≡ some e)
    × (w.told ≡ some m)
    × (e.status ≡ some completed)
    × (e.dirty ≡ false)
    × (m.status ≢ some completed)

-- A push that begins between the two statements of `MarkWatched` and ends after them.
abbrev pub between : ℕ → Text → Option ℤ → ℕ → World → World
between count today id at w =
    let w' = push_begin false w in
    push_end (push_answer (some (id, at)) (record w' { row = complete count today w'.row }))

completes :
    (count : ℕ) (today : Text) (e : ListEntry)
    → is_unfinished e.status ≡ true
    → 0 < e.progress
    → 0 < count
    → count ≤ e.progress
    → (complete_row count today e).status ≡ some completed
unfolding complete_row
completes count today e u p k l =
    if-P (λ x. x.status ≡ some completed)
      (is_unfinished e.status && ltb 0 e.progress && ltb 0 count && leb count e.progress) _ e
      (λ c. refl) (λ c. absurd (ground (arith, u)))

completes_in_place :
    (count : ℕ) (today : Text) (e : ListEntry)
    → (complete_row count today e).local_updated_at ≡ e.local_updated_at
unfolding complete_row
completes_in_place count today e =
    if-P (λ x. x.local_updated_at ≡ e.local_updated_at) _ _ e (λ c. refl) (λ c. refl)

begin_dirty : (e : ListEntry) → e.dirty ≡ true → begin false (some e) ≡ reading e
unfolding begin
begin_dirty e h = ap (λ d. if not d && true then idle else reading e) h

-- If a push reads a flagged entry between the two statements of `MarkWatched`, of which the second completes
-- the show, and AniList takes it, then the completed row is no longer flagged, while AniList was told that
-- the show is not completed.
pub completion-Lost :
    (count : ℕ) (today : Text) (id : Option ℤ) (at : ℕ) (told : Option Message) (e : ListEntry)
    → e.dirty ≡ true
    → is_unfinished e.status ≡ true
    → 0 < e.progress
    → 0 < count
    → count ≤ e.progress
    → Lost (between count today id at (record { row = some e; push = idle; told = told }))
unfolding push_begin push_end push_answer answer clear clear_dirty_at complete
completion-Lost count today id at told e d u p k l =
    subst
      (λ phase. Lost (
        push_end (
          push_answer (some (id, at))
            (record { row = some (complete_row count today e); push = phase; told = told }))))
      (sym (begin_dirty e d))
      (
        record (complete_row count today e) {
          dirty =
              (if leb (complete_row count today e).local_updated_at e.local_updated_at
                then false
                else (complete_row count today e).dirty);
          score_cleared =
              (if leb (complete_row count today e).local_updated_at e.local_updated_at
                then false
                else (complete_row count today e).score_cleared);
          anilist_failed_at = 0;
          remote_updated_at = at;
          id = (elim id [ none ↦ (complete_row count today e).id | some id ↦ id ]);
        },
        message_of e,
        refl,
        refl,
        completes count today e u p k l,
        cleared,
        different,
      )
  where
    cleared :
        (if leb (complete_row count today e).local_updated_at e.local_updated_at
          then false
          else (complete_row count today e).dirty)
        ≡ false
    cleared = rw (completes_in_place count today e) (ground arith)

    different : (message_of e).status ≢ some completed
    different h =
        unfold message_of set_progress is_unfinished is_completed in
        true≢false (sym u ∙ ap is_unfinished h)
