-- ===== src/Sync/Tests.antt =====
-- One show of twelve episodes on the list.
use kuro.Base.{◌≡◌, ◌⊎◌, refl, inl, inr, true, false, List, [], ◌∷◌, none, some, text, arith}
use kuro.Base.Int.{pos, negsuc}
use kuro.Sync.Entry.{
  current, completed, ListEntry, mark_watched, mark_progress, unwatch, set_score, is_unfinished,
}
use kuro.Sync.Remote.{RemoteEntry, apply_remote}
use kuro.Sync.Push.{
  World, idle, push_begin, push_answer, push_end, begin, Edit, watches, scores, run_edit, is_quiet,
}
use kuro.Sync.Runs.{Reached, unlisted, begins, steps, edits, pushes, answers, ends}
use kuro.Sync.Agreement.{Clean}
use kuro.Sync.Settled.{Reached-Settled}
use kuro.Sync.Laws.{mark_all, Stands, mark_all_lem, RowWith, mark_watched-unwatch}
use kuro.Sync.Races.{run_edits, Loud, Lost, between, apply_remote-run_edits, completion-Lost}

abbrev rated : World
rated = record unlisted { row = run_edit (scores (negsuc 0) 80 1000) none }

abbrev sent : World
sent = push_answer (some (some (pos 5), 1001)) (push_begin false rated)

-- The score is sent, and while AniList answers the first episode is watched.
abbrev watched_meanwhile : World
watched_meanwhile = record sent {
  row = run_edit (watches (negsuc 0) 12 1 (text "2026-01-02") 1001) sent.row;
}

meanwhile_is_loud : is_quiet (watches (negsuc 0) 12 1 (text "2026-01-02") 1001) sent.row ≡ false
unfolding is_quiet mark_watched mark_progress push_answer push_begin run_edit set_score begin
meanwhile_is_loud = refl

ended-Reached : Reached (push_end watched_meanwhile)
ended-Reached =
    steps
      (steps
        (steps
          (steps (steps begins (edits (scores (negsuc 0) 80 1000) (inl refl))) (pushes false refl))
          (answers (some (some (pos 5), 1001))))
        (edits (watches (negsuc 0) 12 1 (text "2026-01-02") 1001) (inr meanwhile_is_loud)))
      ends

Reached-Settled_example : Clean (push_end watched_meanwhile).told (push_end watched_meanwhile).row
Reached-Settled_example = Reached-Settled ended-Reached

-- Episodes 3, 12 and 2.
mark_all_lem_example :
    Stands 12 12
      (mark_all (negsuc 0) 12 (text "2026-01-02") ((3, 1000) ∷ (12, 1010) ∷ (2, 1020) ∷ []) none)
mark_all_lem_example =
    mark_all_lem (negsuc 0) 12 (text "2026-01-02") 3 1000 ((12, 1010) ∷ (2, 1020) ∷ [])
      (omega arith)

abbrev finished_show : ListEntry
finished_show = record {
  id = pos 5;
  status = some completed;
  progress = 12;
  score = 80;
  score_cleared = false;
  repeat_count = 1;
  started_at = none;
  completed_at = some (text "2026-01-02");
  remote_updated_at = 1000;
  local_updated_at = 1000;
  dirty = false;
  anilist_failed_at = 0;
}

mark_watched-unwatch_example :
    RowWith completed 12 finished_show
      (mark_watched
        (negsuc 0)
        12
        12
        (text "2026-01-03")
        1030
        (unwatch 12 1020 (some finished_show))).0
mark_watched-unwatch_example =
    mark_watched-unwatch (negsuc 0) 11 12 (text "2026-01-03") 1020 1030 finished_show refl refl
      (omega arith) (omega arith)

abbrev from_mal : RemoteEntry
from_mal = record { status = some current; progress = 3; score = 0; repeat = 0; since = 1000 }

abbrev rerated : List Edit
rerated = scores (negsuc 0) 90 900 ∷ []

rerated-Loud : Loud rerated (some finished_show)
unfolding is_quiet
rerated-Loud = (refl, tt)

apply_remote-run_edits_example :
    (run_edits rerated (some finished_show) ≡ some finished_show)
    ⊎ (apply_remote
          (negsuc 0)
          from_mal
          (text "2026-01-03")
          1040
          (run_edits rerated (some finished_show))
        ≡ (run_edits rerated (some finished_show), false))
apply_remote-run_edits_example =
    apply_remote-run_edits (negsuc 0) from_mal (text "2026-01-03") 1040 finished_show rerated refl
      rerated-Loud

-- The last episode is marked, and not completed yet.
abbrev last_marked : ListEntry
last_marked = record finished_show { status = some current; dirty = true; local_updated_at = 1050 }

last_marked_unfinished : is_unfinished last_marked.status ≡ true
unfolding is_unfinished
last_marked_unfinished = refl

completion-Lost_example : Lost (
    between 12
      (text "2026-01-03")
      (some (pos 5))
      1051
      (record { row = some last_marked; push = idle; told = none }))
completion-Lost_example =
    completion-Lost 12 (text "2026-01-03") (some (pos 5)) 1051 none last_marked refl
      last_marked_unfinished (omega arith) (omega arith) (omega arith)
