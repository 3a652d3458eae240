-- ===== src/Sync/Push.antt =====
-- internal/library/sync.go: a push of one show to AniList, in the three parts between which the row may be
-- changed, with what the tracker was last told. `pushing` is held from the first part to the last.
use kuro.Base.{
  ◌||◌, ℕ, Bool, true, false, not, ◌&&◌, Option, none, some, Text, ltb, ◌==◌, if◌then◌else◌,
}
use kuro.Base.Int.{ℤ}
use kuro.Sync.Entry.{
  ListStatus, ListEntry, is_completed, mark_watched, unwatch, set_score, set_list_status,
}
use kuro.Sync.Remote.{RemoteEntry, Entry, apply_remote, clear_dirty_at, takes_remote, merge_entry}

-- The variables of a request: what is none is left out, and AniList keeps what it has.
pub record Message : Type 0 where
  pub status : Option ListStatus
  pub progress : ℕ
  pub completed_at : Option Text
  pub repeat : Option ℕ
  pub score : Option ℕ

-- `SetProgress`, up to the request.
unfoldable pub set_progress : ℕ → Option ListStatus → Option Text → ℕ → ℕ → Bool → Message
set_progress progress status completed repeat score clear_score = record {
  status = status;
  progress = progress;
  completed_at = completed;
  repeat = (if ltb 0 repeat then some repeat else none);
  score = (if ltb 0 score || clear_score then some score else none);
}

unfoldable pub message_of : ListEntry → Message
unfolding is_completed set_progress
message_of d =
    set_progress d.progress d.status (if is_completed d.status then d.completed_at else none)
      d.repeat_count d.score (d.score_cleared && d.score == 0)

-- Where `pushLatest` is: it has read the row, or AniList has answered.
pub data Phase : Type 0 where
  idle : Phase
  reading : ListEntry → Phase
  answered : ListEntry → Option ℤ → ℕ → Phase

-- `told` is what the tracker was last told or has told.
pub record World : Type 0 where
  pub row : Option ListEntry
  pub push : Phase
  pub told : Option Message

unfoldable pub begin : Bool → Option ListEntry → Phase
begin force none = idle
begin force (some e) = if not e.dirty && not force then idle else reading e

-- `pushLatest`, up to `push`.
unfoldable pub push_begin : Bool → World → World
unfolding begin
push_begin force w = record w { push = begin force w.row }

-- `SetProgress`: the answer, or none for an error.
unfoldable pub answer : Option (Option ℤ × ℕ) → Phase → World → World
unfolding message_of
answer saved idle w = w
answer saved (answered d id at) w = w
answer none (reading d) w = record w { push = idle }
answer (some (id, at)) (reading d) w = record w {
  push = answered d id at;
  told = some (message_of d);
}

unfoldable pub push_answer : Option (Option ℤ × ℕ) → World → World
unfolding answer
push_answer saved w = answer saved w.push w

unfoldable pub clear : Phase → World → World
clear idle w = w
clear (reading d) w = w
clear (answered d id at) w = record w {
  push = idle;
  row = clear_dirty_at id at d.local_updated_at w.row;
}

-- The end of `push`.
unfoldable pub push_end : World → World
unfolding clear
push_end w = clear w.push w

-- One entry of a merge.
unfoldable pub pull : Entry → ℕ → World → World
unfolding takes_remote merge_entry
pull v now w =
    if takes_remote v w.row
    then record w {
      row = merge_entry v now w.row;
      told = some (record {
        status = v.status;
        progress = v.progress;
        completed_at = v.completed_at;
        repeat = some v.repeat;
        score = some v.score;
      });
    }
    else w

-- What AniList says to the deletion: nothing was asked, done, or an error.
pub data Deletion : Type 0 where
  unasked deleted refused : Deletion

-- `Remove`; the Boolean says that MyAnimeList did not fail.
unfoldable pub remove : Deletion → Bool → World → World
remove refused mal w = w
remove unasked true w = record w { row = none }
remove unasked false w = w
remove deleted true w = record w { row = none; told = none }
remove deleted false w = record w { told = none }

-- A call that changes the row. `lists` carries the row as `SetListStatus` read it.
pub data Edit : Type 0 where
  watches : ℤ → ℕ → ℕ → Text → ℕ → Edit
  unwatches : ℕ → ℕ → Edit
  scores : ℤ → ℕ → ℕ → Edit
  lists : ℤ → Option ListEntry → ListStatus → Option ℕ → Text → ℕ → Edit
  applies : ℤ → RemoteEntry → Text → ℕ → Edit

unfoldable pub run_edit : Edit → Option ListEntry → Option ListEntry
unfolding mark_watched unwatch set_score set_list_status apply_remote
run_edit (watches local_id count episode today now) row =
    (mark_watched local_id count episode today now row).0
run_edit (unwatches episode now) row = unwatch episode now row
run_edit (scores local_id score now) row = set_score local_id score now row
run_edit (lists local_id read status score today now) row =
    set_list_status local_id read status score today now row
run_edit (applies local_id r today now) row = (apply_remote local_id r today now row).0

-- A call of `MarkWatched` whose first statement changes nothing: if the second completes the entry, it
-- leaves local_updated_at as it was.
unfoldable pub is_quiet : Edit → Option ListEntry → Bool
unfolding mark_watched
is_quiet (watches local_id count episode today now) row =
    not (mark_watched local_id count episode today now row).1
is_quiet (unwatches episode now) row = false
is_quiet (scores local_id score now) row = false
is_quiet (lists local_id read status score today now) row = false
is_quiet (applies local_id r today now) row = false
