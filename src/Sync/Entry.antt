-- ===== src/Sync/Entry.antt =====
-- internal/store/sync.go: the row of list_entry of one show, and the statements that change it. They
-- name the row by the show, which is not 0 here and known to the table anime. `today` is the date of a
-- call and `now` its time in seconds; `local_id` is the id that a row which the tracker has not seen
-- is given.
use kuro.Base.{
  ℕ, ◌+◌, ◌-◌, max, min, Bool, true, false, not, ◌&&◌, ◌||◌, Option, none, some, Text, leb, ltb,
  ◌==◌, if◌then◌else◌,
}
use kuro.Base.Int.{ℤ}

-- `ListStatuses`
pub data ListStatus : Type 0 where
  current completed paused dropped planning repeating : ListStatus

pub record ListEntry : Type 0 where
  pub id : ℤ
  pub status : Option ListStatus
  pub progress : ℕ
  pub score : ℕ
  pub score_cleared : Bool
  pub repeat_count : ℕ
  pub started_at : Option Text
  pub completed_at : Option Text
  pub remote_updated_at : ℕ
  pub local_updated_at : ℕ
  pub dirty : Bool
  pub anilist_failed_at : ℕ

-- What `INSERT` leaves to the defaults of the columns, for a row that only kuro has.
unfoldable pub local_row : ℤ → ℕ → ListEntry
local_row local_id now = record {
  id = local_id;
  status = none;
  progress = 0;
  score = 0;
  score_cleared = false;
  repeat_count = 0;
  started_at = none;
  completed_at = none;
  remote_updated_at = 0;
  local_updated_at = now;
  dirty = true;
  anilist_failed_at = 0;
}

-- `coalesce(a, b)`
abbrev pub coalesce {ℓ} : {A : Type ℓ} → Option A → Option A → Option A
coalesce none b = b
coalesce (some a) b = some a

-- `max(?, list_entry.local_updated_at + 1)`
unfoldable pub bumped : ℕ → ListEntry → ℕ
bumped now e = max now (e.local_updated_at + 1)

-- `status = 'COMPLETED'`, which is not true of NULL.
unfoldable pub is_completed : Option ListStatus → Bool
is_completed (some completed) = true
is_completed (some current) = false
is_completed (some paused) = false
is_completed (some dropped) = false
is_completed (some planning) = false
is_completed (some repeating) = false
is_completed none = false

unfoldable pub is_repeating : Option ListStatus → Bool
is_repeating (some repeating) = true
is_repeating (some current) = false
is_repeating (some completed) = false
is_repeating (some paused) = false
is_repeating (some dropped) = false
is_repeating (some planning) = false
is_repeating none = false

unfoldable pub is_null : Option ListStatus → Bool
is_null none = true
is_null (some s) = false

-- `INSERT` of the first statement of `MarkWatched`.
unfoldable pub first_row : ℤ → ℕ → Text → ℕ → ListEntry
unfolding local_row
first_row local_id episode today now = record (local_row local_id now) {
  status = some current;
  progress = episode;
  started_at = some today;
}

-- `DO UPDATE` of the first statement of `MarkWatched`.
unfoldable pub progress_row : ℕ → Text → ℕ → ListEntry → ListEntry
unfolding bumped is_completed is_repeating
progress_row episode today now e = record e {
  progress = max e.progress episode;
  status = (if is_completed e.status || is_repeating e.status then e.status else some current);
  started_at = coalesce e.started_at (some today);
  local_updated_at = bumped now e;
  dirty = (if ltb e.progress episode then true else e.dirty);
}

-- That statement, with whether it changed a row.
unfoldable pub mark_progress : ℤ → ℕ → Text → ℕ → Option ListEntry → Option ListEntry × Bool
unfolding first_row progress_row is_null
mark_progress local_id episode today now none = (some (first_row local_id episode today now), true)
mark_progress local_id episode today now (some e) =
    if ltb e.progress episode || is_null e.status
    then (some (progress_row episode today now e), true)
    else (some e, false)

-- `status NOT IN ('COMPLETED')`, which is not true of NULL.
unfoldable pub is_unfinished : Option ListStatus → Bool
unfolding is_completed
is_unfinished none = false
is_unfinished (some s) = not (is_completed (some s))

-- The second: `count` is the show's episode_count, 0 where it is not known.
unfoldable pub complete_row : ℕ → Text → ListEntry → ListEntry
unfolding is_unfinished is_repeating
complete_row count today e =
    if is_unfinished e.status && ltb 0 e.progress && ltb 0 count && leb count e.progress
    then record e {
      repeat_count = e.repeat_count + (if is_repeating e.status then 1 else 0);
      status = some completed;
      completed_at = some today;
      dirty = true;
    }
    else e

unfoldable pub complete : ℕ → Text → Option ListEntry → Option ListEntry
unfolding complete_row
complete count today none = none
complete count today (some e) = some (complete_row count today e)

-- `MarkWatched`
unfoldable pub mark_watched : ℤ → ℕ → ℕ → Text → ℕ → Option ListEntry → Option ListEntry × Bool
unfolding mark_progress complete
mark_watched local_id count episode today now row =
    if episode == 0
    then (row, false)
    else let (row', changed) = mark_progress local_id episode today now row in
      (complete count today row', changed)

-- The statement of `Unwatch` on list_entry, for an episode from 1.
unfoldable pub unwatch_row : ℕ → ℕ → ListEntry → ListEntry
unfolding bumped is_completed
unwatch_row episode now e =
    if ltb (episode - 1) e.progress || is_completed e.status
    then record e {
      progress = min e.progress (episode - 1);
      completed_at = (if is_completed e.status then none else e.completed_at);
      status = (if is_completed e.status then some current else e.status);
      local_updated_at = bumped now e;
      dirty = true;
    }
    else e

unfoldable pub unwatch : ℕ → ℕ → Option ListEntry → Option ListEntry
unfolding unwatch_row
unwatch episode now none = none
unwatch episode now (some e) = if episode == 0 then some e else some (unwatch_row episode now e)

-- `SetScore`, for a score from 0.
unfoldable pub set_score : ℤ → ℕ → ℕ → Option ListEntry → Option ListEntry
unfolding local_row bumped
set_score local_id score now none =
    if ltb 100 score
    then none
    else some (record (local_row local_id now) { status = some planning; score = score })
set_score local_id score now (some e) =
    if ltb 100 score
    then some e
    else some (record e {
      score = score;
      score_cleared = score == 0;
      local_updated_at = bumped now e;
      dirty = true;
    })

-- `completed` of `SetListStatus` and `ApplyRemote`.
unfoldable pub finish_date : Option ListStatus → Text → Option Text
unfolding is_completed
finish_date status today = if is_completed status then some today else none

score_over : Option ℕ → ℕ → ℕ
score_over none old = old
score_over (some score) old = score

cleared_over : Option ℕ → Bool → Bool
cleared_over none old = old
cleared_over (some score) old = score == 0

-- `SetListStatus`; a score below 0 is none. The row that is read first, in which a rewatch may be under way,
-- is `read`.
unfoldable pub set_list_status :
    ℤ → Option ListEntry → ListStatus → Option ℕ → Text → ℕ → Option ListEntry → Option ListEntry
unfolding local_row bumped finish_date score_over cleared_over is_repeating
set_list_status local_id read status score today now none = some (record (local_row local_id now) {
  status = some status;
  score = score_over score 0;
  completed_at = finish_date (some status) today;
})
set_list_status local_id read status score today now (some e) =
    let was_repeating : Bool = (elim read [ none ↦ false | some r ↦ is_repeating r.status ]) in
    let starting : Bool = is_repeating (some status) && not was_repeating in
    some (record e {
      status = some status;
      progress = (if starting then 0 else e.progress);
      score = score_over score e.score;
      score_cleared = cleared_over score e.score_cleared;
      completed_at = coalesce (finish_date (some status) today) e.completed_at;
      local_updated_at = bumped now e;
      dirty = true;
    })
