-- ===== src/Sync/Remote.antt =====
-- internal/store/sync.go and internal/store/library.go: the statements that bring to the row of a show what a
-- tracker says, and those at the end of a push.
use kuro.Base.{
  ℕ, max, Bool, true, false, not, ◌&&◌, Option, none, some, Text, leb, ltb, if◌then◌else◌,
}
use kuro.Base.Int.{ℤ}
use kuro.Sync.Entry.{ListStatus, ListEntry, local_row, coalesce, bumped, finish_date}

-- `RemoteEntry`, with a status that is not one of `ListStatuses` as none.
pub record RemoteEntry : Type 0 where
  pub status : Option ListStatus
  pub progress : ℕ
  pub score : ℕ
  pub repeat : ℕ
  pub since : ℕ

-- `ApplyRemote`
unfoldable pub apply_remote :
    ℤ → RemoteEntry → Text → ℕ → Option ListEntry → Option ListEntry × Bool
unfolding local_row bumped finish_date
apply_remote local_id r today now none = (
  some (record (local_row local_id now) {
    status = r.status;
    progress = r.progress;
    score = r.score;
    repeat_count = r.repeat;
    completed_at = finish_date r.status today;
  }),
  true,
)
apply_remote local_id r today now (some e) =
    if leb e.local_updated_at r.since
    then (
      some (record e {
        status = coalesce r.status e.status;
        progress = r.progress;
        score = r.score;
        repeat_count = max e.repeat_count r.repeat;
        completed_at = coalesce (finish_date r.status today) e.completed_at;
        local_updated_at = bumped now e;
        dirty = true;
      }),
      true,
    )
    else (some e, false)

-- `ClearDirtyAt`; an id of 0 is none.
unfoldable pub clear_dirty_at : Option ℤ → ℕ → ℕ → Option ListEntry → Option ListEntry
clear_dirty_at remote_id remote_updated_at changed none = none
clear_dirty_at remote_id remote_updated_at changed (some e) =
    let same = leb e.local_updated_at changed in
    some (record e {
      dirty = (if same then false else e.dirty);
      score_cleared = (if same then false else e.score_cleared);
      anilist_failed_at = 0;
      remote_updated_at = remote_updated_at;
      id = (elim remote_id [ none ↦ e.id | some id ↦ id ]);
    })

-- `PushFailed`, of AniList.
unfoldable pub push_failed : ℕ → Option ListEntry → Option ListEntry
push_failed now none = none
push_failed now (some e) = some (record e { anilist_failed_at = now })

-- An entry as AniList holds it.
pub record Entry : Type 0 where
  pub id : ℤ
  pub status : Option ListStatus
  pub progress : ℕ
  pub score : ℕ
  pub repeat : ℕ
  pub started_at : Option Text
  pub completed_at : Option Text
  pub updated_at : ℕ

-- `entryUpdateSet`
unfoldable pub merge_row : Entry → ListEntry → ListEntry
merge_row v e = record e {
  id = v.id;
  status = v.status;
  progress = v.progress;
  score = v.score;
  repeat_count = v.repeat;
  started_at = v.started_at;
  completed_at = v.completed_at;
  remote_updated_at = v.updated_at;
  dirty = false;
}

-- `list_entry.dirty = 0 AND excluded.remote_updated_at > list_entry.remote_updated_at`
unfoldable pub takes_remote : Entry → Option ListEntry → Bool
takes_remote v none = true
takes_remote v (some e) = not e.dirty && ltb e.remote_updated_at v.updated_at

-- `upsertEntry`, of a merge.
unfoldable pub merge_entry : Entry → ℕ → Option ListEntry → Option ListEntry
unfolding merge_row local_row takes_remote
merge_entry v now none = some (merge_row v (local_row v.id now))
merge_entry v now (some e) = if takes_remote v (some e) then some (merge_row v e) else some e
