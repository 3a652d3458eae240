-- ===== src/Queue/Rows.antt =====
-- internal/store/queue.go: the statements on download_queue, as functions on its rows. A statement
-- that fails changes no row; the caller's model says when one does.
use kuro.Base.{
  ℕ, suc, ◌+◌, Bool, true, false, not, ◌&&◌, List, [], ◌∷◌, ◌++◌, Option, none, some, Text, text_eq,
  keep, any, ◌==◌, if◌then◌else◌,
}
use kuro.Base.Int.{ℤ, pos, negsuc}
use kuro.Base.Decimal.{itoa}

-- The `state` column.
pub data State : Type 0 where
  pending active failed done : State

-- What the `error` column says.
pub data Cause : Type 0 where
  -- "no peers sent anything for %d minutes": the share on disk is left out.
  no_peers : (minutes : ℕ) → Cause
  -- `ErrSeedersSilent`
  silent : Cause
  plain : Text → Cause
  -- "gave up after %d tries: %w"
  gave_up : (tries : ℕ) → Cause → Cause

pub record QueuedDownload : Type 0 where
  pub anime_id : ℕ
  pub ep_key : Text
  pub episode : ℕ
  pub season : ℕ
  pub state : State
  pub error : Option Cause
  pub info_hash : Text
  pub release : Text
  pub attempts : ℕ
  -- Unix milliseconds.
  pub retry_at : Option ℕ
  -- Unix seconds; moving to the front may take it below every other.
  pub queued_at : ℤ
  pub started_at : Option ℕ

unfoldable pub is_pending : State → Bool
is_pending pending = true
is_pending active = false
is_pending failed = false
is_pending done = false

unfoldable pub is_active : State → Bool
is_active pending = false
is_active active = true
is_active failed = false
is_active done = false

-- `WHERE anime_id = ? AND ep_key = ?`
unfoldable pub is_row : ℕ → Text → QueuedDownload → Bool
is_row anime key q = q.anime_id == anime && text_eq q.ep_key key

-- `UPDATE … WHERE p`
unfoldable pub update_rows :
    (QueuedDownload → Bool)
    → (QueuedDownload → QueuedDownload)
    → List QueuedDownload
    → List QueuedDownload
update_rows p f [] = []
update_rows p f (q ∷ rows) = (if p q then f q else q) ∷ update_rows p f rows

-- `state = CASE WHEN state = 'failed' THEN 'pending' ELSE state END`
unfoldable pub revive : State → State
revive pending = pending
revive active = active
revive failed = pending
revive done = done

-- `state IN ('failed','done')` as well.
unfoldable pub revive_any : State → State
revive_any pending = pending
revive_any active = active
revive_any failed = pending
revive_any done = pending

unfoldable pub release_row : Text → Text → QueuedDownload → QueuedDownload
unfolding revive
release_row hash name q = record q {
  info_hash = hash;
  release = name;
  error = none;
  attempts = 0;
  retry_at = none;
  state = revive q.state;
}

unfoldable pub set_queued_release :
    ℕ → Text → Text → Text → List QueuedDownload → List QueuedDownload × Bool
unfolding update_rows is_row release_row
set_queued_release anime key hash name rows =
    (update_rows (is_row anime key) (release_row hash name) rows, any (is_row anime key) rows)

unfoldable pub new_row : ℕ → ℕ → ℕ → ℕ → QueuedDownload
unfolding itoa
new_row anime season now episode = record {
  anime_id = anime;
  ep_key = itoa episode;
  episode = episode;
  season = season;
  state = pending;
  error = none;
  info_hash = [];
  release = [];
  attempts = 0;
  retry_at = none;
  queued_at = pos now;
  started_at = none;
}

unfoldable pub again : QueuedDownload → QueuedDownload
unfolding revive_any
again q = record q { state = revive_any q.state; error = none; attempts = 0; retry_at = none }

-- `INSERT … ON CONFLICT(anime_id, ep_key) DO UPDATE`
unfoldable pub enqueue_one : ℕ → ℕ → ℕ → ℕ → List QueuedDownload → List QueuedDownload
unfolding is_row update_rows new_row again
enqueue_one anime season now episode rows =
    if any (is_row anime (itoa episode)) rows
    then update_rows (is_row anime (itoa episode)) again rows
    else rows ++ new_row anime season now episode ∷ []

unfoldable pub enqueue_loop : ℕ → ℕ → ℕ → List ℤ → List QueuedDownload → ℕ → List QueuedDownload × ℕ
unfolding enqueue_one
enqueue_loop anime season now [] rows added = (rows, added)
enqueue_loop anime season now (negsuc n ∷ episodes) rows added =
    enqueue_loop anime season now episodes rows added
enqueue_loop anime season now (pos n ∷ episodes) rows added =
    enqueue_loop anime season now episodes
      (if n == 0 then rows else enqueue_one anime season now n rows)
      (if n == 0 then added else suc added)

-- `EnsureAnime` only adds the show to another table. Without episodes the loop adds nothing.
unfoldable pub enqueue : ℕ → ℕ → ℕ → List ℤ → List QueuedDownload → List QueuedDownload × ℕ
unfolding enqueue_loop
enqueue anime season now episodes rows =
    if anime == 0 then (rows, 0) else enqueue_loop anime season now episodes rows 0

-- `Defer`
unfoldable pub defer_row : ℕ → ℕ → Cause → QueuedDownload → QueuedDownload
defer_row now at cause q = record q {
  state = pending;
  started_at = none;
  attempts = q.attempts + 1;
  retry_at = some at;
  error = some cause;
  queued_at = pos now;
}

unfoldable pub is_active_row : ℕ → Text → QueuedDownload → Bool
unfolding is_active is_row
is_active_row anime key q = is_active q.state && is_row anime key q

unfoldable pub defer_retry : ℕ → ℕ → Text → Cause → ℕ → List QueuedDownload → List QueuedDownload
unfolding update_rows is_active_row defer_row
defer_retry now anime key cause at rows =
    update_rows (is_active_row anime key) (defer_row now at cause) rows

unfoldable pub fail_row : Cause → QueuedDownload → QueuedDownload
fail_row cause q = record q { state = failed; error = some cause }

unfoldable pub finish_queued : ℕ → Text → Option Cause → List QueuedDownload → List QueuedDownload
unfolding is_row update_rows fail_row
finish_queued anime key none rows = keep (λ q. not (is_row anime key q)) rows
finish_queued anime key (some cause) rows = update_rows (is_row anime key) (fail_row cause) rows

unfoldable pub requeue_row : QueuedDownload → QueuedDownload
requeue_row q = record q { state = pending; started_at = none }

unfoldable pub requeue_active : ℕ → Text → List QueuedDownload → List QueuedDownload × Bool
unfolding update_rows is_active_row requeue_row
requeue_active anime key rows =
    (update_rows (is_active_row anime key) requeue_row rows, any (is_active_row anime key) rows)

unfoldable pub reset_active : List QueuedDownload → List QueuedDownload
unfolding update_rows is_active requeue_row
reset_active rows = update_rows (λ q. is_active q.state) requeue_row rows
