-- ===== src/Queue/Step.antt =====
-- internal/library/queue.go: the worker's `step`, in its three parts, and the start of `Run`.
use kuro.Base.{ℕ, ◌+◌, ◌*◌, Bool, false, List, Option, none, some, Text, ltb, if◌then◌else◌}
use kuro.Queue.Rows.{
  QueuedDownload, Cause, gave_up, finish_queued, requeue_active, reset_active, defer_retry,
}
use kuro.Queue.Claim.{next_queued}
use kuro.Queue.Worker.{
  Downloader, InFlight, Failure, paused_error, seeders_silent, stall, other, Faults, held,
  queue_retries, queue_retry_delay, describe, paused_by_user, restore_paused,
}

unfoldable pub claimed :
    Downloader → List QueuedDownload × Option QueuedDownload → Downloader × Option QueuedDownload
claimed d (rows, next) = (record d { rows = rows }, next)

-- The start of `step`: `NextQueued`. What is fetched ahead for the row behind it is left out.
unfoldable pub claim_next : ℕ → ℕ → Downloader → Downloader × Option QueuedDownload
unfolding claimed
claim_next now ms d = claimed d (next_queued now ms d.rows)

-- The worker names what it fetches, and stops at once when the queue stands down by now.
unfoldable pub take_up : QueuedDownload → Downloader → Downloader
unfolding held
take_up next d = record d {
  current = some (record { anime_id = next.anime_id; ep_key = next.ep_key; stopped = held d });
}

unfoldable pub was_stopped : Option InFlight → Bool
was_stopped none = false
was_stopped (some c) = c.stopped

unfoldable pub put_back : Bool → QueuedDownload → Downloader → Downloader
unfolding requeue_active
put_back fails next d =
    if fails then d else record d { rows = (requeue_active next.anime_id next.ep_key d.rows).0 }

unfoldable pub finish_row : Bool → QueuedDownload → Option Cause → Downloader → Downloader
unfolding finish_queued
finish_row fails next cause d =
    if fails then d else record d { rows = finish_queued next.anime_id next.ep_key cause d.rows }

unfoldable pub put_off_row : Bool → ℕ → ℕ → QueuedDownload → Failure → Downloader → Downloader
unfolding defer_retry describe
put_off_row fails now ms next failure d = if fails then d else record d {
  rows =
      defer_retry now next.anime_id next.ep_key (describe failure)
        (ms + queue_retry_delay * (next.attempts + 1)) d.rows;
}

-- The cause that a failed row keeps.
unfoldable pub last_cause : ℕ → Failure → Cause
unfolding describe
last_cause attempts failure =
    if ltb 0 attempts then gave_up (attempts + 1) (describe failure) else describe failure

unfoldable pub ends_failed :
    Faults → ℕ → ℕ → QueuedDownload → Failure → Option Text → Downloader → Downloader
unfolding put_off_row finish_row last_cause put_back
ends_failed f now ms next paused_error hash d =
    if paused_by_user hash d.user_paused
    then finish_row f.finish next none d
    else put_back f.requeue next d
ends_failed f now ms next seeders_silent hash d =
    if ltb next.attempts queue_retries
    then put_off_row f.put_off now ms next seeders_silent d
    else finish_row f.finish next (some (last_cause next.attempts seeders_silent)) d
ends_failed f now ms next (stall quiet) hash d =
    if ltb next.attempts queue_retries
    then put_off_row f.put_off now ms next (stall quiet) d
    else finish_row f.finish next (some (last_cause next.attempts (stall quiet))) d
ends_failed f now ms next (other why) hash d =
    finish_row f.finish next (some (last_cause next.attempts (other why))) d

unfoldable pub ends_unstopped :
    Faults → ℕ → ℕ → QueuedDownload → Option Failure → Option Text → Downloader → Downloader
unfolding ends_failed finish_row
ends_unstopped f now ms next none hash d = finish_row f.finish next none d
ends_unstopped f now ms next (some failure) hash d = ends_failed f now ms next failure hash d

-- The end of `step`: `result` is none for a download that succeeded, and `hash` the torrent on record
-- for the episode.
unfoldable pub end_step :
    Faults → ℕ → ℕ → QueuedDownload → Option Failure → Option Text → Downloader → Downloader
unfolding was_stopped put_back ends_unstopped
end_step f now ms next result hash d =
    let d' = record d { current = none } in
    if was_stopped d.current
    then put_back f.requeue next d'
    else ends_unstopped f now ms next result hash d'

-- The start of `Run`, in a program that starts anew.
unfoldable pub start_run : Bool → List QueuedDownload → Bool → Downloader
unfolding reset_active restore_paused
start_run fails rows setting = restore_paused (record {
  rows = if fails then rows else reset_active rows;
  setting = setting;
  current = none;
  user_paused = List.[];
  watching = List.[];
  paused = false;
  woken = false;
})
