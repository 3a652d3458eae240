-- ===== src/Queue/Worker.antt =====
-- internal/library/queue.go: the Downloader. `step` waits in the middle for the download, so it is
-- two operations here, the claim of a row and the end of its download, and one more between them
-- when the worker names what it fetches; calls of other goroutines come between.
use kuro.Base.{
  ℕ, suc, ◌+◌, ◌-◌, ◌*◌, ◌/◌, min, max, Bool, true, false, not, ◌&&◌, ◌||◌, List, [], ◌∷◌, ◌++◌,
  Option, none, some, Text, text, text_eq, to_lower, has, keep, ◌==◌, if◌then◌else◌,
}
use kuro.Base.Decimal.{itoa}
use kuro.Queue.Rows.{QueuedDownload, Cause, no_peers, silent, plain}
use kuro.Queue.Claim.{prioritise, promote, dequeue}

pub record InFlight : Type 0 where
  pub anime_id : ℕ
  pub ep_key : Text
  -- `stop` was called.
  pub stopped : Bool

pub record Downloader : Type 0 where
  -- The rows of download_queue, and the setting `downloads.paused`.
  pub rows : List QueuedDownload
  pub setting : Bool
  pub current : Option InFlight
  pub user_paused : List Text
  pub watching : List Text
  pub paused : Bool
  -- A token in `wake`.
  pub woken : Bool

-- How a download ends.
pub data Failure : Type 0 where
  -- `torrent.ErrPaused`
  paused_error : Failure
  -- `ErrSeedersSilent`
  seeders_silent : Failure
  -- `torrent.StallError`, and for how many nanoseconds nothing came.
  stall : (quiet : ℕ) → Failure
  other : Text → Failure

-- The statements of the database that fail, of those that the end of one download may use.
pub record Faults : Type 0 where
  pub requeue : Bool
  pub put_off : Bool
  pub finish : Bool

abbrev pub no_faults : Faults
no_faults = record { requeue = false; put_off = false; finish = false }

-- `d.held()`
unfoldable pub held : Downloader → Bool
held d = d.paused || (elim d.watching [ [] ↦ false | _ ∷ _ ↦ true ])

unfoldable pub stop_current : Downloader → Downloader
stop_current d = record d {
  current = elim d.current [ none ↦ none | some c ↦ some (record c { stopped = true }) ];
}

unfoldable pub wake : Downloader → Downloader
wake d = record d { woken = true }

-- `SetPaused`, when the setting is stored; otherwise it changes nothing.
unfoldable pub set_paused : Bool → Downloader → Downloader
unfolding stop_current wake
set_paused true d = stop_current (record d { setting = true; paused = true })
set_paused false d = wake (record d { setting = false; paused = false })

unfoldable pub restore_paused : Downloader → Downloader
restore_paused d = if d.setting then record d { paused = true } else d

unfoldable pub fetches : ℕ → Text → Option InFlight → Bool
fetches anime key none = false
fetches anime key (some c) = c.anime_id == anime && text_eq c.ep_key key

unfoldable pub now_moved : ℕ → Text → Downloader → List QueuedDownload × Bool → Downloader × Bool
unfolding set_paused fetches stop_current
now_moved anime key d (rows, false) = (record d { rows = rows }, false)
now_moved anime key d (rows, true) =
    let d' = record d { rows = rows } in
    (set_paused false (if fetches anime key d.current then d' else stop_current d'), true)

-- `Now`
unfoldable pub start_now : ℕ → Text → Downloader → Downloader × Bool
unfolding now_moved
start_now anime key d = now_moved anime key d (prioritise anime key d.rows)

unfoldable pub restart_moved : Downloader → List QueuedDownload × Bool → Downloader × Bool
unfolding set_paused stop_current
restart_moved d (rows, false) = (record d { rows = rows }, false)
restart_moved d (rows, true) = (set_paused false (stop_current (record d { rows = rows })), true)

unfoldable pub restart : ℕ → Text → Downloader → Downloader × Bool
unfolding restart_moved
restart anime key d = restart_moved d (promote anime key d.rows)

-- `session`: "%d-%s"
unfoldable pub session : InFlight → Text
unfolding itoa
session f = itoa f.anime_id ++ b'-' ∷ f.ep_key

unfoldable pub plays_under : Text → Option InFlight → Bool
unfolding session
plays_under id none = false
plays_under id (some f) = text_eq (session f) id

-- `Hold`
unfoldable pub hold : Text → Downloader → Downloader
unfolding has plays_under stop_current
hold id d =
    let d' = record d { watching = if has id d.watching then d.watching else id ∷ d.watching } in
    if has id d.watching || plays_under id d.current then d' else stop_current d'

-- `Downloading`
unfoldable pub is_downloading : Text → Downloader → Bool
unfolding plays_under
is_downloading id d = plays_under id d.current

unfoldable pub leave_watching : Downloader → List Text → Downloader
unfolding wake
leave_watching d [] = wake (record d { watching = [] })
leave_watching d (w ∷ left) = record d { watching = w ∷ left }

-- `Release`
unfoldable pub release_hold : Text → Downloader → Downloader
unfolding leave_watching
release_hold id d = leave_watching d (keep (λ w. not (text_eq w id)) d.watching)

abbrev pub queue_idle : ℕ
queue_idle = 30 * 1000000000

abbrev pub queue_retries : ℕ
queue_retries = 2

-- In milliseconds, as `retry_at` is.
abbrev pub queue_retry_delay : ℕ
queue_retry_delay = 5 * 60 * 1000

-- `idle`: `at` in milliseconds, `now` in nanoseconds. A time that has passed gives the least wait.
unfoldable pub idle_wait : ℕ → Option ℕ → ℕ
idle_wait now none = queue_idle
idle_wait now (some at) = max 1000000 (min queue_idle (at * 1000000 - now))

unfoldable pub swarm_failure : Failure → Bool
swarm_failure paused_error = false
swarm_failure seeders_silent = true
swarm_failure (stall quiet) = true
swarm_failure (other why) = false

abbrev minute : ℕ
minute = 60 * 1000000000

-- `Round(time.Minute)` rounds half up.
unfoldable pub describe : Failure → Cause
describe paused_error = plain (text "paused")
describe seeders_silent = silent
describe (stall quiet) = no_peers (max 1 ((quiet + minute / 2) / minute))
describe (other why) = plain why

-- `Cancel`: how many rows it drops, and one more for the episode in flight.
unfoldable pub cancels : ℕ → Text → Option InFlight → Bool
unfolding fetches
cancels anime key none = false
cancels anime [] (some c) = c.anime_id == anime
cancels anime (k ∷ key) (some c) = fetches anime (k ∷ key) (some c)

unfoldable pub cancel_rows : ℕ → Text → Downloader → List QueuedDownload × ℕ → Downloader × ℕ
unfolding cancels stop_current
cancel_rows anime key d (rows, removed) =
    let d' = record d { rows = rows } in
    if cancels anime key d.current then (stop_current d', suc removed) else (d', removed)

unfoldable pub cancel : ℕ → Text → Downloader → Downloader × ℕ
unfolding cancel_rows
cancel anime key d = cancel_rows anime key d (dequeue anime key d.rows)

-- `SetUserPaused`
unfoldable pub set_user_paused : Text → Bool → Downloader → Downloader
unfolding to_lower
set_user_paused hash true d = record d { user_paused = to_lower hash ∷ d.user_paused }
set_user_paused hash false d = record d {
  user_paused = keep (λ h. not (text_eq h (to_lower hash))) d.user_paused;
}

-- `pausedByUser`, with the hash that the record of the episode names, if there is one.
unfoldable pub paused_by_user : Option Text → List Text → Bool
unfolding has
paused_by_user none user_paused = false
paused_by_user (some hash) user_paused = has (to_lower hash) user_paused
