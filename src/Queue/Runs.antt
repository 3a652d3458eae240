-- ===== src/Queue/Runs.antt =====
-- internal/library/queue.go: the worker and the calls of other goroutines, as steps in any order. The
-- statements of the database succeed here; what a failing one leaves is said of each step alone.
use kuro.Base.{ℕ, ◌≤◌, ◌≡◌, Bool, true, false, List, [], All, Option, none, some, Text}
use kuro.Base.Int.{ℤ}
use kuro.Queue.Rows.{QueuedDownload, is_row, is_active, enqueue, set_queued_release}
use kuro.Queue.Claim.{clear_queue}
use kuro.Queue.Worker.{
  Downloader, InFlight, Failure, no_faults, start_now, restart, set_paused, hold, release_hold,
  cancel, set_user_paused, queue_retries,
}
use kuro.Queue.Step.{claim_next, take_up, end_step, start_run}
use kuro.Queue.Laws.{Unique}

-- Where the worker stands in `step`.
pub data Phase : Type 0 where
  resting : Phase
  -- It has claimed a row and not yet named it as its current one.
  holding : QueuedDownload → Phase
  fetching : QueuedDownload → Phase

pub record World : Type 0 where
  pub down : Downloader
  pub worker : Phase

abbrev pub with_rows : World → List QueuedDownload → World
with_rows w rows = record w { down = record (w.down) { rows = rows } }

unfoldable pub after_claim : Downloader × Option QueuedDownload → World
after_claim (d, none) = record { down = d; worker = resting }
after_claim (d, some q) = record { down = d; worker = holding q }

pub data Step : World → World → Type 0 where
  claims :
      {w : World} (now ms : ℕ)
      → w.worker ≡ resting
      → Step w (after_claim (claim_next now ms w.down))
  takes_up :
      {w : World} (q : QueuedDownload)
      → w.worker ≡ holding q
      → Step w (record { down = take_up q w.down; worker = fetching q })
  ends :
      {w : World} (q : QueuedDownload) (now ms : ℕ) (result : Option Failure) (hash : Option Text)
      → w.worker ≡ fetching q
      → Step w (record { down = end_step no_faults now ms q result hash w.down; worker = resting })
  enqueues :
      {w : World} (anime season now : ℕ) (episodes : List ℤ)
      → Step w (with_rows w (enqueue anime season now episodes w.down.rows).0)
  chooses :
      {w : World} (anime : ℕ) (key hash name : Text)
      → Step w (with_rows w (set_queued_release anime key hash name w.down.rows).0)
  clears : {w : World} → Step w (with_rows w (clear_queue w.down.rows).0)
  starts_now :
      {w : World} (anime : ℕ) (key : Text)
      → Step w (record w { down = (start_now anime key w.down).0 })
  restarts :
      {w : World} (anime : ℕ) (key : Text)
      → Step w (record w { down = (restart anime key w.down).0 })
  cancels_show :
      {w : World} (anime : ℕ) (key : Text)
      → Step w (record w { down = (cancel anime key w.down).0 })
  pauses : {w : World} (paused : Bool) → Step w (record w { down = set_paused paused w.down })
  watches_on : {w : World} (id : Text) → Step w (record w { down = hold id w.down })
  releases : {w : World} (id : Text) → Step w (record w { down = release_hold id w.down })
  user_pauses :
      {w : World} (hash : Text) (paused : Bool)
      → Step w (record w { down = set_user_paused hash paused w.down })
  -- The program stops, at any point of the worker, and starts again.
  reboots :
      {w : World}
      → Step w (record { down = start_run false w.down.rows w.down.setting; worker = resting })

-- The program starts with an empty table.
abbrev pub first_run : World
first_run = record { down = start_run false [] false; worker = resting }

pub data Reached : World → Type 0 where
  begins : Reached first_run
  steps : {w w' : World} → Reached w → Step w w' → Reached w'

-- A row that the worker is at: with no more tries than it had when the worker claimed it.
abbrev pub Mine : Phase → QueuedDownload → Type 0
Mine resting q = ⊥
Mine (holding n) q = (is_row n.anime_id n.ep_key q ≡ true) × (q.attempts ≤ n.attempts)
Mine (fetching n) q = (is_row n.anime_id n.ep_key q ≡ true) × (q.attempts ≤ n.attempts)

abbrev pub RowOk : Phase → QueuedDownload → Type 0
RowOk at q = (q.attempts ≤ queue_retries) × (is_active q.state ≡ true → Mine at q)

-- The episode that the worker is known to fetch is the one it fetches.
abbrev pub Names : Phase → Option InFlight → Type 0
Names resting c = c ≡ none
Names (holding n) c = c ≡ none
Names (fetching n) c =
    (x : InFlight) × (c ≡ some x) × (x.anime_id ≡ n.anime_id) × (x.ep_key ≡ n.ep_key)

pub record IsSound (w : World) : Type 0 where
  pub unique : Unique w.down.rows
  pub kept : All (RowOk w.worker) w.down.rows
  pub named : Names w.worker w.down.current
