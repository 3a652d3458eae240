-- ===== src/Queue/Dry.antt =====
-- internal/library/queue.go: how many downloads a queue left alone makes, and that it runs dry.
use kuro.Base.{
  suc, ◌≤◌, ◌≢◌, refl, inl, inr, Bool, true, false, List, [], ◌∷◌, All, Option, none, some,
  Bool-cases, if◌then◌else◌, arith,
}
use kuro.Queue.Rows.{QueuedDownload}
use kuro.Queue.Claim.{next_queued}
use kuro.Queue.Worker.{Downloader, paused_error, held}
use kuro.Queue.Step.{claimed, claim_next, take_up}
use kuro.Queue.Runs.{resting}
use kuro.Queue.Kept.{RowsOk}
use kuro.Queue.Ends.{AfterClaim, next_queued-AfterClaim, end_step-RowsOk}
use kuro.Queue.Rounds.{Round, worked, run_round, started, work}
use kuro.Queue.Drains.{Uses, next_queued-Took, worked-Uses}

-- The engine pauses no download of its own accord: such an end uses up no try.
abbrev pub Unpaused : List Round → Type 0
Unpaused = All (λ (r : Round). r.result ≢ some paused_error)

pub run_round-Uses :
    (r : Round) (d : Downloader)
    → RowsOk resting d.rows
    → r.result ≢ some paused_error
    → Uses d (run_round r d)
unfolding run_round claim_next
run_round-Uses r d h ne = elim (Bool-cases (held d)) [
  | inl e ↦ rw e refl
  | inr e ↦ rw e (
      worked-Uses r d e ne (next_queued r.now r.ms d.rows)
        (next_queued-AfterClaim r.now r.ms d.rows h) (next_queued-Took r.now r.ms d.rows))
]

worked-RowsOk :
    (r : Round) (d : Downloader) (x : List QueuedDownload × Option QueuedDownload)
    → AfterClaim x
    → RowsOk resting (worked r (claimed d x)).0.rows
unfolding worked claimed take_up
worked-RowsOk r d (rows, none) h = h
worked-RowsOk r d (rows, some q) h =
    end_step-RowsOk q r.end_now r.end_ms r.result r.hash (take_up q (record d { rows = rows })) h

pub run_round-RowsOk :
    (r : Round) (d : Downloader) → RowsOk resting d.rows → RowsOk resting (run_round r d).0.rows
unfolding run_round claim_next
run_round-RowsOk r d h = elim (Bool-cases (held d)) [
  | inl e ↦ rw e h
  | inr e ↦ rw e (
      worked-RowsOk r d (next_queued r.now r.ms d.rows)
        (next_queued-AfterClaim r.now r.ms d.rows h))
]

-- Left alone, the queue starts at most as many downloads as its episodes have tries left, three for
-- a new one and one less for each failed try, however the downloads end, as long as the engine does
-- not pause them.
pub started_bound :
    (rounds : List Round) (d : Downloader)
    → RowsOk resting d.rows
    → Unpaused rounds
    → started rounds d ≤ work d.rows
unfolding started
started_bound [] d h u = omega arith
started_bound (r ∷ rounds) d h u =
    count (run_round r d) (run_round-Uses r d h u.0)
      (started_bound rounds (run_round r d).0 (run_round-RowsOk r d h) u.1)
  where
    count :
        (x : Downloader × Bool)
        → Uses d x
        → started rounds x.0 ≤ work x.0.rows
        → (if x.1 then suc (started rounds x.0) else started rounds x.0) ≤ work d.rows
    count (d', true) lt le = omega (arith, lt, le)
    count (d', false) eq le = rw (← eq) le
