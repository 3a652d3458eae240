-- ===== src/Queue/Tests.antt =====
-- The download queue on two shows: one episode waits, one was put off, one failed.
use kuro.Base.{
  ℕ, suc, ◌+◌, ◌*◌, ◌≤◌, ◌≡◌, refl, true, false, List, [], ◌∷◌, All, Option, none, some, Text, text,
  text_eq, length, any, has, arith,
}
use kuro.Base.Int.{pos, negsuc}
use kuro.Base.Decimal.{itoa}
use kuro.Queue.Rows.{QueuedDownload, State, pending, active, failed, is_row, is_active, enqueue}
use kuro.Queue.Claim.{next_queued, earliest, is_due, dequeue}
use kuro.Queue.Worker.{
  Downloader, Failure, seeders_silent, stall, no_faults, held, cancel, cancels, fetches,
}
use kuro.Queue.Step.{take_up, was_stopped, end_step}
use kuro.Queue.Next.{Claims, next_queued-Claims}
use kuro.Queue.Runs.{
  World, Reached, begins, steps, enqueues, first_run, IsSound, with_rows, resting,
}
use kuro.Queue.Sound.{Reached-IsSound}
use kuro.Queue.Kept.{RowsOk}
use kuro.Queue.Rounds.{Round, run_rounds, started, work}
use kuro.Queue.Dry.{Unpaused, started_bound}
use kuro.Queue.Liveness.{waiting, run_rounds-dry}
use kuro.Queue.Effects.{Settles, end_step-Settles, cancel_missed, cancel_lem}
use kuro.Queue.Holds.{
  Call, holds_for, releases_for, pauses, calls, watching_after, paused_after, calls-history,
}
use kuro.Queue.Enqueue.{IsMet, positives, enqueue-IsMet}

abbrev row_of : ℕ → Text → ℕ → State → ℕ → Option ℕ → ℕ → QueuedDownload
row_of anime key episode state attempts retry_at queued_at = record {
  anime_id = anime;
  ep_key = key;
  episode = episode;
  season = 1;
  state = state;
  error = none;
  info_hash = [];
  release = [];
  attempts = attempts;
  retry_at = retry_at;
  queued_at = pos queued_at;
  started_at = none;
}

abbrev second : QueuedDownload
second = row_of 7 (text "2") 2 pending 0 none 100

abbrev put_off : QueuedDownload
put_off = row_of 7 (text "1") 1 pending 1 (some 900000) 120

abbrev broken : QueuedDownload
broken = row_of 8 (text "12") 12 failed 2 none 50

abbrev table : List QueuedDownload
table = second ∷ put_off ∷ broken ∷ []

abbrev quiet : Downloader
quiet = record {
  rows = table;
  setting = false;
  current = none;
  user_paused = [];
  watching = [];
  paused = false;
  woken = false;
}

-- `strconv.Itoa`
itoa_digits : itoa 1207 ≡ text "1207"
unfolding itoa
itoa_digits = refl

-- The row that was put off is passed over until its time.
second_first : earliest 500000 table ≡ some second
unfolding earliest
second_first = refl

put_off_later : earliest 950000 (put_off ∷ broken ∷ []) ≡ some put_off
unfolding earliest
put_off_later = refl

next_queued-Claims_example : Claims 500 500000 table (next_queued 500 500000 table)
unfolding is_row text_eq
next_queued-Claims_example = next_queued-Claims 500 500000 table (refl, (refl, (refl, tt)))

abbrev after_enqueue : World
after_enqueue = with_rows first_run (enqueue 7 1 100 (pos 1 ∷ pos 2 ∷ []) first_run.down.rows).0

reached : Reached after_enqueue
reached = steps begins (enqueues 7 1 100 (pos 1 ∷ pos 2 ∷ []))

Reached-IsSound_example : IsSound after_enqueue
Reached-IsSound_example = Reached-IsSound reached

-- A round at a time in seconds, with its milliseconds.
abbrev at_time : ℕ → Option Failure → Round
at_time now result = record {
  now = now;
  ms = now * 1000;
  end_now = now;
  end_ms = now * 1000;
  result = result;
  hash = none;
}

abbrev night : List Round
night =
    at_time 1000 (some seeders_silent)
    ∷ at_time 2000 none
    ∷ at_time 3000 (some (stall 600000000000))
    ∷ at_time 4000 none
    ∷ at_time 5000 none
    ∷ []

night-Unpaused : Unpaused night
night-Unpaused = (λ e. cc, (λ e. cc, (λ e. cc, (λ e. cc, (λ e. cc, tt)))))

table-RowsOk : RowsOk resting table
unfolding is_row is_active text_eq
table-RowsOk = (
  (refl, (refl, (refl, tt))),
  ((omega arith, λ e. cc), ((omega arith, λ e. cc), ((omega arith, λ e. cc), tt))),
)

started_bound_example : started night quiet ≤ work table
started_bound_example = started_bound night quiet table-RowsOk night-Unpaused

run_rounds-dry_example : waiting (run_rounds night quiet).rows ≡ []
unfolding held is_due
run_rounds-dry_example =
    run_rounds-dry 900000 night quiet table-RowsOk refl (refl, (refl, (refl, tt)))
      ((
        omega arith,
        omega arith,
        (
          omega arith,
          omega arith,
          (omega arith, omega arith, (omega arith, omega arith, (omega arith, omega arith, tt))),
        ),
      ))
      night-Unpaused (omega arith)

end_step-Settles_example :
    Settles second
      (some seeders_silent)
      none
      quiet
      (end_step no_faults 500 500000 second (some seeders_silent) none quiet)
end_step-Settles_example =
    end_step-Settles second no_faults 500 500000 none (some seeders_silent) quiet

cancel_missed_example :
    let d' = take_up second (cancel 7 (text "2") quiet).0 in
    (any (is_row 7 (text "2")) d'.rows ≡ false) × (was_stopped d'.current ≡ false)
unfolding held
cancel_missed_example = cancel_missed second quiet refl refl

-- One episode is fetched and cancelled, and two are reported.
abbrev fetching_second : Downloader
fetching_second = record quiet {
  rows = row_of 7 (text "2") 2 active 0 none 100 ∷ [];
  current = some (record { anime_id = 7; ep_key = text "2"; stopped = false });
}

second_cancelled : cancels 7 (text "2") fetching_second.current ≡ true
unfolding cancels fetches text_eq
second_cancelled = refl

second_listed : any (is_row 7 (text "2")) fetching_second.rows ≡ true
unfolding is_row text_eq
second_listed = refl

cancel_lem_example :
    let (d', removed) = cancel 7 (text "2") fetching_second in
    (any (is_row 7 (text "2")) d'.rows ≡ false)
    × (removed + length d'.rows ≡ suc (length fetching_second.rows))
cancel_lem_example =
    cancel_lem 7 (text "2") (record { anime_id = 7; ep_key = text "2"; stopped = false })
      fetching_second refl second_cancelled second_listed

cancelled_twice : (cancel 7 (text "2") fetching_second).1 ≡ 2
unfolding cancel dequeue text_eq
cancelled_twice = refl

abbrev evening : List Call
evening =
    holds_for (text "7-2") ∷ pauses true ∷ holds_for (text "7-2") ∷ releases_for (text "7-2") ∷ []

calls-history_example :
    (has (text "7-2") (calls evening quiet).watching
      ≡ watching_after (text "7-2") evening (has (text "7-2") quiet.watching))
    × ((calls evening quiet).paused ≡ paused_after evening quiet.paused)
calls-history_example = calls-history (text "7-2") evening quiet

enqueue-IsMet_example :
    All
      (IsMet 8 (enqueue 8 1 100 (pos 12 ∷ negsuc 0 ∷ pos 13 ∷ []) table).0)
      (pos 12 ∷ negsuc 0 ∷ pos 13 ∷ [])
    × ((enqueue 8 1 100 (pos 12 ∷ negsuc 0 ∷ pos 13 ∷ []) table).1
        ≡ positives (pos 12 ∷ negsuc 0 ∷ pos 13 ∷ []))
enqueue-IsMet_example = enqueue-IsMet 8 1 100 (pos 12 ∷ negsuc 0 ∷ pos 13 ∷ []) table refl
