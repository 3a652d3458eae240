-- ===== src/Jobs/Tests.antt =====
-- A scheduler with two jobs, one of them started by hand.
use kuro.Base.{ℕ, ◌*◌, ◌^◌, true, false, List, text}
use kuro.Jobs.{Job, new, add, run_as}
use kuro.Jobs.Runs.{World, Reached, begins, steps, adds, starts, Sound, idle, start_flight}
use kuro.Jobs.Exclusion.{Reached-Sound}

abbrev job_of : List ℕ → Job
job_of name = record { name = name; every = 3600 * 10 ^ 9; on_start = false; runnable = true }

abbrev refresh : Job
refresh = job_of (text "refresh")

abbrev sweep_job : Job
sweep_job = job_of (text "sweep")

abbrev with_refresh : World
with_refresh = record idle { scheduler = add new refresh }

abbrev refreshing : World
refreshing =
    start_flight (text "refresh") with_refresh (run_as (add new refresh) (text "refresh") 5)

reached : Reached refreshing
reached = steps (steps begins (adds refresh)) (starts (text "refresh") 5)

Reached-Sound_example : Sound refreshing
Reached-Sound_example = Reached-Sound reached
