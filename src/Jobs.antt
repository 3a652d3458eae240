-- ===== src/Jobs.antt =====
-- internal/jobs/jobs.go: recurring work under one scheduler. Times and durations are nanoseconds, and
-- the time of each call is an argument; what a job does is the outcome it ends with.
pub mod Backoff
pub mod Exclusion
pub mod Registry
pub mod Runs
pub mod Tests
use kuro.Base.{
  ℕ, ◌+◌, ◌*◌, ◌^◌, min, max, Bool, true, false, not, ◌||◌, List, [], ◌∷◌, ◌++◌, Option, none, some,
  Text, text, text_eq, ltb, if◌then◌else◌,
}

pub record Job : Type 0 where
  pub name : Text
  pub every : ℕ
  pub on_start : Bool
  -- `Run != nil`
  pub runnable : Bool

pub record Entry : Type 0 where
  pub job : Job
  pub running : Bool
  pub last_run : ℕ
  pub last_ok : ℕ
  pub next_run : ℕ
  pub runs : ℕ
  pub failures : ℕ
  pub last_err : Text
  pub took : ℕ
  pub consecutive : ℕ

-- `&entry{job: job}`
unfoldable pub new_entry : Job → Entry
new_entry job = record {
  job = job;
  running = false;
  last_run = 0;
  last_ok = 0;
  next_run = 0;
  runs = 0;
  failures = 0;
  last_err = [];
  took = 0;
  consecutive = 0;
}

abbrev pub six_hours : ℕ
six_hours = 6 * 3600 * 10 ^ 9

-- The code multiplies float64 values: exact, since a power of two only moves the exponent and an
-- interval below 2 ^ 53 ns, a hundred days, is a float64.
unfoldable pub backoff : ℕ → ℕ → ℕ
backoff base failures = max (min (base * 2 ^ min failures 5) six_hours) base

-- One turn of the loop: the wait until the next run, and when that is.
unfoldable pub next_wait : Entry → ℕ
next_wait e = if ltb 0 e.consecutive then backoff e.job.every e.consecutive else e.job.every

unfoldable pub schedule : Entry → ℕ → Entry
schedule e now = record e { next_run = now + next_wait e }

unfoldable pub claim : Entry → ℕ → Entry × Bool
claim e now = if e.running then (e, false) else (record e { running = true; last_run = now }, true)

-- How a job's function ends: with its error, if any, or in a panic that `safely` turns into one.
pub data Outcome : Type 0 where
  returned : Option Text → Outcome
  panicked : Text → Outcome

unfoldable pub safely : Outcome → Option Text
safely (returned err) = err
safely (panicked value) = some (text "panic: " ++ value)

pub record_result : Entry → Option Text → ℕ → ℕ → Entry
record_result e (some err) now took = record e {
  running = false;
  runs = e.runs + 1;
  took = took;
  failures = e.failures + 1;
  consecutive = e.consecutive + 1;
  last_err = err;
}
record_result e none now took = record e {
  running = false;
  runs = e.runs + 1;
  took = took;
  consecutive = 0;
  last_err = [];
  last_ok = now;
}

unfoldable pub finish : Entry → Outcome → ℕ → ℕ → Entry
unfolding record_result safely
finish e outcome now took = record_result e (safely outcome) now took

pub record Scheduler : Type 0 where
  pub entries : List (Text × Entry)
  pub order : List Text

unfoldable pub new : Scheduler
new = record { entries = []; order = [] }

-- `s.entries[name]`
unfoldable pub find : Text → List (Text × Entry) → Option Entry
find name [] = none
find name ((k, e) ∷ rest) = if text_eq k name then some e else find name rest

-- A change of the entry behind a name's pointer.
unfoldable pub replace : Text → Entry → List (Text × Entry) → List (Text × Entry)
replace name e [] = []
replace name e ((k, old) ∷ rest) =
    if text_eq k name then (k, e) ∷ rest else (k, old) ∷ replace name e rest

unfoldable pub add : Scheduler → Job → Scheduler
add s job = if not job.runnable || text_eq job.name [] then s else elim (find job.name s.entries) [
  | some _ ↦ s
  | none ↦ record {
    entries = (job.name, new_entry job) ∷ s.entries;
    order = s.order ++ job.name ∷ [];
  }
]

pub data Started : Type 0 where
  started : Started
  no_such_job : Started
  err_running : Started

start_claimed : Scheduler → Text → Entry × Bool → Scheduler × Started
start_claimed s name (e, true) = (record s { entries = replace name e s.entries }, started)
start_claimed s name (e, false) = (s, err_running)

-- `RunAs` up to where the run goes to the background; `Trigger` is `RunAs` with the job's own function.
unfoldable pub run_as : Scheduler → Text → ℕ → Scheduler × Started
unfolding start_claimed
run_as s name now = elim (find name s.entries) [
  | none ↦ (s, no_such_job)
  | some e ↦ start_claimed s name (claim e now)
]

-- The wait of `loop`: it sets when the job runs next.
unfoldable pub wait : Scheduler → Text → ℕ → Scheduler
wait s name now = elim (find name s.entries) [
  | none ↦ s
  | some e ↦ record s { entries = replace name (schedule e now) s.entries }
]

-- The end of a run that `RunAs` or the loop started.
unfoldable pub complete : Scheduler → Text → Outcome → ℕ → ℕ → Scheduler
complete s name outcome now took = elim (find name s.entries) [
  | none ↦ s
  | some e ↦ record s { entries = replace name (finish e outcome now took) s.entries }
]

pub record Status : Type 0 where
  pub name : Text
  pub every : ℕ
  pub running : Bool
  pub last_run : ℕ
  pub last_ok : ℕ
  pub next_run : ℕ
  pub runs : ℕ
  pub failures : ℕ
  pub last_err : Text
  -- Shown only if it is above 0.
  pub took : Option ℕ

status_of : Text → Entry → Status
status_of name e = record {
  name = name;
  every = e.job.every;
  running = e.running;
  last_run = e.last_run;
  last_ok = e.last_ok;
  next_run = e.next_run;
  runs = e.runs;
  failures = e.failures;
  last_err = e.last_err;
  took = if ltb 0 e.took then some e.took else none;
}

status_loop : List (Text × Entry) → List Text → List Status
unfolding status_of
status_loop entries [] = []
status_loop entries (name ∷ names) =
    let rest = status_loop entries names in
    elim (find name entries) [ none ↦ rest | some e ↦ status_of name e ∷ rest ]

unfoldable pub status : Scheduler → List Status
unfolding status_loop
status s = status_loop s.entries s.order
