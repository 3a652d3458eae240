-- ===== src/Jobs/Runs.antt =====
-- internal/jobs/jobs.go: runs in flight and ended, as a history beside the scheduler.
use kuro.Base.{
  count, ℕ, suc, ◌<◌, ◌≡◌, refl, inl, inr, true, false, List, [], ◌∷◌, Option, none, some, Text,
  text_eq, text_eq_iff, Bool-cases, length, if◌then◌else◌, arith,
}
use kuro.Jobs.{
  Job, Entry, Outcome, Scheduler, Started, new, find, replace, add, new_entry, schedule, claim,
  record_result, safely, run_as, start_claimed, wait, complete,
}
use kuro.Jobs.{started, no_such_job, err_running}

-- A scheduler, the runs that were started and have not ended, and the ends of runs, latest first.
pub record World : Type 0 where
  pub scheduler : Scheduler
  pub flight : List Text
  pub log : List (Text × Option Text)

abbrev pub drop_one : Text → List Text → List Text
drop_one name [] = []
drop_one name (k ∷ ks) = if text_eq k name then ks else k ∷ drop_one name ks

abbrev pub ends_of : Text → List (Text × Option Text) → List (Option Text)
ends_of name [] = []
ends_of name ((k, r) ∷ log) = if text_eq k name then r ∷ ends_of name log else ends_of name log

abbrev pub fails : List (Option Text) → ℕ
fails [] = 0
fails (some err ∷ rest) = suc (fails rest)
fails (none ∷ rest) = fails rest

-- The failures since the last success.
abbrev pub streak : List (Option Text) → ℕ
streak [] = 0
streak (some err ∷ rest) = suc (streak rest)
streak (none ∷ rest) = 0

abbrev pub last_error : List (Option Text) → Text
last_error [] = []
last_error (some err ∷ rest) = err
last_error (none ∷ rest) = []

abbrev pub start_flight : Text → World → Scheduler × Started → World
start_flight name w (s, started) = record w { scheduler = s; flight = name ∷ w.flight }
start_flight name w (s, no_such_job) = record w { scheduler = s }
start_flight name w (s, err_running) = record w { scheduler = s }

pub data Step : World → World → Type 0 where
  adds : {w : World} (job : Job) → Step w (record w { scheduler = add w.scheduler job })
  starts :
      {w : World} (name : Text) (now : ℕ)
      → Step w (start_flight name w (run_as w.scheduler name now))
  waits :
      {w : World} (name : Text) (now : ℕ)
      → Step w (record w { scheduler = wait w.scheduler name now })
  ends :
      {w : World} (name : Text) (outcome : Outcome) (now took : ℕ)
      → 0 < count name w.flight
      → Step w (record w {
        scheduler = complete w.scheduler name outcome now took;
        flight = drop_one name w.flight;
        log = (name, safely outcome) ∷ w.log;
      })

abbrev pub idle : World
idle = record { scheduler = new; flight = []; log = [] }

pub data Reached : World → Type 0 where
  begins : Reached idle
  steps : {w w' : World} → Reached w → Step w w' → Reached w'

-- An entry, the runs of its name in flight, and the ends of its runs.
pub record Tells (e : Entry) (flying : ℕ) (past : List (Option Text)) : Type 0 where
  pub one_run : flying ≡ (if e.running then 1 else 0)
  pub runs_eq : e.runs ≡ length past
  pub failures_eq : e.failures ≡ fails past
  pub streak_eq : e.consecutive ≡ streak past
  pub error_eq : e.last_err ≡ last_error past

abbrev pub Told : Option Entry → ℕ → List (Option Text) → Type 0
Told none flying past = (flying ≡ 0) × (past ≡ [])
Told (some e) flying past = Tells e flying past

pub record Sound (w : World) : Type 0 where
  pub told :
      (name : Text)
      → Told (find name w.scheduler.entries) (count name w.flight) (ends_of name w.log)

pub run_as-free :
    (s : Scheduler) (name : Text) (now : ℕ) (e : Entry)
    → find name s.entries ≡ some e
    → e.running ≡ false
    → run_as s name now ≡ (
      record s { entries = replace name (record e { running = true; last_run = now }) s.entries },
      started,
    )
unfolding run_as start_claimed claim
run_as-free s name now e f r = rw (f, run_as) (rw r refl)

pub run_as-busy :
    (s : Scheduler) (name : Text) (now : ℕ) (e : Entry)
    → find name s.entries ≡ some e
    → e.running ≡ true
    → run_as s name now ≡ (s, err_running)
unfolding run_as start_claimed claim
run_as-busy s name now e f r = rw (f, run_as) (rw r refl)

pub run_as-unknown :
    (s : Scheduler) (name : Text) (now : ℕ)
    → find name s.entries ≡ none
    → run_as s name now ≡ (s, no_such_job)
unfolding run_as
run_as-unknown s name now f = rw (f, run_as) refl

pub Tells-claim :
    (e : Entry) (now k : ℕ) (past : List (Option Text))
    → e.running ≡ false
    → Tells e k past
    → Tells (record e { running = true; last_run = now }) (suc k) past
Tells-claim e now k past r t = record {
  one_run = (let free : k ≡ 0 = rw r at t.one_run in omega (arith, free));
  runs_eq = t.runs_eq;
  failures_eq = t.failures_eq;
  streak_eq = t.streak_eq;
  error_eq = t.error_eq;
}

pub Tells-schedule :
    (e : Entry) (now k : ℕ) (past : List (Option Text))
    → Tells e k past
    → Tells (schedule e now) k past
unfolding schedule
Tells-schedule e now k past t = record {
  one_run = t.one_run;
  runs_eq = t.runs_eq;
  failures_eq = t.failures_eq;
  streak_eq = t.streak_eq;
  error_eq = t.error_eq;
}

pub Tells-record :
    (e : Entry) (err : Option Text) (now took k : ℕ) (past : List (Option Text))
    → Tells e (suc k) past
    → Tells (record_result e err now took) k (err ∷ past)
unfolding record_result
Tells-record e (some err) now took k past t = record {
  one_run = (let flying = t.one_run in ground arith);
  runs_eq = (let same = t.runs_eq in omega arith);
  failures_eq = (let same = t.failures_eq in omega arith);
  streak_eq = (let same = t.streak_eq in omega arith);
  error_eq = refl;
}
Tells-record e none now took k past t = record {
  one_run = (let flying = t.one_run in ground arith);
  runs_eq = (let same = t.runs_eq in omega arith);
  failures_eq = t.failures_eq;
  streak_eq = refl;
  error_eq = refl;
}

pub count-drop_one :
    (name : Text) (ks : List Text)
    → 0 < count name ks
    → count name ks ≡ suc (count name (drop_one name ks))
count-drop_one name [] h = absurd (omega arith)
count-drop_one name (k ∷ ks) h = elim (Bool-cases (text_eq k name)) [
  | inl q ↦ rw q refl
  | inr q ↦ rw q (rw q (count-drop_one name ks (rw q at h)))
]

pub count-drop_other :
    (name other : Text) (ks : List Text)
    → text_eq name other ≡ false
    → count other (drop_one name ks) ≡ count other ks
count-drop_other name other [] d = refl
count-drop_other name other (k ∷ ks) d = elim (Bool-cases (text_eq k name)) [
  | inl q ↦ rw q (rw ((text_eq_iff k name).0 q) (rw d refl))
  | inr q ↦ rw q (rw (count-drop_other name other ks d) refl)
]

pub Tells-new : (job : Job) → Tells (new_entry job) 0 []
unfolding new_entry
Tells-new job = record {
  one_run = refl;
  runs_eq = refl;
  failures_eq = refl;
  streak_eq = refl;
  error_eq = refl;
}
