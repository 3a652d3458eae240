-- ===== src/Jobs/Exclusion.antt =====
-- internal/jobs/jobs.go: scheduled and manual runs interleaved, against the history of the runs.
use kuro.Base.{
  count, ℕ, ◌<◌, ◌≡◌, refl, sym, inl, inr, true, false, List, ◌∷◌, Option, some, Text, text_eq,
  text_eq_iff, text_eq_refl, Bool-cases, Option-cases, arith,
}
use kuro.Jobs.{
  Job, Entry, Outcome, new, find, replace, add, schedule, finish, record_result, safely, run_as,
  wait, complete,
}
use kuro.Jobs.Registry.{find-replace_same, find-replace_other, add-Adds}
use kuro.Jobs.Runs.{
  World, Step, Reached, adds, starts, waits, ends, begins, steps, Tells, Told, Sound, idle, ends_of,
  drop_one, start_flight, run_as-free, run_as-busy, run_as-unknown, Tells-new, Tells-claim,
  Tells-schedule, Tells-record, count-drop_one, count-drop_other,
}

Told-of :
    {o o' : Option Entry} (k : ℕ) (past : List (Option Text))
    → o ≡ o'
    → Told o k past
    → Told o' k past
Told-of k past e t = rw (sym e) t

told_at :
    {w : World} {e : Entry} (name : Text)
    → Sound w
    → find name w.scheduler.entries ≡ some e
    → Tells e (count name w.flight) (ends_of name w.log)
told_at name s f = Told-of _ _ f (s.told name)

-- The entry of one name changes, and what is in flight or past under that name only.
Sound-update :
    (w : World) (e : Entry) (name : Text) (e' : Entry) (flight : List Text)
    (log : List (Text × Option Text))
    → Sound w
    → find name w.scheduler.entries ≡ some e
    → Tells e' (count name flight) (ends_of name log)
    → ((other : Text)
        → text_eq name other ≡ false
        → (count other flight ≡ count other w.flight) × (ends_of other log ≡ ends_of other w.log))
    → Sound (record {
      scheduler = record (w.scheduler) { entries = replace name e' w.scheduler.entries };
      flight = flight;
      log = log;
    })
Sound-update w e name e' flight log s f t same = record {
  told = λ other. elim (Bool-cases (text_eq name other)) [
    | inl q ↦
        let eq : name ≡ other = (text_eq_iff name other).0 q in
        rw (sym eq) (Told-of _ _ (sym (find-replace_same name e e' w.scheduler.entries f)) t)
    | inr q ↦
        let (c, l) = same other q in
        rw (find-replace_other name other e' w.scheduler.entries q, c, l) (s.told other)
  ];
}

Sound-starts :
    {w : World} (name : Text) (now : ℕ)
    → Sound w
    → Sound (start_flight name w (run_as w.scheduler name now))
Sound-starts {w} name now s = elim (Option-cases (find name w.scheduler.entries)) [
  | inl f ↦ rw (run_as-unknown w.scheduler name now f) s
  | inr (e, f) ↦ elim (Bool-cases e.running) [
    | inl r ↦ rw (run_as-busy w.scheduler name now e f r) s
    | inr r ↦ rw (run_as-free w.scheduler name now e f r) (
        Sound-update w e name (record e { running = true; last_run = now }) (name ∷ w.flight) w.log
          s f (rw (text_eq_refl name) (Tells-claim e now _ _ r (told_at name s f)))
          (λ other d. rw d (refl, refl)))
  ]
]

Sound-waits :
    {w : World} (name : Text) (now : ℕ)
    → Sound w
    → Sound (record w { scheduler = wait w.scheduler name now })
unfolding wait
Sound-waits {w} name now s = elim (Option-cases (find name w.scheduler.entries)) [
  | inl f ↦ rw (f, wait) s
  | inr (e, f) ↦
      rw (f, wait)
        (Sound-update w e name (schedule e now) w.flight w.log s f
          (Tells-schedule e now _ _ (told_at name s f)) (λ other d. (refl, refl)))
]

Sound-ends :
    {w : World} (name : Text) (outcome : Outcome) (now took : ℕ)
    → 0 < count name w.flight
    → Sound w
    → Sound (record w {
      scheduler = complete w.scheduler name outcome now took;
      flight = drop_one name w.flight;
      log = (name, safely outcome) ∷ w.log;
    })
unfolding complete finish
Sound-ends {w} name outcome now took h s = elim (Option-cases (find name w.scheduler.entries)) [
  | inl f ↦ let nothing = Told-of _ _ f (s.told name) in absurd (omega (arith, nothing.0))
  | inr (e, f) ↦
      rw (f, complete)
        (Sound-update w e name (record_result e (safely outcome) now took) (drop_one name w.flight)
          ((name, safely outcome) ∷ w.log) s f
          (rw (text_eq_refl name) (
            Tells-record e (safely outcome) now took _ _
              (rw (count-drop_one name w.flight h) at (told_at name s f))))
          (λ other d. rw d (count-drop_other name other w.flight d, refl)))
]

Sound-adds :
    {w : World} (job : Job) → Sound w → Sound (record w { scheduler = add w.scheduler job })
unfolding find
Sound-adds {w} job s = elim (add-Adds w.scheduler job) [
  | inl e ↦ rw e s
  | inr (f, e) ↦ rw e (record {
    told = λ other. elim (Bool-cases (text_eq job.name other)) [
      | inl q ↦
          let (k, past) = Told-of _ _ (rw ((text_eq_iff job.name other).0 q) at f) (s.told other) in
          rw q (rw (k, past) (Tells-new job))
      | inr q ↦ rw q (s.told other)
    ];
  })
]

Sound-idle : Sound idle
unfolding new find
Sound-idle = record { told = λ name. (refl, refl) }

Sound-step : {w w' : World} → Step w w' → Sound w → Sound w'
Sound-step (adds job) s = Sound-adds job s
Sound-step (starts name now) s = Sound-starts name now s
Sound-step (waits name now) s = Sound-waits name now s
Sound-step (ends name outcome now took h) s = Sound-ends name outcome now took h s

-- However adding, scheduled and manual starts, waits and ends of runs interleave: a job that is marked
-- running has exactly one run in flight and any other has none, its counts of runs and of failures
-- are those of the history of its ended runs, its consecutive failures are those since the last
-- success, and its last error is that of its latest run.
pub Reached-Sound : {w : World} → Reached w → Sound w
Reached-Sound begins = Sound-idle
Reached-Sound (steps r step) = Sound-step step (Reached-Sound r)
