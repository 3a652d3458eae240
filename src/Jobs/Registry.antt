-- ===== src/Jobs/Registry.antt =====
-- internal/jobs/jobs.go, `Add` and `Status`: which jobs the scheduler knows, and in which order.
use mathlib.Core.Bool.{true≢false}
use mathlib.Core.List.{append_assoc, append-nil}
use kuro.Base.{
  ◌≡◌, refl, sym, ap, ◌∙◌, ◌⊎◌, inl, inr, true, false, not, ◌||◌, List, [], ◌∷◌, ◌++◌, Option, none,
  some, Text, text_eq, text_eq_iff, text_eq_refl, has, map, Bool-cases, Option-cases, if◌then◌else◌,
  All, All-append, All-map, arith,
}
use kuro.Jobs.{
  Job, Entry, Scheduler, new, find, replace, add, new_entry, status, status_of, status_loop,
}

pub find-replace_same :
    (name : Text) (e e' : Entry) (xs : List (Text × Entry))
    → find name xs ≡ some e
    → find name (replace name e' xs) ≡ some e'
unfolding find replace
find-replace_same name e e' [] h = absurd (ground arith)
find-replace_same name e e' ((k, old) ∷ rest) h = elim (Bool-cases (text_eq k name)) [
  | inl q ↦ rw q (rw q refl)
  | inr q ↦ rw q (rw q (find-replace_same name e e' rest (rw q at h)))
]

pub find-replace_other :
    (name other : Text) (e : Entry) (xs : List (Text × Entry))
    → text_eq name other ≡ false
    → find other (replace name e xs) ≡ find other xs
unfolding find replace
find-replace_other name other e [] h = refl
find-replace_other name other e ((k, old) ∷ rest) h = elim (Bool-cases (text_eq k name)) [
  | inl q ↦ let same : k ≡ name = (text_eq_iff k name).0 q in rw q (rw same (rw h refl))
  | inr q ↦ rw q (rw (find-replace_other name other e rest h) refl)
]

abbrev pub keys : List (Text × Entry) → List Text
keys = map (λ k. k.0)

find-keys :
    (name : Text) (xs : List (Text × Entry)) (o : Option Entry)
    → find name xs ≡ o
    → has name (keys xs) ≡ (elim o [ none ↦ false | some e ↦ true ])
unfolding find has
find-keys name [] o h = rw (sym h) refl
find-keys name ((k, e) ∷ rest) o h = elim (Bool-cases (text_eq k name)) [
  | inl q ↦ rw q (rw (sym (rw q at h)) refl)
  | inr q ↦ rw q (find-keys name rest o (rw q at h))
]

pub keys-replace :
    (name : Text) (e : Entry) (xs : List (Text × Entry)) → keys (replace name e xs) ≡ keys xs
unfolding replace
keys-replace name e [] = refl
keys-replace name e ((k, old) ∷ rest) = elim (Bool-cases (text_eq k name)) [
  | inl q ↦ rw q refl
  | inr q ↦ rw q (rw (keys-replace name e rest) refl)
]

-- Every name of the order has its entry.
abbrev pub IsListed : Scheduler → Type 0
IsListed s = All (λ name. has name (keys s.entries) ≡ true) s.order

abbrev pub add_all : Scheduler → List Job → Scheduler
add_all s [] = s
add_all s (job ∷ jobs) = add_all (add s job) jobs

-- The names of the jobs that can run, each where it comes first, less those in a list.
abbrev pub first_names : List Text → List Job → List Text
first_names seen [] = []
first_names seen (job ∷ jobs) =
    if not job.runnable || text_eq job.name []
    then first_names seen jobs
    else if has job.name seen
    then first_names seen jobs
    else job.name ∷ first_names (job.name ∷ seen) jobs

-- `Add` does nothing, or enters the job under a name that had no entry.
abbrev pub Adds : Scheduler → Job → Scheduler → Type 0
Adds s job s' =
    (s' ≡ s)
    ⊎ ((find job.name s.entries ≡ none)
        × (s' ≡ record {
          entries = (job.name, new_entry job) ∷ s.entries;
          order = s.order ++ job.name ∷ [];
        }))

add-skips :
    (s : Scheduler) (job : Job) → (not job.runnable || text_eq job.name []) ≡ true → add s job ≡ s
unfolding add
add-skips s job h = rw h refl

add-known :
    (s : Scheduler) (job : Job) (e : Entry) → find job.name s.entries ≡ some e → add s job ≡ s
unfolding add
add-known s job e h = elim (Bool-cases (not job.runnable || text_eq job.name [])) [
  | inl q ↦ rw q refl
  | inr q ↦ rw q (rw h refl)
]

add-new :
    (s : Scheduler) (job : Job)
    → (not job.runnable || text_eq job.name []) ≡ false
    → find job.name s.entries ≡ none
    → add s job
      ≡ record { entries = (job.name, new_entry job) ∷ s.entries; order = s.order ++ job.name ∷ [] }
unfolding add
add-new s job q h = rw q (rw h refl)

pub add-Adds : (s : Scheduler) (job : Job) → Adds s job (add s job)
add-Adds s job = elim (Bool-cases (not job.runnable || text_eq job.name [])) [
  | inl q ↦ inl (add-skips s job q)
  | inr q ↦ elim (Option-cases (find job.name s.entries)) [
    | inl f ↦ inr (f, add-new s job q f)
    | inr (e, f) ↦ inl (add-known s job e f)
  ]
]

order-step :
    (s s' : Scheduler) (job : Job) (jobs : List Job) (names : List Text)
    → add s job ≡ s'
    → (add_all s' jobs).order ≡ names
    → (add_all s (job ∷ jobs)).order ≡ names
order-step s s' job jobs names e h = ap (λ (t : Scheduler). (add_all t jobs).order) e ∙ h

order-add_all :
    (s : Scheduler) (jobs : List Job)
    → (add_all s jobs).order ≡ s.order ++ first_names (keys s.entries) jobs
order-add_all s [] = sym (append-nil s.order)
order-add_all s (job ∷ jobs) = elim (Bool-cases (not job.runnable || text_eq job.name [])) [
  | inl q ↦ rw q (order-step s s job jobs _ (add-skips s job q) (order-add_all s jobs))
  | inr q ↦ elim (Option-cases (find job.name s.entries)) [
    | inr (e, f) ↦
        rw (q, find-keys job.name s.entries (some e) f)
          (order-step s s job jobs _ (add-known s job e f) (order-add_all s jobs))
    | inl f ↦
        rw (q, find-keys job.name s.entries none f)
          (let next : Scheduler = record {
            entries = (job.name, new_entry job) ∷ s.entries;
            order = s.order ++ job.name ∷ [];
          } in
            order-step s next job jobs _ (add-new s job q f)
              (order-add_all next jobs ∙ append_assoc s.order (job.name ∷ []) _))
  ]
]

has-cons : (name k : Text) (ks : List Text) → has name ks ≡ true → has name (k ∷ ks) ≡ true
unfolding has
has-cons name k ks h = rw h (ground arith)

has-here : (name : Text) (ks : List Text) → has name (name ∷ ks) ≡ true
unfolding has
has-here name ks = rw (text_eq_refl name) refl

pub add-IsListed : (s : Scheduler) (job : Job) → IsListed s → IsListed (add s job)
add-IsListed s job h = elim (add-Adds s job) [
  | inl e ↦ rw e h
  | inr (_, e) ↦ rw e (
      All-append _ s.order (job.name ∷ [])
        (All-map s.order (λ name. has-cons name job.name (keys s.entries)) h)
        (has-here job.name (keys s.entries), tt))
]

names_of_status :
    (entries : List (Text × Entry)) (names : List Text)
    → All (λ name. has name (keys entries) ≡ true) names
    → map (λ st. st.name) (status_loop entries names) ≡ names
unfolding status_loop status_of
names_of_status entries [] h = refl
names_of_status entries (name ∷ names) h = elim (Option-cases (find name entries)) [
  | inl f ↦ absurd (true≢false (sym h.0 ∙ find-keys name entries none f))
  | inr (e, f) ↦ rw (f, map) (ap (λ ks. name ∷ ks) (names_of_status entries names h.1))
]

pub status-order : (s : Scheduler) → IsListed s → map (λ st. st.name) (status s) ≡ s.order
unfolding status
status-order s h = names_of_status s.entries s.order h

add_all-IsListed : (s : Scheduler) (jobs : List Job) → IsListed s → IsListed (add_all s jobs)
add_all-IsListed s [] h = h
add_all-IsListed s (job ∷ jobs) h = add_all-IsListed (add s job) jobs (add-IsListed s job h)

-- After any jobs are added to a new scheduler, its status has one line for each name that was added
-- with a function to run and is not empty, in the order in which the names came first.
pub status-first_names :
    (jobs : List Job) → map (λ st. st.name) (status (add_all new jobs)) ≡ first_names [] jobs
unfolding new
status-first_names jobs =
    status-order (add_all new jobs) (add_all-IsListed new jobs tt) ∙ order-add_all new jobs
