-- ===== src/Queue/Liveness.antt =====
-- internal/library/queue.go: a queue left alone, with time enough between the rounds, runs dry.
use mathlib.Core.Bool.{true≢false}
use kuro.Base.{
  ℕ, suc, ◌+◌, ◌≤◌, ◌≡◌, ◌≢◌, refl, sym, ◌∙◌, inl, inr, Bool, true, false, List, [], ◌∷◌, All,
  Option, none, some, keep, length, Bool-cases, arith,
}
use kuro.Queue.Rows.{QueuedDownload, State, pending, active, failed, done, is_pending, is_active}
use kuro.Queue.Claim.{start_row, claim_row, earliest, next_queued, can_start}
use kuro.Queue.Worker.{Downloader, paused_error, no_faults, held}
use kuro.Queue.Step.{claimed, claim_next, take_up, was_stopped, end_step}
use kuro.Queue.Next.{Found, earliest-Found}
use kuro.Queue.Runs.{resting, RowOk}
use kuro.Queue.Kept.{RowsOk}
use kuro.Queue.Rounds.{Round, worked, run_round, run_rounds, weight, weight-pending, work}
use kuro.Queue.Drains.{Uses}
use kuro.Queue.Dry.{Unpaused, run_round-Uses, run_round-RowsOk}
use kuro.Queue.Patient.{
  AllDue, longest_wait, AllDue-later, update-AllDue, ends_unstopped-AllDue, ends_unstopped-held,
}

-- Each round starts once every try that an earlier one put off is due.
abbrev pub Patient : ℕ → List Round → Type 0
Patient ms [] = Unit
Patient ms (r ∷ rounds) = (ms ≤ r.ms) × (r.ms ≤ r.end_ms) × Patient (r.end_ms + longest_wait) rounds

abbrev pub waiting : List QueuedDownload → List QueuedDownload
waiting rows = keep (λ q. is_pending q.state) rows

nothing_waits :
    (ms : ℕ) (rows : List QueuedDownload)
    → AllDue ms rows
    → All (λ q. can_start ms q ≡ false) rows
    → waiting rows ≡ []
unfolding can_start
nothing_waits ms [] d h = refl
nothing_waits ms (q ∷ rows) d h = elim (Bool-cases (is_pending q.state)) [
  | inl e ↦ absurd (true≢false (sym d.0 ∙ rw e at h.0))
  | inr e ↦ rw e (nothing_waits ms rows d.1 h.1)
]

no_work :
    (rows : List QueuedDownload) → All (RowOk resting) rows → work rows ≤ 0 → waiting rows ≡ []
no_work [] h w = refl
no_work (q ∷ rows) h w = elim (Bool-cases (is_pending q.state)) [
  | inl e ↦ absurd (omega (arith, h.0.0, weight-pending q.state q.attempts e))
  | inr e ↦ rw e (no_work rows h.1 (omega arith))
]

-- A round that downloads leaves every try due in time, and one that does not finds nothing waiting.
abbrev After : ℕ → Downloader → Downloader × Bool → Type 0
After ms d (d', true) = AllDue (ms + longest_wait) d'.rows × (held d' ≡ false)
After ms d (d', false) = waiting d.rows ≡ []

module _ (r : Round) (d : Downloader) (free : held d ≡ false)
    (ne : r.result ≢ some paused_error) where
  end_step-After :
      (q : QueuedDownload) (rows : List QueuedDownload)
      → AllDue r.end_ms rows
      → After r.end_ms d (
        end_step no_faults r.end_now r.end_ms q r.result r.hash
            (take_up q (record d { rows = rows })),
        true,
      )
  unfolding end_step take_up was_stopped held
  end_step-After q rows a = rw free (
    ends_unstopped-AllDue r.end_ms q r.end_now r.result r.hash
        (record d { rows = rows; current = none }) ne a,
    ends_unstopped-held r.end_ms q r.end_now r.result r.hash
          (record d { rows = rows; current = none })
        ∙ free,
  )

  claim_row-After :
      (ms : ℕ) (o : Option QueuedDownload)
      → Found r.ms d.rows o
      → AllDue r.ms d.rows
      → r.ms ≤ r.end_ms
      → After r.end_ms d (worked r (claimed d (claim_row r.now d.rows o)))
  unfolding worked claimed claim_row start_row
  claim_row-After ms none f a le = nothing_waits r.ms d.rows a f
  claim_row-After ms (some q) f a le = end_step-After (start_row r.now q) _ (
      update-AllDue r.end_ms _ (start_row r.now) d.rows (λ x k. k)
        (AllDue-later r.ms r.end_ms d.rows le a))

  run_round-After : AllDue r.ms d.rows → r.ms ≤ r.end_ms → After r.end_ms d (run_round r d)
  unfolding run_round claim_next next_queued
  run_round-After a le =
      rw free (claim_row-After r.ms (earliest r.ms d.rows) (earliest-Found r.ms d.rows) a le)

weight-idle : (s : State) (n : ℕ) → is_pending s ≡ false → is_active s ≡ false → weight s n ≤ 0
unfolding is_pending is_active
weight-idle pending n h k = cc
weight-idle active n h k = cc
weight-idle failed n h k = omega arith
weight-idle done n h k = omega arith

idle_work :
    (rows : List QueuedDownload) → All (RowOk resting) rows → waiting rows ≡ [] → work rows ≤ 0
idle_work [] h e = omega arith
idle_work (q ∷ rows) h e = elim (Bool-cases (is_pending q.state)) [
  | inl p ↦ ground arith
  | inr p ↦ elim (Bool-cases (is_active q.state)) [
    | inl a ↦ absurd (h.0.1 a)
    | inr a ↦ omega (arith, weight-idle q.state q.attempts p a, idle_work rows h.1 (rw p at e))
  ]
]

-- What the rounds that are left do, from any state that they may find.
abbrev Dries : ℕ → List Round → Type 0
Dries ms rounds =
    (d : Downloader)
    → RowsOk resting d.rows
    → held d ≡ false
    → AllDue ms d.rows
    → work d.rows ≤ length rounds
    → waiting (run_rounds rounds d).rows ≡ []

next_round :
    (r : Round) (rounds : List Round) (d : Downloader)
    → Dries (r.end_ms + longest_wait) rounds
    → RowsOk resting d.rows
    → held d ≡ false
    → AllDue r.ms d.rows
    → r.ms ≤ r.end_ms
    → work d.rows ≤ suc (length rounds)
    → (x : Downloader × Bool) → Uses d x
    → After r.end_ms d x
    → RowsOk resting x.0.rows
    → waiting (run_rounds rounds x.0).rows ≡ []
next_round r rounds d ih h free a le w (d', true) lt after k =
    ih d' k after.1 after.0 (omega (arith, lt, w))
next_round r rounds d ih h free a le w (d', false) eq after k = rw eq (
    ih d h free (AllDue-later r.ms (r.end_ms + longest_wait) d.rows (omega (arith, le)) a)
      (omega (arith, idle_work d.rows h.1 after)))

-- A queue that no one holds, pauses or adds to runs dry: after as many rounds as its episodes have tries
-- left, each late enough for the tries that were put off, no episode waits any more, however the
-- downloads end, as long as the engine does not pause them.
pub run_rounds-dry :
    (ms : ℕ) (rounds : List Round) (d : Downloader)
    → RowsOk resting d.rows
    → held d ≡ false
    → AllDue ms d.rows
    → Patient ms rounds
    → Unpaused rounds
    → work d.rows ≤ length rounds
    → waiting (run_rounds rounds d).rows ≡ []
unfolding run_rounds
run_rounds-dry ms [] d h free a p u w = no_work d.rows h.1 w
run_rounds-dry ms (r ∷ rounds) d h free a p u w =
    let due = AllDue-later ms r.ms d.rows p.0 a in
    next_round r rounds d
      (λ d' k free' a' w'. run_rounds-dry (r.end_ms + longest_wait) rounds d' k free' a' p.2 u.1 w')
      h free due p.1 w (run_round r d) (run_round-Uses r d h u.0)
      (run_round-After r d free u.0 due p.1) (run_round-RowsOk r d h)
