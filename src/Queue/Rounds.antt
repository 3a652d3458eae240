-- ===== src/Queue/Rounds.antt =====
-- internal/library/queue.go: rounds of `Run`'s loop with no call from elsewhere, and how many tries are
-- left in the queue.
use mathlib.Core.Bool.{true≢false}
use kuro.Base.{
  ℕ, suc, ◌+◌, ◌-◌, ◌≤◌, ◌<◌, ◌≡◌, refl, sym, inl, inr, Bool, true, false, not, ◌&&◌, List, [], ◌∷◌,
  All, Option, none, some, Text, any, keep, Bool-cases, if◌then◌else◌, arith,
}
use kuro.Queue.Rows.{
  QueuedDownload, State, pending, active, failed, done, is_active, is_pending, is_row, update_rows,
  is_active_row,
}
use kuro.Queue.Claim.{start_row, is_waiting_row}
use kuro.Queue.Worker.{Downloader, Failure, no_faults, held}
use kuro.Queue.Step.{claim_next, take_up, end_step}

-- One round: the clock at the claim and at the end, and how the download ends.
pub record Round : Type 0 where
  pub now : ℕ
  pub ms : ℕ
  pub end_now : ℕ
  pub end_ms : ℕ
  pub result : Option Failure
  pub hash : Option Text

unfoldable pub worked : Round → Downloader × Option QueuedDownload → Downloader × Bool
worked r (d, none) = (d, false)
worked r (d, some q) = (end_step no_faults r.end_now r.end_ms q r.result r.hash (take_up q d), true)

-- `worked := !d.held() && d.step(ctx)`
unfoldable pub run_round : Round → Downloader → Downloader × Bool
unfolding worked
run_round r d = if held d then (d, false) else worked r (claim_next r.now r.ms d)

unfoldable pub run_rounds : List Round → Downloader → Downloader
unfolding run_round
run_rounds [] d = d
run_rounds (r ∷ rounds) d = run_rounds rounds (run_round r d).0

-- How many of the rounds download something.
unfoldable pub started : List Round → Downloader → ℕ
unfolding run_round
started [] d = 0
started (r ∷ rounds) d =
    let rest = started rounds (run_round r d).0 in if (run_round r d).1 then suc rest else rest

-- The tries that are left for an episode that waits or is fetched.
abbrev pub weight : State → ℕ → ℕ
weight pending attempts = 3 - attempts
weight active attempts = 3 - attempts
weight failed attempts = 0
weight done attempts = 0

abbrev pub work : List QueuedDownload → ℕ
work [] = 0
work (q ∷ rows) = weight q.state q.attempts + work rows

pub weight-active : (s : State) (n : ℕ) → is_active s ≡ true → weight s n ≡ 3 - n
unfolding is_active
weight-active pending n h = cc
weight-active active n h = refl
weight-active failed n h = cc
weight-active done n h = cc

abbrev pub Few : List QueuedDownload → Type 0
Few rows = All (λ (q : QueuedDownload). q.attempts ≤ 2) rows

-- An update that raises no weight and lowers that of the active row of a key.
module _ (p : QueuedDownload → Bool) (f : QueuedDownload → QueuedDownload) (anime : ℕ) (key : Text)
    (low : (q : QueuedDownload)
      → p q ≡ true
      → weight (f q).state (f q).attempts ≤ weight q.state q.attempts)
    (lower : (q : QueuedDownload)
      → is_active_row anime key q ≡ true
      → q.attempts ≤ 2
      → (p q ≡ true) × (weight (f q).state (f q).attempts < weight q.state q.attempts)) where
  work-update_le : (rows : List QueuedDownload) → work (update_rows p f rows) ≤ work rows
  unfolding update_rows
  work-update_le [] = omega arith
  work-update_le (q ∷ rows) = elim (Bool-cases (p q)) [
    | inl e ↦ rw e (omega (arith, low q e, work-update_le rows))
    | inr e ↦ rw e (omega (arith, work-update_le rows))
  ]

  pub work-update_lt :
      (rows : List QueuedDownload)
      → Few rows
      → any (is_active_row anime key) rows ≡ true
      → work (update_rows p f rows) < work rows
  unfolding update_rows
  work-update_lt [] few h = absurd (true≢false (sym h))
  work-update_lt (q ∷ rows) few h = elim (Bool-cases (is_active_row anime key q)) [
    | inl e ↦ let (t, lt) = lower q e few.0 in rw t (omega (arith, lt, work-update_le rows))
    | inr e ↦
        let rest = work-update_lt rows few.1 (rw e at h) in
        elim (Bool-cases (p q)) [
          | inl t ↦ rw t (omega (arith, low q t, rest))
          | inr t ↦ rw t (omega (arith, rest))
        ]
  ]

work-keep_le :
    (p : QueuedDownload → Bool) (rows : List QueuedDownload) → work (keep p rows) ≤ work rows
work-keep_le p [] = omega arith
work-keep_le p (q ∷ rows) = elim (Bool-cases (p q)) [
  | inl e ↦ rw e (omega (arith, work-keep_le p rows))
  | inr e ↦ rw e (omega (arith, work-keep_le p rows))
]

pub work-keep_lt :
    (anime : ℕ) (key : Text) (rows : List QueuedDownload)
    → Few rows
    → any (is_active_row anime key) rows ≡ true
    → work (keep (λ q. not (is_row anime key q)) rows) < work rows
unfolding is_active_row
work-keep_lt anime key [] few h = absurd (true≢false (sym h))
work-keep_lt anime key (q ∷ rows) few h =
    elim (Bool-cases (is_active q.state && is_row anime key q)) [
      | inl e ↦
          let here : is_row anime key q ≡ true = ground arith in
          let busy : is_active q.state ≡ true = ground arith in
          rw here (
            omega (
              arith,
              few.0,
              weight-active q.state q.attempts busy,
              work-keep_le (λ x. not (is_row anime key x)) rows,
            ))
      | inr e ↦
          let rest = work-keep_lt anime key rows few.1 (rw e at h) in
          elim (Bool-cases (is_row anime key q)) [
            | inl t ↦ rw t (omega (arith, rest))
            | inr t ↦ rw t (omega (arith, rest))
          ]
    ]

pub weight-pending : (s : State) (n : ℕ) → is_pending s ≡ true → weight s n ≡ 3 - n
unfolding is_pending
weight-pending pending n h = refl
weight-pending active n h = cc
weight-pending failed n h = cc
weight-pending done n h = cc

-- A claim leaves the work as it is, and the claimed row active.
pub work-start :
    (now anime : ℕ) (key : Text) (rows : List QueuedDownload)
    → work (update_rows (is_waiting_row anime key) (start_row now) rows) ≡ work rows
unfolding update_rows is_waiting_row start_row
work-start now anime key [] = refl
work-start now anime key (q ∷ rows) = elim (Bool-cases (is_pending q.state && is_row anime key q)) [
  | inl e ↦ rw e (
      omega
        (arith, weight-pending q.state q.attempts (ground arith), work-start now anime key rows))
  | inr e ↦ rw e (omega (arith, work-start now anime key rows))
]

pub active-start :
    (now anime : ℕ) (key : Text) (rows : List QueuedDownload)
    → any (is_waiting_row anime key) rows ≡ true
    → any (is_active_row anime key) (update_rows (is_waiting_row anime key) (start_row now) rows)
      ≡ true
unfolding update_rows is_waiting_row is_active_row start_row is_active is_row
active-start now anime key [] h = h
active-start now anime key (q ∷ rows) h = ground (arith, active-start now anime key rows)
