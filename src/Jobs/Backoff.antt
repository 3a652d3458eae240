-- ===== src/Jobs/Backoff.antt =====
-- internal/jobs/jobs.go, `backoff`: how long a failing job waits.
use native.Mathlib.Nat.{pow-suc, mul_assoc, mul_comm}
use kuro.Base.{ℕ, zero, suc, ◌*◌, ◌^◌, ◌≤◌, ◌<◌, ◌≡◌, ◌⊎◌, inl, inr, sym, min, max, arith}
use kuro.Jobs.{backoff, six_hours}

-- The wait before the cap.
abbrev doubled : ℕ → ℕ → ℕ
doubled base k = base * 2 ^ k

doubled-suc : (base k : ℕ) → doubled base (suc k) ≡ 2 * doubled base k
doubled-suc base k = rw pow-suc (rw (sym (mul_assoc base (2 ^ k) 2)) (mul_comm (base * 2 ^ k) 2))

base_le-doubled : (base k : ℕ) → base ≤ doubled base k
base_le-doubled base zero = omega arith
base_le-doubled base (suc k) = omega (arith, doubled-suc base k, base_le-doubled base k)

min-cases :
    (f : ℕ)
    → ((f < 5) × (min f 5 ≡ f) × (min (suc f) 5 ≡ suc f)) ⊎ ((min f 5 ≡ 5) × (min (suc f) 5 ≡ 5))
min-cases f = ground arith

backoff_monotone : (base f : ℕ) → backoff base f ≤ backoff base (suc f)
unfolding backoff
backoff_monotone base f = elim (min-cases f) [
  | inl (h, e, e') ↦ rw e (rw e' (omega (arith, doubled-suc base f)))
  | inr (e, e') ↦ rw e (rw e' (omega arith))
]

backoff_doubles :
    (base f : ℕ) → f < 5 → base * 2 ^ suc f ≤ six_hours → backoff base (suc f) ≡ 2 * backoff base f
unfolding backoff
backoff_doubles base f h k = elim (min-cases f) [
  | inl (_, e, e') ↦ rw e (rw e' (omega (arith, doubled-suc base f, base_le-doubled base f)))
  | inr (e, e') ↦ absurd (omega arith)
]

-- A failing job waits at least its own interval and at most six hours, unless its interval is longer;
-- one more failure never shortens the wait; and below six hours a failure doubles it, up to the fifth.
pub backoff_bounds :
    (base failures : ℕ)
    → (base ≤ backoff base failures)
      × (backoff base failures ≤ max six_hours base)
      × (backoff base failures ≤ backoff base (suc failures))
      × (failures < 5
          → base * 2 ^ suc failures ≤ six_hours
          → backoff base (suc failures) ≡ 2 * backoff base failures)
unfolding backoff
backoff_bounds base f = (omega arith, omega arith, backoff_monotone base f, backoff_doubles base f)
