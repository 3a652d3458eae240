-- ===== src/Engine/Regroup/Waits.antt =====
-- internal/engine/regroup.go, `tryAgain`: how long a download without peers waits between its tries.
use native.Mathlib.Nat.{pow-suc}
use kuro.Base.{
  ℕ, suc, ◌+◌, ◌-◌, ◌*◌, ◌^◌, ◌≡◌, refl, ap, ◌∙◌, inl, inr, min, false, not, none, some,
  Option-cases, Bool-cases, ltb, arith,
}
use kuro.Engine.Regroup.{Tries, regroup_after, regroup_max, try_from, try_again, at_rest}

-- The wait after a number of tries that brought nobody.
abbrev pub wait_after : ℕ → ℕ
wait_after n = min (regroup_after * 2 ^ n) regroup_max

-- What happens to the tries of a download: it is looked at while starved, or it is not starved.
pub data Step : Tries → Tries → Type 0 where
  looks : {t : Tries} (now : ℕ) → Step t (try_again now t).0
  rests : {t : Tries} → Step t at_rest

pub data Reached : Tries → Type 0 where
  fresh : Reached at_rest
  steps : {t t' : Tries} → Reached t → Step t t' → Reached t'

-- At rest, or waiting as long as the tries so far say.
abbrev pub Waits : Tries → Type 0
Waits t = elim t.alone_since [
  | none ↦ t.regroups ≡ 0
  | some since ↦ t.regroup_wait ≡ wait_after t.regroups
]

wait_after-suc : (n : ℕ) → min (wait_after n * 2) regroup_max ≡ wait_after (n + 1)
wait_after-suc n =
    let next : n + 1 ≡ suc n = omega arith in omega (arith, pow-suc 2 n, ap (λ k. 2 ^ k) next)

try_from-Waits : (now since n : ℕ) → Waits (try_from now since (wait_after n) n).0
unfolding try_from
try_from-Waits now since n = elim (Bool-cases (ltb (now - since) (wait_after n))) [
  | inl early ↦ rw early refl
  | inr due ↦ rw due (wait_after-suc n)
]

try_from-due : (now since wait n : ℕ) → (try_from now since wait n).1 ≡ not (ltb (now - since) wait)
unfolding try_from
try_from-due now since wait n = elim (Bool-cases (ltb (now - since) wait)) [
  | inl early ↦ rw early refl
  | inr due ↦ rw due refl
]

try_again-Waits : (now : ℕ) (t : Tries) → Waits t → Waits (try_again now t).0
unfolding try_again
try_again-Waits now t w = elim (Option-cases t.alone_since) [
  | inl e ↦
      let none_yet : t.regroups ≡ 0 = rw e at w in
      rw (e, try_again) (rw none_yet (try_from-Waits now now 0))
  | inr (since, e) ↦
      let waits : t.regroup_wait ≡ wait_after t.regroups = rw e at w in
      rw (e, try_again) (rw waits (try_from-Waits now since t.regroups))
]

Step-Waits : {t t' : Tries} → Step t t' → Waits t → Waits t'
Step-Waits (looks {t} now) w = try_again-Waits now t w
Step-Waits rests w = refl

Reached-Waits : {t : Tries} → Reached t → Waits t
Reached-Waits fresh = refl
Reached-Waits (steps r s) = Step-Waits s (Reached-Waits r)

-- However looks and rests follow each other: while a download is without peers, a look tries again
-- exactly when the time since the last try (or since it was first seen alone) reaches 20 seconds
-- doubled for each try so far, but at most ten minutes; the first look alone does not try.
pub try_again_due :
    {t : Tries}
    → Reached t
    → (now : ℕ)
    → (try_again now t).1 ≡ (elim t.alone_since [
      | none ↦ false
      | some since ↦ not (ltb (now - since) (wait_after t.regroups))
    ])
unfolding try_again try_from
try_again_due {t} r now = elim (Option-cases t.alone_since) [
  | inl e ↦ rw (e, try_again) (try_from-due now now regroup_after t.regroups ∙ ground arith)
  | inr (since, e) ↦
      let waits : t.regroup_wait ≡ wait_after t.regroups = rw e at (Reached-Waits r) in
      rw (e, try_again) (rw waits (try_from-due now since (wait_after t.regroups) t.regroups))
]
