-- ===== src/Base/Lists.antt =====
-- Lists measured by native numbers, and predicates on all elements.
use Prim.Native.Nat.{ℕ, suc, ◌+◌, ◌≤◌}
use mathlib.Core.Path.{◌≡◌, refl, sym, ap, ◌∙◌, subst}
use mathlib.Core.Bool.{Bool, true, false, Bool-set, true≢false}
use mathlib.Core.HLevel.{×_prop}
use mathlib.Core.Logic.{◌↔◌, inl, inr, ∥∥₁_prop}
use mathlib.Core.List.{List, [], ◌∷◌, ◌++◌, Mem, mem-cons, not-mem-nil}
use mathlib.Core.Logic.Or
use native.Mathlib.Omega.{arith}
use kuro.Base.Tests.{if◌then◌else◌, Bool-cases}

module _ {ℓ} {A : Type ℓ} where
  abbrev pub length : List A → ℕ
  length [] = 0
  length (x ∷ xs) = suc (length xs)

  pub length-append : (xs ys : List A) → length (xs ++ ys) ≡ length xs + length ys
  length-append [] ys = omega arith
  length-append (x ∷ xs) ys = omega (arith, length-append xs ys)

  -- The elements that pass a test, in order. (The library's `filter` wants a decision.)
  abbrev pub keep : (A → Bool) → List A → List A
  keep p [] = []
  keep p (x ∷ xs) = if p x then x ∷ keep p xs else keep p xs

  abbrev pub any : (A → Bool) → List A → Bool
  any p [] = false
  any p (x ∷ xs) = if p x then true else any p xs

  pub length-keep-le : (p : A → Bool) (xs : List A) → length (keep p xs) ≤ length xs
  length-keep-le p [] = omega arith
  length-keep-le p (x ∷ xs) = ground (arith, length-keep-le p xs)

abbrev pub All {ℓ κ} : {A : Type ℓ} → (A → Type κ) → List A → Type κ
All P [] = Unit
All P (x ∷ xs) = P x × All P xs

pub All-append {ℓ κ} :
    {A : Type ℓ} (P : A → Type κ) (xs ys : List A) → All P xs → All P ys → All P (xs ++ ys)
All-append P [] ys hx hy = hy
All-append P (x ∷ xs) ys hx hy = (hx.0, All-append P xs ys hx.1 hy)

pub All-map {ℓ κ μ} :
    {A : Type ℓ} {P : A → Type κ} {Q : A → Type μ} (xs : List A)
    → ((x : A) → P x → Q x)
    → All P xs
    → All Q xs
All-map [] f h = tt
All-map (x ∷ xs) f h = (f x h.0, All-map xs f h.1)

-- What holds of all elements holds of each, if it is a proposition.
pub All-mem {ℓ κ} :
    {A : Type ℓ} {P : A → Type κ} (xs : List A)
    → ((x : A) → IsProp (P x))
    → All P xs
    → {x : A} → Mem x xs
    → P x
All-mem [] p h m = absurd (not-mem-nil m)
All-mem {P} (y ∷ ys) p h {x} m =
    Or.elim (p x) (mem-cons.0 m) (λ e. subst P (sym e) h.0) (All-mem ys p h.1)

pub mem-keep {ℓ} :
    {A : Type ℓ} (p : A → Bool) (xs : List A) {x : A}
    → Mem x (keep p xs) ↔ (Mem x xs × (p x ≡ true))
mem-keep p [] = (λ m. absurd (not-mem-nil m), λ m. absurd (not-mem-nil m.0))
mem-keep p (y ∷ ys) {x} = elim (Bool-cases (p y)) [
  | inl e ↦ rw e (
    λ m.
        Or.elim (×_prop ∥∥₁_prop (Bool-set _ _)) (mem-cons.0 m)
          (λ here. (mem-cons.1 (Or.inl here), ap p here ∙ e))
          (λ tail. let (m', q) = (mem-keep p ys).0 tail in (mem-cons.1 (Or.inr m'), q)),
    λ (m, q).
        Or.elim ∥∥₁_prop (mem-cons.0 m) (λ here. mem-cons.1 (Or.inl here))
          (λ tail. mem-cons.1 (Or.inr ((mem-keep p ys).1 (tail, q)))),
  )
  | inr e ↦ rw e (
    λ m. let (m', q) = (mem-keep p ys).0 m in (mem-cons.1 (Or.inr m'), q),
    λ (m, q).
        Or.elim ∥∥₁_prop (mem-cons.0 m) (λ here. absurd (true≢false (sym q ∙ ap p here ∙ e)))
          (λ tail. (mem-keep p ys).1 (tail, q)),
  )
]

pub All-of_mem {ℓ κ} :
    {A : Type ℓ} {P : A → Type κ} (xs : List A) → ((x : A) → Mem x xs → P x) → All P xs
All-of_mem [] h = tt
All-of_mem (x ∷ xs) h =
    (h x (mem-cons.1 (Or.inl refl)), All-of_mem xs (λ y m. h y (mem-cons.1 (Or.inr m))))
