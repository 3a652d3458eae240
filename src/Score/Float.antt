-- ===== src/Score/Float.antt =====
-- Go's float64 as the score uses it: a parameter, since its rounding is the processor's. `F` is the
-- type of the values that are not NaN; the laws are those of IEEE 754 comparison on such values.
use kuro.Base.{ℕ, ◌≡◌, ◌⊎◌, Bool, true, false, ◌||◌}

pub record Float : Type 1 where
  pub F : Type 0
  -- The float64 nearest to n / d, for constants and conversions.
  pub ratio : ℕ → ℕ → F
  pub add : F → F → F
  pub sub : F → F → F
  pub mul : F → F → F
  pub div : F → F → F
  pub log1p : F → F
  -- `int64(x)` of a value that is not negative.
  pub truncate : F → ℕ
  pub lt : F → F → Bool
  pub lt_irrefl : (x : F) → lt x x ≡ false
  pub lt_trans : (x y z : F) → lt x y ≡ true → lt y z ≡ true → lt x z ≡ true
  -- What is between two values is above the lower or below the upper one.
  pub lt_between : (x y z : F) → lt x z ≡ true → (lt x y ≡ true) ⊎ (lt y z ≡ true)

module _ (fl : Float) where
  open fl use {F, ratio, lt}

  abbrev pub of_ℕ : ℕ → F
  of_ℕ n = ratio n 1

  -- `x != y`, for values that are not NaN.
  abbrev pub ne : F → F → Bool
  ne x y = lt x y || lt y x

  -- `min(x, y)`.
  abbrev pub smaller : F → F → F
  smaller x y = if_lt (lt y x) y x
    where
      if_lt : Bool → F → F → F
      if_lt true a b = a
      if_lt false a b = b
