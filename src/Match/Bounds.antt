-- ===== src/Match/Bounds.antt =====
-- internal/match/dice.go: what `dice` promises of two titles.
use mathlib.Core.Path.{subst}
use kuro.Base.{
  ℕ, suc, ◌+◌, ◌-◌, ◌*◌, ◌≤◌, ◌<◌, ◌≡◌, refl, sym, ap, ◌∙◌, inl, inr, min, true, false, ◌||◌, List,
  [], ◌∷◌, Text, text_eq, text_eq_iff, length, ltb, ◌==◌, Bool-cases, if◌then◌else◌, arith,
}
use kuro.Match.Dice.{bigrams, lower, count_loop, share_loop, shared, dice}
use kuro.Match.Shared.{occurs, found_step, common, shared-common, shared_comm}

share_loop-le : (m : ℕ → ℕ) (ks : List ℕ) → share_loop m ks ≤ length ks
share_loop-le m [] = unfold share_loop in omega arith
share_loop-le m (k ∷ ks) = elim (Bool-cases (ltb 0 (m k))) [
  | inl e ↦ rw (found_step m k ks true e) (le_suc (share_loop-le (lower k m) ks))
  | inr e ↦ rw (found_step m k ks false e) (le_also (share_loop-le m ks))
]
  where
    le_suc : {s t : ℕ} → s ≤ t → 1 + s ≤ suc t
    le_suc h = omega arith

    le_also : {s t : ℕ} → s ≤ t → 0 + s ≤ suc t
    le_also h = omega arith

length-bigrams : (s : Text) → length (bigrams s) ≡ length s - 1
unfolding bigrams
length-bigrams [] = omega arith
length-bigrams (a ∷ []) = omega arith
length-bigrams (a ∷ b ∷ s) = ap suc (length-bigrams (b ∷ s)) ∙ omega arith

shared-le : (a b : Text) → shared a b ≤ length b - 1
shared-le a b =
    subst (λ n. shared a b ≤ n) (length-bigrams b)
      (unfold shared in share_loop-le (count_loop (λ k. 0) (bigrams a)) (bigrams b))

text_eq_comm : (a b : Text) → text_eq a b ≡ text_eq b a
text_eq_comm a b = ground (arith, text_eq_iff a b, text_eq_iff b a, same_text)
  where
    same_text : (a ≡ b) → (b ≡ a)
    same_text e = sym e

dice_comm : (a b : Text) → dice a b ≡ dice b a
unfolding dice
dice_comm a b = λ i.
    if text_eq_comm a b i
    then (1, 1)
    else if short_comm i
    then (0, 1)
    else (2 * shared_comm a b i, sum_comm i)
  where
    short_comm : (ltb (length a) 2 || ltb (length b) 2) ≡ (ltb (length b) 2 || ltb (length a) 2)
    short_comm = ground arith

    sum_comm : (length a - 1) + (length b - 1) ≡ (length b - 1) + (length a - 1)
    sum_comm = omega arith

dice_bound : (a b : Text) → (0 < (dice a b).1) × ((dice a b).0 ≤ (dice a b).1)
unfolding dice
dice_bound a b = elim (Bool-cases (text_eq a b)) [
  | inl e ↦ rw e (omega arith, omega arith)
  | inr e ↦ elim (Bool-cases (ltb (length a) 2 || ltb (length b) 2)) [
    | inl k ↦ rw (e, k) (omega arith, omega arith)
    | inr k ↦
        rw (e, k)
          (
            ground arith,
            half (shared-le a b) (subst (λ n. n ≤ length a - 1) (shared_comm b a) (shared-le b a)),
          )
  ]
]
  where
    half : {n s t : ℕ} → n ≤ t → n ≤ s → 2 * n ≤ s + t
    half h k = omega arith

-- The ratio does not depend on the order of the two titles, its denominator is not 0, and it is at most 1.
pub dice_lem :
    (a b : Text) → (dice a b ≡ dice b a) × (0 < (dice a b).1) × ((dice a b).0 ≤ (dice a b).1)
dice_lem a b = let (p, h) = dice_bound a b in (dice_comm a b, p, h)

-- A list with each number as often as `m` and `ks` both have it.
abbrev pub Meets : (ℕ → ℕ) → List ℕ → ℕ → Type 0
Meets m ks n = (zs : List ℕ) × (length zs ≡ n) × ((j : ℕ) → occurs j zs ≡ min (m j) (occurs j ks))

meets-found :
    (m : ℕ → ℕ) (k : ℕ) (zs ks : List ℕ) (j : ℕ)
    → 0 < m k
    → occurs j zs ≡ min (lower k m j) (occurs j ks)
    → occurs j (k ∷ zs) ≡ min (m j) (occurs j (k ∷ ks))
unfolding occurs lower
meets-found m k zs ks j p h = elim (Bool-cases (k == j)) [
  | inl e ↦
      let q : 0 < m j = subst (λ i. 0 < m i) (same e) p in
      rw e (
        with_one (occurs j zs) (m j) (occurs j ks)
          (subst (λ b. occurs j zs ≡ min (if b then m j - 1 else m j) (occurs j ks)) e h) q)
  | inr e ↦ rw e (
      with_none (occurs j zs) (m j) (occurs j ks)
        (subst (λ b. occurs j zs ≡ min (if b then m j - 1 else m j) (occurs j ks)) e h))
]
  where
    same : (k == j) ≡ true → k ≡ j
    same e = ground arith

    with_one : (z s t : ℕ) → z ≡ min (s - 1) t → 0 < s → 1 + z ≡ min s (1 + t)
    with_one z s t h q = omega arith

    with_none : (z s t : ℕ) → z ≡ min s t → 0 + z ≡ min s (0 + t)
    with_none z s t h = omega arith

meets-missing :
    (m : ℕ → ℕ) (k : ℕ) (zs ks : List ℕ) (j : ℕ)
    → m k ≡ 0
    → occurs j zs ≡ min (m j) (occurs j ks)
    → occurs j zs ≡ min (m j) (occurs j (k ∷ ks))
unfolding occurs
meets-missing m k zs ks j p h = elim (Bool-cases (k == j)) [
  | inl e ↦ rw e (with_zero (sym (ap m (same e)) ∙ p))
  | inr e ↦ rw e (h ∙ ap (λ t. min (m j) t) (omega arith))
]
  where
    same : (k == j) ≡ true → k ≡ j
    same e = ground arith

    with_zero : m j ≡ 0 → occurs j zs ≡ min (m j) (1 + occurs j ks)
    with_zero q = omega arith

share_loop-Meets : (m : ℕ → ℕ) (ks : List ℕ) → Meets m ks (share_loop m ks)
share_loop-Meets m [] = ([], unfold share_loop in refl, λ j. unfold occurs in omega arith)
share_loop-Meets m (k ∷ ks) = elim (Bool-cases (ltb 0 (m k))) [
  | inl e ↦
      let (zs, l, o) = share_loop-Meets (lower k m) ks in
      (
        k ∷ zs,
        one_more (length zs) ∙ ap (λ t. 1 + t) l ∙ sym (found_step m k ks true e),
        λ j. meets-found m k zs ks j (positive e) (o j),
      )
  | inr e ↦
      let (zs, l, o) = share_loop-Meets m ks in
      (
        zs,
        l ∙ zero_plus (share_loop m ks) ∙ sym (found_step m k ks false e),
        λ j. meets-missing m k zs ks j (none_of e) (o j),
      )
]
  where
    positive : ltb 0 (m k) ≡ true → 0 < m k
    positive e = ground arith

    none_of : ltb 0 (m k) ≡ false → m k ≡ 0
    none_of e = ground arith

    one_more : (t : ℕ) → suc t ≡ 1 + t
    one_more t = omega arith

    zero_plus : (t : ℕ) → t ≡ 0 + t
    zero_plus t = omega arith

-- What the two loops count is the size of the intersection of the bigrams of the two titles as multisets:
-- there is a list of that length that has each bigram as often as both titles have it.
pub shared-Meets : (a b : Text) → Meets (λ j. occurs j (bigrams a)) (bigrams b) (shared a b)
shared-Meets a b =
    subst (λ n. Meets (λ j. occurs j (bigrams a)) (bigrams b) n) (sym (shared-common a b))
      (unfold common in share_loop-Meets (λ j. occurs j (bigrams a)) (bigrams b))
