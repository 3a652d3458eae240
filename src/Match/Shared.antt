-- ===== src/Match/Shared.antt =====
-- internal/match/dice.go: the two loops count the bigrams that two titles share, and treat both alike.
use mathlib.Core.Path.{subst, fun_ext}
use kuro.Base.{
  ℕ, suc, ◌+◌, ◌<◌, ◌≡◌, refl, sym, ap, ◌∙◌, inl, inr, Bool, true, false, List, [], ◌∷◌, Text, ltb,
  ◌==◌, Bool-cases, if◌then◌else◌, arith,
}
use kuro.Match.Dice.{bigrams, bump, lower, count_loop, share_loop, shared}

-- How often a number stands in a list.
unfoldable pub occurs : ℕ → List ℕ → ℕ
occurs j [] = 0
occurs j (k ∷ ks) = (if k == j then 1 else 0) + occurs j ks

-- The list without the first of this number.
drop_first : ℕ → List ℕ → List ℕ
drop_first x [] = []
drop_first x (y ∷ ys) = if y == x then ys else y ∷ drop_first x ys

count_loop-occurs : (m : ℕ → ℕ) (ks : List ℕ) (j : ℕ) → count_loop m ks j ≡ m j + occurs j ks
unfolding count_loop occurs
count_loop-occurs m [] j = omega arith
count_loop-occurs m (k ∷ ks) j = count_loop-occurs (bump k m) ks j ∙ unfold bump in ground arith

counts : (ks : List ℕ) → count_loop (λ k. 0) ks ≡ (λ j. occurs j ks)
counts ks = fun_ext (λ j. count_loop-occurs (λ k. 0) ks j ∙ omega arith)

pub found_step :
    (m : ℕ → ℕ) (k : ℕ) (ks : List ℕ) (b : Bool)
    → ltb 0 (m k) ≡ b
    → share_loop m (k ∷ ks) ≡ (if b then 1 else 0) + share_loop (if b then lower k m else m) ks
unfolding share_loop
found_step m k ks b h =
    ap (λ x. (if x then 1 else 0) + share_loop (if x then lower k m else m) ks) h

lower-bump_same : (x : ℕ) (m : ℕ → ℕ) → lower x (bump x m) ≡ m
unfolding lower bump
lower-bump_same x m = fun_ext (λ j. ground arith)

lower-bump_other :
    (x y : ℕ) (m : ℕ → ℕ)
    → (y == x) ≡ false
    → ltb 0 (m y) ≡ true
    → lower y (bump x m) ≡ bump x (lower y m)
unfolding lower bump
lower-bump_other x y m h k = fun_ext (λ j. ground arith)

bump_other : (x y : ℕ) (m : ℕ → ℕ) → (y == x) ≡ false → bump x m y ≡ m y
unfolding bump
bump_other x y m h = ground arith

occurs_same : (x y : ℕ) (ys : List ℕ) → (y == x) ≡ true → occurs x (y ∷ ys) ≡ suc (occurs x ys)
unfolding occurs
occurs_same x y ys h = rw h (omega arith)

occurs_other : (x y : ℕ) (ys : List ℕ) → (y == x) ≡ false → occurs x (y ∷ ys) ≡ occurs x ys
unfolding occurs
occurs_other x y ys h = rw h (omega arith)

drop_same : (x y : ℕ) (ys : List ℕ) → (y == x) ≡ true → drop_first x (y ∷ ys) ≡ ys
unfolding drop_first
drop_same x y ys h = rw h refl

drop_other :
    (x y : ℕ) (ys : List ℕ) → (y == x) ≡ false → drop_first x (y ∷ ys) ≡ y ∷ drop_first x ys
unfolding drop_first
drop_other x y ys h = rw h refl

-- A step of the second loop on a number that is not the one with a count more.
other_step :
    (x y : ℕ) (m : ℕ → ℕ) (ys zs : List ℕ) (n : ℕ) (b : Bool)
    → ltb 0 (m y) ≡ b
    → (y == x) ≡ false
    → ((f : ℕ → ℕ) → share_loop (bump x f) ys ≡ n + share_loop f zs)
    → share_loop (bump x m) (y ∷ ys) ≡ n + share_loop m (y ∷ zs)
other_step x y m ys zs n true b e ih =
    found_step (bump x m) y ys true (ap (ltb 0) (bump_other x y m e) ∙ b)
    ∙ ap (λ f. 1 + share_loop f ys) (lower-bump_other x y m e b)
    ∙ ap (λ t. 1 + t) (ih (lower y m))
    ∙ swap (share_loop (lower y m) zs)
    ∙ ap (λ t. n + t) (sym (found_step m y zs true b))
  where
    swap : (t : ℕ) → 1 + (n + t) ≡ n + (1 + t)
    swap t = omega arith
other_step x y m ys zs n false b e ih =
    found_step (bump x m) y ys false (ap (ltb 0) (bump_other x y m e) ∙ b)
    ∙ zero_plus (share_loop (bump x m) ys)
    ∙ ih m
    ∙ ap (λ t. n + t) (sym (zero_plus (share_loop m zs)) ∙ sym (found_step m y zs false b))
  where
    zero_plus : (t : ℕ) → 0 + t ≡ t
    zero_plus t = omega arith

-- One more of a number that the list has, and of one that it does not have.
share_loop-bump :
    (x : ℕ) (ys : List ℕ) (m : ℕ → ℕ)
    → 0 < occurs x ys
    → share_loop (bump x m) ys ≡ 1 + share_loop m (drop_first x ys)
share_loop-bump x [] m h = absurd (unfold occurs in omega arith)
share_loop-bump x (y ∷ ys) m h = elim (Bool-cases (y == x)) [
  | inl e ↦
      found_step (bump x m) y ys true (unfold bump in ground arith)
      ∙ ap (λ f. 1 + share_loop f ys) (ap (λ z. lower z (bump x m)) (same e) ∙ lower-bump_same x m)
      ∙ ap (λ zs. 1 + share_loop m zs) (sym (drop_same x y ys e))
  | inr e ↦
      other_step x y m ys (drop_first x ys) 1 (ltb 0 (m y)) refl e
        (λ f. share_loop-bump x ys f (subst (λ z. 0 < z) (occurs_other x y ys e) h))
      ∙ ap (λ zs. 1 + share_loop m zs) (sym (drop_other x y ys e))
]
  where
    same : (y == x) ≡ true → y ≡ x
    same e = ground arith

share_loop-bump_missing :
    (x : ℕ) (ys : List ℕ) (m : ℕ → ℕ) → occurs x ys ≡ 0 → share_loop (bump x m) ys ≡ share_loop m ys
share_loop-bump_missing x [] m h = unfold share_loop in refl
share_loop-bump_missing x (y ∷ ys) m h = elim (Bool-cases (y == x)) [
  | inl e ↦ absurd (some_of (occurs_same x y ys e))
  | inr e ↦
      other_step x y m ys ys 0 (ltb 0 (m y)) refl e
        (λ f. share_loop-bump_missing x ys f (sym (occurs_other x y ys e) ∙ h) ∙ omega arith)
      ∙ omega arith
]
  where
    some_of : occurs x (y ∷ ys) ≡ suc (occurs x ys) → ⊥
    some_of e = omega arith

lower-occurs :
    (x : ℕ) (ks : List ℕ) (j : ℕ)
    → 0 < occurs x ks
    → lower x (λ i. occurs i ks) j ≡ occurs j (drop_first x ks)
unfolding lower occurs
lower-occurs x [] j h = absurd (omega arith)
lower-occurs x (k ∷ ks) j h = elim (Bool-cases (k == x)) [
  | inl e ↦ rw (drop_same x k ks e) (ground arith)
  | inr e ↦
      rw (drop_other x k ks e)
        (ground (arith, lower-occurs x ks j (subst (λ z. 0 < z) (occurs_other x k ks e) h)))
]

-- How many numbers two lists have in common.
unfoldable pub common : List ℕ → List ℕ → ℕ
common xs ys = share_loop (λ j. occurs j xs) ys

occurs_cons :
    (y : ℕ) (ys : List ℕ) → ◌≡◌ {A = ℕ → ℕ} (λ j. occurs j (y ∷ ys)) (bump y (λ j. occurs j ys))
unfolding occurs bump
occurs_cons y ys = fun_ext (λ j. ground arith)

common-cons_found :
    (y : ℕ) (ys xs : List ℕ)
    → 0 < occurs y xs
    → common (y ∷ ys) xs ≡ 1 + common ys (drop_first y xs)
unfolding common
common-cons_found y ys xs h =
    ap (λ f. share_loop f xs) (occurs_cons y ys) ∙ share_loop-bump y xs (λ j. occurs j ys) h

common-cons_missing : (y : ℕ) (ys xs : List ℕ) → occurs y xs ≡ 0 → common (y ∷ ys) xs ≡ common ys xs
unfolding common
common-cons_missing y ys xs h =
    ap (λ f. share_loop f xs) (occurs_cons y ys) ∙ share_loop-bump_missing y xs (λ j. occurs j ys) h

share_nothing : (ks : List ℕ) → share_loop (λ j. 0) ks ≡ 0
share_nothing [] = unfold share_loop in refl
share_nothing (k ∷ ks) =
    found_step (λ j. 0) k ks false (ground arith) ∙ ap (λ t. 0 + t) (share_nothing ks)

common_comm : (xs ys : List ℕ) → common xs ys ≡ common ys xs
unfolding common
common_comm xs [] = unfold share_loop occurs in sym (share_nothing xs)
common_comm xs (y ∷ ys) = elim (Bool-cases (ltb 0 (occurs y xs))) [
  | inl e ↦
      found_step (λ j. occurs j xs) y ys true e
      ∙ ap (λ f. 1 + share_loop f ys) (fun_ext (λ j. lower-occurs y xs j (positive e)))
      ∙ ap (λ t. 1 + t) (common_comm (drop_first y xs) ys)
      ∙ sym (common-cons_found y ys xs (positive e))
  | inr e ↦
      found_step (λ j. occurs j xs) y ys false e
      ∙ ap (λ t. 0 + t) (common_comm xs ys)
      ∙ zero_plus (common ys xs)
      ∙ sym (common-cons_missing y ys xs (none_of e))
]
  where
    positive : ltb 0 (occurs y xs) ≡ true → 0 < occurs y xs
    positive e = ground arith

    none_of : ltb 0 (occurs y xs) ≡ false → occurs y xs ≡ 0
    none_of e = ground arith

    zero_plus : (t : ℕ) → 0 + t ≡ t
    zero_plus t = omega arith

pub shared-common : (a b : Text) → shared a b ≡ common (bigrams a) (bigrams b)
unfolding shared common
shared-common a b = ap (λ f. share_loop f (bigrams b)) (counts (bigrams a))

pub shared_comm : (a b : Text) → shared a b ≡ shared b a
shared_comm a b = shared-common a b ∙ common_comm (bigrams a) (bigrams b) ∙ sym (shared-common b a)
