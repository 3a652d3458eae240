-- ===== src/Match/Dice.antt =====
-- internal/match/dice.go: how alike two titles are. A title is its list of code points, the ratio is a
-- pair of a numerator and a denominator, which the code divides as float64, and a map is a function of
-- its key.
use kuro.Base.{
  ℕ, ◌+◌, ◌-◌, ◌*◌, ◌%◌, ◌^◌, Bool, ◌||◌, List, [], ◌∷◌, Text, text_eq, length, ltb, ◌==◌,
  if◌then◌else◌,
}

-- `bigram`, two code points in one number of 64 bits.
unfoldable pub bigram : ℕ → ℕ → ℕ
bigram a b = a % 2 ^ 32 * 2 ^ 32 + b % 2 ^ 32

unfoldable pub bigrams : Text → List ℕ
unfolding bigram
bigrams [] = []
bigrams (a ∷ []) = []
bigrams (a ∷ b ∷ s) = bigram a b ∷ bigrams (b ∷ s)

-- `counts[k]++` and `counts[k]--`
unfoldable pub bump : ℕ → (ℕ → ℕ) → ℕ → ℕ
bump k m j = if k == j then m j + 1 else m j

unfoldable pub lower : ℕ → (ℕ → ℕ) → ℕ → ℕ
lower k m j = if k == j then m j - 1 else m j

-- The first loop.
unfoldable pub count_loop : (ℕ → ℕ) → List ℕ → ℕ → ℕ
unfolding bump
count_loop m [] = m
count_loop m (k ∷ ks) = count_loop (bump k m) ks

-- The second loop: how many are shared.
unfoldable pub share_loop : (ℕ → ℕ) → List ℕ → ℕ
unfolding lower
share_loop m [] = 0
share_loop m (k ∷ ks) =
    let found : Bool = ltb 0 (m k) in
    (if found then 1 else 0) + share_loop (if found then lower k m else m) ks

unfoldable pub shared : Text → Text → ℕ
unfolding count_loop share_loop bigrams
shared a b = share_loop (count_loop (λ k. 0) (bigrams a)) (bigrams b)

unfoldable pub dice : Text → Text → ℕ × ℕ
unfolding shared
dice a b =
    if text_eq a b
    then (1, 1)
    else if ltb (length a) 2 || ltb (length b) 2
    then (0, 1)
    else (2 * shared a b, (length a - 1) + (length b - 1))
