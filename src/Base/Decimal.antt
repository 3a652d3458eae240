-- ===== src/Base/Decimal.antt =====
-- Go's `strconv.Itoa` on numbers that are not negative.
use kuro.Base.{ℕ, zero, suc, ◌+◌, ◌/◌, ◌%◌, [], ◌∷◌, Text, ◌==◌, if◌then◌else◌}

-- A number has no more digits than its own size.
emit : ℕ → ℕ → Text → Text
emit zero n out = out
emit (suc fuel) n out =
    let rest = emit fuel (n / 10) ((b'0' + n % 10) ∷ out) in if n == 0 then out else rest

unfoldable pub itoa : ℕ → Text
unfolding emit
itoa n = if n == 0 then b'0' ∷ [] else emit n n []
