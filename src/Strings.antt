-- ===== src/Strings.antt =====
-- Go's `strings` and `strconv` as the program uses them, on ASCII.
use kuro.Base.{
  ℕ, ◌+◌, ◌-◌, ◌*◌, ◌^◌, Bool, true, ◌&&◌, ◌||◌, List, [], ◌∷◌, reverse, Option, none, some, Text,
  ltb, leb, ◌==◌, if◌then◌else◌,
}
use kuro.Regex.{is_digit, is_space}

-- `strings.SplitSeq(s, ":")`; `part` is the piece being read, reversed.
split_from : ℕ → Text → Text → List Text
split_from sep [] part = reverse part ∷ []
split_from sep (c ∷ s) part =
    if c == sep then reverse part ∷ split_from sep s [] else split_from sep s (c ∷ part)

unfoldable pub split_on : ℕ → Text → List Text
unfolding split_from
split_on sep s = split_from sep s []

-- What `unicode.IsSpace` says of ASCII; the `\s` of a pattern leaves the vertical tab out.
is_blank : ℕ → Bool
unfolding is_space
is_blank c = is_space c || c == 11

drop_space : Text → Text
unfolding is_blank
drop_space [] = []
drop_space (c ∷ s) = if is_blank c then drop_space s else c ∷ s

-- `strings.TrimSpace` on ASCII.
unfoldable pub trim_space : Text → Text
unfolding drop_space
trim_space s = reverse (drop_space (reverse (drop_space s)))

upper_code : ℕ → ℕ
upper_code c = if leb b'a' c && leb c b'z' then c - 32 else c

-- `strings.ToUpper` on ASCII.
unfoldable pub to_upper : Text → Text
unfolding upper_code
to_upper [] = []
to_upper (c ∷ s) = upper_code c ∷ to_upper s

value_from : ℕ → Text → ℕ
value_from n [] = n
value_from n (c ∷ s) = value_from (n * 10 + (c - b'0')) s

-- The number that a text of digits writes.
unfoldable pub digits_value : Text → ℕ
unfolding value_from
digits_value s = value_from 0 s

digits_only : Text → Bool
unfolding is_digit
digits_only [] = true
digits_only (c ∷ s) = is_digit c && digits_only s

number : Text → Option ℕ
unfolding digits_only
number [] = none
number (c ∷ s) = if digits_only (c ∷ s) then some (digits_value (c ∷ s)) else none

-- `strconv.Atoi` of a text without a minus sign; a value past int64 is an error there.
unfoldable pub atoi : Text → Option ℕ
unfolding number
atoi [] = none
atoi (c ∷ s) =
    let n = if c == b'+' then number s else number (c ∷ s) in
    elim n [ none ↦ none | some v ↦ if ltb v (2 ^ 63) then some v else none ]
