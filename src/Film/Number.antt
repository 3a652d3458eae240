-- ===== src/Film/Number.antt =====
-- internal/film/film.go: `stated` and `Number`, the number that a title or a name gives a film.
use mathlib.Core.List.{flat_map}
use kuro.Base.{
  ℕ, suc, zero, Bool, true, false, ◌||◌, ◌&&◌, List, [], ◌∷◌, ◌++◌, reverse, Option, none, some,
  Text, String, text, to_lower, lower_code, length, ◌==◌, if◌then◌else◌,
}
use kuro.Regex.{
  Regex, eps, one, many, seq, alt, word_edge, start_text, end_text, Place, ends, match_fold,
  is_empty, is_digit, is_space, word, optional, choice,
}
use kuro.Strings.{digits_value, trim_space}

abbrev digit : Regex
digit = one is_digit

-- What `(\d{1,2})` can match here, the longer first, and what follows.
unfoldable pub two_digits : Text → List (Text × Text)
two_digits [] = []
two_digits (c ∷ []) = if is_digit c then (c ∷ [], []) ∷ [] else []
two_digits (c ∷ d ∷ s) =
    if is_digit c
    then (if is_digit d then (c ∷ d ∷ [], s) ∷ (c ∷ [], d ∷ s) ∷ [] else (c ∷ [], d ∷ s) ∷ [])
    else []

abbrev first {ℓ} : {A : Type ℓ} → List A → Option A
first [] = none
first (a ∷ _) = some a

-- `\b(?:chapter|movie|film|vol(?:ume)?)\.?\s*`
marker_head : Regex
marker_head = seq word_edge (
    seq
      (choice (
        word "chapter"
        ∷ word "movie"
        ∷ word "film"
        ∷ seq (word "vol") (optional (word "ume"))
        ∷ []))
      (seq (optional (word ".")) (many is_space)))

-- The digits that are followed by `\b`.
marker_digits : Place → List ℕ
marker_digits place =
    flat_map
      (λ (d : Text × Text).
        if is_empty (ends word_edge (some b'0') d.1) then [] else digits_value d.0 ∷ [])
      (two_digits place.1)

marker_from : Option ℕ → Text → Option ℕ
unfolding marker_head marker_digits
marker_from prev [] = none
marker_from prev (c ∷ s) =
    let rest = marker_from (some c) s in
    elim (first (flat_map marker_digits (ends marker_head prev (c ∷ s)))) [
      | some n ↦ some n
      | none ↦ rest
    ]

-- `marker.FindStringSubmatch(s)`, its group as a number.
unfoldable pub marker : Text → Option ℕ
unfolding marker_from
marker s = marker_from none (to_lower s)

unfoldable pub stated : Text → ℕ
stated title = elim (marker title) [ none ↦ 0 | some n ↦ n ]

-- Every group from an opening to the next closing bracket is replaced; `inside` is what was read of an
-- open group, reversed. One that is never closed stays.
replace_groups : ℕ → ℕ → (Text → Text) → Option Text → Text → Text
replace_groups left right f none [] = []
replace_groups left right f (some inside) [] = left ∷ reverse inside
replace_groups left right f none (c ∷ s) =
    let rest = replace_groups left right f (if c == left then some [] else none) s in
    if c == left then rest else c ∷ rest
replace_groups left right f (some inside) (c ∷ s) =
    let rest = replace_groups left right f (if c == right then none else some (c ∷ inside)) s in
    if c == right then f (reverse inside) ++ rest else rest

-- `^\d{1,2}$`
one_or_two : Text → Bool
one_or_two [] = false
one_or_two (c ∷ []) = is_digit c
one_or_two (c ∷ d ∷ []) = is_digit c && is_digit d
one_or_two (c ∷ d ∷ e ∷ s) = false

round_group : Text → Text
unfolding one_or_two
round_group group =
    let inner = trim_space group in
    if one_or_two inner then b' ' ∷ inner ++ b' ' ∷ [] else b' ' ∷ []

-- A word in any case.
abbrev fold_literal : Text → Regex
fold_literal [] = eps
fold_literal (c ∷ s) = seq (one (λ d. lower_code d == c)) (fold_literal s)

abbrev fold : String → Regex
fold s = fold_literal (text s)

layout : Regex
layout =
    let dash = optional (word "-") in
    seq
      (choice (
        fold "aac"
        ∷ fold "flac"
        ∷ fold "ac3"
        ∷ seq (fold "e") (seq dash (seq (fold "ac") (seq dash (fold "3"))))
        ∷ seq (fold "dts") (optional (seq dash (fold "hd")))
        ∷ fold "opus"
        ∷ seq (fold "dd") (optional (fold "p"))
        ∷ fold "truehd"
        ∷ seq (optional (fold "l")) (fold "pcm")
        ∷ fold "ma"
        ∷ []))
      (seq (many (λ c. is_space c || c == b'.' || c == b'_' || c == b'-'))
        (seq digit (seq (word ".") digit)))

-- `ReplaceAllString(s, " ")` of a pattern that matches no empty text, on fuel.
replace_all : Regex → ℕ → Option ℕ → Text → Text
replace_all r zero prev s = s
replace_all r (suc fuel) prev [] = []
replace_all r (suc fuel) prev (c ∷ s) = elim (first (ends r prev (c ∷ s))) [
  | none ↦ c ∷ replace_all r fuel (some c) s
  | some place ↦ b' ' ∷ replace_all r fuel place.0 place.1
]

-- `(?:^|[\s_])\d{1,2}\s*[-~]\s*\d{1,2}(?:$|[\s_])`
spanned : Regex
spanned =
    let pair = seq digit (optional digit) in
    let gap = one (λ c. is_space c || c == b'_') in
    let spaces = many is_space in
    seq (alt start_text gap) (
      seq pair (
        seq spaces
          (seq (one (λ c. c == b'-' || c == b'~')) (seq spaces (seq pair (alt end_text gap))))))

-- `(?:\.(\d))?`: the digit, if any, and what follows.
fraction : Text → List (Option ℕ × Text)
fraction [] = (none, []) ∷ []
fraction (c ∷ []) = (none, c ∷ []) ∷ []
fraction (c ∷ d ∷ s) =
    if c == b'.' && is_digit d then (some d, s) ∷ (none, c ∷ d ∷ s) ∷ [] else (none, c ∷ d ∷ s) ∷ []

-- `(?:v\d)?`
version : Text → List Text
version [] = [] ∷ []
version (c ∷ []) = (c ∷ []) ∷ []
version (c ∷ d ∷ s) = if c == b'v' && is_digit d then s ∷ (c ∷ d ∷ s) ∷ [] else (c ∷ d ∷ s) ∷ []

-- `(?:$|[\s_:-])`
closes : Text → Bool
closes [] = true
closes (c ∷ s) = is_space c || c == b'_' || c == b':' || c == b'-'

abbrev opens : ℕ → Bool
opens c = is_space c || c == b'_' || c == b'-'

-- `(?:^|[\s_-])`: what follows.
openings : Option ℕ → Text → List Text
openings none [] = [] ∷ []
openings none (c ∷ s) = (c ∷ s) ∷ (if opens c then s ∷ [] else [])
openings (some p) [] = []
openings (some p) (c ∷ s) = if opens c then s ∷ [] else []

-- The groups of a match of `alone` here.
alone_at : Option ℕ → Text → Option (Text × Option ℕ)
unfolding fraction version closes openings
alone_at prev s = first (
    flat_map
      (λ (t : Text).
        flat_map
          (λ (d : Text × Text).
            flat_map
              (λ (f : Option ℕ × Text).
                flat_map (λ (v : Text). if closes v then (d.0, f.0) ∷ [] else []) (version f.1))
              (fraction d.1))
          (two_digits t))
      (openings prev s))

alone_from : Option ℕ → Text → Option (Text × Option ℕ)
unfolding alone_at
alone_from prev [] = alone_at prev []
alone_from prev (c ∷ s) =
    let rest = alone_from (some c) s in
    elim (alone_at prev (c ∷ s)) [ some m ↦ some m | none ↦ rest ]

stands_alone : Option (Text × Option ℕ) → ℕ × Bool
stands_alone none = (0, false)
stands_alone (some (digits, none)) = (digits_value digits, false)
stands_alone (some (digits, some f)) = if f == b'0' then (digits_value digits, false) else (0, true)

without_tags : Text → Text
unfolding replace_groups round_group layout replace_all
without_tags name =
    let s = replace_groups b'[' b']' (λ group. b' ' ∷ []) none name in
    let t = replace_groups b'(' b')' round_group none s in replace_all layout (length t) none t

-- `Number`: the number, and whether it is a fraction.
unfoldable pub number : Text → ℕ × Bool
unfolding without_tags spanned stands_alone alone_from
number name = elim (marker name) [
  | some n ↦ (n, false)
  | none ↦
      let s = without_tags name in
      if match_fold spanned s then (0, false) else stands_alone (alone_from none s)
]
