-- ===== src/Regex.antt =====
-- The part of Go's `regexp` that the release patterns use (internal/score, internal/film): classes,
-- sequence, alternatives, optional and repeated classes, `\b`, `^` and `$`. A pattern with `(?i)` is
-- written in lower case and run on the lower-cased name (ASCII folding).
use mathlib.Core.List.{flat_map, head?}
use kuro.Base.{
  ℕ, Bool, true, false, not, ◌&&◌, ◌||◌, List, [], ◌∷◌, ◌++◌, Option, none, some, Text, String,
  text, to_lower, leb, ◌==◌, differ, if◌then◌else◌,
}

pub data Regex : Type 0 where
  eps : Regex
  one : (ℕ → Bool) → Regex
  many : (ℕ → Bool) → Regex
  seq : Regex → Regex → Regex
  alt : Regex → Regex → Regex
  word_edge : Regex
  start_text : Regex
  end_text : Regex

-- `\d`, `\w` and `\s`.
unfoldable pub is_digit : ℕ → Bool
is_digit c = leb b'0' c && leb c b'9'

unfoldable pub is_word : ℕ → Bool
unfolding is_digit
is_word c = is_digit c || leb b'a' c && leb c b'z' || leb b'A' c && leb c b'Z' || c == b'_'

unfoldable pub is_space : ℕ → Bool
is_space c = c == b' ' || leb 9 c && leb c 10 || leb 12 c && leb c 13

word_at : Option ℕ → Bool
unfolding is_word
word_at none = false
word_at (some c) = is_word c

-- A place in the text: the character before it and what follows.
abbrev pub Place : Type 0
Place = Option ℕ × Text

-- Where the repetition of a class may stop, the longest first.
star : (ℕ → Bool) → Option ℕ → Text → List Place
star p prev [] = (prev, []) ∷ []
star p prev (c ∷ s) =
    let more = star p (some c) s in if p c then more ++ (prev, c ∷ s) ∷ [] else (prev, c ∷ s) ∷ []

-- Every place where a match that starts here can end.
unfoldable pub ends : Regex → Option ℕ → Text → List Place
unfolding star word_at
ends eps prev s = (prev, s) ∷ []
ends (one p) prev [] = []
ends (one p) prev (c ∷ s) = if p c then (some c, s) ∷ [] else []
ends (many p) prev s = star p prev s
ends (seq a b) prev s = flat_map (λ (place : Place). ends b place.0 place.1) (ends a prev s)
ends (alt a b) prev s = ends a prev s ++ ends b prev s
ends word_edge prev s = if differ (word_at prev) (word_at (head? s)) then (prev, s) ∷ [] else []
ends start_text none s = (none, s) ∷ []
ends start_text (some c) s = []
ends end_text prev [] = (prev, []) ∷ []
ends end_text prev (c ∷ s) = []

abbrev pub is_empty : List Place → Bool
is_empty [] = true
is_empty (_ ∷ _) = false

unfoldable pub search_from : Regex → Option ℕ → Text → Bool
unfolding ends
search_from r prev [] = not (is_empty (ends r prev []))
search_from r prev (c ∷ s) =
    if is_empty (ends r prev (c ∷ s)) then search_from r (some c) s else true

-- `MatchString` of a pattern with `(?i)`.
unfoldable pub match_fold : Regex → Text → Bool
unfolding search_from
match_fold r s = search_from r none (to_lower s)

-- Building blocks.
abbrev pub literal : Text → Regex
literal [] = eps
literal (c ∷ s) = seq (one (λ d. d == c)) (literal s)

abbrev pub word : String → Regex
word s = literal (text s)

abbrev pub optional : Regex → Regex
optional r = alt r eps

abbrev pub choice : List Regex → Regex
choice [] = one (λ _. false)
choice (r ∷ []) = r
choice (r ∷ q ∷ rs) = alt r (choice (q ∷ rs))

-- `[\s._-]?`
abbrev pub separator : Regex
separator = optional (one (λ c. is_space c || c == b'.' || c == b'_' || c == b'-'))

-- `\b(…)\b`
abbrev pub whole_word : Regex → Regex
whole_word r = seq word_edge (seq r word_edge)
