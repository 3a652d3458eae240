-- ===== src/Film/Words.antt =====
-- internal/film/film.go: the words of a name, and those of a title that mean something. Letters and
-- digits are those of ASCII.
use kuro.Base.{
  ℕ, Bool, true, false, ◌||◌, ◌&&◌, List, [], ◌∷◌, ◌++◌, map, reverse, none, some, Text, text,
  to_lower, has, length, leb, ltb, if◌then◌else◌,
}
use kuro.Strings.{atoi}

-- `[\p{L}\p{N}]`, on ASCII.
unfoldable pub is_alnum : ℕ → Bool
is_alnum c = leb b'0' c && leb c b'9' || leb b'a' c && leb c b'z' || leb b'A' c && leb c b'Z'

flush : Text → List Text → List Text
flush [] words = words
flush (c ∷ w) words = reverse (c ∷ w) ∷ words

-- `split.Split(s, -1)` without the empty pieces; `part` is the piece being read, reversed.
split_from : Text → Text → List Text
unfolding is_alnum flush
split_from part [] = flush part []
split_from part (c ∷ s) =
    let rest = split_from (if is_alnum c then c ∷ part else []) s in
    if is_alnum c then rest else flush part rest

-- The keys of the set that `tokens` returns.
unfoldable pub tokens : Text → List Text
unfolding split_from
tokens name = split_from [] (to_lower name)

abbrev pub stop : List Text
stop = map text (
    "the" ∷ "and" ∷ "with" ∷ "from" ∷ "part" ∷ "movie" ∷ "film" ∷ "chapter" ∷ "season"
    ∷ "gekijouban" ∷ "complete" ∷ "series" ∷ [])

is_number : Text → Bool
is_number w = elim (atoi w) [ none ↦ false | some n ↦ true ]

distinctive_loop : List Text → List Text → List Text
unfolding is_number
distinctive_loop out [] = out
distinctive_loop out (w ∷ words) =
    distinctive_loop
      (if ltb (length w) 4 || has w stop || has w out
        then out
        else if is_number w
        then out
        else out ++ w ∷ [])
      words

unfoldable pub distinctive : Text → List Text
unfolding distinctive_loop split_from
distinctive title = distinctive_loop [] (split_from [] (to_lower title))
