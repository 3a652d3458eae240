-- ===== src/Film/Key.antt =====
-- internal/film/film.go: the key of a film, and what a name says of it. A ratio of words is kept as
-- its two counts and compared by cross products, which the code's float64 division decides alike for
-- titles of fewer than 2 ^ 26 words.
pub mod Fit
pub mod Verdicts
use kuro.Base.{
  ℕ, ◌+◌, ◌*◌, Bool, true, false, not, ◌||◌, ◌&&◌, List, [], ◌∷◌, ◌++◌, map, Option, none, some,
  Text, has, keep, length, leb, ltb, ◌==◌, if◌then◌else◌,
}
use kuro.Film.Words.{tokens, distinctive}
use kuro.Film.Number.{number, stated}

-- An entry of the catalogue is its titles.
abbrev pub Entry : Type 0
Entry = List Text

pub record Key : Type 0 where
  pub number : ℕ
  pub count : ℕ
  pub own : List (List Text)
  pub others : List (List (List Text))

pub data Verdict : Type 0 where
  unknown : Verdict
  ours : Verdict
  other : Verdict

entry_has : Text → Entry → Bool
entry_has w [] = false
entry_has w (t ∷ titles) = has w (distinctive t) || entry_has w titles

-- `seen[w]`
seen : List Entry → Text → ℕ
unfolding entry_has
seen [] w = 0
seen (e ∷ all) w = if entry_has w e then seen all w + 1 else seen all w

-- A word that most entries share.
unfoldable pub common : List Entry → Text → Bool
unfolding seen
common all w = leb 2 (seen all w) && leb (length all) (seen all w * 2)

sets : List Entry → Entry → List (List Text)
sets all [] = []
sets all (t ∷ titles) =
    let words = keep (λ w. not (common all w)) (distinctive t) in
    let rest = sets all titles in if ltb 0 (length words) then words ∷ rest else rest

first_stated : List Text → ℕ
first_stated [] = 0
first_stated (t ∷ titles) =
    let rest = first_stated titles in if ltb 0 (stated t) then stated t else rest

unfoldable pub new_key : Entry → List Entry → Key
unfolding sets first_stated
new_key own siblings =
    let all = own ∷ siblings in
    record {
      number = first_stated own;
      count = length all;
      own = sets all own;
      others = map (sets all) siblings;
    }

-- `hits` of `total` words; the zero value has none.
pub record Evidence : Type 0 where
  pub hits : ℕ
  pub total : ℕ

abbrev pub no_evidence : Evidence
no_evidence = record { hits = 0; total = 1 }

unfoldable pub beats : Evidence → Evidence → Bool
beats e o =
    ltb (o.hits * e.total) (e.hits * o.total)
    || e.hits * o.total == o.hits * e.total && ltb o.hits e.hits

unfoldable pub count_hits : List Text → List Text → ℕ
count_hits words [] = 0
count_hits words (w ∷ title) =
    if has w words then count_hits words title + 1 else count_hits words title

abbrev pub evidence_of : List Text → List Text → Evidence
evidence_of words t = record { hits = count_hits words t; total = length t }

-- At least half of the title's words.
unfoldable pub qualifies : Evidence → Bool
qualifies e = ltb 0 e.hits && leb e.total (2 * e.hits)

-- The loop of `fit`, from the best so far.
unfoldable pub fit_loop : List Text → Evidence → List (List Text) → Evidence
fit_loop words best [] = best
fit_loop words best (t ∷ titles) =
    let e = evidence_of words t in
    fit_loop words (if qualifies e && beats e best then e else best) titles

unfoldable pub fit : List (List Text) → List Text → Evidence
unfolding fit_loop
fit titles words = fit_loop words no_evidence titles

-- The best of the other films.
unfoldable pub theirs_loop : List Text → Evidence → List (List (List Text)) → Evidence
theirs_loop words theirs [] = theirs
theirs_loop words theirs (o ∷ others) =
    let e = fit o words in theirs_loop words (if beats e theirs then e else theirs) others

-- The switch of `judge`, on what was found.
unfoldable pub decide : Evidence → Evidence → Bool → Bool → Bool → Verdict × ℕ
decide mine theirs fractional agrees disagrees =
    if ltb 0 mine.hits && beats mine theirs
    then if agrees then (ours, 3) else (ours, 2)
    else if beats theirs mine
    then (other, 0)
    else if ltb 0 mine.hits
    then if agrees then (ours, 3) else (other, 0)
    else if fractional || disagrees
    then (other, 0)
    else if agrees
    then (ours, 1)
    else (unknown, 0)

abbrev pub agrees : Key → ℕ → Bool
agrees k num = ltb 0 k.number && num == k.number

abbrev pub disagrees : Key → ℕ → Bool
disagrees k num = ltb 0 k.number && ltb 0 num && not (num == k.number)

unfoldable pub judge : Key → Text → Verdict × ℕ
unfolding theirs_loop decide
judge k name =
    let words = tokens name in
    let (num, fractional) = number name in
    decide (fit k.own words) (theirs_loop words no_evidence k.others) fractional (agrees k num)
      (disagrees k num)

-- `Match`
unfoldable pub match_name : Key → Text → Verdict
match_name k name = (judge k name).0

abbrev pub is_ours : Verdict → Bool
is_ours ours = true
is_ours unknown = false
is_ours other = false

abbrev pub is_other : Verdict → Bool
is_other other = true
is_other unknown = false
is_other ours = false

-- `Named`
unfoldable pub named : Key → Text → Bool
named k name = is_ours (judge k name).0 && leb 2 (judge k name).1
