-- ===== src/Film/Pick.antt =====
-- internal/film/film.go, `Pick`: which file of a release is the film. A file is named by its index;
-- equally long files that compete keep their order in the sort.
pub mod Laws
use kuro.Base.{
  ℕ, zero, suc, ◌+◌, ◌*◌, ◌/◌, Bool, true, false, not, ◌||◌, ◌&&◌, List, [], ◌∷◌, ◌++◌, map, Option,
  none, some, Text, keep, length, leb, ltb, ◌==◌, if◌then◌else◌,
}
use kuro.Video.{is_video, base_name}
use kuro.Film.Key.{Key, Verdict, judge, match_name, is_ours, is_other}

pub record File : Type 0 where
  pub name : Text
  pub length : ℕ

-- A video with its index in the list of files.
pub record Video : Type 0 where
  pub index : ℕ
  pub file : File

unfoldable pub videos_from : ℕ → List File → List Video
videos_from i [] = []
videos_from i (f ∷ files) =
    let rest = videos_from (suc i) files in
    if is_video f.name then record { index = i; file = f } ∷ rest else rest

-- `slices.Sort`
insert_length : ℕ → List ℕ → List ℕ
insert_length n [] = n ∷ []
insert_length n (m ∷ ms) = if leb n m then n ∷ m ∷ ms else m ∷ insert_length n ms

sort_lengths : List ℕ → List ℕ
unfolding insert_length
sort_lengths [] = []
sort_lengths (n ∷ ns) = insert_length n (sort_lengths ns)

abbrev nth : ℕ → List ℕ → ℕ
nth i [] = 0
nth zero (n ∷ ns) = n
nth (suc i) (n ∷ ns) = nth i ns

-- A quarter of the middle length.
unfoldable pub floor : List Video → ℕ
unfolding sort_lengths
floor videos =
    let lengths = sort_lengths (map (λ (v : Video). v.file.length) videos) in
    nth (length lengths / 2) lengths / 4

pub record Leader : Type 0 where
  pub best : Option Video
  pub grade : ℕ
  pub tied : List Video

-- One round of the loop.
unfoldable pub lead : Key → ℕ → Leader → Video → Leader
lead k low l v =
    let (verdict, g) = judge k (base_name v.file.name) in
    if not (is_ours verdict) || g == 1 && ltb v.file.length low
    then l
    else if ltb l.grade g
    then record { best = some v; grade = g; tied = [] }
    else if g == l.grade
    then record l { tied = l.tied ++ v ∷ [] }
    else l

unfoldable pub lead_loop : Key → ℕ → Leader → List Video → Leader
lead_loop k low l [] = l
lead_loop k low l (v ∷ videos) = lead_loop k low (lead k low l v) videos

-- `slices.SortFunc` by length, the longest first.
unfoldable pub insert_longest : Video → List Video → List Video
insert_longest v [] = v ∷ []
insert_longest v (u ∷ us) =
    if leb u.file.length v.file.length then v ∷ u ∷ us else u ∷ insert_longest v us

unfoldable pub sort_longest : List Video → List Video
unfolding insert_longest
sort_longest [] = []
sort_longest (v ∷ vs) = insert_longest v (sort_longest vs)

-- Among the files of the best grade, one that is not a fraction of the longest stands in the way.
unfoldable pub settle : ℕ → Video → List Video → Option ℕ × Bool
settle low best [] = (some best.index, false)
settle low best (longest ∷ []) = (some longest.index, true)
settle low best (longest ∷ second ∷ rest) =
    if ltb second.file.length low || leb (second.file.length * 4) longest.file.length
    then (some longest.index, true)
    else (some best.index, false)

-- The index, none for -1, and whether it is the film.
unfoldable pub pick_among : Key → ℕ → Leader → Option ℕ × Bool
unfolding settle
pick_among k low l = elim l.best [
  | none ↦ (none, false)
  | some best ↦ settle low best (sort_longest (l.tied ++ best ∷ []))
]

unfoldable pub pick_videos : Key → List Video → Option ℕ × Bool
unfolding pick_among
pick_videos k [] = (none, false)
pick_videos k (v ∷ []) = (some v.index, not (is_other (match_name k (base_name v.file.name))))
pick_videos k (u ∷ v ∷ videos) =
    let all = u ∷ v ∷ videos in
    pick_among k (floor all)
      (lead_loop k (floor all) (record { best = none; grade = 0; tied = [] }) all)

unfoldable pub pick : Key → List File → Option ℕ × Bool
unfolding pick_videos
pick k files = pick_videos k (videos_from 0 files)
