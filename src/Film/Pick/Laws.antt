-- ===== src/Film/Pick/Laws.antt =====
-- internal/film/film.go: what file `Pick` can return.
use kuro.Base.{
  ℕ, zero, suc, ◌+◌, ◌*◌, ◌≡◌, refl, sym, ap, ◌∙◌, ◌⊎◌, inl, inr, Bool, true, false, not, ◌||◌,
  ◌&&◌, List, [], ◌∷◌, ◌++◌, All, All-map, All-append, Option, none, some, Bool-cases, Option-cases,
  length, leb, ltb, ◌==◌, arith,
}
use kuro.Video.{is_video, base_name}
use kuro.Film.Key.{Key, Verdict, ours, other, unknown, judge, match_name, is_ours, is_other}
use kuro.Film.Pick.{
  File, Video, Leader, videos_from, lead, lead_loop, insert_longest, sort_longest, settle,
  pick_among, pick_videos, pick, floor,
}

-- The file of an index.
abbrev pub file_at : ℕ → List File → Option File
file_at i [] = none
file_at zero (f ∷ files) = some f
file_at (suc i) (f ∷ files) = file_at i files

-- A video of the list whose indices count from i.
IsFrom : ℕ → List File → Video → Type 0
IsFrom i files v =
    (j : ℕ) × (v.index ≡ i + j) × (file_at j files ≡ some v.file) × (is_video v.file.name ≡ true)

videos_from-IsFrom : (i : ℕ) (files : List File) → All (IsFrom i files) (videos_from i files)
unfolding videos_from IsFrom
videos_from-IsFrom i [] = tt
videos_from-IsFrom i (f ∷ files) =
    let later : All (IsFrom i (f ∷ files)) (videos_from (suc i) files) =
      All-map (videos_from (suc i) files)
        (λ v (j, e, at', video). (suc j, omega (arith, e), at', video))
        (videos_from-IsFrom (suc i) files) in
    elim (Bool-cases (is_video f.name)) [
      | inl video ↦ rw video ((0, omega arith, refl, video), later)
      | inr text_file ↦ rw text_file later
    ]

module _ (k : Key) (P : Video → Type 0) where
  -- A video with the property that is judged the film's.
  abbrev Fits : Video → Type 0
  Fits v = P v × (is_ours (judge k (base_name v.file.name)).0 ≡ true)

  abbrev BestFits : Option Video → Type 0
  BestFits none = Unit
  BestFits (some v) = Fits v

  abbrev Leads : Leader → Type 0
  Leads l = BestFits l.best × All Fits l.tied

  lead-Leads : (low : ℕ) (l : Leader) (v : Video) → P v → Leads l → Leads (lead k low l v)
  unfolding lead
  lead-Leads low l v p h =
      let g = (judge k (base_name v.file.name)).1 in
      elim (Bool-cases
        (not (is_ours (judge k (base_name v.file.name)).0) || g == 1 && ltb v.file.length low)) [
          | inl passes ↦ rw passes h
          | inr counts ↦ rw counts (
              let fits : Fits v = (p, ground arith) in
              elim (Bool-cases (ltb l.grade g)) [
                | inl above ↦ rw above (fits, tt)
                | inr not_above ↦ rw not_above (elim (Bool-cases (g == l.grade)) [
                  | inl equal ↦ rw equal (h.0, All-append Fits l.tied (v ∷ []) h.1 (fits, tt))
                  | inr below ↦ rw below h
                ])
              ])
        ]

  lead_loop-Leads :
      (low : ℕ) (l : Leader) (videos : List Video)
      → All P videos
      → Leads l
      → Leads (lead_loop k low l videos)
  unfolding lead_loop
  lead_loop-Leads low l [] p h = h
  lead_loop-Leads low l (v ∷ videos) p h =
      lead_loop-Leads low (lead k low l v) videos p.1 (lead-Leads low l v p.0 h)

  insert_longest-Fits :
      (v : Video) (vs : List Video) → Fits v → All Fits vs → All Fits (insert_longest v vs)
  unfolding insert_longest
  insert_longest-Fits v [] f h = (f, tt)
  insert_longest-Fits v (u ∷ us) f h = elim (Bool-cases (leb u.file.length v.file.length)) [
    | inl longer ↦ rw longer (f, h)
    | inr shorter ↦ rw shorter (h.0, insert_longest-Fits v us f h.1)
  ]

  sort_longest-Fits : (vs : List Video) → All Fits vs → All Fits (sort_longest vs)
  unfolding sort_longest
  sort_longest-Fits [] h = tt
  sort_longest-Fits (v ∷ vs) h =
      insert_longest-Fits v (sort_longest vs) h.0 (sort_longest-Fits vs h.1)

  -- What a pick with a yes names.
  Names : Option ℕ × Bool → Type 0
  Names (i, false) = Unit
  Names (none, true) = ⊥
  Names (some i, true) = (v : Video) × (v.index ≡ i) × Fits v

  settle-Names :
      (low : ℕ) (best : Video) (vs : List Video) → All Fits vs → Names (settle low best vs)
  unfolding settle Names
  settle-Names low best [] h = tt
  settle-Names low best (u ∷ []) h = (u, refl, h.0)
  settle-Names low best (u ∷ v ∷ vs) h =
      elim (Bool-cases (ltb v.file.length low || leb (v.file.length * 4) u.file.length)) [
        | inl clear' ↦ rw clear' (u, refl, h.0)
        | inr close ↦ rw close tt
      ]

  pick_among-Names : (low : ℕ) (l : Leader) → Leads l → Names (pick_among k low l)
  unfolding pick_among Names
  pick_among-Names low l h = elim (Option-cases l.best) [
    | inl e ↦ rw e tt
    | inr (best, e) ↦ rw e (
        settle-Names low best (sort_longest (l.tied ++ best ∷ [])) (
          sort_longest-Fits (l.tied ++ best ∷ [])
            (All-append Fits l.tied (best ∷ []) h.1 (rw e at h.0, tt))))
  ]

  Names-of :
      (r : Option ℕ × Bool) (i : ℕ)
      → r ≡ (some i, true)
      → Names r
      → (v : Video) × (v.index ≡ i) × Fits v
  unfolding Names
  Names-of (j, false) i e n = cc
  Names-of (none, true) i e n = absurd n
  Names-of (some j, true) i e (v, same, fits) =
      (v, same ∙ ap (λ (x : Option ℕ × Bool). elim x.0 [ none ↦ j | some y ↦ y ]) e, fits)

ours_not_other : (v : Verdict) → is_ours v ≡ true → is_other v ≡ false
ours_not_other ours h = refl
ours_not_other unknown h = refl
ours_not_other other h = sym h

-- The only video, not judged another film's, or a video judged the film's.
abbrev Chosen : Key → List Video → Video → Type 0
Chosen k videos v =
    ((length videos ≡ 1) × (is_other (match_name k (base_name v.file.name)) ≡ false))
    ⊎ (is_ours (match_name k (base_name v.file.name)) ≡ true)

pick_videos-Chosen :
    (k : Key) (P : Video → Type 0) (videos : List Video) (i : ℕ)
    → All P videos
    → pick_videos k videos ≡ (some i, true)
    → (v : Video) × (v.index ≡ i) × P v × Chosen k videos v
unfolding pick_videos match_name
pick_videos-Chosen k P [] i p h = cc
pick_videos-Chosen k P (v ∷ []) i p h = (
  v,
  ap (λ (x : Option ℕ × Bool). elim x.0 [ none ↦ v.index | some y ↦ y ]) h,
  p.0,
  inl (refl, not_true _ (ap (λ x. x.1) h)),
)
  where
    not_true : (b : Bool) → not b ≡ true → b ≡ false
    not_true b h = ground arith
pick_videos-Chosen k P (u ∷ v ∷ videos) i p h =
    let all = u ∷ v ∷ videos in
    let start : Leader = record { best = none; grade = 0; tied = [] } in
    let (w, same, (q, fits)) = Names-of k P (pick_videos k all) i h (
      pick_among-Names k P (floor all) (lead_loop k (floor all) start all)
        (lead_loop-Leads k P (floor all) start all p (tt, tt))) in
    (w, same, q, inr fits)

-- If `Pick` says yes to an index, then this is a video of the list, and its name is judged the film's
-- or, where it is the only video, at least not another film's.
pub pick_sound :
    (k : Key) (files : List File) (i : ℕ)
    → pick k files ≡ (some i, true)
    → (f : File) × (file_at i files ≡ some f)
      × (is_video f.name ≡ true)
      × (((length (videos_from 0 files) ≡ 1) × (is_other (match_name k (base_name f.name)) ≡ false))
          ⊎ (is_ours (match_name k (base_name f.name)) ≡ true))
unfolding pick IsFrom
pick_sound k files i h =
    let (v, same, (j, index, at', video), chosen) =
      pick_videos-Chosen k (IsFrom 0 files) (videos_from 0 files) i (videos_from-IsFrom 0 files)
        h in
    let here : i ≡ j = omega (arith, same, index) in
    (v.file, ap (λ n. file_at n files) here ∙ at', video, chosen)
