-- ===== src/Engine/Census.antt =====
-- internal/engine/census.go: which peers of a download came and went since the last line of the log.
-- Times are nanoseconds; an address is its text, and texts are ordered by code points.
pub mod Balance
use kuro.Base.{
  ℕ, ◌+◌, ◌-◌, ◌*◌, ◌^◌, Bool, true, false, not, ◌||◌, ◌&&◌, List, [], ◌∷◌, ◌++◌, Text, has, keep,
  length, ltb, ◌==◌, if◌then◌else◌,
}

-- The keys of a set are a list in which each stands once.
pub record Headcount : Type 0 where
  pub peers : List Text
  pub joined : List Text
  pub left : List Text
  pub logged_at : ℕ

abbrev pub census_every : ℕ
census_every = 30 * 10 ^ 9

abbrev pub census_named : ℕ
census_named = 4

unfoldable pub set_of : List Text → List Text
set_of [] = []
set_of (a ∷ addrs) = let rest = set_of addrs in if has a rest then rest else a ∷ rest

before : Text → Text → Bool
before [] t = true
before (a ∷ s) [] = false
before (a ∷ s) (b ∷ t) = ltb a b || a == b && before s t

insert_text : Text → List Text → List Text
unfolding before
insert_text s [] = s ∷ []
insert_text s (t ∷ ts) = if before s t then s ∷ t ∷ ts else t ∷ insert_text s ts

-- `sort.Strings`
unfoldable pub sort_texts : List Text → List Text
unfolding insert_text
sort_texts [] = []
sort_texts (s ∷ ts) = insert_text s (sort_texts ts)

-- The first part of `note`: who joined and left since the last look.
unfoldable pub look : List Text → Headcount → Headcount
unfolding set_of
look current h = record h {
  peers = set_of current;
  joined = h.joined ++ keep (λ a. not (has a h.peers)) current;
  left = h.left ++ keep (λ a. not (has a current)) h.peers;
}

pub record Line : Type 0 where
  pub came : List Text
  pub went : List Text
  pub due : Bool

report : ℕ → Headcount → Headcount × Line
report now h =
    if length h.joined + length h.left == 0 || ltb (now - h.logged_at) census_every
    then (h, record { came = []; went = []; due = false })
    else (
      record h { joined = []; left = []; logged_at = now },
      record { came = sort_texts h.joined; went = sort_texts h.left; due = true },
    )

unfoldable pub note : ℕ → List Text → Headcount → Headcount × Line
unfolding report look
note now current h = report now (look current h)

first_n : ℕ → List Text → List Text
first_n n [] = []
first_n n (a ∷ addrs) = if ltb 0 n then a ∷ first_n (n - 1) addrs else []

unfoldable pub first_few : List Text → List Text
unfolding first_n
first_few addrs = if ltb census_named (length addrs) then first_n census_named addrs else addrs
