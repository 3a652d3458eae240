-- ===== src/Match/Index.antt =====
-- internal/match/match.go: the token index that a query's candidates come from. A key is the list of its
-- significant words, and words are in ASCII, so that the length of a word is its number of bytes.
use kuro.Base.{
  ℕ, Bool, ◌&&◌, List, [], ◌∷◌, ◌++◌, none, some, Text, has, any, length, leb, ◌==◌, if◌then◌else◌,
}
use kuro.Base.Maps.{lookup, put}

-- `byID`, which finds the position of a show, is left out.
pub record Index : Type 0 where
  pub media : List (List (List Text))
  pub by_token : List (Text × List ℕ)

unfoldable pub new_index : Index
new_index = record { media = []; by_token = [] }

-- `ix.byToken[tok]`, where a token that is not there has no positions.
unfoldable pub posting : Text → List (Text × List ℕ) → List ℕ
unfolding lookup
posting tok m = elim (lookup tok m) [ none ↦ [] | some at ↦ at ]

-- `ix.byToken[tok] = append(ix.byToken[tok], pos)`
unfoldable pub post : ℕ → Text → List (Text × List ℕ) → List (Text × List ℕ)
unfolding posting put
post pos tok m = put tok (posting tok m ++ (pos ∷ [])) m

unfoldable pub post_all : ℕ → List Text → List (Text × List ℕ) → List (Text × List ℕ)
unfolding post
post_all pos [] m = m
post_all pos (tok ∷ toks) m = post_all pos toks (post pos tok m)

-- `entry.tokens`: each word of the keys once.
unfoldable pub token_set : List Text → List Text
unfolding has
token_set [] = []
token_set (tok ∷ toks) = let rest = token_set toks in if has tok rest then rest else tok ∷ rest

unfoldable pub all_tokens : List (List Text) → List Text
all_tokens [] = []
all_tokens (k ∷ keys) = k ++ all_tokens keys

-- Two words that follow one another, both of at most five letters, as one.
unfoldable pub compounds : List Text → List Text
compounds [] = []
compounds (a ∷ []) = []
compounds (a ∷ b ∷ k) =
    let rest = compounds (b ∷ k) in
    if leb (length a) 5 && leb (length b) 5 then (a ++ b) ∷ rest else rest

unfoldable pub all_compounds : List (List Text) → List Text
unfolding compounds
all_compounds [] = []
all_compounds (k ∷ keys) = compounds k ++ all_compounds keys

-- `Add`, of the keys of a show.
unfoldable pub add_entry : List (List Text) → Index → Index
unfolding post_all token_set all_tokens all_compounds
add_entry [] ix = ix
add_entry (k ∷ keys) ix =
    let pos : ℕ = length ix.media in
    record ix {
      media = ix.media ++ ((k ∷ keys) ∷ []);
      by_token =
          post_all pos (all_compounds (k ∷ keys))
            (post_all pos (token_set (all_tokens (k ∷ keys))) ix.by_token);
    }

unfoldable pub add_entries : List (List (List Text)) → Index → Index
unfolding add_entry
add_entries [] ix = ix
add_entries (keys ∷ entries) ix = add_entries entries (add_entry keys ix)

unfoldable pub is_at : ℕ → List ℕ → Bool
is_at p at = any (λ q. q == p) at

-- The inner loop; `seen` and `out` hold the same positions.
unfoldable pub collect : List ℕ → List ℕ → List ℕ
unfolding is_at
collect [] out = out
collect (pos ∷ at) out = collect at (if is_at pos out then out else out ++ (pos ∷ []))

unfoldable pub candidates_from : Index → List Text → List ℕ → List ℕ
unfolding collect posting
candidates_from ix [] out = out
candidates_from ix (tok ∷ toks) out =
    candidates_from ix toks (collect (posting tok ix.by_token) out)

-- `candidates`
unfoldable pub candidates : Index → List Text → List ℕ
unfolding candidates_from
candidates ix toks = candidates_from ix toks []
