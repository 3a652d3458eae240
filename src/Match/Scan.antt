-- ===== src/Match/Scan.antt =====
-- internal/match/match.go: the candidates of the index are those that a scan of all entries finds.
use mathlib.Core.List.{append-nil, append_assoc}
use mathlib.Core.Path.{subst, fun_ext}
use kuro.Base.{
  ℕ, zero, suc, ◌≡◌, refl, sym, ap, ◌∙◌, inl, inr, Bool, true, false, ◌&&◌, ◌||◌, List, [], ◌∷◌,
  ◌++◌, none, some, Text, text_eq, text_eq_iff, has, any, length, ◌==◌, Bool-cases, if◌then◌else◌,
  arith,
}
use kuro.Base.Maps.{lookup, lookup-put_same, lookup-put_other}
use kuro.Match.Index.{
  Index, new_index, posting, post, post_all, token_set, all_tokens, all_compounds, add_entry,
  add_entries, is_at, collect, candidates_from, candidates,
}

is_at-append : (p : ℕ) (xs ys : List ℕ) → is_at p (xs ++ ys) ≡ (is_at p xs || is_at p ys)
unfolding is_at
is_at-append p [] ys = refl
is_at-append p (x ∷ xs) ys = ground (arith, is_at-append p xs ys)

posting-post_same :
    (pos : ℕ) (tok : Text) (m : List (Text × List ℕ))
    → posting tok (post pos tok m) ≡ posting tok m ++ (pos ∷ [])
unfolding posting post
posting-post_same pos tok m =
    ap (λ o. elim o [ none ↦ [] | some at ↦ at ])
      (lookup-put_same tok (posting tok m ++ (pos ∷ [])) m)

posting-post_other :
    (pos : ℕ) (tok t : Text) (m : List (Text × List ℕ))
    → text_eq tok t ≡ false
    → posting t (post pos tok m) ≡ posting t m
unfolding posting post
posting-post_other pos tok t m e =
    ap (λ o. elim o [ none ↦ [] | some at ↦ at ])
      (lookup-put_other tok t (posting tok m ++ (pos ∷ [])) m e)

is_at-post :
    (p pos : ℕ) (tok t : Text) (m : List (Text × List ℕ))
    → is_at p (posting t (post pos tok m)) ≡ (is_at p (posting t m) || text_eq tok t && pos == p)
is_at-post p pos tok t m = elim (Bool-cases (text_eq tok t)) [
  | inl e ↦
      subst
        (λ s.
          is_at p (posting s (post pos tok m))
          ≡ (is_at p (posting s m) || text_eq tok t && pos == p))
        ((text_eq_iff tok t).0 e)
        (ap (is_at p) (posting-post_same pos tok m)
          ∙ is_at-append p (posting tok m) (pos ∷ [])
          ∙ rw e (unfold is_at in ground arith))
  | inr e ↦ ap (is_at p) (posting-post_other pos tok t m e) ∙ rw e (ground arith)
]

or_false : (b : Bool) → b ≡ (b || false)
or_false true = refl
or_false false = refl

or_and : (b a h p : Bool) → ((b || a && p) || h && p) ≡ (b || (a || h) && p)
or_and true a h p = refl
or_and false true true true = refl
or_and false true true false = refl
or_and false true false true = refl
or_and false true false false = refl
or_and false false h p = refl

or_assoc : (a b c : Bool) → ((a || b) || c) ≡ (a || (b || c))
or_assoc true b c = refl
or_assoc false b c = refl

is_at-post_all :
    (p pos : ℕ) (toks : List Text) (t : Text) (m : List (Text × List ℕ))
    → is_at p (posting t (post_all pos toks m)) ≡ (is_at p (posting t m) || has t toks && pos == p)
unfolding post_all has
is_at-post_all p pos [] t m = or_false (is_at p (posting t m))
is_at-post_all p pos (tok ∷ toks) t m =
    is_at-post_all p pos toks t (post pos tok m)
    ∙ ap (λ x. x || has t toks && pos == p) (is_at-post p pos tok t m)
    ∙ or_and (is_at p (posting t m)) (text_eq tok t) (has t toks) (pos == p)

if_or : (b c : Bool) → (if b then true else c) ≡ (b || c)
if_or true c = refl
if_or false c = refl

has_again :
    (t tok : Text) (toks : List Text) (b : Bool)
    → text_eq tok t ≡ b
    → has tok toks ≡ true
    → has t toks ≡ (b || has t toks)
has_again t tok toks true q h = subst (λ s. has s toks ≡ true) ((text_eq_iff tok t).0 q) h
has_again t tok toks false q h = refl

is_at_again :
    (p pos : ℕ) (out : List ℕ) (b : Bool)
    → (pos == p) ≡ b
    → is_at pos out ≡ true
    → is_at p out ≡ (is_at p out || b)
is_at_again p pos out true q e = subst (λ i. is_at i out ≡ (is_at i out || true)) same (rw e refl)
  where
    same : pos ≡ p
    same = ground arith
is_at_again p pos out false q e = or_false (is_at p out)

is_at_one_more :
    (p pos : ℕ) (out : List ℕ) (b : Bool)
    → is_at pos out ≡ b
    → is_at p (if b then out else out ++ (pos ∷ [])) ≡ (is_at p out || pos == p)
is_at_one_more p pos out true e = is_at_again p pos out (pos == p) refl e
is_at_one_more p pos out false e =
    is_at-append p out (pos ∷ [])
    ∙ ap (λ x. is_at p out || x)
        (unfold is_at in if_or (pos == p) false ∙ sym (or_false (pos == p)))

has-token_set : (t : Text) (toks : List Text) → has t (token_set toks) ≡ has t toks
unfolding token_set has
has-token_set t [] = refl
has-token_set t (tok ∷ toks) = elim (Bool-cases (has tok (token_set toks))) [
  | inl e ↦ rw e (
      has-token_set t toks
      ∙ has_again t tok toks (text_eq tok t) refl (sym (has-token_set tok toks) ∙ e))
  | inr e ↦ rw e (ap (λ x. text_eq tok t || x) (has-token_set t toks))
]

-- A word reaches an entry.
unfoldable pub reaches : Text → List (List Text) → Bool
unfolding has all_tokens all_compounds
reaches t keys = has t (all_tokens keys) || has t (all_compounds keys)

-- The keys at a position, none past the end.
unfoldable pub entry_at : ℕ → List (List (List Text)) → List (List Text)
entry_at p [] = []
entry_at zero (keys ∷ media) = keys
entry_at (suc p) (keys ∷ media) = entry_at p media

reaches_nothing : (t : Text) → reaches t [] ≡ false
unfolding reaches
reaches_nothing t = refl

entry_at-append :
    (p : ℕ) (t : Text) (media : List (List (List Text))) (keys : List (List Text))
    → reaches t (entry_at p (media ++ (keys ∷ [])))
      ≡ (reaches t (entry_at p media) || reaches t keys && length media == p)
unfolding entry_at
entry_at-append zero t [] keys = ground (arith, reaches_nothing t)
entry_at-append (suc p) t [] keys = ground (arith, reaches_nothing t)
entry_at-append zero t (m ∷ media) keys = ground arith
entry_at-append (suc p) t (m ∷ media) keys = ground (arith, entry_at-append p t media keys)

abbrev Indexed : Index → Type 0
Indexed ix = (p : ℕ) (t : Text) → is_at p (posting t ix.by_token) ≡ reaches t (entry_at p ix.media)

add_entry-Indexed :
    (keys : List (List Text)) (ix : Index) → Indexed ix → Indexed (add_entry keys ix)
unfolding add_entry reaches
add_entry-Indexed [] ix h p t = h p t
add_entry-Indexed (k ∷ keys) ix h p t =
    let pos : ℕ = length ix.media in
    is_at-post_all p pos (all_compounds (k ∷ keys)) t _
    ∙ ap (λ x. x || has t (all_compounds (k ∷ keys)) && pos == p)
        (is_at-post_all p pos (token_set (all_tokens (k ∷ keys))) t ix.by_token)
    ∙ or_and (is_at p (posting t ix.by_token)) (has t (token_set (all_tokens (k ∷ keys))))
        (has t (all_compounds (k ∷ keys))) (pos == p)
    ∙ ap
        (λ x.
          is_at p (posting t ix.by_token) || (x || has t (all_compounds (k ∷ keys))) && pos == p)
        (has-token_set t (all_tokens (k ∷ keys)))
    ∙ ap (λ x. x || reaches t (k ∷ keys) && pos == p) (h p t)
    ∙ sym (entry_at-append p t ix.media (k ∷ keys))

add_entries-Indexed :
    (entries : List (List (List Text))) (ix : Index) → Indexed ix → Indexed (add_entries entries ix)
unfolding add_entries
add_entries-Indexed [] ix h = h
add_entries-Indexed (keys ∷ entries) ix h =
    add_entries-Indexed entries (add_entry keys ix) (add_entry-Indexed keys ix h)

new_index-Indexed : Indexed new_index
unfolding new_index posting lookup is_at entry_at reaches
new_index-Indexed p t = refl

is_at-collect : (p : ℕ) (at out : List ℕ) → is_at p (collect at out) ≡ (is_at p out || is_at p at)
unfolding collect is_at
is_at-collect p [] out = or_false (is_at p out)
is_at-collect p (pos ∷ at) out =
    is_at-collect p at (if is_at pos out then out else out ++ (pos ∷ []))
    ∙ ap (λ x. x || is_at p at) (is_at_one_more p pos out (is_at pos out) refl)
    ∙ or_assoc (is_at p out) (pos == p) (is_at p at)
    ∙ ap (λ x. is_at p out || x) (sym (if_or (pos == p) (is_at p at)))

is_at-candidates_from :
    (p : ℕ) (ix : Index) (toks : List Text) (out : List ℕ)
    → is_at p (candidates_from ix toks out)
      ≡ (is_at p out || any (λ tok. is_at p (posting tok ix.by_token)) toks)
unfolding candidates_from
is_at-candidates_from p ix [] out = or_false (is_at p out)
is_at-candidates_from p ix (tok ∷ toks) out =
    is_at-candidates_from p ix toks (collect (posting tok ix.by_token) out)
    ∙ ap (λ x. x || any (λ tok. is_at p (posting tok ix.by_token)) toks)
        (is_at-collect p (posting tok ix.by_token) out)
    ∙ or_assoc (is_at p out) (is_at p (posting tok ix.by_token))
        (any (λ tok. is_at p (posting tok ix.by_token)) toks)
    ∙ ap (λ x. is_at p out || x)
        (sym (
          if_or (is_at p (posting tok ix.by_token))
            (any (λ tok. is_at p (posting tok ix.by_token)) toks)))

any_ext :
    (f g : Text → Bool) (toks : List Text) → ((t : Text) → f t ≡ g t) → any f toks ≡ any g toks
any_ext f g toks h = ap (λ x. any x toks) (fun_ext h)

-- The shows that have a key.
abbrev pub added : List (List (List Text)) → List (List (List Text))
added [] = []
added ([] ∷ entries) = added entries
added ((k ∷ keys) ∷ entries) = (k ∷ keys) ∷ added entries

add_entries-added :
    (entries : List (List (List Text))) (ix : Index)
    → (add_entries entries ix).media ≡ ix.media ++ added entries
unfolding add_entries add_entry
add_entries-added [] ix = sym (append-nil ix.media)
add_entries-added ([] ∷ entries) ix = add_entries-added entries ix
add_entries-added ((k ∷ keys) ∷ entries) ix =
    add_entries-added entries (add_entry (k ∷ keys) ix)
    ∙ append_assoc ix.media ((k ∷ keys) ∷ []) (added entries)

-- The candidates of a query, from an index that shows were added to, are the positions, among the shows with
-- a key, of those that a scan finds: those with a word of the query among the words of their keys, or
-- as two short words of a key that follow one another.
pub candidates-scan :
    (entries : List (List (List Text))) (toks : List Text) (p : ℕ)
    → is_at p (candidates (add_entries entries new_index) toks)
      ≡ any (λ t. reaches t (entry_at p (added entries))) toks
unfolding candidates
candidates-scan entries toks p =
    let ix : Index = add_entries entries new_index in
    is_at-candidates_from p ix toks []
    ∙ any_ext (λ t. is_at p (posting t ix.by_token)) (λ t. reaches t (entry_at p ix.media)) toks
        (λ t. add_entries-Indexed entries new_index new_index-Indexed p t)
    ∙ ap (λ m. any (λ t. reaches t (entry_at p m)) toks)
        (unfold new_index in add_entries-added entries new_index)
