-- ===== src/Film/Key/Verdicts.antt =====
-- internal/film/film.go: what `judge` and `Named` say of a name, for a key that `New` made.
use mathlib.Core.Bool.{Bool-set, true≢false}
use mathlib.Core.List.{mem-cons, not-mem-nil}
use mathlib.Core.Logic.Or
use mathlib.Core.HLevel.{×_prop}
use native.Mathlib.Bridge.{le_prop}
use kuro.Base.{
  ◌+◌, ◌<◌, ◌≡◌, sym, ◌∙◌, inl, inr, Bool, true, false, not, ◌&&◌, List, [], ◌∷◌, Mem, All, All-mem,
  Text, Bool-cases, length, keep, leb, ltb, if◌then◌else◌, map, arith,
}
use kuro.Film.Words.{tokens, distinctive}
use kuro.Film.Number.{number}
use kuro.Film.Key.{
  Entry, Key, Evidence, other, no_evidence, beats, fit, theirs_loop, decide, judge, named, new_key,
  sets, common, is_ours, agrees, disagrees,
}
use kuro.Film.Key.Fit.{IsSized, HaveWords, beats_between, beats_irrefl, beats_asymm, fit-IsSized}

sets-HaveWords : (all : List Entry) (titles : Entry) → HaveWords (sets all titles)
unfolding sets
sets-HaveWords all [] = tt
sets-HaveWords all (t ∷ titles) =
    elim (Bool-cases (ltb 0 (length (keep (λ w. not (common all w)) (distinctive t))))) [
      | inl some_left ↦ rw some_left (ground arith, sets-HaveWords all titles)
      | inr none_left ↦ rw none_left (sets-HaveWords all titles)
    ]

HaveWords-prop : (titles : List (List Text)) → IsProp (HaveWords titles)
HaveWords-prop [] = hlevel
HaveWords-prop (t ∷ titles) = ×_prop le_prop (HaveWords-prop titles)

others-HaveWords : (all siblings : List Entry) → All HaveWords (map (sets all) siblings)
others-HaveWords all [] = tt
others-HaveWords all (s ∷ siblings) = (sets-HaveWords all s, others-HaveWords all siblings)

module _ (words : List Text) where
  theirs-IsSized :
      (e : Evidence) (others : List (List (List Text)))
      → IsSized e
      → All HaveWords others
      → IsSized (theirs_loop words e others)
  unfolding theirs_loop
  theirs-IsSized e [] s h = s
  theirs-IsSized e (o ∷ others) s h = elim (Bool-cases (beats (fit o words) e)) [
    | inl better ↦
        rw (better, theirs_loop) (theirs-IsSized (fit o words) others (fit-IsSized words o h.0) h.1)
    | inr worse ↦ rw (worse, theirs_loop) (theirs-IsSized e others s h.1)
  ]

  theirs-first :
      (e : Evidence) (others : List (List (List Text)))
      → IsSized e
      → All HaveWords others
      → beats e (theirs_loop words e others) ≡ false
  unfolding theirs_loop
  theirs-first e [] s h = beats_irrefl e
  theirs-first e (o ∷ others) s h = elim (Bool-cases (beats (fit o words) e)) [
    | inl better ↦
        let so = fit-IsSized words o h.0 in
        rw (better, theirs_loop)
          (beats_between e (fit o words) (theirs_loop words (fit o words) others) s so
            (theirs-IsSized (fit o words) others so h.1) (beats_asymm (fit o words) e better)
            (theirs-first (fit o words) others so h.1))
    | inr worse ↦ rw (worse, theirs_loop) (theirs-first e others s h.1)
  ]

  theirs-other :
      (e : Evidence) (others : List (List (List Text))) (o : List (List Text))
      → IsSized e
      → All HaveWords others
      → Mem o others
      → beats (fit o words) (theirs_loop words e others) ≡ false
  unfolding theirs_loop
  theirs-other e [] o s h m = absurd (not-mem-nil m)
  theirs-other e (p ∷ others) o s h m =
      let sp = fit-IsSized words p h.0 in
      elim (Bool-cases (beats (fit p words) e)) [
        | inl better ↦
            rw (better, theirs_loop)
              (Or.elim (Bool-set _ _) (mem-cons.0 m)
                (λ eq. rw eq (theirs-first (fit p words) others sp h.1))
                (λ tail. theirs-other (fit p words) others o sp h.1 tail))
        | inr worse ↦
            rw (worse, theirs_loop)
              (Or.elim (Bool-set _ _) (mem-cons.0 m)
                (λ eq. rw eq (
                  beats_between (fit p words) e (theirs_loop words e others) sp s
                    (theirs-IsSized e others s h.1) worse (theirs-first e others s h.1)))
                (λ tail. theirs-other e others o s h.1 tail))
      ]

decide_other :
    (mine theirs : Evidence) (f a d : Bool)
    → beats theirs mine ≡ true
    → decide mine theirs f a d ≡ (other, 0)
unfolding decide
decide_other mine theirs f a d h = let never = beats_asymm theirs mine h in ground arith

decide_ours :
    (mine theirs : Evidence) (f a d : Bool)
    → is_ours (decide mine theirs f a d).0 ≡ true
    → leb 2 (decide mine theirs f a d).1 ≡ true
    → (0 < mine.hits) × (beats theirs mine ≡ false)
unfolding decide
decide_ours mine theirs f a d h k = (ground arith, ground (arith, beats_asymm mine theirs))

decide_grade :
    (mine theirs : Evidence) (f a d : Bool)
    → (decide mine theirs f a d).1 ≡ (
        if is_ours (decide mine theirs f a d).0
        then (if ltb 0 mine.hits then 2 else 0) + (if a then 1 else 0)
        else 0)
unfolding decide
decide_grade mine theirs f a d = ground arith

both_of : {a b : Bool} → (a && b) ≡ true → (a ≡ true) × (b ≡ true)
both_of h = (ground arith, ground arith)

module _ (own : Entry) (siblings : List Entry) (name : Text) where
  abbrev key : Key
  key = new_key own siblings

  own-IsSized : IsSized (fit (new_key own siblings).own (tokens name))
  unfolding new_key
  own-IsSized = fit-IsSized (tokens name) (sets (own ∷ siblings) own) (sets-HaveWords _ own)

  -- What the other films' titles amount to.
  abbrev theirs : Evidence
  theirs = theirs_loop (tokens name) no_evidence (new_key own siblings).others

  siblings-HaveWords : All HaveWords (new_key own siblings).others
  unfolding new_key
  siblings-HaveWords = others-HaveWords (own ∷ siblings) siblings

  sibling-theirs :
      (o : List (List Text))
      → Mem o (new_key own siblings).others
      → beats (fit o (tokens name)) theirs ≡ false
  sibling-theirs o m =
      theirs-other (tokens name) no_evidence (new_key own siblings).others o (omega arith)
        siblings-HaveWords m

  theirs-Sized : IsSized theirs
  theirs-Sized =
      theirs-IsSized (tokens name) no_evidence (new_key own siblings).others (omega arith)
        siblings-HaveWords

  sibling-Sized :
      (o : List (List Text)) → Mem o (new_key own siblings).others → IsSized (fit o (tokens name))
  sibling-Sized o m =
      fit-IsSized (tokens name) o
        (All-mem (new_key own siblings).others (λ x. HaveWords-prop x) siblings-HaveWords m)

  -- A name that fits another film of the series better than this one is judged the other's, whatever
  -- number it has.
  pub judge_other :
      (o : List (List Text))
      → Mem o (new_key own siblings).others
      → beats (fit o (tokens name)) (fit (new_key own siblings).own (tokens name)) ≡ true
      → judge (new_key own siblings) name ≡ (other, 0)
  unfolding judge
  judge_other o m h =
      elim (Bool-cases (beats theirs (fit (new_key own siblings).own (tokens name)))) [
        | inl better ↦
            decide_other (fit key.own (tokens name)) theirs (number name).1
              (agrees key (number name).0) (disagrees key (number name).0) better
        | inr worse ↦ absurd (
            true≢false (
              sym h
              ∙ beats_between (fit o (tokens name)) theirs
                  (fit (new_key own siblings).own (tokens name)) (sibling-Sized o m) theirs-Sized
                  own-IsSized (sibling-theirs o m) worse))
      ]

  -- A name is confirmed as the film only if it has words of one of the film's titles and no other
  -- film of the series fits it better.
  pub named-fit :
      named (new_key own siblings) name ≡ true
      → (0 < (fit (new_key own siblings).own (tokens name)).hits)
        × ((o : List (List Text))
            → Mem o (new_key own siblings).others
            → beats (fit o (tokens name)) (fit (new_key own siblings).own (tokens name)) ≡ false)
  unfolding named judge
  named-fit h =
      let (some_hits, not_worse) =
        decide_ours (fit key.own (tokens name)) theirs (number name).1 (agrees key (number name).0)
          (disagrees key (number name).0) (both_of h).0 (both_of h).1 in
      (
        some_hits,
        λ o m.
            beats_between (fit o (tokens name)) theirs
              (fit (new_key own siblings).own (tokens name)) (sibling-Sized o m) theirs-Sized
              own-IsSized (sibling-theirs o m) not_worse,
      )

-- The grade is 0 for a name that is not judged the film's; otherwise it is 2 if the name has words of
-- one of the film's titles, plus 1 if its number agrees.
pub judge-grade :
    (k : Key) (name : Text)
    → let words_found = ltb 0 (fit k.own (tokens name)).hits in
      (judge k name).1 ≡ (
        if is_ours (judge k name).0
        then (if words_found then 2 else 0) + (if agrees k (number name).0 then 1 else 0)
        else 0)
unfolding judge
judge-grade k name =
    decide_grade (fit k.own (tokens name)) (theirs_loop (tokens name) no_evidence k.others)
      (number name).1 (agrees k (number name).0) (disagrees k (number name).0)
