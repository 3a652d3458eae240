-- ===== src/Film/Key/Fit.antt =====
-- internal/film/film.go, `beats` and `fit`: the order of evidence, and the best of a film's titles.
use native.Mathlib.Nat.{mul_right_comm, mul-le-mul_right, le_of_mul-le-mul_right}
use mathlib.Core.Bool.{Bool-set}
use mathlib.Core.List.{mem-cons, not-mem-nil}
use mathlib.Core.Logic.Or
use kuro.Base.{
  All, ℕ, ◌*◌, ◌≤◌, ◌<◌, ◌≡◌, refl, sym, ap, ◌∙◌, ◌⊎◌, inl, inr, true, false, ◌&&◌, List, [], ◌∷◌,
  Mem, Text, Bool-cases, length, if◌then◌else◌, arith,
}
use kuro.Film.Key.{Evidence, no_evidence, beats, evidence_of, qualifies, fit_loop, fit}

cross : (a b c at bt ct : ℕ) → 0 < bt → a * bt ≤ b * at → b * ct ≤ c * bt → a * ct ≤ c * at
cross a b c at bt ct p h k =
    let first : a * bt * ct ≤ b * at * ct = mul-le-mul_right ct h in
    let second : b * ct * at ≤ c * bt * at = mul-le-mul_right at k in
    let both : a * ct * bt ≤ c * at * bt = omega (
      arith,
      first,
      second,
      mul_right_comm a bt ct,
      mul_right_comm b at ct,
      mul_right_comm c bt at,
    ) in
    le_of_mul-le-mul_right both p

-- The totals are of titles with words.
abbrev pub IsSized : Evidence → Type 0
IsSized e = 0 < e.total

-- What separates no evidence from its better and no worse one from its worse.
below :
    (e o : Evidence)
    → beats e o ≡ false
    → (e.hits * o.total ≤ o.hits * e.total)
      × (e.hits * o.total ≡ o.hits * e.total → e.hits ≤ o.hits)
unfolding beats
below e o h = (ground arith, λ q. ground arith)

not_beats :
    (e o : Evidence)
    → e.hits * o.total ≤ o.hits * e.total
    → (e.hits * o.total ≡ o.hits * e.total → e.hits ≤ o.hits)
    → beats e o ≡ false
unfolding beats
not_beats e o h k = ground arith

-- What is no better than something no better is no better.
pub beats_between :
    (a b c : Evidence)
    → IsSized a
    → IsSized b
    → IsSized c
    → beats a b ≡ false
    → beats b c ≡ false
    → beats a c ≡ false
beats_between a b c sa sb sc h k =
    let (ab, tie_ab) = below a b h in
    let (bc, tie_bc) = below b c k in
    not_beats a c (cross a.hits b.hits c.hits a.total b.total c.total sb ab bc) λ tie.
      let back : b.hits * a.total ≤ a.hits * b.total =
        cross b.hits c.hits a.hits b.total c.total a.total sc bc (omega arith) in
      let back' : c.hits * b.total ≤ b.hits * c.total =
        cross c.hits a.hits b.hits c.total a.total b.total sa (omega arith) ab in
      omega (arith, tie_ab (omega arith), tie_bc (omega arith))

pub beats_irrefl : (e : Evidence) → beats e e ≡ false
unfolding beats
beats_irrefl e = ground arith

pub beats_asymm : (e o : Evidence) → beats e o ≡ true → beats o e ≡ false
unfolding beats
beats_asymm e o h = ground arith

-- Every title has words.
abbrev pub HaveWords : List (List Text) → Type 0
HaveWords = All (λ (t : List Text). 0 < length t)

module _ (words : List Text) where
  -- One round of the loop.
  abbrev next : Evidence → List Text → Evidence
  next best t = let e = evidence_of words t in if qualifies e && beats e best then e else best

  next-IsSized :
      (best : Evidence) (t : List Text) → IsSized best → 0 < length t → IsSized (next best t)
  next-IsSized best t s h =
      elim (Bool-cases (qualifies (evidence_of words t) && beats (evidence_of words t) best)) [
        | inl e ↦ rw e h
        | inr e ↦ rw e s
      ]

  next-best : (best : Evidence) (t : List Text) → beats best (next best t) ≡ false
  next-best best t =
      elim (Bool-cases (qualifies (evidence_of words t) && beats (evidence_of words t) best)) [
        | inl e ↦ rw e (beats_asymm (evidence_of words t) best (ground arith))
        | inr e ↦ rw e (beats_irrefl best)
      ]

  next-title :
      (best : Evidence) (t : List Text)
      → qualifies (evidence_of words t) ≡ true
      → beats (evidence_of words t) (next best t) ≡ false
  next-title best t q = elim (Bool-cases (beats (evidence_of words t) best)) [
    | inl e ↦ rw (q, e) (beats_irrefl (evidence_of words t))
    | inr e ↦ rw (q, e) e
  ]

  loop-IsSized :
      (best : Evidence) (titles : List (List Text))
      → IsSized best
      → HaveWords titles
      → IsSized (fit_loop words best titles)
  unfolding fit_loop
  loop-IsSized best [] s h = s
  loop-IsSized best (t ∷ titles) s h =
      loop-IsSized (next best t) titles (next-IsSized best t s h.0) h.1

  loop-best :
      (best : Evidence) (titles : List (List Text))
      → IsSized best
      → HaveWords titles
      → beats best (fit_loop words best titles) ≡ false
  unfolding fit_loop
  loop-best best [] s h = beats_irrefl best
  loop-best best (t ∷ titles) s h =
      let s' = next-IsSized best t s h.0 in
      beats_between best (next best t) (fit_loop words (next best t) titles) s s'
        (loop-IsSized (next best t) titles s' h.1) (next-best best t)
        (loop-best (next best t) titles s' h.1)

  loop-title :
      (best : Evidence) (titles : List (List Text)) (t : List Text)
      → IsSized best
      → HaveWords titles
      → Mem t titles
      → qualifies (evidence_of words t) ≡ true
      → beats (evidence_of words t) (fit_loop words best titles) ≡ false
  unfolding fit_loop
  loop-title best [] t s h m q = absurd (not-mem-nil m)
  loop-title best (u ∷ titles) t s h m q =
      let s' = next-IsSized best u s h.0 in
      Or.elim (Bool-set _ _) (mem-cons.0 m)
        (λ e. rw e (
          beats_between (evidence_of words u) (next best u) (fit_loop words (next best u) titles)
            h.0 s' (loop-IsSized (next best u) titles s' h.1)
            (next-title best u (ap (λ x. qualifies (evidence_of words x)) (sym e) ∙ q))
            (loop-best (next best u) titles s' h.1)))
        (λ tail. loop-title (next best u) titles t s' h.1 tail q)

  -- The best so far, or a title that qualifies.
  Found : Evidence → List (List Text) → Evidence → Type 0
  Found best titles e =
      (e ≡ best)
      ⊎ ((t : List Text) × Mem t titles × (e ≡ evidence_of words t) × (qualifies e ≡ true))

  loop-Found :
      (best : Evidence) (titles : List (List Text)) → Found best titles (fit_loop words best titles)
  unfolding fit_loop Found
  loop-Found best [] = inl refl
  loop-Found best (t ∷ titles) = elim (loop-Found (next best t) titles) [
    | inr (u, m, e, q) ↦ inr (u, mem-cons.1 (Or.inr m), e, q)
    | inl e ↦
        elim (Bool-cases (qualifies (evidence_of words t) && beats (evidence_of words t) best)) [
          | inr old ↦ inl (e ∙ rw old refl)
          | inl new' ↦
              let same : fit_loop words (next best t) titles ≡ evidence_of words t =
                e ∙ rw new' refl in
              inr (t, mem-cons.1 (Or.inl refl), same, ap qualifies same ∙ ground arith)
        ]
  ]

  -- Of a film's titles with words, `fit` returns that of a title that has at least one and at least half
  -- of its words in the name, or no evidence; and no title with so many of its words beats it.
  pub fit_best :
      (titles : List (List Text))
      → HaveWords titles
      → ((fit titles words ≡ no_evidence)
          ⊎ ((t : List Text) × Mem t titles
              × (fit titles words ≡ evidence_of words t)
              × (qualifies (fit titles words) ≡ true)))
        × ((t : List Text)
            → Mem t titles
            → qualifies (evidence_of words t) ≡ true
            → beats (evidence_of words t) (fit titles words) ≡ false)
  unfolding fit Found
  fit_best titles h =
      (loop-Found no_evidence titles, λ t m q. loop-title no_evidence titles t (omega arith) h m q)

  pub fit-IsSized : (titles : List (List Text)) → HaveWords titles → IsSized (fit titles words)
  unfolding fit
  fit-IsSized titles h = loop-IsSized no_evidence titles (omega arith) h
