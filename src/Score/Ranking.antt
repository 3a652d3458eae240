-- ===== src/Score/Ranking.antt =====
-- What `Rank` and `Best` promise.
use mathlib.Core.Bool.{Bool-set, true≢false}
use mathlib.Core.List.Perm
use mathlib.Core.List.Pairwise
use mathlib.Core.List.{mem-cons, mem-cons_self, not-mem-nil, rel_of_Pairwise-cons}
use mathlib.Core.Logic.Or
use kuro.Base.{
  ◌≡◌, refl, sym, ap, ◌∙◌, inl, inr, ◌↔◌, Bool, true, false, List, [], ◌∷◌, Mem, Perm, Option-cases,
  none, some, All, All-mem, Bool-cases, arith,
}
use kuro.Score.Float.{Float}
use kuro.Score.Tier.{Preferences}
use kuro.Score.Candidate.{Candidate}
use kuro.Score.Evaluate.Laws.{evaluate-candidate}
use kuro.Score.Evaluate.{Result}
use kuro.Score.Rank.{is_some, better, rank, first_auto, best, evaluate_all}
use kuro.Score.Order.{OfKind, key_chain, key_chain-IsWeakOrder, better-key_chain}
use kuro.Score.Sort.{better_self, IsRanked, sort-perm, sort-IsRanked, sort-congr, sort-ordered}

module _ (fl : Float) where
  -- `Rank` loses no candidate and invents none.
  pub rank-perm :
      (cands : List Candidate) (prefs : Preferences)
      → Perm (rank fl cands prefs) (evaluate_all fl cands prefs)
  unfolding rank
  rank-perm cands prefs = sort-perm (better fl) (evaluate_all fl cands prefs)

  -- Ties keep the order of the indexer: where no candidate is better than an earlier one, the ranking
  -- is the list as it came.
  pub rank_ordered :
      (cands : List Candidate) (prefs : Preferences)
      → IsRanked (better fl) (evaluate_all fl cands prefs)
      → rank fl cands prefs ≡ evaluate_all fl cands prefs
  unfolding rank
  rank_ordered cands prefs = sort-ordered (better fl) (evaluate_all fl cands prefs)

module _ (fl : Float) (film : Bool) (cands : List Candidate) (prefs : Preferences)
    (kinds : All (λ (c : Candidate). is_some c.film ≡ film) cands) where
  evaluate_all-OfKind :
      (cs : List Candidate)
      → All (λ (c : Candidate). is_some c.film ≡ film) cs
      → All (OfKind fl film) (evaluate_all fl cs prefs)
  evaluate_all-OfKind [] h = tt
  evaluate_all-OfKind (c ∷ cs) h = (
    ap (λ (d : Candidate). is_some d.film) (evaluate-candidate fl c prefs) ∙ h.0,
    evaluate_all-OfKind cs h.1,
  )

  -- The elements of the ranking are all of one kind.
  rank-OfKind : {r : Result fl} → Mem r (rank fl cands prefs) → OfKind fl film r
  rank-OfKind m =
      All-mem (evaluate_all fl cands prefs) (λ r. Bool-set _ _) (evaluate_all-OfKind cands kinds)
        ((Perm.mem_iff (rank-perm fl cands prefs)).0 m)

  -- Where all candidates are for a film or none is: in the ranking no result is better than one that
  -- stands before it.
  pub rank-IsRanked : IsRanked (better fl) (rank fl cands prefs)
  unfolding rank
  rank-IsRanked =
      Pairwise.imp_of_mem
        (λ a b ma mb e. better-key_chain fl film b a (rank-OfKind mb) (rank-OfKind ma) ∙ e)
        (rw
          (sort-congr (OfKind fl film) (better fl) (key_chain fl film) (better-key_chain fl film)
            (evaluate_all fl cands prefs) (evaluate_all-OfKind cands kinds))
          (sort-IsRanked (key_chain fl film) (key_chain-IsWeakOrder fl film)
            (evaluate_all fl cands prefs)))

  -- What stands first in a ranking: nothing is better.
  head-best :
      (r : Result fl) (rest : List (Result fl))
      → IsRanked (better fl) (r ∷ rest)
      → OfKind fl film r
      → (q : Result fl) → Mem q (r ∷ rest)
      → better fl q r ≡ false
  head-best r rest s k q m =
      Or.elim (Bool-set _ _) (mem-cons.0 m)
        (λ e. rw e (
          better-key_chain fl film r r k k
          ∙ better_self (key_chain fl film) (key_chain-IsWeakOrder fl film) r))
        (λ tail. rel_of_Pairwise-cons s tail)

  -- The head of the ranking is one of the results, and none is preferred to it.
  lead :
      (r : Result fl) (rest : List (Result fl))
      → rank fl cands prefs ≡ r ∷ rest
      → Mem r (evaluate_all fl cands prefs)
        × ((q : Result fl) → Mem q (evaluate_all fl cands prefs) → better fl q r ≡ false)
  lead r rest e =
      let first : Mem r (rank fl cands prefs) = rw e mem-cons_self in
      (
        (Perm.mem_iff (rank-perm fl cands prefs)).0 first,
        λ q m.
            head-best r rest (rw e at rank-IsRanked) (rank-OfKind first) q
              (rw e at ((Perm.mem_iff (rank-perm fl cands prefs)).1 m)),
      )

  not_preferred :
      (q r : Result fl) → r.auto_pick ≡ false → better fl q r ≡ false → q.auto_pick ≡ false
  unfolding better
  not_preferred q r h e = elim (Bool-cases q.auto_pick) [
    | inl yes' ↦ absurd (true≢false (rw (yes', h) at e))
    | inr no' ↦ no'
  ]

  from_first :
      (ranked : List (Result fl))
      → rank fl cands prefs ≡ ranked
      → (r : Result fl) → first_auto fl ranked ≡ some r
      → (r.auto_pick ≡ true)
        × Mem r (evaluate_all fl cands prefs)
        × ((q : Result fl) → Mem q (evaluate_all fl cands prefs) → better fl q r ≡ false)
  unfolding first_auto
  from_first [] e r h = cc
  from_first (x ∷ rest) e r h =
      let (here, picked) : (x ≡ r) × (x.auto_pick ≡ true) = ground arith in
      let (member, above) = lead r rest (e ∙ ap (λ y. y ∷ rest) here) in
      (sym (ap (λ (y : Result fl). y.auto_pick) here) ∙ picked, member, above)

  -- Where all candidates are for a film or none is: `Best` returns an automatic pick among the results
  -- to which no result is preferred.
  pub best-eq_some :
      (r : Result fl)
      → best fl cands prefs ≡ some r
      → (r.auto_pick ≡ true)
        × Mem r (evaluate_all fl cands prefs)
        × ((q : Result fl) → Mem q (evaluate_all fl cands prefs) → better fl q r ≡ false)
  unfolding best
  best-eq_some r h = from_first (rank fl cands prefs) refl r h

  from_none :
      (ranked : List (Result fl))
      → rank fl cands prefs ≡ ranked
      → first_auto fl ranked ≡ none
      → (q : Result fl) → Mem q (evaluate_all fl cands prefs)
      → q.auto_pick ≡ false
  unfolding first_auto
  from_none [] e h q m =
      absurd (not-mem-nil (rw e at ((Perm.mem_iff (rank-perm fl cands prefs)).1 m)))
  from_none (x ∷ rest) e h q m = not_preferred q x (ground arith) ((lead x rest e).1 q m)

  -- Where all candidates are for a film or none is: `Best` leaves the choice to the user exactly when
  -- no result is an automatic pick.
  pub best-eq_none :
      (best fl cands prefs ≡ none)
      ↔ ((q : Result fl) → Mem q (evaluate_all fl cands prefs) → q.auto_pick ≡ false)
  unfolding best
  best-eq_none = (
    from_none (rank fl cands prefs) refl,
    λ none_picked. elim (Option-cases (best fl cands prefs)) [
      | inl e ↦ e
      | inr (r, e) ↦
          let (picked, member, _) = best-eq_some r e in
          absurd (true≢false (sym picked ∙ none_picked r member))
    ],
  )
