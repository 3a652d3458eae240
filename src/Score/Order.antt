-- ===== src/Score/Order.antt =====
-- The order that `better` puts on results, as a lexicographic chain of keys.
use kuro.Base.{◌≡◌, refl, ap, Bool, true, false, not, ◌&&◌, differ, if◌then◌else◌, arith}
use kuro.Score.Float.{Float, of_ℕ, ne}
use kuro.Score.Evaluate.{Result}
use kuro.Score.Rank.{is_some, thin, unnamed, better}

-- A strict weak order: what comes first never comes second, and two elements that a third separates
-- from neither are not separated.
pub record IsWeakOrder {ℓ} {A : Type ℓ} (R : A → A → Bool) : Type ℓ where
  pub asymm : (a b : A) → R a b ≡ true → R b a ≡ false
  pub between : (a b c : A) → R a b ≡ false → R b c ≡ false → R a c ≡ false

-- One key above the keys below it.
by_key {ℓ} : {A : Type ℓ} → (A → Bool) → (A → A → Bool) → A → A → Bool
by_key k R a b = if differ (k a) (k b) then k a else R a b

by_float {ℓ} : {A : Type ℓ} (fl : Float) → (A → fl.F) → (A → A → Bool) → A → A → Bool
by_float fl k R a b = if ne fl (k a) (k b) then fl.lt (k b) (k a) else R a b

-- The same on Booleans, without the elements.
key_asymm :
    (ka kb Rab Rba : Bool)
    → (Rab ≡ true → Rba ≡ false)
    → (if differ ka kb then ka else Rab) ≡ true
    → (if differ kb ka then kb else Rba) ≡ false
key_asymm ka kb Rab Rba h e = ground arith

key_between :
    (ka kb kc Rab Rbc Rac : Bool)
    → (Rab ≡ false → Rbc ≡ false → Rac ≡ false)
    → (if differ ka kb then ka else Rab) ≡ false
    → (if differ kb kc then kb else Rbc) ≡ false
    → (if differ ka kc then ka else Rac) ≡ false
key_between ka kb kc Rab Rbc Rac h p q = ground arith

by_key-IsWeakOrder {ℓ} :
    {A : Type ℓ} (k : A → Bool) (R : A → A → Bool) → IsWeakOrder R → IsWeakOrder (by_key k R)
unfolding by_key
by_key-IsWeakOrder k R w = record {
  asymm = λ a b. key_asymm (k a) (k b) (R a b) (R b a) (w.asymm a b);
  between = λ a b c. key_between (k a) (k b) (k c) (R a b) (R b c) (R a c) (w.between a b c);
}

module _ (fl : Float) where
  open fl use {F, lt, lt_irrefl, lt_trans, lt_between}

  lt_asymm : (x y : F) → lt x y ≡ true → lt y x ≡ false
  lt_asymm x y h = ground (arith, lt_trans x y x, lt_irrefl x)

  float_asymm :
      (x y : F) (Rab Rba : Bool)
      → (Rab ≡ true → Rba ≡ false)
      → (if ne fl x y then lt y x else Rab) ≡ true
      → (if ne fl y x then lt x y else Rba) ≡ false
  float_asymm x y Rab Rba h e = ground (arith, lt_asymm x y, lt_asymm y x)

  float_between :
      (x y z : F) (Rab Rbc Rac : Bool)
      → (Rab ≡ false → Rbc ≡ false → Rac ≡ false)
      → (if ne fl x y then lt y x else Rab) ≡ false
      → (if ne fl y z then lt z y else Rbc) ≡ false
      → (if ne fl x z then lt z x else Rac) ≡ false
  float_between x y z Rab Rbc Rac h p q = ground (
    arith,
    lt_asymm x z,
    lt_between x y z,
    lt_between z y x,
    lt_between x z y,
    lt_between y x z,
    lt_trans x y z,
    lt_trans z y x,
  )

  by_float-IsWeakOrder {ℓ} :
      {A : Type ℓ} (k : A → F) (R : A → A → Bool) → IsWeakOrder R → IsWeakOrder (by_float fl k R)
  unfolding by_float
  by_float-IsWeakOrder k R w = record {
    asymm = λ a b. float_asymm (k a) (k b) (R a b) (R b a) (w.asymm a b);
    between = λ a b c. float_between (k a) (k b) (k c) (R a b) (R b c) (R a c) (w.between a b c);
  }

  -- The last key.
  score_above : Result fl → Result fl → Bool
  score_above a b = lt b.score a.score

  score_above-IsWeakOrder : IsWeakOrder score_above
  unfolding score_above
  score_above-IsWeakOrder = record {
    asymm = λ a b. lt_asymm b.score a.score;
    between = λ a b c p q. ground (arith, lt_between c.score b.score a.score);
  }

  -- The rank of an automatic pick; the others all have the same.
  pick_rank : Result fl → F
  pick_rank r = if r.auto_pick then r.res_rank else of_ℕ fl 0

  -- The keys of `better` for results that are all of a film series, or all not. A key that counts
  -- only for automatic picks is the same for all others.
  pub key_chain : Bool → Result fl → Result fl → Bool
  unfolding score_above
  key_chain film =
      by_key (λ r. r.auto_pick)
        (by_key (λ r. r.auto_pick && not (unnamed fl r))
          (by_key (λ r. r.candidate.confirmed)
            (by_key (λ r. r.auto_pick && film && not (thin fl r))
              (by_key (λ r. r.auto_pick && not r.candidate.release.batch)
                (by_key (λ r. r.auto_pick && r.candidate.sea_dex_best)
                  (by_float fl pick_rank (
                    by_key (λ r. r.auto_pick && not r.unreadable)
                      (by_key (λ r. r.auto_pick && r.playable) score_above))))))))

  pub key_chain-IsWeakOrder : (film : Bool) → IsWeakOrder (key_chain film)
  unfolding key_chain
  key_chain-IsWeakOrder film = by_key-IsWeakOrder _ _ (
      by_key-IsWeakOrder _ _ (
        by_key-IsWeakOrder _ _ (
          by_key-IsWeakOrder _ _ (
            by_key-IsWeakOrder _ _ (
              by_key-IsWeakOrder _ _ (
                by_float-IsWeakOrder pick_rank _
                  (by_key-IsWeakOrder _ _ (by_key-IsWeakOrder _ _ score_above-IsWeakOrder))))))))

  -- The film of a candidate is known for all of a search, or for none.
  abbrev pub OfKind : Bool → Result fl → Type 0
  OfKind film r = is_some r.candidate.film ≡ film

  -- One key of `better` between two results that are both automatic picks, or both not.
  module _ (p q : Bool) (same : p ≡ q) (rest rest' : Bool) (below : rest ≡ rest') where
    pick_key :
        (u v : Bool)
        → (if p && differ u v then u else rest)
          ≡ (if differ (p && u) (q && v) then p && u else rest')
    pick_key u v = ground arith

    pick_key_not :
        (u v : Bool)
        → (if p && differ u v then not u else rest)
          ≡ (if differ (p && not u) (q && not v) then p && not u else rest')
    pick_key_not u v = ground arith

    pick_key_unnamed :
        (u v : Bool)
        → (if p && differ u v then v else rest)
          ≡ (if differ (p && not u) (q && not v) then p && not u else rest')
    pick_key_unnamed u v = ground arith

    film_key :
        (film f g u v : Bool)
        → f ≡ film
        → g ≡ film
        → (if p && f && g && differ u v then not u else rest)
          ≡ (if differ (p && film && not u) (q && film && not v) then p && film && not u else rest')
    film_key film f g u v ef eg = ground arith

    any_key : (u v : Bool) → (if differ u v then u else rest) ≡ (if differ u v then u else rest')
    any_key u v = ap (λ x. if differ u v then u else x) below

    rank_key :
        (x y z : F)
        → (if p && ne fl x y then lt y x else rest) ≡ (
            if ne fl (if p then x else z) (if q then y else z)
            then lt (if q then y else z) (if p then x else z)
            else rest')
    rank_key x y z = ground (arith, lt_irrefl z)

  top_key :
      (p q rest rest' : Bool)
      → (p ≡ q → rest ≡ rest')
      → (if differ p q then p else rest) ≡ (if differ p q then p else rest')
  top_key true true rest rest' h = h refl
  top_key true false rest rest' h = refl
  top_key false true rest rest' h = refl
  top_key false false rest rest' h = h refl

  pub better-key_chain :
      (film : Bool) (a b : Result fl)
      → OfKind film a
      → OfKind film b
      → better fl a b ≡ key_chain film a b
  unfolding better key_chain pick_rank score_above by_key by_float
  better-key_chain film a b ka kb = top_key a.auto_pick b.auto_pick _ _ λ e.
      pick_key_unnamed _ _ e _ _
        (any_key _ _ e _ _
          (film_key _ _ e _ _
            (pick_key_not _ _ e _ _
              (pick_key _ _ e _ _
                (rank_key _ _ e _ _
                  (pick_key_not _ _ e _ _
                    (pick_key _ _ e (lt b.score a.score) _ refl a.playable b.playable) a.unreadable
                    b.unreadable)
                  a.res_rank b.res_rank (of_ℕ fl 0))
                a.candidate.sea_dex_best b.candidate.sea_dex_best)
              a.candidate.release.batch b.candidate.release.batch)
            film _ _ (thin fl a) (thin fl b) ka kb)
          a.candidate.confirmed b.candidate.confirmed)
        (unnamed fl a) (unnamed fl b)
