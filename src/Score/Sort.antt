-- ===== src/Score/Sort.antt =====
-- The insertion sort of `Rank`, for any test `better`.
use mathlib.Core.List.{
  perm_middle, Pairwise, Pairwise-reverse, append-nil, forall_mem-cons, reverse_perm, not-mem-nil,
  mem-cons_self, append_assoc, reverse-cons, reverse-reverse,
}
use mathlib.Core.Bool.{Bool-set}
use mathlib.Core.List.Perm
use kuro.Base.{
  ◌≡◌, refl, ap, sym, ◌∙◌, inl, inr, Bool, false, List, [], ◌∷◌, ◌++◌, reverse, Perm, All,
  Bool-cases,
}
use kuro.Score.Rank.{sink, insert_all}
use kuro.Score.Order.{IsWeakOrder}

-- The result of the sort, in order.
abbrev pub sort {ℓ} : {A : Type ℓ} → (A → A → Bool) → List A → List A
sort better out = reverse (insert_all better out [])

-- No element is better than one that stands before it.
abbrev pub IsRanked {ℓ} : {A : Type ℓ} → (A → A → Bool) → List A → Type ℓ
IsRanked better = Pairwise (λ a b. better b a ≡ false)

module _ {ℓ} {A : Type ℓ} (better : A → A → Bool) where
  sink-perm : (x : A) (done : List A) → Perm (sink better x done) (x ∷ done)
  unfolding sink
  sink-perm x [] = Perm.rfl
  sink-perm x (y ∷ done) = elim (Bool-cases (better x y)) [
    | inl e ↦ rw e (Perm.trans (Perm.cons y (sink-perm x done)) (Perm.swap x y done))
    | inr e ↦ rw e Perm.rfl
  ]

  insert_all-perm : (out done : List A) → Perm (insert_all better out done) (out ++ done)
  unfolding insert_all
  insert_all-perm [] done = Perm.rfl
  insert_all-perm (x ∷ out) done =
      Perm.trans (insert_all-perm out (sink better x done))
        (Perm.trans (Perm.append_left out (sink-perm x done)) (perm_middle out done))

  pub sort-perm : (out : List A) → Perm (sort better out) out
  sort-perm out =
      Perm.trans (reverse_perm (insert_all better out []))
        (rw append-nil at (insert_all-perm out []))

  module _ (w : IsWeakOrder better) where
    pub better_self : (a : A) → better a a ≡ false
    better_self a = elim (Bool-cases (better a a)) [ inl e ↦ w.asymm a a e | inr e ↦ e ]

    -- Last element first, as the sort keeps its sorted part.
    abbrev IsSunk : List A → Type ℓ
    IsSunk = Pairwise (λ a b. better a b ≡ false)

    sink-IsSunk : (x : A) (done : List A) → IsSunk done → IsSunk (sink better x done)
    unfolding sink
    sink-IsSunk x [] s = Pairwise.cons (λ a m. absurd (not-mem-nil m)) Pairwise.nil
    sink-IsSunk x (y ∷ done) (Pairwise.cons below s) = elim (Bool-cases (better x y)) [
      | inl e ↦ rw e (
          Pairwise.cons
            (λ a m.
              (forall_mem-cons (λ b. Bool-set (better y b) false)).1 (w.asymm x y e, below) a
                ((Perm.mem_iff (sink-perm x done)).0 m))
            (sink-IsSunk x done s))
      | inr e ↦ rw e (
          Pairwise.cons
            ((forall_mem-cons (λ b. Bool-set (better x b) false)).1
              (e, λ a m. w.between x y a e (below a m)))
            (Pairwise.cons below s))
    ]

    insert_all-IsSunk : (out done : List A) → IsSunk done → IsSunk (insert_all better out done)
    unfolding insert_all
    insert_all-IsSunk [] done s = s
    insert_all-IsSunk (x ∷ out) done s =
        insert_all-IsSunk out (sink better x done) (sink-IsSunk x done s)

    pub sort-IsRanked : (out : List A) → IsRanked better (sort better out)
    sort-IsRanked out =
        (Pairwise-reverse (λ a b. Bool-set (better b a) false)).1
          (insert_all-IsSunk out [] Pairwise.nil)

-- The sort asks only about pairs of its own elements.
module _ {ℓ κ} {A : Type ℓ} (P : A → Type κ) (f g : A → A → Bool)
    (same : (a b : A) → P a → P b → f a b ≡ g a b) where
  sink-All : (x : A) (done : List A) → P x → All P done → All P (sink f x done)
  unfolding sink
  sink-All x [] p h = (p, tt)
  sink-All x (y ∷ done) p h = elim (Bool-cases (f x y)) [
    | inl e ↦ rw e (h.0, sink-All x done p h.1)
    | inr e ↦ rw e (p, h)
  ]

  sink-congr : (x : A) (done : List A) → P x → All P done → sink f x done ≡ sink g x done
  unfolding sink
  sink-congr x [] p h = refl
  sink-congr x (y ∷ done) p h = rw (same x y p h.0, sink-congr x done p h.1) refl

  insert_all-congr :
      (out done : List A) → All P out → All P done → insert_all f out done ≡ insert_all g out done
  unfolding insert_all
  insert_all-congr [] done h k = refl
  insert_all-congr (x ∷ out) done h k =
      rw (← sink-congr x done h.0 k)
        (insert_all-congr out (sink f x done) h.1 (sink-All x done h.0 k))

  pub sort-congr : (out : List A) → All P out → sort f out ≡ sort g out
  sort-congr out h = ap reverse (insert_all-congr out [] h tt)

module _ {ℓ} {A : Type ℓ} (better : A → A → Bool) where
  insert_all-ordered :
      (out : List A) (y : A) (done : List A)
      → IsRanked better (y ∷ out)
      → insert_all better out (y ∷ done) ≡ reverse out ++ y ∷ done
  unfolding insert_all sink
  insert_all-ordered [] y done s = refl
  insert_all-ordered (x ∷ out) y done (Pairwise.cons first s) =
      rw (first x mem-cons_self, sink)
        (insert_all-ordered out x (y ∷ done) s
          ∙ sym (
              ap (λ l. l ++ y ∷ done) (reverse-cons x out)
              ∙ append_assoc (reverse out) (x ∷ []) (y ∷ done)))

  -- A list in order is left as it is.
  pub sort-ordered : (out : List A) → IsRanked better out → sort better out ≡ out
  unfolding insert_all sink
  sort-ordered [] s = refl
  sort-ordered (x ∷ out) s =
      ap reverse (insert_all-ordered out x [] s ∙ sym (reverse-cons x out))
      ∙ reverse-reverse (x ∷ out)
