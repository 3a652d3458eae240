-- ===== src/Base/Maps.antt =====
-- Go maps with string keys, as lists of pairs in which a key that is set stands once.
use mathlib.Core.Bool.{true≢false}
use kuro.Base.{
  ◌≡◌, refl, sym, ◌∙◌, inl, inr, false, List, [], ◌∷◌, Option, none, some, Text, text_eq,
  text_eq_iff, text_eq_refl, Bool-cases, if◌then◌else◌,
}

module _ {ℓ} {A : Type ℓ} where
  -- `m[k]`
  unfoldable pub lookup : Text → List (Text × A) → Option A
  lookup k [] = none
  lookup k ((j, a) ∷ m) = if text_eq j k then some a else lookup k m

  -- `delete(m, k)`
  unfoldable pub erase : Text → List (Text × A) → List (Text × A)
  erase k [] = []
  erase k ((j, a) ∷ m) = if text_eq j k then erase k m else (j, a) ∷ erase k m

  -- `m[k] = a`
  unfoldable pub put : Text → A → List (Text × A) → List (Text × A)
  unfolding erase
  put k a m = (k, a) ∷ erase k m

  pub lookup-erase_same : (k : Text) (m : List (Text × A)) → lookup k (erase k m) ≡ none
  unfolding lookup erase
  lookup-erase_same k [] = refl
  lookup-erase_same k ((j, a) ∷ m) = elim (Bool-cases (text_eq j k)) [
    | inl e ↦ rw e (lookup-erase_same k m)
    | inr e ↦ rw e (rw e (lookup-erase_same k m))
  ]

  pub lookup-erase_other :
      (k other : Text) (m : List (Text × A))
      → text_eq k other ≡ false
      → lookup other (erase k m) ≡ lookup other m
  unfolding lookup erase
  lookup-erase_other k other [] h = refl
  lookup-erase_other k other ((j, a) ∷ m) h = elim (Bool-cases (text_eq j k)) [
    | inl e ↦ rw e (rw ((text_eq_iff j k).0 e) (rw h (lookup-erase_other k other m h)))
    | inr e ↦ rw e (rw (lookup-erase_other k other m h) refl)
  ]

  pub lookup-put_same : (k : Text) (a : A) (m : List (Text × A)) → lookup k (put k a m) ≡ some a
  unfolding lookup put
  lookup-put_same k a m = rw (text_eq_refl k) refl

  pub lookup-put_other :
      (k other : Text) (a : A) (m : List (Text × A))
      → text_eq k other ≡ false
      → lookup other (put k a m) ≡ lookup other m
  unfolding lookup put
  lookup-put_other k other a m h = rw h (lookup-erase_other k other m h)

  -- No key stands twice.
  abbrev pub HasOnce : List (Text × A) → Type ℓ
  HasOnce [] = Unit
  HasOnce ((k, a) ∷ m) = (lookup k m ≡ none) × HasOnce m

  pub erase-HasOnce : (k : Text) (m : List (Text × A)) → HasOnce m → HasOnce (erase k m)
  unfolding erase
  erase-HasOnce k [] h = h
  erase-HasOnce k ((j, a) ∷ m) h = elim (Bool-cases (text_eq j k)) [
    | inl e ↦ rw e (erase-HasOnce k m h.1)
    | inr e ↦ rw e (lookup-erase_other k j m (differs j k e) ∙ h.0, erase-HasOnce k m h.1)
  ]
    where
      differs : (j k : Text) → text_eq j k ≡ false → text_eq k j ≡ false
      differs j k e = elim (Bool-cases (text_eq k j)) [
        | inr f ↦ f
        | inl f ↦ absurd (true≢false (sym (rw ((text_eq_iff k j).0 f) (text_eq_refl j)) ∙ e))
      ]

  pub put-HasOnce : (k : Text) (a : A) (m : List (Text × A)) → HasOnce m → HasOnce (put k a m)
  unfolding put
  put-HasOnce k a m h = (lookup-erase_same k m, erase-HasOnce k m h)
