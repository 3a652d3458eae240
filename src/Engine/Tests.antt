-- ===== src/Engine/Tests.antt =====
-- Two torrents of one name, a download with two peers, and one that has none.
use kuro.Base.{
  ◌*◌, ◌^◌, ◌≡◌, refl, inl, inr, Bool-cases, false, [], ◌∷◌, none, some, Text, text, text_eq, has,
  count, arith, if◌then◌else◌,
}
use kuro.Base.Maps.{lookup}
use kuro.Engine.Layout.{Tops, suffixed, taken, top}
use kuro.Engine.Layout.Apart.{IsApart, same_trans, top-IsApart}
use kuro.Engine.Census.{note}
use kuro.Engine.Census.Balance.{IsOnce, Accounts, one_if, unseen, starts, looks, Looked-Accounts}

abbrev first_hash : Text
first_hash = text "aaaabbbbcccc"

abbrev second_hash : Text
second_hash = text "ddddeeeeffff"

abbrev one_top : Tops
one_top = (first_hash, text "Show") ∷ []

second_differs : text_eq second_hash first_hash ≡ false
unfolding text_eq
second_differs = refl

one_top-IsApart : IsApart (some one_top)
unfolding lookup
one_top-IsApart h k t eh ek = elim (Bool-cases (text_eq first_hash h)) [
  | inr other ↦ let absent : none ≡ some t = rw (other, lookup) at eh in cc
  | inl h_first ↦ elim (Bool-cases (text_eq first_hash k)) [
    | inr other ↦ let absent : none ≡ some t = rw (other, lookup) at ek in cc
    | inl k_first ↦ same_trans first_hash h k h_first k_first
  ]
]

suffix_is_free : taken (suffixed (text "Show") second_hash) second_hash one_top ≡ false
unfolding taken text_eq
suffix_is_free = refl

top-IsApart_example : IsApart (top (text "Show") second_hash (some one_top)).1
top-IsApart_example = top-IsApart (text "Show") second_hash one_top one_top-IsApart suffix_is_free

peer-IsOnce : IsOnce (text "1.2.3.4" ∷ [])
unfolding has
peer-IsOnce a = ground arith

nobody-IsOnce : IsOnce []
unfolding has
nobody-IsOnce a = refl

-- A peer was there at the first look, a minute in, and has gone at the second.
Looked-Accounts_example :
    Accounts
      (if (note (60 * 10 ^ 9) (text "1.2.3.4" ∷ []) unseen).1.due then text "1.2.3.4" ∷ [] else [])
      (note (120 * 10 ^ 9) [] (note (60 * 10 ^ 9) (text "1.2.3.4" ∷ []) unseen).0)
    × ((a : Text)
        → count a
            (note (120 * 10 ^ 9) [] (note (60 * 10 ^ 9) (text "1.2.3.4" ∷ []) unseen).0).0.peers
          ≡ one_if (has a []))
Looked-Accounts_example =
    Looked-Accounts (120 * 10 ^ 9) [] (looks (60 * 10 ^ 9) (text "1.2.3.4" ∷ []) starts peer-IsOnce)
      nobody-IsOnce
