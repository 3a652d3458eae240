-- ===== src/Cache/Vanish/Counting.antt =====
-- internal/library/cache.go: when `missing` says that a download is gone for long enough.
use kuro.Base.{
  ℕ, ◌+◌, ◌-◌, ◌≡◌, inl, inr, false, List, [], ◌∷◌, Option, none, some, Text, text_eq, text_eq_iff,
  Bool-cases, leb, arith,
}
use kuro.Base.Maps.{
  lookup, erase, lookup-put_same, lookup-put_other, lookup-erase_same, lookup-erase_other,
}
use kuro.Cache.Vanish.{Absence, forget_age, absence_of, missing, present}

-- Absent for less than the time after which a download is forgotten, or not yet found absent.
abbrev pub Young : ℕ → Option Absence → Type 0
Young now none = Unit
Young now (some a) = leb forget_age (now - a.since) ≡ false

young_now : (now : ℕ) → leb forget_age (now - now) ≡ false
young_now now = ground arith

absence-Young :
    (now : ℕ) (o : Option Absence)
    → Young now o
    → leb forget_age (now - (absence_of now o).since) ≡ false
unfolding absence_of
absence-Young now none y = young_now now
absence-Young now (some a) y = y

pub not_long_gone :
    (h : Text) (now : ℕ) (absent : List (Text × Absence))
    → Young now (lookup h absent)
    → (missing h now absent).1 ≡ false
unfolding missing
not_long_gone h now absent y = rw (absence-Young now (lookup h absent) y) (ground arith)

pub missing-Young :
    (g h : Text) (now : ℕ) (absent : List (Text × Absence))
    → Young now (lookup h absent)
    → Young now (lookup h (missing g now absent).0)
unfolding missing
missing-Young g h now absent y = elim (Bool-cases (text_eq g h)) [
  | inl same ↦ rw ((text_eq_iff g h).0 same) (
      rw
        (lookup-put_same h
          (record (absence_of now (lookup h absent)) {
            count = (absence_of now (lookup h absent)).count + 1;
          })
          absent)
        (absence-Young now (lookup h absent) y))
  | inr other ↦ rw (lookup-put_other g h _ absent other) y
]

pub present-Young :
    (h : Text) (now : ℕ) (hashes : List Text) (absent : List (Text × Absence))
    → Young now (lookup h absent)
    → Young now (lookup h (present hashes absent))
unfolding present
present-Young h now [] absent y = y
present-Young h now (g ∷ hashes) absent y =
    present-Young h now hashes (erase g absent) (elim (Bool-cases (text_eq g h)) [
      | inl same ↦ rw ((text_eq_iff g h).0 same) (rw (lookup-erase_same h absent) tt)
      | inr other ↦ rw (lookup-erase_other g h absent other) y
    ])

-- The first call for a download says no, the next one yes if the age is reached by then.
pub missing-two :
    (h : Text) (first second : ℕ) (absent : List (Text × Absence))
    → lookup h absent ≡ none
    → ((missing h first absent).1 ≡ false)
      × ((missing h second (missing h first absent).0).1 ≡ leb forget_age (second - first))
unfolding missing absence_of
missing-two h first second absent e = (
  not_long_gone h first absent (rw e tt),
  rw (e, lookup-put_same h (record { count = 1; since = first }) absent) (ground arith),
)
