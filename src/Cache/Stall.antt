-- ===== src/Cache/Stall.antt =====
-- internal/library/cache.go: `watch`, `unwatch` and `stalled`, which tell an unfinished download that
-- moves from one that does not. Times are nanoseconds.
pub mod History
use kuro.Base.{
  ℕ, ◌-◌, ◌*◌, ◌^◌, Bool, true, false, List, [], ◌∷◌, Option, none, some, Text, to_lower, leb, ◌==◌,
  if◌then◌else◌,
}
use kuro.Base.Maps.{lookup, put, erase}

pub record Mark : Type 0 where
  pub bytes : ℕ
  pub since : ℕ

abbrev pub stalled_after : ℕ
stalled_after = 12 * 3600 * 10 ^ 9

watch_running : Text → ℕ → ℕ → List (Text × Mark) → List (Text × Mark)
watch_running hash bytes now progress =
    let fresh = put hash (record { bytes = bytes; since = now }) progress in
    elim (lookup hash progress) [
      | none ↦ fresh
      | some m ↦ if m.bytes == bytes then progress else fresh
    ]

unfoldable pub watch : Text → ℕ → Bool → ℕ → List (Text × Mark) → List (Text × Mark)
unfolding watch_running
watch hash bytes done now progress =
    if done
    then erase (to_lower hash) progress
    else watch_running (to_lower hash) bytes now progress

unfoldable pub unwatch : Text → List (Text × Mark) → List (Text × Mark)
unwatch hash progress = erase (to_lower hash) progress

-- The keys of the set that is returned.
unfoldable pub stalled : ℕ → List (Text × Mark) → List Text
stalled now [] = []
stalled now ((hash, m) ∷ progress) =
    let rest = stalled now progress in
    if leb stalled_after (now - m.since) then hash ∷ rest else rest
