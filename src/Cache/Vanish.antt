-- ===== src/Cache/Vanish.antt =====
-- internal/library/cache.go: `missing`, `present` and `forgetVanished`, which drop the rows of a
-- download that the engine has not listed for a while. The listing succeeded; times are nanoseconds.
pub mod Counting
pub mod Laws
use kuro.Base.{
  ℕ, ◌+◌, ◌-◌, ◌*◌, ◌^◌, Bool, true, false, not, ◌&&◌, ◌||◌, List, [], ◌∷◌, Option, none, some,
  Text, text_eq, to_lower, has, any, keep, leb, if◌then◌else◌,
}
use kuro.Base.Maps.{lookup, put, erase}
use kuro.Cache.Entry.{CacheEntry}
use kuro.Cache.Store.{drop_torrent_cache}

pub record Absence : Type 0 where
  pub count : ℕ
  pub since : ℕ

abbrev pub forget_after : ℕ
forget_after = 2

abbrev pub forget_age : ℕ
forget_age = 10 * 60 * 10 ^ 9

-- `a := c.absent[hash]`, or a new one.
absence_of : ℕ → Option Absence → Absence
absence_of now none = record { count = 0; since = now }
absence_of now (some a) = a

unfoldable pub missing : Text → ℕ → List (Text × Absence) → List (Text × Absence) × Bool
unfolding absence_of
missing hash now absent =
    let a = absence_of now (lookup hash absent) in
    let a' = record a { count = a.count + 1 } in
    (put hash a' absent, leb forget_after a'.count && leb forget_age (now - a'.since))

unfoldable pub present : List Text → List (Text × Absence) → List (Text × Absence)
present [] absent = absent
present (hash ∷ hashes) absent = present hashes (erase hash absent)

abbrev pub with_hash : Text → CacheEntry → Bool
with_hash hash e = text_eq (to_lower e.info_hash) hash

-- The test is that of the path on the disk.
unfoldable pub kept_on_disk : (Text → Bool) → List CacheEntry → Bool
kept_on_disk on_disk rows = any (λ e. e.kept && not (text_eq e.name []) && on_disk e.name) rows

-- The keys of the map `gone`, where they come first; the code goes through them in any order.
unfoldable pub gone_hashes : List Text → List Text → List CacheEntry → List Text
gone_hashes held seen [] = []
gone_hashes held seen (e ∷ entries) =
    let hash = to_lower e.info_hash in
    let skips = has hash held || has hash seen in
    let rest = gone_hashes held (if skips then seen else hash ∷ seen) entries in
    if skips then rest else hash ∷ rest

pub record State : Type 0 where
  pub absent : List (Text × Absence)
  pub rows : List CacheEntry

-- `DropTorrentCache` by the hash of the first row. The Boolean says that there was no error.
drop_first : (Text → Bool) → List CacheEntry → State → State × Bool
drop_first fails [] s = (s, true)
drop_first fails (e ∷ _) s =
    if fails e.info_hash
    then (s, false)
    else (record s { rows = drop_torrent_cache e.info_hash s.rows }, true)

-- One round of the loop.
forget_one : (Text → Bool) → (Text → Bool) → ℕ → Text → List CacheEntry → State → State × Bool
unfolding drop_first
forget_one on_disk fails now hash rows s =
    let (absent', long) = missing hash now s.absent in
    let s' = record s { absent = absent' } in
    if not long || kept_on_disk on_disk rows then (s', true) else drop_first fails rows s'

forget_loop : (Text → Bool) → (Text → Bool) → ℕ → List CacheEntry → List Text → State → State × Bool
unfolding forget_one
forget_loop on_disk fails now entries [] s = (s, true)
forget_loop on_disk fails now entries (hash ∷ hashes) s =
    let (s', fine) = forget_one on_disk fails now hash (keep (with_hash hash) entries) s in
    let rest = forget_loop on_disk fails now entries hashes s' in if fine then rest else (s', false)

is_none_listed : List Text → Bool
is_none_listed [] = true
is_none_listed (_ ∷ _) = false

-- The lower-case hashes of the engine's list are `held`.
unfoldable pub forget_vanished :
    (Text → Bool) → (Text → Bool) → ℕ → List Text → State → State × Bool
unfolding forget_loop is_none_listed
forget_vanished on_disk fails now held s =
    let s' = record s { absent = present held s.absent } in
    if is_none_listed held
    then (s', true)
    else forget_loop on_disk fails now s.rows (gone_hashes held [] s.rows) s'
