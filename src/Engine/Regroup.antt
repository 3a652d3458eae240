-- ===== src/Engine/Regroup.antt =====
-- internal/engine/regroup.go: the peers that a download had are remembered, and tried again when it has
-- none. Times are nanoseconds; the zero time is `none`.
pub mod Waits
pub mod Memory
use kuro.Base.{
  ℕ, ◌+◌, ◌-◌, ◌*◌, ◌^◌, min, Bool, true, false, not, ◌&&◌, List, [], ◌∷◌, Option, none, some, Text,
  length, leb, ltb, ◌==◌, if◌then◌else◌,
}
use kuro.Base.Maps.{lookup, put, erase}

abbrev pub regroup_after : ℕ
regroup_after = 20 * 10 ^ 9

abbrev pub regroup_max : ℕ
regroup_max = 10 * 60 * 10 ^ 9

abbrev pub remembered_peers : ℕ
remembered_peers = 200

-- A peer: its address, if it has one, and how it was found.
pub record PeerInfo : Type 0 where
  pub addr : Option Text
  pub source : ℕ

pub record Remembered : Type 0 where
  pub info : PeerInfo
  pub seen : ℕ

abbrev pub Known : Type 0
Known = List (Text × Remembered)

-- The loop over the map, from the key and time so far.
oldest_loop : Option Text → ℕ → Known → Option Text
oldest_loop oldest at' [] = oldest
oldest_loop oldest at' ((k, r) ∷ known) =
    oldest_loop (if ltb r.seen at' then some k else oldest) (if ltb r.seen at' then r.seen else at')
      known

unfoldable pub oldest : ℕ → Known → Option Text
unfolding oldest_loop
oldest now known = oldest_loop none now known

is_held : Text → Known → Bool
is_held key known = elim (lookup key known) [ none ↦ false | some r ↦ true ]

remember_full : ℕ → Text → Remembered → Known → Option Text → Known
remember_full now key r known none = known
remember_full now key r known (some k) = put key r (erase k known)

remember_at : ℕ → Text → Remembered → Known → Known
unfolding is_held remember_full
remember_at now key r known =
    if not (is_held key known) && leb remembered_peers (length known)
    then remember_full now key r known (oldest now known)
    else put key r known

unfoldable pub remember : ℕ → List PeerInfo → Known → Known
unfolding remember_at
remember now [] known = known
remember now (p ∷ peers) known = elim p.addr [
  | none ↦ remember now peers known
  | some key ↦ remember now peers (remember_at now key (record { info = p; seen = now }) known)
]

-- What an entry of the engine keeps about its tries.
pub record Tries : Type 0 where
  pub alone_since : Option ℕ
  pub regroup_wait : ℕ
  pub regroups : ℕ

try_from : ℕ → ℕ → ℕ → ℕ → Tries × Bool
try_from now since wait regroups =
    if ltb (now - since) wait
    then (record { alone_since = some since; regroup_wait = wait; regroups = regroups }, false)
    else (
      record {
        alone_since = some now;
        regroup_wait = min (wait * 2) regroup_max;
        regroups = regroups + 1;
      },
      true,
    )

-- The clock does not go back, so `now - since` is not negative.
unfoldable pub try_again : ℕ → Tries → Tries × Bool
unfolding try_from
try_again now t = elim t.alone_since [
  | none ↦ try_from now now regroup_after t.regroups
  | some since ↦ try_from now since t.regroup_wait t.regroups
]

abbrev pub at_rest : Tries
at_rest = record { alone_since = none; regroup_wait = 0; regroups = 0 }

infos : Known → List PeerInfo
infos [] = []
infos ((k, r) ∷ known) = r.info ∷ infos known

-- What `regroup` does with the tries and the memory, and the peers that it adds again, if it is due.
-- `named` says that the torrent's info is there.
unfoldable pub regroup :
    ℕ
    → (named : Bool) → List PeerInfo
    → (active : ℕ) → (paused verifying wants : Bool) → Known
    → Tries
    → Known × Tries × Option (List PeerInfo)
unfolding infos
regroup now named peers active paused verifying wants known t =
    let known' = remember now peers known in
    let (t', due) = try_again now t in
    if not named
    then (known, t, none)
    else if length peers == 0 && active == 0 && not paused && not verifying && wants
    then (known', t', if due then some (infos known') else none)
    else (known', at_rest, none)
