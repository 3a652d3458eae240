-- ===== src/Cache/Sweep.antt =====
-- internal/library/cache.go: `Sweep`, `MakeRoom`, `AutoDelete` and `Clear`, from the rows that the
-- refresh before them leaves, where the reads of the database succeed.
pub mod Spare
pub mod Room
pub mod Delete
pub mod Exact
use kuro.Base.{
  ℕ, suc, ◌+◌, Bool, true, false, not, ◌&&◌, ◌||◌, List, [], ◌∷◌, ◌++◌, Option, none, some, Text,
  text_eq, to_lower, text, has, any, keep, leb, ◌==◌, if◌then◌else◌,
}
use kuro.Base.Int.{pos, sub_ℕ, ◌-ℤ◌, leb_ℤ}
use kuro.Strings.{atoi}
use kuro.Cache.Entry.{CacheEntry, CacheUsage, cache_usage, same_torrent}
use kuro.Cache.Order.{EpisodeRef, torrent_bytes, sum_once, eviction_order}
use kuro.Cache.Evict.{Outside, World, SweepReport, evict, evict_down_to}

abbrev pub of_show : ℕ → CacheEntry → Bool
of_show anime e = elim e.anime_id [ none ↦ false | some id ↦ id == anime ]

-- `watched[n]`, where the key is a number.
unfoldable pub is_watched : (ℕ → Bool) → CacheEntry → Bool
is_watched watched e = elim (atoi e.ep_key) [ none ↦ false | some n ↦ watched n ]

-- The map `spared` of `MakeRoom`, read at a hash.
unfoldable pub spared : List CacheEntry → ℕ → (ℕ → Bool) → Text → Bool
spared entries anime watched h =
    any (λ e. same_torrent h e && (of_show anime e && not (is_watched watched e))) entries

unfoldable pub room_order :
    List CacheEntry → List Text → EpisodeRef → ℕ → (ℕ → Bool) → List CacheEntry
room_order entries stalled watching anime watched =
    keep (λ e. not (spared entries anime watched e.info_hash))
      (eviction_order entries stalled watching)

-- The rule `cache.autodelete`: `now`, or `keep2`, which keeps the two episodes before the last watched.
unfoldable pub is_done : Bool → (ℕ → Bool) → ℕ → Bool
is_done now watched ep = watched ep && (now || watched (ep + 1) && watched (ep + 2))

-- What forbids `AutoDelete` to take the torrent of an entry.
unfoldable pub vetoes : ℕ → Bool → Bool → (ℕ → Bool) → CacheEntry → Bool
vetoes anime now downloads watched e =
    if not (of_show anime e) then true else elim (atoi e.ep_key) [
      | none ↦ true
      | some ep ↦ e.pinned || e.kept && not downloads || not (is_done now watched ep)
    ]

unfoldable pub vetoed : ℕ → Bool → Bool → (ℕ → Bool) → List CacheEntry → Text → Bool
vetoed anime now downloads watched entries h =
    any (λ e. same_torrent h e && vetoes anime now downloads watched e) entries

unfoldable pub clear_held : Bool → List CacheEntry → Text → Bool
clear_held completed_only entries h =
    any
      (λ e.
        text_eq (to_lower e.info_hash) h
        && (e.pinned || e.kept || completed_only && not e.complete))
      entries

module _ (out : Outside) where
  abbrev initial_report : CacheUsage → SweepReport out
  initial_report usage = record {
    before = pos usage.bytes;
    after = pos usage.bytes;
    budget = usage.budget;
    evicted = 0;
    freed = 0;
  }

  -- `Sweep` from the end of its refresh, which may itself forget downloads, on.
  unfoldable pub sweep_refreshed :
      ℕ → List Text → EpisodeRef → World out → SweepReport out × World out
  sweep_refreshed budget stalled watching w =
      let usage = cache_usage budget w.rows in
      if usage.budget == 0 || leb usage.bytes usage.budget
      then (initial_report usage, w)
      else evict_down_to out (pos usage.budget) (torrent_bytes w.rows)
          (eviction_order w.rows stalled watching) (initial_report usage) w

  -- The result is whether the room is there. A read of the watched episodes that fails is `none`.
  make_room_watched : ℕ → List Text → EpisodeRef → ℕ → ℕ → (ℕ → Bool) → World out → Bool × World out
  make_room_watched budget stalled watching need anime watched w =
      let usage = cache_usage budget w.rows in
      let target = pos budget -ℤ pos need in
      let freed = torrent_bytes w.rows in
      let order = room_order w.rows stalled watching anime watched in
      let available = sum_once freed [] order in
      if not (leb_ℤ (pos usage.bytes -ℤ pos available) target)
      then (false, w)
      else (let (rep, w') = evict_down_to out target freed order (initial_report usage) w in
          (leb_ℤ rep.after target, w'))

  unfoldable pub make_room :
      ℕ → List Text → EpisodeRef → ℕ → ℕ → Option (ℕ → Bool) → World out → Bool × World out
  unfolding make_room_watched
  make_room budget stalled watching need anime watched w =
      let usage = cache_usage budget w.rows in
      if budget == 0 || leb_ℤ (pos usage.bytes) (pos budget -ℤ pos need)
      then (true, w)
      else elim watched [
        | none ↦ (false, w)
        | some seen ↦ make_room_watched budget stalled watching need anime seen w
      ]

  -- `CacheEntry{InfoHash: hash}`
  abbrev pub bare : Text → CacheEntry
  bare hash = record {
    info_hash = hash;
    file_index = 0;
    bytes = 0;
    complete = false;
    pinned = false;
    kept = false;
    protected = false;
    anime_id = none;
    ep_key = [];
    last_played = 0;
    name = [];
  }

  -- The torrents of the candidates, each once; the code goes through a map, in any order.
  auto_loop : (Text → Bool) → List Text → List CacheEntry → ℕ → World out → ℕ × World out
  auto_loop veto seen [] removed w = (removed, w)
  auto_loop veto seen (e ∷ rest) removed w =
      let skips = veto e.info_hash || has e.info_hash seen in
      let (w', fine) = evict out (bare e.info_hash) w in
      auto_loop veto (e.info_hash ∷ seen) rest
        (if skips then removed else if fine then suc removed else removed) (if skips then w else w')

  -- `now` says which of the two modes is set; no other mode deletes anything.
  unfoldable pub auto_delete : ℕ → Option Bool → Bool → (ℕ → Bool) → World out → ℕ × World out
  unfolding auto_loop
  auto_delete anime mode downloads watched w = if anime == 0 then (0, w) else elim mode [
    | none ↦ (0, w)
    | some now ↦
        auto_loop (vetoed anime now downloads watched w.rows) []
          (keep (λ e. not (vetoes anime now downloads watched e)) w.rows) 0 w
  ]

  clear_loop :
      (Text → Bool)
      → (Text → ℕ)
      → List Text
      → List CacheEntry
      → ℕ × ℕ × World out
      → ℕ × ℕ × World out
  clear_loop is_held bytes done [] p = p
  clear_loop is_held bytes done (e ∷ rest) (removed, freed, w) =
      let hash = to_lower e.info_hash in
      let skips = is_held hash || has hash done in
      let (w', fine) = evict out e w in
      clear_loop is_held bytes (if not skips && fine then hash ∷ done else done) rest (
        if skips
        then (removed, freed, w)
        else if fine
        then (suc removed, freed + bytes e.info_hash, w')
        else (removed, freed, w'))

  unfoldable pub clear : Bool → World out → ℕ × ℕ × World out
  unfolding clear_loop
  clear completed_only w =
      clear_loop (clear_held completed_only w.rows) (torrent_bytes w.rows) [] w.rows (0, 0, w)
