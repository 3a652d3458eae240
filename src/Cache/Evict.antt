-- ===== src/Cache/Evict.antt =====
-- internal/library/cache.go: `evict`, `evictDownTo`, `Sweep` and `MakeRoom`. The torrent engine is
-- reached through the client of internal/torrent over the network, and answers as its own state says.
pub mod Laws
pub mod Account
use kuro.Base.{
  ℕ, suc, ◌+◌, ◌-◌, ◌≡◌, Bool, true, false, not, ◌&&◌, ◌||◌, List, [], ◌∷◌, ◌++◌, Option, none,
  some, Text, text_eq, to_lower, has, any, keep, leb, ltb, ◌==◌, if◌then◌else◌,
}
use kuro.Base.Int.{ℤ, pos, negsuc, sub_ℕ, ◌-ℤ◌, leb_ℤ}
use kuro.Cache.Entry.{CacheEntry, CacheUsage, cache_usage}
use kuro.Cache.Store.{drop_torrent_cache}
use kuro.Cache.Order.{EpisodeRef, torrent_bytes, eviction_order}

-- How a deletion through the engine ends.
pub data Deletion : Type 0 where
  deleted : Deletion
  -- `torrent.ErrUnavailable`
  unreachable : Deletion
  -- Any other error.
  refused : Deletion

-- What the cache asks of the world outside: the engine's client, the path test on a download's
-- folder, the deletion of files by name, and whether a statement of the database fails.
pub record Outside : Type 1 where
  pub S : Type 0
  -- `c.torrent != nil`
  pub attached : Bool
  -- `Live`: the ids of the torrents by lower-case hash, or an error.
  pub live : S → Option (List (Text × ℕ))
  -- `Details`, as far as it decides `owns`: the download lies in the cache folder.
  pub owns : ℕ → S → Option Bool
  pub delete : ℕ → S → S × Deletion
  pub remove_by_name : CacheEntry → S → S
  pub drop_fails : Text → S → Bool

-- `live[h]`
unfoldable pub live_id : List (Text × ℕ) → Text → Option ℕ
live_id [] h = none
live_id ((k, id) ∷ rest) h = if text_eq k h then some id else live_id rest h

module _ (out : Outside) where
  open out use {S, attached, live, owns, delete, remove_by_name, drop_fails}

  pub record World : Type 0 where
    pub rows : List CacheEntry
    pub engine : S

  -- The last statement of `evict`. The Boolean says that there was no error.
  drop_rows : CacheEntry → World → World × Bool
  drop_rows e w =
      if drop_fails e.info_hash w.engine
      then (w, false)
      else (record w { rows = drop_torrent_cache e.info_hash w.rows }, true)

  after_delete : CacheEntry → List CacheEntry → S × Deletion → World × Bool
  unfolding drop_rows
  after_delete e rows (s, unreachable) = (record { rows = rows; engine = s }, false)
  after_delete e rows (s, deleted) = drop_rows e (record { rows = rows; engine = s })
  after_delete e rows (s, refused) = drop_rows e (record { rows = rows; engine = s })

  evict_live : CacheEntry → ℕ → Option Bool → World → World × Bool
  unfolding after_delete
  evict_live e id none w = (w, false)
  evict_live e id (some false) w = drop_rows e w
  evict_live e id (some true) w = after_delete e w.rows (delete id w.engine)

  evict_found : CacheEntry → Option ℕ → World → World × Bool
  unfolding evict_live
  evict_found e none w = drop_rows e (record w { engine = remove_by_name e w.engine })
  evict_found e (some id) w = evict_live e id (owns id w.engine) w

  evict_attached : CacheEntry → Option (List (Text × ℕ)) → World → World × Bool
  unfolding evict_found
  evict_attached e none w = (w, false)
  evict_attached e (some ids) w = evict_found e (live_id ids (to_lower e.info_hash)) w

  evict_if : Bool → CacheEntry → World → World × Bool
  unfolding evict_attached drop_rows
  evict_if true e w = evict_attached e (live w.engine) w
  evict_if false e w = drop_rows e w

  unfoldable pub evict : CacheEntry → World → World × Bool
  unfolding evict_if
  evict e w = evict_if attached e w

  -- `before`, `after` and `budget` are int64: the target of `MakeRoom` may be negative.
  pub record SweepReport : Type 0 where
    pub before : ℤ
    pub after : ℤ
    pub budget : ℕ
    pub evicted : ℕ
    pub freed : ℕ

  pub record Progress : Type 0 where
    pub gone : List Text
    pub report : SweepReport
    pub world : World

  -- One entry of the order, whose torrent is not yet gone, and how its eviction ended.
  settle : (Text → ℕ) → CacheEntry → Progress → World × Bool → Progress
  settle freed e p (w, true) = record {
    gone = e.info_hash ∷ p.gone;
    report = record p.report {
      evicted = p.report.evicted + 1;
      freed = p.report.freed + freed e.info_hash;
      after = p.report.after -ℤ pos (freed e.info_hash);
    };
    world = w;
  }
  settle freed e p (w, false) = record p { world = w }

  evict_next : (Text → ℕ) → CacheEntry → Progress → Progress
  unfolding settle
  evict_next freed e p = settle freed e p (evict e p.world)

  unfoldable pub evict_loop : ℤ → (Text → ℕ) → List CacheEntry → Progress → Progress
  unfolding evict_next
  evict_loop target freed [] p = p
  evict_loop target freed (e ∷ order) p =
      let rest =
        evict_loop target freed order
          (if has e.info_hash p.gone then p else evict_next freed e p) in
      if leb_ℤ p.report.after target then p else rest

  unfoldable pub evict_down_to :
      ℤ → (Text → ℕ) → List CacheEntry → SweepReport → World → SweepReport × World
  unfolding evict_loop
  evict_down_to target freed order rep w =
      let p = evict_loop target freed order (record { gone = []; report = rep; world = w }) in
      (p.report, p.world)
