-- ===== src/Cache/Evict/Laws.antt =====
-- What an eviction does to the rows, and what the loop of `evictDownTo` adds up to.
use kuro.Base.{
  ℕ, ◌≡◌, refl, ap, inl, inr, Bool, true, false, not, List, [], ◌∷◌, Mem, Option, none, some, Text,
  text_eq, to_lower, has, All, mem-keep, Bool-cases, if◌then◌else◌, arith,
}
use kuro.Base.Int.{ℤ, leb_ℤ}
use kuro.Cache.Entry.{CacheEntry}
use kuro.Cache.Store.{drop_torrent_cache}
use kuro.Cache.Evict.{
  Outside, World, Deletion, deleted, unreachable, refused, live_id, drop_rows, after_delete,
  evict_live, evict_found, evict_attached, evict_if, evict, SweepReport, Progress, settle,
  evict_next, evict_loop, evict_down_to,
}

module _ (out : Outside) where
  -- An eviction without error drops exactly the rows of the torrent; one with an error drops none.
  abbrev pub Drops : CacheEntry → World out → World out × Bool → Type 0
  Drops e w (w', fine) = w'.rows ≡ (if fine then drop_torrent_cache e.info_hash w.rows else w.rows)

  drop_rows-Drops : (e : CacheEntry) (w : World out) → Drops e w (drop_rows out e w)
  unfolding drop_rows
  drop_rows-Drops e w = ground arith

  after_delete-Drops :
      (e : CacheEntry) (w : World out) (d : out.S × Deletion)
      → Drops e w (after_delete out e w.rows d)
  unfolding after_delete
  after_delete-Drops e w (s, unreachable) = refl
  after_delete-Drops e w (s, deleted) = drop_rows-Drops e (record w { engine = s })
  after_delete-Drops e w (s, refused) = drop_rows-Drops e (record w { engine = s })

  evict_live-Drops :
      (e : CacheEntry) (id : ℕ) (owned : Option Bool) (w : World out)
      → Drops e w (evict_live out e id owned w)
  unfolding evict_live
  evict_live-Drops e id none w = refl
  evict_live-Drops e id (some false) w = drop_rows-Drops e w
  evict_live-Drops e id (some true) w = after_delete-Drops e w (out.delete id w.engine)

  evict_found-Drops :
      (e : CacheEntry) (id : Option ℕ) (w : World out) → Drops e w (evict_found out e id w)
  unfolding evict_found
  evict_found-Drops e none w =
      drop_rows-Drops e (record w { engine = out.remove_by_name e w.engine })
  evict_found-Drops e (some id) w = evict_live-Drops e id (out.owns id w.engine) w

  evict_attached-Drops :
      (e : CacheEntry) (ids : Option (List (Text × ℕ))) (w : World out)
      → Drops e w (evict_attached out e ids w)
  unfolding evict_attached
  evict_attached-Drops e none w = refl
  evict_attached-Drops e (some ids) w = evict_found-Drops e (live_id ids (to_lower e.info_hash)) w

  evict_if-Drops : (on : Bool) (e : CacheEntry) (w : World out) → Drops e w (evict_if out on e w)
  unfolding evict_if
  evict_if-Drops true e w = evict_attached-Drops e (out.live w.engine) w
  evict_if-Drops false e w = drop_rows-Drops e w

  -- An eviction without error removes from the record exactly the rows of its torrent, whatever the
  -- engine answers; one that fails leaves the record as it was.
  pub evict-Drops : (e : CacheEntry) (w : World out) → Drops e w (evict out e w)
  unfolding evict
  evict-Drops e w = evict_if-Drops out.attached e w

  -- A row of another torrent than those in a list.
  abbrev pub Elsewhere : CacheEntry → List CacheEntry → Type 0
  Elsewhere row = All (λ (e : CacheEntry). text_eq row.info_hash e.info_hash ≡ false)

  mem-drop :
      (row : CacheEntry) (h : Text) (rows : List CacheEntry)
      → text_eq row.info_hash h ≡ false
      → Mem row rows
      → Mem row (drop_torrent_cache h rows)
  unfolding drop_torrent_cache
  mem-drop row h rows other m = (mem-keep _ rows).1 (m, ap not other)

  settle-mem :
      (row : CacheEntry) (freed : Text → ℕ) (e : CacheEntry) (p : Progress out)
      (r : World out × Bool)
      → Drops e p.world r
      → text_eq row.info_hash e.info_hash ≡ false
      → Mem row p.world.rows
      → Mem row (settle out freed e p r).world.rows
  unfolding settle
  settle-mem row freed e p (w, true) d other m =
      rw d (mem-drop row e.info_hash p.world.rows other m)
  settle-mem row freed e p (w, false) d other m = rw d m

  evict_loop-mem :
      (row : CacheEntry) (target : ℤ) (freed : Text → ℕ) (order : List CacheEntry)
      (p : Progress out)
      → Elsewhere row order
      → Mem row p.world.rows
      → Mem row (evict_loop out target freed order p).world.rows
  unfolding evict_loop evict_next
  evict_loop-mem row target freed [] p other m = m
  evict_loop-mem row target freed (e ∷ order) p other m =
      elim (Bool-cases (leb_ℤ p.report.after target)) [
        | inl under ↦ rw under m
        | inr over ↦ rw over (elim (Bool-cases (has e.info_hash p.gone)) [
          | inl gone ↦ rw gone (evict_loop-mem row target freed order p other.1 m)
          | inr here ↦ rw here (
              evict_loop-mem row target freed order _ other.1
                (settle-mem row freed e p _ (evict-Drops e p.world) other.0 m))
        ])
      ]

  -- A row of a torrent that the order does not list stays on record.
  pub evict_down_to-mem :
      (row : CacheEntry) (target : ℤ) (freed : Text → ℕ) (order : List CacheEntry)
      (rep : SweepReport out) (w : World out)
      → Elsewhere row order
      → Mem row w.rows
      → Mem row (evict_down_to out target freed order rep w).1.rows
  unfolding evict_down_to
  evict_down_to-mem row target freed order rep w other m =
      evict_loop-mem row target freed order _ other m
