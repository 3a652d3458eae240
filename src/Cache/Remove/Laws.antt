-- ===== src/Cache/Remove/Laws.antt =====
-- internal/library/cache.go: what `Remove` does with a download that is on record.
use kuro.Base.{
  ℕ, ◌+◌, ◌≡◌, refl, ap, ◌∙◌, ◌⊎◌, inl, inr, Bool, true, false, ◌&&◌, ◌||◌, List, [], ◌∷◌, Option,
  none, some, Text, equal_fold, any, keep, Bool-cases, if◌then◌else◌, arith,
}
use kuro.Cache.Entry.{CacheEntry}
use kuro.Cache.Store.{drop_torrent_cache}
use kuro.Cache.Store.Laws.{sum_bytes}
use kuro.Cache.Evict.{Outside, World, Deletion, deleted, unreachable, refused, evict}
use kuro.Cache.Evict.Laws.{Drops, evict-Drops}
use kuro.Cache.Sweep.{bare}
use kuro.Cache.Remove.{
  delete_untracked, remove_owned, remove_listed, find_live, Removal, removed, playing, failed, scan,
  remove, remove_scanned, remove_evicted,
}

abbrev pub of_download : Text → CacheEntry → Bool
of_download hash e = equal_fold e.info_hash hash

-- A file of the download is playing.
abbrev pub plays : Text → List CacheEntry → Bool
plays hash rows = any (λ e. of_download hash e && e.pinned) rows

scan-plays :
    (hash : Text) (freed : ℕ) (found : Bool) (rows : List CacheEntry)
    → plays hash rows ≡ true
    → scan hash freed found rows ≡ none
unfolding scan
scan-plays hash freed found [] h = cc
scan-plays hash freed found (e ∷ rows) h =
    let rest =
      scan-plays hash (if of_download hash e then freed + e.bytes else freed)
        (of_download hash e || found) rows in
    ground (arith, rest)

scan-idle :
    (hash : Text) (freed : ℕ) (found : Bool) (rows : List CacheEntry)
    → plays hash rows ≡ false
    → scan hash freed found rows
      ≡ some
          (freed + sum_bytes (keep (of_download hash) rows), found || any (of_download hash) rows)
unfolding scan
scan-idle hash freed found [] h = ground arith
scan-idle hash freed found (e ∷ rows) h =
    let rest =
      scan-idle hash (if of_download hash e then freed + e.bytes else freed)
        (of_download hash e || found) rows in
    ground (arith, rest)

-- A file of the download is on record.
abbrev pub tracked : Text → List CacheEntry → Bool
tracked hash rows = any (of_download hash) rows

scan-first :
    (hash : Text) (rows : List CacheEntry)
    → plays hash rows ≡ false
    → scan hash 0 false rows ≡ some (sum_bytes (keep (of_download hash) rows), tracked hash rows)
scan-first hash rows idle =
    scan-idle hash 0 false rows idle ∙ ap (λ n. some (n, tracked hash rows)) (omega arith)

module _ (out : Outside) where
  -- What is left of a download after its removal was asked for.
  abbrev pub Outcome : Text → World out → Removal × World out → Type 0
  Outcome hash w (answer, w') =
      (plays hash w.rows ≡ true) × (answer ≡ playing) × (w' ≡ w)
      ⊎ (plays hash w.rows ≡ false)
        × (tracked hash w.rows ≡ true)
        × (answer ≡ removed (sum_bytes (keep (of_download hash) w.rows)))
        × (w'.rows ≡ drop_torrent_cache hash w.rows)
      ⊎ (plays hash w.rows ≡ false)
        × (tracked hash w.rows ≡ true)
        × (answer ≡ failed)
        × (w'.rows ≡ w.rows)
      ⊎ (plays hash w.rows ≡ false) × (tracked hash w.rows ≡ false) × (w'.rows ≡ w.rows)

  remove_evicted-Outcome :
      (hash : Text) (w : World out) (r : World out × Bool)
      → plays hash w.rows ≡ false
      → tracked hash w.rows ≡ true
      → Drops out (bare out hash) w r
      → Outcome hash w (remove_evicted out (sum_bytes (keep (of_download hash) w.rows)) r)
  unfolding remove_evicted
  remove_evicted-Outcome hash w (w', true) idle known drops = inr (inl (idle, known, refl, drops))
  remove_evicted-Outcome hash w (w', false) idle known drops =
      inr (inr (inl (idle, known, refl, drops)))

  delete_untracked-rows :
      (rows : List CacheEntry) (d : out.S × Deletion) → (delete_untracked out rows d).1.rows ≡ rows
  unfolding delete_untracked
  delete_untracked-rows rows (s, deleted) = refl
  delete_untracked-rows rows (s, unreachable) = refl
  delete_untracked-rows rows (s, refused) = refl

  remove_owned-rows :
      (id : ℕ) (owned : Option Bool) (w : World out) → (remove_owned out id owned w).1.rows ≡ w.rows
  unfolding remove_owned
  remove_owned-rows id none w = refl
  remove_owned-rows id (some false) w = refl
  remove_owned-rows id (some true) w = delete_untracked-rows w.rows (out.delete id w.engine)

  remove_listed-rows : (id : Option ℕ) (w : World out) → (remove_listed out id w).1.rows ≡ w.rows
  unfolding remove_listed
  remove_listed-rows none w = refl
  remove_listed-rows (some id) w = remove_owned-rows id (out.owns id w.engine) w

  remove_busy-Outcome :
      (hash : Text) (w : World out) → plays hash w.rows ≡ true → Outcome hash w (remove out hash w)
  unfolding remove remove_scanned
  remove_busy-Outcome hash w busy =
      rw (scan-plays hash 0 false w.rows busy) (inl (busy, refl, refl))

  remove_idle-Outcome :
      (hash : Text) (w : World out) (known : Bool)
      → plays hash w.rows ≡ false
      → tracked hash w.rows ≡ known
      → Outcome hash w
          (remove_scanned out hash w (some (sum_bytes (keep (of_download hash) w.rows), known)))
  unfolding remove_scanned
  remove_idle-Outcome hash w true idle known =
      remove_evicted-Outcome hash w (evict out (bare out hash) w) idle known
        (evict-Drops out (bare out hash) w)
  remove_idle-Outcome hash w false idle known =
      inr (inr (inr (idle, known, remove_listed-rows (find_live out hash (out.live w.engine)) w)))

  -- Asked to remove a download, the cache ends in one of four ways. While a file of it plays, it
  -- refuses and changes nothing. Otherwise, when it has rows of the download, whatever the case of
  -- their hashes, it either reports the bytes of all those rows and drops the rows filed under the
  -- very hash it was given, or fails and leaves the rows as they were. Without such a row no row
  -- changes, whatever the engine does.
  pub remove-Outcome : (hash : Text) (w : World out) → Outcome hash w (remove out hash w)
  unfolding remove
  remove-Outcome hash w = elim (Bool-cases (plays hash w.rows)) [
    | inl busy ↦ remove_busy-Outcome hash w busy
    | inr idle ↦
        rw (scan-first hash w.rows idle)
          (remove_idle-Outcome hash w (tracked hash w.rows) idle refl)
  ]
