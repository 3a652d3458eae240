-- ===== src/Cache/Remove.antt =====
-- internal/library/cache.go: `Remove`, which a viewer asks for by the hash of a download.
pub mod Laws
use kuro.Base.{
  ℕ, ◌+◌, Bool, true, false, ◌||◌, List, [], ◌∷◌, Option, none, some, Text, equal_fold,
  if◌then◌else◌,
}
use kuro.Cache.Entry.{CacheEntry}
use kuro.Cache.Evict.{Outside, World, Deletion, deleted, unreachable, refused, evict}
use kuro.Cache.Sweep.{bare}

-- The scan of the rows, from what was found so far: none when a file of the download is pinned.
scan : Text → ℕ → Bool → List CacheEntry → Option (ℕ × Bool)
scan hash freed found [] = some (freed, found)
scan hash freed found (e ∷ rows) =
    let here = equal_fold e.info_hash hash in
    let rest = scan hash (if here then freed + e.bytes else freed) (here || found) rows in
    if here then if e.pinned then none else rest else rest

pub data Removal : Type 0 where
  removed : (freed : ℕ) → Removal
  -- "that episode is playing right now"
  playing : Removal
  -- "that download is not in kuro's cache folder"
  outside : Removal
  no_download : Removal
  -- Another error.
  failed : Removal

-- The loop of `liveID`.
live_match : Text → List (Text × ℕ) → Option ℕ
live_match hash [] = none
live_match hash ((k, id) ∷ rest) = if equal_fold k hash then some id else live_match hash rest

module _ (out : Outside) where
  open out use {S, attached, live, owns, delete}

  delete_untracked : List CacheEntry → S × Deletion → Removal × World out
  delete_untracked rows (s, deleted) = (removed 0, record { rows = rows; engine = s })
  delete_untracked rows (s, unreachable) = (failed, record { rows = rows; engine = s })
  delete_untracked rows (s, refused) = (failed, record { rows = rows; engine = s })

  remove_owned : ℕ → Option Bool → World out → Removal × World out
  unfolding delete_untracked
  remove_owned id none w = (failed, w)
  remove_owned id (some false) w = (outside, w)
  remove_owned id (some true) w = delete_untracked w.rows (delete id w.engine)

  remove_listed : Option ℕ → World out → Removal × World out
  unfolding remove_owned
  remove_listed none w = (no_download, w)
  remove_listed (some id) w = remove_owned id (owns id w.engine) w

  find_live : Text → Option (List (Text × ℕ)) → Option ℕ
  unfolding live_match
  find_live hash none = none
  find_live hash (some ids) = if attached then live_match hash ids else none

  remove_evicted : ℕ → World out × Bool → Removal × World out
  remove_evicted freed (w, true) = (removed freed, w)
  remove_evicted freed (w, false) = (failed, w)

  remove_scanned : Text → World out → Option (ℕ × Bool) → Removal × World out
  unfolding remove_listed find_live remove_evicted
  remove_scanned hash w none = (playing, w)
  remove_scanned hash w (some (freed, false)) = remove_listed (find_live hash (live w.engine)) w
  remove_scanned hash w (some (freed, true)) = remove_evicted freed (evict out (bare out hash) w)

  unfoldable pub remove : Text → World out → Removal × World out
  unfolding scan remove_scanned
  remove hash w = remove_scanned hash w (scan hash 0 false w.rows)
