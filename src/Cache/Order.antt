-- ===== src/Cache/Order.antt =====
-- internal/library/cache.go: `evictionOrder` and `torrentBytes`.
pub mod Laws
use kuro.Base.{
  ℕ, ◌+◌, max, Bool, true, false, not, ◌&&◌, ◌||◌, List, [], ◌∷◌, ◌++◌, Option, none, some, Text,
  text_eq, to_lower, has, any, keep, leb, ltb, ◌==◌, if◌then◌else◌,
}
use kuro.Cache.Entry.{CacheEntry, same_torrent}

-- What evicting a torrent frees: the map of `torrentBytes`, read at a hash.
unfoldable pub torrent_bytes : List CacheEntry → Text → ℕ
torrent_bytes [] h = 0
torrent_bytes (e ∷ rest) h =
    if same_torrent h e then e.bytes + torrent_bytes rest h else torrent_bytes rest h

-- The zero value names no episode.
pub record EpisodeRef : Type 0 where
  pub anime_id : ℕ
  pub ep_key : Text

unfoldable pub in_progress : EpisodeRef → CacheEntry → Bool
in_progress watching e = elim e.anime_id [
  | none ↦ false
  | some id ↦ id == watching.anime_id && text_eq e.ep_key watching.ep_key
]

-- An entry that holds back its whole torrent.
unfoldable pub holds : List Text → EpisodeRef → CacheEntry → Bool
holds stalled watching e =
    e.pinned
    || e.kept
    || in_progress watching e
    || not e.complete && not (has (to_lower e.info_hash) stalled)

-- The map `held`, read at a hash.
unfoldable pub held : List CacheEntry → List Text → EpisodeRef → Text → Bool
held entries stalled watching h = any (λ e. same_torrent h e && holds stalled watching e) entries

-- The map `latest`, read at a hash.
unfoldable pub latest : List CacheEntry → Text → ℕ
latest [] h = 0
latest (e ∷ rest) h = if same_torrent h e then max e.last_played (latest rest h) else latest rest h

-- `slices.SortStableFunc` by a number: elements of the same key keep their order.
insert_by {ℓ} : {A : Type ℓ} → (A → ℕ) → A → List A → List A
insert_by key x [] = x ∷ []
insert_by key x (y ∷ ys) = if leb (key x) (key y) then x ∷ y ∷ ys else y ∷ insert_by key x ys

unfoldable pub sort_stable {ℓ} : {A : Type ℓ} → (A → ℕ) → List A → List A
unfolding insert_by
sort_stable key [] = []
sort_stable key (x ∷ xs) = insert_by key x (sort_stable key xs)

unfoldable pub evictable : List CacheEntry → List Text → EpisodeRef → Bool → List CacheEntry
evictable entries stalled watching protected =
    keep
      (λ e.
        not (held entries stalled watching e.info_hash)
        && (if protected then e.protected else not e.protected))
      entries

unfoldable pub eviction_order : List CacheEntry → List Text → EpisodeRef → List CacheEntry
eviction_order entries stalled watching =
    let by_age = sort_stable (λ (e : CacheEntry). latest entries e.info_hash) in
    by_age (evictable entries stalled watching false)
    ++ by_age (evictable entries stalled watching true)

-- What `MakeRoom` can free: the bytes of the torrents in an order, each counted once; `counted` are the ones seen.
unfoldable pub sum_once : (Text → ℕ) → List Text → List CacheEntry → ℕ
sum_once freed counted [] = 0
sum_once freed counted (e ∷ order) =
    let seen = has e.info_hash counted in
    let rest = sum_once freed (if seen then counted else e.info_hash ∷ counted) order in
    if seen then rest else freed e.info_hash + rest
