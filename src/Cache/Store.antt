-- ===== src/Cache/Store.antt =====
-- internal/store/cache.go: the statements that change the table `cache_entry`, on its rows.
-- The table `torrent`, whose row goes with the last entry of a torrent, is not modelled.
pub mod Laws
use kuro.Base.{
  ℕ, Bool, true, false, not, ◌&&◌, List, map, any, keep, Text, text_eq, ◌==◌, if◌then◌else◌,
}
use kuro.Cache.Entry.{CacheEntry, same_torrent}

abbrev pub same_file : Text → ℕ → CacheEntry → Bool
same_file h i e = text_eq e.info_hash h && e.file_index == i

-- `UPDATE cache_entry SET … WHERE …`
update_where : (CacheEntry → Bool) → (CacheEntry → CacheEntry) → List CacheEntry → List CacheEntry
update_where p f = map (λ e. if p e then f e else e)

unfoldable pub drop_torrent_cache : Text → List CacheEntry → List CacheEntry
drop_torrent_cache h rows = keep (λ e. not (same_torrent h e)) rows

unfoldable pub drop_cache_entry : Text → ℕ → List CacheEntry → List CacheEntry
drop_cache_entry h i rows = keep (λ e. not (same_file h i e)) rows

-- The Boolean is `RowsAffected() > 0`.
unfoldable pub keep_file : Text → ℕ → Bool → List CacheEntry → List CacheEntry × Bool
unfolding update_where
keep_file h i kept rows =
    (update_where (same_file h i) (λ e. record e { kept = kept }) rows, any (same_file h i) rows)

unfoldable pub keep_download : Text → Bool → List CacheEntry → List CacheEntry × Bool
unfolding update_where
keep_download h kept rows =
    (update_where (same_torrent h) (λ e. record e { kept = kept }) rows, any (same_torrent h) rows)

unfoldable pub set_cache_bytes : Text → ℕ → ℕ → Bool → List CacheEntry → List CacheEntry
unfolding update_where
set_cache_bytes h i bytes complete =
    update_where (same_file h i) (λ e. record e { bytes = bytes; complete = complete })

unfoldable pub pin_cache : Text → ℕ → Bool → ℕ → List CacheEntry → List CacheEntry
unfolding update_where
pin_cache h i pinned now =
    update_where (same_file h i) (λ e. record e { pinned = pinned; last_played = now })

unfoldable pub unpin_all : List CacheEntry → List CacheEntry
unfolding update_where
unpin_all = update_where (λ _. true) (λ e. record e { pinned = false })

unfoldable pub pin_only : Text → ℕ → ℕ → List CacheEntry → List CacheEntry
unfolding update_where
pin_only h i now rows =
    update_where (same_file h i) (λ e. record e { pinned = true; last_played = now })
      (update_where (λ e. e.pinned && not (same_file h i e)) (λ e. record e { pinned = false })
        rows)
