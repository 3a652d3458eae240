-- ===== src/Cache/Entry.antt =====
-- The rows that `CacheEntries` of internal/store/cache.go returns, and what `CacheUsage` adds up.
-- Byte counts and times are int64 values that are not negative and whose sums do not overflow.
use kuro.Base.{ℕ, ◌+◌, Bool, List, [], ◌∷◌, Option, Text, text_eq, length, if◌then◌else◌}

pub record CacheEntry : Type 0 where
  pub info_hash : Text
  pub file_index : ℕ
  pub bytes : ℕ
  pub complete : Bool
  pub pinned : Bool
  pub kept : Bool
  -- The show is being watched.
  pub protected : Bool
  pub anime_id : Option ℕ
  pub ep_key : Text
  pub last_played : ℕ
  pub name : Text

-- `WholeTorrent` is -1 in the code; file indices are shifted by one here.
abbrev pub whole_torrent : ℕ
whole_torrent = 0

abbrev pub same_torrent : Text → CacheEntry → Bool
same_torrent h e = text_eq e.info_hash h

pub record CacheUsage : Type 0 where
  pub bytes : ℕ
  pub budget : ℕ
  pub files : ℕ
  pub pinned : ℕ
  pub kept : ℕ
  pub kept_bytes : ℕ
  pub entries : List CacheEntry

-- One round of the loop of `CacheUsage`.
unfoldable pub count_entry : CacheUsage → CacheEntry → CacheUsage
count_entry u e =
    let u' = record u { pinned = if e.pinned then u.pinned + 1 else u.pinned } in
    if e.kept
    then record u' { kept = u.kept + 1; kept_bytes = u.kept_bytes + e.bytes }
    else record u' { bytes = u.bytes + e.bytes }

unfoldable pub count_entries : CacheUsage → List CacheEntry → CacheUsage
unfolding count_entry
count_entries u [] = u
count_entries u (e ∷ rest) = count_entries (count_entry u e) rest

-- A budget that is not positive is 0 here.
unfoldable pub cache_usage : ℕ → List CacheEntry → CacheUsage
unfolding count_entries
cache_usage budget entries =
    count_entries
      (record {
        bytes = 0;
        budget = budget;
        files = length entries;
        pinned = 0;
        kept = 0;
        kept_bytes = 0;
        entries = entries;
      })
      entries
