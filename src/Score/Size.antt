-- ===== src/Score/Size.antt =====
-- The size that one episode costs, and the limit it is held to.
use kuro.Base.{ℕ, suc, ◌*◌, ◌/◌, ◌≤◌, ◌<◌, ◌≡◌, true, none, arith}
use kuro.Score.Float.{Float}
use kuro.Score.Tier.{Preferences}
use kuro.Score.Candidate.{Candidate, size_limit, episode_bytes, share_count, nominal_runtime}

-- The limit is never below the one set, whatever the rounding, and is the one set for an episode of
-- nominal length or shorter and where none is set.
pub size_limit_bounds :
    (fl : Float) (c : Candidate) (prefs : Preferences)
    → (prefs.max_auto_bytes ≤ size_limit fl c prefs)
      × (c.runtime_minutes ≤ nominal_runtime → size_limit fl c prefs ≡ prefs.max_auto_bytes)
      × (prefs.max_auto_bytes ≡ 0 → size_limit fl c prefs ≡ 0)
unfolding size_limit
size_limit_bounds fl c prefs = (ground arith, ground arith, ground arith)

div_le : (n k : ℕ) → n / k ≤ n
div_le n k = grind arith

div_bounds : (n k : ℕ) → 2 ≤ k → (n / k * k ≤ n) × (n < suc (n / k) * k)
div_bounds n k h = (grind arith, grind arith)

-- What one episode costs is never more than the torrent; of a pack of a show it is the torrent's size
-- shared among its episodes, rounded down.
pub episode_bytes_share :
    (c : Candidate)
    → (episode_bytes c ≤ c.torrent.size)
      × (c.film ≡ none
          → c.release.batch ≡ true
          → 2 ≤ share_count c
          → (episode_bytes c * share_count c ≤ c.torrent.size)
            × (c.torrent.size < suc (episode_bytes c) * share_count c))
unfolding episode_bytes
episode_bytes_share c = (
  ground (arith, div_le c.torrent.size (share_count c), div_le c.torrent.size),
  λ f b h.
      let e : episode_bytes c ≡ c.torrent.size / share_count c = ground arith in
      rw e (div_bounds c.torrent.size (share_count c) h),
)
