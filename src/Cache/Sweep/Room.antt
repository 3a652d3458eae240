-- ===== src/Cache/Sweep/Room.antt =====
-- How far `Sweep` and `MakeRoom` get, when no eviction fails.
use mathlib.Core.Bool.{true≢false}
use kuro.Base.{
  ℕ, ◌+◌, ◌≡◌, refl, sym, ap, ◌∙◌, ◌⊎◌, inl, inr, Bool, true, false, ◌||◌, List, [], ◌∷◌, Text,
  some, Bool-cases, leb, ◌==◌, arith,
}
use kuro.Base.Int.{ℤ, pos, pos_part, neg_part, leb_ℤ, ◌-ℤ◌, -ℤ_parts}
use kuro.Cache.Entry.{CacheEntry, CacheUsage, count_entry, count_entries, cache_usage}
use kuro.Cache.Order.{EpisodeRef, eviction_order, torrent_bytes, sum_once}
use kuro.Cache.Evict.{Outside, World, evict_down_to}
use kuro.Cache.Evict.Account.{IsReliable, evict_down_to-Balances, evict_down_to-Ends}
use kuro.Cache.Sweep.{sweep_refreshed, make_room, make_room_watched, room_order, initial_report}

budget-count_entries :
    (u : CacheUsage) (es : List CacheEntry) → (count_entries u es).budget ≡ u.budget
unfolding count_entries
budget-count_entries u [] = refl
budget-count_entries u (e ∷ es) = budget-count_entries (count_entry u e) es ∙ ground arith

pub budget-cache_usage : (b : ℕ) (es : List CacheEntry) → (cache_usage b es).budget ≡ b
unfolding cache_usage
budget-cache_usage b es = budget-count_entries _ es

retarget : (x : ℤ) {b c : ℕ} → b ≡ c → leb_ℤ x (pos b) ≡ true → leb_ℤ x (pos c) ≡ true
retarget x e h = ground arith

reaches :
    (x target : ℤ) (bytes freed available : ℕ)
    → pos_part x + freed ≡ bytes + neg_part x
    → (leb_ℤ x target ≡ true) ⊎ (freed ≡ available)
    → leb_ℤ (pos bytes -ℤ pos available) target ≡ true
    → leb_ℤ x target ≡ true
reaches x target bytes freed available sum end ok =
    ground (arith, -ℤ_parts (pos bytes) (pos available))

module _ (out : Outside) (budget : ℕ) (stalled : List Text) (watching : EpisodeRef)
    (w : World out) where
  abbrev used : ℕ
  used = (cache_usage budget w.rows).bytes

  -- What the evictable torrents hold.
  abbrev pub evictable_bytes : ℕ
  evictable_bytes = sum_once (torrent_bytes w.rows) [] (eviction_order w.rows stalled watching)

  run_outcome :
      (reliable : IsReliable out) (target : ℤ) (freed : Text → ℕ) (order : List CacheEntry)
      (usage : CacheUsage)
      → let r = (evict_down_to out target freed order (initial_report out usage) w).0 in
        (pos_part r.after + r.freed ≡ usage.bytes + neg_part r.after)
        × ((leb_ℤ r.after target ≡ true) ⊎ (r.freed ≡ sum_once freed [] order))
  run_outcome reliable target freed order usage =
      let b =
        evict_down_to-Balances out target freed order (initial_report out usage) w (omega arith) in
      let (same, end) =
        evict_down_to-Ends out reliable target freed order (initial_report out usage) w in
      (
        omega (arith, b, ap pos_part same, ap neg_part same),
        elim end [ inl under ↦ inl under | inr all ↦ inr (omega (arith, all)) ],
      )

  -- If no eviction fails, the bytes left and the bytes freed that a sweep reports add up to those
  -- before, and there is no budget, or it is met, or all that may go is gone.
  pub sweep_outcome :
      (reliable : IsReliable out)
      → let r = (sweep_refreshed out budget stalled watching w).0 in
        (pos_part r.after + r.freed ≡ (cache_usage budget w.rows).bytes + neg_part r.after)
        × ((budget ≡ 0) ⊎ (leb_ℤ r.after (pos budget) ≡ true) ⊎ (r.freed ≡ evictable_bytes))
  unfolding sweep_refreshed
  sweep_outcome reliable =
      elim (Bool-cases (
        (cache_usage budget w.rows).budget == 0
        || leb (cache_usage budget w.rows).bytes (cache_usage budget w.rows).budget)) [
          | inl within ↦ rw within (omega arith, ground (arith, budget-cache_usage budget w.rows))
          | inr over ↦
              let (sum, end) =
                run_outcome reliable (pos (cache_usage budget w.rows).budget) (torrent_bytes w.rows)
                  (eviction_order w.rows stalled watching) (cache_usage budget w.rows) in
              let r =
                (evict_down_to out (pos (cache_usage budget w.rows).budget) (torrent_bytes w.rows)
                  (eviction_order w.rows stalled watching)
                  (initial_report out (cache_usage budget w.rows)) w).0 in
              rw over (
                sum,
                inr (elim end [
                  | inl under ↦ inl (retarget r.after (budget-cache_usage budget w.rows) under)
                  | inr all ↦ inr all
                ]),
              )
        ]

  -- Whether there is no budget, or the room is there already.
  abbrev pub fits_already : ℕ → Bool
  fits_already need =
      budget == 0 || leb_ℤ (pos (cache_usage budget w.rows).bytes) (pos budget -ℤ pos need)

  module _ (need anime : ℕ) (watched : ℕ → Bool) where
    -- Whether the torrents that may go hold enough.
    abbrev pub enough : Bool
    enough =
        leb_ℤ
          (pos (cache_usage budget w.rows).bytes
            -ℤ pos (
                sum_once (torrent_bytes w.rows) []
                  (room_order w.rows stalled watching anime watched)))
          (pos budget -ℤ pos need)

    room_reached :
        (reliable : IsReliable out)
        → enough ≡ true
        → leb_ℤ
            (evict_down_to out
              (pos budget -ℤ pos need)
              (torrent_bytes w.rows)
              (room_order w.rows stalled watching anime watched)
              (initial_report out (cache_usage budget w.rows))
              w).0.after
            (pos budget -ℤ pos need)
          ≡ true
    room_reached reliable ok =
        let order = room_order w.rows stalled watching anime watched in
        let (sum, end) =
          run_outcome reliable (pos budget -ℤ pos need) (torrent_bytes w.rows) order
            (cache_usage budget w.rows) in
        reaches _ _ _ _ _ sum end ok

    watched_outcome :
        (reliable : IsReliable out)
        → let r = make_room_watched out budget stalled watching need anime watched w in
          (r.0 ≡ enough) × (r.0 ≡ false → r.1 ≡ w)
    unfolding make_room_watched
    watched_outcome reliable = elim (Bool-cases enough) [
      | inr short ↦ rw short (refl, λ _. refl)
      | inl ok ↦
          let reached = room_reached reliable ok in
          rw ok (reached, λ e. absurd (true≢false (sym reached ∙ e)))
    ]

  -- If no eviction fails, `MakeRoom` says yes exactly when the room is there or what may go is enough,
  -- and when it says no it has deleted nothing.
  pub make_room_outcome :
      (need anime : ℕ) (watched : ℕ → Bool) (reliable : IsReliable out)
      → let r = make_room out budget stalled watching need anime (some watched) w in
        (r.0 ≡ (fits_already need || enough need anime watched)) × (r.0 ≡ false → r.1 ≡ w)
  unfolding make_room
  make_room_outcome need anime watched reliable = elim (Bool-cases (fits_already need)) [
    | inl within ↦ rw within (refl, λ _. refl)
    | inr over ↦ rw over (watched_outcome need anime watched reliable)
  ]
