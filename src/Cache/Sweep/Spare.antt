-- ===== src/Cache/Sweep/Spare.antt =====
-- What `Sweep` and `MakeRoom` leave on record.
use mathlib.Core.Bool.{true≢false, Bool-set}
use mathlib.Core.List.{mem-cons, not-mem-nil}
use mathlib.Core.Logic.Or
use kuro.Strings.{atoi}
use kuro.Base.{
  ℕ, ◌≡◌, refl, sym, ap, ◌∙◌, ◌⊎◌, inl, inr, Bool, true, false, not, ◌&&◌, ◌||◌, List, [], ◌∷◌, Mem,
  none, some, Text, text_eq, text_eq_iff, text_eq_refl, to_lower, has, any, All-of_mem, mem-keep,
  Bool-cases, leb, ◌==◌, arith,
}
use kuro.Base.Int.{pos, leb_ℤ, ◌-ℤ◌}
use kuro.Cache.Entry.{CacheEntry, cache_usage, same_torrent}
use kuro.Cache.Order.{EpisodeRef, in_progress, holds, held, eviction_order, torrent_bytes, sum_once}
use kuro.Cache.Order.Laws.{mem-eviction_order}
use kuro.Cache.Evict.{Outside, World}
use kuro.Cache.Evict.Laws.{Elsewhere, evict_down_to-mem}
use kuro.Cache.Sweep.{
  sweep_refreshed, make_room, make_room_watched, room_order, spared, is_watched, of_show,
}

-- A test on hashes that holds of the row's torrent and of none in the order keeps the two apart.
pub apart :
    (test : Text → Bool) (row e : CacheEntry)
    → test row.info_hash ≡ true
    → test e.info_hash ≡ false
    → text_eq row.info_hash e.info_hash ≡ false
apart test row e h k = elim (Bool-cases (text_eq row.info_hash e.info_hash)) [
  | inl same ↦
      absurd (true≢false (sym h ∙ ap test ((text_eq_iff row.info_hash e.info_hash).0 same) ∙ k))
  | inr other ↦ other
]

-- Why a file's whole torrent stays: it is pinned, in the library, the episode last played, or
-- unfinished and not stalled.
abbrev pub Protects : List Text → EpisodeRef → CacheEntry → Type 0
Protects stalled watching e =
    (e.pinned ≡ true)
    ⊎ (e.kept ≡ true)
    ⊎ ((e.anime_id ≡ some watching.anime_id) × (e.ep_key ≡ watching.ep_key))
    ⊎ ((e.complete ≡ false) × (has (to_lower e.info_hash) stalled ≡ false))

-- An episode of the show that is not watched, or a file that has no number.
abbrev pub Unwatched : ℕ → (ℕ → Bool) → CacheEntry → Type 0
Unwatched anime watched e =
    (e.anime_id ≡ some anime)
    × ((atoi e.ep_key ≡ none) ⊎ ((n : ℕ) × (atoi e.ep_key ≡ some n) × (watched n ≡ false)))

in_progress-eq :
    (watching : EpisodeRef) (e : CacheEntry)
    → e.anime_id ≡ some watching.anime_id
    → e.ep_key ≡ watching.ep_key
    → in_progress watching e ≡ true
unfolding in_progress
in_progress-eq watching e a k = rw a (rw (k, text_eq_refl watching.ep_key) (ground arith))

Protects-holds :
    (stalled : List Text) (watching : EpisodeRef) (e : CacheEntry)
    → Protects stalled watching e
    → holds stalled watching e ≡ true
unfolding holds
Protects-holds stalled watching e h = ground (arith, in_progress-eq watching e)

pub both : {a b : Bool} → a ≡ true → b ≡ true → (a && b) ≡ true
both h k = ground arith

of_show-eq : (anime : ℕ) (e : CacheEntry) → e.anime_id ≡ some anime → of_show anime e ≡ true
of_show-eq anime e h = rw h (ground arith)

Unwatched-is_watched :
    (anime : ℕ) (watched : ℕ → Bool) (e : CacheEntry)
    → Unwatched anime watched e
    → is_watched watched e ≡ false
unfolding is_watched
Unwatched-is_watched anime watched e h = elim h.1 [
  | inl none_such ↦ rw (none_such, is_watched) refl
  | inr (n, read, no') ↦ rw (read, is_watched) no'
]

pub any-mem {ℓ} :
    {A : Type ℓ} (p : A → Bool) (xs : List A) {x : A} → Mem x xs → p x ≡ true → any p xs ≡ true
any-mem p [] m h = absurd (not-mem-nil m)
any-mem p (y ∷ ys) {x} m h =
    Or.elim (Bool-set _ _) (mem-cons.0 m) (λ e. rw (ap p (sym e) ∙ h) refl)
      (λ tail. rw (any-mem p ys tail h) (ground arith))

module _ (out : Outside) (budget : ℕ) (stalled : List Text) (watching : EpisodeRef) (w : World out)
    (row : CacheEntry) (member : Mem row w.rows) where
  held-Elsewhere :
      held w.rows stalled watching row.info_hash ≡ true
      → (e : CacheEntry) → Mem e (eviction_order w.rows stalled watching)
      → text_eq row.info_hash e.info_hash ≡ false
  held-Elsewhere h e m =
      apart (held w.rows stalled watching) row e h
        ((mem-eviction_order w.rows stalled watching).0 m).1

  sweep-held :
      held w.rows stalled watching row.info_hash ≡ true
      → Mem row (sweep_refreshed out budget stalled watching w).1.rows
  unfolding sweep_refreshed
  sweep-held h =
      elim (Bool-cases (
        (cache_usage budget w.rows).budget == 0
        || leb (cache_usage budget w.rows).bytes (cache_usage budget w.rows).budget)) [
          | inl within ↦ rw within member
          | inr over ↦ rw over (
              evict_down_to-mem out row _ (torrent_bytes w.rows)
                (eviction_order w.rows stalled watching) _ w (All-of_mem _ (held-Elsewhere h))
                member)
        ]

  module _ (need anime : ℕ) where
    room-Elsewhere :
        (watched : ℕ → Bool)
        → (held w.rows stalled watching row.info_hash ≡ true)
          ⊎ (spared w.rows anime watched row.info_hash ≡ true)
        → Elsewhere out row (room_order w.rows stalled watching anime watched)
    unfolding room_order
    room-Elsewhere watched h = All-of_mem _ λ e m.
        let (listed, free) = (mem-keep _ _).0 m in
        elim h [
          | inl is_held ↦ held-Elsewhere is_held e listed
          | inr is_spared ↦ apart (spared w.rows anime watched) row e is_spared (ground arith)
        ]

    make_room_watched_spares :
        (watched : ℕ → Bool)
        → (held w.rows stalled watching row.info_hash ≡ true)
          ⊎ (spared w.rows anime watched row.info_hash ≡ true)
        → Mem row (make_room_watched out budget stalled watching need anime watched w).1.rows
    unfolding make_room_watched
    make_room_watched_spares watched h =
        elim (Bool-cases (
          leb_ℤ
            (pos (cache_usage budget w.rows).bytes
              -ℤ pos (
                  sum_once (torrent_bytes w.rows) []
                    (room_order w.rows stalled watching anime watched)))
            (pos budget -ℤ pos need))) [
              | inl enough ↦ rw enough (
                  evict_down_to-mem out row _ (torrent_bytes w.rows) _ _ w
                    (room-Elsewhere watched h) member)
              | inr short ↦ rw short member
            ]

    make_room-held :
        (watched : ℕ → Bool)
        → (held w.rows stalled watching row.info_hash ≡ true)
          ⊎ (spared w.rows anime watched row.info_hash ≡ true)
        → Mem row (make_room out budget stalled watching need anime (some watched) w).1.rows
    unfolding make_room
    make_room-held watched h =
        elim (Bool-cases
          (budget == 0 || leb_ℤ (pos (cache_usage budget w.rows).bytes) (pos budget -ℤ pos need))) [
            | inl within ↦ rw within member
            | inr over ↦ rw over (make_room_watched_spares watched h)
          ]

module _ (out : Outside) (budget : ℕ) (stalled : List Text) (watching : EpisodeRef) (w : World out)
    (row other : CacheEntry) (row_member : Mem row w.rows) (other_member : Mem other w.rows)
    (same : other.info_hash ≡ row.info_hash) where
  Protects-held :
      Protects stalled watching other → held w.rows stalled watching row.info_hash ≡ true
  unfolding held
  Protects-held h =
      any-mem (λ e. same_torrent row.info_hash e && holds stalled watching e) w.rows other_member
        (both ((text_eq_iff other.info_hash row.info_hash).1 same)
          (Protects-holds stalled watching other h))

  Unwatched-spared :
      (anime : ℕ) (watched : ℕ → Bool)
      → Unwatched anime watched other
      → spared w.rows anime watched row.info_hash ≡ true
  unfolding spared
  Unwatched-spared anime watched h =
      any-mem (λ e. same_torrent row.info_hash e && (of_show anime e && not (is_watched watched e)))
        w.rows other_member
        (both ((text_eq_iff other.info_hash row.info_hash).1 same)
          (both (of_show-eq anime other h.0) (ap not (Unwatched-is_watched anime watched other h))))

  -- Once its refresh is done, `Sweep` drops no row of a torrent of which one file, as the refresh left
  -- it, is pinned, in the library, the episode last played, or unfinished and not stalled, whatever the
  -- engine answers.
  pub sweep_spares :
      Protects stalled watching other
      → Mem row (sweep_refreshed out budget stalled watching w).1.rows
  sweep_spares h = sweep-held out budget stalled watching w row row_member (Protects-held h)

  -- `MakeRoom` never drops a row of a torrent that the sweep would spare, nor one of a torrent with a
  -- file of the show that is an episode not watched yet or has no number, whatever the engine answers.
  pub make_room_spares :
      (need anime : ℕ) (watched : ℕ → Bool)
      → Protects stalled watching other ⊎ Unwatched anime watched other
      → Mem row (make_room out budget stalled watching need anime (some watched) w).1.rows
  make_room_spares need anime watched h =
      make_room-held out budget stalled watching w row row_member need anime watched
        (elim h [ inl p ↦ inl (Protects-held p) | inr u ↦ inr (Unwatched-spared anime watched u) ])
