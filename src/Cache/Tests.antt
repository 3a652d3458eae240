-- ===== src/Cache/Tests.antt =====
-- Runs of the cache on two torrents, with an engine that knows neither of them and counts deletions.
use mathlib.Core.List.{Pairwise, mem-cons_self}
use kuro.Base.{
  ℕ, suc, ◌*◌, ◌^◌, has, List, none, ◌+◌, ◌≡◌, ◌⊎◌, inl, inr, refl, Bool, true, false, ◌||◌, [],
  ◌∷◌, some, Text, text, text_eq, to_lower, Mem, keep, arith,
}
use kuro.Base.Int.{pos, pos_part, neg_part, leb_ℤ}
use kuro.Cache.Entry.{CacheEntry, cache_usage, whole_torrent}
use kuro.Cache.Order.{EpisodeRef, eviction_order, torrent_bytes}
use kuro.Cache.Order.Laws.{Earlier, eviction_order-Earlier}
use kuro.Cache.Evict.{Outside, World, deleted, live_id, evict, evict_down_to, SweepReport}
use kuro.Cache.Evict.Laws.{Drops, evict-Drops}
use kuro.Cache.Evict.Account.{IsReliable, Balances, evict_down_to-Balances}
use kuro.Cache.Remove.{remove}
use kuro.Cache.Remove.Laws.{Outcome, remove-Outcome}
use kuro.Cache.Sweep.{sweep_refreshed, make_room, auto_delete, vetoed}
use kuro.Cache.Sweep.Spare.{sweep_spares, make_room_spares}
use kuro.Cache.Sweep.Room.{evictable_bytes, fits_already, enough, sweep_outcome, make_room_outcome}
use kuro.Base.Maps.{lookup}
use kuro.Cache.Stall.{stalled}
use kuro.Cache.Stall.History.{Event, running, marks, holding, is_stale, stalled-history}
use kuro.Cache.Vanish.{Absence, State, forget_vanished}
use kuro.Cache.Vanish.Laws.{forget_vanished_spares}
use kuro.Cache.Sweep.Exact.{auto_delete-rows}
use kuro.Cache.Sweep.Delete.{auto_delete_spares}

abbrev lone : Outside
lone = record {
  S = ℕ;
  attached = true;
  live = λ s. some [];
  owns = λ id s. some true;
  delete = λ id s. (s, deleted);
  remove_by_name = λ e s. suc s;
  drop_fails = λ h s. false;
}

abbrev row_of : Text → ℕ → Bool → ℕ → CacheEntry
row_of hash bytes pinned played = record {
  info_hash = hash;
  file_index = whole_torrent;
  bytes = bytes;
  complete = true;
  pinned = pinned;
  kept = false;
  protected = false;
  anime_id = some 7;
  ep_key = text "3";
  last_played = played;
  name = text "Show";
}

abbrev favourite : CacheEntry
favourite = row_of (text "aa") 60 true 5

abbrev old : CacheEntry
old = row_of (text "bb") 80 false 1

abbrev full : World lone
full = record { rows = favourite ∷ old ∷ []; engine = 0 }

abbrev nothing_playing : EpisodeRef
nothing_playing = record { anime_id = 0; ep_key = [] }

abbrev start_report : SweepReport lone
start_report = record { before = pos 140; after = pos 140; budget = 100; evicted = 0; freed = 0 }

lone-IsReliable : IsReliable lone
unfolding evict live_id
lone-IsReliable e w = refl

sweep_spares_example : Mem favourite (sweep_refreshed lone 100 [] nothing_playing full).1.rows
sweep_spares_example =
    sweep_spares lone 100 [] nothing_playing full favourite favourite mem-cons_self mem-cons_self
      refl (inl refl)

make_room_spares_example :
    Mem favourite (make_room lone 100 [] nothing_playing 30 7 (some (λ n. true)) full).1.rows
make_room_spares_example =
    make_room_spares lone 100 [] nothing_playing full favourite favourite mem-cons_self
      mem-cons_self refl 30 7 (λ n. true) (inl (inl refl))

sweep_outcome_example :
    let limit : ℕ = 100 in
    let r = (sweep_refreshed lone 100 [] nothing_playing full).0 in
    (pos_part r.after + r.freed ≡ (cache_usage 100 full.rows).bytes + neg_part r.after)
    × ((limit ≡ 0)
        ⊎ (leb_ℤ r.after (pos 100) ≡ true)
        ⊎ (r.freed ≡ evictable_bytes lone 100 [] nothing_playing full))
sweep_outcome_example = sweep_outcome lone 100 [] nothing_playing full lone-IsReliable

make_room_outcome_example :
    let r = make_room lone 100 [] nothing_playing 30 7 (some (λ n. true)) full in
    (r.0 ≡ (
      fits_already lone 100 [] nothing_playing full 30
      || enough lone 100 [] nothing_playing full 30 7 (λ n. true)))
    × (r.0 ≡ false → r.1 ≡ full)
make_room_outcome_example =
    make_room_outcome lone 100 [] nothing_playing full 30 7 (λ n. true) lone-IsReliable

eviction_order-Earlier_example :
    Pairwise (Earlier full.rows [] nothing_playing) (eviction_order full.rows [] nothing_playing)
eviction_order-Earlier_example = eviction_order-Earlier full.rows [] nothing_playing

evict-Drops_example : Drops lone old full (evict lone old full)
evict-Drops_example = evict-Drops lone old full

evict_down_to-Balances_example :
    Balances lone
      (evict_down_to lone (pos 100) (torrent_bytes full.rows) (old ∷ []) start_report full).0
evict_down_to-Balances_example =
    evict_down_to-Balances lone (pos 100) (torrent_bytes full.rows) (old ∷ []) start_report full
      (omega arith)

auto_delete_spares_example :
    Mem favourite (auto_delete lone 7 (some true) false (λ n. true) full).1.rows
auto_delete_spares_example =
    auto_delete_spares lone full favourite favourite mem-cons_self mem-cons_self refl 7 true false
      (λ n. true) (inr (inr (inl refl)))

auto_delete-rows_example :
    (auto_delete lone 7 (some true) false (λ n. true) full).1.rows
    ≡ keep (λ r. vetoed 7 true false (λ n. true) full.rows r.info_hash) full.rows
auto_delete-rows_example = auto_delete-rows lone lone-IsReliable 7 true false (λ n. true) full refl

abbrev hour : ℕ
hour = 3600 * 10 ^ 9

-- Progress, then the same bytes after one hour.
abbrev slow : List Event
slow =
    record { hash = text "AA"; seen = running 10 (2 * hour) }
    ∷ record { hash = text "aa"; seen = running 10 hour }
    ∷ record { hash = text "aa"; seen = running 5 0 }
    ∷ []

stalled-history_example :
    has (to_lower (text "aa")) (stalled (13 * hour) (marks slow))
    ≡ is_stale (13 * hour) (holding (to_lower (text "aa")) slow)
stalled-history_example = stalled-history (13 * hour) (text "aa") slow

nothing_absent : lookup {A = Absence} (text "aa") [] ≡ none
unfolding lookup
nothing_absent = refl

abbrev listed : State
listed = record { absent = []; rows = old ∷ [] }

old_is_live : has (to_lower old.info_hash) (text "bb" ∷ []) ≡ true
unfolding has to_lower text_eq
old_is_live = refl

forget_vanished_spares_example :
    Mem old (forget_vanished (λ n. false) (λ h. false) 0 (text "bb" ∷ []) listed).0.rows
forget_vanished_spares_example =
    forget_vanished_spares (λ n. false) (λ h. false) 0 (text "bb" ∷ []) listed old mem-cons_self
      (inr (inl old_is_live))

remove-Outcome_example : Outcome lone (text "bb") full (remove lone (text "bb") full)
remove-Outcome_example = remove-Outcome lone (text "bb") full
