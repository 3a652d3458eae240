-- ===== src/Cache/Store/Laws.antt =====
-- internal/store/cache.go: what the pins and the sums of `CacheUsage` are after a statement.
use mathlib.Core.Path.{subst}
use kuro.Base.{
  ℕ, ◌+◌, ◌≡◌, refl, sym, ap, ◌∙◌, inl, inr, Bool, true, false, not, ◌&&◌, List, [], ◌∷◌, map, keep,
  length, Text, All, Bool-cases, if◌then◌else◌, arith,
}
use kuro.Cache.Entry.{CacheEntry, CacheUsage, count_entry, count_entries, cache_usage}
use kuro.Cache.Store.{same_file, pin_only, update_where}

-- A row without what a pin changes.
abbrev pub unpinned : CacheEntry → CacheEntry
unpinned e = record e { pinned = false; last_played = 0 }

module _ (h : Text) (i now : ℕ) where
  clear_pin : Bool → CacheEntry → CacheEntry
  clear_pin drops e = if drops then record e { pinned = false } else e

  set_pin : Bool → CacheEntry → CacheEntry
  set_pin sets e = if sets then record e { pinned = true; last_played = now } else e

  same_file-clear_pin :
      (drops : Bool) (e : CacheEntry) → same_file h i (clear_pin drops e) ≡ same_file h i e
  unfolding clear_pin
  same_file-clear_pin true e = refl
  same_file-clear_pin false e = refl

  abbrev pinned_row : CacheEntry → CacheEntry
  pinned_row e = set_pin (same_file h i e) (clear_pin (e.pinned && not (same_file h i e)) e)

  pin_only-cons :
      (e : CacheEntry) (rows : List CacheEntry)
      → pin_only h i now (e ∷ rows) ≡ pinned_row e ∷ pin_only h i now rows
  unfolding pin_only update_where set_pin clear_pin
  pin_only-cons e rows =
      ap (λ t. set_pin t (clear_pin (e.pinned && not (same_file h i e)) e) ∷ pin_only h i now rows)
        (same_file-clear_pin (e.pinned && not (same_file h i e)) e)

  same_file-set_pin :
      (sets : Bool) (e : CacheEntry) → same_file h i (set_pin sets e) ≡ same_file h i e
  unfolding set_pin
  same_file-set_pin true e = refl
  same_file-set_pin false e = refl

  set_pin-pinned :
      (same : Bool) (e : CacheEntry)
      → (set_pin same (clear_pin (e.pinned && not same) e)).pinned ≡ same
  unfolding set_pin clear_pin
  set_pin-pinned true e = refl
  set_pin-pinned false e = elim (Bool-cases e.pinned) [ inl p ↦ rw p refl | inr p ↦ rw p refl ]

  unpinned-set_pin :
      (sets drops : Bool) (e : CacheEntry)
      → unpinned (set_pin sets (clear_pin drops e)) ≡ unpinned e
  unfolding set_pin clear_pin
  unpinned-set_pin true true e = refl
  unpinned-set_pin true false e = refl
  unpinned-set_pin false true e = refl
  unpinned-set_pin false false e = refl

  IsPinnedFile : CacheEntry → Type 0
  IsPinnedFile e = e.pinned ≡ same_file h i e

  pinned_row-IsPinnedFile : (e : CacheEntry) → IsPinnedFile (pinned_row e)
  unfolding IsPinnedFile
  pinned_row-IsPinnedFile e =
      set_pin-pinned (same_file h i e) e
      ∙ sym (
          same_file-set_pin (same_file h i e) _
          ∙ same_file-clear_pin (e.pinned && not (same_file h i e)) e)

  every_row : (rows : List CacheEntry) → All IsPinnedFile (pin_only h i now rows)
  unfolding pin_only update_where
  every_row [] = tt
  every_row (e ∷ rows) =
      subst (All IsPinnedFile) (sym (pin_only-cons e rows))
        (pinned_row-IsPinnedFile e, every_row rows)

  other_fields : (rows : List CacheEntry) → map unpinned (pin_only h i now rows) ≡ map unpinned rows
  unfolding pin_only update_where
  other_fields [] = refl
  other_fields (e ∷ rows) =
      ap (map unpinned) (pin_only-cons e rows)
      ∙ ap (λ t. unpinned (pinned_row e) ∷ t) (other_fields rows)
      ∙ ap (λ t. t ∷ map unpinned rows) (unpinned-set_pin _ _ e)

  -- After `PinOnly` a file is pinned exactly if it is the one asked for, and the rows differ from those
  -- before in the pin and in the time of the last play only.
  pub pin_only_pins :
      (rows : List CacheEntry)
      → All (λ (e : CacheEntry). e.pinned ≡ same_file h i e) (pin_only h i now rows)
        × (map unpinned (pin_only h i now rows) ≡ map unpinned rows)
  unfolding IsPinnedFile
  pin_only_pins rows = (every_row rows, other_fields rows)

abbrev pub sum_bytes : List CacheEntry → ℕ
sum_bytes [] = 0
sum_bytes (e ∷ rows) = e.bytes + sum_bytes rows

count_entries-sums :
    (u : CacheUsage) (rows : List CacheEntry)
    → ((count_entries u rows).bytes
        ≡ u.bytes + sum_bytes (keep (λ (e : CacheEntry). not e.kept) rows))
      × ((count_entries u rows).kept_bytes
          ≡ u.kept_bytes + sum_bytes (keep (λ (e : CacheEntry). e.kept) rows))
      × ((count_entries u rows).kept ≡ u.kept + length (keep (λ (e : CacheEntry). e.kept) rows))
      × ((count_entries u rows).pinned
          ≡ u.pinned + length (keep (λ (e : CacheEntry). e.pinned) rows))
unfolding count_entries count_entry
count_entries-sums u [] = (omega arith, omega arith, omega arith, omega arith)
count_entries-sums u (e ∷ rows) =
    let (a, b, c, d) = count_entries-sums (count_entry u e) rows in
    (ground (arith, a), ground (arith, b), ground (arith, c), ground (arith, d))

-- `CacheUsage` charges to the budget the bytes of the files outside the library, states those of the
-- library apart, and counts the files of the library and the pinned ones.
pub cache_usage_sums :
    (budget : ℕ) (rows : List CacheEntry)
    → let u = cache_usage budget rows in
      (u.bytes ≡ sum_bytes (keep (λ (e : CacheEntry). not e.kept) rows))
      × (u.kept_bytes ≡ sum_bytes (keep (λ (e : CacheEntry). e.kept) rows))
      × (u.kept ≡ length (keep (λ (e : CacheEntry). e.kept) rows))
      × (u.pinned ≡ length (keep (λ (e : CacheEntry). e.pinned) rows))
unfolding cache_usage
cache_usage_sums budget rows =
    let start : CacheUsage = record {
      bytes = 0;
      budget = budget;
      files = length rows;
      pinned = 0;
      kept = 0;
      kept_bytes = 0;
      entries = rows;
    } in
    let (a, b, c, d) = count_entries-sums start rows in
    (omega (arith, a), omega (arith, b), omega (arith, c), omega (arith, d))
