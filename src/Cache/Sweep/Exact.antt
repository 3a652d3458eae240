-- ===== src/Cache/Sweep/Exact.antt =====
-- internal/library/cache.go: what `AutoDelete` deletes, when no eviction fails.
use mathlib.Core.Bool.{true≢false}
use mathlib.Core.List.{mem-cons}
use mathlib.Core.Logic.Or
use kuro.Base.{
  ℕ, ◌≡◌, refl, sym, ap, ◌∙◌, inl, inr, Bool, true, false, not, ◌&&◌, ◌||◌, List, [], ◌∷◌, Mem,
  some, Text, text_eq, text_eq_iff, text_eq_refl, text_eq_comm, has, keep, any, mem-keep,
  Bool-cases, ◌==◌, arith,
}
use kuro.Cache.Entry.{CacheEntry, same_torrent}
use kuro.Cache.Store.{drop_torrent_cache}
use kuro.Cache.Evict.{Outside, World, evict}
use kuro.Cache.Evict.Laws.{evict-Drops}
use kuro.Cache.Evict.Account.{IsReliable}
use kuro.Cache.Sweep.{bare, auto_loop, vetoed, vetoes, auto_delete}
use kuro.Cache.Sweep.Spare.{any-mem, both}

module _ {ℓ} {A : Type ℓ} where
  keep-keep : (p q : A → Bool) (xs : List A) → keep p (keep q xs) ≡ keep (λ x. q x && p x) xs
  keep-keep p q [] = refl
  keep-keep p q (x ∷ xs) = ground (arith, keep-keep p q xs)

  keep_congr :
      (p q : A → Bool) (xs : List A) → ((x : A) → Mem x xs → p x ≡ q x) → keep p xs ≡ keep q xs
  keep_congr p q [] h = refl
  keep_congr p q (x ∷ xs) h =
      rw (h x (mem-cons.1 (Or.inl refl)))
        (rw (keep_congr p q xs (λ y m. h y (mem-cons.1 (Or.inr m)))) refl)

whole_list {ℓ} : {A : Type ℓ} (p : A → Bool) (xs : List A) → ((x : A) → p x ≡ true) → keep p xs ≡ xs
whole_list p [] h = refl
whole_list p (x ∷ xs) h = rw (h x) (ap (λ l. x ∷ l) (whole_list p xs h))

-- The hashes that the loop still takes.
abbrev takes : (Text → Bool) → List Text → List CacheEntry → Text → Bool
takes veto seen cands h = not (veto h || has h seen) && any (same_torrent h) cands

takes-cons :
    (veto : Text → Bool) (seen : List Text) (e : CacheEntry) (cands : List CacheEntry) (h : Text)
    → takes veto seen (e ∷ cands) h ≡ (
        text_eq e.info_hash h && not (veto e.info_hash || has e.info_hash seen)
        || takes veto (e.info_hash ∷ seen) cands h)
unfolding has
takes-cons veto seen e cands h = elim (Bool-cases (text_eq e.info_hash h)) [
  | inl same ↦ rw same (rw ((text_eq_iff e.info_hash h).0 same) (ground arith))
  | inr other ↦ rw other refl
]

takes-skips :
    (veto : Text → Bool) (seen : List Text) (e : CacheEntry) (cands : List CacheEntry) (h : Text)
    → (veto e.info_hash || has e.info_hash seen) ≡ true
    → takes veto seen (e ∷ cands) h ≡ takes veto (e.info_hash ∷ seen) cands h
takes-skips veto seen e cands h skips = takes-cons veto seen e cands h ∙ rw skips (ground arith)

dropped_takes :
    (veto : Text → Bool) (seen : List Text) (e : CacheEntry) (cands : List CacheEntry)
    → (veto e.info_hash || has e.info_hash seen) ≡ false
    → (rows : List CacheEntry)
    → keep
        (λ r. not (takes veto (e.info_hash ∷ seen) cands r.info_hash))
        (drop_torrent_cache e.info_hash rows)
      ≡ keep (λ r. not (takes veto seen (e ∷ cands) r.info_hash)) rows
unfolding drop_torrent_cache
dropped_takes veto seen e cands free rows =
    keep-keep _ _ rows
    ∙ keep_congr
        (λ r.
          not (same_torrent e.info_hash r)
          && not (takes veto (e.info_hash ∷ seen) cands r.info_hash))
        (λ r. not (takes veto seen (e ∷ cands) r.info_hash)) rows
        λ r m.
          let split = takes-cons veto seen e cands r.info_hash in
          rw (split, free, text_eq_comm r.info_hash e.info_hash) (ground arith)

not_vetoes :
    (anime : ℕ) (now downloads : Bool) (watched : ℕ → Bool) (rows : List CacheEntry)
    (row : CacheEntry)
    → Mem row rows
    → vetoed anime now downloads watched rows row.info_hash ≡ false
    → vetoes anime now downloads watched row ≡ false
unfolding vetoed
not_vetoes anime now downloads watched rows row m free =
    elim (Bool-cases (vetoes anime now downloads watched row)) [
      | inr quiet ↦ quiet
      | inl barred ↦ absurd (
          true≢false (
            sym (
              any-mem (λ e. same_torrent row.info_hash e && vetoes anime now downloads watched e)
                rows m (both (text_eq_refl row.info_hash) barred))
            ∙ free))
    ]

module _ (out : Outside) (reliable : IsReliable out) where
  dropped :
      (e : CacheEntry) (w : World out)
      → (evict out e w).0.rows ≡ drop_torrent_cache e.info_hash w.rows
  dropped e w = evict-Drops out e w ∙ rw (reliable e w) refl

  auto_loop-rows :
      (veto : Text → Bool) (seen : List Text) (cands : List CacheEntry) (n : ℕ) (w : World out)
      → (auto_loop out veto seen cands n w).1.rows
        ≡ keep (λ r. not (takes veto seen cands r.info_hash)) w.rows
  unfolding auto_loop
  auto_loop-rows veto seen [] n w = sym (whole_list _ w.rows (λ r. ground arith))
  auto_loop-rows veto seen (e ∷ cands) n w =
      elim (Bool-cases (veto e.info_hash || has e.info_hash seen)) [
        | inl skips ↦
            rw (skips, auto_loop)
              (auto_loop-rows veto (e.info_hash ∷ seen) cands n w
                ∙ keep_congr _ _ w.rows
                    (λ r m. ap not (sym (takes-skips veto seen e cands r.info_hash skips))))
        | inr free ↦
            rw (free, auto_loop)
              (auto_loop-rows veto (e.info_hash ∷ seen) cands _ _
                ∙ ap (keep (λ r. not (takes veto (e.info_hash ∷ seen) cands r.info_hash)))
                    (dropped (bare out e.info_hash) w)
                ∙ dropped_takes veto seen e cands free w.rows)
      ]

  -- A row's torrent is taken exactly when no entry of it forbids that.
  takes-vetoed :
      (anime : ℕ) (now downloads : Bool) (watched : ℕ → Bool) (rows : List CacheEntry)
      (row : CacheEntry)
      → Mem row rows
      → not (
          takes
            (vetoed anime now downloads watched rows)
            []
            (keep (λ e. not (vetoes anime now downloads watched e)) rows)
            row.info_hash)
        ≡ vetoed anime now downloads watched rows row.info_hash
  unfolding has
  takes-vetoed anime now downloads watched rows row m =
      elim (Bool-cases (vetoed anime now downloads watched rows row.info_hash)) [
        | inl kept ↦ rw kept refl
        | inr free ↦
            rw
              (
                free,
                any-mem (same_torrent row.info_hash)
                    (keep (λ e. not (vetoes anime now downloads watched e)) rows)
                    ((mem-keep _ rows).1
                      (m, ap not (not_vetoes anime now downloads watched rows row m free)))
                    (text_eq_refl row.info_hash),
              )
              refl
      ]

  -- If no eviction fails, `AutoDelete` for a show leaves on record exactly the rows of the torrents
  -- that some entry forbids to take.
  pub auto_delete-rows :
      (anime : ℕ) (now downloads : Bool) (watched : ℕ → Bool) (w : World out)
      → (anime == 0) ≡ false
      → (auto_delete out anime (some now) downloads watched w).1.rows
        ≡ keep (λ r. vetoed anime now downloads watched w.rows r.info_hash) w.rows
  unfolding auto_delete
  auto_delete-rows anime now downloads watched w show = rw show (
      auto_loop-rows (vetoed anime now downloads watched w.rows) []
        (keep (λ e. not (vetoes anime now downloads watched e)) w.rows) 0 w
      ∙ keep_congr _ _ w.rows (λ r m. takes-vetoed anime now downloads watched w.rows r m))
