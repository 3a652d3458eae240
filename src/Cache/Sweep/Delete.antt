-- ===== src/Cache/Sweep/Delete.antt =====
-- What `AutoDelete` and `Clear` leave on record, and what they delete.
use kuro.Base.{
  ℕ, ◌+◌, ◌≡◌, refl, sym, ap, ◌∙◌, ◌⊎◌, inl, inr, Bool, true, false, not, ◌&&◌, ◌||◌, List, [], ◌∷◌,
  Mem, Option, none, some, Text, text_eq, text_eq_iff, to_lower, has, keep, mem-keep, Bool-cases,
  ◌==◌, arith,
}
use mathlib.Core.Bool.{true≢false}
use kuro.Strings.{atoi}
use kuro.Cache.Entry.{CacheEntry, same_torrent}
use kuro.Cache.Store.{drop_torrent_cache}
use kuro.Cache.Order.{torrent_bytes}
use kuro.Cache.Evict.{Outside, World, evict}
use kuro.Cache.Evict.Laws.{Drops, evict-Drops}
use kuro.Cache.Sweep.{
  bare, of_show, is_done, auto_loop, vetoed, vetoes, auto_delete, clear_held, clear_loop, clear,
}
use kuro.Cache.Sweep.Spare.{apart, any-mem, both}

-- Why `AutoDelete` leaves a file's torrent: the file is not of the show, has no number, is pinned, is
-- in the library (unless downloads are included), or is an episode that the rule does not free.
abbrev pub Bars : ℕ → Bool → Bool → (ℕ → Bool) → CacheEntry → Type 0
Bars anime now downloads watched e =
    (of_show anime e ≡ false)
    ⊎ (atoi e.ep_key ≡ none)
    ⊎ (e.pinned ≡ true)
    ⊎ ((e.kept ≡ true) × (downloads ≡ false))
    ⊎ ((n : ℕ) × (atoi e.ep_key ≡ some n)
        × ((watched n ≡ false)
            ⊎ ((now ≡ false) × ((watched (n + 1) ≡ false) ⊎ (watched (n + 2) ≡ false)))))

not_done :
    (now downloads : Bool) (watched : ℕ → Bool) (e : CacheEntry) (ep : ℕ)
    → (watched ep ≡ false)
      ⊎ ((now ≡ false) × ((watched (ep + 1) ≡ false) ⊎ (watched (ep + 2) ≡ false)))
    → (e.pinned || e.kept && not downloads || not (is_done now watched ep)) ≡ true
unfolding is_done
not_done now downloads watched e ep h = ground arith

barred :
    (now downloads : Bool) (watched : ℕ → Bool) (e : CacheEntry) (key : Option ℕ)
    → (key ≡ none)
      ⊎ (e.pinned ≡ true)
      ⊎ ((e.kept ≡ true) × (downloads ≡ false))
      ⊎ ((n : ℕ) × (key ≡ some n)
          × ((watched n ≡ false)
              ⊎ ((now ≡ false) × ((watched (n + 1) ≡ false) ⊎ (watched (n + 2) ≡ false)))))
    → (elim key [
      | none ↦ true
      | some ep ↦ e.pinned || e.kept && not downloads || not (is_done now watched ep)
    ])
      ≡ true
unfolding is_done
barred now downloads watched e none h = refl
barred now downloads watched e (some ep) h = elim h [
  | inl missing ↦ cc
  | inr (inl pinned) ↦ ground arith
  | inr (inr (inl kept)) ↦ ground arith
  | inr (inr (inr (n, same, rest))) ↦
      let eq : ep ≡ n = ap (λ o. elim o [ none ↦ ep | some x ↦ x ]) same in
      not_done now downloads watched e ep (rw (sym eq) at rest)
]

Bars-vetoes :
    (anime : ℕ) (now downloads : Bool) (watched : ℕ → Bool) (e : CacheEntry)
    → Bars anime now downloads watched e
    → vetoes anime now downloads watched e ≡ true
unfolding vetoes
Bars-vetoes anime now downloads watched e h = elim (Bool-cases (of_show anime e)) [
  | inr other ↦ rw other refl
  | inl ours ↦ rw ours (
      barred now downloads watched e (atoi e.ep_key)
        (elim h [ inl other ↦ absurd (true≢false (sym ours ∙ other)) | inr rest ↦ rest ]))
]

module _ (out : Outside) where
  dropped-mem :
      (e row : CacheEntry) (w : World out) (r : World out × Bool)
      → Drops out e w r
      → text_eq row.info_hash e.info_hash ≡ false
      → Mem row w.rows
      → Mem row r.0.rows
  unfolding drop_torrent_cache
  dropped-mem e row w (w', true) d other m = rw d ((mem-keep _ w.rows).1 (m, ap not other))
  dropped-mem e row w (w', false) d other m = rw d m

  auto_loop-mem :
      (veto : Text → Bool) (row : CacheEntry) (seen : List Text) (cands : List CacheEntry) (n : ℕ)
      (w : World out)
      → veto row.info_hash ≡ true
      → Mem row w.rows
      → Mem row (auto_loop out veto seen cands n w).1.rows
  unfolding auto_loop
  auto_loop-mem veto row seen [] n w h m = m
  auto_loop-mem veto row seen (e ∷ cands) n w h m =
      elim (Bool-cases (veto e.info_hash || has e.info_hash seen)) [
        | inl skips ↦
            rw (skips, auto_loop) (auto_loop-mem veto row (e.info_hash ∷ seen) cands n w h m)
        | inr takes ↦
            rw (takes, auto_loop)
              (auto_loop-mem veto row (e.info_hash ∷ seen) cands _ _ h (
                dropped-mem (bare out e.info_hash) row w (evict out (bare out e.info_hash) w)
                  (evict-Drops out (bare out e.info_hash) w) (apart veto row e h (ground arith)) m))
      ]

  auto_delete-vetoed :
      (anime : ℕ) (now downloads : Bool) (watched : ℕ → Bool) (w : World out) (row : CacheEntry)
      → Mem row w.rows
      → vetoed anime now downloads watched w.rows row.info_hash ≡ true
      → Mem row (auto_delete out anime (some now) downloads watched w).1.rows
  unfolding auto_delete
  auto_delete-vetoed anime now downloads watched w row m h = elim (Bool-cases (anime == 0)) [
    | inl no_show ↦ rw no_show m
    | inr show ↦ rw show (
        auto_loop-mem (vetoed anime now downloads watched w.rows) row []
          (keep (λ e. not (vetoes anime now downloads watched e)) w.rows) 0 w h m)
  ]

  clear_loop-mem :
      (is_held : Text → Bool) (bytes : Text → ℕ) (row : CacheEntry) (done : List Text)
      (es : List CacheEntry) (p : ℕ × ℕ × World out)
      → is_held (to_lower row.info_hash) ≡ true
      → Mem row p.2.rows
      → Mem row (clear_loop out is_held bytes done es p).2.rows
  unfolding clear_loop
  clear_loop-mem is_held bytes row done [] p h m = m
  clear_loop-mem is_held bytes row done (e ∷ es) (n, f, w) h m =
      elim (Bool-cases (is_held (to_lower e.info_hash) || has (to_lower e.info_hash) done)) [
        | inl skips ↦
            rw (skips, clear_loop) (clear_loop-mem is_held bytes row done es (n, f, w) h m)
        | inr takes ↦
            let kept =
              dropped-mem e row w (evict out e w) (evict-Drops out e w)
                (apart (λ t. is_held (to_lower t)) row e h (ground arith)) m in
            elim (Bool-cases (evict out e w).1) [
              | inl fine ↦
                  rw (takes, fine, clear_loop)
                    (clear_loop-mem is_held bytes row (to_lower e.info_hash ∷ done) es _ h kept)
              | inr failed ↦
                  rw (takes, failed, clear_loop) (clear_loop-mem is_held bytes row done es _ h kept)
            ]
      ]

  clear-held :
      (completed_only : Bool) (w : World out) (row : CacheEntry)
      → Mem row w.rows
      → clear_held completed_only w.rows (to_lower row.info_hash) ≡ true
      → Mem row (clear out completed_only w).2.rows
  unfolding clear
  clear-held completed_only w row m h =
      clear_loop-mem (clear_held completed_only w.rows) (torrent_bytes w.rows) row [] w.rows
        (0, 0, w) h m

module _ (out : Outside) (w : World out) (row other : CacheEntry) (row_member : Mem row w.rows)
    (other_member : Mem other w.rows) (same : other.info_hash ≡ row.info_hash) where
  -- `AutoDelete` keeps every row of a torrent of which one file is not of the show, has no number, is
  -- pinned, is in the library (unless downloads are included), or is an episode that is not watched
  -- or, in the mode that keeps two episodes, is not followed by two watched ones.
  pub auto_delete_spares :
      (anime : ℕ) (now downloads : Bool) (watched : ℕ → Bool)
      → Bars anime now downloads watched other
      → Mem row (auto_delete out anime (some now) downloads watched w).1.rows
  unfolding vetoed
  auto_delete_spares anime now downloads watched h =
      auto_delete-vetoed out anime now downloads watched w row row_member (
        any-mem (λ e. same_torrent row.info_hash e && vetoes anime now downloads watched e) w.rows
          other_member
          (both ((text_eq_iff other.info_hash row.info_hash).1 same)
            (Bars-vetoes anime now downloads watched other h)))

  -- `Clear` keeps every row of a torrent of which one file is pinned or in the library or, where only
  -- completed downloads are cleared, unfinished.
  pub clear_spares :
      (completed_only : Bool)
      → (other.pinned ≡ true)
        ⊎ (other.kept ≡ true)
        ⊎ ((completed_only ≡ true) × (other.complete ≡ false))
      → Mem row (clear out completed_only w).2.rows
  unfolding clear_held
  clear_spares completed_only h = clear-held out completed_only w row row_member (
      any-mem
        (λ e.
          text_eq (to_lower e.info_hash) (to_lower row.info_hash)
          && (e.pinned || e.kept || completed_only && not e.complete))
        w.rows other_member
        (both
          ((text_eq_iff (to_lower other.info_hash) (to_lower row.info_hash)).1 (ap to_lower same))
          (ground arith)))
