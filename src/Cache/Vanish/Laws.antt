-- ===== src/Cache/Vanish/Laws.antt =====
-- internal/library/cache.go: which rows `forgetVanished` leaves on record.
use mathlib.Core.Bool.{true≢false}
use mathlib.Core.List.{cons≢nil}
use kuro.Base.{
  ℕ, ◌≡◌, refl, sym, ap, ◌∙◌, ◌⊎◌, inl, inr, Bool, true, false, not, ◌||◌, List, [], ◌∷◌, Mem, Text,
  text_eq, text_eq_iff, to_lower, has, keep, All, All-of_mem, mem-keep, Bool-cases, arith,
}
use kuro.Base.Maps.{lookup}
use kuro.Cache.Entry.{CacheEntry}
use kuro.Cache.Store.{drop_torrent_cache}
use kuro.Cache.Vanish.{
  State, missing, with_hash, kept_on_disk, gone_hashes, drop_first, forget_one, forget_loop,
  forget_vanished, is_none_listed,
}
use kuro.Cache.Vanish.Counting.{Young, not_long_gone, missing-Young, present-Young}

mem-drop_torrent :
    (row : CacheEntry) (hash : Text) (rows : List CacheEntry)
    → text_eq row.info_hash hash ≡ false
    → Mem row rows
    → Mem row (drop_torrent_cache hash rows)
unfolding drop_torrent_cache
mem-drop_torrent row hash rows other m = (mem-keep _ rows).1 (m, ap not other)

-- Texts that differ in lower case differ.
differ_lower :
    (s t h : Text) → to_lower s ≡ h → text_eq (to_lower t) h ≡ false → text_eq s t ≡ false
differ_lower s t h low other = elim (Bool-cases (text_eq s t)) [
  | inr e ↦ e
  | inl e ↦ absurd (
      true≢false (
        sym ((text_eq_iff (to_lower t) h).1 (ap to_lower (sym ((text_eq_iff s t).0 e)) ∙ low))
        ∙ other))
]

-- What keeps a row of a torrent with the lower-case hash h, before the hashes that are left are done.
module _ (on_disk fails : Text → Bool) (now : ℕ) (entries : List CacheEntry)
    (row : CacheEntry) where
  Stays : State → Type 0
  Stays s =
      Young now (lookup (to_lower row.info_hash) s.absent)
      ⊎ (kept_on_disk on_disk (keep (with_hash (to_lower row.info_hash)) entries) ≡ true)

  drop_first-mem :
      (rows : List CacheEntry) (s : State)
      → All (λ (e : CacheEntry). text_eq row.info_hash e.info_hash ≡ false) rows
      → Mem row s.rows
      → Mem row (drop_first fails rows s).0.rows
  unfolding drop_first
  drop_first-mem [] s h m = m
  drop_first-mem (e ∷ rows) s h m = elim (Bool-cases (fails e.info_hash)) [
    | inl broken ↦ rw broken m
    | inr fine ↦ rw fine (mem-drop_torrent row e.info_hash s.rows h.0 m)
  ]

  drop_first-absent :
      (rows : List CacheEntry) (s : State) → (drop_first fails rows s).0.absent ≡ s.absent
  unfolding drop_first
  drop_first-absent [] s = refl
  drop_first-absent (e ∷ rows) s = elim (Bool-cases (fails e.info_hash)) [
    | inl broken ↦ rw broken refl
    | inr fine ↦ rw fine refl
  ]

  -- Whether the round for a hash leaves the rows.
  abbrev skips : Text → State → Bool
  skips g s = not (missing g now s.absent).1 || kept_on_disk on_disk (keep (with_hash g) entries)

  skips-Stays : (g : Text) (s : State) → g ≡ to_lower row.info_hash → Stays s → skips g s ≡ true
  unfolding Stays
  skips-Stays g s e (inl young) =
      rw (e, not_long_gone (to_lower row.info_hash) now s.absent young) refl
  skips-Stays g s e (inr kept) = rw e (ground arith)

  other_hash :
      (g : Text) (s : State)
      → skips g s ≡ false
      → (text_eq g (to_lower row.info_hash) ≡ false) ⊎ Stays s
      → text_eq g (to_lower row.info_hash) ≡ false
  other_hash g s go (inl other) = other
  other_hash g s go (inr stays) = elim (Bool-cases (text_eq g (to_lower row.info_hash))) [
    | inr other ↦ other
    | inl same ↦ absurd (
        true≢false
          (sym (skips-Stays g s ((text_eq_iff g (to_lower row.info_hash)).0 same) stays) ∙ go))
  ]

  apart_from :
      (g : Text)
      → text_eq g (to_lower row.info_hash) ≡ false
      → All
          (λ (e : CacheEntry). text_eq row.info_hash e.info_hash ≡ false)
          (keep (with_hash g) entries)
  apart_from g other = All-of_mem (keep (with_hash g) entries) λ e m.
      differ_lower row.info_hash e.info_hash (to_lower row.info_hash) refl
        (rw ((text_eq_iff (to_lower e.info_hash) g).0 ((mem-keep _ entries).0 m).1) other)

  forget_one-mem :
      (g : Text) (s : State)
      → (text_eq g (to_lower row.info_hash) ≡ false) ⊎ Stays s
      → Mem row s.rows
      → Mem row (forget_one on_disk fails now g (keep (with_hash g) entries) s).0.rows
  unfolding forget_one
  forget_one-mem g s h m = elim (Bool-cases (skips g s)) [
    | inl skip ↦ rw skip m
    | inr go ↦
        rw go (drop_first-mem (keep (with_hash g) entries) _ (apart_from g (other_hash g s go h)) m)
  ]

  forget_one-Stays :
      (g : Text) (s : State)
      → Stays s
      → Stays (forget_one on_disk fails now g (keep (with_hash g) entries) s).0
  unfolding forget_one Stays
  forget_one-Stays g s (inr kept) = inr kept
  forget_one-Stays g s (inl young) =
      let still = missing-Young g (to_lower row.info_hash) now s.absent young in
      elim (Bool-cases (skips g s)) [
        | inl skip ↦ rw skip (inl still)
        | inr go ↦ rw go (inl (rw (drop_first-absent (keep (with_hash g) entries) _) still))
      ]

  forget_loop-mem :
      (hashes : List Text) (s : State)
      → All (λ g. text_eq g (to_lower row.info_hash) ≡ false) hashes ⊎ Stays s
      → Mem row s.rows
      → Mem row (forget_loop on_disk fails now entries hashes s).0.rows
  unfolding forget_loop
  forget_loop-mem [] s h m = m
  forget_loop-mem (g ∷ hashes) s h m =
      let one = forget_one on_disk fails now g (keep (with_hash g) entries) s in
      let first =
        forget_one-mem g s (elim h [ inl others ↦ inl others.0 | inr stays ↦ inr stays ]) m in
      elim (Bool-cases one.1) [
        | inr broken ↦ rw broken first
        | inl fine ↦ rw fine (
            forget_loop-mem hashes one.0
              (elim h [ inl others ↦ inl others.1 | inr stays ↦ inr (forget_one-Stays g s stays) ])
              first)
      ]

gone_hashes-held :
    (held seen : List Text) (h : Text) (entries : List CacheEntry)
    → has h held ≡ true
    → All (λ g. text_eq g h ≡ false) (gone_hashes held seen entries)
unfolding gone_hashes
gone_hashes-held held seen h [] live = tt
gone_hashes-held held seen h (e ∷ entries) live =
    elim (Bool-cases (has (to_lower e.info_hash) held || has (to_lower e.info_hash) seen)) [
      | inl skip ↦ rw skip (gone_hashes-held held seen h entries live)
      | inr go ↦ rw go (
        elim (Bool-cases (text_eq (to_lower e.info_hash) h)) [
          | inr other ↦ other
          | inl same ↦
              let listed : has (to_lower e.info_hash) held ≡ true =
                ap (λ x. has x held) ((text_eq_iff (to_lower e.info_hash) h).0 same) ∙ live in
              absurd (true≢false (rw listed at go))
        ],
        gone_hashes-held held (to_lower e.info_hash ∷ seen) h entries live,
      )
    ]

-- Whatever the database answers, `forgetVanished` leaves every row of a torrent that the engine lists,
-- of one that was not yet found absent ten minutes ago, and of one of which a file in the library is
-- still on the disk; and an empty list, as of an engine that is loading, leaves every row.
pub forget_vanished_spares :
    (on_disk fails : Text → Bool) (now : ℕ) (held : List Text) (s : State) (row : CacheEntry)
    → Mem row s.rows
    → (held ≡ [])
      ⊎ (has (to_lower row.info_hash) held ≡ true)
      ⊎ Young now (lookup (to_lower row.info_hash) s.absent)
      ⊎ (kept_on_disk on_disk (keep (with_hash (to_lower row.info_hash)) s.rows) ≡ true)
    → Mem row (forget_vanished on_disk fails now held s).0.rows
unfolding forget_vanished is_none_listed Stays
forget_vanished_spares on_disk fails now [] s row m h = m
forget_vanished_spares on_disk fails now (k ∷ held) s row m h =
    forget_loop-mem on_disk fails now s.rows row (gone_hashes (k ∷ held) [] s.rows) _
      (elim h [
        | inl empty ↦ absurd (cons≢nil empty)
        | inr (inl live) ↦ inl (gone_hashes-held (k ∷ held) [] (to_lower row.info_hash) s.rows live)
        | inr (inr (inl young)) ↦
            inr (inl (present-Young (to_lower row.info_hash) now (k ∷ held) s.absent young))
        | inr (inr (inr kept)) ↦ inr (inr kept)
      ])
      m
