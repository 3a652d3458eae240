-- ===== src/Cache/Order/Laws.antt =====
-- What `evictionOrder` lists, and in which order.
use mathlib.Core.Bool.{Bool-set, true≢false}
use mathlib.Core.HLevel.{Π_prop, ×_prop}
use mathlib.Core.List.Pairwise
use mathlib.Core.List.Perm
use mathlib.Core.List.{Pairwise, Pairwise-append, Pairwise-singleton, mem-append, forall_mem-cons}
use mathlib.Core.Logic.{∥∥₁_prop}
use mathlib.Core.Logic.Or
use native.Mathlib.Bridge.{le_prop}
use kuro.Base.{
  ℕ, ◌≤◌, ◌≡◌, refl, sym, ap, ◌∙◌, inl, inr, ◌↔◌, Bool, true, false, List, [], ◌∷◌, Mem, Perm, Text,
  keep, mem-keep, Bool-cases, leb, ◌==◌, if◌then◌else◌, arith,
}
use kuro.Cache.Entry.{CacheEntry}
use kuro.Cache.Order.{EpisodeRef, held, latest, insert_by, sort_stable, evictable, eviction_order}

module _ {ℓ} {A : Type ℓ} (key : A → ℕ) where
  insert_by-perm : (x : A) (ys : List A) → Perm (insert_by key x ys) (x ∷ ys)
  unfolding insert_by
  insert_by-perm x [] = Perm.rfl
  insert_by-perm x (y ∷ ys) = elim (Bool-cases (leb (key x) (key y))) [
    | inl e ↦ rw e Perm.rfl
    | inr e ↦ rw e (Perm.trans (Perm.cons y (insert_by-perm x ys)) (Perm.swap x y ys))
  ]

  pub sort_stable-perm : (xs : List A) → Perm (sort_stable key xs) xs
  unfolding sort_stable
  sort_stable-perm [] = Perm.rfl
  sort_stable-perm (x ∷ xs) =
      Perm.trans (insert_by-perm x (sort_stable key xs)) (Perm.cons x (sort_stable-perm xs))

  abbrev pub Ascending : List A → Type ℓ
  Ascending = Pairwise (λ a b. key a ≤ key b)

  insert_by-Ascending : (x : A) (ys : List A) → Ascending ys → Ascending (insert_by key x ys)
  unfolding insert_by
  insert_by-Ascending x [] s = Pairwise-singleton _ x
  insert_by-Ascending x (y ∷ ys) (Pairwise.cons below s) = elim (Bool-cases (leb (key x) (key y))) [
    | inl e ↦
        let first : key x ≤ key y = ground arith in
        rw e (
          Pairwise.cons
            ((forall_mem-cons (λ b. le_prop)).1 (first, λ a m. omega (arith, below a m)))
            (Pairwise.cons below s))
    | inr e ↦
        let first : key y ≤ key x = ground arith in
        rw e (
          Pairwise.cons
            (λ a m.
              (forall_mem-cons (λ b. le_prop)).1 (first, below) a
                ((Perm.mem_iff (insert_by-perm x ys)).0 m))
            (insert_by-Ascending x ys s))
  ]

  pub sort_stable-Ascending : (xs : List A) → Ascending (sort_stable key xs)
  unfolding sort_stable
  sort_stable-Ascending [] = Pairwise.nil
  sort_stable-Ascending (x ∷ xs) =
      insert_by-Ascending x (sort_stable key xs) (sort_stable-Ascending xs)

  -- Elements of one key keep their order.
  keep-insert_by :
      (k : ℕ) (x : A) (ys : List A)
      → keep (λ a. key a == k) (insert_by key x ys) ≡ keep (λ a. key a == k) (x ∷ ys)
  unfolding insert_by
  keep-insert_by k x [] = refl
  keep-insert_by k x (y ∷ ys) = ground (arith, keep-insert_by k x ys)

  pub keep-sort_stable :
      (k : ℕ) (xs : List A)
      → keep (λ a. key a == k) (sort_stable key xs) ≡ keep (λ a. key a == k) xs
  unfolding sort_stable
  keep-sort_stable k [] = refl
  keep-sort_stable k (x ∷ xs) =
      keep-insert_by k x (sort_stable key xs)
      ∙ ap (λ l. if key x == k then x ∷ l else l) (keep-sort_stable k xs)

module _ (entries : List CacheEntry) (stalled : List Text) (watching : EpisodeRef) where
  abbrev age : CacheEntry → ℕ
  age e = latest entries e.info_hash

  abbrev is_held : CacheEntry → Bool
  is_held e = held entries stalled watching e.info_hash

  mem-evictable :
      (protected : Bool) {e : CacheEntry}
      → Mem e (evictable entries stalled watching protected)
      → Mem e entries × (is_held e ≡ false) × (e.protected ≡ protected)
  unfolding evictable
  mem-evictable protected {e} m =
      let (member, test) = (mem-keep _ entries).0 m in (member, ground arith, ground arith)

  evictable-mem :
      (protected : Bool) {e : CacheEntry}
      → Mem e entries
      → is_held e ≡ false
      → e.protected ≡ protected
      → Mem e (evictable entries stalled watching protected)
  unfolding evictable
  evictable-mem protected {e} m h k = (mem-keep _ entries).1 (m, ground arith)

  -- The order lists exactly the entries whose torrent is not held.
  pub mem-eviction_order :
      {e : CacheEntry}
      → Mem e (eviction_order entries stalled watching)
        ↔ (Mem e entries × (held entries stalled watching e.info_hash ≡ false))
  unfolding eviction_order
  mem-eviction_order {e} = (
    λ m.
        Or.elim (×_prop ∥∥₁_prop (Bool-set _ _)) (mem-append.0 m)
          (λ m.
            let (a, b, _) = mem-evictable false ((Perm.mem_iff (sort_stable-perm age _)).0 m) in
            (a, b))
          (λ m.
            let (a, b, _) = mem-evictable true ((Perm.mem_iff (sort_stable-perm age _)).0 m) in
            (a, b)),
    λ (m, h). elim (Bool-cases e.protected) [
      | inl p ↦
          mem-append.1
            (Or.inr ((Perm.mem_iff (sort_stable-perm age _)).1 (evictable-mem true m h p)))
      | inr p ↦
          mem-append.1
            (Or.inl ((Perm.mem_iff (sort_stable-perm age _)).1 (evictable-mem false m h p)))
    ],
  )

  -- Of two entries the first is not one of a show being watched unless the second is, and, if both
  -- are or neither is, the torrent of the first was not played later.
  abbrev pub Earlier : CacheEntry → CacheEntry → Type 0
  Earlier a b =
      (a.protected ≡ true → b.protected ≡ true)
      × (a.protected ≡ b.protected → latest entries a.info_hash ≤ latest entries b.info_hash)

  Earlier-prop : (a b : CacheEntry) → IsProp (Earlier a b)
  Earlier-prop a b = ×_prop (Π_prop λ _. Bool-set _ _) (Π_prop λ _. le_prop)

  half-Earlier :
      (protected : Bool)
      → Pairwise Earlier (sort_stable age (evictable entries stalled watching protected))
  half-Earlier protected =
      Pairwise.imp_of_mem
        (λ a b ma mb le.
          let (_, _, pa) = mem-evictable protected ((Perm.mem_iff (sort_stable-perm age _)).0 ma) in
          let (_, _, pb) = mem-evictable protected ((Perm.mem_iff (sort_stable-perm age _)).0 mb) in
          (λ h. pb ∙ sym pa ∙ h, λ _. le))
        (sort_stable-Ascending age _)

  -- Of any two entries in the order, the first is of a show being watched only if the second is, and,
  -- where both are or neither is, its torrent was not played later than that of the second.
  pub eviction_order-Earlier : Pairwise Earlier (eviction_order entries stalled watching)
  unfolding eviction_order
  eviction_order-Earlier = (Pairwise-append Earlier-prop).1 (
    half-Earlier false,
    half-Earlier true,
    λ a ma b mb.
        let (_, _, pa) = mem-evictable false ((Perm.mem_iff (sort_stable-perm age _)).0 ma) in
        let (_, _, pb) = mem-evictable true ((Perm.mem_iff (sort_stable-perm age _)).0 mb) in
        (λ h. pb, λ same. absurd (true≢false (sym pb ∙ sym same ∙ pa))),
  )
