-- ===== src/Cache/Evict/Account.antt =====
-- The sums of `evictDownTo`, and how it ends.
use kuro.Base.{
  ℕ, ◌+◌, ◌≡◌, refl, ap, ◌∙◌, ◌⊎◌, inl, inr, Bool, true, false, List, [], ◌∷◌, Text, has,
  Bool-cases, arith,
}
use kuro.Base.Int.{ℤ, pos, pos_part, neg_part, -ℤ_parts, leb_ℤ}
use kuro.Cache.Entry.{CacheEntry}
use kuro.Cache.Order.{sum_once}
use kuro.Cache.Evict.{
  Outside, World, evict, SweepReport, Progress, settle, evict_next, evict_loop, evict_down_to,
}

module _ (out : Outside) where
  -- What is left and what was freed are what there was.
  abbrev pub Balances : SweepReport out → Type 0
  Balances r = pos_part r.after + r.freed + neg_part r.before ≡ pos_part r.before + neg_part r.after

  settle-Balances :
      (freed : Text → ℕ) (e : CacheEntry) (p : Progress out) (r : World out × Bool)
      → Balances p.report
      → Balances (settle out freed e p r).report
  unfolding settle
  settle-Balances freed e p (w, true) h =
      omega (arith, -ℤ_parts p.report.after (pos (freed e.info_hash)))
  settle-Balances freed e p (w, false) h = h

  evict_loop-Balances :
      (target : ℤ) (freed : Text → ℕ) (order : List CacheEntry) (p : Progress out)
      → Balances p.report
      → Balances (evict_loop out target freed order p).report
  unfolding evict_loop evict_next
  evict_loop-Balances target freed [] p h = h
  evict_loop-Balances target freed (e ∷ order) p h =
      elim (Bool-cases (leb_ℤ p.report.after target)) [
        | inl under ↦ rw under h
        | inr over ↦ rw over (elim (Bool-cases (has e.info_hash p.gone)) [
          | inl gone ↦ rw gone (evict_loop-Balances target freed order p h)
          | inr here ↦
              rw here (evict_loop-Balances target freed order _ (settle-Balances freed e p _ h))
        ])
      ]

  pub evict_down_to-Balances :
      (target : ℤ) (freed : Text → ℕ) (order : List CacheEntry) (rep : SweepReport out)
      (w : World out)
      → Balances rep
      → Balances (evict_down_to out target freed order rep w).0
  unfolding evict_down_to
  evict_down_to-Balances target freed order rep w h = evict_loop-Balances target freed order _ h

  -- No eviction ends with an error.
  abbrev pub IsReliable : Type 0
  IsReliable = (e : CacheEntry) (w : World out) → (evict out e w).1 ≡ true

  settle_fine :
      (freed : Text → ℕ) (e : CacheEntry) (p : Progress out) (r : World out × Bool)
      → r.1 ≡ true
      → ((settle out freed e p r).gone ≡ e.info_hash ∷ p.gone)
        × ((settle out freed e p r).report.freed ≡ p.report.freed + freed e.info_hash)
        × ((settle out freed e p r).report.before ≡ p.report.before)
  unfolding settle
  settle_fine freed e p (w, true) h = (refl, refl, refl)
  settle_fine freed e p (w, false) h = cc

  -- Under the target, or all freed.
  record Ends (target : ℤ) (freed : Text → ℕ) (order : List CacheEntry) (p : Progress out)
      (r : SweepReport out) : Type 0 where
    before : r.before ≡ p.report.before
    end : (leb_ℤ r.after target ≡ true) ⊎ (r.freed ≡ p.report.freed + sum_once freed p.gone order)

  module _ (target : ℤ) (freed : Text → ℕ) (e : CacheEntry) (order : List CacheEntry)
      (p : Progress out) where
    Ends-seen :
        (r : SweepReport out)
        → has e.info_hash p.gone ≡ true
        → Ends target freed order p r
        → Ends target freed (e ∷ order) p r
    unfolding sum_once
    Ends-seen r seen h = record { before = h.before; end = ground (arith, h.end) }

    Ends-cons :
        (q : Progress out) (r : SweepReport out)
        → q.gone ≡ e.info_hash ∷ p.gone
        → q.report.freed ≡ p.report.freed + freed e.info_hash
        → q.report.before ≡ p.report.before
        → has e.info_hash p.gone ≡ false
        → Ends target freed order q r
        → Ends target freed (e ∷ order) p r
    unfolding sum_once
    Ends-cons q r g f b here h = record {
      before = h.before ∙ b;
      end = elim h.end [
        | inl under ↦ inl under
        | inr all ↦
            inr (rw (here, sum_once) (omega (arith, all, f, ap (λ l. sum_once freed l order) g)))
      ];
    }

    loop_under : leb_ℤ p.report.after target ≡ true → evict_loop out target freed (e ∷ order) p ≡ p
    unfolding evict_loop
    loop_under under = rw under

    loop_seen :
        leb_ℤ p.report.after target ≡ false
        → has e.info_hash p.gone ≡ true
        → evict_loop out target freed (e ∷ order) p ≡ evict_loop out target freed order p
    unfolding evict_loop
    loop_seen over seen = rw (over, seen)

    loop_next :
        leb_ℤ p.report.after target ≡ false
        → has e.info_hash p.gone ≡ false
        → evict_loop out target freed (e ∷ order) p
          ≡ evict_loop out target freed order (settle out freed e p (evict out e p.world))
    unfolding evict_loop evict_next
    loop_next over here = rw (over, here)

  evict_loop-Ends :
      (reliable : IsReliable) (target : ℤ) (freed : Text → ℕ) (order : List CacheEntry)
      (p : Progress out)
      → Ends target freed order p (evict_loop out target freed order p).report
  unfolding evict_loop sum_once
  evict_loop-Ends reliable target freed [] p = record { before = refl; end = inr (omega arith) }
  evict_loop-Ends reliable target freed (e ∷ order) p =
      elim (Bool-cases (leb_ℤ p.report.after target)) [
        | inl under ↦
            rw (loop_under target freed e order p under) (record { before = refl; end = inl under })
        | inr over ↦ elim (Bool-cases (has e.info_hash p.gone)) [
          | inl seen ↦ rw (loop_seen target freed e order p over seen) (
              Ends-seen target freed e order p _ seen
                (evict_loop-Ends reliable target freed order p))
          | inr here ↦
              let (g, f, b) = settle_fine freed e p (evict out e p.world) (reliable e p.world) in
              rw (loop_next target freed e order p over here) (
                Ends-cons target freed e order p (settle out freed e p (evict out e p.world)) _ g f
                  b here (evict_loop-Ends reliable target freed order _))
        ]
      ]

  -- If no eviction fails, the loop ends at or under the target, or with all of the order freed.
  pub evict_down_to-Ends :
      (reliable : IsReliable) (target : ℤ) (freed : Text → ℕ) (order : List CacheEntry)
      (rep : SweepReport out) (w : World out)
      → let r = (evict_down_to out target freed order rep w).0 in
        (r.before ≡ rep.before)
        × ((leb_ℤ r.after target ≡ true) ⊎ (r.freed ≡ rep.freed + sum_once freed [] order))
  unfolding evict_down_to
  evict_down_to-Ends reliable target freed order rep w =
      let h = evict_loop-Ends reliable target freed order _ in (h.before, h.end)
