-- ===== src/Engine/Regroup/Memory.antt =====
-- internal/engine/regroup.go, `remember`: the memory of peers is bounded.
use mathlib.Core.Bool.{true≢false}
use kuro.Base.{
  ℕ, suc, ◌≤◌, ◌<◌, ◌≡◌, ◌≢◌, refl, sym, ap, ◌∙◌, ◌⊎◌, inl, inr, true, false, not, ◌&&◌, List, [],
  ◌∷◌, Option, none, some, Option-cases, Text, text_eq, text_eq_iff, Bool-cases, length, leb, ltb,
  arith,
}
use kuro.Base.Maps.{lookup, put, erase}
use kuro.Engine.Regroup.{
  PeerInfo, Remembered, Known, remembered_peers, oldest_loop, oldest, is_held, remember_full,
  remember_at, remember,
}

length-erase : (k : Text) (m : Known) → length (erase k m) ≤ length m
unfolding erase
length-erase k [] = omega arith
length-erase k ((j, r) ∷ m) = elim (Bool-cases (text_eq j k)) [
  | inl same ↦ rw same (omega (arith, length-erase k m))
  | inr other ↦ rw other (omega (arith, length-erase k m))
]

-- Without a key that it had, the map is smaller.
length-erase_held : (k : Text) (m : Known) → lookup k m ≢ none → length (erase k m) < length m
unfolding lookup erase
length-erase_held k [] h = absurd (h refl)
length-erase_held k ((j, r) ∷ m) h = elim (Bool-cases (text_eq j k)) [
  | inl same ↦ rw same (omega (arith, length-erase k m))
  | inr other ↦
      let rest : length (erase k m) < length m = length-erase_held k m (rw (other, lookup) at h) in
      rw other (omega (arith, rest))
]

length-put : (k : Text) (r : Remembered) (m : Known) → length (put k r m) ≤ suc (length m)
unfolding put
length-put k r m = omega (arith, length-erase k m)

length-put_held :
    (k : Text) (r : Remembered) (m : Known) → lookup k m ≢ none → length (put k r m) ≤ length m
unfolding put
length-put_held k r m h = omega (arith, length-erase_held k m h)

-- A key that the loop returns is one of the map's, unless it was there at the start.
some_not_none : {r : Remembered} → some r ≢ none
some_not_none e = cc

some_text_not_none : {k : Text} → some k ≢ none
some_text_not_none e = cc

here_held :
    (j k : Text) (r : Remembered) (m : Known) → some j ≡ some k → lookup k ((j, r) ∷ m) ≢ none
unfolding lookup
here_held j k r m here e =
    let same : j ≡ k = ap (λ o. elim o [ none ↦ j | some x ↦ x ]) here in
    some_not_none (rw ((text_eq_iff j k).1 same, lookup) at e)

later_held :
    (j k : Text) (r : Remembered) (m : Known) → lookup k m ≢ none → lookup k ((j, r) ∷ m) ≢ none
unfolding lookup
later_held j k r m later e = elim (Bool-cases (text_eq j k)) [
  | inl same ↦ some_not_none (rw (same, lookup) at e)
  | inr other ↦ later (rw (other, lookup) at e)
]

oldest_loop-held :
    (start : Option Text) (at' : ℕ) (m : Known) (k : Text)
    → oldest_loop start at' m ≡ some k
    → (start ≡ some k) ⊎ (lookup k m ≢ none)
unfolding oldest_loop lookup
oldest_loop-held start at' [] k e = inl e
oldest_loop-held start at' ((j, r) ∷ m) k e = elim (Bool-cases (ltb r.seen at')) [
  | inl older ↦ elim (oldest_loop-held (some j) r.seen m k (rw (older, oldest_loop) at e)) [
    | inl here ↦ inr (here_held j k r m here)
    | inr later ↦ inr (later_held j k r m later)
  ]
  | inr newer ↦ elim (oldest_loop-held start at' m k (rw (newer, oldest_loop) at e)) [
    | inl first ↦ inl first
    | inr later ↦ inr (later_held j k r m later)
  ]
]

is_held-lookup : (key : Text) (m : Known) → is_held key m ≡ true → lookup key m ≢ none
unfolding is_held
is_held-lookup key m h e = true≢false (sym h ∙ (rw (e, is_held) refl))

remember_full-bounded :
    (now : ℕ) (key : Text) (r : Remembered) (m : Known) (o : Option Text)
    → oldest now m ≡ o
    → length m ≤ remembered_peers
    → length (remember_full now key r m o) ≤ remembered_peers
unfolding remember_full oldest
remember_full-bounded now key r m none e h = h
remember_full-bounded now key r m (some k) e h =
    let held : lookup k m ≢ none = elim (oldest_loop-held none now m k e) [
      | inl start ↦ absurd (some_text_not_none (sym start))
      | inr held ↦ held
    ] in
    omega (arith, h, length-put key r (erase k m), length-erase_held k m held)

remember_at-bounded :
    (now : ℕ) (key : Text) (r : Remembered) (m : Known)
    → length m ≤ remembered_peers
    → length (remember_at now key r m) ≤ remembered_peers
unfolding remember_at
remember_at-bounded now key r m h =
    elim (Bool-cases (not (is_held key m) && leb remembered_peers (length m))) [
      | inl full ↦ rw full (remember_full-bounded now key r m (oldest now m) refl h)
      | inr fits ↦ rw fits (elim (Bool-cases (is_held key m)) [
        | inl held ↦ omega (arith, h, length-put_held key r m (is_held-lookup key m held))
        | inr unheld ↦
            let below : leb remembered_peers (length m) ≡ false = rw unheld at fits in
            let room : length m < remembered_peers = ground arith in
            omega (arith, room, length-put key r m)
      ])
    ]

-- A torrent's memory never grows past two hundred peers, however many peers are noted.
pub remember-bounded :
    (now : ℕ) (peers : List PeerInfo) (m : Known)
    → length m ≤ remembered_peers
    → length (remember now peers m) ≤ remembered_peers
unfolding remember
remember-bounded now [] m h = h
remember-bounded now (p ∷ peers) m h = elim (Option-cases p.addr) [
  | inl e ↦ rw (e, remember) (remember-bounded now peers m h)
  | inr (key, e) ↦
      rw (e, remember)
        (remember-bounded now peers (remember_at now key (record { info = p; seen = now }) m)
          (remember_at-bounded now key (record { info = p; seen = now }) m h))
]
