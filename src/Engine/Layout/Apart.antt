-- ===== src/Engine/Layout/Apart.antt =====
-- internal/engine/layout.go: a torrent's name stays, and two torrents do not share one.
use mathlib.Core.Bool.{true≢false}
use kuro.Base.{
  ◌≡◌, refl, sym, ap, ◌∙◌, inl, inr, true, false, not, ◌&&◌, List, [], ◌∷◌, Option, none, some,
  Text, text_eq, text_eq_iff, text_eq_comm, All, Bool-cases, Option-cases,
}
use kuro.Base.Maps.{lookup, put, lookup-put_same, lookup-put_other, lookup-erase_other}
use kuro.Engine.Layout.{Tops, suffixed, taken, fresh_top, decide_top, top, claim, forget}

top-held :
    (name hash : Text) (tops : Tops) (held : Text)
    → lookup hash tops ≡ some held
    → top name hash (some tops) ≡ (held, some tops)
unfolding top decide_top
top-held name hash tops held e = rw (e, top) refl

top-fresh :
    (name hash : Text) (tops : Tops)
    → lookup hash tops ≡ none
    → top name hash (some tops)
      ≡ (fresh_top name hash tops, some (put hash (fresh_top name hash tops) tops))
unfolding top decide_top
top-fresh name hash tops e = rw (e, top) refl

-- What is done with the layout for a torrent.
pub data Op : Type 0 where
  asks : (name : Text) → Op
  claims : (name : Text) → Op
  forgets : Op

abbrev act : Text × Op → Option Tops → Option Tops
act (hash, asks name) l = (top name hash l).1
act (hash, claims name) l = claim hash name l
act (hash, forgets) l = forget hash l

-- Operations, the latest first.
abbrev pub run : List (Text × Op) → Option Tops → Option Tops
run [] l = l
run (op ∷ ops) l = act op (run ops l)

abbrev pub held_at : Text → Option Tops → Option Text
held_at hash none = none
held_at hash (some tops) = lookup hash tops

act-other :
    (hash : Text) (op : Text × Op) (l : Option Tops)
    → text_eq op.0 hash ≡ false
    → held_at hash (act op l) ≡ held_at hash l
unfolding top claim forget
act-other hash (h, asks name) none d = refl
act-other hash (h, asks name) (some tops) d = elim (Option-cases (lookup h tops)) [
  | inr (held, e) ↦ ap (λ (x : Text × Option Tops). held_at hash x.1) (top-held name h tops held e)
  | inl e ↦
      ap (λ (x : Text × Option Tops). held_at hash x.1) (top-fresh name h tops e)
      ∙ lookup-put_other h hash (fresh_top name h tops) tops d
]
act-other hash (h, claims name) none d = refl
act-other hash (h, claims name) (some tops) d = elim (Bool-cases (text_eq name [])) [
  | inl empty ↦ rw empty refl
  | inr given ↦ rw given (lookup-put_other h hash name tops d)
]
act-other hash (h, forgets) none d = refl
act-other hash (h, forgets) (some tops) d = lookup-erase_other h hash tops d

run-other :
    (hash : Text) (ops : List (Text × Op)) (l : Option Tops)
    → All (λ (op : Text × Op). text_eq op.0 hash ≡ false) ops
    → held_at hash (run ops l) ≡ held_at hash l
run-other hash [] l h = refl
run-other hash (op ∷ ops) l h = act-other hash op (run ops l) h.0 ∙ run-other hash ops l h.1

top-of_held :
    (name hash t : Text) (l : Option Tops) → held_at hash l ≡ some t → (top name hash l).0 ≡ t
top-of_held name hash t none e = cc
top-of_held name hash t (some tops) e = ap (λ x. x.0) (top-held name hash tops t e)

top-records :
    (name hash : Text) (tops : Tops)
    → held_at hash (top name hash (some tops)).1 ≡ some (top name hash (some tops)).0
top-records name hash tops = elim (Option-cases (lookup hash tops)) [
  | inr (held, e) ↦ rw (top-held name hash tops held e) e
  | inl e ↦ rw (top-fresh name hash tops e) (lookup-put_same hash _ tops)
]

-- The name that a torrent got on first sight is the one it gets later, whatever name is then asked for
-- and whatever is done for other torrents in between.
pub top-kept :
    (name later hash : Text) (tops : Tops) (ops : List (Text × Op))
    → All (λ (op : Text × Op). text_eq op.0 hash ≡ false) ops
    → (top later hash (run ops (top name hash (some tops)).1)).0 ≡ (top name hash (some tops)).0
top-kept name later hash tops ops h =
    top-of_held later hash (top name hash (some tops)).0 (run ops (top name hash (some tops)).1)
      (run-other hash ops (top name hash (some tops)).1 h ∙ top-records name hash tops)

-- No two torrents have one name.
abbrev pub IsApart : Option Tops → Type 0
IsApart l = (h k t : Text) → held_at h l ≡ some t → held_at k l ≡ some t → text_eq h k ≡ true

some_inj : (u t : Text) → some u ≡ some t → u ≡ t
some_inj u t e = ap (λ o. elim o [ none ↦ u | some x ↦ x ]) e

lookup-taken :
    (h hash t : Text) (tops : Tops)
    → lookup h tops ≡ some t
    → text_eq h hash ≡ false
    → taken t hash tops ≡ true
unfolding lookup taken
lookup-taken h hash t [] e d = cc
lookup-taken h hash t ((k, u) ∷ tops) e d = elim (Bool-cases (text_eq k h)) [
  | inl here ↦
      let same : u ≡ t = some_inj u t (rw (here, lookup) at e) in
      let this : text_eq u t ≡ true = (text_eq_iff u t).1 same in
      let another : text_eq k hash ≡ false = rw ((text_eq_iff k h).0 here) d in
      rw (this, another) refl
  | inr later ↦
      let rest = lookup-taken h hash t tops (rw (later, lookup) at e) d in
      elim (Bool-cases (text_eq u t && not (text_eq k hash))) [
        | inl found ↦ rw found refl
        | inr not_found ↦ rw not_found rest
      ]
]

fresh_top-free :
    (name hash : Text) (tops : Tops)
    → taken (suffixed name hash) hash tops ≡ false
    → taken (fresh_top name hash tops) hash tops ≡ false
unfolding fresh_top
fresh_top-free name hash tops free = elim (Bool-cases (taken name hash tops)) [
  | inl held ↦ rw held free
  | inr unheld ↦ rw unheld unheld
]

pub same_trans : (s t u : Text) → text_eq s t ≡ true → text_eq s u ≡ true → text_eq t u ≡ true
same_trans s t u h k = rw (sym ((text_eq_iff s t).0 h)) k

-- The new name is no other torrent's, so one of two torrents that share a name is not the new one.
new_apart :
    (n hash k t : Text) (tops : Tops)
    → taken n hash tops ≡ false
    → n ≡ t
    → text_eq hash k ≡ false
    → lookup k tops ≡ some t
    → text_eq hash k ≡ true
new_apart n hash k t tops free e d l = absurd (
    true≢false (
      sym (lookup-taken k hash t tops l (text_eq_comm k hash ∙ d))
      ∙ ap (λ x. taken x hash tops) (sym e)
      ∙ free))

at_hash :
    (hash h n t : Text) (tops : Tops)
    → text_eq hash h ≡ true
    → lookup h (put hash n tops) ≡ some t
    → lookup hash (put hash n tops) ≡ some t
at_hash hash h n t tops same e =
    ap (λ x. lookup x (put hash n tops)) ((text_eq_iff hash h).0 same) ∙ e

put-IsApart :
    (n hash : Text) (tops : Tops)
    → taken n hash tops ≡ false
    → IsApart (some tops)
    → IsApart (some (put hash n tops))
put-IsApart n hash tops free apart h k t eh ek = elim (Bool-cases (text_eq hash h)) [
  | inl h_new ↦ elim (Bool-cases (text_eq hash k)) [
    | inl k_new ↦ same_trans hash h k h_new k_new
    | inr k_old ↦
        let et =
          some_inj n t (sym (lookup-put_same hash n tops) ∙ at_hash hash h n t tops h_new eh) in
        same_trans hash h k h_new (
          new_apart n hash k t tops free et k_old (sym (lookup-put_other hash k n tops k_old) ∙ ek))
  ]
  | inr h_old ↦ elim (Bool-cases (text_eq hash k)) [
    | inl k_new ↦
        let et =
          some_inj n t (sym (lookup-put_same hash n tops) ∙ at_hash hash k n t tops k_new ek) in
        absurd (
          true≢false (
            sym (
              new_apart n hash h t tops free et h_old
                (sym (lookup-put_other hash h n tops h_old) ∙ eh))
            ∙ h_old))
    | inr k_old ↦
        apart h k t (sym (lookup-put_other hash h n tops h_old) ∙ eh)
          (sym (lookup-put_other hash k n tops k_old) ∙ ek)
  ]
]

-- A name that is asked for on first sight keeps the torrents apart, if no other torrent already has
-- the name with the hash appended.
pub top-IsApart :
    (name hash : Text) (tops : Tops)
    → IsApart (some tops)
    → taken (suffixed name hash) hash tops ≡ false
    → IsApart (top name hash (some tops)).1
top-IsApart name hash tops apart free = elim (Option-cases (lookup hash tops)) [
  | inr (held, e) ↦ rw (top-held name hash tops held e) apart
  | inl e ↦
      rw (top-fresh name hash tops e) (
        put-IsApart (fresh_top name hash tops) hash tops (fresh_top-free name hash tops free) apart)
]
