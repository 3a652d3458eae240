-- ===== src/Access/Mirror.antt =====
-- internal/server/approval.go: the memory that answers every request against the database that keeps the
-- decisions, over every order of requests, decisions, removals, changes of mode and restarts.
use mathlib.Core.Bool.{true≢false}
use mathlib.Core.Option
use kuro.Base.{
  ◌⊎◌, inl, inr, ℕ, ◌≡◌, refl, sym, ap, ◌∙◌, inl, inr, Bool, true, false, List, [], ◌∷◌, Option,
  none, some, Text, text_eq, text_eq_iff, leb, Bool-cases, if◌then◌else◌, arith,
}
use kuro.Base.Maps.{
  lookup, put, erase, lookup-erase_same, lookup-erase_other, lookup-put_same, lookup-put_other,
}
use kuro.Access.Request.{or_else}
use kuro.Access.Approvals.{
  store_mode, apply_mode, Status, pending, approved, denied, Mode, off, once, always, Device,
  Access, Reads, load_status, read_mode, read_devices, load_unless, load_approvals, request_row,
  record_request, request_access, denied_addr, max_pending, count_pending, ask, refuse,
  admit_status, admit_mode, still_in, decide_row, decide_rows, decide_known, decide_device,
  remove_device,
}

-- What the database says of a device.
abbrev pub recorded : Text → List (Text × Device) → Option Status
recorded id devices = Option.map (λ (d : Device). d.status) (lookup id devices)

abbrev pub Agrees : List (Text × Status) → List (Text × Device) → Type 0
Agrees status devices = (id : Text) → lookup id status ≡ recorded id devices

-- A change of mode of which the new mode is stored and not yet in the program's memory, with the setting that
-- it replaces.
pub record Change : Type 0 where
  pub before : Option Mode
  pub mode : Mode

abbrev Stored : Option Change → Option Mode → Type 0
Stored none setting = Unit
Stored (some c) setting = setting ≡ some c.mode

abbrev pub Replaced : Option Change → Mode → Type 0
Replaced none mode = ⊥
Replaced (some c) mode = mode ≡ or_else c.before off

-- Once it has read the decisions, the program's memory says of every device what the database says,
-- and its mode is the one on record, or the one that a change of mode replaces.
abbrev pub Mirrors : Option Change → Access → Type 0
Mirrors change a =
    Stored change a.setting
    × (a.loaded ≡ true
        → Agrees a.status a.devices × ((a.mode ≡ or_else a.setting off) ⊎ Replaced change a.mode))

put-Agrees :
    (id : Text) (d : Device) (status : List (Text × Status)) (devices : List (Text × Device))
    → Agrees status devices
    → Agrees (put id d.status status) (put id d devices)
put-Agrees id d status devices h other = elim (Bool-cases (text_eq id other)) [
  | inl e ↦
      let same : id ≡ other = (text_eq_iff id other).0 e in
      rw (← same) (
        lookup-put_same id d.status status
        ∙ sym (ap (Option.map (λ (x : Device). x.status)) (lookup-put_same id d devices)))
  | inr e ↦
      lookup-put_other id other d.status status e
      ∙ h other
      ∙ sym (ap (Option.map (λ (x : Device). x.status)) (lookup-put_other id other d devices e))
]

erase-Agrees :
    (id : Text) (status : List (Text × Status)) (devices : List (Text × Device))
    → Agrees status devices
    → Agrees (erase id status) (erase id devices)
erase-Agrees id status devices h other = elim (Bool-cases (text_eq id other)) [
  | inl e ↦
      let same : id ≡ other = (text_eq_iff id other).0 e in
      rw (← same) (
        lookup-erase_same id status
        ∙ sym (ap (Option.map (λ (x : Device). x.status)) (lookup-erase_same id devices)))
  | inr e ↦
      lookup-erase_other id other status e
      ∙ h other
      ∙ sym (ap (Option.map (λ (x : Device). x.status)) (lookup-erase_other id other devices e))
]

recorded-decide_rows :
    (id other : Text) (status : Status) (now : ℕ) (devices : List (Text × Device))
    → recorded other (decide_rows id status now devices) ≡ (
        if text_eq id other
        then Option.map (λ _. status) (recorded other devices)
        else recorded other devices)
unfolding decide_rows lookup decide_row
recorded-decide_rows id other status now [] = ground arith
recorded-decide_rows id other status now ((j, d) ∷ devices) = ground (
  arith,
  recorded-decide_rows id other status now devices,
  text_eq_iff j id,
  text_eq_iff j other,
  text_eq_iff id other,
)

lookup-load_status : (devices : List (Text × Device)) → Agrees (load_status devices) devices
unfolding load_status lookup
lookup-load_status [] id = refl
lookup-load_status ((j, d) ∷ devices) id = elim (Bool-cases (text_eq j id)) [
  | inl e ↦ rw e refl
  | inr e ↦ rw e (lookup-erase_other j id (load_status devices) e ∙ lookup-load_status devices id)
]

-- The setting is read, whatever else fails.
abbrev pub ReadsMode : Reads → Type 0
ReadsMode reads = reads.setting_fails ≡ false

module _ (change : Option Change) where
  if-Mirrors :
      (b : Bool) (x y : Access)
      → Mirrors change x
      → Mirrors change y
      → Mirrors change (if b then x else y)
  if-Mirrors true x y h k = h
  if-Mirrors false x y h k = k

  read_devices-Mirrors :
      (reads : Reads) (a : Access) (fails : Bool)
      → ReadsMode reads
      → a.loaded ≡ false
      → Stored change a.setting
      → Mirrors change (read_devices fails reads a)
  unfolding read_devices read_mode
  read_devices-Mirrors reads a true r e s = (s, λ l. absurd (true≢false (sym l ∙ e)))
  read_devices-Mirrors reads a false r e s =
      (s, λ l. (lookup-load_status a.devices, inl (rw r refl)))

  load_unless-Mirrors :
      (reads : Reads) (a : Access) (loaded : Bool)
      → ReadsMode reads
      → a.loaded ≡ loaded
      → Mirrors change a
      → Mirrors change (load_unless loaded reads a)
  unfolding load_unless
  load_unless-Mirrors reads a true r e m = m
  load_unless-Mirrors reads a false r e m = read_devices-Mirrors reads a reads.devices_fail r e m.0

  pub load_approvals-Mirrors :
      (reads : Reads) (a : Access)
      → ReadsMode reads
      → Mirrors change a
      → Mirrors change (load_approvals reads a)
  unfolding load_approvals
  load_approvals-Mirrors reads a r m = load_unless-Mirrors reads a a.loaded r refl m

  record_request-Mirrors :
      (reads : Reads) (id name addr : Text) (now : ℕ) (a : Access)
      → Mirrors change a
      → Mirrors change (record_request reads id name addr now a).0
  unfolding record_request request_row
  record_request-Mirrors reads id name addr now a m = elim (Bool-cases reads.write_fails) [
    | inl e ↦ rw e m
    | inr e ↦ rw e (m.0, λ l. (put-Agrees id _ a.status a.devices (m.1 l).0, (m.1 l).1))
  ]

  request_access-Mirrors :
      (reads : Reads) (id : Option Text) (fresh name addr : Text) (now : ℕ) (a : Access)
      → Mirrors change a
      → Mirrors change (request_access reads id fresh name addr now a).0
  unfolding request_access
  request_access-Mirrors reads (some known) fresh name addr now a m =
      elim (Bool-cases (leb max_pending (count_pending a.status))) [
        | inl e ↦ rw e m
        | inr e ↦ rw e (record_request-Mirrors reads known name addr now a m)
      ]
  request_access-Mirrors reads none fresh name addr now a m =
      elim (Bool-cases (leb max_pending (count_pending a.status))) [
        | inl e ↦ rw e m
        | inr e ↦ elim (Bool-cases (denied_addr reads addr a)) [
          | inl k ↦ rw (e, k) m
          | inr k ↦ rw (e, k) (record_request-Mirrors reads fresh name addr now a m)
        ]
      ]

  ask-Mirrors :
      (reads : Reads) (navigation : Bool) (id : Option Text) (fresh name addr : Text) (now : ℕ)
      (a : Access)
      → Mirrors change a
      → Mirrors change (refuse (ask reads navigation id fresh name addr now a)).0
  unfolding ask refuse
  ask-Mirrors reads true none fresh name addr now a m =
      request_access-Mirrors reads none fresh name addr now a m
  ask-Mirrors reads false none fresh name addr now a m = m
  ask-Mirrors reads navigation (some id) fresh name addr now a m =
      request_access-Mirrors reads (some id) fresh name addr now a m

  admit_status-Mirrors :
      (reads : Reads) (navigation : Bool) (id : Option Text) (status : Option Status)
      (fresh name addr : Text) (now : ℕ) (a : Access)
      → Mirrors change a
      → Mirrors change (admit_status reads navigation id status fresh name addr now a).0
  unfolding admit_status
  admit_status-Mirrors reads navigation id none fresh name addr now a m =
      ask-Mirrors reads navigation id fresh name addr now a m
  admit_status-Mirrors reads navigation id (some pending) fresh name addr now a m = m
  admit_status-Mirrors reads navigation id (some denied) fresh name addr now a m = m
  admit_status-Mirrors reads navigation id (some approved) fresh name addr now a m =
      elim (Bool-cases (still_in a.mode now (lookup (or_else id []) a.seen))) [
        | inl e ↦ rw e m
        | inr e ↦ rw e (ask-Mirrors reads navigation id fresh name addr now a m)
      ]

  pub admit_mode-Mirrors :
      (mode : Mode) (reads : Reads) (navigation : Bool) (id : Option Text) (fresh name addr : Text)
      (now : ℕ) (a : Access)
      → Mirrors change a
      → Mirrors change (admit_mode mode reads navigation id fresh name addr now a).0
  unfolding admit_mode
  admit_mode-Mirrors off reads navigation id fresh name addr now a m = m
  admit_mode-Mirrors once reads navigation id fresh name addr now a m =
      admit_status-Mirrors reads navigation id _ fresh name addr now a m
  admit_mode-Mirrors always reads navigation id fresh name addr now a m =
      admit_status-Mirrors reads navigation id _ fresh name addr now a m

  known-decided :
      (o : Option Status) (status old : Status)
      → o ≡ some old
      → Option.map (λ _. status) o ≡ some status
  known-decided none status old h = cc
  known-decided (some s) status old h = refl

  decide_rows-Agrees :
      (id : Text) (status old : Status) (now : ℕ) (a : Access)
      → lookup id a.status ≡ some old
      → Agrees a.status a.devices
      → Agrees (put id status a.status) (decide_rows id status now a.devices)
  decide_rows-Agrees id status old now a h g other = elim (Bool-cases (text_eq id other)) [
    | inl e ↦
        let same : id ≡ other = (text_eq_iff id other).0 e in
        ap (λ x. lookup x (put id status a.status)) (sym same)
        ∙ lookup-put_same id status a.status
        ∙ sym (
            known-decided (recorded other a.devices) status old
              (sym (g other) ∙ ap (λ x. lookup x a.status) (sym same) ∙ h))
        ∙ sym (recorded-decide_rows id other status now a.devices ∙ rw e refl)
    | inr e ↦
        lookup-put_other id other status a.status e
        ∙ g other
        ∙ sym (recorded-decide_rows id other status now a.devices ∙ rw e refl)
  ]

  decide_known-Mirrors :
      (reads : Reads) (id : Text) (status : Status) (now : ℕ) (o : Option Status) (a : Access)
      → lookup id a.status ≡ o
      → Mirrors change a
      → Mirrors change (decide_known reads id status now o a).0
  unfolding decide_known
  decide_known-Mirrors reads id status now none a h m = m
  decide_known-Mirrors reads id status now (some old) a h m = elim (Bool-cases reads.write_fails) [
    | inl e ↦ rw e m
    | inr e ↦ rw e (m.0, λ l. (decide_rows-Agrees id status old now a h (m.1 l).0, (m.1 l).1))
  ]

  pub decide_device-Mirrors :
      (reads : Reads) (id : Text) (status : Status) (now : ℕ) (a : Access)
      → ReadsMode reads
      → Mirrors change a
      → Mirrors change (decide_device reads id status now a).0
  unfolding decide_device
  decide_device-Mirrors reads id status now a r m =
      let a' = load_approvals reads a in
      decide_known-Mirrors reads id status now (lookup id a'.status) a' refl
        (load_approvals-Mirrors reads a r m)

  pub remove_device-Mirrors :
      (reads : Reads) (id : Text) (a : Access)
      → ReadsMode reads
      → Mirrors change a
      → Mirrors change (remove_device reads id a)
  unfolding remove_device
  remove_device-Mirrors reads id a r m =
      let a' = load_approvals reads a in
      let m' = load_approvals-Mirrors reads a r m in
      if-Mirrors reads.write_fails a'
        (record a' {
          devices = erase id a'.devices;
          status = erase id a'.status;
          seen = erase id a'.seen;
        })
        m' (m'.0, λ l. (erase-Agrees id a'.status a'.devices (m'.1 l).0, (m'.1 l).1))

pub store_mode-Mirrors :
    (mode : Mode) (a : Access)
    → Mirrors none a
    → Mirrors (some (record { before = a.setting; mode = mode })) (store_mode mode a)
unfolding store_mode
store_mode-Mirrors mode a m =
    (refl, λ l. ((m.1 l).0, (elim (m.1 l).1 [ inl e ↦ inr e | inr e ↦ absurd e ])))

read_devices-set :
    (reads : Reads) (mode : Mode) (a : Access) (fails : Bool)
    → a.loaded ≡ false
    → a.setting ≡ some mode
    → Mirrors none (record (read_devices fails reads a) { mode = mode })
unfolding read_devices
read_devices-set reads mode a true e s = (tt, λ l. absurd (true≢false (sym l ∙ e)))
read_devices-set reads mode a false e s =
    (tt, λ l. (lookup-load_status a.devices, inl (sym (ap (λ x. or_else x off) s))))

load_unless-set :
    (reads : Reads) (change : Option Change) (mode : Mode) (a : Access) (loaded : Bool)
    → a.loaded ≡ loaded
    → a.setting ≡ some mode
    → Mirrors change a
    → Mirrors none (record (load_unless loaded reads a) { mode = mode })
unfolding load_unless
load_unless-set reads change mode a true e s m =
    (tt, λ l. ((m.1 e).0, inl (sym (ap (λ x. or_else x off) s))))
load_unless-set reads change mode a false e s m =
    read_devices-set reads mode a reads.devices_fail e s

pub apply_mode-Mirrors :
    (reads : Reads) (c : Change) (a : Access)
    → Mirrors (some c) a
    → Mirrors none (apply_mode reads c.mode a)
unfolding apply_mode load_approvals
apply_mode-Mirrors reads c a m = load_unless-set reads (some c) c.mode a a.loaded refl m.0 m
