-- ===== src/Access/Safety.antt =====
-- internal/server/access.go and internal/server/approval.go: what has to hold for a request to reach a
-- handler, and two ways in which a failing read undoes the host's decisions.
use mathlib.Core.Path.{subst}
use kuro.Base.{
  ℕ, ◌≡◌, ◌≢◌, refl, sym, ap, ◌∙◌, ◌⊎◌, inl, inr, Bool, true, false, not, ◌&&◌, ◌||◌, [], Option,
  none, some, Text, text, text_eq, has, Bool-cases, if◌then◌else◌,
}
use kuro.Base.Maps.{lookup}
use kuro.Access.Request.{
  Net, Request, is_loopback, loopback_host, same_origin, bound, safe_method, install_assets,
  presented, or_else,
}
use kuro.Access.Approvals.{
  Status, pending, approved, denied, Mode, off, once, always, Access, Reads, Told, read_devices,
  load_unless, load_approvals, ask, refuse, admit_status, admit_mode, admit_loaded,
}
use kuro.Access.Guard.{
  Secrets, Gate, Verdict, serves, cross_site, network_off, unconfigured, bad_token, device_key,
  admit, admitted, guard_token, guard,
}
use kuro.Access.Mirror.{Change, Replaced, recorded, Mirrors, ReadsMode, load_approvals-Mirrors}
use kuro.Access.Runs.{Reached, Reached-Mirrors}

refused_not_in : (x : Access × Told) → (refuse x).1 ≡ none → ⊥
unfolding refuse
refused_not_in (a, told) h = cc

admit_status_enters :
    (reads : Reads) (navigation : Bool) (id : Option Text) (status : Option Status)
    (fresh name addr : Text) (now : ℕ) (a : Access)
    → (admit_status reads navigation id status fresh name addr now a).1 ≡ none
    → status ≡ some approved
unfolding admit_status
admit_status_enters reads navigation id none fresh name addr now a h =
    absurd (refused_not_in (ask reads navigation id fresh name addr now a) h)
admit_status_enters reads navigation id (some pending) fresh name addr now a h = cc
admit_status_enters reads navigation id (some denied) fresh name addr now a h = cc
admit_status_enters reads navigation id (some approved) fresh name addr now a h = refl

admit_mode_enters :
    (mode : Mode) (reads : Reads) (navigation : Bool) (id : Option Text) (fresh name addr : Text)
    (now : ℕ) (a : Access)
    → (admit_mode mode reads navigation id fresh name addr now a).1 ≡ none
    → (mode ≡ off) ⊎ ((mode ≢ off) × (lookup (or_else id []) a.status ≡ some approved))
unfolding admit_mode
admit_mode_enters off reads navigation id fresh name addr now a h = inl refl
admit_mode_enters once reads navigation id fresh name addr now a h =
    inr (λ e. cc, admit_status_enters reads navigation id _ fresh name addr now a h)
admit_mode_enters always reads navigation id fresh name addr now a h =
    inr (λ e. cc, admit_status_enters reads navigation id _ fresh name addr now a h)

-- The database after the decisions are read, and what is known where they could not be.
abbrev Read : Access → Access → Type 0
Read a a' =
    (a'.setting ≡ a.setting)
    × (a'.devices ≡ a.devices)
    × ((a'.loaded ≡ true) ⊎ ((a'.mode ≡ once) × (a'.status ≡ [])))

read_devices-Read :
    (fails : Bool) (reads : Reads) (a : Access) → Read a (read_devices fails reads a)
unfolding read_devices
read_devices-Read true reads a = (refl, refl, inr (refl, refl))
read_devices-Read false reads a = (refl, refl, inl refl)

load_unless-Read :
    (loaded : Bool) (reads : Reads) (a : Access)
    → a.loaded ≡ loaded
    → Read a (load_unless loaded reads a)
unfolding load_unless
load_unless-Read true reads a e = (refl, refl, inl e)
load_unless-Read false reads a e = read_devices-Read reads.devices_fail reads a

load_approvals-Read : (reads : Reads) (a : Access) → Read a (load_approvals reads a)
unfolding load_approvals
load_approvals-Read reads a = load_unless-Read a.loaded reads a refl

-- By the database the host lets every device in, or did so before a change of mode that is still under way, or
-- has accepted this one.
abbrev pub Accepted : Option Text → Option Change → Access → Type 0
Accepted id change a =
    (or_else a.setting off ≡ off)
    ⊎ Replaced change off
    ⊎ (recorded (or_else id []) a.devices ≡ some approved)

enters :
    (id : Option Text) (change : Option Change) (a a' : Access)
    → Read a a'
    → Mirrors change a'
    → (a'.mode ≡ off) ⊎ ((a'.mode ≢ off) × (lookup (or_else id []) a'.status ≡ some approved))
    → Accepted id change a
enters id change a a' (s, d, inl l) m (inl e) = elim (m.1 l).1 [
  | inl on_record ↦ inl (sym (ap (λ x. or_else x off) s) ∙ sym on_record ∙ e)
  | inr replaced ↦ inr (inl (subst (Replaced change) e replaced))
]
enters id change a a' (s, d, inl l) m (inr (n, k)) =
    inr (inr (ap (recorded (or_else id [])) (sym d) ∙ sym ((m.1 l).0 (or_else id [])) ∙ k))
enters id change a a' (s, d, inr (o, none_yet)) m (inl e) = absurd (cannot (sym o ∙ e))
  where
    cannot : ◌≡◌ {A = Mode} once off → ⊥
    cannot e = cc
enters id change a a' (s, d, inr (o, none_yet)) m (inr (n, k)) =
    absurd (nothing (sym k ∙ ap (lookup (or_else id [])) none_yet))
  where
    nothing : some approved ≡ lookup (or_else id []) [] → ⊥
    nothing e = unfold lookup in cc

-- A test of `guard` that turns the request away, passed.
if_stops :
    (b : Bool) (v : Verdict) (g : Gate) (rest : Gate × Verdict)
    → (v ≡ serves → ⊥)
    → (if b then (g, v) else rest).1 ≡ serves
    → (b ≡ false) × (rest.1 ≡ serves)
if_stops true v g rest stops h = absurd (stops h)
if_stops false v g rest stops h = (refl, h)

-- A test of `guard` that serves the request at once.
if_serves :
    (b : Bool) (g : Gate) (rest : Gate × Verdict)
    → (if b then (g, serves) else rest).1 ≡ serves
    → (b ≡ true) ⊎ (rest.1 ≡ serves)
if_serves true g rest h = inl refl
if_serves false g rest h = inr h

or_of_not : (b c : Bool) → (not b && not c) ≡ false → (b || c) ≡ true
or_of_not true c h = refl
or_of_not false true h = refl
or_of_not false false h = sym h

or_of_not3 : (a b c : Bool) → (not a && b && not c) ≡ false → (a || not b || c) ≡ true
or_of_not3 true b c h = refl
or_of_not3 false false c h = refl
or_of_not3 false true true h = refl
or_of_not3 false true false h = sym h

module _ (net : Net) (secrets : Secrets) (change : Option Change) where
  admit-Accepted :
      (reads : Reads) (r : Request) (now : ℕ) (a : Access)
      → ReadsMode reads
      → Mirrors change a
      → (admit net secrets reads r now a).1 ≡ none
      → Accepted (device_key secrets r.device_cookie) change a
  unfolding admit admit_loaded
  admit-Accepted reads r now a ok m h =
      let a' = load_approvals reads a in
      enters (device_key secrets r.device_cookie) change a a' (load_approvals-Read reads a)
        (load_approvals-Mirrors change reads a ok m)
        (admit_mode_enters a'.mode reads _ _ secrets.fresh _ _ now a' h)

  admitted_enters :
      (g : Gate) (x : Access × Option Told) → (admitted net secrets g x).1 ≡ serves → x.1 ≡ none
  unfolding admitted
  admitted_enters g (a, none) h = refl
  admitted_enters g (a, some told) h = cc

  -- A request that holds the token, from a device that the host accepts.
  abbrev pub HasToken : Request → Gate → Type 0
  HasToken r g =
      (text_eq g.token [] ≡ false)
      × (text_eq (presented r) g.token ≡ true)
      × Accepted (device_key secrets r.device_cookie) change g.access

  guard_token-HasToken :
      (reads : Reads) (r : Request) (now : ℕ) (g : Gate)
      → ReadsMode reads
      → Mirrors change g.access
      → (guard_token net secrets reads r now g).1 ≡ serves
      → HasToken r g
  unfolding guard_token
  guard_token-HasToken reads r now g ok m h = elim (Bool-cases (text_eq g.token [])) [
    | inl e ↦ absurd (stopped (rw e at h))
    | inr e ↦ elim (Bool-cases (text_eq (presented r) g.token)) [
      | inr k ↦ absurd (denied_token (rw (e, k) at h))
      | inl k ↦
          (e, k, admit-Accepted reads r now g.access ok m (admitted_enters g _ (rw (e, k) at h)))
    ]
  ]
    where
      stopped : ◌≡◌ {A = Verdict} unconfigured serves → ⊥
      stopped e = cc

      denied_token : ◌≡◌ {A = Verdict} bad_token serves → ⊥
      denied_token e = cc

  -- What has to hold of a request that reaches a handler.
  abbrev pub Allowed : Request → Gate → Type 0
  Allowed r g =
      ((safe_method r.method || same_origin net r) ≡ true)
      × (((is_loopback net r.remote_addr && loopback_host net r.host) ≡ true)
          ⊎ ((is_loopback net r.remote_addr || not g.can_rebind || bound net g.listening) ≡ true)
            × (((text_eq r.method (text "GET") && has r.path install_assets) ≡ true)
                ⊎ HasToken r g))

  -- The last two tests.
  guard_network-Allowed :
      (reads : Reads) (r : Request) (now : ℕ) (g : Gate)
      → ReadsMode reads
      → Mirrors change g.access
      → (if not (is_loopback net r.remote_addr) && g.can_rebind && not (bound net g.listening)
          then (g, network_off)
          else if text_eq r.method (text "GET") && has r.path install_assets
          then (g, serves)
          else guard_token net secrets reads r now g).1
        ≡ serves
      → ((is_loopback net r.remote_addr || not g.can_rebind || bound net g.listening) ≡ true)
        × (((text_eq r.method (text "GET") && has r.path install_assets) ≡ true) ⊎ HasToken r g)
  guard_network-Allowed reads r now g ok m h =
      let (on, h1) =
        if_stops
          (not (is_loopback net r.remote_addr) && g.can_rebind && not (bound net g.listening))
          network_off g _ (λ e. cc) h in
      (
        or_of_not3 (is_loopback net r.remote_addr) g.can_rebind (bound net g.listening) on,
        (elim (if_serves (text_eq r.method (text "GET") && has r.path install_assets) g _ h1) [
          | inl asset ↦ inl asset
          | inr h2 ↦ inr (guard_token-HasToken reads r now g ok m h2)
        ]),
      )

  guard-Allowed :
      (reads : Reads) (r : Request) (now : ℕ) (g : Gate)
      → ReadsMode reads
      → Mirrors change g.access
      → (guard net secrets reads r now g).1 ≡ serves
      → Allowed r g
  unfolding guard
  guard-Allowed reads r now g ok m h =
      let (same, h1) =
        if_stops (not (safe_method r.method) && not (same_origin net r)) cross_site g _ (λ e. cc)
          h in
      (
        or_of_not (safe_method r.method) (same_origin net r) same,
        (elim (if_serves (is_loopback net r.remote_addr && loopback_host net r.host) g _ h1) [
          | inl local ↦ inl local
          | inr h2 ↦ inr (guard_network-Allowed reads r now g ok m h2)
        ]),
      )

  -- Whatever requests, decisions, removals, changes of mode, of which no two overlap, and restarts came
  -- before, and whichever reads of the devices and writes failed, as long as the mode could be read: a
  -- request that `guard` passes to a handler either changes nothing or comes from this origin, and it comes
  -- from this machine under a loopback name; or the listener is open to the network, where it can be
  -- closed at all and the request is not from this machine, and the request is a GET of a file that
  -- installs the program, or it has the token, which is not empty, and by the database the host lets every
  -- device in, or did so before a change of mode that is still under way, or has approved this one.
  pub guard_lem :
      (reads : Reads) (r : Request) (now : ℕ) (g : Gate)
      → ReadsMode reads
      → Reached net (record { access = g.access; change = change })
      → (guard net secrets reads r now g).1 ≡ serves
      → Allowed r g
  guard_lem reads r now g ok reached h =
      guard-Allowed reads r now g ok (Reached-Mirrors net reached) h
