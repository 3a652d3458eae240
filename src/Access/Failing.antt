-- ===== src/Access/Failing.antt =====
-- internal/server/approval.go: two ways in which a read that fails undoes what the host decided.
use mathlib.Core.Option
use mathlib.Core.Path.{subst}
use kuro.Base.{
  if◌then◌else◌, Bool, Bool-cases, sym, inl, inr, ℕ, ◌≡◌, refl, ap, ◌∙◌, true, false, [], Option,
  none, some, Text,
}
use kuro.Base.Maps.{lookup, lookup-put_same}
use kuro.Access.Request.{Net, Request}
use kuro.Access.Approvals.{
  Mode, Status, decide_device, decide_known, remove_device, pending, off, once, Access, Reads,
  count_pending, read_devices, load_unless, load_approvals, read_mode, load_status, Told,
  request_row, record_request, request_access, ask, refuse, admit_status, admit_mode, admit_loaded,
}
use kuro.Access.Guard.{Secrets, device_key, is_navigation, peer_addr, admit}
use kuro.Access.Mirror.{recorded}

-- The request of a known device, when there is room and the database takes it.
request_access-recorded :
    (reads : Reads) (id fresh name addr : Text) (now : ℕ) (a : Access)
    → reads.write_fails ≡ false
    → a.status ≡ []
    → recorded id (request_access reads (some id) fresh name addr now a).0.devices ≡ some pending
unfolding request_access record_request request_row count_pending
request_access-recorded reads id fresh name addr now a w e =
    rw (e, w) (ap (Option.map (λ d. d.status)) (lookup-put_same id _ a.devices))

load_missed :
    (reads : Reads) (a : Access)
    → a.loaded ≡ false
    → reads.devices_fail ≡ true
    → load_approvals reads a ≡ record a { mode = once; status = []; seen = [] }
unfolding load_approvals load_unless read_devices
load_missed reads a l d = ap (λ x. load_unless x reads a) l ∙ ap (λ x. read_devices x reads a) d

load_without_mode :
    (reads : Reads) (a : Access)
    → a.loaded ≡ false
    → reads.devices_fail ≡ false
    → reads.setting_fails ≡ true
    → load_approvals reads a
      ≡ record a { loaded = true; mode = off; status = load_status a.devices; seen = [] }
unfolding load_approvals load_unless read_devices read_mode
load_without_mode reads a l d s =
    ap (λ x. load_unless x reads a) l
    ∙ ap (λ x. read_devices x reads a) d
    ∙ ap
        (λ x. record a {
          loaded = true;
          mode = read_mode x a.setting;
          status = load_status a.devices;
          seen = [];
        })
        s

module _ (net : Net) (secrets : Secrets) where
  -- When the decisions are not read yet and the read of the devices fails, a request from a device with
  -- an identity, if the write works, leaves the device as pending in the database, whatever the host had
  -- decided on it.
  pub admit_forgets :
      (reads : Reads) (r : Request) (now : ℕ) (a : Access) (id : Text)
      → a.loaded ≡ false
      → reads.devices_fail ≡ true
      → reads.write_fails ≡ false
      → device_key secrets r.device_cookie ≡ some id
      → recorded id (admit net secrets reads r now a).0.devices ≡ some pending
  unfolding admit admit_loaded admit_mode admit_status ask refuse lookup
  admit_forgets reads r now a id l d w k =
      let after : Option Text → Access → Option Status = λ key x.
        recorded id
          (admit_loaded reads (is_navigation r) key secrets.fresh (secrets.device_name r.user_agent)
            (peer_addr net secrets r) now x).0.devices in
      ap (λ x. after (device_key secrets r.device_cookie) x) (load_missed reads a l d)
      ∙ ap (λ key. after key (record a { mode = once; status = []; seen = [] })) k
      ∙ request_access-recorded reads id secrets.fresh _ _ now
          (record a { mode = once; status = []; seen = [] }) w refl

  -- The program has read the decisions, and its mode is off.
  IsOpen : Access → Type 0
  IsOpen a = (a.loaded ≡ true) × (a.mode ≡ off)

  -- What comes before the mode is set again and the program restarts: requests, decisions and removals,
  -- whatever fails, and listings.
  pub data Meanwhile : Access → Access → Type 0 where
    stays : {a : Access} → Meanwhile a a
    asks_then :
        {a b : Access} (s : Secrets) (reads : Reads) (r : Request) (now : ℕ)
        → Meanwhile a b
        → Meanwhile a (admit net s reads r now b).0
    decides :
        {a b : Access} (reads : Reads) (id : Text) (status : Status) (now : ℕ)
        → Meanwhile a b
        → Meanwhile a (decide_device reads id status now b).0
    removes :
        {a b : Access} (reads : Reads) (id : Text)
        → Meanwhile a b
        → Meanwhile a (remove_device reads id b)
    lists : {a b : Access} (reads : Reads) → Meanwhile a b → Meanwhile a (load_approvals reads b)

  loaded_stays : (reads : Reads) (a : Access) → a.loaded ≡ true → load_approvals reads a ≡ a
  unfolding load_approvals load_unless
  loaded_stays reads a l = ap (λ x. load_unless x reads a) l

  admit-IsOpen :
      (s : Secrets) (reads : Reads) (r : Request) (now : ℕ) (a : Access)
      → IsOpen a
      → admit net s reads r now a ≡ (a, none)
  unfolding admit admit_loaded IsOpen
  admit-IsOpen s reads r now a (l, m) =
      let ask_with : Mode → Access → Access × Option Told = λ mode x.
        admit_mode mode reads (is_navigation r) (device_key s r.device_cookie) s.fresh
          (s.device_name r.user_agent) (peer_addr net s r) now x in
      ap (λ x. ask_with x.mode x) (loaded_stays reads a l)
      ∙ ap (λ mode. ask_with mode a) m
      ∙ unfold admit_mode in refl

  if-IsOpen : (b : Bool) (x y : Access) → IsOpen x → IsOpen y → IsOpen (if b then x else y)
  if-IsOpen true x y h k = h
  if-IsOpen false x y h k = k

  decide_known-IsOpen :
      (reads : Reads) (id : Text) (status : Status) (now : ℕ) (old : Option Status) (a : Access)
      → IsOpen a
      → IsOpen (decide_known reads id status now old a).0
  unfolding decide_known IsOpen
  decide_known-IsOpen reads id status now none a h = h
  decide_known-IsOpen reads id status now (some old) a h = elim (Bool-cases reads.write_fails) [
    | inl e ↦ rw e h
    | inr e ↦ rw e h
  ]

  load-IsOpen : (reads : Reads) (a : Access) → IsOpen a → IsOpen (load_approvals reads a)
  unfolding IsOpen
  load-IsOpen reads a (l, m) = subst IsOpen (sym (loaded_stays reads a l)) (l, m)

  remove_device-IsOpen :
      (reads : Reads) (id : Text) (a : Access) → IsOpen a → IsOpen (remove_device reads id a)
  unfolding remove_device IsOpen
  remove_device-IsOpen reads id a h =
      if-IsOpen reads.write_fails (load_approvals reads a) _ (load-IsOpen reads a h)
        (load-IsOpen reads a h)

  Meanwhile-IsOpen : {a b : Access} → Meanwhile a b → IsOpen a → IsOpen b
  unfolding decide_device
  Meanwhile-IsOpen stays h = h
  Meanwhile-IsOpen (asks_then {a} {b} s reads r now before) h =
      let k = Meanwhile-IsOpen before h in
      subst (λ x. IsOpen x.0) (sym (admit-IsOpen s reads r now b k)) k
  Meanwhile-IsOpen (decides {a} {b} reads id status now before) h =
      let b' = load_approvals reads b in
      decide_known-IsOpen reads id status now (lookup id b'.status) b'
        (load-IsOpen reads b (Meanwhile-IsOpen before h))
  Meanwhile-IsOpen (removes {a} {b} reads id before) h =
      remove_device-IsOpen reads id b (Meanwhile-IsOpen before h)
  Meanwhile-IsOpen (lists {a} {b} reads before) h = load-IsOpen reads b (Meanwhile-IsOpen before h)

  without_mode-IsOpen :
      (reads : Reads) (a : Access)
      → a.loaded ≡ false
      → reads.devices_fail ≡ false
      → reads.setting_fails ≡ true
      → IsOpen (load_approvals reads a)
  unfolding IsOpen
  without_mode-IsOpen reads a l d e =
      subst IsOpen (sym (load_without_mode reads a l d e)) (refl, refl)

  -- When the decisions are not read yet and the read of the mode alone fails, then whatever mode is on
  -- record and whatever the host decided on any device, every request is let in that comes after any
  -- requests, decisions, removals and listings, the first of them included, before the mode is set again
  -- or the program restarts.
  pub admit_opens :
      (reads later : Reads) (r : Request) (now : ℕ) (a b : Access)
      → a.loaded ≡ false
      → reads.devices_fail ≡ false
      → reads.setting_fails ≡ true
      → Meanwhile (load_approvals reads a) b
      → (admit net secrets later r now b).1 ≡ none
  admit_opens reads later r now a b l d e before =
      ap (λ x. x.1)
        (admit-IsOpen secrets later r now b
          (Meanwhile-IsOpen before (without_mode-IsOpen reads a l d e)))
