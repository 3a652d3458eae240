-- ===== src/Access/Approvals.antt =====
-- internal/server/approval.go and internal/store/access.go: the host's say over the devices that hold
-- the token. Times are nanoseconds, those of the table seconds, and each read or write of the database may fail.
use kuro.Base.{
  ℕ, suc, ◌-◌, ◌*◌, ◌/◌, Bool, true, false, not, ◌&&◌, List, [], ◌∷◌, Option, none, some, Text,
  text_eq, any, leb, if◌then◌else◌,
}
use kuro.Base.Maps.{lookup, put, erase}
use kuro.Access.Request.{or_else}

-- `DevicePending`, `DeviceApproved`, `DeviceDenied`
pub data Status : Type 0 where
  pending approved denied : Status

-- `off`, `once`, `always`
pub data Mode : Type 0 where
  off once always : Mode

pub record Device : Type 0 where
  pub name : Text
  pub addr : Text
  pub status : Status
  pub requested_at : ℕ
  pub decided_at : ℕ

-- The program's memory and, in `setting` and `devices`, the database: the table by its key, the id.
pub record Access : Type 0 where
  pub loaded : Bool
  pub mode : Mode
  pub status : List (Text × Status)
  pub seen : List (Text × ℕ)
  pub setting : Option Mode
  pub devices : List (Text × Device)

-- What the database does for one request.
pub record Reads : Type 0 where
  pub setting_fails : Bool
  pub devices_fail : Bool
  -- The second read of the devices, for the addresses of those turned down.
  pub addrs_fail : Bool
  pub write_fails : Bool

-- `time.Now().Unix()`
abbrev pub to_unix : ℕ → ℕ
to_unix now = now / 1000000000

abbrev pub approval_idle : ℕ
approval_idle = 30 * 60 * 1000000000

abbrev pub max_pending : ℕ
max_pending = 20

-- The statuses of the table, as a map.
unfoldable pub load_status : List (Text × Device) → List (Text × Status)
unfolding put
load_status [] = []
load_status ((id, d) ∷ devices) = put id d.status (load_status devices)

unfoldable pub read_mode : Bool → Option Mode → Mode
read_mode true setting = off
read_mode false setting = or_else setting off

-- The argument says that the devices could not be read: not marked loaded, so the next request reads
-- again.
unfoldable pub read_devices : Bool → Reads → Access → Access
unfolding load_status read_mode
read_devices true reads a = record a { mode = once; status = []; seen = [] }
read_devices false reads a = record a {
  loaded = true;
  mode = read_mode reads.setting_fails a.setting;
  status = load_status a.devices;
  seen = [];
}

unfoldable pub load_unless : Bool → Reads → Access → Access
unfolding read_devices
load_unless true reads a = a
load_unless false reads a = read_devices reads.devices_fail reads a

-- `loadApprovals`, with a store.
unfoldable pub load_approvals : Reads → Access → Access
unfolding load_unless
load_approvals reads a = load_unless a.loaded reads a

-- How many devices wait.
unfoldable pub count_pending : List (Text × Status) → ℕ
count_pending [] = 0
count_pending ((id, pending) ∷ status) = suc (count_pending status)
count_pending ((id, approved) ∷ status) = count_pending status
count_pending ((id, denied) ∷ status) = count_pending status

is_denied_at : Text → Text × Device → Bool
is_denied_at addr (id, d) =
    (elim d.status [ pending ↦ false | approved ↦ false | denied ↦ true ]) && text_eq d.addr addr

-- `deniedAddr`
unfoldable pub denied_addr : Reads → Text → Access → Bool
unfolding is_denied_at
denied_addr reads addr a = not reads.addrs_fail && any (is_denied_at addr) a.devices

-- What a device that may not enter is told.
pub data Told : Type 0 where
  -- No request was recorded.
  unasked : Told
  waits : Told
  turned_down : Told
  full : Told

abbrev pub told_of : Status → Told
told_of pending = waits
told_of approved = waits
told_of denied = turned_down

-- `RequestAccess` of the store.
unfoldable pub request_row : Text → Text → Text → ℕ → List (Text × Device) → List (Text × Device)
unfolding put
request_row id name addr now devices =
    put id
      (record {
        name = name;
        addr = addr;
        status = pending;
        requested_at = to_unix now;
        decided_at = (elim (lookup id devices) [ none ↦ 0 | some d ↦ d.decided_at ]);
      })
      devices

-- The request of a device with an identity, old or new, is recorded.
unfoldable pub record_request : Reads → Text → Text → Text → ℕ → Access → Access × Told
unfolding request_row
record_request reads id name addr now a = if reads.write_fails then (a, full) else (
  record a { devices = request_row id name addr now a.devices; status = put id pending a.status },
  waits,
)

-- `requestAccess`: `fresh` is the identity of the secret made for a device without one.
unfoldable pub request_access :
    Reads → Option Text → Text → Text → Text → ℕ → Access → Access × Told
unfolding record_request count_pending denied_addr
request_access reads id fresh name addr now a =
    if leb max_pending (count_pending a.status) then (a, full) else (elim id [
      | some known ↦ record_request reads known name addr now a
      | none ↦
          if denied_addr reads addr a
          then (a, turned_down)
          else record_request reads fresh name addr now a
    ])

-- `now.Sub(a.seen[id]) <= approvalIdle`; a device not seen yet was seen at the zero time.
unfoldable pub seen_lately : ℕ → Option ℕ → Bool
seen_lately now none = false
seen_lately now (some t) = leb (now - t) approval_idle

unfoldable pub still_in : Mode → ℕ → Option ℕ → Bool
unfolding seen_lately
still_in off now seen = seen_lately now seen
still_in once now seen = true
still_in always now seen = seen_lately now seen

-- A request of a device that is not let in: a script without an identity earns no row.
unfoldable pub ask : Reads → Bool → Option Text → Text → Text → Text → ℕ → Access → Access × Told
unfolding request_access
ask reads navigation none fresh name addr now a =
    if navigation then request_access reads none fresh name addr now a else (a, unasked)
ask reads navigation (some id) fresh name addr now a =
    request_access reads (some id) fresh name addr now a

unfoldable pub refuse : Access × Told → Access × Option Told
refuse (a, told) = (a, some told)

-- By what is on record for the device.
unfoldable pub admit_status :
    Reads
    → Bool
    → Option Text
    → Option Status
    → Text
    → Text
    → Text
    → ℕ
    → Access
    → Access × Option Told
unfolding ask refuse
admit_status reads navigation id none fresh name addr now a =
    refuse (ask reads navigation id fresh name addr now a)
admit_status reads navigation id (some pending) fresh name addr now a = (a, some waits)
admit_status reads navigation id (some denied) fresh name addr now a = (a, some turned_down)
admit_status reads navigation id (some approved) fresh name addr now a =
    let key : Text = or_else id [] in
    if still_in a.mode now (lookup key a.seen)
    then (record a { seen = put key now a.seen }, none)
    else refuse (ask reads navigation id fresh name addr now a)

unfoldable pub admit_mode :
    Mode → Reads → Bool → Option Text → Text → Text → Text → ℕ → Access → Access × Option Told
unfolding admit_status
admit_mode off reads navigation id fresh name addr now a = (a, none)
admit_mode once reads navigation id fresh name addr now a =
    admit_status reads navigation id (lookup (or_else id []) a.status) fresh name addr now a
admit_mode always reads navigation id fresh name addr now a =
    admit_status reads navigation id (lookup (or_else id []) a.status) fresh name addr now a

-- `admit`, once the decisions are read: none lets the request in.
unfoldable pub admit_loaded :
    Reads → Bool → Option Text → Text → Text → Text → ℕ → Access → Access × Option Told
unfolding admit_mode
admit_loaded reads navigation id fresh name addr now a =
    admit_mode a.mode reads navigation id fresh name addr now a

-- The first part of `setApproval`, for one of the three modes: the statement that stores it, which runs
-- before the lock is taken.
unfoldable pub store_mode : Mode → Access → Access
store_mode mode a = record a { setting = some mode }

-- The second part, under the lock.
unfoldable pub apply_mode : Reads → Mode → Access → Access
unfolding load_approvals
apply_mode reads mode a = record (load_approvals reads a) { mode = mode }

-- Both, with nothing between them.
unfoldable pub set_approval : Reads → Mode → Access → Access
unfolding store_mode apply_mode
set_approval reads mode a =
    if reads.write_fails then a else apply_mode reads mode (store_mode mode a)

unfoldable pub decide_row : Status → ℕ → Device → Device
decide_row status now d = record d { status = status; decided_at = to_unix now }

-- `DecideDevice` of the store: an UPDATE.
unfoldable pub decide_rows : Text → Status → ℕ → List (Text × Device) → List (Text × Device)
unfolding decide_row
decide_rows id status now [] = []
decide_rows id status now ((j, d) ∷ devices) =
    (j, if text_eq j id then decide_row status now d else d) ∷ decide_rows id status now devices

unfoldable pub decide_known : Reads → Text → Status → ℕ → Option Status → Access → Access × Bool
unfolding decide_rows
decide_known reads id status now none a = (a, false)
decide_known reads id status now (some old) a = if reads.write_fails then (a, false) else (
  record a {
    devices = decide_rows id status now a.devices;
    status = put id status a.status;
    seen = put id now a.seen;
  },
  true,
)

-- `decideDevice`, for a status of approved or denied. The Boolean says that it was done.
unfoldable pub decide_device : Reads → Text → Status → ℕ → Access → Access × Bool
unfolding load_approvals decide_known
decide_device reads id status now a =
    let a' = load_approvals reads a in decide_known reads id status now (lookup id a'.status) a'

-- `removeDevice`
unfoldable pub remove_device : Reads → Text → Access → Access
unfolding load_approvals
remove_device reads id a =
    let a' = load_approvals reads a in
    if reads.write_fails then a' else record a' {
      devices = erase id a'.devices;
      status = erase id a'.status;
      seen = erase id a'.seen;
    }

-- A restart of the program keeps only the database.
unfoldable pub restart_access : Access → Access
restart_access a = record a { loaded = false; mode = off; status = []; seen = [] }
