-- ===== src/Access/Tests.antt =====
-- A host with one approved phone, which asks over the network.
use kuro.Base.{ℕ, ◌*◌, ◌≡◌, refl, true, false, [], none, some, text, text_eq, has}
use kuro.Access.Request.{Net, Request, presented}
use kuro.Base.Maps.{lookup}
use kuro.Access.Approvals.{
  denied, load_approvals, still_in, pending, approved, once, Access, Reads, set_approval,
  decide_device, restart_access,
}
use kuro.Access.Guard.{Secrets, Gate, serves, admit, guard, device_key}
use kuro.Access.Mirror.{recorded, Mirrors}
use kuro.Access.Runs.{
  World, Reached, begins, steps, asks, stores, applies, decides, first_access, Reached-Mirrors,
}
use kuro.Access.Safety.{Allowed, guard_lem}
use kuro.Access.Failing.{stays, asks_then, admit_forgets, admit_opens}

-- Addresses have no port; 127.0.0.1 is loopback.
abbrev sample_net : Net
sample_net = record {
  split_host = λ s. some s;
  parse_ip =
      λ s. some (record { is_loopback = text_eq s (text "127.0.0.1"); is_unspecified = false });
  url_host = λ s. none;
}

abbrev sample_secrets : Secrets
sample_secrets = record { device_id = λ s. s; fresh = text "new"; device_name = λ s. text "Chrome" }

abbrev no_faults : Reads
no_faults = record {
  setting_fails = false;
  devices_fail = false;
  addrs_fail = false;
  write_fails = false;
}

abbrev page : Request
page = record {
  method = text "GET";
  remote_addr = text "10.0.0.7";
  host = text "kuro";
  path = text "/";
  authorization = [];
  origin = [];
  fetch_site = [];
  accept = text "text/html";
  user_agent = [];
  query_token = [];
  access_cookie = some (text "key");
  device_cookie = some (text "phone");
}

abbrev later : ℕ
later = 1000 * 1000000000

-- The host sets the mode, the phone asks, and the host approves it.
abbrev closed : Access
closed = set_approval no_faults once (first_access sample_net)

abbrev asked : Access
asked = (admit sample_net sample_secrets no_faults page later closed).0

abbrev accepted : Access
accepted = (decide_device no_faults (text "phone") approved later asked).0

abbrev settled : Access → World
settled a = record { access = a; change = none }

-- The mode is stored and then applied.
closed-Reached : Reached sample_net (settled closed)
unfolding set_approval
closed-Reached =
    steps (steps begins (stores once refl))
      (applies no_faults (record { before = none; mode = once }) refl)

accepted-Reached : Reached sample_net (settled accepted)
accepted-Reached =
    steps (steps closed-Reached (asks sample_secrets no_faults page later refl))
      (decides no_faults (text "phone") approved later refl)

abbrev gate : Gate
gate = record {
  can_rebind = true;
  listening = text "0.0.0.0";
  token = text "key";
  access = accepted;
}

Reached-Mirrors_example : Mirrors none accepted
Reached-Mirrors_example = Reached-Mirrors sample_net accepted-Reached

guard_serves : (guard sample_net sample_secrets no_faults page later gate).1 ≡ serves
unfolding guard set_approval decide_device admit has presented lookup still_in
guard_serves = refl

guard_lem_example : Allowed sample_net sample_secrets none page gate
guard_lem_example =
    guard_lem sample_net sample_secrets none no_faults page later gate refl accepted-Reached
      guard_serves

-- After a restart the next read of the devices fails.
abbrev missing_devices : Reads
missing_devices = record {
  setting_fails = false;
  devices_fail = true;
  addrs_fail = true;
  write_fails = false;
}

abbrev missing_mode : Reads
missing_mode = record {
  setting_fails = true;
  devices_fail = false;
  addrs_fail = false;
  write_fails = false;
}

phone_key : device_key sample_secrets page.device_cookie ≡ some (text "phone")
unfolding device_key
phone_key = refl

admit_forgets_example :
    recorded
      (text "phone")
      (admit sample_net sample_secrets missing_devices page later
        (restart_access accepted)).0.devices
    ≡ some pending
unfolding restart_access
admit_forgets_example =
    admit_forgets sample_net sample_secrets missing_devices page later (restart_access accepted)
      (text "phone") refl refl refl phone_key

-- A denied phone comes in after another request.
abbrev turned_away : Access
turned_away = (decide_device no_faults (text "phone") denied later asked).0

admit_opens_example :
    (admit sample_net sample_secrets no_faults page later
      (admit sample_net sample_secrets no_faults page later
        (load_approvals missing_mode (restart_access turned_away))).0).1
    ≡ none
unfolding restart_access
admit_opens_example =
    admit_opens sample_net sample_secrets missing_mode no_faults page later
      (restart_access turned_away)
      (admit sample_net sample_secrets no_faults page later
        (load_approvals missing_mode (restart_access turned_away))).0
      refl refl refl (asks_then sample_secrets no_faults page later stays)
