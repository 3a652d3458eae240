-- ===== src/Access/Guard.antt =====
-- internal/server/access.go and internal/server/approval.go: `guard` before every handler, `admit`, and
-- `hostOnly` before those that configure the host.
use kuro.Base.{
  ℕ, Bool, not, ◌&&◌, ◌||◌, [], ◌∷◌, Option, none, some, Text, text, text_eq, has, if◌then◌else◌,
}
use kuro.Access.Request.{
  Net, Request, contains, is_loopback, loopback_host, same_origin, bound, safe_method,
  install_assets, presented, or_else,
}
use kuro.Access.Approvals.{Access, Reads, Told, load_approvals, admit_loaded}

-- What a request brings that the program does not compute: the hash of a secret is that of
-- crypto/sha256, a new secret comes from crypto/rand, the name of a device from its User-Agent.
pub record Secrets : Type 0 where
  pub device_id : Text → Text
  pub fresh : Text
  pub device_name : Text → Text

-- The part of the server that the guard reads. `can_rebind` says that `OnRebind` was called.
pub record Gate : Type 0 where
  pub can_rebind : Bool
  pub listening : Text
  pub token : Text
  pub access : Access

pub data Verdict : Type 0 where
  -- The handler behind the guard runs.
  serves : Verdict
  cross_site : Verdict
  network_off : Verdict
  unconfigured : Verdict
  bad_token : Verdict
  -- The waiting page, or its answer in JSON.
  not_admitted : Told → Verdict

unfoldable pub device_key : Secrets → Option Text → Option Text
device_key s none = none
device_key s (some []) = none
device_key s (some (c ∷ secret)) = some (s.device_id (c ∷ secret))

-- A page load.
unfoldable pub is_navigation : Request → Bool
unfolding contains
is_navigation r = text_eq r.method (text "GET") && contains r.accept (text "text/html")

module _ (net : Net) (secrets : Secrets) where
  unfoldable pub peer_addr : Request → Text
  peer_addr r = or_else (net.split_host r.remote_addr) r.remote_addr

  unfoldable pub admit : Reads → Request → ℕ → Access → Access × Option Told
  unfolding admit_loaded device_key is_navigation peer_addr load_approvals
  admit reads r now a =
      admit_loaded reads (is_navigation r) (device_key secrets r.device_cookie) secrets.fresh
        (secrets.device_name r.user_agent) (peer_addr r) now (load_approvals reads a)

  unfoldable pub admitted : Gate → Access × Option Told → Gate × Verdict
  admitted g (a, none) = (record g { access = a }, serves)
  admitted g (a, some told) = (record g { access = a }, not_admitted told)

  -- With the token checked.
  unfoldable pub guard_token : Reads → Request → ℕ → Gate → Gate × Verdict
  unfolding admitted admit
  guard_token reads r now g =
      if text_eq g.token []
      then (g, unconfigured)
      else if not (text_eq (presented r) g.token)
      then (g, bad_token)
      else admitted g (admit reads r now g.access)

  unfoldable pub guard : Reads → Request → ℕ → Gate → Gate × Verdict
  unfolding guard_token safe_method same_origin is_loopback loopback_host bound
  guard reads r now g =
      if not (safe_method r.method) && not (same_origin net r)
      then (g, cross_site)
      else if is_loopback net r.remote_addr && loopback_host net r.host
      then (g, serves)
      else if not (is_loopback net r.remote_addr) && g.can_rebind && not (bound net g.listening)
      then (g, network_off)
      else if text_eq r.method (text "GET") && has r.path install_assets
      then (g, serves)
      else guard_token reads r now g

  -- `hostOnly`: whether the handler behind it runs.
  unfoldable pub host_only : Request → Bool
  unfolding is_loopback loopback_host
  host_only r = not (not (is_loopback net r.remote_addr) || not (loopback_host net r.host))

-- `rotateAccess`, when the setting is stored: every device is unpaired.
unfoldable pub rotate : Text → Gate → Gate
rotate token g = record g { token = token }
