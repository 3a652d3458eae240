-- ===== src/Access/Request.antt =====
-- internal/server/access.go: what a request says of where it comes from. The syntax of addresses and
-- URLs is that of Go's packages net and net/url, which are a parameter with no laws.
use kuro.Base.{
  ℕ, Bool, true, false, not, ◌||◌, List, [], ◌∷◌, reverse, Option, none, some, Text, text, text_eq,
  to_lower, equal_fold, ◌==◌, if◌then◌else◌,
}

pub record Ip : Type 0 where
  pub is_loopback : Bool
  pub is_unspecified : Bool

pub record Net : Type 0 where
  -- `net.SplitHostPort`, as far as the host.
  pub split_host : Text → Option Text
  pub parse_ip : Text → Option Ip
  -- The host of `url.Parse`.
  pub url_host : Text → Option Text

-- A header that is not there reads as the empty string, a cookie that is not as none.
pub record Request : Type 0 where
  pub method : Text
  pub remote_addr : Text
  pub host : Text
  pub path : Text
  pub authorization : Text
  pub origin : Text
  pub fetch_site : Text
  pub accept : Text
  pub user_agent : Text
  pub query_token : Text
  pub access_cookie : Option Text
  pub device_cookie : Option Text

abbrev pub or_else {ℓ} : {A : Type ℓ} → Option A → A → A
or_else none a = a
or_else (some b) a = b

is_loopback_ip : Option Ip → Bool
is_loopback_ip none = false
is_loopback_ip (some ip) = ip.is_loopback

is_bracket : ℕ → Bool
is_bracket c = c == b'[' || c == b']'

drop_brackets : Text → Text
unfolding is_bracket
drop_brackets [] = []
drop_brackets (c ∷ s) = if is_bracket c then drop_brackets s else c ∷ s

-- `strings.Trim(h, "[]")`
trim_brackets : Text → Text
unfolding drop_brackets
trim_brackets s = reverse (drop_brackets (reverse (drop_brackets s)))

-- `strings.CutPrefix`
unfoldable pub cut_prefix : Text → Text → Option Text
cut_prefix [] s = some s
cut_prefix (c ∷ p) [] = none
cut_prefix (c ∷ p) (d ∷ s) = if c == d then cut_prefix p s else none

-- `strings.Contains`
unfoldable pub contains : Text → Text → Bool
unfolding cut_prefix
contains [] part = (elim (cut_prefix part []) [ none ↦ false | some _ ↦ true ])
contains (c ∷ s) part =
    (elim (cut_prefix part (c ∷ s)) [ none ↦ false | some _ ↦ true ]) || contains s part

module _ (net : Net) where
  open net use {split_host, parse_ip, url_host}

  unfoldable pub is_loopback : Text → Bool
  unfolding is_loopback_ip
  is_loopback addr = is_loopback_ip (parse_ip (or_else (split_host addr) addr))

  unfoldable pub loopback_host : Text → Bool
  unfolding is_loopback_ip trim_brackets
  loopback_host host =
      let h = to_lower (trim_brackets (or_else (split_host host) host)) in
      text_eq h (text "localhost") || is_loopback_ip (parse_ip h)

  -- `sameOrigin`
  unfoldable pub same_origin : Request → Bool
  unfolding equal_fold
  same_origin r =
      if text_eq r.origin []
      then text_eq r.fetch_site []
        || text_eq r.fetch_site (text "same-origin")
        || text_eq r.fetch_site (text "none")
      else (elim (url_host r.origin) [ none ↦ false | some host ↦ equal_fold host r.host ])

  bound_host : Option Text → Bool
  bound_host none = false
  bound_host (some host) = if text_eq host [] then true else (elim (parse_ip host) [
    | none ↦ false
    | some ip ↦ ip.is_unspecified || not ip.is_loopback
  ])

  -- `bound`, for the address that the program listens on.
  unfoldable pub bound : Text → Bool
  unfolding bound_host
  bound listening = bound_host (split_host listening)

-- `safeMethod`
unfoldable pub safe_method : Text → Bool
safe_method m = text_eq m (text "GET") || text_eq m (text "HEAD") || text_eq m (text "OPTIONS")

abbrev pub install_assets : List Text
install_assets =
    text "/manifest.webmanifest"
    ∷ text "/icon.svg"
    ∷ text "/favicon.svg"
    ∷ text "/icon-192.png"
    ∷ text "/icon-512.png"
    ∷ text "/icon-maskable-512.png"
    ∷ []

presented_otherwise : Text → Option Text → Text
presented_otherwise [] cookie = or_else cookie []
presented_otherwise (c ∷ token) cookie = c ∷ token

-- `presented`: the token, from whichever channel the caller could use.
unfoldable pub presented : Request → Text
unfolding presented_otherwise cut_prefix
presented r = (elim (cut_prefix (text "Bearer ") r.authorization) [
  | some token ↦ token
  | none ↦ presented_otherwise r.query_token r.access_cookie
])
