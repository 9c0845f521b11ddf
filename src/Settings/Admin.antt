-- ===== src/Settings/Admin.antt =====
-- Which hosts and addresses the Admin API may be reached at (app/utils/admin_targets.py), and
-- `normalize_caddy_api_url`.
pub mod Laws
use caddybuddy.Text.{text, Text, member, text_eq}
use caddybuddy.Web.Csrf.{Url, Port, has_text, or_blank}
use caddybuddy.Text.Search.{strip, has_char}
use caddybuddy.Prelude.{
  ℕ, Bool, true, false, not, ◌&&◌, ◌||◌, Option, none, some, List, [], ◌∷◌, ◌++◌, ltb, ◌==◌,
  if◌then◌else◌, length, is_nil, any,
}

-- What `ipaddress` says about an address; `metadata` is 169.254.169.254.
pub record Flags : Type 0 where
  pub metadata : Bool
  pub is_loopback : Bool
  pub is_link_local : Bool
  pub is_multicast : Bool
  pub is_unspecified : Bool
  pub is_reserved : Bool
  pub is_private : Bool

-- An address, and the IPv4 address that it maps, if it is an IPv6 address that does.
pub record Ip : Type 0 where
  pub own : Flags
  pub ipv4_mapped : Option Flags

abbrev pub flags_of : Option Flags → Flags → Flags
flags_of none own = own
flags_of (some mapped) own = mapped

abbrev pub normalize_resolved_ip : Ip → Flags
normalize_resolved_ip ip = flags_of ip.ipv4_mapped ip.own

unfoldable pub is_allowed_admin_ip : Ip → Bool
is_allowed_admin_ip ip =
    let f = normalize_resolved_ip ip in
    if f.metadata
    then false
    else if f.is_loopback
    then true
    else if f.is_link_local || f.is_multicast || f.is_unspecified || f.is_reserved
    then false
    else f.is_private

abbrev pub allowed_admin_hosts : List Text
allowed_admin_hosts = text "localhost" ∷ text "host.docker.internal" ∷ text "caddy" ∷ []

abbrev pub forbidden_admin_hosts : List Text
forbidden_admin_hosts = text "169.254.169.254" ∷ text "metadata.google.internal" ∷ []

pub data HostError : Type 0 where
  empty_host blocked_target host_not_allowed ip_not_allowed : HostError

abbrev pub judge_ip : Text → Option Ip → Option HostError
judge_ip host none = if member host allowed_admin_hosts then none else some host_not_allowed
judge_ip host (some ip) = if is_allowed_admin_ip ip then none else some ip_not_allowed

-- `none` where it returns; `ip_address` and `str.lower` are parameters.
unfoldable pub validate_caddy_admin_host :
    (Text → Option Ip) → (Text → Text) → Text → Option HostError
unfolding strip member is_allowed_admin_ip
validate_caddy_admin_host ip_address lower host =
    let normalized_host = lower (strip host) in
    if is_nil normalized_host
    then some empty_host
    else if member normalized_host forbidden_admin_hosts
    then some blocked_target
    else judge_ip normalized_host (ip_address normalized_host)

pub data UrlError : Type 0 where
  empty_url too_long_url bad_character not_split bad_scheme with_user no_host with_path with_query
        bad_port no_port target_not_allowed :
      UrlError

pub data UrlResult : Type 0 where
  url_ok : Text → UrlResult
  url_error : UrlError → UrlResult

-- `[\x00-\x1f\x7f\\]`
unfoldable pub is_bad_character : ℕ → Bool
is_bad_character c = ltb c 32 || c == 127 || c == 92

-- What is called: `ip_address`, `str.lower`, `urlsplit` (`none` where it raises), `urlunsplit` of a
-- scheme and a host, and the digits of a port.
pub record UrlCalls : Type 0 where
  pub ip_address : Text → Option Ip
  pub lower : Text → Text
  pub urlsplit : Text → Option Url
  pub urlunsplit : Text → Text → Text
  pub digits : ℕ → Text

abbrev pub bracketed : Text → Text
bracketed host = if has_char b':' host then b'[' ∷ (host ++ text "]") else host

abbrev pub url_of : UrlCalls → Text → Text → ℕ → Option HostError → UrlResult
url_of calls scheme host port none =
    url_ok (calls.urlunsplit scheme (bracketed host ++ b':' ∷ calls.digits port))
url_of calls scheme host port (some e) = url_error target_not_allowed

unfoldable pub judge_port : UrlCalls → Text → Text → Port → UrlResult
unfolding has_char validate_caddy_admin_host
judge_port calls scheme host Port.invalid = url_error bad_port
judge_port calls scheme host Port.absent = url_error no_port
judge_port calls scheme host (Port.number n) =
    url_of calls scheme host n (validate_caddy_admin_host calls.ip_address calls.lower host)

unfoldable pub judge_url : UrlCalls → Option Url → UrlResult
unfolding judge_port text_eq
judge_url calls none = url_error not_split
judge_url calls (some u) =
    if not (text_eq u.scheme (text "http") || text_eq u.scheme (text "https"))
    then url_error bad_scheme
    else if has_text u.username || has_text u.password
    then url_error with_user
    else if not (has_text u.hostname)
    then url_error no_host
    else if not (is_nil u.path || text_eq u.path (text "/"))
    then url_error with_path
    else if not (is_nil u.query && is_nil u.fragment)
    then url_error with_query
    else judge_port calls u.scheme (or_blank u.hostname) u.port

unfoldable pub normalize_caddy_api_url : UrlCalls → Text → UrlResult
unfolding judge_url strip is_bad_character any
normalize_caddy_api_url calls raw_url =
    let normalized = strip raw_url in
    if is_nil normalized
    then url_error empty_url
    else if ltb 2048 (length normalized)
    then url_error too_long_url
    else if any is_bad_character normalized
    then url_error bad_character
    else judge_url calls (calls.urlsplit normalized)
