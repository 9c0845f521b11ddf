-- ===== src/Settings/Admin/Laws.antt =====
-- Which Admin API addresses are accepted.
use caddybuddy.Settings.Admin.{
  has_text, allowed_admin_hosts, forbidden_admin_hosts, is_bad_character, or_blank, text, bracketed,
  judge_ip, member, normalize_resolved_ip, strip, text_eq, url_of, Text, is_allowed_admin_ip,
  judge_port, judge_url, normalize_caddy_api_url, validate_caddy_admin_host, Flags, Ip, HostError,
  UrlCalls, UrlResult, UrlError, url_ok, url_error,
}
use caddybuddy.Text.{text_eq_iff}
use caddybuddy.Web.Csrf.{Url, Port}
use caddybuddy.Prelude.{
  ℕ, ◌≡◌, refl, ◌⊎◌, inl, inr, Bool, true, false, not, ◌&&◌, ◌||◌, Option, none, some, ◌∷◌, ◌++◌,
  arith, ltb, if◌then◌else◌, Bool-cases, length, is_nil, any,
}

-- Not the address of the metadata service, and either loopback, or private and none of link-local,
-- multicast, unspecified and reserved.
abbrev pub IsNear : Flags → Type 0
IsNear f =
    (f.metadata ≡ false)
    × ((f.is_loopback ≡ true)
        ⊎ ((f.is_private ≡ true)
            × (f.is_link_local ≡ false)
            × (f.is_multicast ≡ false)
            × (f.is_unspecified ≡ false)
            × (f.is_reserved ≡ false)))

is_allowed_admin_ip-IsNear :
    (ip : Ip) → is_allowed_admin_ip ip ≡ true → IsNear (normalize_resolved_ip ip)
unfolding is_allowed_admin_ip
is_allowed_admin_ip-IsNear ip h =
    let f = normalize_resolved_ip ip in
    by_flags f.metadata f.is_loopback f.is_link_local f.is_multicast f.is_unspecified f.is_reserved
      f.is_private h
  where
    by_flags :
        (a b c d e g p : Bool)
        → (if a then false else if b then true else if c || d || e || g then false else p) ≡ true
        → (a ≡ false)
          × ((b ≡ true) ⊎ ((p ≡ true) × (c ≡ false) × (d ≡ false) × (e ≡ false) × (g ≡ false)))
    by_flags false true c d e g p h = (refl, inl refl)
    by_flags false false false false false false true h = (refl, inr (refl, refl, refl, refl, refl))
    by_flags true b c d e g p h = ground (arith, h)
    by_flags false false true d e g p h = ground (arith, h)
    by_flags false false false true e g p h = ground (arith, h)
    by_flags false false false false true g p h = ground (arith, h)
    by_flags false false false false false true p h = ground (arith, h)
    by_flags false false false false false false false h = ground (arith, h)

-- A host of the list that is no address, or an address that is near.
abbrev pub IsTarget : (Text → Option Ip) → Text → Type 0
IsTarget ip_address h =
    ((ip_address h ≡ none) × (member h allowed_admin_hosts ≡ true))
    ⊎ ((ip : Ip) × (ip_address h ≡ some ip) × IsNear (normalize_resolved_ip ip))

guarded :
    (b : Bool) (e : HostError) (x : Option HostError)
    → (if b then some e else x) ≡ none
    → (b ≡ false) × (x ≡ none)
guarded true e x h = ground (arith, h)
guarded false e x h = (refl, h)

admitted : (b : Bool) (e : HostError) → (if b then none else some e) ≡ none → b ≡ true
admitted true e h = refl
admitted false e h = ground (arith, h)

judge_ip-IsTarget :
    (ip_address : Text → Option Ip) (h : Text) (o : Option Ip)
    → ip_address h ≡ o
    → judge_ip h o ≡ none
    → IsTarget ip_address h
judge_ip-IsTarget ip_address h none same ok =
    inl (same, admitted (member h allowed_admin_hosts) HostError.host_not_allowed ok)
judge_ip-IsTarget ip_address h (some ip) same ok = inr (
  ip,
  same,
  is_allowed_admin_ip-IsNear ip (admitted (is_allowed_admin_ip ip) HostError.ip_not_allowed ok),
)

validate_caddy_admin_host-IsTarget :
    (ip_address : Text → Option Ip) (lower : Text → Text) (host : Text)
    → validate_caddy_admin_host ip_address lower host ≡ none
    → (member (lower (strip host)) forbidden_admin_hosts ≡ false)
      × IsTarget ip_address (lower (strip host))
unfolding validate_caddy_admin_host
validate_caddy_admin_host-IsTarget ip_address lower host ok =
    let h = lower (strip host) in
    let judged = judge_ip h (ip_address h) in
    let (given, ok1) =
      guarded (is_nil h) HostError.empty_host
        (if member h forbidden_admin_hosts then some HostError.blocked_target else judged) ok in
    let (open_, ok2) =
      guarded (member h forbidden_admin_hosts) HostError.blocked_target judged ok1 in
    (open_, judge_ip-IsTarget ip_address h (ip_address h) refl ok2)

-- The parts of an accepted URL.
pub record IsAdminUrl (calls : UrlCalls) (raw_url result : Text) : Type 0 where
  pub url : Url
  pub split : calls.urlsplit (strip raw_url) ≡ some url
  pub scheme : (url.scheme ≡ text "http") ⊎ (url.scheme ≡ text "https")
  pub no_user : (has_text url.username ≡ false) × (has_text url.password ≡ false)
  pub port : ℕ
  pub has_port : url.port ≡ Port.number port
  pub not_forbidden :
      member (calls.lower (strip (or_blank url.hostname))) forbidden_admin_hosts ≡ false
  pub target : IsTarget calls.ip_address (calls.lower (strip (or_blank url.hostname)))
  pub written :
      result
      ≡ calls.urlunsplit url.scheme (bracketed (or_blank url.hostname) ++ b':' ∷ calls.digits port)

refuses :
    (b : Bool) (e : UrlError) (x : UrlResult) (r : Text)
    → (if b then url_error e else x) ≡ url_ok r
    → (b ≡ false) × (x ≡ url_ok r)
refuses true e x r h = ground (arith, h)
refuses false e x r h = (refl, h)

record HasPort (calls : UrlCalls) (scheme host : Text) (p : Port) (r : Text) : Type 0 where
  number : ℕ
  has_number : p ≡ Port.number number
  valid : validate_caddy_admin_host calls.ip_address calls.lower host ≡ none
  written : r ≡ calls.urlunsplit scheme (bracketed host ++ b':' ∷ calls.digits number)

url_of-ok :
    (calls : UrlCalls) (scheme host : Text) (n : ℕ) (o : Option HostError) (r : Text)
    → url_of calls scheme host n o ≡ url_ok r
    → (o ≡ none) × (r ≡ calls.urlunsplit scheme (bracketed host ++ b':' ∷ calls.digits n))
url_of-ok calls scheme host n none r h = (refl, ground (arith, h))
url_of-ok calls scheme host n (some e) r h = ground (arith, h)

judge_port-HasPort :
    (calls : UrlCalls) (scheme host : Text) (p : Port) (r : Text)
    → judge_port calls scheme host p ≡ url_ok r
    → HasPort calls scheme host p r
unfolding judge_port
judge_port-HasPort calls scheme host Port.invalid r h = ground (arith, h)
judge_port-HasPort calls scheme host Port.absent r h = ground (arith, h)
judge_port-HasPort calls scheme host (Port.number n) r h =
    let (ok, same) =
      url_of-ok calls scheme host n (validate_caddy_admin_host calls.ip_address calls.lower host) r
        h in
    record { number = n; has_number = refl; valid = ok; written = same }

is_scheme :
    (s : Text)
    → not (text_eq s (text "http") || text_eq s (text "https")) ≡ false
    → (s ≡ text "http") ⊎ (s ≡ text "https")
is_scheme s h = elim (Bool-cases (text_eq s (text "http"))) [
  | inl plain ↦ inl ((text_eq_iff s (text "http")).0 plain)
  | inr other ↦ inr ((text_eq_iff s (text "https")).0 (ground (arith, other, h)))
]

judge_url-IsAdminUrl :
    (calls : UrlCalls) (raw_url : Text) (o : Option Url) (r : Text)
    → calls.urlsplit (strip raw_url) ≡ o
    → judge_url calls o ≡ url_ok r
    → IsAdminUrl calls raw_url r
unfolding judge_url
judge_url-IsAdminUrl calls raw_url none r same h = ground (arith, h)
judge_url-IsAdminUrl calls raw_url (some u) r same h =
    let ported = judge_port calls u.scheme (or_blank u.hostname) u.port in
    let plain = not (is_nil u.query && is_nil u.fragment) in
    let queried = if plain then url_error UrlError.with_query else ported in
    let pathed = not (is_nil u.path || text_eq u.path (text "/")) in
    let rooted = if pathed then url_error UrlError.with_path else queried in
    let named = if not (has_text u.hostname) then url_error UrlError.no_host else rooted in
    let user = has_text u.username || has_text u.password in
    let anonymous = if user then url_error UrlError.with_user else named in
    let (s, h1) =
      refuses (not (text_eq u.scheme (text "http") || text_eq u.scheme (text "https")))
        UrlError.bad_scheme anonymous r h in
    let (nobody, h2) = refuses user UrlError.with_user named r h1 in
    let (host, h3) = refuses (not (has_text u.hostname)) UrlError.no_host rooted r h2 in
    let (root, h4) = refuses pathed UrlError.with_path queried r h3 in
    let (bare, h5) = refuses plain UrlError.with_query ported r h4 in
    let p = judge_port-HasPort calls u.scheme (or_blank u.hostname) u.port r h5 in
    let (not_forbidden, target) =
      validate_caddy_admin_host-IsTarget calls.ip_address calls.lower (or_blank u.hostname)
        p.valid in
    record {
      url = u;
      split = same;
      scheme = is_scheme u.scheme s;
      no_user = (ground (arith, nobody), ground (arith, nobody));
      port = p.number;
      has_port = p.has_number;
      not_forbidden = not_forbidden;
      target = target;
      written = p.written;
    }

-- An accepted Admin API URL has the scheme http or https, no user and an explicit port, and its host,
-- stripped and in lower case, is a host of the list, or a loopback or private address, and not the
-- metadata service; the result has these parts only.
pub normalize_caddy_api_url-IsAdminUrl :
    (calls : UrlCalls) (raw_url result : Text)
    → normalize_caddy_api_url calls raw_url ≡ url_ok result
    → IsAdminUrl calls raw_url result
unfolding normalize_caddy_api_url
normalize_caddy_api_url-IsAdminUrl calls raw_url result h =
    let s = strip raw_url in
    let judged = judge_url calls (calls.urlsplit s) in
    let clean = if any is_bad_character s then url_error UrlError.bad_character else judged in
    let short = if ltb 2048 (length s) then url_error UrlError.too_long_url else clean in
    let (given, h1) = refuses (is_nil s) UrlError.empty_url short result h in
    let (fits, h2) = refuses (ltb 2048 (length s)) UrlError.too_long_url clean result h1 in
    let (good, h3) = refuses (any is_bad_character s) UrlError.bad_character judged result h2 in
    judge_url-IsAdminUrl calls raw_url (calls.urlsplit s) result refl h3
