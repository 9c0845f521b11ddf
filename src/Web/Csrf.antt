-- ===== src/Web/Csrf.antt =====
-- The CSRF token of a session, and which requests `CSRFMiddleware` hands on.
pub mod Guards
use caddybuddy.Text.{text, Text, member, text_eq}
use caddybuddy.Text.Search.{strip, before_char, starts_with}
use caddybuddy.Prelude.{
  ℕ, zero, suc, ◌+◌, ◌-◌, ◌*◌, ◌/◌, ◌%◌, ◌^◌, ◌≤◌, ◌<◌, String, ◌≡◌, refl, sym, ap, ◌∙◌, subst, ◌≢◌,
  ◌↔◌, ◌⊎◌, inl, inr, Bool, true, false, not, ◌&&◌, ◌||◌, false≢true, Option, none, some, List, [],
  ◌∷◌, ◌++◌, map, reverse, arith, ltb, leb, ◌==◌, if◌then◌else◌, ltb→lt, lt→ltb, leb→le, ==_iff,
  Bool-cases, Option-cases, and-eq-true, length, is_nil, All, length-append, all, any, all-append,
  All-append, All-all,
}

-- The `port` of a URL, which raises `ValueError` where it is not a number.
pub data Port : Type 0 where
  absent invalid : Port
  number : ℕ → Port

pub record Url : Type 0 where
  pub scheme : Text
  pub hostname : Option Text
  pub username : Option Text
  pub password : Option Text
  pub path : Text
  pub query : Text
  pub fragment : Text
  pub port : Port

pub record Origin : Type 0 where
  pub origin_scheme : Text
  pub origin_host : Text
  pub origin_port : ℕ

-- What is called: `str.lower`, `posixpath.normpath`, `urlsplit` (`none` where it raises
-- `ValueError`), the HMAC of a token under the CSRF key.
pub record Calls : Type 0 where
  pub lower : Text → Text
  pub normpath : Text → Text
  pub urlsplit : Text → Option Url
  pub csrf_hmac : Text → Text

-- What the middleware reads of a request: `form_token` is the token in a form that is read from the
-- body, `none` also where reading it fails.
pub record Request : Type 0 where
  pub method : Text
  pub url : Url
  pub authorization : Option Text
  pub origin : Option Text
  pub token_header : Option Text
  pub content_type : Option Text
  pub form_token : Option Text
  pub session_cookie : Option Text

abbrev pub has_text : Option Text → Bool
has_text none = false
has_text (some s) = not (is_nil s)

abbrev pub or_blank : Option Text → Text
or_blank none = []
or_blank (some s) = s

-- `f"{token}.{_csrf_hmac(token)}"`
abbrev pub signed_token : Calls → Text → Text
signed_token calls token = token ++ b'.' ∷ calls.csrf_hmac token

-- The entry `csrf_token` of the session after the call, and the signed token; `drawn` is what
-- `secrets` would draw.
unfoldable pub ensure_csrf_token : Calls → Text → Option Text → Option Text × Text
ensure_csrf_token calls drawn none = (some drawn, signed_token calls drawn)
ensure_csrf_token calls drawn (some []) = (some drawn, signed_token calls drawn)
ensure_csrf_token calls drawn (some (c ∷ s)) = (some (c ∷ s), signed_token calls (c ∷ s))

-- `compare_digest` raises `TypeError` on a character beyond ASCII.
pub data Judged : Type 0 where
  accepted refused raises_type_error : Judged

abbrev pub is_ascii : ℕ → Bool
is_ascii c = ltb c 128

unfoldable pub compare_digest : Text → Text → Judged
unfolding all text_eq
compare_digest a b =
    if not (all is_ascii a && all is_ascii b)
    then raises_type_error
    else if text_eq a b
    then accepted
    else refused

unfoldable pub validate_csrf_token : Calls → Option Text → Option Text → Judged
unfolding compare_digest
validate_csrf_token calls none submitted = refused
validate_csrf_token calls (some []) submitted = refused
validate_csrf_token calls (some (c ∷ s)) none = refused
validate_csrf_token calls (some (c ∷ s)) (some []) = refused
validate_csrf_token calls (some (c ∷ s)) (some (d ∷ t)) =
    if ltb 256 (length (d ∷ t))
    then refused
    else compare_digest (d ∷ t) (signed_token calls (c ∷ s))

abbrev pub safe_methods : List Text
safe_methods = text "GET" ∷ text "HEAD" ∷ text "OPTIONS" ∷ []

abbrev pub csrf_prefixes : List Text
csrf_prefixes =
    text "/login"
    ∷ text "/logout"
    ∷ text "/setup"
    ∷ text "/caddyfile"
    ∷ text "/sites"
    ∷ text "/settings"
    ∷ text "/ssl-labs"
    ∷ text "/onboarding"
    ∷ text "/api/"
    ∷ []

-- `_requires_csrf`
unfoldable pub requires_csrf : Calls → Text → Bool
unfolding any starts_with text_eq
requires_csrf calls path =
    let normalized = calls.lower (calls.normpath path) in
    any
      (λ prefix.
        let norm_prefix = calls.lower (calls.normpath prefix) in
        starts_with (norm_prefix ++ text "/") normalized || text_eq normalized norm_prefix)
      csrf_prefixes

abbrev pub default_port : Text → ℕ
default_port scheme = if text_eq scheme (text "https") then 443 else 80

abbrev pub localhost_aliases : List Text
localhost_aliases = text "localhost" ∷ text "127.0.0.1" ∷ text "::1" ∷ []

unfoldable pub normalize_host : Text → Text
unfolding member
normalize_host host = if member host localhost_aliases then text "localhost" else host

-- `partition(" ")` of the stripped header
unfoldable pub is_bearer_request : Calls → Request → Bool
unfolding before_char strip text_eq
is_bearer_request calls r =
    text_eq (calls.lower (before_char 32 (strip (or_blank r.authorization)))) (text "bearer")

abbrev pub port_or : ℕ → ℕ → ℕ
port_or zero default = default
port_or (suc n) default = suc n

-- The origin of a scheme, a host and a port; the outer `none` where the port raises.
unfoldable pub origin_at : Calls → Text → Text → Port → Option Origin
unfolding normalize_host
origin_at calls scheme host invalid = none
origin_at calls scheme host absent = some (record {
  origin_scheme = scheme;
  origin_host = normalize_host (calls.lower host);
  origin_port = default_port scheme;
})
origin_at calls scheme host (number n) = some (record {
  origin_scheme = scheme;
  origin_host = normalize_host (calls.lower host);
  origin_port = port_or n (default_port scheme);
})

-- What the two functions that read an origin give: `None`, `ValueError`, or an origin.
pub data OriginResult : Type 0 where
  unknown raises_value_error : OriginResult
  known : Origin → OriginResult

abbrev pub known_or_raises : Option Origin → OriginResult
known_or_raises none = raises_value_error
known_or_raises (some o) = known o

-- `_parse_origin`
unfoldable pub parse_origin : Calls → Text → OriginResult
unfolding origin_at
parse_origin calls value = elim (calls.urlsplit value) [
  | none ↦ raises_value_error
  | some u ↦
      let scheme = calls.lower u.scheme in
      if is_nil scheme || not (has_text u.hostname) || has_text u.username || has_text u.password
      then unknown
      else if not (is_nil u.path || text_eq u.path (text "/"))
          || not (is_nil u.query)
          || not (is_nil u.fragment)
      then unknown
      else known_or_raises (origin_at calls scheme (or_blank u.hostname) u.port)
]

-- `_request_origin_tuple`
unfoldable pub request_origin : Calls → Request → OriginResult
unfolding origin_at
request_origin calls r =
    let scheme = calls.lower r.url.scheme in
    if is_nil scheme || not (has_text r.url.hostname)
    then unknown
    else known_or_raises (origin_at calls scheme (or_blank r.url.hostname) r.url.port)

unfoldable pub same_origin : Origin → Origin → Bool
unfolding text_eq
same_origin a b =
    text_eq a.origin_scheme b.origin_scheme
    && text_eq a.origin_host b.origin_host
    && a.origin_port == b.origin_port

-- What the middleware does with a request; the last two are exceptions that it does not catch.
pub data Decision : Type 0 where
  forwards blocks_origin blocks_token value_error type_error : Decision

-- `_check_origin` on the two origins, and what follows where it answers true
abbrev pub compare_origins : OriginResult → OriginResult → Decision → Decision
compare_origins raises_value_error asked later = blocks_origin
compare_origins parsed raises_value_error later = value_error
compare_origins unknown asked later = blocks_origin
compare_origins parsed unknown later = blocks_origin
compare_origins (known p) (known o) later = if same_origin p o then later else blocks_origin

unfoldable pub check_origin : Calls → Request → Decision → Decision
unfolding parse_origin request_origin same_origin
check_origin calls r later =
    if has_text r.origin
    then compare_origins (parse_origin calls (or_blank r.origin)) (request_origin calls r) later
    else later

-- `in` on two strings
unfoldable pub contains : Text → Text → Bool
unfolding starts_with
contains part [] = is_nil part
contains part (c ∷ s) = starts_with part (c ∷ s) || contains part s

unfoldable pub submitted_token : Request → Option Text
unfolding contains
submitted_token r =
    if has_text r.token_header
    then r.token_header
    else if contains (text "application/x-www-form-urlencoded") (or_blank r.content_type)
    then r.form_token
    else r.token_header

abbrev pub by_token : Judged → Decision
by_token accepted = forwards
by_token refused = blocks_token
by_token raises_type_error = type_error

abbrev pub is_api : Request → Bool
is_api r = starts_with (text "/api/") r.url.path

-- Whether the token and the origin are checked; no path is exempt.
unfoldable pub is_checked : Calls → Request → Bool
unfolding requires_csrf is_bearer_request member starts_with
is_checked calls r =
    not (member r.method safe_methods)
    && requires_csrf calls r.url.path
    && not (is_api r && is_bearer_request calls r && not (has_text r.session_cookie))
    && (not (is_api r) || has_text r.session_cookie)

-- `CSRFMiddleware.__call__` on an HTTP request, by the token of the session.
unfoldable pub csrf_decision : Calls → Option Text → Request → Decision
unfolding is_checked check_origin validate_csrf_token submitted_token
csrf_decision calls session r =
    if is_checked calls r
    then check_origin calls r (by_token (validate_csrf_token calls session (submitted_token r)))
    else forwards

-- The token of the session after the call.
unfoldable pub csrf_session : Calls → Text → Option Text → Request → Option Text
unfolding ensure_csrf_token requires_csrf member starts_with
csrf_session calls drawn session r =
    if member r.method safe_methods && requires_csrf calls r.url.path && not (is_api r)
    then (ensure_csrf_token calls drawn session).0
    else session
