-- ===== src/Web/Csrf/Guards.antt =====
-- Requests that change state carry the token of the session.
use caddybuddy.Web.Csrf.{
  is_bearer_request, is_api, submitted_token, requires_csrf, safe_methods, check_origin,
  csrf_decision, ensure_csrf_token, is_checked, raises_value_error, is_ascii, unknown, known,
  raises_type_error, request_origin, compare_origins, forwards, or_blank, text_eq, Decision,
  accepted, by_token, parse_origin, refused, signed_token, Judged, OriginResult, Text,
  compare_digest, has_text, same_origin, validate_csrf_token, Calls, Request, Origin,
}
use caddybuddy.Text.{member, text_eq_iff}
use caddybuddy.Prelude.{
  ℕ, ◌≤◌, ◌≡◌, refl, ap, ◌∙◌, ◌≢◌, ◌⊎◌, inl, inr, Bool, true, false, not, ◌&&◌, ◌||◌, Option, none,
  some, [], ◌∷◌, arith, ltb, ◌==◌, if◌then◌else◌, ==_iff, Bool-cases, length, all,
}

compare_digest-accepted : (a b : Text) → compare_digest a b ≡ accepted → a ≡ b
unfolding compare_digest
compare_digest-accepted a b h = elim (Bool-cases (text_eq a b)) [
  | inl same ↦ (text_eq_iff a b).0 same
  | inr other ↦ elim (Bool-cases (all is_ascii a && all is_ascii b)) [
    | inl ascii ↦ ground (arith, other, ascii, h)
    | inr wide ↦ ground (arith, wide, h)
  ]
]

long_or : (b : Bool) (x : Judged) → (if b then refused else x) ≡ accepted → x ≡ accepted
long_or true x h = ground (arith, h)
long_or false x h = h

-- A session token and a submitted token that belong together.
pub record IsToken (calls : Calls) (session submitted : Option Text) : Type 0 where
  pub token : Text
  pub kept : session ≡ some token
  pub given : token ≢ []
  pub signed : submitted ≡ some (signed_token calls token)

validate-IsToken :
    (calls : Calls) (session submitted : Option Text)
    → validate_csrf_token calls session submitted ≡ accepted
    → IsToken calls session submitted
unfolding validate_csrf_token
validate-IsToken calls none submitted h = ground (arith, h)
validate-IsToken calls (some []) submitted h = ground (arith, h)
validate-IsToken calls (some (c ∷ s)) none h = ground (arith, h)
validate-IsToken calls (some (c ∷ s)) (some []) h = ground (arith, h)
validate-IsToken calls (some (c ∷ s)) (some (d ∷ t)) h =
    let compared =
      long_or (ltb 256 (length (d ∷ t))) (compare_digest (d ∷ t) (signed_token calls (c ∷ s))) h in
    record {
      token = c ∷ s;
      kept = refl;
      given = λ e. ground (arith, e);
      signed = ap some (compare_digest-accepted (d ∷ t) (signed_token calls (c ∷ s)) compared);
    }

by_token-forwards : (j : Judged) → by_token j ≡ forwards → j ≡ accepted
by_token-forwards accepted h = refl
by_token-forwards refused h = ground (arith, h)
by_token-forwards raises_type_error h = ground (arith, h)

abbrev origin_of : Text → Text → ℕ → Origin
origin_of s h p = record { origin_scheme = s; origin_host = h; origin_port = p }

three-true : (a b c : Bool) → (a && b && c) ≡ true → (a ≡ true) × (b ≡ true) × (c ≡ true)
three-true a b c h = (ground (arith, h), ground (arith, h), ground (arith, h))

same_origin-eq : (a b : Origin) → same_origin a b ≡ true → a ≡ b
unfolding same_origin
same_origin-eq a b h =
    let (hs, hh, hp) =
      three-true (text_eq a.origin_scheme b.origin_scheme) (text_eq a.origin_host b.origin_host)
        (a.origin_port == b.origin_port) h in
    ap (λ x. origin_of x a.origin_host a.origin_port)
      ((text_eq_iff a.origin_scheme b.origin_scheme).0 hs)
    ∙ ap (λ x. origin_of b.origin_scheme x a.origin_port)
        ((text_eq_iff a.origin_host b.origin_host).0 hh)
    ∙ ap (origin_of b.origin_scheme b.origin_host) ((==_iff a.origin_port b.origin_port).0 hp)

-- No header `Origin`, or the origin of the request itself.
abbrev pub IsOwn : Calls → Request → Type 0
IsOwn calls r =
    (has_text r.origin ≡ false)
    ⊎ ((o : Origin) × (parse_origin calls (or_blank r.origin) ≡ known o)
        × (request_origin calls r ≡ known o))

compare_origins-forwards :
    (p q : OriginResult) (later : Decision)
    → compare_origins p q later ≡ forwards
    → ((o : Origin) × (p ≡ known o) × (q ≡ known o)) × (later ≡ forwards)
compare_origins-forwards raises_value_error q later h = ground (arith, h)
compare_origins-forwards unknown unknown later h = ground (arith, h)
compare_origins-forwards unknown (known o) later h = ground (arith, h)
compare_origins-forwards unknown raises_value_error later h = ground (arith, h)
compare_origins-forwards (known p) raises_value_error later h = ground (arith, h)
compare_origins-forwards (known p) unknown later h = ground (arith, h)
compare_origins-forwards (known p) (known o) later h = elim (Bool-cases (same_origin p o)) [
  | inl same ↦ ((o, ap known (same_origin-eq p o same), refl), ground (arith, same, h))
  | inr other ↦ ground (arith, other, h)
]

taken : (b : Bool) (x y : Decision) → b ≡ true → (if b then x else y) ≡ forwards → x ≡ forwards
taken true x y e h = h
taken false x y e h = ground (arith, e)

skipped : (b : Bool) (x y : Decision) → b ≡ false → (if b then x else y) ≡ forwards → y ≡ forwards
skipped true x y e h = ground (arith, e)
skipped false x y e h = h

check_origin-forwards :
    (calls : Calls) (r : Request) (later : Decision)
    → check_origin calls r later ≡ forwards
    → IsOwn calls r × (later ≡ forwards)
unfolding check_origin
check_origin-forwards calls r later h =
    let compared =
      compare_origins (parse_origin calls (or_blank r.origin)) (request_origin calls r) later in
    elim (Bool-cases (has_text r.origin)) [
      | inr blank ↦ (inl blank, skipped (has_text r.origin) compared later blank h)
      | inl given ↦
          let (own, kept) =
            compare_origins-forwards (parse_origin calls (or_blank r.origin))
              (request_origin calls r) later (taken (has_text r.origin) compared later given h) in
          (inr own, kept)
    ]

with_cookie : (a b : Bool) → (not (a && b && false) && (not a || true)) ≡ true
with_cookie true true = refl
with_cookie true false = refl
with_cookie false b = refl

is_checked-cookie :
    (calls : Calls) (r : Request)
    → member r.method safe_methods ≡ false
    → requires_csrf calls r.url.path ≡ true
    → has_text r.session_cookie ≡ true
    → is_checked calls r ≡ true
unfolding is_checked
is_checked-cookie calls r unsafe protected cookie =
    rw (is_checked, unsafe, protected, cookie) (with_cookie (is_api r) (is_bearer_request calls r))

-- A request with an unsafe method, a protected path and the session cookie is handed on only with
-- the token of its session, signed, and without an origin or with the origin of the request itself.
pub csrf_decision-IsGuarded :
    (calls : Calls) (session : Option Text) (r : Request)
    → member r.method safe_methods ≡ false
    → requires_csrf calls r.url.path ≡ true
    → has_text r.session_cookie ≡ true
    → csrf_decision calls session r ≡ forwards
    → IsOwn calls r × IsToken calls session (submitted_token r)
unfolding csrf_decision
csrf_decision-IsGuarded calls session r unsafe protected cookie h =
    let token = validate_csrf_token calls session (submitted_token r) in
    let (own, kept) = check_origin-forwards calls r (by_token token) (
      taken (is_checked calls r) (check_origin calls r (by_token token)) forwards
        (is_checked-cookie calls r unsafe protected cookie) h) in
    (own, validate-IsToken calls session (submitted_token r) (by_token-forwards token kept))

short-accepted :
    (calls : Calls) (token : Text)
    → token ≢ []
    → all is_ascii (signed_token calls token) ≡ true
    → length (signed_token calls token) ≤ 256
    → validate_csrf_token calls (some token) (some (signed_token calls token)) ≡ accepted
unfolding validate_csrf_token compare_digest
short-accepted calls [] given ascii short = absurd (given refl)
short-accepted calls (c ∷ s) given ascii short =
    let signed = signed_token calls (c ∷ s) in
    let fits : ltb 256 (length signed) ≡ false = ground (arith, short) in
    let same : text_eq signed signed ≡ true = (text_eq_iff signed signed).1 refl in
    rw (fits, ascii, same) refl

-- The signed token that a page gets is accepted with the session that the page leaves behind, if it
-- is ASCII and not longer than 256 characters and the drawn token is not empty.
pub ensure_csrf_token-validate :
    (calls : Calls) (drawn : Text) (session : Option Text)
    → drawn ≢ []
    → all is_ascii (ensure_csrf_token calls drawn session).1 ≡ true
    → length (ensure_csrf_token calls drawn session).1 ≤ 256
    → validate_csrf_token calls
        (ensure_csrf_token calls drawn session).0
        (some (ensure_csrf_token calls drawn session).1)
      ≡ accepted
unfolding ensure_csrf_token
ensure_csrf_token-validate calls drawn none given ascii short =
    short-accepted calls drawn given ascii short
ensure_csrf_token-validate calls drawn (some []) given ascii short =
    short-accepted calls drawn given ascii short
ensure_csrf_token-validate calls drawn (some (c ∷ s)) given ascii short =
    short-accepted calls (c ∷ s) (λ e. ground (arith, e)) ascii short
