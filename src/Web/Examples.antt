-- ===== src/Web/Examples.antt =====
-- The theorems on the web layer applied to a login, a request and a redirect.
use caddybuddy.Text.{
  Text, text, text_eq, member, is_space, is_ascii_space, is_digit, is_lower, is_upper,
}
use caddybuddy.Web.Csrf.{
  is_ascii, safe_methods, ensure_csrf_token, compare_digest, validate_csrf_token, requires_csrf,
  normalize_host, is_bearer_request, origin_at, parse_origin, request_origin, same_origin,
  check_origin, contains, submitted_token, is_checked, csrf_decision, csrf_session, Calls, Request,
  Url, Port, Decision, Judged,
}
use caddybuddy.Text.Search.{
  after_prefix, starts_with, remove_prefix, has_char, count_char, ends_in, without_last,
  before_char, after_char, before_last, after_last, strip, rstrip, split_words, first_word,
  spaces_then, then_text,
}
use caddybuddy.Text.Strip.{lstrip_by, rstrip_by, strip_by}
use caddybuddy.Text.Split.{push_first, split_at, drop_empty, split_where, words}
use caddybuddy.Text.Lines.{is_line_end, close_line, lines_from, splitlines, join}
use caddybuddy.Web.Session.{
  session_timestamp, take, user_session_fingerprint, judge_user, judge_id, is_after, is_over,
  judge_times, judge, get_session_user, initialize_user_session, initialize_pending_otp_session,
  Web, Store, User, SessionData,
}
use caddybuddy.Prelude.{
  ℕ, ◌+◌, ◌*◌, ◌≤◌, ◌≡◌, refl, ◌⊎◌, true, false, none, some, List, [], ◌∷◌, ◌++◌, arith, length,
  All, all, any,
}
use caddybuddy.Web.Redirect.{is_unsafe, is_rooted, safe_redirect_path}
use caddybuddy.Web.Session.Live.{IsLive, get_session_user-IsLive}
use caddybuddy.Web.Session.Lasting.{
  after_requests, get_session_user-IsBounded, answers, InTime, done, next, IsStored, login-Lasts,
}
use caddybuddy.Web.Csrf.Guards.{IsOwn, IsToken, csrf_decision-IsGuarded, ensure_csrf_token-validate}
use caddybuddy.Web.Redirect.Laws.{IsSafe, safe_redirect_path-IsSafe}

-- An HMAC that stands for one.
abbrev web : Web
web = record {
  float = λ s. none;
  int = λ s. none;
  mac = λ s. text "mac:" ++ s;
  session_absolute_timeout_seconds = 86400;
  session_inactivity_timeout_seconds = 3600;
}

abbrev admin : User
admin = record {
  id = 1;
  password_hash = text "hash";
  otp_secret = none;
  otp_enabled = false;
  is_active = true;
}

abbrev store : Store
store = λ i. some admin

abbrev login : SessionData
login = initialize_user_session web 5 admin

seen : (get_session_user web store 900 login).0 ≡ some admin
unfolding text_eq member is_space is_ascii_space is_digit is_lower is_upper after_prefix starts_with
    remove_prefix has_char count_char ends_in without_last before_char after_char before_last
    after_last strip rstrip split_words first_word spaces_then then_text lstrip_by rstrip_by
    strip_by push_first split_at drop_empty split_where words is_line_end close_line lines_from
    splitlines join session_timestamp take user_session_fingerprint judge_user judge_id is_after
    is_over judge_times judge get_session_user initialize_user_session
    initialize_pending_otp_session
seen = refl

get_session_user-IsLive_example : IsLive web store 900 login admin
get_session_user-IsLive_example = get_session_user-IsLive web store 900 login admin seen

abbrev earlier : List (Store × ℕ)
earlier = (store, 900) ∷ []

seen_again : (get_session_user web store 1000 (after_requests web earlier login)).0 ≡ some admin
unfolding text_eq member is_space is_ascii_space is_digit is_lower is_upper after_prefix starts_with
    remove_prefix has_char count_char ends_in without_last before_char after_char before_last
    after_last strip rstrip split_words first_word spaces_then then_text lstrip_by rstrip_by
    strip_by push_first split_at drop_empty split_where words is_line_end close_line lines_from
    splitlines join session_timestamp take user_session_fingerprint judge_user judge_id is_after
    is_over judge_times judge get_session_user initialize_user_session
    initialize_pending_otp_session
seen_again = refl

get_session_user-IsBounded_example : 1000 ≤ 5 + 86400 * 1000000
get_session_user-IsBounded_example =
    get_session_user-IsBounded web 5 admin earlier store 1000 admin seen_again

abbrev stored : IsStored admin store
stored = record { found = refl; active = refl }

abbrev in_time : InTime web admin 5 5 earlier
in_time = next stored (omega arith) (omega arith) (omega arith) done

login-Lasts_example : All (λ o. o ≡ some admin) (answers web earlier login)
login-Lasts_example = login-Lasts web admin 5 earlier (omega arith) (omega arith) in_time

abbrev here : Url
here = record {
  scheme = text "https";
  hostname = some (text "a.de");
  username = none;
  password = none;
  path = [];
  query = [];
  fragment = [];
  port = Port.absent;
}

abbrev calls : Calls
calls = record {
  lower = λ s. s;
  normpath = λ s. s;
  urlsplit = λ s. some here;
  csrf_hmac = λ s. text "mac";
}

abbrev request : Request
request = record {
  method = text "POST";
  url = record here { path = text "/sites" };
  authorization = none;
  origin = some (text "https://a.de");
  token_header = some (text "t.mac");
  content_type = none;
  form_token = none;
  session_cookie = some (text "cookie");
}

unsafe_method : member request.method safe_methods ≡ false
unfolding text_eq member is_space is_ascii_space is_digit is_lower is_upper after_prefix starts_with
    remove_prefix has_char count_char ends_in without_last before_char after_char before_last
    after_last strip rstrip split_words first_word spaces_then then_text lstrip_by rstrip_by
    strip_by push_first split_at drop_empty split_where words is_line_end close_line lines_from
    splitlines join ensure_csrf_token compare_digest validate_csrf_token requires_csrf
    normalize_host is_bearer_request origin_at parse_origin request_origin same_origin check_origin
    contains submitted_token is_checked csrf_decision csrf_session all any
unsafe_method = refl

protected : requires_csrf calls request.url.path ≡ true
unfolding text_eq member is_space is_ascii_space is_digit is_lower is_upper after_prefix starts_with
    remove_prefix has_char count_char ends_in without_last before_char after_char before_last
    after_last strip rstrip split_words first_word spaces_then then_text lstrip_by rstrip_by
    strip_by push_first split_at drop_empty split_where words is_line_end close_line lines_from
    splitlines join ensure_csrf_token compare_digest validate_csrf_token requires_csrf
    normalize_host is_bearer_request origin_at parse_origin request_origin same_origin check_origin
    contains submitted_token is_checked csrf_decision csrf_session all any
protected = refl

handed_on : csrf_decision calls (some (text "t")) request ≡ Decision.forwards
unfolding text_eq member is_space is_ascii_space is_digit is_lower is_upper after_prefix starts_with
    remove_prefix has_char count_char ends_in without_last before_char after_char before_last
    after_last strip rstrip split_words first_word spaces_then then_text lstrip_by rstrip_by
    strip_by push_first split_at drop_empty split_where words is_line_end close_line lines_from
    splitlines join ensure_csrf_token compare_digest validate_csrf_token requires_csrf
    normalize_host is_bearer_request origin_at parse_origin request_origin same_origin check_origin
    contains submitted_token is_checked csrf_decision csrf_session all any
handed_on = refl

csrf_decision-IsGuarded_example :
    IsOwn calls request × IsToken calls (some (text "t")) (submitted_token request)
csrf_decision-IsGuarded_example =
    csrf_decision-IsGuarded calls (some (text "t")) request unsafe_method protected refl handed_on

issued_ascii : all is_ascii (ensure_csrf_token calls (text "t") none).1 ≡ true
unfolding text_eq member is_space is_ascii_space is_digit is_lower is_upper after_prefix starts_with
    remove_prefix has_char count_char ends_in without_last before_char after_char before_last
    after_last strip rstrip split_words first_word spaces_then then_text lstrip_by rstrip_by
    strip_by push_first split_at drop_empty split_where words is_line_end close_line lines_from
    splitlines join ensure_csrf_token compare_digest validate_csrf_token requires_csrf
    normalize_host is_bearer_request origin_at parse_origin request_origin same_origin check_origin
    contains submitted_token is_checked csrf_decision csrf_session all any
issued_ascii = refl

issued_short : length (ensure_csrf_token calls (text "t") none).1 ≤ 256
unfolding text_eq member is_space is_ascii_space is_digit is_lower is_upper after_prefix starts_with
    remove_prefix has_char count_char ends_in without_last before_char after_char before_last
    after_last strip rstrip split_words first_word spaces_then then_text lstrip_by rstrip_by
    strip_by push_first split_at drop_empty split_where words is_line_end close_line lines_from
    splitlines join ensure_csrf_token compare_digest validate_csrf_token requires_csrf
    normalize_host is_bearer_request origin_at parse_origin request_origin same_origin check_origin
    contains submitted_token is_checked csrf_decision csrf_session all any
issued_short = omega arith

ensure_csrf_token-validate_example :
    validate_csrf_token calls
      (ensure_csrf_token calls (text "t") none).0
      (some (ensure_csrf_token calls (text "t") none).1)
    ≡ Judged.accepted
ensure_csrf_token-validate_example =
    ensure_csrf_token-validate calls (text "t") none (λ e. ground (arith, e)) issued_ascii
      issued_short

-- A token with a character beyond ASCII raises instead of being refused.
wide_token_raises :
    csrf_decision calls (some (text "t")) (record request { token_header = some (233 ∷ []) })
    ≡ Decision.type_error
unfolding text_eq member is_space is_ascii_space is_digit is_lower is_upper after_prefix starts_with
    remove_prefix has_char count_char ends_in without_last before_char after_char before_last
    after_last strip rstrip split_words first_word spaces_then then_text lstrip_by rstrip_by
    strip_by push_first split_at drop_empty split_where words is_line_end close_line lines_from
    splitlines join ensure_csrf_token compare_digest validate_csrf_token requires_csrf
    normalize_host is_bearer_request origin_at parse_origin request_origin same_origin check_origin
    contains submitted_token is_checked csrf_decision csrf_session all any
wide_token_raises = refl

abbrev fallback : Text
fallback = text "/"

safe_redirect_path-IsSafe_example :
    (safe_redirect_path (λ s. s) (some (text "/sites")) fallback ≡ fallback)
    ⊎ ((path : Text) × (some (text "/sites") ≡ some path)
        × (safe_redirect_path (λ s. s) (some (text "/sites")) fallback ≡ path)
        × IsSafe (λ s. s) path)
safe_redirect_path-IsSafe_example =
    safe_redirect_path-IsSafe (λ s. s) (some (text "/sites")) fallback

to_sites : safe_redirect_path (λ s. s) (some (text "/sites")) fallback ≡ text "/sites"
unfolding text_eq member is_space is_ascii_space is_digit is_lower is_upper after_prefix starts_with
    remove_prefix has_char count_char ends_in without_last before_char after_char before_last
    after_last strip rstrip split_words first_word spaces_then then_text lstrip_by rstrip_by
    strip_by push_first split_at drop_empty split_where words is_line_end close_line lines_from
    splitlines join is_unsafe is_rooted safe_redirect_path any
to_sites = refl

to_host : safe_redirect_path (λ s. s) (some (text "//sites")) fallback ≡ fallback
unfolding text_eq member is_space is_ascii_space is_digit is_lower is_upper after_prefix starts_with
    remove_prefix has_char count_char ends_in without_last before_char after_char before_last
    after_last strip rstrip split_words first_word spaces_then then_text lstrip_by rstrip_by
    strip_by push_first split_at drop_empty split_where words is_line_end close_line lines_from
    splitlines join is_unsafe is_rooted safe_redirect_path any
to_host = refl
