-- ===== src/Settings/Examples.antt =====
-- The theorems on the settings applied to one URL, one path and one number of days.
use caddybuddy.Settings.Values.{
  invalid_mail, mail_ok, is_mail_char, dot_inside, is_mail_domain, are_mail_parts,
  normalize_ssllabs_email, rate_limit_enabled, distance, nearest, is_value, retention_of,
  history_retention_days,
}
use caddybuddy.Text.{text, text_eq, member, is_space, is_ascii_space, is_digit, is_lower, is_upper}
use caddybuddy.Text.Search.{
  after_prefix, starts_with, remove_prefix, has_char, count_char, ends_in, without_last,
  before_char, after_char, before_last, after_last, strip, rstrip, split_words, first_word,
  spaces_then, then_text,
}
use caddybuddy.Text.Strip.{lstrip_by, rstrip_by, strip_by}
use caddybuddy.Text.Split.{push_first, split_at, drop_empty, split_where, words}
use caddybuddy.Text.Lines.{is_line_end, close_line, lines_from, splitlines, join}
use caddybuddy.Settings.Admin.{
  is_allowed_admin_ip, validate_caddy_admin_host, is_bad_character, judge_port, judge_url,
  normalize_caddy_api_url, UrlCalls, UrlResult,
}
use caddybuddy.Prelude.{◌≡◌, refl, true, false, none, some, [], ◌∷◌, ◌++◌, all, any}
use caddybuddy.Settings.Location.{
  same_path, is_relative_to, normalize_caddyfile_path, FilePath, Paths, PathResult,
}
use caddybuddy.Web.Session.{ℤ}
use caddybuddy.Web.Csrf.{Port}
use caddybuddy.Settings.Admin.Laws.{IsAdminUrl, normalize_caddy_api_url-IsAdminUrl}
use caddybuddy.Settings.Values.Nearest.{IsClosest, history_retention_days-IsNearest}
use caddybuddy.Settings.Location.Laws.{IsCaddyfile, normalize_caddyfile_path-IsCaddyfile}
use mathlib.Core.List.{Mem}

abbrev calls : UrlCalls
calls = record {
  ip_address = λ s. none;
  lower = λ s. s;
  urlsplit = λ s. some (record {
    scheme = text "http";
    hostname = some (text "caddy");
    username = none;
    password = none;
    path = [];
    query = [];
    fragment = [];
    port = Port.number 2019;
  });
  urlunsplit = λ scheme host. scheme ++ (text "://" ++ host);
  digits = λ n. text "2019";
}

admin_url :
    normalize_caddy_api_url calls (text " http://caddy:2019 ")
    ≡ UrlResult.url_ok (text "http://caddy:2019")
unfolding text_eq member is_space is_ascii_space is_digit is_lower is_upper after_prefix starts_with
    remove_prefix has_char count_char ends_in without_last before_char after_char before_last
    after_last strip rstrip split_words first_word spaces_then then_text lstrip_by rstrip_by
    strip_by push_first split_at drop_empty split_where words is_line_end close_line lines_from
    splitlines join is_allowed_admin_ip validate_caddy_admin_host is_bad_character judge_port
    judge_url normalize_caddy_api_url any
admin_url = refl

normalize_caddy_api_url-IsAdminUrl_example :
    IsAdminUrl calls (text " http://caddy:2019 ") (text "http://caddy:2019")
normalize_caddy_api_url-IsAdminUrl_example =
    normalize_caddy_api_url-IsAdminUrl calls (text " http://caddy:2019 ") (text "http://caddy:2019")
      admin_url

abbrev root_path : FilePath
root_path = text "config" ∷ []

-- A file system in which the Caddyfile is a plain file below /config.
abbrev paths : Paths
paths = record {
  is_absolute = λ s. true;
  name_of = λ s. text "Caddyfile";
  resolve = λ s. elim (text_eq s (text "/config")) [
    | true ↦ root_path
    | false ↦ text "Caddyfile" ∷ root_path
  ];
  str = λ p. text "/config/Caddyfile";
}

caddyfile_path :
    normalize_caddyfile_path paths (text "/config/Caddyfile")
    ≡ PathResult.path_ok (text "/config/Caddyfile")
unfolding text_eq member is_space is_ascii_space is_digit is_lower is_upper after_prefix starts_with
    remove_prefix has_char count_char ends_in without_last before_char after_char before_last
    after_last strip rstrip split_words first_word spaces_then then_text lstrip_by rstrip_by
    strip_by push_first split_at drop_empty split_where words is_line_end close_line lines_from
    splitlines join same_path is_relative_to normalize_caddyfile_path any
caddyfile_path = refl

normalize_caddyfile_path-IsCaddyfile_example :
    IsCaddyfile paths (text "/config/Caddyfile") (text "/config/Caddyfile")
normalize_caddyfile_path-IsCaddyfile_example =
    normalize_caddyfile_path-IsCaddyfile paths (text "/config/Caddyfile") (text "/config/Caddyfile")
      caddyfile_path

history_retention_days-IsNearest_example :
    Mem
      (history_retention_days (λ s. some (ℤ.pos 40)) (text "40"))
      (0 ∷ 7 ∷ 14 ∷ 30 ∷ 90 ∷ 180 ∷ 365 ∷ [])
    × IsClosest (ℤ.pos 40) (history_retention_days (λ s. some (ℤ.pos 40)) (text "40"))
history_retention_days-IsNearest_example =
    history_retention_days-IsNearest (λ s. some (ℤ.pos 40)) (text "40") (ℤ.pos 40) refl

forty_days : history_retention_days (λ s. some (ℤ.pos 40)) (text "40") ≡ 30
unfolding text_eq member is_space is_ascii_space is_digit is_lower is_upper after_prefix starts_with
    remove_prefix has_char count_char ends_in without_last before_char after_char before_last
    after_last strip rstrip split_words first_word spaces_then then_text lstrip_by rstrip_by
    strip_by push_first split_at drop_empty split_where words is_line_end close_line lines_from
    splitlines join is_mail_char dot_inside is_mail_domain are_mail_parts normalize_ssllabs_email
    rate_limit_enabled distance nearest is_value retention_of history_retention_days any all
forty_days = refl

mail : normalize_ssllabs_email (λ s. s) (text " me@a.de ") ≡ mail_ok (text "me@a.de")
unfolding text_eq member is_space is_ascii_space is_digit is_lower is_upper after_prefix starts_with
    remove_prefix has_char count_char ends_in without_last before_char after_char before_last
    after_last strip rstrip split_words first_word spaces_then then_text lstrip_by rstrip_by
    strip_by push_first split_at drop_empty split_where words is_line_end close_line lines_from
    splitlines join is_mail_char dot_inside is_mail_domain are_mail_parts normalize_ssllabs_email
    rate_limit_enabled distance nearest is_value retention_of history_retention_days any all
mail = refl

no_mail : normalize_ssllabs_email (λ s. s) (text "me@a.") ≡ invalid_mail
unfolding text_eq member is_space is_ascii_space is_digit is_lower is_upper after_prefix starts_with
    remove_prefix has_char count_char ends_in without_last before_char after_char before_last
    after_last strip rstrip split_words first_word spaces_then then_text lstrip_by rstrip_by
    strip_by push_first split_at drop_empty split_where words is_line_end close_line lines_from
    splitlines join is_mail_char dot_inside is_mail_domain are_mail_parts normalize_ssllabs_email
    rate_limit_enabled distance nearest is_value retention_of history_retention_days any all
no_mail = refl
