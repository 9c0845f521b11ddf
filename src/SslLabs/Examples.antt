-- ===== src/SslLabs/Examples.antt =====
-- The theorems on SSL Labs scans applied to one host and one schedule.
use caddybuddy.Text.{text, text_eq, member, is_space, is_ascii_space, is_digit, is_lower, is_upper}
use caddybuddy.Text.Search.{
  after_prefix, starts_with, remove_prefix, has_char, count_char, ends_in, without_last,
  before_char, after_char, before_last, after_last, strip, rstrip, split_words, first_word,
  spaces_then, then_text,
}
use caddybuddy.Text.Strip.{lstrip_by, rstrip_by, strip_by}
use caddybuddy.Text.Split.{push_first, split_at, drop_empty, split_where, words}
use caddybuddy.Text.Lines.{is_line_end, close_line, lines_from, splitlines, join}
use caddybuddy.SslLabs.Host.{
  is_url_char, ends_with, judge_labels, validate_ssllabs_host, ScanHost, is_dot,
}
use caddybuddy.Domains.Shape.{
  is_alnum, is_inner, is_tail, is_label, is_top, are_labels, matches_domain, normalize_domain_name,
}
use caddybuddy.Prelude.{◌+◌, ◌≡◌, refl, false, some, arith, all, any}
use caddybuddy.SslLabs.Schedule.{Calendar}
use caddybuddy.SslLabs.Status.{
  rank_in, grade_to_rank, grade_badge_class, is_ssllabs_scan_active, is_ssllabs_scan_terminal,
  is_ssllabs_scan_failed, ssllabs_scan_event_action, status_badge_class,
}
use caddybuddy.Web.Session.{ℤ}
use caddybuddy.SslLabs.Host.Laws.{IsPublic, validate_ssllabs_host-IsPublic}
use caddybuddy.SslLabs.Schedule.Laws.{IsCalendar}

accepted_host :
    validate_ssllabs_host (λ s. s) (λ s. false) (text " a.de. ") ≡ ScanHost.scan_host (text "a.de")
unfolding text_eq member is_space is_ascii_space is_digit is_lower is_upper after_prefix starts_with
    remove_prefix has_char count_char ends_in without_last before_char after_char before_last
    after_last strip rstrip split_words first_word spaces_then then_text lstrip_by rstrip_by
    strip_by push_first split_at drop_empty split_where words is_line_end close_line lines_from
    splitlines join is_url_char ends_with judge_labels validate_ssllabs_host is_alnum is_inner
    is_tail is_label is_top are_labels matches_domain normalize_domain_name any all
accepted_host = refl

validate_ssllabs_host-IsPublic_example :
    (text "a.de" ≡ rstrip_by is_dot (strip (text " a.de. "))) × IsPublic (λ s. false) (text "a.de")
validate_ssllabs_host-IsPublic_example =
    validate_ssllabs_host-IsPublic (λ s. s) (λ s. false) (text " a.de. ") (text "a.de")
      accepted_host

-- Every month is the first of its year and has one date.
abbrev calendar : Calendar
calendar = record {
  year = λ t. t;
  month = λ t. 1;
  day = λ t. 1;
  replace = λ t y m d. t + 2419200;
  month_length = λ y m. 28;
}

abbrev kept : IsCalendar calendar
kept = record {
  first_day = λ t. omega arith;
  has_days = λ y m. omega arith;
  replaced = λ t y m d h first last. omega arith;
}

rank : grade_to_rank (λ s. s) (λ s. s) (some (text "T ")) ≡ some (ℤ.negsuc 0)
unfolding text_eq member is_space is_ascii_space is_digit is_lower is_upper after_prefix starts_with
    remove_prefix has_char count_char ends_in without_last before_char after_char before_last
    after_last strip rstrip split_words first_word spaces_then then_text lstrip_by rstrip_by
    strip_by push_first split_at drop_empty split_where words is_line_end close_line lines_from
    splitlines join rank_in grade_to_rank grade_badge_class is_ssllabs_scan_active
    is_ssllabs_scan_terminal is_ssllabs_scan_failed ssllabs_scan_event_action status_badge_class
rank = refl
