-- ===== src/Renewal/Examples.antt =====
-- The theorems on renewals applied to one site, whose certificate storage has a complete artifact.
use caddybuddy.Certificates.Defs.{
  Source, CertificateStatus, MatchType, CertificateInfo, ParsedCertificate,
}
use caddybuddy.Renewal.Defs.{
  ScopeType, succeeded, Reason, restart_repair, ControlMode, Mode, Settings, Site, Capability,
}
use caddybuddy.Supervisor.Defs.{SupervisorStatus, RestartResult}
use caddybuddy.Renewal.Effects.{
  ok, sleep, Action, History, Services, pure, raise, call, try_except, try_finally, ◌>>=◌,
}
use caddybuddy.Renewal.Execute.ApiOnly.{execute-IsApiOnly, IsApiOnly}
use caddybuddy.Renewal.Execute.Guards.{execute-IsQuiet, IsQuiet}
use caddybuddy.Renewal.Execute.Lock.{execute-Free, Free}
use caddybuddy.Renewal.Execute.Polling.{wait_for_local_artifacts-Ended, Ended, SteadyClock}
use caddybuddy.Renewal.Execute.PurgeGuard.{execute-PurgeGuarded, PurgeGuarded}
use caddybuddy.Renewal.Execute.Success.{execute-Confirmed}
use caddybuddy.Domains.Shape.{
  Result, is_alnum, is_inner, is_tail, is_label, is_top, are_labels, matches_domain,
  normalize_domain_name,
}
use caddybuddy.Renewal.Execute.Backed.{Confirmed}
use caddybuddy.Renewal.Execute.Run.{
  same_text?, same_texts, matches_plan, report, run_in, run_mode, confirm_and_run, safe_scope,
  with_lock, execute_trusted, fallback_targets, target_domains, execute,
}
use caddybuddy.Text.{
  Text, text, text_eq, member, is_space, is_ascii_space, is_digit, is_lower, is_upper,
}
use caddybuddy.Domains.Split.{is_separator, normalize_tokens, split_domain_names}
use caddybuddy.Text.Strip.{lstrip_by, rstrip_by, strip_by}
use caddybuddy.Text.Split.{push_first, split_at, drop_empty, split_where, words}
use caddybuddy.Renewal.Plan.{
  or_else, get, capability_of, downgrade_from, downgrade, adjust, domains_or_raise, domains_of,
  evaluate_info, evaluate_domains, evaluate_renewal_capability, build_plan,
}
use caddybuddy.Renewal.Execute.Wait.{
  with_control_timeout, publish_progress, poll_interval, fuel_for, read, attempt_health,
  health_round, poll_health, wait_for_caddy_health, all_complete, artifacts_round, poll_artifacts,
  wait_for_local_artifacts,
}
use caddybuddy.Renewal.Execute.Verify.{
  detail_of, judge_one, judge, outcome_of, remote_outcome, invalidate_one, invalidate_all,
  fetch_remote_info, verify_renewal_success,
}
use caddybuddy.Certificates.Cover.{
  normalized, remove_suffix, contains_dot, is_one_label, wildcard_suffix, covers_below,
  covers_normalized, dns_name_covers,
}
use caddybuddy.Certificates.Dates.{
  seconds_remaining, ceil_days, valid_from_ok, status_from_dates, certificate_info_from_dates,
}
use caddybuddy.Certificates.Find.{
  keep_wildcard, match_names, rank_lt, rank_of, ranked, candidate, better, best_from,
  find_certificate_for_domain,
}
use caddybuddy.Renewal.Execute.Paths.{execute_acquisition_sync}
use caddybuddy.Domains.Examples.{ascii, ascii_lower}
use caddybuddy.Prelude.{
  ℕ, ◌+◌, ◌≡◌, refl, Bool, true, false, none, some, List, [], ◌∷◌, arith, All, all,
}

abbrev example_settings : ControlMode → Settings
example_settings mode = record {
  caddy_control_mode = mode;
  caddy_restart_confirmation_required = true;
  cert_renewal_monitor_timeout = 60000;
  cert_renewal_poll_interval = 2000;
}

abbrev site : Site
site = record { domain = text "a.de"; enabled = true }

-- What the storage scan finds: a certificate for the site that ends in a month.
abbrev certificate : ParsedCertificate
certificate = record {
  dns_names = record { value = text "a.de"; source = MatchType.san } ∷ [];
  issued_at = some 0;
  expires_at = some 2592000000000;
  local_artifact_complete = true;
  artifact_scope_name = some (text "a.de");
}

-- The information with which the plan is made: nothing is stored for the site yet.
abbrev missing_info : CertificateInfo
missing_info = record {
  exists = false;
  valid = false;
  issued_at = none;
  expires_at = none;
  days_remaining = none;
  error_message = none;
  status = CertificateStatus.missing;
  source = Source.nowhere;
  match_type = none;
  is_wildcard = false;
  covering_name = none;
  checked_at = none;
  diagnostics = [];
  local_artifact_present = false;
  local_artifact_complete = false;
  artifact_scope_name = none;
}

abbrev pause : Action → ℕ
pause (sleep n) = n
pause _ = 0

-- A call takes no time, and a sleep what it was asked to.
abbrev elapsed : History → ℕ
elapsed [] = 0
elapsed (action ∷ h) = elapsed h + pause action

abbrev restarted : RestartResult
restarted = record { success = true; output = []; error = none }

-- Every restart, reload or purge works.
abbrev services : Services
services = record {
  infos = λ h. ok ((text "a.de", missing_info) ∷ []);
  remote = λ h. ok ((text "a.de", record missing_info { valid = true }) ∷ []);
  lock = λ h. ok true;
  has_progress = false;
  progress = λ h. ok tt;
  supervisor = λ h. ok tt;
  status = λ h. ok (record { success = true; status = SupervisorStatus.running; error = none });
  restart = λ h. ok restarted;
  reload = λ h. ok restarted;
  purged = λ h. ok 1;
  admin_url = λ h. ok true;
  client = λ h. ok tt;
  health = λ h. ok true;
  current_config = λ h. ok tt;
  load = λ h. ok tt;
  invalidated = λ h. ok tt;
  clock = elapsed;
  cancels = λ h. false;
  scan = λ h. (certificate ∷ [], false);
  now = λ h d. 1000000;
  isalnum = λ c. is_lower c;
}

abbrev domains : List Text
domains = text "a.de" ∷ []

abbrev mode_asks : Mode → Bool
mode_asks restart_repair = true
mode_asks _ = false

abbrev plan_for : Mode → Capability
plan_for mode = record {
  mode = mode;
  reason = Reason.local_artifact_missing;
  requires_confirmation = mode_asks mode;
  scope_name = some (text "a.de");
  scope_type = ScopeType.domain_scope;
  wait_domains = domains;
}

site_domains : split_domain_names ascii false site.domain ≡ Result.ok domains
unfolding is_alnum is_inner is_tail is_label is_top are_labels matches_domain normalize_domain_name
    is_separator normalize_tokens split_domain_names lstrip_by rstrip_by strip_by push_first
    split_at drop_empty split_where words text_eq member is_space is_ascii_space is_digit is_lower
    is_upper ascii_lower all
site_domains = refl

execute-IsApiOnly_example :
    All IsApiOnly
      (execute ascii services
        (example_settings ControlMode.disabled)
        site
        (plan_for Mode.acquisition_sync)
        false
        []).1
execute-IsApiOnly_example =
    execute-IsApiOnly ascii services (example_settings ControlMode.disabled) site
      (plan_for Mode.acquisition_sync) false [] refl tt

execute-PurgeGuarded_example :
    PurgeGuarded services
      (execute ascii services
        (example_settings ControlMode.systemd)
        site
        (plan_for Mode.acquisition_sync)
        true
        []).1
execute-PurgeGuarded_example =
    execute-PurgeGuarded ascii services (example_settings ControlMode.systemd) site
      (plan_for Mode.acquisition_sync) true [] tt

execute-Free_example :
    Free services
      (execute ascii services
        (example_settings ControlMode.systemd)
        site
        (plan_for Mode.acquisition_sync)
        true
        []).1
execute-Free_example =
    execute-Free ascii services (example_settings ControlMode.systemd) site
      (plan_for Mode.acquisition_sync) true [] (tt, refl)

execute-IsQuiet_example :
    All IsQuiet
      (execute ascii services
        (example_settings ControlMode.systemd)
        site
        (plan_for Mode.restart_repair)
        false
        []).1
execute-IsQuiet_example =
    execute-IsQuiet ascii services (example_settings ControlMode.systemd) site
      (plan_for Mode.restart_repair) [] refl tt

steady : SteadyClock services
steady = record { grows = λ action h. omega arith; sleeps = λ n h. omega arith }

wait_for_local_artifacts-Ended_example :
    Ended ascii services (example_settings ControlMode.systemd) 60000 (
      wait_for_local_artifacts ascii services
        (example_settings ControlMode.systemd)
        domains
        60000
        [])
wait_for_local_artifacts-Ended_example =
    wait_for_local_artifacts-Ended ascii services (example_settings ControlMode.systemd) steady
      (λ h. refl) domains 60000 []

run_succeeds :
    (execute ascii services
      (example_settings ControlMode.systemd)
      site
      (plan_for Mode.acquisition_sync)
      true
      []).0
    ≡ ok (succeeded "Certificate artifacts were recreated and certificate state is valid.")
unfolding pure raise call try_except try_finally ◌>>=◌ or_else get capability_of downgrade_from
    downgrade adjust domains_or_raise domains_of evaluate_info evaluate_domains
    evaluate_renewal_capability build_plan with_control_timeout publish_progress poll_interval
    fuel_for read attempt_health health_round poll_health wait_for_caddy_health all_complete
    artifacts_round poll_artifacts wait_for_local_artifacts detail_of judge_one judge outcome_of
    remote_outcome invalidate_one invalidate_all fetch_remote_info verify_renewal_success same_text?
    same_texts matches_plan report run_in run_mode confirm_and_run safe_scope with_lock
    execute_trusted fallback_targets target_domains execute normalized remove_suffix contains_dot
    is_one_label wildcard_suffix covers_below covers_normalized dns_name_covers seconds_remaining
    ceil_days valid_from_ok status_from_dates certificate_info_from_dates keep_wildcard match_names
    rank_lt rank_of ranked candidate better best_from find_certificate_for_domain
    execute_acquisition_sync is_alnum is_inner is_tail is_label is_top are_labels matches_domain
    normalize_domain_name is_separator normalize_tokens split_domain_names lstrip_by rstrip_by
    strip_by push_first split_at drop_empty split_where words text_eq member is_space is_ascii_space
    is_digit is_lower is_upper ascii_lower all
run_succeeds = refl

execute-Confirmed_example :
    Confirmed ascii services
      (example_settings ControlMode.systemd)
      domains
      (execute ascii services
        (example_settings ControlMode.systemd)
        site
        (plan_for Mode.acquisition_sync)
        true
        []).1
execute-Confirmed_example =
    execute-Confirmed ascii services (example_settings ControlMode.systemd) site
      (plan_for Mode.acquisition_sync) true (text "a.de") [] []
      (succeeded "Certificate artifacts were recreated and certificate state is valid.") refl
      site_domains run_succeeds refl
