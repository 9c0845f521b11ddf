-- ===== src/Renewal/Plan.antt =====
-- `build_plan` and `_evaluate_renewal_capability`.
pub mod Laws
use caddybuddy.Renewal.Effects.{fetch_infos, ◌>>=◌, Eff, call, Services, raise, pure}
use caddybuddy.Renewal.Defs.{
  standard_renewal, artifact_purge, local_artifact_incomplete, acquisition_sync, api_reload,
  control_mode_disabled, local_artifact_missing, restart_repair, wildcard_scope, covering,
  value_error, wildcard_scope_required, certificate_check_pending, storage_unreadable, Site,
  check_failed, domain_scope, Reason, is_disabled, no_domains, Capability, Mode, Settings,
}
use caddybuddy.Domains.Shape.{Result, Runtime}
use caddybuddy.Domains.Split.{split_domain_names}
use caddybuddy.Text.{text_eq, Text}
use caddybuddy.Certificates.Defs.{CertificateInfo, CertificateStatus, Source}
use caddybuddy.Prelude.{
  ℕ, zero, suc, ◌+◌, ◌-◌, ◌*◌, ◌/◌, ◌%◌, ◌^◌, ◌≤◌, ◌<◌, String, ◌≡◌, refl, sym, ap, ◌∙◌, subst, ◌≢◌,
  ◌↔◌, ◌⊎◌, inl, inr, Bool, true, false, not, ◌&&◌, ◌||◌, false≢true, Option, none, some, List, [],
  ◌∷◌, ◌++◌, map, reverse, arith, ltb, leb, ◌==◌, if◌then◌else◌, ltb→lt, lt→ltb, leb→le, ==_iff,
  Bool-cases, Option-cases, and-eq-true, length, is_nil, All, length-append, all, any, all-append,
  All-append, All-all,
}

-- `o or other`, for a text
unfoldable pub or_else : Option Text → Text → Text
or_else none other = other
or_else (some []) other = other
or_else (some (c ∷ s)) other = c ∷ s

-- `dict.get`
unfoldable pub get : Text → List (Text × CertificateInfo) → Option CertificateInfo
get key [] = none
get key ((k, info) ∷ rest) = if text_eq key k then some info else get key rest

abbrev pub is_remote : Source → Bool
is_remote Source.remote = true
is_remote _ = false

abbrev pub is_storage_unavailable : CertificateStatus → Bool
is_storage_unavailable CertificateStatus.storage_unavailable = true
is_storage_unavailable _ = false

abbrev plain : Mode → Reason → Text → List Text → Capability
plain mode reason domain domains = record {
  mode = mode;
  reason = reason;
  requires_confirmation = false;
  scope_name = some domain;
  scope_type = domain_scope;
  wait_domains = domains;
}

-- From `if not cert_info` on.
unfoldable pub capability_of : Settings → List Text → Text → Option CertificateInfo → Capability
unfolding or_else
capability_of settings domains domain none = plain Mode.unavailable check_failed domain domains
capability_of settings domains domain (some info) =
    let covering_name = or_else info.covering_name domain in
    let artifact_scope = or_else info.artifact_scope_name domain in
    if is_storage_unavailable info.status
    then plain Mode.storage_unavailable storage_unreadable domain domains
    else if info.is_wildcard
    then record {
      mode = wildcard_scope_required;
      reason = covering covering_name;
      requires_confirmation = false;
      scope_name = some covering_name;
      scope_type = wildcard_scope;
      wait_domains = domains;
    }
    else if not info.local_artifact_present
    then (if info.valid && is_remote info.source
        then record (plain restart_repair local_artifact_missing artifact_scope domains) {
          requires_confirmation = settings.caddy_restart_confirmation_required;
        }
        else plain acquisition_sync local_artifact_missing artifact_scope domains)
    else if not info.local_artifact_complete
    then (if info.valid
        then record (plain restart_repair local_artifact_incomplete artifact_scope domains) {
          requires_confirmation = settings.caddy_restart_confirmation_required;
        }
        else plain acquisition_sync local_artifact_incomplete artifact_scope domains)
    else plain artifact_purge standard_renewal artifact_scope domains

-- The branches of `build_plan` for `caddy_control_mode == "disabled"`.
unfoldable pub downgrade_from : Mode → Capability → Capability
downgrade_from restart_repair c = record c {
  mode = Mode.unavailable;
  reason = control_mode_disabled;
  requires_confirmation = false;
}
downgrade_from artifact_purge c = record c {
  mode = api_reload;
  reason = control_mode_disabled;
  requires_confirmation = false;
}
downgrade_from _ c = c

unfoldable pub downgrade : Capability → Capability
unfolding downgrade_from
downgrade c = downgrade_from c.mode c

unfoldable pub adjust : Settings → Capability → Capability
unfolding downgrade
adjust settings c = if is_disabled settings.caddy_control_mode then downgrade c else c

abbrev pub no_domains_capability : Capability
no_domains_capability = record {
  mode = Mode.unavailable;
  reason = no_domains;
  requires_confirmation = false;
  scope_name = none;
  scope_type = domain_scope;
  wait_domains = [];
}

unfoldable pub domains_or_raise : Result (List Text) → Eff (List Text)
domains_or_raise (Result.ok domains) = pure domains
domains_or_raise (Result.err e) = raise value_error

-- `split_domain_names`, whose `ValueError` is not caught here.
unfoldable pub domains_of : Runtime → Site → Eff (List Text)
domains_of rt site = domains_or_raise (split_domain_names rt false site.domain)

module _ (rt : Runtime) (sv : Services) (settings : Settings) where
  -- The info at hand, or the one fetched for the first domain.
  unfoldable pub evaluate_info : List Text → Text → Option CertificateInfo → Bool → Eff Capability
  evaluate_info domains domain (some info) fetch_if_missing =
      pure (capability_of settings domains domain (some info))
  evaluate_info domains domain none false =
      pure (plain Mode.unavailable certificate_check_pending domain domains)
  evaluate_info domains domain none true = do
    infos ← call (fetch_infos domains) sv.infos
    pure (capability_of settings domains domain (get domain infos))

  unfoldable pub evaluate_domains : Option CertificateInfo → Bool → List Text → Eff Capability
  evaluate_domains cert_info fetch_if_missing [] = pure no_domains_capability
  evaluate_domains cert_info fetch_if_missing (domain ∷ rest) =
      evaluate_info (domain ∷ rest) domain cert_info fetch_if_missing

  unfoldable pub evaluate_renewal_capability : Site → Option CertificateInfo → Bool → Eff Capability
  evaluate_renewal_capability site cert_info fetch_if_missing = do
    domains ← domains_of rt site
    evaluate_domains cert_info fetch_if_missing domains

  unfoldable pub build_plan : Site → Option CertificateInfo → Bool → Eff Capability
  build_plan site cert_info fetch_if_missing = do
    capability ← evaluate_renewal_capability site cert_info fetch_if_missing
    pure (adjust settings capability)
