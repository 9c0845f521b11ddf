-- ===== src/Renewal/Execute/Verify.antt =====
-- `_verify_renewal_success`.
use caddybuddy.Renewal.Defs.{
  failed, is_exception, Settings, certificate_status, Detail, live_verification_failed, succeeded,
  Outcome,
}
use caddybuddy.Renewal.Effects.{
  ◌>>=◌, fetch_remote, invalidate, call, pure, try_except, ◌>>◌, Eff, Services,
}
use caddybuddy.Domains.Shape.{Runtime}
use caddybuddy.Renewal.Execute.Wait.{wait_for_local_artifacts}
use caddybuddy.Certificates.Defs.{CertificateInfo, CertificateStatus}
use caddybuddy.Renewal.Plan.{get}
use caddybuddy.Text.{Text}
use caddybuddy.Prelude.{
  Bool, true, false, not, Option, none, some, List, [], ◌∷◌, ◌++◌, if◌then◌else◌, is_nil,
}
use text.Mathlib.Text.{◌==◌ as str_eq}

abbrev is_check_unavailable : CertificateStatus → Bool
is_check_unavailable CertificateStatus.remote_check_unavailable = true
is_check_unavailable _ = false

-- `info.error_message or info.status`
unfoldable pub detail_of : CertificateInfo → Detail
detail_of info = elim info.error_message [
  | none ↦ certificate_status info.status
  | some m ↦ if str_eq m "" then certificate_status info.status else Detail.error_message m
]

-- (blocking_errors, remote_skipped)
pub record Verdict : Type 0 where
  pub blocking_errors : List (Text × Detail)
  pub remote_skipped : Bool

-- One round of the loop over the domains.
unfoldable pub judge_one : Text → Option CertificateInfo → Verdict → Verdict
unfolding detail_of
judge_one domain none v = v
judge_one domain (some info) v =
    if is_check_unavailable info.status
    then record v { remote_skipped = true }
    else if not info.valid
    then record v { blocking_errors = v.blocking_errors ++ (domain, detail_of info) ∷ [] }
    else v

unfoldable pub judge : List (Text × CertificateInfo) → List Text → Verdict → Verdict
unfolding judge_one get
judge remote_info [] v = v
judge remote_info (domain ∷ domains) v =
    judge remote_info domains (judge_one domain (get domain remote_info) v)

unfoldable pub outcome_of : Verdict → Outcome
outcome_of v =
    if not (is_nil v.blocking_errors)
    then record { success = false; message = live_verification_failed v.blocking_errors }
    else if v.remote_skipped
    then succeeded
        "Certificate artifacts were recreated. Live TLS verification was skipped for a private or non-public domain."
    else succeeded "Certificate artifacts were recreated and certificate state is valid."

abbrev start_verdict : Verdict
start_verdict = record { blocking_errors = []; remote_skipped = false }

-- The outcome once the remote check has answered, or raised.
unfoldable pub remote_outcome : List Text → Option (List (Text × CertificateInfo)) → Outcome
unfolding judge outcome_of
remote_outcome domains none =
    succeeded "Certificate artifacts were recreated. Live TLS verification could not be completed."
remote_outcome domains (some remote_info) = outcome_of (judge remote_info domains start_verdict)

module _ (rt : Runtime) (sv : Services) (settings : Settings) where
  unfoldable pub invalidate_one : Text → Eff (Unit {0})
  invalidate_one domain =
      try_except (call (invalidate domain) sv.invalidated) is_exception (λ _. pure tt)

  unfoldable pub invalidate_all : List Text → Eff (Unit {0})
  invalidate_all [] = pure tt
  invalidate_all (domain ∷ domains) = invalidate_one domain >> invalidate_all domains

  unfoldable pub fetch_remote_info : List Text → Eff (Option (List (Text × CertificateInfo)))
  fetch_remote_info domains =
      try_except (do infos ← call (fetch_remote domains) sv.remote; pure (some infos)) is_exception
        (λ _. pure none)

  unfoldable pub verify_renewal_success : List Text → Eff Outcome
  verify_renewal_success domains = do
    artifacts_ok ←
        wait_for_local_artifacts rt sv settings domains settings.cert_renewal_monitor_timeout
    if not artifacts_ok then pure (failed "Certificate artifacts were not recreated.") else do
      invalidate_all domains
      remote_info ← fetch_remote_info domains
      pure (remote_outcome domains remote_info)
