-- ===== src/Certificates/Dates.antt =====
-- `certificate_info_from_dates`. Of `seconds_remaining` only the sign and the positive values are
-- read, so the truncated difference stands for it.
use caddybuddy.Text.{Text}
use caddybuddy.Certificates.Defs.{MatchType, Source, CertificateInfo, CertificateStatus}
use caddybuddy.Prelude.{
  ℕ, ◌+◌, ◌-◌, ◌*◌, ◌/◌, ◌≤◌, ◌<◌, String, ◌≡◌, ◌↔◌, Bool, true, false, ◌&&◌, Option, none, some,
  List, arith, ltb, leb, if◌then◌else◌,
}

-- `int((expires_at - now).total_seconds())`, and 0 where that is negative.
unfoldable pub seconds_remaining : ℕ → ℕ → ℕ
seconds_remaining expires_at now = (expires_at - now) / 1000000

-- `math.ceil(seconds / 86400)`
unfoldable pub ceil_days : ℕ → ℕ
ceil_days seconds = (seconds + 86399) / 86400

unfoldable pub valid_from_ok : Option ℕ → ℕ → Bool
valid_from_ok none now = true
valid_from_ok (some issued_at) now = leb issued_at now

unfoldable pub status_from_dates : Bool → Option ℕ → ℕ → CertificateStatus
status_from_dates true issued_at now = CertificateStatus.valid
status_from_dates false none now = CertificateStatus.expired
status_from_dates false (some issued_at) now =
    if ltb now issued_at then CertificateStatus.pending else CertificateStatus.expired

-- The keyword arguments that are passed through.
pub record Provenance : Type 0 where
  pub status : Option CertificateStatus
  pub source : Source
  pub match_type : Option MatchType
  pub is_wildcard : Bool
  pub covering_name : Option Text
  pub checked_at : Option ℕ
  pub error_message : Option String
  pub diagnostics : List String
  pub local_artifact_present : Bool
  pub local_artifact_complete : Bool
  pub artifact_scope_name : Option Text

unfoldable pub certificate_info_from_dates :
    Option ℕ → Option ℕ → ℕ → Provenance → Option CertificateInfo
unfolding seconds_remaining ceil_days valid_from_ok status_from_dates
certificate_info_from_dates issued_at none now p = none
certificate_info_from_dates issued_at (some expires_at) now p =
    let seconds = seconds_remaining expires_at now in
    let is_valid = valid_from_ok issued_at now && ltb 0 seconds in
    some (record {
      exists = true;
      valid = is_valid;
      issued_at = issued_at;
      expires_at = some expires_at;
      days_remaining = some (if ltb 0 seconds then ceil_days seconds else 0);
      error_message = p.error_message;
      status = elim p.status [ some s ↦ s | none ↦ status_from_dates is_valid issued_at now ];
      source = p.source;
      match_type = p.match_type;
      is_wildcard = p.is_wildcard;
      covering_name = p.covering_name;
      checked_at = p.checked_at;
      diagnostics = p.diagnostics;
      local_artifact_present = p.local_artifact_present;
      local_artifact_complete = p.local_artifact_complete;
      artifact_scope_name = p.artifact_scope_name;
    })

-- The start, if there is one, is not in the future.
abbrev pub HasStarted : Option ℕ → ℕ → Type 0
HasStarted none now = Unit
HasStarted (some issued_at) now = issued_at ≤ now

-- Where a certificate with an expiry date gives an answer: it is valid exactly when its start, if
-- there is one, is not in the future and a full second at least is left; the days left are positive
-- exactly when a full second is left; less than one second more than these days is left; and more
-- than one day less is left if there are days.
pub certificate_info_from_dates_lem :
    (issued_at : Option ℕ) (expires_at now : ℕ) (p : Provenance) {info : CertificateInfo} {days : ℕ}
    → certificate_info_from_dates issued_at (some expires_at) now p ≡ some info
    → info.days_remaining ≡ some days
    → ((info.valid ≡ true) ↔ (HasStarted issued_at now × (now + 1000000 ≤ expires_at)))
      × ((0 < days) ↔ (now + 1000000 ≤ expires_at))
      × (expires_at < now + days * 86400000000 + 1000000)
      × ((0 < days) → (now + days * 86400000000 < expires_at + 86400000000))
unfolding certificate_info_from_dates seconds_remaining ceil_days valid_from_ok
certificate_info_from_dates_lem none expires_at now p h d = (
  (λ v. (tt, ground arith), λ v. ground arith),
  (λ v. ground arith, λ v. ground arith),
  ground arith,
  λ v. ground arith,
)
certificate_info_from_dates_lem (some issued_at) expires_at now p h d = (
  (λ v. (ground arith, ground arith), λ v. ground (arith, v.0, v.1)),
  (λ v. ground arith, λ v. ground arith),
  ground arith,
  λ v. ground arith,
)
