-- ===== src/Certificates/Defs.antt =====
-- The data types of app/services/certificates.py. A `datetime` is its number of microseconds.
use caddybuddy.Prelude.{ℕ, String, Bool, Option, List}
use caddybuddy.Text.{Text}

pub data CertificateStatus : Type 0 where
  valid expired pending error missing storage_unavailable remote_check_unavailable :
      CertificateStatus

pub data Source : Type 0 where
  local remote nowhere : Source

pub data MatchType : Type 0 where
  san wildcard : MatchType

pub record CertificateInfo : Type 0 where
  pub exists : Bool
  pub valid : Bool
  pub issued_at : Option ℕ
  pub expires_at : Option ℕ
  pub days_remaining : Option ℕ
  pub error_message : Option String
  pub status : CertificateStatus
  pub source : Source
  pub match_type : Option MatchType
  pub is_wildcard : Bool
  pub covering_name : Option Text
  pub checked_at : Option ℕ
  pub diagnostics : List String
  pub local_artifact_present : Bool
  pub local_artifact_complete : Bool
  pub artifact_scope_name : Option Text

pub record CertificateName : Type 0 where
  pub value : Text
  pub source : MatchType

-- `path` is not read by what is modelled.
pub record ParsedCertificate : Type 0 where
  pub dns_names : List CertificateName
  pub issued_at : Option ℕ
  pub expires_at : Option ℕ
  pub local_artifact_complete : Bool
  pub artifact_scope_name : Option Text
