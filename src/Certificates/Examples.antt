-- ===== src/Certificates/Examples.antt =====
-- The theorems on certificates applied to one certificate for a wildcard.
use caddybuddy.Certificates.Find.Preference.{find_certificate-IsChoice, IsChoice}
use caddybuddy.Certificates.Dates.{
  HasStarted, status_from_dates, ceil_days, certificate_info_from_dates_lem, seconds_remaining,
  Provenance, certificate_info_from_dates, valid_from_ok,
}
use caddybuddy.Text.{is_upper, is_space, text}
use caddybuddy.Certificates.Cover.Laws.{dns_name_covers_iff, Covers}
use caddybuddy.Certificates.Coverage.Laws.{certificate_coverage_lem, some_exact, some_covers}
use caddybuddy.Certificates.Find.None.{find_certificate_none_iff, Hopeless}
use caddybuddy.Text.Strip.{rstrip_by, lstrip_by, strip_by}
use caddybuddy.Certificates.Defs.{
  MatchType, CertificateStatus, Source, CertificateInfo, ParsedCertificate,
}
use caddybuddy.Certificates.Coverage.{certificate_coverage_for_domain, Coverage}
use caddybuddy.Certificates.Cover.{dns_name_covers, normalized}
use caddybuddy.Certificates.Find.{find_certificate_for_domain}
use caddybuddy.Domains.Examples.{ascii, ascii_lower}
use caddybuddy.Prelude.{
  ◌+◌, ◌*◌, ◌≤◌, ◌<◌, ◌≡◌, refl, ◌↔◌, true, false, not, ◌&&◌, none, some, [], ◌∷◌, is_nil, All,
}

-- It ends ten days and half a second after the start of the clock.
abbrev wildcard_certificate : ParsedCertificate
wildcard_certificate = record {
  dns_names = record { value = text "*.a.de"; source = MatchType.wildcard } ∷ [];
  issued_at = some 0;
  expires_at = some 864000500000;
  local_artifact_complete = true;
  artifact_scope_name = none;
}

dns_name_covers_iff_example :
    ((dns_name_covers ascii (text "*.a.de") (text "B.a.de")).0 ≡ true)
    ↔ Covers (normalized ascii (text "*.a.de")) (normalized ascii (text "B.a.de"))
dns_name_covers_iff_example = dns_name_covers_iff ascii (text "*.a.de") (text "B.a.de")

given : is_nil (normalized ascii (text "B.a.de")) ≡ false
unfolding normalized strip_by lstrip_by rstrip_by is_space ascii_lower is_upper
given = refl

find_certificate-IsChoice_example :
    IsChoice ascii
      (normalized ascii (text "B.a.de"))
      5000000
      (find_certificate_for_domain ascii 5000000 (wildcard_certificate ∷ []) (text "B.a.de"))
      (wildcard_certificate ∷ [])
find_certificate-IsChoice_example =
    find_certificate-IsChoice ascii 5000000 (wildcard_certificate ∷ []) (text "B.a.de") given

find_certificate_none_iff_example :
    (find_certificate_for_domain ascii 5000000 (wildcard_certificate ∷ []) (text "B.a.de") ≡ none)
    ↔ All (Hopeless ascii (normalized ascii (text "B.a.de"))) (wildcard_certificate ∷ [])
find_certificate_none_iff_example =
    find_certificate_none_iff ascii 5000000 (wildcard_certificate ∷ []) (text "B.a.de") given

abbrev coverage : Coverage
coverage = certificate_coverage_for_domain ascii wildcard_certificate.dns_names (text "B.a.de")

certificate_coverage_lem_example :
    (coverage.covers
      ≡ some_covers ascii (normalized ascii (text "B.a.de")) wildcard_certificate.dns_names)
    × (coverage.is_wildcard ≡ (
        some_covers ascii (normalized ascii (text "B.a.de")) wildcard_certificate.dns_names
        && not
            (some_exact ascii (normalized ascii (text "B.a.de")) wildcard_certificate.dns_names)))
certificate_coverage_lem_example =
    certificate_coverage_lem ascii wildcard_certificate.dns_names (text "B.a.de") given

abbrev local_provenance : Provenance
local_provenance = record {
  status = none;
  source = Source.local;
  match_type = some MatchType.wildcard;
  is_wildcard = true;
  covering_name = some (text "*.a.de");
  checked_at = none;
  error_message = none;
  diagnostics = [];
  local_artifact_present = true;
  local_artifact_complete = true;
  artifact_scope_name = none;
}

abbrev ten_days : CertificateInfo
ten_days = record {
  exists = true;
  valid = true;
  issued_at = some 0;
  expires_at = some 864000500000;
  days_remaining = some 10;
  error_message = none;
  status = CertificateStatus.valid;
  source = Source.local;
  match_type = some MatchType.wildcard;
  is_wildcard = true;
  covering_name = some (text "*.a.de");
  checked_at = none;
  diagnostics = [];
  local_artifact_present = true;
  local_artifact_complete = true;
  artifact_scope_name = none;
}

ten_days_left :
    certificate_info_from_dates (some 0) (some 864000500000) 5000000 local_provenance
    ≡ some ten_days
unfolding certificate_info_from_dates seconds_remaining ceil_days valid_from_ok status_from_dates
ten_days_left = refl

certificate_info_from_dates_lem_example :
    ((ten_days.valid ≡ true) ↔ (HasStarted (some 0) 5000000 × (5000000 + 1000000 ≤ 864000500000)))
    × ((0 < 10) ↔ (5000000 + 1000000 ≤ 864000500000))
    × (864000500000 < 5000000 + 10 * 86400000000 + 1000000)
    × ((0 < 10) → (5000000 + 10 * 86400000000 < 864000500000 + 86400000000))
certificate_info_from_dates_lem_example =
    certificate_info_from_dates_lem (some 0) 864000500000 5000000 local_provenance ten_days_left
      refl
