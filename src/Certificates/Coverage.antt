-- ===== src/Certificates/Coverage.antt =====
-- `certificate_coverage_for_domain`, over the names that `certificate_names` returns, and
-- `artifact_scope_from_cert_path`, over the parts of the relative path.
pub mod Laws
use caddybuddy.Certificates.Cover.{CoverKind, dns_name_covers, normalized, remove_suffix}
use caddybuddy.Text.{text, is_space, text_eq, Text}
use caddybuddy.Certificates.Defs.{CertificateName, MatchType}
use caddybuddy.Domains.Shape.{Runtime}
use caddybuddy.Prelude.{
  ℕ, zero, suc, ◌+◌, ◌-◌, ◌*◌, ◌/◌, ◌%◌, ◌^◌, ◌≤◌, ◌<◌, String, ◌≡◌, refl, sym, ap, ◌∙◌, subst, ◌≢◌,
  ◌↔◌, ◌⊎◌, inl, inr, Bool, true, false, not, ◌&&◌, ◌||◌, false≢true, Option, none, some, List, [],
  ◌∷◌, ◌++◌, map, reverse, arith, ltb, leb, ◌==◌, if◌then◌else◌, ltb→lt, lt→ltb, leb→le, ==_iff,
  Bool-cases, Option-cases, and-eq-true, length, is_nil, All, length-append, all, any, all-append,
  All-append, All-all,
}
use caddybuddy.Text.Strip.{strip_by}

-- (covers, match_type, covering_name, is_wildcard)
pub record Coverage : Type 0 where
  pub covers : Bool
  pub match_type : Option MatchType
  pub covering_name : Option Text
  pub is_wildcard : Bool

abbrev pub uncovered : Coverage
uncovered = record { covers = false; match_type = none; covering_name = none; is_wildcard = false }

-- The return behind the loop.
unfoldable pub wildcard_result : Option Text → Coverage
wildcard_result none = uncovered
wildcard_result (some name) = record {
  covers = true;
  match_type = some MatchType.wildcard;
  covering_name = some name;
  is_wildcard = true;
}

-- `wildcard_match or cert_name.value`
unfoldable pub or_name : Option Text → Text → Option Text
or_name none name = some name
or_name (some []) name = some name
or_name (some (c ∷ first)) name = some (c ∷ first)

module _ (rt : Runtime) (domain : Text) where
  -- The loop, with `wildcard_match`; the flag and the kind are what `dns_name_covers` returned.
  unfoldable pub coverage_from : Option Text → List CertificateName → Coverage
  unfolding wildcard_result or_name
  coverage_from wildcard_match [] = wildcard_result wildcard_match
  coverage_from wildcard_match (cert_name ∷ rest) =
      let answer = dns_name_covers rt cert_name.value domain in
      let skipped = coverage_from wildcard_match rest in
      let kept = coverage_from (or_name wildcard_match cert_name.value) rest in
      if not answer.0 then skipped else elim answer.1 [
        | some CoverKind.wildcard ↦ kept
        | _ ↦ record {
          covers = true;
          match_type = some cert_name.source;
          covering_name = some cert_name.value;
          is_wildcard = false;
        }
      ]

unfoldable pub certificate_coverage_for_domain : Runtime → List CertificateName → Text → Coverage
unfolding coverage_from
certificate_coverage_for_domain rt cert_names domain =
    let normalized_domain = normalized rt domain in
    if is_nil normalized_domain
    then uncovered
    else coverage_from rt normalized_domain none cert_names

-- `s.endswith(suffix)`
unfoldable pub ends_with : Text → Text → Bool
unfolding remove_suffix
ends_with suffix s = elim (remove_suffix suffix s) [ none ↦ false | some r ↦ true ]

-- `value.strip().lower()`
unfoldable pub stripped : Runtime → Text → Text
stripped rt value = rt.lower (strip_by is_space value)

-- `none` is a path outside the storage directory (`relative_to` raised).
unfoldable pub artifact_scope : Runtime → Text → Text → Text → Option Text
unfolding ends_with stripped
artifact_scope rt issuer_part scope_part file_part =
    let issuer_name = stripped rt issuer_part in
    let scope_name = stripped rt scope_part in
    let filename = stripped rt file_part in
    if is_nil issuer_name || is_nil scope_name
    then none
    else if not (text_eq issuer_name (text "acme"))
        && not (ends_with (text "-directory") issuer_name)
    then none
    else if not (text_eq filename (scope_name ++ text ".crt"))
    then none
    else some scope_name

unfoldable pub artifact_scope_from_cert_path : Runtime → Option (List Text) → Option Text
unfolding artifact_scope
artifact_scope_from_cert_path rt (some (issuer ∷ scope ∷ file ∷ [])) =
    artifact_scope rt issuer scope file
artifact_scope_from_cert_path rt _ = none
