-- ===== src/Certificates/Find.antt =====
-- `find_certificate_for_domain`: the choice among the certificates of the storage.
pub mod Order
pub mod Laws
pub mod None
pub mod Preference
use caddybuddy.Certificates.Cover.{CoverKind, dns_name_covers, normalized}
use caddybuddy.Certificates.Defs.{
  Source, CertificateName, ParsedCertificate, CertificateInfo, MatchType,
}
use caddybuddy.Certificates.Dates.{certificate_info_from_dates}
use caddybuddy.Domains.Shape.{Runtime}
use caddybuddy.Text.{Text}
use caddybuddy.Prelude.{
  ℕ, zero, suc, ◌+◌, ◌-◌, ◌*◌, ◌/◌, ◌%◌, ◌^◌, ◌≤◌, ◌<◌, String, ◌≡◌, refl, sym, ap, ◌∙◌, subst, ◌≢◌,
  ◌↔◌, ◌⊎◌, inl, inr, Bool, true, false, not, ◌&&◌, ◌||◌, false≢true, Option, none, some, List, [],
  ◌∷◌, ◌++◌, map, reverse, arith, ltb, leb, ◌==◌, if◌then◌else◌, ltb→lt, lt→ltb, leb→le, ==_iff,
  Bool-cases, Option-cases, and-eq-true, length, is_nil, All, length-append, all, any, all-append,
  All-append, All-all,
}

-- (covering_name, match_type, is_wildcard), the loop's variables
pub record NameMatch : Type 0 where
  pub covering_name : Option Text
  pub match_type : Option MatchType
  pub is_wildcard : Bool

-- What the loop over `cert.dns_names` does at a name that covers by a wildcard.
unfoldable pub keep_wildcard : Text → NameMatch → NameMatch
keep_wildcard value m = elim m.covering_name [
  | none ↦ record {
    covering_name = some value;
    match_type = some MatchType.wildcard;
    is_wildcard = true;
  }
  | some n ↦ m
]

unfoldable pub match_names : Runtime → Text → NameMatch → List CertificateName → NameMatch
unfolding keep_wildcard
match_names rt domain m [] = m
match_names rt domain m (cert_name ∷ rest) =
    let answer = dns_name_covers rt cert_name.value domain in
    let skipped = match_names rt domain m rest in
    let kept = match_names rt domain (keep_wildcard cert_name.value m) rest in
    if not answer.0 then skipped else elim answer.1 [
      | some CoverKind.wildcard ↦ kept
      | _ ↦ record {
        covering_name = some cert_name.value;
        match_type = some cert_name.source;
        is_wildcard = false;
      }
    ]

abbrev pub no_match : NameMatch
no_match = record { covering_name = none; match_type = none; is_wildcard = false }

-- The tuple `rank`; its last part is the negated expiry time.
pub record Rank : Type 0 where
  pub invalid : ℕ
  pub incomplete : ℕ
  pub inexact : ℕ
  pub expires_at : ℕ

-- `<` on the tuples: lexicographic, and a later expiry is a smaller last part.
unfoldable pub rank_lt : Rank → Rank → Bool
rank_lt a b =
    ltb a.invalid b.invalid
    || a.invalid == b.invalid
      && (ltb a.incomplete b.incomplete
          || a.incomplete == b.incomplete
            && (ltb a.inexact b.inexact || a.inexact == b.inexact && ltb b.expires_at a.expires_at))

abbrev is_san : MatchType → Bool
is_san MatchType.san = true
is_san MatchType.wildcard = false

unfoldable pub rank_of : CertificateInfo → MatchType → Bool → ℕ → Rank
rank_of info match_type is_wildcard expires_at = record {
  invalid = if info.valid then 0 else 1;
  incomplete = if info.local_artifact_complete then 0 else 1;
  inexact = if is_san match_type && not is_wildcard then 0 else 1;
  expires_at = expires_at;
}

abbrev pub Candidate : Type 0
Candidate = Rank × CertificateInfo

module _ (rt : Runtime) (domain : Text) (now : ℕ) where
  -- From the matched names of one certificate to the pair that competes, if any.
  unfoldable pub ranked : ParsedCertificate → NameMatch → Option Candidate
  unfolding rank_of certificate_info_from_dates
  ranked cert m = elim m.covering_name [
    | none ↦ none
    | some name ↦ elim m.match_type [
      | none ↦ none
      | some match_type ↦
          elim (certificate_info_from_dates cert.issued_at cert.expires_at now (record {
            status = none;
            source = Source.local;
            match_type = some match_type;
            is_wildcard = m.is_wildcard;
            covering_name = some name;
            checked_at = some now;
            error_message = none;
            diagnostics = [];
            local_artifact_present = true;
            local_artifact_complete = cert.local_artifact_complete;
            artifact_scope_name = cert.artifact_scope_name;
          })) [
            | none ↦ none
            | some info ↦ elim cert.expires_at [
              | none ↦ some (rank_of info match_type m.is_wildcard 0, info)
              | some e ↦ some (rank_of info match_type m.is_wildcard e, info)
            ]
          ]
    ]
  ]

  unfoldable pub candidate : ParsedCertificate → Option Candidate
  unfolding match_names ranked
  candidate cert = ranked cert (match_names rt domain no_match cert.dns_names)

-- `best_match is None or rank < best_match[0]`
unfoldable pub better : Option Candidate → Option Candidate → Option Candidate
unfolding rank_lt
better best none = best
better none (some c) = some c
better (some b) (some c) = if rank_lt c.0 b.0 then some c else some b

module _ (rt : Runtime) (domain : Text) (now : ℕ) where
  unfoldable pub best_from : Option Candidate → List ParsedCertificate → Option Candidate
  unfolding better candidate
  best_from best [] = best
  best_from best (cert ∷ certs) = best_from (better best (candidate rt domain now cert)) certs

-- `now` is the clock's answer.
unfoldable pub find_certificate_for_domain :
    Runtime → ℕ → List ParsedCertificate → Text → Option CertificateInfo
unfolding best_from
find_certificate_for_domain rt now certs domain =
    let normalized_domain = normalized rt domain in
    if is_nil normalized_domain
    then none
    else elim (best_from rt normalized_domain now none certs) [
      | none ↦ none
      | some (rank, info) ↦ some info
    ]
