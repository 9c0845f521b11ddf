-- ===== src/Certificates/Coverage/Laws.antt =====
-- Exact names win over wildcards, and a certificate covers a domain when one of its names does.
use caddybuddy.Certificates.Cover.{dns_name_covers, normalized, CoverKind}
use caddybuddy.Certificates.Coverage.{
  or_name, CertificateName, certificate_coverage_for_domain, coverage_from,
}
use caddybuddy.Domains.Shape.{Runtime}
use caddybuddy.Text.{Text}
use caddybuddy.Prelude.{
  ◌≡◌, Bool, true, false, not, ◌&&◌, ◌||◌, Option, none, some, List, [], ◌∷◌, arith, is_nil, any,
}

-- Some name of the certificate covers the domain.
unfoldable pub some_covers : Runtime → Text → List CertificateName → Bool
some_covers rt domain names =
    any (λ (n : CertificateName). (dns_name_covers rt n.value domain).0) names

abbrev is_exact : Bool × Option CoverKind → Bool
is_exact answer = answer.0 && elim answer.1 [ some CoverKind.wildcard ↦ false | _ ↦ true ]

-- Some name of the certificate is the domain itself.
unfoldable pub some_exact : Runtime → Text → List CertificateName → Bool
some_exact rt domain names =
    any (λ (n : CertificateName). is_exact (dns_name_covers rt n.value domain)) names

abbrev pub is_given : Option Text → Bool
is_given o = elim o [ none ↦ false | some n ↦ true ]

coverage_from-covers :
    (rt : Runtime) (domain : Text) (best : Option Text) (names : List CertificateName)
    → (coverage_from rt domain best names).covers ≡ (is_given best || some_covers rt domain names)
unfolding coverage_from some_covers any
coverage_from-covers rt domain best [] = ground arith
coverage_from-covers rt domain best (n ∷ names) = ground (
  arith,
  coverage_from-covers rt domain best names,
  coverage_from-covers rt domain (or_name best n.value) names,
)

coverage_from-is_wildcard :
    (rt : Runtime) (domain : Text) (best : Option Text) (names : List CertificateName)
    → (coverage_from rt domain best names).is_wildcard
      ≡ ((coverage_from rt domain best names).covers && not (some_exact rt domain names))
unfolding coverage_from some_exact any
coverage_from-is_wildcard rt domain best [] = ground arith
coverage_from-is_wildcard rt domain best (n ∷ names) = ground (
  arith,
  coverage_from-is_wildcard rt domain best names,
  coverage_from-is_wildcard rt domain (or_name best n.value) names,
)

-- For a domain that is not blank, a certificate covers it exactly when one of its names does by
-- `dns_name_covers`, and the answer is marked as a wildcard exactly when one does and no name of the
-- certificate matches other than by a wildcard.
pub certificate_coverage_lem :
    (rt : Runtime) (names : List CertificateName) (domain : Text)
    → is_nil (normalized rt domain) ≡ false
    → ((certificate_coverage_for_domain rt names domain).covers
        ≡ some_covers rt (normalized rt domain) names)
      × ((certificate_coverage_for_domain rt names domain).is_wildcard ≡ (
          some_covers rt (normalized rt domain) names
          && not (some_exact rt (normalized rt domain) names)))
unfolding certificate_coverage_for_domain
certificate_coverage_lem rt names domain h =
    let covered = coverage_from-covers rt (normalized rt domain) none names in
    let marked = coverage_from-is_wildcard rt (normalized rt domain) none names in
    rw h (covered, ground (arith, covered, marked))
