-- ===== src/Certificates/Find/None.antt =====
-- When no certificate is found.
use caddybuddy.Certificates.Find.Laws.{
  match_names-given, find_certificate_IsBest, match_names-IsPaired, IsBest, info_of, later,
  IsPaired, here, From,
}
use caddybuddy.Certificates.Find.{
  no_match, match_names, find_certificate_for_domain, NameMatch, normalized, Text, Candidate,
  candidate, ranked,
}
use caddybuddy.Certificates.Coverage.Laws.{is_given, some_covers}
use caddybuddy.Certificates.Defs.{ParsedCertificate}
use caddybuddy.Domains.Shape.{Runtime}
use caddybuddy.Prelude.{
  ℕ, ◌≡◌, refl, ◌↔◌, Bool, true, false, ◌&&◌, Option, none, some, List, [], ◌∷◌, arith, is_nil, All,
}

abbrev pub has_expiry : ParsedCertificate → Bool
has_expiry cert = elim cert.expires_at [ none ↦ false | some e ↦ true ]

abbrev competes : Option Candidate → Bool
competes none = false
competes (some c) = true

ranked-competes :
    (rt : Runtime) (domain : Text) (now : ℕ) (cert : ParsedCertificate) (m : NameMatch)
    → IsPaired m
    → competes (ranked rt domain now cert m) ≡ (is_given m.covering_name && has_expiry cert)
unfolding ranked
ranked-competes rt domain now cert m h = ground arith

candidate-competes :
    (rt : Runtime) (domain : Text) (now : ℕ) (cert : ParsedCertificate)
    → competes (candidate rt domain now cert)
      ≡ (some_covers rt domain cert.dns_names && has_expiry cert)
unfolding candidate
candidate-competes rt domain now cert =
    let paired : IsPaired (match_names rt domain no_match cert.dns_names) =
      match_names-IsPaired rt domain no_match cert.dns_names refl in
    rw (ranked-competes rt domain now cert (match_names rt domain no_match cert.dns_names) paired)
      (rw match_names-given refl)

abbrev pub Hopeless : Runtime → Text → ParsedCertificate → Type 0
Hopeless rt domain cert = (some_covers rt domain cert.dns_names && has_expiry cert) ≡ false

none→Hopeless :
    (rt : Runtime) (domain : Text) (now : ℕ) (certs : List ParsedCertificate)
    → All (λ cert. candidate rt domain now cert ≡ none) certs
    → All (Hopeless rt domain) certs
none→Hopeless rt domain now [] h = tt
none→Hopeless rt domain now (cert ∷ certs) h = (
  ground (arith, candidate-competes rt domain now cert, h.0),
  none→Hopeless rt domain now certs h.1,
)

From-not-Hopeless :
    {rt : Runtime} {domain : Text} {now : ℕ} {b : Candidate} {certs : List ParsedCertificate}
    → From rt domain now b certs
    → All (Hopeless rt domain) certs
    → ⊥
From-not-Hopeless {rt} {domain} {now} (here {cert} e) h =
    ground (arith, candidate-competes rt domain now cert, h.0)
From-not-Hopeless (later f) h = From-not-Hopeless f h.1

-- For a domain that is not blank, `find_certificate_for_domain` returns nothing exactly when no
-- certificate in the list both has a name that covers the domain and has an expiry date.
pub find_certificate_none_iff :
    (rt : Runtime) (now : ℕ) (certs : List ParsedCertificate) (domain : Text)
    → is_nil (normalized rt domain) ≡ false
    → (find_certificate_for_domain rt now certs domain ≡ none)
      ↔ All (Hopeless rt (normalized rt domain)) certs
find_certificate_none_iff rt now certs domain h =
    let (o, e, best) = find_certificate_IsBest rt now certs domain h in go o e best
  where
    go :
        (o : Option Candidate)
        → find_certificate_for_domain rt now certs domain ≡ info_of o
        → IsBest rt (normalized rt domain) now o certs
        → (find_certificate_for_domain rt now certs domain ≡ none)
          ↔ All (Hopeless rt (normalized rt domain)) certs
    go none e best = (λ _. none→Hopeless rt (normalized rt domain) now certs best, λ _. e)
    go (some b) e best = (λ f. cc, λ all. absurd (From-not-Hopeless best.0 all))
