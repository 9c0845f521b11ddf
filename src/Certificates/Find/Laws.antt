-- ===== src/Certificates/Find/Laws.antt =====
-- The certificate that is found is the best of those that cover the domain.
use caddybuddy.Certificates.Find.Order.{rank_lt_asymm, rank_le_trans, rank_lt_irrefl}
use caddybuddy.Certificates.Find.{
  CertificateName, better, keep_wildcard, normalized, CertificateInfo, NameMatch, best_from,
  find_certificate_for_domain, match_names, candidate, ParsedCertificate, Text, rank_lt, Candidate,
}
use caddybuddy.Certificates.Coverage.Laws.{is_given, some_covers}
use caddybuddy.Domains.Shape.{Runtime}
use caddybuddy.Prelude.{
  ℕ, ◌≡◌, refl, ◌⊎◌, inl, inr, true, false, ◌||◌, Option, none, some, List, [], ◌∷◌, arith,
  Bool-cases, Option-cases, is_nil, All, any,
}

-- `b` is among the candidates of the certificates.
pub data From (rt : Runtime) (domain : Text) (now : ℕ) (b : Candidate)
    : List ParsedCertificate → Type 0 where
  here :
      {cert : ParsedCertificate} {certs : List ParsedCertificate}
      → candidate rt domain now cert ≡ some b
      → From rt domain now b (cert ∷ certs)
  later :
      {cert : ParsedCertificate} {certs : List ParsedCertificate}
      → From rt domain now b certs
      → From rt domain now b (cert ∷ certs)

-- No candidate is smaller than `b`.
abbrev pub NotBeaten : Candidate → Option Candidate → Type 0
NotBeaten b none = Unit
NotBeaten b (some c) = rank_lt c.0 b.0 ≡ false

abbrev pub IsBest : Runtime → Text → ℕ → Option Candidate → List ParsedCertificate → Type 0
IsBest rt domain now none certs = All (λ cert. candidate rt domain now cert ≡ none) certs
IsBest rt domain now (some b) certs =
    From rt domain now b certs × All (λ cert. NotBeaten b (candidate rt domain now cert)) certs

module _ (rt : Runtime) (domain : Text) (now : ℕ) where
  -- What the loop returns from a best match `b`.
  record Improves (b : Candidate) (certs : List ParsedCertificate) : Type 0 where
    best : Candidate
    found : best_from rt domain now (some b) certs ≡ some best
    origin : (best ≡ b) ⊎ From rt domain now best certs
    not_worse : rank_lt b.0 best.0 ≡ false
    not_beaten : All (λ cert. NotBeaten best (candidate rt domain now cert)) certs

later_origin :
    (rt : Runtime) (domain : Text) (now : ℕ) {b best : Candidate} {cert : ParsedCertificate}
    {certs : List ParsedCertificate}
    → (best ≡ b) ⊎ From rt domain now best certs
    → (best ≡ b) ⊎ From rt domain now best (cert ∷ certs)
later_origin rt domain now (inl same) = inl same
later_origin rt domain now (inr f) = inr (later f)

new_origin :
    (rt : Runtime) (domain : Text) (now : ℕ) {d best : Candidate} {cert : ParsedCertificate}
    {certs : List ParsedCertificate}
    → candidate rt domain now cert ≡ some d
    → (best ≡ d) ⊎ From rt domain now best certs
    → From rt domain now best (cert ∷ certs)
new_origin rt domain now e (inl same) = here (rw same e)
new_origin rt domain now e (inr f) = later f

best_from-Improves :
    (rt : Runtime) (domain : Text) (now : ℕ) (b : Candidate) (certs : List ParsedCertificate)
    → Improves rt domain now b certs
unfolding best_from better
best_from-Improves rt domain now b [] = record {
  best = b;
  found = refl;
  origin = inl refl;
  not_worse = rank_lt_irrefl b.0;
  not_beaten = tt;
}
best_from-Improves rt domain now b (cert ∷ certs) =
    elim (Option-cases (candidate rt domain now cert)) [
      | inl absent ↦
          let r = best_from-Improves rt domain now b certs in
          record {
            best = r.best;
            found = rw absent r.found;
            origin = later_origin rt domain now r.origin;
            not_worse = r.not_worse;
            not_beaten = (rw absent tt, r.not_beaten);
          }
      | inr (d, given) ↦ elim (Bool-cases (rank_lt d.0 b.0)) [
        | inl smaller ↦
            let r = best_from-Improves rt domain now d certs in
            record {
              best = r.best;
              found = rw (given, smaller) r.found;
              origin = inr (new_origin rt domain now given r.origin);
              not_worse =
                  rank_le_trans r.best.0 d.0 b.0 r.not_worse (rank_lt_asymm d.0 b.0 smaller);
              not_beaten = (rw given r.not_worse, r.not_beaten);
            }
        | inr other ↦
            let r = best_from-Improves rt domain now b certs in
            record {
              best = r.best;
              found = rw (given, other) r.found;
              origin = later_origin rt domain now r.origin;
              not_worse = r.not_worse;
              not_beaten =
                  (rw given (rank_le_trans r.best.0 b.0 d.0 r.not_worse other), r.not_beaten);
            }
      ]
    ]

IsBest-skip :
    (rt : Runtime) (domain : Text) (now : ℕ) (o : Option Candidate) (cert : ParsedCertificate)
    (certs : List ParsedCertificate)
    → candidate rt domain now cert ≡ none
    → IsBest rt domain now o certs
    → IsBest rt domain now o (cert ∷ certs)
IsBest-skip rt domain now none cert certs absent h = (absent, h)
IsBest-skip rt domain now (some b) cert certs absent h = (later h.0, (rw absent tt, h.1))

best_from-IsBest :
    (rt : Runtime) (domain : Text) (now : ℕ) (certs : List ParsedCertificate)
    → (o : Option Candidate) × (best_from rt domain now none certs ≡ o)
      × IsBest rt domain now o certs
unfolding best_from better
best_from-IsBest rt domain now [] = (none, refl, tt)
best_from-IsBest rt domain now (cert ∷ certs) = elim (Option-cases (candidate rt domain now cert)) [
  | inl absent ↦
      let (o, e, h) = best_from-IsBest rt domain now certs in
      (o, rw absent e, IsBest-skip rt domain now o cert certs absent h)
  | inr (d, given) ↦
      let r = best_from-Improves rt domain now d certs in
      (
        some r.best,
        rw given r.found,
        (new_origin rt domain now given r.origin, (rw given r.not_worse, r.not_beaten)),
      )
]

abbrev pub info_of : Option Candidate → Option CertificateInfo
info_of none = none
info_of (some c) = some c.1

-- For a domain that is not blank, what `find_certificate_for_domain` returns is the information of
-- a candidate of one of the certificates whose rank no other candidate's is below; and where it
-- returns nothing, no certificate has a candidate.
pub find_certificate_IsBest :
    (rt : Runtime) (now : ℕ) (certs : List ParsedCertificate) (domain : Text)
    → is_nil (normalized rt domain) ≡ false
    → (o : Option Candidate) × (find_certificate_for_domain rt now certs domain ≡ info_of o)
      × IsBest rt (normalized rt domain) now o certs
unfolding find_certificate_for_domain
find_certificate_IsBest rt now certs domain h =
    let (o, e, best) = best_from-IsBest rt (normalized rt domain) now certs in
    (o, rw (h, e) (ground arith), best)

pub match_names-given :
    (rt : Runtime) (domain : Text) (m : NameMatch) (names : List CertificateName)
    → (is_given (match_names rt domain m names).covering_name
        ≡ (is_given m.covering_name || some_covers rt domain names))
unfolding match_names some_covers any keep_wildcard
match_names-given rt domain m [] = ground arith
match_names-given rt domain m (n ∷ names) = ground (
  arith,
  match_names-given rt domain m names,
  match_names-given rt domain (keep_wildcard n.value m) names,
)

-- Both parts of a match are set together.
abbrev pub IsPaired : NameMatch → Type 0
IsPaired m = is_given m.covering_name ≡ elim m.match_type [ none ↦ false | some t ↦ true ]

pub match_names-IsPaired :
    (rt : Runtime) (domain : Text) (m : NameMatch) (names : List CertificateName)
    → IsPaired m
    → IsPaired (match_names rt domain m names)
unfolding match_names keep_wildcard
match_names-IsPaired rt domain m [] h = h
match_names-IsPaired rt domain m (n ∷ names) h = ground (
  arith,
  match_names-IsPaired rt domain m names,
  match_names-IsPaired rt domain (keep_wildcard n.value m) names,
)
