-- ===== src/Certificates/Find/Preference.antt =====
-- Which certificate `find_certificate_for_domain` prefers, read off the information alone.
use caddybuddy.Certificates.Find.Laws.{
  find_certificate_IsBest, later, here, info_of, From, IsBest, NotBeaten,
}
use caddybuddy.Certificates.Find.{
  find_certificate_for_domain, Rank, normalized, no_match, match_names, candidate, Text, Runtime,
  Candidate, rank_lt, rank_of, ranked,
}
use caddybuddy.Certificates.Defs.{Source, ParsedCertificate, MatchType, CertificateInfo}
use caddybuddy.Certificates.Dates.{Provenance, certificate_info_from_dates}
use caddybuddy.Prelude.{
  ℕ, ◌≤◌, ◌≡◌, refl, sym, ap, ◌∙◌, subst, inl, inr, Bool, true, false, not, Option, none, some,
  List, [], ◌∷◌, arith, Option-cases, is_nil, All,
}

-- Matched by a name of the certificate that is no wildcard.
abbrev pub is_exact : CertificateInfo → Bool
is_exact i = elim i.match_type [
  | none ↦ false
  | some MatchType.san ↦ not i.is_wildcard
  | some MatchType.wildcard ↦ false
]

-- `b` is no worse than `c`: valid if `c` is; of two that agree in this, complete if `c` is; of two
-- that agree in both, exact if `c` is; and of two that agree in all three, `b` expires no earlier.
pub record IsPreferred (b c : CertificateInfo) : Type 0 where
  pub by_validity : c.valid ≡ true → b.valid ≡ true
  pub by_artifact :
      b.valid ≡ c.valid → c.local_artifact_complete ≡ true → b.local_artifact_complete ≡ true
  pub by_name :
      b.valid ≡ c.valid
      → b.local_artifact_complete ≡ c.local_artifact_complete
      → is_exact c ≡ true
      → is_exact b ≡ true
  pub by_expiry :
      b.valid ≡ c.valid
      → b.local_artifact_complete ≡ c.local_artifact_complete
      → is_exact b ≡ is_exact c
      → (eb ec : ℕ) → b.expires_at ≡ some eb
      → c.expires_at ≡ some ec
      → ec ≤ eb

abbrev digit : Bool → ℕ
digit true = 0
digit false = 1

-- The rank says what the information says.
record IsRanked (c : Candidate) : Type 0 where
  invalid : c.0.invalid ≡ digit c.1.valid
  incomplete : c.0.incomplete ≡ digit c.1.local_artifact_complete
  inexact : c.0.inexact ≡ digit (is_exact c.1)
  expires_at : c.1.expires_at ≡ some c.0.expires_at

info_provenance :
    (issued_at : Option ℕ) (e now : ℕ) (p : Provenance) (info : CertificateInfo)
    → certificate_info_from_dates issued_at (some e) now p ≡ some info
    → (info.expires_at ≡ some e)
      × (info.match_type ≡ p.match_type)
      × (info.is_wildcard ≡ p.is_wildcard)
unfolding certificate_info_from_dates
info_provenance issued_at e now p info h = (
  sym (ap (λ o. elim o [ none ↦ none | some i ↦ i.expires_at ]) h),
  sym (ap (λ o. elim o [ none ↦ none | some i ↦ i.match_type ]) h),
  sym (ap (λ o. elim o [ none ↦ false | some i ↦ i.is_wildcard ]) h),
)

rank_of-IsRanked :
    (info : CertificateInfo) (t : MatchType) (w : Bool) (e : ℕ)
    → info.expires_at ≡ some e
    → info.match_type ≡ some t
    → info.is_wildcard ≡ w
    → IsRanked (rank_of info t w e, info)
unfolding rank_of
rank_of-IsRanked info MatchType.san w e at type_ wild = record {
  invalid = ground arith;
  incomplete = ground arith;
  inexact = rw (type_, wild) (ground arith);
  expires_at = at;
}
rank_of-IsRanked info MatchType.wildcard w e at type_ wild = record {
  invalid = ground arith;
  incomplete = ground arith;
  inexact = rw type_ refl;
  expires_at = at;
}

-- The pair that `ranked` makes of an information.
abbrev pair_of : MatchType → Bool → ℕ → Option CertificateInfo → Option Candidate
pair_of t w e none = none
pair_of t w e (some info) = some (rank_of info t w e, info)

pair_of-some :
    (t : MatchType) (w : Bool) (e : ℕ) (o : Option CertificateInfo) (c : Candidate)
    → pair_of t w e o ≡ some c
    → (info : CertificateInfo) × (o ≡ some info) × ((rank_of info t w e, info) ≡ c)
pair_of-some t w e none c h = absurd (ground (arith, h))
pair_of-some t w e (some info) c h =
    (info, refl, ap (λ o. elim o [ none ↦ (rank_of info t w e, info) | some d ↦ d ]) h)

paired-IsRanked :
    (issued_at : Option ℕ) (e now : ℕ) (p : Provenance) (t : MatchType) (c : Candidate)
    → p.match_type ≡ some t
    → pair_of t p.is_wildcard e (certificate_info_from_dates issued_at (some e) now p) ≡ some c
    → IsRanked c
paired-IsRanked issued_at e now p t c typed h =
    let (info, given, same) =
      pair_of-some t p.is_wildcard e (certificate_info_from_dates issued_at (some e) now p) c h in
    let (at, type_, wild) = info_provenance issued_at e now p info given in
    subst IsRanked same (rank_of-IsRanked info t p.is_wildcard e at (type_ ∙ typed) wild)

-- What `ranked` passes on with the dates.
abbrev provenance : ParsedCertificate → ℕ → Text → MatchType → Bool → Provenance
provenance cert now name t w = record {
  status = none;
  source = Source.local;
  match_type = some t;
  is_wildcard = w;
  covering_name = some name;
  checked_at = some now;
  error_message = none;
  diagnostics = [];
  local_artifact_present = true;
  local_artifact_complete = cert.local_artifact_complete;
  artifact_scope_name = cert.artifact_scope_name;
}

ranked-eq :
    (rt : Runtime) (domain : Text) (now : ℕ) (cert : ParsedCertificate) (name : Text)
    (t : MatchType) (w : Bool) (e : ℕ)
    → cert.expires_at ≡ some e
    → (ranked rt domain now cert
          (record { covering_name = some name; match_type = some t; is_wildcard = w })
        ≡ pair_of t w e (
            certificate_info_from_dates cert.issued_at (some e) now (provenance cert now name t w)))
unfolding ranked
ranked-eq rt domain now cert name t w e h = rw h refl

ranked-undated :
    (rt : Runtime) (domain : Text) (now : ℕ) (cert : ParsedCertificate) (name : Text)
    (t : MatchType) (w : Bool)
    → cert.expires_at ≡ none
    → (ranked rt domain now cert
          (record { covering_name = some name; match_type = some t; is_wildcard = w })
        ≡ none)
unfolding ranked certificate_info_from_dates
ranked-undated rt domain now cert name t w h = rw h refl

parts-IsRanked :
    (rt : Runtime) (domain : Text) (now : ℕ) (cert : ParsedCertificate) (name : Option Text)
    (t : Option MatchType) (w : Bool) (c : Candidate)
    → (ranked rt domain now cert (record { covering_name = name; match_type = t; is_wildcard = w })
        ≡ some c)
    → IsRanked c
unfolding ranked
parts-IsRanked rt domain now cert none t w c h = absurd (ground (arith, h))
parts-IsRanked rt domain now cert (some name) none w c h = absurd (ground (arith, h))
parts-IsRanked rt domain now cert (some name) (some t) w c h = elim (Option-cases cert.expires_at) [
  | inl undated ↦
      absurd (ground (arith, sym (ranked-undated rt domain now cert name t w undated) ∙ h))
  | inr (e, dated) ↦
      paired-IsRanked cert.issued_at e now (provenance cert now name t w) t c refl
        (sym (ranked-eq rt domain now cert name t w e dated) ∙ h)
]

candidate-IsRanked :
    (rt : Runtime) (domain : Text) (now : ℕ) (cert : ParsedCertificate) (c : Candidate)
    → candidate rt domain now cert ≡ some c
    → IsRanked c
unfolding candidate
candidate-IsRanked rt domain now cert c h =
    let m = match_names rt domain no_match cert.dns_names in
    parts-IsRanked rt domain now cert m.covering_name m.match_type m.is_wildcard c h

some-eq : (x y : ℕ) → some x ≡ some y → x ≡ y
some-eq x y h = ground (arith, h)

first_part : (b c : Bool) (x y : ℕ) → x ≡ digit b → y ≡ digit c → x ≤ y → c ≡ true → b ≡ true
first_part true c x y hx hy h given = refl
first_part false true x y hx hy h given = absurd (omega (arith, hx, hy, h))
first_part false false x y hx hy h given = given

same_part : (b c : Bool) (x y : ℕ) → x ≡ digit b → y ≡ digit c → b ≡ c → x ≡ y
same_part b c x y hx hy h = hx ∙ ap digit h ∙ sym hy

-- `b` is not beaten by `c`, part by part.
record IsOrdered (b c : Rank) : Type 0 where
  first : b.invalid ≤ c.invalid
  second : b.invalid ≡ c.invalid → b.incomplete ≤ c.incomplete
  third : b.invalid ≡ c.invalid → b.incomplete ≡ c.incomplete → b.inexact ≤ c.inexact
  fourth :
      b.invalid ≡ c.invalid
      → b.incomplete ≡ c.incomplete
      → b.inexact ≡ c.inexact
      → c.expires_at ≤ b.expires_at

rank_lt-IsOrdered : (b c : Rank) → rank_lt c b ≡ false → IsOrdered b c
unfolding rank_lt
rank_lt-IsOrdered b c h = record {
  first = ground (arith, h);
  second = λ i. ground (arith, h, i);
  third = λ i j. ground (arith, h, i, j);
  fourth = λ i j k. ground (arith, h, i, j, k);
}

not_less-IsPreferred :
    (b c : Candidate) → IsRanked b → IsRanked c → rank_lt c.0 b.0 ≡ false → IsPreferred b.1 c.1
not_less-IsPreferred b c hb hc h =
    let o = rank_lt-IsOrdered b.0 c.0 h in
    let valid = same_part b.1.valid c.1.valid b.0.invalid c.0.invalid hb.invalid hc.invalid in
    let complete =
      same_part b.1.local_artifact_complete c.1.local_artifact_complete b.0.incomplete
        c.0.incomplete hb.incomplete hc.incomplete in
    let exact =
      same_part (is_exact b.1) (is_exact c.1) b.0.inexact c.0.inexact hb.inexact hc.inexact in
    record {
      by_validity =
          first_part b.1.valid c.1.valid b.0.invalid c.0.invalid hb.invalid hc.invalid o.first;
      by_artifact = λ v.
          first_part b.1.local_artifact_complete c.1.local_artifact_complete b.0.incomplete
            c.0.incomplete hb.incomplete hc.incomplete (o.second (valid v));
      by_name = λ v a.
          first_part (is_exact b.1) (is_exact c.1) b.0.inexact c.0.inexact hb.inexact hc.inexact
            (o.third (valid v) (complete a));
      by_expiry = λ v a x eb ec at_b at_c.
          let later_or_same = o.fourth (valid v) (complete a) (exact x) in
          let here = some-eq b.0.expires_at eb (sym hb.expires_at ∙ at_b) in
          let there = some-eq c.0.expires_at ec (sym hc.expires_at ∙ at_c) in
          omega (arith, later_or_same, here, there);
    }

-- No candidate is preferred to `b`.
abbrev pub NotBetter : CertificateInfo → Option Candidate → Type 0
NotBetter b none = Unit
NotBetter b (some c) = IsPreferred b c.1

-- The information of a candidate of the certificates that is no worse than any other, or nothing where
-- there is no candidate.
abbrev pub IsChoice : Runtime → Text → ℕ → Option CertificateInfo → List ParsedCertificate → Type 0
IsChoice rt domain now none certs = All (λ cert. candidate rt domain now cert ≡ none) certs
IsChoice rt domain now (some b) certs =
    ((r : Rank) × From rt domain now (r, b) certs)
    × All (λ cert. NotBetter b (candidate rt domain now cert)) certs

From-IsRanked :
    (rt : Runtime) (domain : Text) (now : ℕ) {b : Candidate} {certs : List ParsedCertificate}
    → From rt domain now b certs
    → IsRanked b
From-IsRanked rt domain now (here e) = candidate-IsRanked rt domain now _ _ e
From-IsRanked rt domain now (later f) = From-IsRanked rt domain now f

not_better :
    (rt : Runtime) (domain : Text) (now : ℕ) (b : Candidate) (cert : ParsedCertificate)
    (o : Option Candidate)
    → IsRanked b
    → candidate rt domain now cert ≡ o
    → NotBeaten b o
    → NotBetter b.1 o
not_better rt domain now b cert none hb e h = tt
not_better rt domain now b cert (some c) hb e h =
    not_less-IsPreferred b c hb (candidate-IsRanked rt domain now cert c e) h

All-NotBetter :
    (rt : Runtime) (domain : Text) (now : ℕ) (b : Candidate) (certs : List ParsedCertificate)
    → IsRanked b
    → All (λ cert. NotBeaten b (candidate rt domain now cert)) certs
    → All (λ cert. NotBetter b.1 (candidate rt domain now cert)) certs
All-NotBetter rt domain now b [] hb h = tt
All-NotBetter rt domain now b (cert ∷ certs) hb h = (
  not_better rt domain now b cert (candidate rt domain now cert) hb refl h.0,
  All-NotBetter rt domain now b certs hb h.1,
)

IsBest-IsChoice :
    (rt : Runtime) (domain : Text) (now : ℕ) (o : Option Candidate) (certs : List ParsedCertificate)
    → IsBest rt domain now o certs
    → IsChoice rt domain now (info_of o) certs
IsBest-IsChoice rt domain now none certs h = h
IsBest-IsChoice rt domain now (some b) certs h =
    ((b.0, h.0), All-NotBetter rt domain now b certs (From-IsRanked rt domain now h.0) h.1)

-- For a domain that is not blank, what `find_certificate_for_domain` returns is the information of a
-- candidate of one of the certificates, and no candidate is preferred to it: it is valid if any is;
-- among those that agree with it in this, complete if any is; then matched by an exact name if any
-- is; and then none expires later. Where it returns nothing, no certificate has a candidate.
pub find_certificate-IsChoice :
    (rt : Runtime) (now : ℕ) (certs : List ParsedCertificate) (domain : Text)
    → is_nil (normalized rt domain) ≡ false
    → IsChoice rt (normalized rt domain) now (find_certificate_for_domain rt now certs domain) certs
find_certificate-IsChoice rt now certs domain h =
    let (o, e, best) = find_certificate_IsBest rt now certs domain h in
    subst (λ i. IsChoice rt (normalized rt domain) now i certs) (sym e)
      (IsBest-IsChoice rt (normalized rt domain) now o certs best)
