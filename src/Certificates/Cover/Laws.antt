-- ===== src/Certificates/Cover/Laws.antt =====
-- When a certificate name covers a domain, read off the two names.
use caddybuddy.Certificates.Cover.{
  normalized, Runtime, wildcard_suffix, covers_normalized, dns_name_covers, wildcard, remove_suffix,
  contains_dot, is_one_label, covers_below,
}
use caddybuddy.Prelude.{
  ◌≤◌, ◌≡◌, refl, ap, ◌≢◌, ◌↔◌, ◌⊎◌, inl, inr, true, false, ◌&&◌, some, [], ◌∷◌, ◌++◌, arith, ◌==◌,
  Bool-cases, Option-cases, length, length-append,
}
use caddybuddy.Text.{Text, text_eq, text_eq_iff}

-- `domain` is one label, with no dot in it, in front of `suffix`.
abbrev pub IsOneLabelBefore : Text → Text → Type 0
IsOneLabelBefore suffix domain =
    (label : Text) × (domain ≡ label ++ suffix) × (label ≢ []) × (contains_dot label ≡ false)

length-remove_suffix : (suffix r : Text) → length suffix ≤ length (r ++ suffix)
length-remove_suffix suffix r = omega (arith, length-append r suffix)

remove_suffix-append : (suffix r : Text) → remove_suffix suffix (r ++ suffix) ≡ some r
unfolding remove_suffix
remove_suffix-append [] [] = ground (arith, text_eq_iff [] [])
remove_suffix-append (x ∷ s) [] = ground (arith, text_eq_iff (x ∷ s) (x ∷ s))
remove_suffix-append suffix (c ∷ r) = elim (Bool-cases (text_eq (c ∷ (r ++ suffix)) suffix)) [
  | inl same ↦
      absurd (omega (arith, length-remove_suffix suffix r, ap length ((text_eq_iff _ _).0 same)))
  | inr other ↦ rw (other, remove_suffix-append suffix r)
]

pub remove_suffix-eq-some : (suffix d r : Text) → remove_suffix suffix d ≡ some r → d ≡ r ++ suffix
unfolding remove_suffix
remove_suffix-eq-some suffix [] r h = ground (arith, text_eq_iff [] suffix)
remove_suffix-eq-some suffix (c ∷ d) r h = elim (Bool-cases (text_eq (c ∷ d) suffix)) [
  | inl same ↦ ground (arith, text_eq_iff (c ∷ d) suffix)
  | inr other ↦ elim (Option-cases (remove_suffix suffix d)) [
    | inl failed ↦ ground arith
    | inr (q, found) ↦ ground (arith, remove_suffix-eq-some suffix d q found)
  ]
]

covers_below-eq :
    (suffix d : Text) → (covers_below (some suffix) d).0 ≡ true → IsOneLabelBefore suffix d
unfolding covers_below is_one_label
covers_below-eq suffix d h = elim (Option-cases (remove_suffix suffix d)) [
  | inl failed ↦ ground (arith, failed)
  | inr (r, found) ↦
      (r, remove_suffix-eq-some suffix d r found, ground (arith, found), ground (arith, found))
]

covers_below-IsOneLabelBefore :
    (suffix d : Text)
    → IsOneLabelBefore suffix d
    → covers_below (some suffix) d ≡ (true, some wildcard)
unfolding covers_below is_one_label
covers_below-IsOneLabelBefore suffix d (label, split, nonempty, no_dot) =
    rw (split, remove_suffix-append suffix label) (ground arith)

-- What `cert_name` and `domain`, both normalized, must look like.
abbrev pub Covers : Text → Text → Type 0
Covers cert_name domain =
    (domain ≢ [])
    × ((cert_name ≡ domain)
        ⊎ ((base : Text) × (cert_name ≡ b'*' ∷ b'.' ∷ base)
            × IsOneLabelBefore (b'.' ∷ base) domain))

covers_normalized-Covers : (n d : Text) → (covers_normalized n d).0 ≡ true → Covers n d
unfolding covers_normalized wildcard_suffix covers_below
covers_normalized-Covers [] d h = ground arith
covers_normalized-Covers (a ∷ n) [] h = ground arith
covers_normalized-Covers (a ∷ []) (c ∷ d) h =
    (ground arith, inl (ground (arith, text_eq_iff (a ∷ []) (c ∷ d))))
covers_normalized-Covers (a ∷ b ∷ n) (c ∷ d) h = elim (Bool-cases (text_eq (a ∷ b ∷ n) (c ∷ d))) [
  | inl same ↦ (ground arith, inl ((text_eq_iff _ _).0 same))
  | inr other ↦
      let star : (a == b'*' && b == b'.') ≡ true = ground arith in
      (ground arith, inr (n, ground arith, covers_below-eq (b'.' ∷ n) (c ∷ d) (ground arith)))
]

Covers-covers_normalized : (n d : Text) → Covers n d → (covers_normalized n d).0 ≡ true
unfolding covers_normalized wildcard_suffix
Covers-covers_normalized n [] (nonempty, c) = absurd (nonempty refl)
Covers-covers_normalized n (c ∷ d) (nonempty, inl same) =
    rw same (ground (arith, text_eq_iff (c ∷ d) (c ∷ d)))
Covers-covers_normalized n (c ∷ d) (nonempty, inr (base, star, label)) =
    rw star (ground (arith, covers_below-IsOneLabelBefore (b'.' ∷ base) (c ∷ d) label))

-- For every pair of texts, `dns_name_covers` answers true exactly when, after lower-casing and
-- stripping both, the domain is not empty and is either equal to the certificate name, or the
-- certificate name is `*.` and a base, and the domain is one nonempty label with no dot in it,
-- followed by `.` and that base.
pub dns_name_covers_iff :
    (rt : Runtime) (cert_name domain : Text)
    → ((dns_name_covers rt cert_name domain).0 ≡ true)
      ↔ Covers (normalized rt cert_name) (normalized rt domain)
unfolding dns_name_covers
dns_name_covers_iff rt cert_name domain =
    (covers_normalized-Covers _ _, Covers-covers_normalized _ _)
