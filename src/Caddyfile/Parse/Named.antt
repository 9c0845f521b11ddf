-- ===== src/Caddyfile/Parse/Named.antt =====
-- A domain as the label of a site: it is one, and its own name.
use caddybuddy.Caddyfile.Parse.{
  before_char, after_folded, or_all, text, Runtime, extract_domain, is_host, is_space,
  are_site_names, domains_of_parts, is_letter_or_digit, without_scheme, are_host_labels,
  extract_domain_from_label, is_host_label, is_letter, is_name_tail, is_site_label, is_site_name,
  is_snippet_header,
}
use caddybuddy.Caddyfile.Parse.Plain.{
  before_char-plain, rstrip_by-ascii_space, first_word-plain, split_at-plain, after_folded-plain,
  domain_char-ink, has_char-plain, rstrip_by-comma, after_prefix-plain, foreign-ne, rstrip_by-space,
  IsForeign, IsPlain, no_dot-one_part, strip-plain, is_domain_char,
}
use caddybuddy.Text.Written.{split_at-IsCons, IsCons}
use caddybuddy.Caddyfile.Parse.Site.{IsHeader}
use caddybuddy.Text.{text_eq_iff, Text, is_lower, member, text_eq}
use caddybuddy.Caddyfile.Split.{caddy_directive_keywords}
use caddybuddy.Text.Split.{split_at, push_first}
use caddybuddy.Text.Search.{has_char, starts_with, after_prefix}
use caddybuddy.Domains.Shape.{
  is_alnum, is_inner, is_tail, is_label, is_top, are_labels, matches_domain,
}
use caddybuddy.Text.Lines.{join}
use caddybuddy.Prelude.{
  ℕ, ◌≡◌, refl, sym, ap, ◌∙◌, inl, inr, true, false, not, ◌&&◌, false≢true, none, some, List, [],
  ◌∷◌, arith, ◌==◌, Bool-cases, and-eq-true, all, any,
}

is_tail-inner : (s : Text) → is_tail s ≡ true → all is_inner s ≡ true
unfolding is_tail is_inner all
is_tail-inner [] h = refl
is_tail-inner (c ∷ []) h = ground (arith, h)
is_tail-inner (c ∷ d ∷ s) h = ground (arith, h, is_tail-inner (d ∷ s))

is_label-inner : (s : Text) → is_label s ≡ true → all is_inner s ≡ true
unfolding is_label is_inner all
is_label-inner [] h = refl
is_label-inner (c ∷ []) h = ground (arith, h)
is_label-inner (c ∷ d ∷ s) h = ground (arith, h, is_tail-inner (d ∷ s))

lower-inner : (s : Text) → all is_lower s ≡ true → all is_inner s ≡ true
unfolding all is_inner is_alnum
lower-inner [] h = refl
lower-inner (c ∷ s) h = ground (arith, h, lower-inner s)

is_top-inner : (s : Text) → is_top s ≡ true → all is_inner s ≡ true
unfolding is_top
is_top-inner s h = lower-inner s (ground (arith, h))

are_labels-inner : (ls : List Text) → are_labels ls ≡ true → all (all is_inner) ls ≡ true
unfolding are_labels all
are_labels-inner [] h = refl
are_labels-inner (l ∷ []) h = absurd (ground (arith, h))
are_labels-inner (l ∷ t ∷ []) h = ground (arith, h, is_label-inner l, is_top-inner t)
are_labels-inner (l ∷ m ∷ t ∷ r) h =
    let both = and-eq-true (is_label l) (are_labels (m ∷ t ∷ r)) h in
    let rest = are_labels-inner (m ∷ t ∷ r) both.1 in
    let first = is_label-inner l both.0 in rw (first) rest

-- The parts have only such characters, so the text has these and dots.
pushed :
    (c : ℕ) (ls : List Text)
    → IsCons ls
    → all (all is_inner) (push_first c ls) ≡ (is_inner c && all (all is_inner) ls)
unfolding push_first all
pushed c [] h = elim h [ ]
pushed c (l ∷ ls) h = ground arith

parts-IsPlain : (s : Text) → all (all is_inner) (split_at b'.' s) ≡ true → IsPlain s
unfolding split_at all is_domain_char
parts-IsPlain [] h = refl
parts-IsPlain (c ∷ s) h = elim (Bool-cases (c == b'.')) [
  | inl dot ↦
      let same : split_at b'.' (c ∷ s) ≡ [] ∷ split_at b'.' s = rw (split_at, dot) refl in
      let rest = parts-IsPlain s (ap (all (all is_inner)) (sym same) ∙ h) in
      ground (arith, dot, rest)
  | inr other ↦
      let same : split_at b'.' (c ∷ s) ≡ push_first c (split_at b'.' s) =
        rw (split_at, other) refl in
      let h2 =
        sym (pushed c (split_at b'.' s) (split_at-IsCons b'.' s))
        ∙ ap (all (all is_inner)) (sym same)
        ∙ h in
      let both = and-eq-true (is_inner c) (all (all is_inner) (split_at b'.' s)) h2 in
      let rest = parts-IsPlain s both.1 in ground (arith, both.0, rest)
]

pub matches_domain-IsPlain : (d : Text) → matches_domain d ≡ true → IsPlain d
unfolding matches_domain
matches_domain-IsPlain d h = parts-IsPlain d (are_labels-inner (split_at b'.' d) h)

pub matches_domain-dot : (d : Text) → matches_domain d ≡ true → has_char b'.' d ≡ true
unfolding matches_domain are_labels
matches_domain-dot d h = elim (Bool-cases (has_char b'.' d)) [
  | inl has ↦ has
  | inr lacks ↦ absurd (false≢true (sym (ap are_labels (no_dot-one_part d lacks)) ∙ h))
]

-- What `normalize_domain_name` accepts as a label, the parser does.
is_tail-is_name_tail : (s : Text) → is_tail s ≡ true → is_name_tail s ≡ true
unfolding is_tail is_name_tail is_inner is_alnum is_letter_or_digit is_letter
is_tail-is_name_tail [] h = refl
is_tail-is_name_tail (c ∷ []) h = ground (arith, h)
is_tail-is_name_tail (c ∷ d ∷ s) h = ground (arith, h, is_tail-is_name_tail (d ∷ s))

is_label-is_host_label : (s : Text) → is_label s ≡ true → is_host_label s ≡ true
unfolding is_label is_host_label is_alnum is_letter_or_digit is_letter is_name_tail
is_label-is_host_label [] h = h
is_label-is_host_label (c ∷ []) h = ground (arith, h)
is_label-is_host_label (c ∷ d ∷ s) h = ground (arith, h, is_tail-is_name_tail (d ∷ s))

lower-letter : (s : Text) → all is_lower s ≡ true → all is_letter s ≡ true
unfolding all is_letter
lower-letter [] h = refl
lower-letter (c ∷ s) h = ground (arith, h, lower-letter s)

are_labels-are_host_labels : (ls : List Text) → are_labels ls ≡ true → are_host_labels ls ≡ true
unfolding are_labels are_host_labels is_top
are_labels-are_host_labels [] h = h
are_labels-are_host_labels (l ∷ []) h = h
are_labels-are_host_labels (l ∷ t ∷ []) h =
    ground (arith, h, is_label-is_host_label l, lower-letter t)
are_labels-are_host_labels (l ∷ m ∷ t ∷ r) h =
    let both = and-eq-true (is_label l) (are_labels (m ∷ t ∷ r)) h in
    let first = is_label-is_host_label l both.0 in
    let rest = are_labels-are_host_labels (m ∷ t ∷ r) both.1 in ground (arith, first, rest)

without_scheme-domain : (d : Text) → IsPlain d → without_scheme d ≡ d
unfolding without_scheme is_domain_char has_char any
without_scheme-domain d plain =
    let http = after_folded-plain b':' (text "http://") d refl refl plain in
    let https = after_folded-plain b':' (text "https://") d refl refl plain in rw (http, https) refl

domain-is_site_name : (d : Text) → matches_domain d ≡ true → is_site_name d ≡ true
unfolding is_site_name is_host matches_domain has_char any is_domain_char
domain-is_site_name d h =
    let plain = matches_domain-IsPlain d h in
    let star = after_folded-plain b'*' (text "*.") d refl refl plain in
    ap (λ r. is_host (split_at b':' (or_all r (after_folded (text "*.") r))))
      (without_scheme-domain d plain)
    ∙ ap (λ o. is_host (split_at b':' (or_all d o))) star
    ∙ ap is_host (split_at-plain b':' d refl plain)
    ∙ are_labels-are_host_labels (split_at b'.' d) h

has_self : (x : ℕ) → has_char x (x ∷ []) ≡ true
unfolding has_char any
has_self x = ground arith

not_prefixed :
    (x c : ℕ) (s : Text) → IsForeign x → IsPlain (c ∷ s) → starts_with (x ∷ []) (c ∷ s) ≡ false
unfolding starts_with
not_prefixed x c s hx h =
    ap (λ o. elim o [ none ↦ false | some r ↦ true ])
      (after_prefix-plain x (x ∷ []) (c ∷ s) hx (has_self x) h)

not_keyword :
    (d : Text) (words : List Text)
    → has_char b'.' d ≡ true
    → all (λ w. not (has_char b'.' w)) words ≡ true
    → member d words ≡ false
unfolding member all
not_keyword d [] h k = refl
not_keyword d (w ∷ words) h k =
    let both = and-eq-true (not (has_char b'.' w)) (all (λ w. not (has_char b'.' w)) words) k in
    elim (Bool-cases (text_eq d w)) [
      | inl same ↦
          let dotted = ap (has_char b'.') (sym ((text_eq_iff d w).0 same)) ∙ h in
          absurd (ground (arith, dotted, both.0))
      | inr other ↦ ground (arith, other, not_keyword d words h both.1)
    ]

keywords_plain : all (λ w. not (has_char b'.' w)) caddy_directive_keywords ≡ true
unfolding all has_char any
keywords_plain = refl

pub domain-is_site_label :
    (rt : Runtime) (c : ℕ) (s : Text)
    → matches_domain (c ∷ s) ≡ true
    → rt.lower (c ∷ s) ≡ c ∷ s
    → is_site_label rt (c ∷ s) ≡ true
unfolding is_site_label are_site_names is_domain_char all
domain-is_site_label rt c s h low =
    let d = c ∷ s in
    let plain = matches_domain-IsPlain d h in
    let stripped = strip-plain d plain in
    let no_comma = rstrip_by-comma d plain in
    let word = first_word-plain c s plain in
    let at = not_prefixed b'@' c s refl plain in
    let slash = not_prefixed b'/' c s refl plain in
    let keyword = not_keyword d caddy_directive_keywords (matches_domain-dot d h) keywords_plain in
    let whole = split_at-plain b',' d refl plain in
    let trimmed = rstrip_by-ascii_space d plain in
    let name = domain-is_site_name d h in
    rw (stripped, no_comma, word, low, no_comma, at, slash, keyword, whole, trimmed)
      (ap (λ b. b && true) name)

extract_domain-domain : (d : Text) → IsPlain d → extract_domain d ≡ d
unfolding extract_domain is_domain_char has_char any
extract_domain-domain d plain =
    ap
      (λ part. before_char b':' (elim (after_prefix (text "http://") part) [
        | some r ↦ r
        | none ↦ or_all part (after_prefix (text "https://") part)
      ]))
      (strip-plain d plain)
    ∙ ap
        (λ o.
          before_char b':'
            (elim o [ some r ↦ r | none ↦ or_all d (after_prefix (text "https://") d) ]))
        (after_prefix-plain b':' (text "http://") d refl refl plain)
    ∙ ap (λ o. before_char b':' (or_all d o))
        (after_prefix-plain b':' (text "https://") d refl refl plain)
    ∙ before_char-plain b':' d refl plain

pub extract_domain_from_label-domain :
    (rt : Runtime) (c : ℕ) (s : Text)
    → matches_domain (c ∷ s) ≡ true
    → rt.lower (c ∷ s) ≡ c ∷ s
    → extract_domain_from_label rt (c ∷ s) ≡ c ∷ s
unfolding extract_domain_from_label domains_of_parts join is_domain_char
extract_domain_from_label-domain rt c s h low =
    let plain = matches_domain-IsPlain (c ∷ s) h in
    let whole = split_at-plain b',' (c ∷ s) refl plain in
    let name = extract_domain-domain (c ∷ s) plain in rw (whole, name, low) refl

pub domain-no_snippet :
    (c : ℕ) (s : Text) → matches_domain (c ∷ s) ≡ true → is_snippet_header (c ∷ s) ≡ false
unfolding is_snippet_header is_domain_char
domain-no_snippet c s h =
    let d = c ∷ s in
    let plain = matches_domain-IsPlain d h in
    let stripped = strip-plain d plain in
    let opening = after_prefix-plain b'(' (text "(") d refl (has_self b'(') plain in
    rw (stripped, opening) refl

first-ne : (x c : ℕ) (s : Text) → IsForeign x → IsPlain (c ∷ s) → (x == c) ≡ false
unfolding all
first-ne x c s hx h =
    let both = and-eq-true (is_domain_char c) (all is_domain_char s) h in
    let other = foreign-ne x c hx both.0 in ground (arith, other)

first-ink : (c : ℕ) (s : Text) → IsPlain (c ∷ s) → is_space c ≡ false
unfolding all
first-ink c s h =
    let both = and-eq-true (is_domain_char c) (all is_domain_char s) h in domain_char-ink c both.0

pub domain-IsHeader : (c : ℕ) (s : Text) → matches_domain (c ∷ s) ≡ true → IsHeader c s
unfolding is_domain_char
domain-IsHeader c s h =
    let plain = matches_domain-IsPlain (c ∷ s) h in
    record {
      ink = first-ink c s plain;
      trimmed = rstrip_by-space (c ∷ s) plain;
      no_comment = first-ne b'#' c s refl plain;
      no_opening = has_char-plain b'{' (c ∷ s) refl plain;
      no_closing = has_char-plain b'}' (c ∷ s) refl plain;
    }
