-- ===== src/Caddyfile/Parse/Plain.antt =====
-- The characters of a domain, and how the functions on texts pass over a text that has only these.
use caddybuddy.Caddyfile.Parse.{is_comma, after_folded, fold}
use caddybuddy.Text.Split.{drop_empty, words, push_first, split_at, split_where}
use caddybuddy.Domains.Shape.{is_alnum, is_inner}
use caddybuddy.Text.Search.{split_words, after_prefix, before_char, first_word, has_char, strip}
use caddybuddy.Text.{Text}
use caddybuddy.Text.Lines.{is_line_end}
use caddybuddy.Text.{is_lower, is_digit, is_upper, is_space, is_ascii_space}
use caddybuddy.Text.Strip.{strip_by, rstrip_by, lstrip_by}
use caddybuddy.Prelude.{
  ℕ, ◌≤◌, ◌≡◌, refl, sym, ap, ◌∙◌, ◌⊎◌, inl, inr, Bool, true, false, ◌||◌, false≢true, none, some,
  [], ◌∷◌, arith, ◌==◌, ==_iff, Bool-cases, and-eq-true, all, any,
}

-- `[a-z0-9.-]`
unfoldable pub is_domain_char : ℕ → Bool
unfolding is_inner
is_domain_char c = is_inner c || c == b'.'

abbrev pub IsPlain : Text → Type 0
IsPlain s = all is_domain_char s ≡ true

pub any-plain :
    (q : ℕ → Bool)
    → ((c : ℕ) → is_domain_char c ≡ true → q c ≡ false)
    → (s : Text) → IsPlain s
    → any q s ≡ false
unfolding any all
any-plain q h [] k = refl
any-plain q h (c ∷ s) k =
    let both = and-eq-true (is_domain_char c) (all is_domain_char s) k in
    ground (arith, h c both.0, any-plain q h s both.1)

pub domain_char-ranges :
    (c : ℕ)
    → is_domain_char c ≡ true
    → ((97 ≤ c) × (c ≤ 122)) ⊎ (((48 ≤ c) × (c ≤ 57)) ⊎ ((c ≡ 45) ⊎ (c ≡ 46)))
unfolding is_domain_char is_inner is_alnum is_lower is_digit
domain_char-ranges c h = ground arith

pub domain_char-ink : (c : ℕ) → is_domain_char c ≡ true → is_space c ≡ false
unfolding is_space
domain_char-ink c h = elim (domain_char-ranges c h) [
  | inl r ↦ ground arith
  | inr (inl r) ↦ ground arith
  | inr (inr r) ↦ ground arith
]

domain_char-ascii_ink : (c : ℕ) → is_domain_char c ≡ true → is_ascii_space c ≡ false
unfolding is_ascii_space
domain_char-ascii_ink c h = ground (arith, domain_char-ranges c h)

domain_char-no_end : (c : ℕ) → is_domain_char c ≡ true → is_line_end c ≡ false
unfolding is_line_end
domain_char-no_end c h = ground (arith, domain_char-ranges c h)

-- A character of a pattern that no domain has.
abbrev pub IsForeign : ℕ → Type 0
IsForeign x = is_domain_char x ≡ false

pub foreign-ne : (x c : ℕ) → IsForeign x → is_domain_char c ≡ true → (c == x) ≡ false
foreign-ne x c hx hc = elim (Bool-cases (c == x)) [
  | inr other ↦ other
  | inl same ↦ absurd (false≢true (sym hx ∙ ap is_domain_char (sym ((==_iff c x).0 same)) ∙ hc))
]

pub has_char-plain : (x : ℕ) (s : Text) → IsForeign x → IsPlain s → has_char x s ≡ false
unfolding has_char
has_char-plain x s hx h = any-plain (λ d. d == x) (λ c hc. foreign-ne x c hx hc) s h

rstrip_by-none : (q : ℕ → Bool) (s : Text) → any q s ≡ false → rstrip_by q s ≡ s
unfolding rstrip_by any
rstrip_by-none q [] h = refl
rstrip_by-none q (c ∷ s) h =
    let rest = rstrip_by-none q s (ground (arith, h)) in
    let ink : q c ≡ false = ground (arith, h) in rw (rstrip_by, ink) (ap (λ r. c ∷ r) rest)

lstrip_by-none : (q : ℕ → Bool) (s : Text) → any q s ≡ false → lstrip_by q s ≡ s
unfolding lstrip_by any
lstrip_by-none q [] h = refl
lstrip_by-none q (c ∷ s) h = let ink : q c ≡ false = ground (arith, h) in rw (lstrip_by, ink) refl

pub rstrip_by-space : (s : Text) → IsPlain s → rstrip_by is_space s ≡ s
rstrip_by-space s h = rstrip_by-none is_space s (any-plain is_space domain_char-ink s h)

pub rstrip_by-ascii_space : (s : Text) → IsPlain s → rstrip_by is_ascii_space s ≡ s
rstrip_by-ascii_space s h =
    rstrip_by-none is_ascii_space s (any-plain is_ascii_space domain_char-ascii_ink s h)

pub rstrip_by-comma : (s : Text) → IsPlain s → rstrip_by is_comma s ≡ s
unfolding is_domain_char
rstrip_by-comma s h =
    rstrip_by-none is_comma s (any-plain is_comma (λ c hc. foreign-ne b',' c refl hc) s h)

pub strip-plain : (s : Text) → IsPlain s → strip s ≡ s
unfolding strip strip_by
strip-plain s h =
    ap (lstrip_by is_space) (rstrip_by-space s h)
    ∙ lstrip_by-none is_space s (any-plain is_space domain_char-ink s h)

pub line_end-plain : (s : Text) → IsPlain s → any is_line_end s ≡ false
line_end-plain s h = any-plain is_line_end domain_char-no_end s h

split_at-none : (x : ℕ) (s : Text) → has_char x s ≡ false → split_at x s ≡ s ∷ []
unfolding split_at has_char any push_first
split_at-none x [] h = refl
split_at-none x (c ∷ s) h =
    let rest = split_at-none x s (ground (arith, h)) in
    let other : (c == x) ≡ false = ground (arith, h) in
    rw (split_at, other) (ap (push_first c) rest)

pub split_at-plain : (x : ℕ) (s : Text) → IsForeign x → IsPlain s → split_at x s ≡ s ∷ []
split_at-plain x s hx h = split_at-none x s (has_char-plain x s hx h)

pub no_dot-one_part : (s : Text) → has_char b'.' s ≡ false → split_at b'.' s ≡ s ∷ []
no_dot-one_part s h = split_at-none b'.' s h

split_where-none : (q : ℕ → Bool) (s : Text) → any q s ≡ false → split_where q s ≡ s ∷ []
unfolding split_where any push_first
split_where-none q [] h = refl
split_where-none q (c ∷ s) h =
    let rest = split_where-none q s (ground (arith, h)) in
    let other : q c ≡ false = ground (arith, h) in rw (split_where, other) (ap (push_first c) rest)

pub first_word-plain : (c : ℕ) (s : Text) → IsPlain (c ∷ s) → first_word (c ∷ s) ≡ some (c ∷ s)
unfolding first_word split_words words drop_empty
first_word-plain c s h =
    ap (λ ws. elim (drop_empty ws) [ [] ↦ none | (w ∷ ws) ↦ some w ])
      (split_where-none is_space (c ∷ s) (any-plain is_space domain_char-ink (c ∷ s) h))

before_char-none : (x : ℕ) (s : Text) → has_char x s ≡ false → before_char x s ≡ s
unfolding before_char has_char any
before_char-none x [] h = refl
before_char-none x (c ∷ s) h = ground (arith, h, before_char-none x s)

pub before_char-plain : (x : ℕ) (s : Text) → IsForeign x → IsPlain s → before_char x s ≡ s
before_char-plain x s hx h = before_char-none x s (has_char-plain x s hx h)

-- A literal with a colon or an asterisk is in front of no such text.
pub after_prefix-plain :
    (x : ℕ) (ps s : Text)
    → IsForeign x
    → has_char x ps ≡ true
    → IsPlain s
    → after_prefix ps s ≡ none
unfolding after_prefix has_char any all
after_prefix-plain x [] s hx hp h = absurd (ground (arith, hp))
after_prefix-plain x (p ∷ ps) [] hx hp h = refl
after_prefix-plain x (p ∷ ps) (c ∷ s) hx hp h =
    let both = and-eq-true (is_domain_char c) (all is_domain_char s) h in
    let other = foreign-ne x c hx both.0 in ground (arith, hp, other, after_prefix-plain x ps s hx)

fold-plain : (c : ℕ) → is_domain_char c ≡ true → fold c ≡ c
unfolding fold is_upper
fold-plain c h = ground (arith, domain_char-ranges c h)

pub after_folded-plain :
    (x : ℕ) (ps s : Text)
    → IsForeign x
    → has_char x ps ≡ true
    → IsPlain s
    → after_folded ps s ≡ none
unfolding after_folded has_char any all
after_folded-plain x [] s hx hp h = absurd (ground (arith, hp))
after_folded-plain x (p ∷ ps) [] hx hp h = refl
after_folded-plain x (p ∷ ps) (c ∷ s) hx hp h =
    let both = and-eq-true (is_domain_char c) (all is_domain_char s) h in
    let other = foreign-ne x c hx both.0 in
    let same = fold-plain c both.0 in
    ground (arith, hp, other, same, after_folded-plain x ps s hx, both.1)
