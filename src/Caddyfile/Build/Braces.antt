-- ===== src/Caddyfile/Build/Braces.antt =====
-- The braces of normal forms, joined texts and blocks.
use caddybuddy.Text.Search.{starts_with, strip, rstrip, split_words, remove_prefix, after_prefix}
use caddybuddy.Caddyfile.Lexical.Balanced.{
  balanced_from-plain, has_roughly_balanced_braces_iff, Balanced-skips,
}
use caddybuddy.Text.{Text, text, is_space}
use caddybuddy.Text.Kept.{
  keep, keep_all, keep-append, keep_all-map, keep-strip, keep-rstrip, keep-join,
  keep_all-splitlines,
}
use caddybuddy.Text.Split.{words, split_where, drop_empty, push_first}
use caddybuddy.Text.Lines.{splitlines, join}
use caddybuddy.Caddyfile.Lexical.{
  balanced_from, has_roughly_balanced_braces, normalize_block_body, normalize_inline_directive_args,
  normalize_caddy_token, is_token_forbidden,
}
use mathlib.Core.List.{append_assoc}
use caddybuddy.Prelude.{
  ℕ, zero, suc, ◌≡◌, refl, sym, ap, ◌∙◌, inl, inr, Bool, true, false, ◌||◌, Option, none, some,
  List, [], ◌∷◌, ◌++◌, map, arith, ◌==◌, if◌then◌else◌, ==_iff, Bool-cases, Option-cases, is_nil,
  All, any,
}

unfoldable pub is_brace : ℕ → Bool
is_brace c = c == b'{' || c == b'}'

pub is_brace-space : (c : ℕ) → is_space c ≡ true → is_brace c ≡ false
unfolding is_brace is_space
is_brace-space c h = ground arith

abbrev pub braces : Text → Text
braces = keep is_brace

-- A text as far as it is balanced
abbrev pub IsBalanced : Text → Type 0
IsBalanced s = has_roughly_balanced_braces s ≡ true

pub IsBalanced-skips :
    (s : Text) → IsBalanced s → (d : ℕ) (t : Text) → balanced_from d (s ++ t) ≡ balanced_from d t
IsBalanced-skips s h = Balanced-skips ((has_roughly_balanced_braces_iff s).0 h)

balanced_from-cons :
    (d c : ℕ) (s t : Text)
    → ((k : ℕ) → balanced_from k s ≡ balanced_from k t)
    → balanced_from d (c ∷ s) ≡ balanced_from d (c ∷ t)
unfolding balanced_from
balanced_from-cons zero c s t h = ground (arith, h 0, h 1)
balanced_from-cons (suc d) c s t h = ground (arith, h d, h (suc (suc d)), h (suc d))

keep_brace : (c : ℕ) (s : Text) → is_brace c ≡ true → braces (c ∷ s) ≡ c ∷ braces s
unfolding keep
keep_brace c s h = rw h refl

drop_brace : (c : ℕ) (s : Text) → is_brace c ≡ false → braces (c ∷ s) ≡ braces s
unfolding keep
drop_brace c s h = rw h refl

not_brace : (c : ℕ) → is_brace c ≡ false → ((c == b'{') ≡ false) × ((c == b'}') ≡ false)
unfolding is_brace
not_brace c h = ground arith

balanced_from-braces : (s : Text) (d : ℕ) → balanced_from d (braces s) ≡ balanced_from d s
unfolding balanced_from keep
balanced_from-braces [] d = refl
balanced_from-braces (c ∷ s) d = elim (Bool-cases (is_brace c)) [
  | inl brace ↦
      ap (balanced_from d) (keep_brace c s brace)
      ∙ balanced_from-cons d c (braces s) s (balanced_from-braces s)
  | inr other ↦
      let both = not_brace c other in
      ap (balanced_from d) (drop_brace c s other)
      ∙ balanced_from-braces s d
      ∙ sym (balanced_from-plain d c s both.0 both.1)
]

-- Two texts with the same braces are balanced alike.
pub IsBalanced-same : (s t : Text) → braces s ≡ braces t → IsBalanced s → IsBalanced t
unfolding has_roughly_balanced_braces
IsBalanced-same s t same h =
    sym (balanced_from-braces t 0) ∙ ap (balanced_from 0) (sym same) ∙ balanced_from-braces s 0 ∙ h

pub IsBalanced-braceless : (s : Text) → braces s ≡ [] → IsBalanced s
unfolding has_roughly_balanced_braces balanced_from keep
IsBalanced-braceless s h = IsBalanced-same [] s (sym h) refl

pub IsBalanced-append : (s t : Text) → IsBalanced s → IsBalanced t → IsBalanced (s ++ t)
unfolding has_roughly_balanced_braces
IsBalanced-append s t hs ht = IsBalanced-skips s hs 0 t ∙ ht

pub braces-normalize_block_body : (s : Text) → braces (normalize_block_body s) ≡ braces s
unfolding normalize_block_body
braces-normalize_block_body s =
    keep-strip is_brace is_brace-space _
    ∙ keep-join is_brace is_brace-space (map rstrip (splitlines (strip s)))
    ∙ keep_all-map is_brace is_brace-space rstrip (keep-rstrip is_brace is_brace-space)
        (splitlines (strip s))
    ∙ keep_all-splitlines is_brace is_brace-space (strip s)
    ∙ keep-strip is_brace is_brace-space s

-- Joined by a separator without braces.
pub IsBalanced-join :
    (sep : Text)
    → IsBalanced sep
    → (parts : List Text) → All IsBalanced parts
    → IsBalanced (join sep parts)
unfolding join has_roughly_balanced_braces balanced_from
IsBalanced-join sep hs [] h = refl
IsBalanced-join sep hs (s ∷ []) h = h.0
IsBalanced-join sep hs (s ∷ t ∷ r) h =
    IsBalanced-append s (sep ++ join sep (t ∷ r)) h.0
      (IsBalanced-append sep (join sep (t ∷ r)) hs (IsBalanced-join sep hs (t ∷ r) h.1))

abbrev braces_in : List Text → Text
braces_in = keep_all is_brace

braces_in-push_first :
    (c : ℕ) (parts : List Text)
    → braces_in (push_first c parts) ≡ braces (c ∷ []) ++ braces_in parts
unfolding push_first keep_all keep
braces_in-push_first c [] = refl
braces_in-push_first c (s ∷ r) =
    ap (λ t. t ++ braces_in r) (keep-append is_brace (c ∷ []) s)
    ∙ append_assoc (braces (c ∷ [])) (braces s) (braces_in r)

split_where-ink :
    (c : ℕ) (s : Text)
    → is_space c ≡ false
    → split_where is_space (c ∷ s) ≡ push_first c (split_where is_space s)
unfolding split_where
split_where-ink c s h = rw h refl

braces_in-split_where : (s : Text) → braces_in (split_where is_space s) ≡ braces s
unfolding split_where keep_all keep
braces_in-split_where [] = refl
braces_in-split_where (c ∷ s) = elim (Bool-cases (is_space c)) [
  | inl space ↦ rw (space, is_brace-space c space) (braces_in-split_where s)
  | inr ink ↦
      ap braces_in (split_where-ink c s ink)
      ∙ braces_in-push_first c (split_where is_space s)
      ∙ ap (λ t. braces (c ∷ []) ++ t) (braces_in-split_where s)
      ∙ sym (keep-append is_brace (c ∷ []) s)
]

braces_in-drop_empty : (parts : List Text) → braces_in (drop_empty parts) ≡ braces_in parts
unfolding drop_empty keep_all keep
braces_in-drop_empty [] = refl
braces_in-drop_empty ([] ∷ r) = braces_in-drop_empty r
braces_in-drop_empty ((c ∷ s) ∷ r) = ap (λ t. braces (c ∷ s) ++ t) (braces_in-drop_empty r)

braces_in-split_words : (s : Text) → braces_in (split_words s) ≡ braces s
unfolding split_words words
braces_in-split_words s = braces_in-drop_empty (split_where is_space s) ∙ braces_in-split_where s

pub append-eq-nil {ℓ} : {A : Type ℓ} (a b : List A) → a ++ b ≡ [] → (a ≡ []) × (b ≡ [])
append-eq-nil [] b h = (refl, h)
append-eq-nil (x ∷ a) b h = ground arith

All-braceless : (parts : List Text) → braces_in parts ≡ [] → All IsBalanced parts
unfolding keep_all
All-braceless [] h = tt
All-braceless (s ∷ r) h =
    let both = append-eq-nil (braces s) (braces_in r) h in
    (IsBalanced-braceless s both.0, All-braceless r both.1)

after_prefix-append : (prefix s r : Text) → after_prefix prefix s ≡ some r → s ≡ prefix ++ r
unfolding after_prefix
after_prefix-append [] s r h = ground arith
after_prefix-append (p ∷ ps) [] r h = ground arith
after_prefix-append (p ∷ ps) (c ∷ s) r h = elim (Bool-cases (p == c)) [
  | inl same ↦
      ap (λ x. x ∷ s) (sym ((==_iff p c).0 same))
      ∙ ap (λ t. p ∷ t) (after_prefix-append ps s r (ground (arith, same, h)))
  | inr other ↦ ground (arith, other, h)
]

remove_prefix-braceless : (prefix s : Text) → braces s ≡ [] → braces (remove_prefix prefix s) ≡ []
unfolding remove_prefix
remove_prefix-braceless prefix s h = elim (Option-cases (after_prefix prefix s)) [
  | inl kept ↦ rw (remove_prefix, kept) h
  | inr (r, cut) ↦
      rw (remove_prefix, cut)
        (append-eq-nil (braces prefix) (braces r) (
          sym (keep-append is_brace prefix r)
          ∙ ap braces (sym (after_prefix-append prefix s r cut))
          ∙ h)).1
]

braceless-if :
    (b : Bool) (x y : Text) → braces x ≡ [] → braces y ≡ [] → braces (if b then x else y) ≡ []
braceless-if true x y hx hy = hx
braceless-if false x y hx hy = hy

space-IsBalanced : IsBalanced (text " ")
unfolding has_roughly_balanced_braces balanced_from
space-IsBalanced = refl

-- Inline arguments of a text without braces.
pub normalize_inline-IsBalanced :
    (s name : Text) → braces s ≡ [] → IsBalanced (normalize_inline_directive_args s name)
unfolding normalize_inline_directive_args
normalize_inline-IsBalanced s name h =
    let stripped : braces (strip s) ≡ [] = keep-strip is_brace is_brace-space s ∙ h in
    let cut = remove_prefix (name ++ text " ") (strip s) in
    let args = if starts_with (name ++ text " ") (strip s) then strip cut else strip s in
    IsBalanced-join (text " ") space-IsBalanced (split_words args) (
      All-braceless (split_words args) (
        braces_in-split_words args
        ∙ braceless-if (starts_with (name ++ text " ") (strip s)) (strip cut) (strip s)
            (keep-strip is_brace is_brace-space cut
              ∙ remove_prefix-braceless (name ++ text " ") (strip s) stripped)
            stripped))

any_forbidden-braceless : (s : Text) → any is_token_forbidden s ≡ false → braces s ≡ []
unfolding any keep is_token_forbidden is_brace
any_forbidden-braceless [] h = refl
any_forbidden-braceless (c ∷ s) h = ground (arith, h, any_forbidden-braceless s)

-- A token has no braces.
pub token-braceless :
    (o : Option Text) (t : Text) → normalize_caddy_token o ≡ some t → braces t ≡ []
unfolding normalize_caddy_token keep
token-braceless none t h = let same : [] ≡ t = ground (arith, h) in ap braces (sym same)
token-braceless (some value) t h = elim (Bool-cases (is_nil (strip value))) [
  | inl blank ↦ let same : [] ≡ t = ground (arith, blank, h) in ap braces (sym same)
  | inr given ↦ elim (Bool-cases (any is_token_forbidden (strip value))) [
    | inl bad ↦ ground (arith, given, bad, h)
    | inr good ↦
        let same : strip value ≡ t = ground (arith, given, good, h) in
        ap braces (sym same) ∙ any_forbidden-braceless (strip value) good
  ]
]
