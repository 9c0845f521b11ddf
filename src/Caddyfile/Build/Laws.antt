-- ===== src/Caddyfile/Build/Laws.antt =====
-- Directives that were built without an error have balanced braces.
use caddybuddy.Caddyfile.Build.{
  not_one_token, prepare_by, custom_braces, encode_braces, custom_errors, encode_errors,
  checked_blocks, option_errors, block_errors, validate_custom_directives, join, Runtime,
  normalize_caddy_directives, Fields, block, managed, proxy, encode, custom, blocks_of, built,
  listed, flagged, normalized_fields, field_errors, prepare_from, prepare_domain_directives,
  build_domain_directives, is_unbalanced,
}
use caddybuddy.Caddyfile.Build.Braces.{
  IsBalanced-braceless, IsBalanced-join, is_brace-space, append-eq-nil, is_brace, token-braceless,
  braces-normalize_block_body, IsBalanced-append, IsBalanced-same, IsBalanced-skips, braces,
  normalize_inline-IsBalanced, IsBalanced,
}
use caddybuddy.Caddyfile.Lexical.{
  contains_full_directive_wrapper, newline, balanced_from, has_roughly_balanced_braces,
  normalize_block_body, validate_block_body, normalize_caddy_token, or_none, or_empty, BuildError,
}
use caddybuddy.Text.Kept.{keep-strip, keep}
use caddybuddy.Text.Search.{strip}
use caddybuddy.Text.{Text, text}
use mathlib.Core.Option
use caddybuddy.Prelude.{
  ◌≡◌, refl, sym, ap, ◌∙◌, subst, ◌≢◌, inl, inr, Bool, true, false, ◌||◌, Option, none, some, List,
  [], ◌∷◌, ◌++◌, arith, ◌==◌, Bool-cases, is_nil, All, any, All-append,
}

block-IsBalanced :
    (name body : Text) → IsBalanced name → IsBalanced body → IsBalanced (block name body)
unfolding has_roughly_balanced_braces balanced_from
block-IsBalanced name body hn hb =
    IsBalanced-skips name hn 0 (text " {" ++ newline ++ (body ++ (newline ++ text "}")))
    ∙ IsBalanced-skips body hb 1 (newline ++ text "}")

managed-IsBalanced :
    (name body : Text) → IsBalanced name → IsBalanced body → All IsBalanced (managed name body)
managed-IsBalanced name [] hn hb = tt
managed-IsBalanced name (c ∷ body) hn hb = (block-IsBalanced name (c ∷ body) hn hb, tt)

proxy_name-IsBalanced : IsBalanced (text "reverse_proxy ")
unfolding has_roughly_balanced_braces balanced_from
proxy_name-IsBalanced = refl

proxy-IsBalanced :
    (upstream options : Text)
    → IsBalanced upstream
    → IsBalanced options
    → All IsBalanced (proxy upstream options)
proxy-IsBalanced [] options hu ho = tt
proxy-IsBalanced (u ∷ us) [] hu ho =
    (IsBalanced-append (text "reverse_proxy ") (u ∷ us) proxy_name-IsBalanced hu, tt)
proxy-IsBalanced (u ∷ us) (c ∷ options) hu ho = (
  block-IsBalanced (text "reverse_proxy " ++ u ∷ us) (c ∷ options)
      (IsBalanced-append (text "reverse_proxy ") (u ∷ us) proxy_name-IsBalanced hu) ho,
  tt,
)

encode_name-IsBalanced : IsBalanced (text "encode ")
unfolding has_roughly_balanced_braces balanced_from
encode_name-IsBalanced = refl

encode-IsBalanced : (args : Text) → IsBalanced args → All IsBalanced (encode args)
encode-IsBalanced [] h = tt
encode-IsBalanced (c ∷ args) h =
    (IsBalanced-append (text "encode ") (c ∷ args) encode_name-IsBalanced h, tt)

custom-IsBalanced : (o : Option Text) → is_unbalanced o ≡ false → All IsBalanced (custom o)
custom-IsBalanced none h = tt
custom-IsBalanced (some s) h = (ground (arith, h), tt)

names-IsBalanced :
    IsBalanced (text "basic_auth")
    × IsBalanced (text "header")
    × IsBalanced (text "request_body")
    × IsBalanced (text "log")
    × IsBalanced (text "tls")
unfolding has_roughly_balanced_braces balanced_from
names-IsBalanced = (refl, refl, refl, refl, refl)

-- What the blocks need of the fields.
record Sound (upstream : Text) (n : Fields) : Type 0 where
  token : IsBalanced upstream
  options : IsBalanced (or_empty n.reverse_proxy_options)
  args : braces (or_empty n.encode_directives) ≡ []
  header : IsBalanced (or_empty n.header_directives)
  body : IsBalanced (or_empty n.request_body_directives)
  log : IsBalanced (or_empty n.log_directives)
  tls : IsBalanced (or_empty n.tls_directives)
  auth : IsBalanced (or_empty n.basic_auth_directives)
  free : is_unbalanced (normalize_caddy_directives (or_empty n.custom_directives)) ≡ false

normal-IsBalanced : (s : Text) → IsBalanced s → IsBalanced (normalize_block_body s)
normal-IsBalanced s h =
    IsBalanced-same s (normalize_block_body s) (sym (braces-normalize_block_body s)) h

blocks_of-IsBalanced :
    (upstream : Text) (n : Fields) → Sound upstream n → All IsBalanced (blocks_of upstream n)
unfolding blocks_of
blocks_of-IsBalanced upstream n s =
    let names = names-IsBalanced in
    All-append IsBalanced _ _ (managed-IsBalanced _ _ names.0 (normal-IsBalanced _ s.auth)) (
      All-append IsBalanced _ _ (proxy-IsBalanced _ _ s.token (normal-IsBalanced _ s.options)) (
        All-append IsBalanced _ _
          (encode-IsBalanced _ (normalize_inline-IsBalanced _ (text "encode") s.args))
          (All-append IsBalanced _ _ (managed-IsBalanced _ _ names.1 (normal-IsBalanced _ s.header))
            (All-append IsBalanced _ _ (managed-IsBalanced _ _ names.2 (normal-IsBalanced _ s.body))
              (All-append IsBalanced _ _
                (managed-IsBalanced _ _ names.3 (normal-IsBalanced _ s.log))
                (All-append IsBalanced _ _
                  (managed-IsBalanced _ _ names.4 (normal-IsBalanced _ s.tls))
                  (custom-IsBalanced _ s.free)))))))

unbalanced_body :
    (label name raw : Text)
    → is_nil (strip raw) ≡ false
    → has_roughly_balanced_braces (strip raw) ≡ false
    → validate_block_body label name raw ≢ none
unfolding validate_block_body
unbalanced_body label name raw given bad h =
    elim (Bool-cases (contains_full_directive_wrapper (strip raw) name)) [
      | inl yes_ ↦ ground (arith, given, yes_, h)
      | inr no_ ↦ ground (arith, given, bad, no_, h)
    ]

nil-eq {ℓ} : {A : Type ℓ} (s : List A) → is_nil s ≡ true → s ≡ []
nil-eq [] h = refl
nil-eq (x ∷ s) h = ground (arith, h)

validate-IsBalanced :
    (label name raw : Text) → validate_block_body label name raw ≡ none → IsBalanced raw
unfolding keep
validate-IsBalanced label name raw h =
    let same : braces (strip raw) ≡ braces raw = keep-strip is_brace is_brace-space raw in
    elim (Bool-cases (is_nil (strip raw))) [
      | inl blank ↦ IsBalanced-braceless raw (sym same ∙ ap braces (nil-eq (strip raw) blank))
      | inr given ↦ elim (Bool-cases (has_roughly_balanced_braces (strip raw))) [
        | inl good ↦ IsBalanced-same (strip raw) raw same good
        | inr bad ↦ absurd (unbalanced_body label name raw given bad h)
      ]
    ]

listed-nil : (o : Option BuildError) → listed o ≡ [] → o ≡ none
listed-nil none h = refl
listed-nil (some e) h = ground arith

flagged-nil : (b : Bool) (e : BuildError) → flagged b e ≡ [] → b ≡ false
flagged-nil true e h = ground arith
flagged-nil false e h = refl

any-braceless : (s : Text) → any (λ c. c == b'{' || c == b'}') s ≡ false → braces s ≡ []
unfolding any keep is_brace
any-braceless [] h = refl
any-braceless (c ∷ s) h = ground (arith, h, any-braceless s)

some-injective {ℓ} : {A : Type ℓ} (x y : A) → some x ≡ some y → x ≡ y
some-injective x y h = ground (arith, h)

-- One layer of the directives is left after the first normalization.
abbrev pub IsStable : Fields → Type 0
IsStable f =
    normalize_caddy_directives
      (or_empty (normalize_caddy_directives (or_empty f.custom_directives)))
    ≡ normalize_caddy_directives (or_empty f.custom_directives)

block_errors-IsBalanced :
    (blocks : List (Text × Text × Text))
    → block_errors blocks ≡ []
    → All (λ b. IsBalanced b.2) blocks
unfolding block_errors
block_errors-IsBalanced [] h = tt
block_errors-IsBalanced ((label, name, raw) ∷ blocks) h =
    let both =
      append-eq-nil (listed (validate_block_body label name raw)) (block_errors blocks) h in
    (
      validate-IsBalanced label name raw (listed-nil (validate_block_body label name raw) both.0),
      block_errors-IsBalanced blocks both.1,
    )

field_errors-Sound :
    (rt : Runtime) (f : Fields) (u t : Text)
    → IsStable f
    → field_errors rt u (normalized_fields u f) f.custom_directives ≡ []
    → braces t ≡ []
    → Sound t (normalized_fields u f)
unfolding field_errors
field_errors-Sound rt f u t stable h ht =
    let n = normalized_fields u f in
    let raw = validate_custom_directives rt f.custom_directives in
    let h0 =
      append-eq-nil (option_errors u n)
        (block_errors (checked_blocks n) ++ (encode_errors n ++ (custom_errors n ++ raw))) h in
    let h1 =
      append-eq-nil (block_errors (checked_blocks n)) (encode_errors n ++ (custom_errors n ++ raw))
        h0.1 in
    let h2 = append-eq-nil (encode_errors n) (custom_errors n ++ raw) h1.1 in
    let h3 = append-eq-nil (custom_errors n) raw h2.1 in
    let blocks = block_errors-IsBalanced (checked_blocks n) h1.0 in
    record {
      token = IsBalanced-braceless t ht;
      options = blocks.0;
      args = any-braceless (or_empty n.encode_directives) (flagged-nil _ encode_braces h2.0);
      header = blocks.1.0;
      body = blocks.1.1.0;
      log = blocks.1.1.1.0;
      tls = blocks.1.1.1.1.0;
      auth = blocks.1.1.1.1.1.0;
      free =
          ap is_unbalanced stable
          ∙ flagged-nil (is_unbalanced n.custom_directives) custom_braces h3.0;
    }

gap-IsBalanced : IsBalanced (newline ++ newline)
unfolding has_roughly_balanced_braces balanced_from
gap-IsBalanced = refl

or_none-some : (s d : Text) → or_none s ≡ some d → s ≡ d
or_none-some [] d h = ground arith
or_none-some (c ∷ s) d h = some-injective _ _ h

built-IsBalanced :
    (o : Option Text) (g : Text → Text) (d : Text)
    → built (Option.map (λ t. or_none (g t)) o) ≡ some d
    → ((t : Text) → o ≡ some t → IsBalanced (g t))
    → IsBalanced d
built-IsBalanced none g d h good = ground (arith, h)
built-IsBalanced (some t) g d h good = subst IsBalanced (or_none-some (g t) d h) (good t refl)

build_domain_directives-IsBalanced :
    (n : Fields)
    → ((t : Text) → braces t ≡ [] → Sound t n)
    → (d : Text) → built (build_domain_directives n) ≡ some d
    → IsBalanced d
unfolding build_domain_directives
build_domain_directives-IsBalanced n sound d h =
    let gap = newline ++ newline in
    built-IsBalanced (normalize_caddy_token n.upstream) (λ t. join gap (blocks_of t n)) d h
      (λ t good.
        IsBalanced-join gap gap-IsBalanced (blocks_of t n)
          (blocks_of-IsBalanced t n (sound t (token-braceless n.upstream t good))))

prepare_from-IsBalanced :
    (rt : Runtime) (f : Fields) (u : Text) (errors : List BuildError) (d : Text)
    → IsStable f
    → (prepare_from rt f u errors).errors ≡ []
    → (prepare_from rt f u errors).caddy_directives ≡ some d
    → IsBalanced d
unfolding prepare_from
prepare_from-IsBalanced rt f u errors d stable quiet h =
    let n = normalized_fields u f in
    let none_left = (append-eq-nil errors (field_errors rt u n f.custom_directives) quiet).1 in
    build_domain_directives-IsBalanced n (λ t. field_errors-Sound rt f u t stable none_left) d h

-- Directives that are reported without an error have balanced braces, when normalizing the
-- custom directives a second time does not change them.
pub prepare_domain_directives-IsBalanced :
    (rt : Runtime) (f : Fields) (d : Text)
    → IsStable f
    → (prepare_domain_directives rt f).errors ≡ []
    → (prepare_domain_directives rt f).caddy_directives ≡ some d
    → has_roughly_balanced_braces d ≡ true
unfolding prepare_domain_directives prepare_by
prepare_domain_directives-IsBalanced rt f d stable quiet h =
    by_token (normalize_caddy_token f.upstream) quiet h
  where
    by_token :
        (o : Option Text)
        → (prepare_by rt f o).errors ≡ []
        → (prepare_by rt f o).caddy_directives ≡ some d
        → IsBalanced d
    by_token none = prepare_from-IsBalanced rt f [] (not_one_token ∷ []) d stable
    by_token (some u) = prepare_from-IsBalanced rt f u [] d stable
