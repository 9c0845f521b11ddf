-- ===== src/Caddyfile/Build.antt =====
-- `build_domain_directives` and `prepare_domain_directives`.
pub mod Braces
pub mod Laws
use caddybuddy.Caddyfile.Lexical.{
  custom_braces, encode_braces, import_denied, not_one_token, options_without_upstream,
  unmatched_brace, newline, or_none, or_empty, normalize_caddy_token, normalize_block_body,
  normalize_inline_directive_args, has_roughly_balanced_braces, validate_block_body, BuildError,
}
use mathlib.Core.Option
use caddybuddy.Text.{Text, text, is_space, text_eq}
use caddybuddy.Text.Search.{after_prefix, starts_with, remove_prefix, split_words, first_word}
use caddybuddy.Text.Strip.{lstrip_by}
use caddybuddy.Text.Split.{split_at}
use caddybuddy.Text.Lines.{join}
use caddybuddy.Domains.Shape.{Runtime}
use caddybuddy.Caddyfile.Split.{
  normalize_caddy_directives, split_top_level_directives, split_block_header_and_body,
  word_or_empty,
}
use caddybuddy.Prelude.{
  ℕ, zero, suc, ◌+◌, ◌-◌, ◌*◌, ◌/◌, ◌%◌, ◌^◌, ◌≤◌, ◌<◌, String, ◌≡◌, refl, sym, ap, ◌∙◌, subst, ◌≢◌,
  ◌↔◌, ◌⊎◌, inl, inr, Bool, true, false, not, ◌&&◌, ◌||◌, false≢true, Option, none, some, List, [],
  ◌∷◌, ◌++◌, map, reverse, arith, ltb, leb, ◌==◌, if◌then◌else◌, ltb→lt, lt→ltb, leb→le, ==_iff,
  Bool-cases, Option-cases, and-eq-true, length, is_nil, All, length-append, all, any, all-append,
  All-append, All-all,
}

-- The managed blocks of a site and its free directives, as the form has them.
pub record Fields : Type 0 where
  pub upstream : Option Text
  pub reverse_proxy_options : Option Text
  pub encode_directives : Option Text
  pub header_directives : Option Text
  pub request_body_directives : Option Text
  pub log_directives : Option Text
  pub tls_directives : Option Text
  pub basic_auth_directives : Option Text
  pub custom_directives : Option Text

-- name {\n body \n}
abbrev pub block : Text → Text → Text
block name body = name ++ (text " {" ++ newline ++ (body ++ (newline ++ text "}")))

-- A block, if its body is not empty.
abbrev pub managed : Text → Text → List Text
managed name [] = []
managed name (c ∷ body) = block name (c ∷ body) ∷ []

abbrev pub proxy_line : Text → Text
proxy_line upstream = text "reverse_proxy " ++ upstream

abbrev pub proxy : Text → Text → List Text
proxy [] options = []
proxy (u ∷ us) [] = proxy_line (u ∷ us) ∷ []
proxy (u ∷ us) (c ∷ options) = block (proxy_line (u ∷ us)) (c ∷ options) ∷ []

abbrev pub encode : Text → List Text
encode [] = []
encode (c ∷ args) = (text "encode " ++ c ∷ args) ∷ []

abbrev pub custom : Option Text → List Text
custom none = []
custom (some s) = s ∷ []

-- The list `blocks`.
unfoldable pub blocks_of : Text → Fields → List Text
unfolding normalize_block_body normalize_inline_directive_args normalize_caddy_directives
blocks_of upstream f =
    managed (text "basic_auth") (normalize_block_body (or_empty f.basic_auth_directives))
    ++ (proxy upstream (normalize_block_body (or_empty f.reverse_proxy_options))
        ++ (encode (normalize_inline_directive_args (or_empty f.encode_directives) (text "encode"))
            ++ (managed (text "header") (normalize_block_body (or_empty f.header_directives))
                ++ (managed (text "request_body")
                      (normalize_block_body (or_empty f.request_body_directives))
                    ++ (managed (text "log") (normalize_block_body (or_empty f.log_directives))
                        ++ (managed (text "tls") (normalize_block_body (or_empty f.tls_directives))
                            ++ custom
                                (normalize_caddy_directives (or_empty f.custom_directives))))))))

-- `none` where the upstream raises `ValueError`
unfoldable pub build_domain_directives : Fields → Option (Option Text)
unfolding blocks_of normalize_caddy_token join
build_domain_directives f =
    Option.map (λ upstream. or_none (join (newline ++ newline) (blocks_of upstream f)))
      (normalize_caddy_token f.upstream)

-- Of one line, `^\s*import(?:\s+|$)`
unfoldable pub imports_in_line : Text → Bool
unfolding lstrip_by after_prefix is_space
imports_in_line line = elim (after_prefix (text "import") (lstrip_by is_space line)) [
  | none ↦ false
  | some [] ↦ true
  | some (c ∷ s) ↦ is_space c
]

-- `_NESTED_IMPORT_RE.search`; white space in front that spans lines leads to a line of its own.
unfoldable pub has_import_line : Text → Bool
unfolding imports_in_line split_at any
has_import_line s = any imports_in_line (split_at 10 s)

-- The loop over the chunks; the denied directives are `import` only.
unfoldable pub denied_chunks : Runtime → List Text → List BuildError
unfolding split_block_header_and_body first_word text_eq
denied_chunks rt [] = []
denied_chunks rt (chunk ∷ chunks) =
    let header = (split_block_header_and_body chunk).0 in
    let rest = denied_chunks rt chunks in
    if text_eq (rt.lower (word_or_empty (first_word header))) (text "import")
    then import_denied ∷ rest
    else rest

-- The errors, with the `ValueError` of the split as the error that the caller makes of it.
unfoldable pub validate_chunks : Runtime → Option (List Text) → List BuildError
unfolding denied_chunks
validate_chunks rt none = unmatched_brace ∷ []
validate_chunks rt (some chunks) = denied_chunks rt chunks

unfoldable pub validate_normalized : Runtime → Option Text → List BuildError
unfolding has_import_line validate_chunks split_top_level_directives
validate_normalized rt none = []
validate_normalized rt (some s) =
    if has_import_line s
    then import_denied ∷ []
    else validate_chunks rt (split_top_level_directives s)

unfoldable pub validate_custom_directives : Runtime → Option Text → List BuildError
unfolding validate_normalized normalize_caddy_directives
validate_custom_directives rt raw_value =
    validate_normalized rt (normalize_caddy_directives (or_empty raw_value))

-- The upstream of the first directive `reverse_proxy`, if it has one argument.
abbrev pub only_word : List Text → Option Text
only_word (w ∷ []) = some w
only_word _ = none

unfoldable pub first_upstream : List Text → Option Text
unfolding split_block_header_and_body starts_with remove_prefix split_words
first_upstream [] = none
first_upstream (chunk ∷ chunks) =
    let header = (split_block_header_and_body chunk).0 in
    let later = first_upstream chunks in
    if starts_with (text "reverse_proxy ") header
    then only_word (split_words (remove_prefix (text "reverse_proxy ") header))
    else later

abbrev pub upstream_in : Option (List Text) → Option Text
upstream_in none = none
upstream_in (some chunks) = first_upstream chunks

unfoldable pub extract_upstream_from_directives : Option Text → Option Text
unfolding first_upstream split_top_level_directives
extract_upstream_from_directives none = none
extract_upstream_from_directives (some []) = none
extract_upstream_from_directives (some (c ∷ s)) = upstream_in (split_top_level_directives (c ∷ s))

pub record BuildResult : Type 0 where
  pub upstream : Option Text
  pub caddy_directives : Option Text
  pub errors : List BuildError

-- The fields as `prepare_domain_directives` hands them on.
abbrev pub normalized_fields : Text → Fields → Fields
normalized_fields upstream f = record {
  upstream = or_none upstream;
  reverse_proxy_options = some (normalize_block_body (or_empty f.reverse_proxy_options));
  encode_directives =
      some (normalize_inline_directive_args (or_empty f.encode_directives) (text "encode"));
  header_directives = some (normalize_block_body (or_empty f.header_directives));
  request_body_directives = some (normalize_block_body (or_empty f.request_body_directives));
  log_directives = some (normalize_block_body (or_empty f.log_directives));
  tls_directives = some (normalize_block_body (or_empty f.tls_directives));
  basic_auth_directives = some (normalize_block_body (or_empty f.basic_auth_directives));
  custom_directives = normalize_caddy_directives (or_empty f.custom_directives);
}

abbrev pub listed : Option BuildError → List BuildError
listed none = []
listed (some e) = e ∷ []

abbrev pub flagged : Bool → BuildError → List BuildError
flagged true e = e ∷ []
flagged false e = []

abbrev pub is_unbalanced : Option Text → Bool
is_unbalanced none = false
is_unbalanced (some s) = not (has_roughly_balanced_braces s)

-- The label, the directive and the value of the blocks that are checked.
abbrev pub checked_blocks : Fields → List (Text × Text × Text)
checked_blocks n =
    (text "Reverse proxy options", text "reverse_proxy", or_empty n.reverse_proxy_options)
    ∷ (text "Header block", text "header", or_empty n.header_directives)
    ∷ (text "Request body block", text "request_body", or_empty n.request_body_directives)
    ∷ (text "Log block", text "log", or_empty n.log_directives)
    ∷ (text "TLS block", text "tls", or_empty n.tls_directives)
    ∷ (text "Basic auth block", text "basic_auth", or_empty n.basic_auth_directives)
    ∷ []

unfoldable pub block_errors : List (Text × Text × Text) → List BuildError
unfolding validate_block_body
block_errors [] = []
block_errors ((label, directive_name, raw_value) ∷ blocks) =
    listed (validate_block_body label directive_name raw_value) ++ block_errors blocks

abbrev pub option_errors : Text → Fields → List BuildError
option_errors upstream n =
    flagged (is_nil upstream && not (is_nil (or_empty n.reverse_proxy_options)))
      options_without_upstream

abbrev pub encode_errors : Fields → List BuildError
encode_errors n =
    flagged (any (λ c. c == b'{' || c == b'}') (or_empty n.encode_directives)) encode_braces

abbrev pub custom_errors : Fields → List BuildError
custom_errors n = flagged (is_unbalanced n.custom_directives) custom_braces

-- The errors about fields that are already normalized.
unfoldable pub field_errors : Runtime → Text → Fields → Option Text → List BuildError
unfolding block_errors has_roughly_balanced_braces validate_custom_directives any
field_errors rt upstream n raw_custom =
    option_errors upstream n
    ++ (block_errors (checked_blocks n)
        ++ (encode_errors n ++ (custom_errors n ++ validate_custom_directives rt raw_custom)))

-- `normalized_upstream or extract_upstream_from_directives(caddy_directives)`
abbrev pub resolved_upstream : Text → Option Text → Option Text
resolved_upstream [] directives = extract_upstream_from_directives directives
resolved_upstream (c ∷ s) directives = some (c ∷ s)

-- The call of `build_domain_directives` cannot raise: the upstream is already a token.
abbrev pub built : Option (Option Text) → Option Text
built none = none
built (some d) = d

unfoldable pub prepare_from : Runtime → Fields → Text → List BuildError → BuildResult
unfolding field_errors build_domain_directives
prepare_from rt f upstream errors =
    let n = normalized_fields upstream f in
    let directives = built (build_domain_directives n) in
    record {
      upstream = resolved_upstream upstream directives;
      caddy_directives = directives;
      errors = errors ++ field_errors rt upstream n f.custom_directives;
    }

unfoldable pub prepare_by : Runtime → Fields → Option Text → BuildResult
unfolding prepare_from
prepare_by rt f none = prepare_from rt f [] (not_one_token ∷ [])
prepare_by rt f (some upstream) = prepare_from rt f upstream []

unfoldable pub prepare_domain_directives : Runtime → Fields → BuildResult
unfolding prepare_by normalize_caddy_token
prepare_domain_directives rt f = prepare_by rt f (normalize_caddy_token f.upstream)
