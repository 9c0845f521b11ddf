-- ===== src/Caddyfile/Lexical.antt =====
-- Comments, braces, and the normal forms of a token, a label, a block body and inline arguments.
pub mod Balanced
use caddybuddy.Text.{Text, text, is_space, is_ascii_space}
use caddybuddy.Text.Search.{strip, rstrip, split_words, starts_with, remove_prefix, then_text}
use caddybuddy.Text.Lines.{join, splitlines}
use caddybuddy.Domains.Shape.{Runtime, Result}
use caddybuddy.Domains.Split.{split_domain_names}
use caddybuddy.Prelude.{
  ℕ, zero, suc, Bool, true, false, not, ◌&&◌, ◌||◌, Option, none, some, [], ◌∷◌, ◌++◌, map, ◌==◌,
  if◌then◌else◌, is_nil, any,
}

abbrev pub newline : Text
newline = 10 ∷ []

-- `value or ""`
abbrev pub or_empty : Option Text → Text
or_empty none = []
or_empty (some s) = s

-- `value or None`
abbrev pub or_none : Text → Option Text
or_none [] = none
or_none (c ∷ s) = some (c ∷ s)

-- The loop, with `in_quote` and `escaped`.
unfoldable pub uncommented : Bool → Bool → Text → Text
uncommented in_quote escaped [] = []
uncommented in_quote true (c ∷ s) = c ∷ uncommented in_quote false s
uncommented in_quote false (c ∷ s) = elim (c == b'\\' && in_quote) [
  | true ↦ c ∷ uncommented in_quote true s
  | false ↦ elim (c == b'"') [
    | true ↦ c ∷ uncommented (not in_quote) false s
    | false ↦ elim (c == b'#' && not in_quote) [
      | true ↦ []
      | false ↦ c ∷ uncommented in_quote false s
    ]
  ]
]

unfoldable pub strip_caddy_comment : Text → Text
unfolding uncommented rstrip
strip_caddy_comment line = rstrip (uncommented false false line)

unfoldable pub strip_caddy_comments : Text → Text
unfolding strip_caddy_comment splitlines join
strip_caddy_comments raw_value = join newline (map strip_caddy_comment (splitlines raw_value))

unfoldable pub is_comment_or_empty : Text → Bool
unfolding strip starts_with
is_comment_or_empty value =
    let stripped = strip value in is_nil stripped || starts_with (text "#") stripped

unfoldable pub is_closing_brace_line : Text → Bool
unfolding strip then_text is_comment_or_empty
is_closing_brace_line line = then_text (text "}") is_comment_or_empty (strip line)

-- The loop, with `depth`.
unfoldable pub balanced_from : ℕ → Text → Bool
balanced_from depth [] = depth == 0
balanced_from depth (c ∷ s) = elim (c == b'{') [
  | true ↦ balanced_from (suc depth) s
  | false ↦ elim (c == b'}') [
    | true ↦ elim depth [ zero ↦ false | suc below ↦ balanced_from below s ]
    | false ↦ balanced_from depth s
  ]
]

unfoldable pub has_roughly_balanced_braces : Text → Bool
unfolding balanced_from
has_roughly_balanced_braces raw_value = balanced_from 0 raw_value

-- `[\s{}#]`
unfoldable pub is_token_forbidden : ℕ → Bool
unfolding is_ascii_space
is_token_forbidden c = is_ascii_space c || c == b'{' || c == b'}' || c == b'#'

-- `none` where it raises `ValueError`
unfoldable pub normalize_caddy_token : Option Text → Option Text
unfolding strip is_token_forbidden any
normalize_caddy_token none = some []
normalize_caddy_token (some value) =
    let normalized = strip value in
    if is_nil normalized
    then some []
    else if any is_token_forbidden normalized
    then none
    else some normalized

-- `[\r\n{}]`
unfoldable pub is_label_forbidden : ℕ → Bool
is_label_forbidden c = c == 13 || c == 10 || c == b'{' || c == b'}'

-- `none` where it raises `ValueError`
unfoldable pub normalize_site_label : Runtime → Text → Option Text
unfolding strip is_label_forbidden any join
normalize_site_label rt value =
    let stripped = strip value in
    let normalized = if is_nil stripped then text "example.com" else stripped in
    if any is_label_forbidden normalized
    then none
    else elim (split_domain_names rt false normalized) [
      | Result.ok domains ↦ some (join (text ", ") domains)
      | Result.err e ↦ none
    ]

unfoldable pub normalize_block_body : Text → Text
unfolding strip rstrip splitlines join
normalize_block_body raw_value = strip (join newline (map rstrip (splitlines (strip raw_value))))

unfoldable pub normalize_inline_directive_args : Text → Text → Text
unfolding strip starts_with remove_prefix split_words join
normalize_inline_directive_args raw_value directive_name =
    let normalized = strip raw_value in
    let name = directive_name ++ text " " in
    let args =
      if starts_with name normalized then strip (remove_prefix name normalized) else normalized in
    join (text " ") (split_words args)

abbrev starts_block : Text → Bool
starts_block [] = false
starts_block (c ∷ s) = is_space c || c == b'{'

-- `^directive(?:\s+|\s*\{)` of the stripped text
unfoldable pub contains_full_directive_wrapper : Text → Text → Bool
unfolding strip then_text is_space
contains_full_directive_wrapper raw_value directive_name =
    then_text directive_name starts_block (strip raw_value)

-- The errors of the builder; a label is the name of its field.
pub data BuildError : Type 0 where
  not_one_token options_without_upstream encode_braces custom_braces import_denied : BuildError
  unmatched_brace : BuildError
  outer_wrapper unbalanced : Text → BuildError

unfoldable pub validate_block_body : Text → Text → Text → Option BuildError
unfolding strip contains_full_directive_wrapper has_roughly_balanced_braces
validate_block_body label directive_name raw_value =
    let normalized = strip raw_value in
    if is_nil normalized
    then none
    else if contains_full_directive_wrapper normalized directive_name
    then some (outer_wrapper label)
    else if not (has_roughly_balanced_braces normalized)
    then some (unbalanced label)
    else none
