-- ===== src/Caddyfile/Examples.antt =====
-- Runs of the definitions of app/utils/caddyfile.py.
use caddybuddy.Text.{text_eq, member, is_space, is_ascii_space, is_digit, is_lower, is_upper}
use caddybuddy.Text.Search.{
  after_prefix, starts_with, remove_prefix, has_char, count_char, ends_in, without_last,
  before_char, after_char, before_last, after_last, strip, rstrip, split_words, first_word,
  spaces_then, then_text,
}
use caddybuddy.Text.Strip.{lstrip_by, rstrip_by, strip_by}
use caddybuddy.Text.Split.{push_first, split_at, drop_empty, split_where, words}
use caddybuddy.Text.Lines.{is_line_end, close_line, lines_from, splitlines, join}
use caddybuddy.Caddyfile.Lexical.{
  uncommented, strip_caddy_comment, strip_caddy_comments, is_comment_or_empty,
  is_closing_brace_line, balanced_from, has_roughly_balanced_braces, is_token_forbidden,
  normalize_caddy_token, is_label_forbidden, normalize_site_label, normalize_block_body,
  normalize_inline_directive_args, contains_full_directive_wrapper, validate_block_body,
}
use caddybuddy.Caddyfile.Split.{
  blank_step, line_step, chunks_from, nonempty, split_top_level_directives, split_one_line,
  split_lines_of_block, split_block_header_and_body, unwrap_block, unwrap_chunks,
  normalize_caddy_directives,
}
use caddybuddy.Caddyfile.Build.{
  blocks_of, build_domain_directives, imports_in_line, has_import_line, denied_chunks,
  validate_chunks, validate_normalized, validate_custom_directives, first_upstream,
  extract_upstream_from_directives, block_errors, field_errors, prepare_from, prepare_by,
  prepare_domain_directives,
}
use caddybuddy.Domains.Examples.{ascii_lower}
use caddybuddy.Caddyfile.Lexical.{newline, or_empty}
use caddybuddy.Caddyfile.Lexical.Balanced.{Balanced, has_roughly_balanced_braces_iff}
use caddybuddy.Caddyfile.Split.Kept.{split_top_level_directives-keeps}
use caddybuddy.Caddyfile.Build.{Fields}
use caddybuddy.Caddyfile.Build.Laws.{prepare_domain_directives-IsBalanced}
use caddybuddy.Domains.Examples.{ascii}
use caddybuddy.Text.{Text, text}
use caddybuddy.Text.Kept.{keep, keep_all}
use caddybuddy.Caddyfile.Inject.{
  find_open, find_close, close_at_end, block_and_rest, is_managed, unmanaged, injected_lines,
  new_block, inject_managed, inject_global_options,
}
use caddybuddy.Caddyfile.Queries.{
  handler_or, first_handler, extract_site_handler_from_directives, is_word, any_log,
  directives_have_log_block, names_security_header, any_security_header, header_block, any_header,
  directives_have_security_header_block, line_starts, is_snippet_start, snippet_is_defined,
}
use caddybuddy.Caddyfile.Queries.{index_error}
use caddybuddy.Caddyfile.Parse.{
  parse_caddyfile, parse_lines, extract_domain_from_label, is_global_block_header,
  is_snippet_header,
}
use caddybuddy.Caddyfile.Parse.Generated.{IsHosted, generated, parse_caddyfile-generated}
use caddybuddy.Caddyfile.Parse.{
  is_global_block_header, is_name_char, is_snippet_end, is_snippet_name, is_snippet_header,
  is_letter, is_letter_or_digit, is_name_tail, is_host_label, are_host_labels, is_host, fold,
  after_folded, without_scheme, is_site_name, are_site_names, is_site_label, extract_domain,
  domains_of_parts, extract_domain_from_label, add_block, inner_lines, block_body, header_of,
  inner_of, is_plain, parse_lines, parse_caddyfile, global_block,
}
use caddybuddy.Domains.Shape.{
  is_alnum, is_inner, is_tail, is_label, is_top, are_labels, matches_domain, normalize_domain_name,
}
use caddybuddy.Prelude.{ℕ, ◌≡◌, refl, ◌↔◌, Bool, true, false, not, none, some, List, [], ◌∷◌, ◌++◌}

has_roughly_balanced_braces_iff_example :
    (has_roughly_balanced_braces (text "log { }") ≡ true) ↔ Balanced (text "log { }")
has_roughly_balanced_braces_iff_example = has_roughly_balanced_braces_iff (text "log { }")

abbrev is_ink : ℕ → Bool
is_ink c = not (is_space c)

ink-solid : (c : ℕ) → is_space c ≡ true → is_ink c ≡ false
ink-solid c h = rw h refl

abbrev two_directives : Text
two_directives =
    text "log {" ++ newline ++ text "  x" ++ newline ++ text "}" ++ newline ++ text "tls a"

abbrev chunks : List Text
chunks = (text "log {" ++ newline ++ text "  x" ++ newline ++ text "}") ∷ text "tls a" ∷ []

splits : split_top_level_directives two_directives ≡ some chunks
unfolding text_eq member is_space is_ascii_space is_digit is_lower is_upper after_prefix starts_with
    remove_prefix has_char count_char ends_in without_last before_char after_char before_last
    after_last strip rstrip split_words first_word spaces_then then_text lstrip_by rstrip_by
    strip_by push_first split_at drop_empty split_where words is_line_end close_line lines_from
    splitlines join uncommented strip_caddy_comment strip_caddy_comments is_comment_or_empty
    is_closing_brace_line balanced_from has_roughly_balanced_braces is_token_forbidden
    normalize_caddy_token is_label_forbidden normalize_site_label normalize_block_body
    normalize_inline_directive_args contains_full_directive_wrapper validate_block_body blank_step
    line_step chunks_from nonempty split_top_level_directives split_one_line split_lines_of_block
    split_block_header_and_body unwrap_block unwrap_chunks normalize_caddy_directives
splits = refl

split_top_level_directives-keeps_example : keep_all is_ink chunks ≡ keep is_ink two_directives
split_top_level_directives-keeps_example =
    split_top_level_directives-keeps is_ink ink-solid two_directives chunks splits

-- A site with an upstream, header rules and a directive of its own.
abbrev site_fields : Fields
site_fields = record {
  upstream = some (text "app:80");
  reverse_proxy_options = none;
  encode_directives = some (text "encode gzip");
  header_directives = some (text "X a");
  request_body_directives = none;
  log_directives = none;
  tls_directives = none;
  basic_auth_directives = none;
  custom_directives = some (text "b.de { redir x }");
}

abbrev site_directives : Text
site_directives =
    text "reverse_proxy app:80"
    ++ newline
    ++ newline
    ++ text "encode gzip"
    ++ newline
    ++ newline
    ++ text "header {"
    ++ newline
    ++ text "X a"
    ++ newline
    ++ text "}"
    ++ newline
    ++ newline
    ++ text "redir x"

site_stable :
    normalize_caddy_directives
      (or_empty (normalize_caddy_directives (or_empty site_fields.custom_directives)))
    ≡ normalize_caddy_directives (or_empty site_fields.custom_directives)
unfolding text_eq member is_space is_ascii_space is_digit is_lower is_upper after_prefix starts_with
    remove_prefix has_char count_char ends_in without_last before_char after_char before_last
    after_last strip rstrip split_words first_word spaces_then then_text lstrip_by rstrip_by
    strip_by push_first split_at drop_empty split_where words is_line_end close_line lines_from
    splitlines join uncommented strip_caddy_comment strip_caddy_comments is_comment_or_empty
    is_closing_brace_line balanced_from has_roughly_balanced_braces is_token_forbidden
    normalize_caddy_token is_label_forbidden normalize_site_label normalize_block_body
    normalize_inline_directive_args contains_full_directive_wrapper validate_block_body blank_step
    line_step chunks_from nonempty split_top_level_directives split_one_line split_lines_of_block
    split_block_header_and_body unwrap_block unwrap_chunks normalize_caddy_directives
site_stable = refl

site_quiet : (prepare_domain_directives ascii site_fields).errors ≡ []
unfolding text_eq member is_space is_ascii_space is_digit is_lower is_upper after_prefix starts_with
    remove_prefix has_char count_char ends_in without_last before_char after_char before_last
    after_last strip rstrip split_words first_word spaces_then then_text lstrip_by rstrip_by
    strip_by push_first split_at drop_empty split_where words is_line_end close_line lines_from
    splitlines join uncommented strip_caddy_comment strip_caddy_comments is_comment_or_empty
    is_closing_brace_line balanced_from has_roughly_balanced_braces is_token_forbidden
    normalize_caddy_token is_label_forbidden normalize_site_label normalize_block_body
    normalize_inline_directive_args contains_full_directive_wrapper validate_block_body blank_step
    line_step chunks_from nonempty split_top_level_directives split_one_line split_lines_of_block
    split_block_header_and_body unwrap_block unwrap_chunks normalize_caddy_directives blocks_of
    build_domain_directives imports_in_line has_import_line denied_chunks validate_chunks
    validate_normalized validate_custom_directives first_upstream extract_upstream_from_directives
    block_errors field_errors prepare_from prepare_by prepare_domain_directives ascii_lower
site_quiet = refl

site_built : (prepare_domain_directives ascii site_fields).caddy_directives ≡ some site_directives
unfolding text_eq member is_space is_ascii_space is_digit is_lower is_upper after_prefix starts_with
    remove_prefix has_char count_char ends_in without_last before_char after_char before_last
    after_last strip rstrip split_words first_word spaces_then then_text lstrip_by rstrip_by
    strip_by push_first split_at drop_empty split_where words is_line_end close_line lines_from
    splitlines join uncommented strip_caddy_comment strip_caddy_comments is_comment_or_empty
    is_closing_brace_line balanced_from has_roughly_balanced_braces is_token_forbidden
    normalize_caddy_token is_label_forbidden normalize_site_label normalize_block_body
    normalize_inline_directive_args contains_full_directive_wrapper validate_block_body blank_step
    line_step chunks_from nonempty split_top_level_directives split_one_line split_lines_of_block
    split_block_header_and_body unwrap_block unwrap_chunks normalize_caddy_directives blocks_of
    build_domain_directives imports_in_line has_import_line denied_chunks validate_chunks
    validate_normalized validate_custom_directives first_upstream extract_upstream_from_directives
    block_errors field_errors prepare_from prepare_by prepare_domain_directives ascii_lower
site_built = refl

prepare_domain_directives-IsBalanced_example : has_roughly_balanced_braces site_directives ≡ true
prepare_domain_directives-IsBalanced_example =
    prepare_domain_directives-IsBalanced ascii site_fields site_directives site_stable site_quiet
      site_built

-- Custom directives only.
abbrev custom_fields : Text → Fields
custom_fields s = record {
  upstream = none;
  reverse_proxy_options = none;
  encode_directives = none;
  header_directives = none;
  request_body_directives = none;
  log_directives = none;
  tls_directives = none;
  basic_auth_directives = none;
  custom_directives = some s;
}

-- Of two blocks around an import, the checks see one and the result has none.
import_hidden :
    prepare_domain_directives ascii (custom_fields (text "a { x { import foo } }"))
    ≡ record { upstream = none; caddy_directives = some (text "import foo"); errors = [] }
unfolding text_eq member is_space is_ascii_space is_digit is_lower is_upper after_prefix starts_with
    remove_prefix has_char count_char ends_in without_last before_char after_char before_last
    after_last strip rstrip split_words first_word spaces_then then_text lstrip_by rstrip_by
    strip_by push_first split_at drop_empty split_where words is_line_end close_line lines_from
    splitlines join uncommented strip_caddy_comment strip_caddy_comments is_comment_or_empty
    is_closing_brace_line balanced_from has_roughly_balanced_braces is_token_forbidden
    normalize_caddy_token is_label_forbidden normalize_site_label normalize_block_body
    normalize_inline_directive_args contains_full_directive_wrapper validate_block_body blank_step
    line_step chunks_from nonempty split_top_level_directives split_one_line split_lines_of_block
    split_block_header_and_body unwrap_block unwrap_chunks normalize_caddy_directives blocks_of
    build_domain_directives imports_in_line has_import_line denied_chunks validate_chunks
    validate_normalized validate_custom_directives first_upstream extract_upstream_from_directives
    block_errors field_errors prepare_from prepare_by prepare_domain_directives ascii_lower
import_hidden = refl

-- The same for braces: what is taken out of a balanced text is not balanced.
braces_hidden :
    prepare_domain_directives ascii (custom_fields (text "x { h { a } { b } }"))
    ≡ record { upstream = none; caddy_directives = some (text "a } { b"); errors = [] }
unfolding text_eq member is_space is_ascii_space is_digit is_lower is_upper after_prefix starts_with
    remove_prefix has_char count_char ends_in without_last before_char after_char before_last
    after_last strip rstrip split_words first_word spaces_then then_text lstrip_by rstrip_by
    strip_by push_first split_at drop_empty split_where words is_line_end close_line lines_from
    splitlines join uncommented strip_caddy_comment strip_caddy_comments is_comment_or_empty
    is_closing_brace_line balanced_from has_roughly_balanced_braces is_token_forbidden
    normalize_caddy_token is_label_forbidden normalize_site_label normalize_block_body
    normalize_inline_directive_args contains_full_directive_wrapper validate_block_body blank_step
    line_step chunks_from nonempty split_top_level_directives split_one_line split_lines_of_block
    split_block_header_and_body unwrap_block unwrap_chunks normalize_caddy_directives blocks_of
    build_domain_directives imports_in_line has_import_line denied_chunks validate_chunks
    validate_normalized validate_custom_directives first_upstream extract_upstream_from_directives
    block_errors field_errors prepare_from prepare_by prepare_domain_directives ascii_lower
braces_hidden = refl

abbrev site_a : Text × Text
site_a = (text "a.de", text "  log {" ++ newline ++ text "  }")

abbrev site_b : Text × Text
site_b = (text "b.de", [])

site_a-IsHosted : IsHosted ascii site_a
unfolding text_eq member is_space is_ascii_space is_digit is_lower is_upper after_prefix starts_with
    remove_prefix has_char count_char ends_in without_last before_char after_char before_last
    after_last strip rstrip split_words first_word spaces_then then_text lstrip_by rstrip_by
    strip_by push_first split_at drop_empty split_where words is_line_end close_line lines_from
    splitlines join blank_step line_step chunks_from nonempty split_top_level_directives
    split_one_line split_lines_of_block split_block_header_and_body unwrap_block unwrap_chunks
    normalize_caddy_directives uncommented strip_caddy_comment strip_caddy_comments
    is_comment_or_empty is_closing_brace_line balanced_from has_roughly_balanced_braces
    is_token_forbidden normalize_caddy_token is_label_forbidden normalize_site_label
    normalize_block_body normalize_inline_directive_args contains_full_directive_wrapper
    validate_block_body is_global_block_header is_name_char is_snippet_end is_snippet_name
    is_snippet_header is_letter is_letter_or_digit is_name_tail is_host_label are_host_labels
    is_host fold after_folded without_scheme is_site_name are_site_names is_site_label
    extract_domain domains_of_parts extract_domain_from_label add_block inner_lines block_body
    header_of inner_of is_plain parse_lines parse_caddyfile global_block is_alnum is_inner is_tail
    is_label is_top are_labels matches_domain normalize_domain_name ascii_lower
site_a-IsHosted = record { domain = refl; lowered = refl; balanced = refl; lines = refl }

site_b-IsHosted : IsHosted ascii site_b
unfolding text_eq member is_space is_ascii_space is_digit is_lower is_upper after_prefix starts_with
    remove_prefix has_char count_char ends_in without_last before_char after_char before_last
    after_last strip rstrip split_words first_word spaces_then then_text lstrip_by rstrip_by
    strip_by push_first split_at drop_empty split_where words is_line_end close_line lines_from
    splitlines join blank_step line_step chunks_from nonempty split_top_level_directives
    split_one_line split_lines_of_block split_block_header_and_body unwrap_block unwrap_chunks
    normalize_caddy_directives uncommented strip_caddy_comment strip_caddy_comments
    is_comment_or_empty is_closing_brace_line balanced_from has_roughly_balanced_braces
    is_token_forbidden normalize_caddy_token is_label_forbidden normalize_site_label
    normalize_block_body normalize_inline_directive_args contains_full_directive_wrapper
    validate_block_body is_global_block_header is_name_char is_snippet_end is_snippet_name
    is_snippet_header is_letter is_letter_or_digit is_name_tail is_host_label are_host_labels
    is_host fold after_folded without_scheme is_site_name are_site_names is_site_label
    extract_domain domains_of_parts extract_domain_from_label add_block inner_lines block_body
    header_of inner_of is_plain parse_lines parse_caddyfile global_block is_alnum is_inner is_tail
    is_label is_top are_labels matches_domain normalize_domain_name ascii_lower
site_b-IsHosted = record { domain = refl; lowered = refl; balanced = refl; lines = refl }

parse_caddyfile-generated_example :
    parse_caddyfile ascii (generated (site_a ∷ site_b ∷ [])) ≡ record {
      global_parts = [] ∷ [];
      snippets = [];
      sites = (text "a.de", strip site_a.1) ∷ (text "b.de", strip []) ∷ [];
    }
parse_caddyfile-generated_example =
    parse_caddyfile-generated ascii (site_a ∷ site_b ∷ []) (site_a-IsHosted, (site_b-IsHosted, tt))

-- A block on one line loses every brace at its end.
brace_lost :
    (parse_caddyfile ascii (text "a.de { log {x}}")).sites ≡ (text "a.de", text "log {x") ∷ []
unfolding text_eq member is_space is_ascii_space is_digit is_lower is_upper after_prefix starts_with
    remove_prefix has_char count_char ends_in without_last before_char after_char before_last
    after_last strip rstrip split_words first_word spaces_then then_text lstrip_by rstrip_by
    strip_by push_first split_at drop_empty split_where words is_line_end close_line lines_from
    splitlines join blank_step line_step chunks_from nonempty split_top_level_directives
    split_one_line split_lines_of_block split_block_header_and_body unwrap_block unwrap_chunks
    normalize_caddy_directives uncommented strip_caddy_comment strip_caddy_comments
    is_comment_or_empty is_closing_brace_line balanced_from has_roughly_balanced_braces
    is_token_forbidden normalize_caddy_token is_label_forbidden normalize_site_label
    normalize_block_body normalize_inline_directive_args contains_full_directive_wrapper
    validate_block_body is_global_block_header is_name_char is_snippet_end is_snippet_name
    is_snippet_header is_letter is_letter_or_digit is_name_tail is_host_label are_host_labels
    is_host fold after_folded without_scheme is_site_name are_site_names is_site_label
    extract_domain domains_of_parts extract_domain_from_label add_block inner_lines block_body
    header_of inner_of is_plain parse_lines parse_caddyfile global_block is_alnum is_inner is_tail
    is_label is_top are_labels matches_domain normalize_domain_name ascii_lower
brace_lost = refl

-- A global options block that ends after its opening brace has that brace twice.
brace_doubled :
    inject_global_options (λ c. true) (text "{") (some (text "a")) none
    ≡ text "{" ++ newline ++ text "    admin a" ++ newline ++ text "{"
unfolding text_eq member is_space is_ascii_space is_digit is_lower is_upper after_prefix starts_with
    remove_prefix has_char count_char ends_in without_last before_char after_char before_last
    after_last strip rstrip split_words first_word spaces_then then_text lstrip_by rstrip_by
    strip_by push_first split_at drop_empty split_where words is_line_end close_line lines_from
    splitlines join uncommented strip_caddy_comment strip_caddy_comments is_comment_or_empty
    is_closing_brace_line balanced_from has_roughly_balanced_braces is_token_forbidden
    normalize_caddy_token is_label_forbidden normalize_site_label normalize_block_body
    normalize_inline_directive_args contains_full_directive_wrapper validate_block_body blank_step
    line_step chunks_from nonempty split_top_level_directives split_one_line split_lines_of_block
    split_block_header_and_body unwrap_block unwrap_chunks normalize_caddy_directives find_open
    find_close close_at_end block_and_rest is_managed unmanaged injected_lines new_block
    inject_managed inject_global_options
brace_doubled = refl

-- A chunk without a header raises.
header_missing : extract_site_handler_from_directives (some (text "{ x }")) ≡ index_error
unfolding text_eq member is_space is_ascii_space is_digit is_lower is_upper after_prefix starts_with
    remove_prefix has_char count_char ends_in without_last before_char after_char before_last
    after_last strip rstrip split_words first_word spaces_then then_text lstrip_by rstrip_by
    strip_by push_first split_at drop_empty split_where words is_line_end close_line lines_from
    splitlines join uncommented strip_caddy_comment strip_caddy_comments is_comment_or_empty
    is_closing_brace_line balanced_from has_roughly_balanced_braces is_token_forbidden
    normalize_caddy_token is_label_forbidden normalize_site_label normalize_block_body
    normalize_inline_directive_args contains_full_directive_wrapper validate_block_body blank_step
    line_step chunks_from nonempty split_top_level_directives split_one_line split_lines_of_block
    split_block_header_and_body unwrap_block unwrap_chunks normalize_caddy_directives handler_or
    first_handler extract_site_handler_from_directives is_word any_log directives_have_log_block
    names_security_header any_security_header header_block any_header
    directives_have_security_header_block line_starts is_snippet_start snippet_is_defined
header_missing = refl
