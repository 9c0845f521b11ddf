-- ===== src/Caddyfile/Queries.antt =====
-- What directives hold: the handler of a site, a log block, a block with security headers.
use caddybuddy.Text.{Text, text, member, text_eq}
use caddybuddy.Text.Search.{strip, starts_with, remove_prefix, first_word, spaces_then, then_text}
use caddybuddy.Text.Strip.{lstrip_by}
use caddybuddy.Text.Lines.{splitlines}
use caddybuddy.Domains.Shape.{Runtime}
use caddybuddy.Caddyfile.Lexical.{strip_caddy_comments}
use caddybuddy.Caddyfile.Split.{split_top_level_directives, split_block_header_and_body}
use caddybuddy.Prelude.{
  ℕ, Bool, true, false, ◌||◌, Option, none, some, List, [], ◌∷◌, ◌==◌, if◌then◌else◌, any,
}

-- `split(maxsplit=1)[0]` of a text without words raises `IndexError`, which nothing catches.
pub data Answer {ℓ} (A : Type ℓ) : Type ℓ where
  answer : A → Answer A
  index_error : Answer A

abbrev pub site_handler_directives : List Text
site_handler_directives =
    text "file_server"
    ∷ text "handle"
    ∷ text "handle_path"
    ∷ text "php_fastcgi"
    ∷ text "redir"
    ∷ text "respond"
    ∷ text "reverse_proxy"
    ∷ []

-- One chunk, by its first word, and the rest of the loop.
unfoldable pub handler_or : Option Text → Answer (Option Text) → Answer (Option Text)
unfolding member
handler_or none later = index_error
handler_or (some directive) later =
    if member directive site_handler_directives then answer (some directive) else later

unfoldable pub first_handler : List Text → Answer (Option Text)
unfolding handler_or split_block_header_and_body first_word
first_handler [] = answer none
first_handler (chunk ∷ chunks) =
    handler_or (first_word (split_block_header_and_body chunk).0) (first_handler chunks)

abbrev pub on_chunks {ℓ} : {A : Type ℓ} → (List Text → Answer A) → A → Option (List Text) → Answer A
on_chunks f default none = answer default
on_chunks f default (some chunks) = f chunks

unfoldable pub extract_site_handler_from_directives : Option Text → Answer (Option Text)
unfolding first_handler split_top_level_directives
extract_site_handler_from_directives none = answer none
extract_site_handler_from_directives (some []) = answer none
extract_site_handler_from_directives (some (c ∷ s)) =
    on_chunks first_handler none (split_top_level_directives (c ∷ s))

module _ (rt : Runtime) where
  unfoldable pub is_word : Text → Option Text → Answer Bool
  unfolding text_eq
  is_word name none = index_error
  is_word name (some w) = answer (text_eq (rt.lower w) name)

  abbrev pub true_or : Answer Bool → Answer Bool → Answer Bool
  true_or index_error later = index_error
  true_or (answer true) later = answer true
  true_or (answer false) later = later

  unfoldable pub any_log : List Text → Answer Bool
  unfolding is_word split_block_header_and_body first_word
  any_log [] = answer false
  any_log (chunk ∷ chunks) =
      let header = (split_block_header_and_body chunk).0 in
      true_or (is_word (text "log") (first_word header)) (any_log chunks)

  unfoldable pub directives_have_log_block : Option Text → Answer Bool
  unfolding any_log split_top_level_directives strip_caddy_comments
  directives_have_log_block none = answer false
  directives_have_log_block (some []) = answer false
  directives_have_log_block (some (c ∷ s)) =
      on_chunks any_log false (split_top_level_directives (strip_caddy_comments (c ∷ s)))

  -- `_SECURITY_HEADER_NAMES`
  abbrev pub security_header_names : List Text
  security_header_names =
      text "content-security-policy"
      ∷ text "permissions-policy"
      ∷ text "referrer-policy"
      ∷ text "server"
      ∷ text "strict-transport-security"
      ∷ text "x-content-type-options"
      ∷ text "x-frame-options"
      ∷ text "x-permitted-cross-domain-policies"
      ∷ text "x-powered-by"
      ∷ []

  abbrev pub is_operator : ℕ → Bool
  is_operator c = c == b'+' || c == b'-' || c == b'?'

  -- The field that a line sets, adds or removes.
  unfoldable pub names_security_header : Text → Answer Bool
  unfolding strip lstrip_by first_word member
  names_security_header line = elim (first_word (lstrip_by is_operator (strip line))) [
    | none ↦ index_error
    | some token ↦ answer (member (rt.lower token) security_header_names)
  ]

  unfoldable pub any_security_header : List Text → Answer Bool
  unfolding names_security_header
  any_security_header [] = answer false
  any_security_header (line ∷ lines) =
      true_or (names_security_header line) (any_security_header lines)

  -- One directive `header`: on one line, without arguments, or with a block.
  unfoldable pub header_block : Text × Option Text → Answer Bool
  unfolding names_security_header any_security_header starts_with remove_prefix splitlines
  header_block (header, some body) = any_security_header (splitlines body)
  header_block (header, none) =
      if starts_with (text "header ") header
      then names_security_header (remove_prefix (text "header ") header)
      else answer false

  abbrev pub header_chunk : Text × Option Text → Answer Bool → Answer Bool
  header_chunk parts index_error = index_error
  header_chunk parts (answer false) = answer false
  header_chunk parts (answer true) = header_block parts

  unfoldable pub any_header : List Text → Answer Bool
  unfolding header_block is_word split_block_header_and_body first_word
  any_header [] = answer false
  any_header (chunk ∷ chunks) =
      let parts = split_block_header_and_body chunk in
      true_or (header_chunk parts (is_word (text "header") (first_word parts.0)))
        (any_header chunks)

  unfoldable pub directives_have_security_header_block : Option Text → Answer Bool
  unfolding any_header split_top_level_directives strip_caddy_comments
  directives_have_security_header_block none = answer false
  directives_have_security_header_block (some []) = answer false
  directives_have_security_header_block (some (c ∷ s)) =
      on_chunks any_header false (split_top_level_directives (strip_caddy_comments (c ∷ s)))

-- The places where `^` matches under `re.MULTILINE`: the start, and after each line feed.
unfoldable pub line_starts : Text → List Text
line_starts [] = []
line_starts (c ∷ s) = let rest = line_starts s in if c == 10 then s ∷ rest else rest

-- `^\s*\(\s*name\s*\)\s*\{` at a start of a line
unfoldable pub is_snippet_start : Text → Text → Bool
unfolding spaces_then then_text starts_with
is_snippet_start name = spaces_then (
    then_text (text "(") (
      spaces_then (
        then_text name
          (spaces_then (then_text (text ")") (spaces_then (starts_with (text "{"))))))))

unfoldable pub snippet_is_defined : Text → Text → Bool
unfolding is_snippet_start line_starts any
snippet_is_defined content name = any (is_snippet_start name) (content ∷ line_starts content)
