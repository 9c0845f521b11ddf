-- ===== src/Caddyfile/Split.antt =====
-- The split into top-level directives, and of a directive into its header and its body.
pub mod Kept
use caddybuddy.Text.{Text, text, member}
use mathlib.Core.Option
use caddybuddy.Text.Search.{
  strip, rstrip, has_char, count_char, ends_in, without_last, before_char, after_char, before_last,
  after_last, first_word,
}
use caddybuddy.Text.Strip.{rstrip_by}
use caddybuddy.Text.Lines.{join, splitlines}
use caddybuddy.Caddyfile.Lexical.{
  newline, or_none, is_comment_or_empty, is_closing_brace_line, normalize_block_body,
}
use caddybuddy.Prelude.{
  ℕ, zero, suc, ◌+◌, ◌-◌, Bool, not, ◌&&◌, Option, none, some, List, [], ◌∷◌, ◌++◌, map, ltb, ◌==◌,
  if◌then◌else◌, is_nil,
}

-- What the loop does with a line, by the current lines and the depth.
pub data LineStep : Type 0 where
  ignored padded finished unmatched : LineStep
  grown : ℕ → LineStep
  completed : LineStep

unfoldable pub blank_step : List Text → ℕ → LineStep
blank_step [] zero = ignored
blank_step (l ∷ ls) zero = finished
blank_step current (suc depth) = padded

-- `depth` after the line, and whether it completes a directive.
unfoldable pub line_step : List Text → ℕ → Text → LineStep
unfolding strip count_char ends_in blank_step
line_step current depth raw_line =
    let stripped = strip raw_line in
    let opened = depth + count_char b'{' stripped in
    let closed = count_char b'}' stripped in
    if is_nil stripped
    then blank_step current depth
    else if ltb opened closed
    then unmatched
    else if opened == closed && not (ends_in b'{' stripped)
    then completed
    else grown (opened - closed)

abbrev pub chunk_of : List Text → Text
chunk_of lines = strip (join newline lines)

-- The rest of the loop, which adds to `chunks`; `none` where it raises `ValueError`.
unfoldable pub chunks_from : List Text → ℕ → List Text → Option (List Text)
unfolding line_step strip rstrip join
chunks_from [] depth [] = some []
chunks_from (l ∷ ls) depth [] = some (chunk_of (l ∷ ls) ∷ [])
chunks_from current depth (raw ∷ lines) = elim (line_step current depth raw) [
  | ignored ↦ chunks_from current depth lines
  | padded ↦ chunks_from (current ++ [] ∷ []) depth lines
  | finished ↦ Option.map (λ chunks. chunk_of current ∷ chunks) (chunks_from [] depth lines)
  | unmatched ↦ none
  | grown deeper ↦ chunks_from (current ++ rstrip raw ∷ []) deeper lines
  | completed ↦
      Option.map (λ chunks. chunk_of (current ++ rstrip raw ∷ []) ∷ chunks) (chunks_from [] 0 lines)
]

-- `[chunk for chunk in chunks if chunk]`
unfoldable pub nonempty : List Text → List Text
nonempty [] = []
nonempty ([] ∷ chunks) = nonempty chunks
nonempty ((c ∷ s) ∷ chunks) = (c ∷ s) ∷ nonempty chunks

unfoldable pub split_top_level_directives : Text → Option (List Text)
unfolding chunks_from splitlines nonempty
split_top_level_directives directives =
    Option.map nonempty (chunks_from [] 0 (splitlines directives))

-- The last line, and the lines without it.
abbrev pub last_line : Text → List Text → Text
last_line l [] = l
last_line l (m ∷ ls) = last_line m ls

abbrev pub all_but_last : List Text → List Text
all_but_last [] = []
all_but_last (l ∷ []) = []
all_but_last (l ∷ m ∷ ls) = l ∷ all_but_last (m ∷ ls)

-- A directive on one line.
unfoldable pub split_one_line : Text → Text × Option Text
unfolding has_char before_char after_char before_last after_last is_comment_or_empty strip
split_one_line first_line =
    let remainder = after_char b'{' first_line in
    if has_char b'{' first_line
      && has_char b'}' first_line
      && is_comment_or_empty (after_last b'}' remainder)
    then (
      strip (before_char b'{' first_line),
      some (normalize_block_body (before_last b'}' remainder)),
    )
    else (first_line, none)

-- The header, and the body if there is one.
unfoldable pub split_lines_of_block : List Text → Text × Option Text
unfolding split_one_line ends_in is_closing_brace_line without_last rstrip strip join
split_lines_of_block [] = ([], none)
split_lines_of_block (l ∷ []) = split_one_line (strip l)
split_lines_of_block (l ∷ m ∷ ls) =
    let first_line = strip l in
    if ends_in b'{' first_line && is_closing_brace_line (last_line m ls)
    then (
      rstrip (without_last first_line),
      some (normalize_block_body (join newline (all_but_last (m ∷ ls)))),
    )
    else (first_line, some (normalize_block_body (join newline (m ∷ ls))))

unfoldable pub split_block_header_and_body : Text → Text × Option Text
unfolding split_lines_of_block splitlines strip rstrip
split_block_header_and_body chunk = split_lines_of_block (map rstrip (splitlines (strip chunk)))

-- `_CADDY_DIRECTIVE_KEYWORDS`
abbrev pub caddy_directive_keywords : List Text
caddy_directive_keywords =
    text "abort"
    ∷ text "basic_auth"
    ∷ text "basicauth"
    ∷ text "bind"
    ∷ text "encode"
    ∷ text "error"
    ∷ text "file_server"
    ∷ text "handle"
    ∷ text "handle_errors"
    ∷ text "handle_path"
    ∷ text "header"
    ∷ text "import"
    ∷ text "invoke"
    ∷ text "log"
    ∷ text "map"
    ∷ text "method"
    ∷ text "metrics"
    ∷ text "php_fastcgi"
    ∷ text "redir"
    ∷ text "request_body"
    ∷ text "respond"
    ∷ text "reverse_proxy"
    ∷ text "rewrite"
    ∷ text "root"
    ∷ text "route"
    ∷ text "templates"
    ∷ text "tls"
    ∷ text "try_files"
    ∷ text "uri"
    ∷ text "vars"
    ∷ []

abbrev pub is_comma : ℕ → Bool
is_comma c = c == b','

-- `... if header else ""`
abbrev pub word_or_empty : Option Text → Text
word_or_empty none = []
word_or_empty (some w) = w

-- The end of `normalize_caddy_directives`, on the header and the body of the one directive.
unfoldable pub unwrap_block : Text → Text × Option Text → Option Text
unfolding first_word member strip rstrip_by
unwrap_block normalized (header, none) = some normalized
unwrap_block normalized (header, some body) =
    if member (rstrip_by is_comma (word_or_empty (first_word header))) caddy_directive_keywords
    then some normalized
    else or_none (strip body)

unfoldable pub unwrap_chunks : Text → Option (List Text) → Option Text
unfolding unwrap_block split_block_header_and_body
unwrap_chunks normalized (some (chunk ∷ [])) =
    unwrap_block normalized (split_block_header_and_body chunk)
unwrap_chunks normalized _ = some normalized

unfoldable pub normalize_caddy_directives : Text → Option Text
unfolding unwrap_chunks split_top_level_directives has_char strip
normalize_caddy_directives raw_value =
    let normalized = strip raw_value in
    if is_nil normalized
    then none
    else if not (has_char b'{' normalized)
    then some normalized
    else unwrap_chunks normalized (split_top_level_directives normalized)
