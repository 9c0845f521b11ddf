-- ===== src/Caddyfile/Parse.antt =====
-- `parse_caddyfile`: the global part, the snippets and the sites of a Caddyfile.
pub mod Fuel
pub mod Read
pub mod Site
pub mod RoundTrip
pub mod Plain
pub mod Named
pub mod Generated
use caddybuddy.Text.{Text, text, is_space, is_ascii_space, is_digit, is_lower, is_upper, member}
use caddybuddy.Text.Search.{
  strip, starts_with, after_prefix, has_char, count_char, before_char, after_char, first_word,
}
use caddybuddy.Text.Strip.{lstrip_by, rstrip_by, strip_by}
use caddybuddy.Text.Split.{split_at}
use caddybuddy.Text.Lines.{join, splitlines}
use caddybuddy.Domains.Shape.{Runtime}
use caddybuddy.Caddyfile.Lexical.{newline}
use caddybuddy.Caddyfile.Split.{all_but_last, caddy_directive_keywords, is_comma, word_or_empty}
use caddybuddy.Prelude.{
  ℕ, zero, suc, ◌+◌, ◌-◌, ◌*◌, ◌/◌, ◌%◌, ◌^◌, ◌≤◌, ◌<◌, String, ◌≡◌, refl, sym, ap, ◌∙◌, subst, ◌≢◌,
  ◌↔◌, ◌⊎◌, inl, inr, Bool, true, false, not, ◌&&◌, ◌||◌, false≢true, Option, none, some, List, [],
  ◌∷◌, ◌++◌, map, reverse, arith, ltb, leb, ◌==◌, if◌then◌else◌, ltb→lt, lt→ltb, leb→le, ==_iff,
  Bool-cases, Option-cases, and-eq-true, length, is_nil, All, length-append, all, any, all-append,
  All-append, All-all,
}

unfoldable pub is_global_block_header : Text → Bool
unfolding strip
is_global_block_header header = is_nil (strip header)

-- `[a-zA-Z0-9_-]`
unfoldable pub is_name_char : ℕ → Bool
unfolding is_lower is_upper is_digit
is_name_char c = is_lower c || is_upper c || is_digit c || c == b'_' || c == b'-'

-- `\s*\{?\s*$`
unfoldable pub is_snippet_end : Text → Bool
unfolding lstrip_by is_space
is_snippet_end s = elim (lstrip_by is_space s) [
  | [] ↦ true
  | (c ∷ rest) ↦ c == b'{' && is_nil (lstrip_by is_space rest)
]

-- After `(`: one name character or more, `)`, and the end; the flag says that one has come.
unfoldable pub is_snippet_name : Bool → Text → Bool
unfolding is_name_char is_snippet_end
is_snippet_name some_char [] = false
is_snippet_name some_char (c ∷ s) =
    let rest = is_snippet_name true s in
    if is_name_char c then rest else some_char && c == b')' && is_snippet_end s

abbrev pub opens_name : Option Text → Bool
opens_name none = false
opens_name (some s) = is_snippet_name false s

unfoldable pub is_snippet_header : Text → Bool
unfolding is_snippet_name after_prefix strip
is_snippet_header header = opens_name (after_prefix (text "(") (strip header))

-- Letters under `re.ASCII | re.IGNORECASE`.
unfoldable pub is_letter : ℕ → Bool
unfolding is_lower is_upper
is_letter c = is_lower c || is_upper c

unfoldable pub is_letter_or_digit : ℕ → Bool
unfolding is_letter is_digit
is_letter_or_digit c = is_letter c || is_digit c

-- `(?:[a-z0-9-]*[a-z0-9])?` after the first character
unfoldable pub is_name_tail : Text → Bool
unfolding is_letter_or_digit
is_name_tail [] = true
is_name_tail (c ∷ []) = is_letter_or_digit c
is_name_tail (c ∷ d ∷ s) = (is_letter_or_digit c || c == b'-') && is_name_tail (d ∷ s)

unfoldable pub is_host_label : Text → Bool
unfolding is_letter_or_digit is_name_tail
is_host_label [] = false
is_host_label (c ∷ s) = is_letter_or_digit c && is_name_tail s

-- `(?:label\.)+[a-z]{2,63}` by the parts between the dots
unfoldable pub are_host_labels : List Text → Bool
unfolding is_host_label is_letter all
are_host_labels [] = false
are_host_labels (l ∷ []) = false
are_host_labels (l ∷ t ∷ []) =
    is_host_label l && all is_letter t && leb 2 (length t) && leb (length t) 63
are_host_labels (l ∷ m ∷ t ∷ r) = is_host_label l && are_host_labels (m ∷ t ∷ r)

-- The host, and `(?::\d+)?`.
unfoldable pub is_host : List Text → Bool
unfolding are_host_labels split_at is_digit all
is_host (host ∷ []) = are_host_labels (split_at b'.' host)
is_host (host ∷ port ∷ []) =
    are_host_labels (split_at b'.' host) && not (is_nil port) && all is_digit port
is_host _ = false

-- ASCII letters in lower case, as the pattern compares them.
unfoldable pub fold : ℕ → ℕ
unfolding is_upper
fold c = if is_upper c then c + 32 else c

-- The text after a literal, which is compared without regard to case.
unfoldable pub after_folded : Text → Text → Option Text
unfolding fold
after_folded [] s = some s
after_folded (p ∷ ps) [] = none
after_folded (p ∷ ps) (c ∷ s) = if p == fold c then after_folded ps s else none

abbrev pub or_all : Text → Option Text → Text
or_all s none = s
or_all s (some r) = r

unfoldable pub without_scheme : Text → Text
unfolding after_folded
without_scheme s =
    or_all (or_all s (after_folded (text "http://") s)) (after_folded (text "https://") s)

unfoldable pub is_site_name : Text → Bool
unfolding without_scheme after_folded is_host split_at
is_site_name s =
    let rest = without_scheme s in
    is_host (split_at b':' (or_all rest (after_folded (text "*.") rest)))

-- White space is allowed around the commas and at the end, not in front.
unfoldable pub are_site_names : List Text → Bool
unfolding is_site_name rstrip_by strip_by is_ascii_space all
are_site_names [] = false
are_site_names (part ∷ parts) =
    is_site_name (rstrip_by is_ascii_space part)
    && all (λ p. is_site_name (strip_by is_ascii_space p)) parts

unfoldable pub is_site_label : Runtime → Text → Bool
unfolding strip rstrip_by starts_with first_word member are_site_names split_at
is_site_label rt header =
    let cleaned = rstrip_by is_comma (strip header) in
    let first_token = rstrip_by is_comma (rt.lower (word_or_empty (first_word cleaned))) in
    if is_nil cleaned
    then false
    else if starts_with (text "@") cleaned || starts_with (text "/") cleaned
    then false
    else if member first_token caddy_directive_keywords
    then false
    else are_site_names (split_at b',' cleaned)

unfoldable pub extract_domain : Text → Text
unfolding strip after_prefix before_char
extract_domain raw =
    let part = strip raw in
    before_char b':' (elim (after_prefix (text "http://") part) [
      | some r ↦ r
      | none ↦ or_all part (after_prefix (text "https://") part)
    ])

unfoldable pub domains_of_parts : Runtime → List Text → List Text
unfolding extract_domain
domains_of_parts rt [] = []
domains_of_parts rt (raw ∷ parts) =
    let domain = extract_domain raw in
    let rest = domains_of_parts rt parts in if is_nil domain then rest else rt.lower domain ∷ rest

unfoldable pub extract_domain_from_label : Runtime → Text → Text
unfolding domains_of_parts split_at join
extract_domain_from_label rt label = join (text ", ") (domains_of_parts rt (split_at b',' label))

pub record ParsedCaddyfile : Type 0 where
  pub global_parts : List Text
  pub snippets : List Text
  pub sites : List (Text × Text)

abbrev pub empty_file : ParsedCaddyfile
empty_file = record { global_parts = []; snippets = []; sites = [] }

abbrev pub add_global : Text → ParsedCaddyfile → ParsedCaddyfile
add_global part f = record f { global_parts = part ∷ f.global_parts }

-- What the kind of header does with a block.
unfoldable pub add_block : Runtime → Text → List Text → Text → ParsedCaddyfile → ParsedCaddyfile
unfolding is_global_block_header is_snippet_header is_site_label extract_domain_from_label join
add_block rt header block_lines body f =
    let whole = join newline block_lines in
    if is_global_block_header header
    then add_global whole f
    else if is_snippet_header header
    then record (add_global whole f) { snippets = whole ∷ f.snippets }
    else if is_site_label rt header
    then record f { sites = (extract_domain_from_label rt header, body) ∷ f.sites }
    else add_global whole f

-- `depth` after a line: the opening and the closing braces so far, an integer as a difference.
pub record Depth : Type 0 where
  pub opened : ℕ
  pub closed : ℕ

abbrev pub read_braces : Text → Depth → Depth
read_braces line d = record {
  opened = d.opened + count_char b'{' line;
  closed = d.closed + count_char b'}' line;
}

abbrev pub is_open : Depth → Bool
is_open d = ltb d.closed d.opened

-- The lines that the inner loop reads: while there are lines and the depth is above zero.
unfoldable pub inner_lines : Depth → List Text → List Text
unfolding count_char
inner_lines d [] = []
inner_lines d (line ∷ lines) =
    let rest = inner_lines (read_braces line d) lines in if is_open d then line ∷ rest else []

-- `block_lines[1:-1]` if there are more than two.
abbrev pub inner_body : List Text → List Text
inner_body [] = []
inner_body (l ∷ []) = []
inner_body (l ∷ m ∷ []) = []
inner_body (l ∷ m ∷ n ∷ ls) = all_but_last (m ∷ n ∷ ls)

abbrev pub is_closing_brace : ℕ → Bool
is_closing_brace c = c == b'}'

abbrev pub no_depth : Depth
no_depth = record { opened = 0; closed = 0 }

-- A line with an opening brace, and the lines after it that belong to its block.
unfoldable pub block_body : Text → List Text → Text
unfolding strip after_char rstrip_by join has_char count_char
block_body line inner =
    let stripped = strip line in
    let d = read_braces stripped no_depth in
    if d.opened == d.closed && has_char b'}' stripped
    then strip (rstrip_by is_closing_brace (strip (after_char b'{' stripped)))
    else strip (join newline (inner_body (line ∷ inner)))

unfoldable pub header_of : Text → Text
unfolding strip before_char
header_of line = strip (before_char b'{' (strip line))

-- The lines that follow the block's first line in it.
unfoldable pub inner_of : Text → List Text → List Text
unfolding inner_lines strip count_char
inner_of line lines = inner_lines (read_braces (strip line) no_depth) lines

abbrev pub drop_lines : List Text → List Text → List Text
drop_lines [] lines = lines
drop_lines (x ∷ xs) [] = []
drop_lines (x ∷ xs) (l ∷ lines) = drop_lines xs lines

-- A line without a block: empty, a comment, or without an opening brace.
unfoldable pub is_plain : Text → Bool
unfolding strip starts_with has_char
is_plain line =
    let stripped = strip line in
    is_nil stripped || starts_with (text "#") stripped || not (has_char b'{' stripped)

-- The loop over the lines; a block is followed by the lines after it, and the fuel is their number.
unfoldable pub parse_lines : Runtime → ℕ → List Text → ParsedCaddyfile
unfolding is_plain add_block block_body header_of inner_of
parse_lines rt fuel [] = empty_file
parse_lines rt zero (line ∷ lines) = empty_file
parse_lines rt (suc fuel) (line ∷ lines) =
    let inner = inner_of line lines in
    elim (is_plain line) [
      | true ↦ add_global line (parse_lines rt fuel lines)
      | false ↦
          add_block rt (header_of line) (line ∷ inner) (block_body line inner)
            (parse_lines rt fuel (drop_lines inner lines))
    ]

unfoldable pub parse_caddyfile : Runtime → Text → ParsedCaddyfile
unfolding parse_lines splitlines
parse_caddyfile rt content = let lines = splitlines content in parse_lines rt (length lines) lines

-- `global_block`
unfoldable pub global_block : ParsedCaddyfile → Text
unfolding strip join
global_block f = strip (join newline f.global_parts)
