-- ===== src/Caddyfile/Inject.antt =====
-- `inject_global_options`: the Admin endpoint and the contact address in the global options block.
use caddybuddy.Text.{Text, text, text_eq, is_space}
use caddybuddy.Text.Search.{strip, after_prefix, count_char}
use caddybuddy.Text.Strip.{lstrip_by}
use caddybuddy.Text.Lines.{join, splitlines}
use caddybuddy.Caddyfile.Lexical.{newline}
use caddybuddy.Caddyfile.Split.{all_but_last, last_line}
use caddybuddy.Prelude.{
  ℕ, ◌+◌, ◌-◌, Bool, true, false, not, ◌&&◌, ◌||◌, Option, none, some, List, [], ◌∷◌, ◌++◌, ◌==◌,
  if◌then◌else◌, is_nil,
}

abbrev pub option_line : Text → Option Text → List Text
option_line name none = []
option_line name (some []) = []
option_line name (some (c ∷ s)) = (name ++ c ∷ s) ∷ []

-- The list `managed`.
abbrev pub managed_lines : Option Text → Option Text → List Text
managed_lines admin email =
    option_line (text "    admin ") admin ++ option_line (text "    email ") email

-- The lines before the opening one, that line, and the lines after it.
pub record Opening : Type 0 where
  pub before : List Text
  pub open_line : Text
  pub after : List Text

abbrev pub with_line : Text → Opening → Opening
with_line line o = record o { before = line ∷ o.before }

-- The loop that looks for `open_idx`; the depth does not fall below zero.
unfoldable pub find_open : ℕ → List Text → Option Opening
unfolding strip text_eq count_char
find_open depth [] = none
find_open depth (line ∷ lines) =
    let later = find_open (depth + count_char b'{' line - count_char b'}' line) lines in
    if depth == 0 && text_eq (strip line) (text "{")
    then some (record { before = []; open_line = line; after = lines })
    else elim later [ none ↦ none | some o ↦ some (with_line line o) ]

-- The loop that looks for `close_idx`, from the line after the opening one: the lines before it, and
-- it with the lines after it.
unfoldable pub find_close : ℕ → ℕ → List Text → Option (List Text × List Text)
unfolding count_char
find_close opened closed [] = none
find_close opened closed (line ∷ lines) =
    let o = opened + count_char b'{' line in
    let c = closed + count_char b'}' line in
    let later = find_close o c lines in
    if o == c
    then some ([], line ∷ lines)
    else elim later [ none ↦ none | some r ↦ some (line ∷ r.0, r.1) ]

-- Without a closing line, `close_idx` is the last line, which may be the opening one.
unfoldable pub close_at_end : Text → List Text → List Text × List Text
close_at_end open_line [] = ([], open_line ∷ [])
close_at_end open_line (l ∷ ls) = (all_but_last (l ∷ ls), last_line l ls ∷ [])

unfoldable pub block_and_rest : Opening → List Text × List Text
unfolding find_close close_at_end
block_and_rest o = elim (find_close 1 0 o.after) [
  | some r ↦ r
  | none ↦ close_at_end o.open_line o.after
]

-- What follows the word: `\b`, by what the pattern counts as part of a word.
abbrev ends_word : (ℕ → Bool) → Option Text → Bool
ends_word is_word_char none = false
ends_word is_word_char (some []) = true
ends_word is_word_char (some (c ∷ s)) = not (is_word_char c)

-- `_MANAGED_GLOBAL_DIRECTIVE_RE.match`
unfoldable pub is_managed : (ℕ → Bool) → Text → Bool
unfolding lstrip_by is_space after_prefix
is_managed is_word_char line =
    let stripped = lstrip_by is_space line in
    ends_word is_word_char (after_prefix (text "admin") stripped)
    || ends_word is_word_char (after_prefix (text "email") stripped)

-- `[line for line in ... if not ...]`
unfoldable pub unmanaged : (ℕ → Bool) → List Text → List Text
unfolding is_managed
unmanaged w [] = []
unmanaged w (line ∷ lines) =
    let rest = unmanaged w lines in if is_managed w line then rest else line ∷ rest

unfoldable pub injected_lines : (ℕ → Bool) → List Text → Opening → List Text
unfolding block_and_rest unmanaged
injected_lines w managed o =
    let parts = block_and_rest o in
    o.before ++ o.open_line ∷ (managed ++ (unmanaged w parts.0 ++ parts.1))

-- A new block in front of what there is.
unfoldable pub new_block : List Text → Text → Text
unfolding join strip
new_block managed baseline =
    let block = join newline (text "{" ∷ (managed ++ text "}" ∷ [])) in
    let rest = strip baseline in
    if is_nil rest then block else strip (block ++ (newline ++ (newline ++ rest)))

unfoldable pub inject_managed : (ℕ → Bool) → List Text → Text → Text
unfolding find_open injected_lines new_block join strip splitlines
inject_managed w [] baseline = strip baseline
inject_managed w (m ∷ ms) baseline = elim (find_open 0 (splitlines baseline)) [
  | none ↦ new_block (m ∷ ms) baseline
  | some o ↦ strip (join newline (injected_lines w (m ∷ ms) o))
]

unfoldable pub inject_global_options : (ℕ → Bool) → Text → Option Text → Option Text → Text
unfolding inject_managed
inject_global_options w baseline admin email = inject_managed w (managed_lines admin email) baseline
