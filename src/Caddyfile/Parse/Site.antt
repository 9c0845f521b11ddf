-- ===== src/Caddyfile/Parse/Site.antt =====
-- The block of a site, written and read.
use caddybuddy.Caddyfile.Parse.Fuel.{parse_lines-block}
use caddybuddy.Caddyfile.Parse.{
  is_global_block_header, extract_domain_from_label, inner_lines, inner_of, is_site_label,
  is_snippet_header, parse_lines, Runtime, after_char, all_but_last, add_block, block_body,
  drop_lines, inner_body, is_closing_brace, no_depth, is_space, read_braces, text, Text,
  after_prefix, header_of, is_plain, Depth, ParsedCaddyfile,
}
use caddybuddy.Caddyfile.Parse.Read.{inner_lines-block, closing_line}
use caddybuddy.Caddyfile.Lexical.{newline, has_roughly_balanced_braces}
use caddybuddy.Text.Ends.{
  count_char-none, count_char-append, lstrip_by-solid, has_char-append, has_char-append_space,
  rstrip_by-drops, rstrip_by-solid, before_char-append,
}
use caddybuddy.Text.Search.{count_char, has_char, starts_with, before_char, strip, after_prefix}
use caddybuddy.Text.Strip.{rstrip_by, lstrip_by, strip_by}
use caddybuddy.Text.Lines.{join}
use mathlib.Core.List.{append_assoc}
use caddybuddy.Prelude.{
  ℕ, suc, ◌+◌, ◌≡◌, refl, sym, ap, ◌∙◌, Bool, true, false, not, ◌&&◌, ◌||◌, List, [], ◌∷◌, ◌++◌,
  arith, ◌==◌, if◌then◌else◌, is_nil,
}

-- A header that can stand in front of ` {`.
pub record IsHeader (c : ℕ) (s : Text) : Type 0 where
  pub ink : is_space c ≡ false
  pub trimmed : rstrip_by is_space (c ∷ s) ≡ c ∷ s
  pub no_comment : (b'#' == c) ≡ false
  pub no_opening : has_char b'{' (c ∷ s) ≡ false
  pub no_closing : has_char b'}' (c ∷ s) ≡ false

abbrev pub opening_line : Text → Text
opening_line label = label ++ text " {"

opening_line-eq : (label : Text) → opening_line label ≡ (label ++ text " ") ++ text "{"
opening_line-eq label = sym (append_assoc label (text " ") (text "{"))

strip-opening_line :
    (c : ℕ) (s : Text) → IsHeader c s → strip (opening_line (c ∷ s)) ≡ opening_line (c ∷ s)
unfolding strip strip_by
strip-opening_line c s h =
    ap (λ t. lstrip_by is_space (rstrip_by is_space t)) (opening_line-eq (c ∷ s))
    ∙ ap (lstrip_by is_space) (rstrip_by-solid is_space ((c ∷ s) ++ text " ") b'{' refl)
    ∙ lstrip_by-solid is_space c ((s ++ text " ") ++ text "{") h.ink
    ∙ sym (opening_line-eq (c ∷ s))

strip-label : (c : ℕ) (s : Text) → IsHeader c s → strip ((c ∷ s) ++ text " ") ≡ c ∷ s
unfolding strip strip_by
strip-label c s h =
    ap (lstrip_by is_space) (rstrip_by-drops is_space (c ∷ s) 32 refl ∙ h.trimmed)
    ∙ lstrip_by-solid is_space c s h.ink

header_of-opening_line :
    (c : ℕ) (s : Text) → IsHeader c s → header_of (opening_line (c ∷ s)) ≡ c ∷ s
unfolding header_of
header_of-opening_line c s h =
    ap (λ t. strip (before_char b'{' t)) (strip-opening_line c s h ∙ opening_line-eq (c ∷ s))
    ∙ ap strip (
        before_char-append b'{' ((c ∷ s) ++ text " ") []
          (has_char-append_space b'{' (c ∷ s) h.no_opening refl))
    ∙ strip-label c s h

starts_with-comment :
    (c : ℕ) (s : Text) → (b'#' == c) ≡ false → starts_with (text "#") (c ∷ s) ≡ false
unfolding starts_with after_prefix
starts_with-comment c s h = rw (starts_with, after_prefix, h) refl

plain_text : Text → Bool
plain_text t = is_nil t || starts_with (text "#") t || not (has_char b'{' t)

is_plain-opening_line : (c : ℕ) (s : Text) → IsHeader c s → is_plain (opening_line (c ∷ s)) ≡ false
unfolding is_plain
is_plain-opening_line c s h =
    ap (λ t. is_nil t || starts_with (text "#") t || not (has_char b'{' t))
      (strip-opening_line c s h)
    ∙ ap2_or (starts_with-comment c (s ++ text " {") h.no_comment) (
        ap (has_char b'{') (opening_line-eq (c ∷ s))
        ∙ has_char-append b'{' ((c ∷ s) ++ text " ") [])
  where
    ap2_or : {a b : Bool} → a ≡ false → b ≡ true → (a || not b) ≡ false
    ap2_or x y = ground (arith, x, y)

count_char-opening_line :
    (x c : ℕ) (s : Text)
    → IsHeader c s
    → has_char x (c ∷ s) ≡ false
    → count_char x (strip (opening_line (c ∷ s))) ≡ count_char x (text " {")
count_char-opening_line x c s h free =
    ap (count_char x) (strip-opening_line c s h)
    ∙ count_char-append x (c ∷ s) (text " {")
    ∙ ap (λ n. n + count_char x (text " {")) (count_char-none x (c ∷ s) free)
    ∙ plus_zero (count_char x (text " {"))
  where
    plus_zero : (n : ℕ) → 0 + n ≡ n
    plus_zero n = omega arith

abbrev depth_of : ℕ → ℕ → Depth
depth_of o p = record { opened = o; closed = p }

abbrev depth_one : Depth
depth_one = depth_of 1 0

depth-eq : (o p : ℕ) → o ≡ 1 → p ≡ 0 → depth_of (0 + o) (0 + p) ≡ depth_one
depth-eq o p h k = rw (h, k) refl

read_braces-opening_line :
    (c : ℕ) (s : Text)
    → IsHeader c s
    → read_braces (strip (opening_line (c ∷ s))) no_depth ≡ depth_one
unfolding count_char
read_braces-opening_line c s h =
    depth-eq (count_char b'{' (strip (opening_line (c ∷ s))))
      (count_char b'}' (strip (opening_line (c ∷ s))))
      (count_char-opening_line b'{' c s h h.no_opening)
      (count_char-opening_line b'}' c s h h.no_closing)

abbrev body_at : Depth → Text → List Text → Text
body_at d stripped lines =
    if d.opened == d.closed && has_char b'}' stripped
    then strip (rstrip_by is_closing_brace (strip (after_char b'{' stripped)))
    else strip (join newline (inner_body lines))

block_body-open :
    (line : Text) (inner : List Text)
    → read_braces (strip line) no_depth ≡ depth_one
    → block_body line inner ≡ strip (join newline (inner_body (line ∷ inner)))
unfolding block_body
block_body-open line inner h = ap (λ d. body_at d (strip line) (line ∷ inner)) h

inner_body-block :
    (line l : Text) (ls : List Text) → inner_body (line ∷ (l ∷ ls) ++ closing_line ∷ []) ≡ l ∷ ls
inner_body-block line l [] = refl
inner_body-block line l (m ∷ ls) = ap (λ t. l ∷ t) (all_but_last-append m ls)
  where
    all_but_last-append :
        (n : Text) (ns : List Text) → all_but_last ((n ∷ ns) ++ closing_line ∷ []) ≡ n ∷ ns
    all_but_last-append n [] = refl
    all_but_last-append n (o ∷ ns) = ap (λ t. n ∷ t) (all_but_last-append o ns)

drop_lines-append : (xs ys : List Text) → drop_lines xs (xs ++ ys) ≡ ys
drop_lines-append [] ys = refl
drop_lines-append (x ∷ xs) ys = drop_lines-append xs ys

-- A written block is read as the header, the lines and the body.
pub parse_lines-written :
    (rt : Runtime) (fuel c : ℕ) (s l : Text) (ls rest : List Text)
    → IsHeader c s
    → has_roughly_balanced_braces (join newline (l ∷ ls)) ≡ true
    → parse_lines rt (suc fuel) (opening_line (c ∷ s) ∷ (l ∷ ls) ++ closing_line ∷ rest)
      ≡ add_block rt
          (c ∷ s)
          (opening_line (c ∷ s) ∷ (l ∷ ls) ++ closing_line ∷ [])
          (strip (join newline (l ∷ ls)))
          (parse_lines rt fuel rest)
unfolding has_roughly_balanced_braces inner_of
parse_lines-written rt fuel c s l ls rest h balanced =
    let line = opening_line (c ∷ s) in
    let lines = (l ∷ ls) ++ closing_line ∷ rest in
    let block = (l ∷ ls) ++ closing_line ∷ [] in
    let depth = read_braces-opening_line c s h in
    let inner : inner_of line lines ≡ block =
      ap (λ d. inner_lines d lines) depth ∙ inner_lines-block depth_one 0 l ls rest refl balanced in
    let dropped : drop_lines block lines ≡ rest =
      ap (drop_lines block) (sym (append_assoc (l ∷ ls) (closing_line ∷ []) rest))
      ∙ drop_lines-append block rest in
    parse_lines-block rt fuel line lines (is_plain-opening_line c s h)
    ∙ ap
        (λ b.
          add_block rt (header_of line) (line ∷ b) (block_body line b)
            (parse_lines rt fuel (drop_lines b lines)))
        inner
    ∙ ap
        (λ x.
          add_block rt x (line ∷ block) (block_body line block)
            (parse_lines rt fuel (drop_lines block lines)))
        (header_of-opening_line c s h)
    ∙ ap (λ x. add_block rt (c ∷ s) (line ∷ block) (block_body line block) (parse_lines rt fuel x))
        dropped
    ∙ ap (λ x. add_block rt (c ∷ s) (line ∷ block) x (parse_lines rt fuel rest))
        (block_body-open line block depth
          ∙ ap (λ b. strip (join newline b)) (inner_body-block line l ls))

strip-header : (c : ℕ) (s : Text) → IsHeader c s → strip (c ∷ s) ≡ c ∷ s
unfolding strip strip_by
strip-header c s h = ap (lstrip_by is_space) h.trimmed ∙ lstrip_by-solid is_space c s h.ink

not_global : (c : ℕ) (s : Text) → IsHeader c s → is_global_block_header (c ∷ s) ≡ false
unfolding is_global_block_header
not_global c s h = ap is_nil (strip-header c s h)

pub add_block-site :
    (rt : Runtime) (c : ℕ) (s : Text) (lines : List Text) (body : Text) (f : ParsedCaddyfile)
    → IsHeader c s
    → is_snippet_header (c ∷ s) ≡ false
    → is_site_label rt (c ∷ s) ≡ true
    → add_block rt (c ∷ s) lines body f
      ≡ record f { sites = (extract_domain_from_label rt (c ∷ s), body) ∷ f.sites }
unfolding add_block
add_block-site rt c s lines body f h no_snippet site =
    rw (add_block, not_global c s h, no_snippet, site) refl
