-- ===== src/Caddyfile/Parse/Fuel.antt =====
-- The loop of `parse_caddyfile` over the lines comes to an end.
use caddybuddy.Caddyfile.Parse.{
  block_body, header_of, inner_of, add_block, add_global, is_plain, Runtime, drop_lines,
  parse_lines,
}
use caddybuddy.Text.{Text}
use caddybuddy.Prelude.{
  ℕ, zero, suc, ◌≤◌, ◌≡◌, refl, sym, ap, ◌∙◌, inl, inr, true, false, List, [], ◌∷◌, arith,
  Bool-cases, length,
}

drop_lines-length : (inner lines : List Text) → length (drop_lines inner lines) ≤ length lines
drop_lines-length [] lines = omega arith
drop_lines-length (x ∷ xs) [] = omega arith
drop_lines-length (x ∷ xs) (l ∷ lines) = ground (arith, drop_lines-length xs lines)

pub parse_lines-plain :
    (rt : Runtime) (fuel : ℕ) (line : Text) (lines : List Text)
    → is_plain line ≡ true
    → parse_lines rt (suc fuel) (line ∷ lines) ≡ add_global line (parse_lines rt fuel lines)
unfolding parse_lines
parse_lines-plain rt fuel line lines h = rw (parse_lines, h) refl

pub parse_lines-block :
    (rt : Runtime) (fuel : ℕ) (line : Text) (lines : List Text)
    → is_plain line ≡ false
    → parse_lines rt (suc fuel) (line ∷ lines)
      ≡ add_block rt
          (header_of line)
          (line ∷ inner_of line lines)
          (block_body line (inner_of line lines))
          (parse_lines rt fuel (drop_lines (inner_of line lines) lines))
unfolding parse_lines
parse_lines-block rt fuel line lines h = rw (parse_lines, h) refl

-- Fuel for every line is enough: with more fuel the result is the same.
pub parse_lines-enough :
    (rt : Runtime) (fuel more : ℕ) (lines : List Text)
    → length lines ≤ fuel
    → length lines ≤ more
    → parse_lines rt fuel lines ≡ parse_lines rt more lines
unfolding parse_lines
parse_lines-enough rt zero zero [] h k = refl
parse_lines-enough rt zero (suc more) [] h k = refl
parse_lines-enough rt (suc fuel) zero [] h k = refl
parse_lines-enough rt (suc fuel) (suc more) [] h k = refl
parse_lines-enough rt zero more (line ∷ lines) h k = ground (arith, h)
parse_lines-enough rt (suc fuel) zero (line ∷ lines) h k = ground (arith, k)
parse_lines-enough rt (suc fuel) (suc more) (line ∷ lines) h k = elim (Bool-cases (is_plain line)) [
  | inl plain ↦
      parse_lines-plain rt fuel line lines plain
      ∙ ap (add_global line)
          (parse_lines-enough rt fuel more lines (ground (arith, h)) (ground (arith, k)))
      ∙ sym (parse_lines-plain rt more line lines plain)
  | inr block ↦
      let inner = inner_of line lines in
      let shorter = drop_lines-length inner lines in
      parse_lines-block rt fuel line lines block
      ∙ ap (add_block rt (header_of line) (line ∷ inner) (block_body line inner)) (
          parse_lines-enough rt fuel more (drop_lines inner lines) (ground (arith, h, shorter))
            (ground (arith, k, shorter)))
      ∙ sym (parse_lines-block rt more line lines block)
]
