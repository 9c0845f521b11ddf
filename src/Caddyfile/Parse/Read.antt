-- ===== src/Caddyfile/Parse/Read.antt =====
-- A block with balanced braces is read as one block.
use caddybuddy.Caddyfile.Lexical.{newline, balanced_from}
use caddybuddy.Caddyfile.Parse.{read_braces, is_open, inner_lines, join, text, Text, Depth}
use caddybuddy.Caddyfile.Lexical.Balanced.{balanced_from-plain}
use caddybuddy.Text.Search.{count_char}
use caddybuddy.Text.Lines.{join}
use mathlib.Core.List.{append-nil}
use caddybuddy.Prelude.{
  ℕ, zero, suc, ◌+◌, ◌≡◌, refl, sym, ap, ◌∙◌, inl, inr, true, false, false≢true, List, [], ◌∷◌,
  ◌++◌, arith, ◌==◌, Bool-cases,
}

abbrev Leads : ℕ → Text → Text → Type 0
Leads d s t = (k : ℕ) × (k + count_char b'}' s ≡ d + count_char b'{' s) × (balanced_from k t ≡ true)

Leads-after :
    (d e c : ℕ) (s t : Text)
    → e + count_char b'}' (c ∷ []) ≡ d + count_char b'{' (c ∷ [])
    → Leads e s t
    → Leads d (c ∷ s) t
unfolding count_char
Leads-after d e c s t h (k, sum, rest) = (k, ground (arith, h, sum), rest)

balanced_open :
    (d c : ℕ) (s : Text) → (c == b'{') ≡ true → balanced_from d (c ∷ s) ≡ balanced_from (suc d) s
unfolding balanced_from
balanced_open d c s h = rw (balanced_from, h) refl

balanced_close :
    (d c : ℕ) (s : Text)
    → (c == b'{') ≡ false
    → (c == b'}') ≡ true
    → balanced_from (suc d) (c ∷ s) ≡ balanced_from d s
unfolding balanced_from
balanced_close d c s h k = ground (arith, h, k)

unbalanced_close :
    (c : ℕ) (s : Text) → (c == b'{') ≡ false → (c == b'}') ≡ true → balanced_from 0 (c ∷ s) ≡ false
unfolding balanced_from
unbalanced_close c s h k = ground (arith, h, k)

Leads-close :
    (d c : ℕ) (s t : Text)
    → (c == b'{') ≡ false
    → (c == b'}') ≡ true
    → ((e : ℕ) → balanced_from e (s ++ t) ≡ true → Leads e s t)
    → balanced_from d (c ∷ s ++ t) ≡ true
    → Leads d (c ∷ s) t
unfolding count_char
Leads-close zero c s t other closing again h =
    absurd (false≢true (sym (unbalanced_close c (s ++ t) other closing) ∙ h))
Leads-close (suc e) c s t other closing again h =
    Leads-after (suc e) e c s t (ground (arith, other, closing))
      (again e (sym (balanced_close e c (s ++ t) other closing) ∙ h))

-- A text that is balanced from a depth on leads to a depth from which the rest is.
balanced_from-split : (d : ℕ) (s t : Text) → balanced_from d (s ++ t) ≡ true → Leads d s t
unfolding count_char
balanced_from-split d [] t h = (d, refl, h)
balanced_from-split d (c ∷ s) t h = elim (Bool-cases (c == b'{')) [
  | inl opening ↦
      Leads-after d (suc d) c s t (ground (arith, opening))
        (balanced_from-split (suc d) s t (sym (balanced_open d c (s ++ t) opening) ∙ h))
  | inr other ↦ elim (Bool-cases (c == b'}')) [
    | inl closing ↦ Leads-close d c s t other closing (λ e. balanced_from-split e s t) h
    | inr plain ↦
        Leads-after d d c s t (ground (arith, other, plain))
          (balanced_from-split d s t (sym (balanced_from-plain d c (s ++ t) other plain) ∙ h))
  ]
]

abbrev pub closing_line : Text
closing_line = text "}"

inner_lines-closed : (d : Depth) (lines : List Text) → is_open d ≡ false → inner_lines d lines ≡ []
unfolding inner_lines
inner_lines-closed d [] h = refl
inner_lines-closed d (l ∷ lines) h = rw (inner_lines, h) refl

inner_lines-open :
    (d : Depth) (line : Text) (lines : List Text)
    → is_open d ≡ true
    → inner_lines d (line ∷ lines) ≡ line ∷ inner_lines (read_braces line d) lines
unfolding inner_lines
inner_lines-open d line lines h = rw (inner_lines, h) refl

inner_lines-end :
    (d : Depth) (rest : List Text)
    → d.opened ≡ d.closed + 1
    → inner_lines d (closing_line ∷ rest) ≡ closing_line ∷ []
unfolding count_char
inner_lines-end d rest depth =
    inner_lines-open d closing_line rest (ground (arith, depth))
    ∙ ap (λ ls. closing_line ∷ ls)
        (inner_lines-closed (read_braces closing_line d) rest (ground (arith, depth)))

inner_lines-next :
    (d : Depth) (k : ℕ) (l : Text) (lines lines' : List Text)
    → d.opened ≡ d.closed + suc k
    → inner_lines (read_braces l d) lines ≡ lines'
    → inner_lines d (l ∷ lines) ≡ l ∷ lines'
inner_lines-next d k l lines lines' depth h =
    inner_lines-open d l lines (ground (arith, depth)) ∙ ap (λ ls. l ∷ ls) h

balanced_zero : (k : ℕ) → balanced_from k [] ≡ true → k ≡ 0
unfolding balanced_from
balanced_zero k h = ground (arith, h)

-- From a depth above zero, the lines of a text that closes it, up to the closing line.
pub inner_lines-block :
    (d : Depth) (k : ℕ) (l : Text) (ls rest : List Text)
    → d.opened ≡ d.closed + suc k
    → balanced_from k (join newline (l ∷ ls)) ≡ true
    → inner_lines d ((l ∷ ls) ++ closing_line ∷ rest) ≡ (l ∷ ls) ++ closing_line ∷ []
unfolding join
inner_lines-block d k l [] rest depth h =
    let (e, sum, leaf) = balanced_from-split k l [] (ap (balanced_from k) (append-nil l) ∙ h) in
    let zero_left = balanced_zero e leaf in
    inner_lines-next d k l (closing_line ∷ rest) (closing_line ∷ []) depth
      (inner_lines-end (read_braces l d) rest (omega arith))
inner_lines-block d k l (m ∷ ls) rest depth h =
    let text_left = join newline (m ∷ ls) in
    let (e, sum, leaf) = balanced_from-split k l (newline ++ text_left) h in
    inner_lines-next d k l ((m ∷ ls) ++ closing_line ∷ rest) ((m ∷ ls) ++ closing_line ∷ []) depth (
      inner_lines-block (read_braces l d) e m ls rest (omega arith)
        (sym (balanced_from-plain e 10 text_left refl refl) ∙ leaf))
