-- ===== src/Text/Lines.antt =====
-- `str.splitlines` and `str.join`.
use caddybuddy.Prelude.{ℕ, Bool, true, false, ◌||◌, ◌&&◌, List, [], ◌∷◌, ◌++◌, reverse, leb, ◌==◌}

-- The characters at which `splitlines` ends a line; `\r\n` ends one line.
unfoldable pub is_line_end : ℕ → Bool
is_line_end c =
    leb 10 c && leb c 13 || leb 28 c && leb c 30 || c == 0x85 || c == 0x2028 || c == 0x2029

-- A line that is open: the characters read so far, the last one first.
unfoldable pub close_line : List ℕ → List (List ℕ)
close_line [] = []
close_line (c ∷ cur) = reverse (c ∷ cur) ∷ []

-- The flag says that the character before was `\r`, so that a `\n` here ends no further line.
unfoldable pub lines_from : Bool → List ℕ → List ℕ → List (List ℕ)
unfolding close_line is_line_end
lines_from after_cr cur [] = close_line cur
lines_from after_cr cur (c ∷ s) = elim (after_cr && c == 10) [
  | true ↦ lines_from false [] s
  | false ↦ elim (is_line_end c) [
    | true ↦ reverse cur ∷ lines_from (c == 13) [] s
    | false ↦ lines_from false (c ∷ cur) s
  ]
]

unfoldable pub splitlines : List ℕ → List (List ℕ)
unfolding lines_from
splitlines = lines_from false []

unfoldable pub join : List ℕ → List (List ℕ) → List ℕ
join sep [] = []
join sep (x ∷ []) = x
join sep (x ∷ y ∷ r) = x ++ (sep ++ join sep (y ∷ r))
