-- ===== src/Text/Split.antt =====
-- Splitting a text: at every separator (`str.split(sep)`, one character), or into the maximal
-- runs of characters that are no separators (`str.split()`, and `re.split` with the empty parts
-- dropped).
use caddybuddy.Prelude.{ℕ, Bool, List, [], ◌∷◌, ◌==◌, if◌then◌else◌}

-- Puts a character in front of the first part.
unfoldable pub push_first : ℕ → List (List ℕ) → List (List ℕ)
push_first c [] = (c ∷ []) ∷ []
push_first c (p ∷ ps) = (c ∷ p) ∷ ps

-- `s.split(sep)`: one part more than there are separators.
unfoldable pub split_at : ℕ → List ℕ → List (List ℕ)
unfolding push_first
split_at sep [] = [] ∷ []
split_at sep (c ∷ s) =
    let rest = split_at sep s in if c == sep then [] ∷ rest else push_first c rest

-- The parts without the empty ones.
unfoldable pub drop_empty : List (List ℕ) → List (List ℕ)
drop_empty [] = []
drop_empty ([] ∷ ps) = drop_empty ps
drop_empty ((c ∷ p) ∷ ps) = (c ∷ p) ∷ drop_empty ps

unfoldable pub split_where : (ℕ → Bool) → List ℕ → List (List ℕ)
unfolding push_first
split_where is_sep [] = [] ∷ []
split_where is_sep (c ∷ s) =
    let rest = split_where is_sep s in if is_sep c then [] ∷ rest else push_first c rest

unfoldable pub words : (ℕ → Bool) → List ℕ → List (List ℕ)
unfolding split_where drop_empty
words is_sep s = drop_empty (split_where is_sep s)
