-- ===== src/Text/Search.antt =====
-- Prefixes, suffixes, counting and cutting, and white space in patterns.
use caddybuddy.Text.{Text, is_space}
use caddybuddy.Text.Strip.{rstrip_by, strip_by}
use caddybuddy.Text.Split.{words}
use caddybuddy.Prelude.{
  ℕ, ◌+◌, Bool, true, false, ◌&&◌, ◌||◌, Option, none, some, List, [], ◌∷◌, ◌==◌, if◌then◌else◌,
  any,
}

-- `s.removeprefix(prefix)`, where the prefix is there
unfoldable pub after_prefix : Text → Text → Option Text
after_prefix [] s = some s
after_prefix (p ∷ ps) [] = none
after_prefix (p ∷ ps) (c ∷ s) = if p == c then after_prefix ps s else none

unfoldable pub starts_with : Text → Text → Bool
unfolding after_prefix
starts_with prefix s = elim (after_prefix prefix s) [ none ↦ false | some r ↦ true ]

unfoldable pub remove_prefix : Text → Text → Text
unfolding after_prefix
remove_prefix prefix s = elim (after_prefix prefix s) [ none ↦ s | some r ↦ r ]

-- `c in s`
unfoldable pub has_char : ℕ → Text → Bool
unfolding any
has_char c s = any (λ d. d == c) s

-- `s.count(c)`
unfoldable pub count_char : ℕ → Text → ℕ
count_char c [] = 0
count_char c (d ∷ s) = (if d == c then 1 else 0) + count_char c s

-- `s.endswith(c)`
unfoldable pub ends_in : ℕ → Text → Bool
ends_in c [] = false
ends_in c (d ∷ []) = d == c
ends_in c (d ∷ e ∷ s) = ends_in c (e ∷ s)

-- `s[:-1]`
unfoldable pub without_last : Text → Text
without_last [] = []
without_last (d ∷ []) = []
without_last (d ∷ e ∷ s) = d ∷ without_last (e ∷ s)

-- `s.partition(c)`: before and after the first `c`
unfoldable pub before_char : ℕ → Text → Text
before_char c [] = []
before_char c (d ∷ s) = if d == c then [] else d ∷ before_char c s

unfoldable pub after_char : ℕ → Text → Text
after_char c [] = []
after_char c (d ∷ s) = if d == c then s else after_char c s

-- `s.rpartition(c)`: before and after the last `c`; without one, all of it is after.
unfoldable pub before_last : ℕ → Text → Text
unfolding has_char
before_last c [] = []
before_last c (d ∷ s) = if has_char c s then d ∷ before_last c s else []

unfoldable pub after_last : ℕ → Text → Text
unfolding has_char
after_last c [] = []
after_last c (d ∷ s) =
    let rest = after_last c s in if has_char c s then rest else if d == c then s else d ∷ s

-- `s.strip()`, `s.rstrip()`, `s.split()`
unfoldable pub strip : Text → Text
unfolding strip_by is_space
strip s = strip_by is_space s

unfoldable pub rstrip : Text → Text
unfolding rstrip_by is_space
rstrip s = rstrip_by is_space s

unfoldable pub split_words : Text → List Text
unfolding words is_space
split_words s = words is_space s

-- `s.split(maxsplit=1)[0]`, `none` where it raises `IndexError`
unfoldable pub first_word : Text → Option Text
unfolding split_words
first_word s = elim (split_words s) [ [] ↦ none | (w ∷ ws) ↦ some w ]

-- `\s*` in front of a pattern, with every way to match it.
unfoldable pub spaces_then : (Text → Bool) → Text → Bool
unfolding is_space
spaces_then pattern [] = pattern []
spaces_then pattern (c ∷ s) = pattern (c ∷ s) || is_space c && spaces_then pattern s

-- A literal in front of a pattern.
unfoldable pub then_text : Text → (Text → Bool) → Text → Bool
unfolding after_prefix
then_text literal pattern s = elim (after_prefix literal s) [ none ↦ false | some r ↦ pattern r ]
