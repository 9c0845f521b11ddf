-- ===== src/Text/Strip.antt =====
-- `lstrip`, `rstrip` and `strip`.
use caddybuddy.Prelude.{ℕ, Bool, ◌&&◌, List, [], ◌∷◌, if◌then◌else◌, is_nil}

module _ (p : ℕ → Bool) where
  unfoldable pub lstrip_by : List ℕ → List ℕ
  lstrip_by [] = []
  lstrip_by (c ∷ s) = if p c then lstrip_by s else c ∷ s

  unfoldable pub rstrip_by : List ℕ → List ℕ
  rstrip_by [] = []
  rstrip_by (c ∷ s) = let r = rstrip_by s in if p c && is_nil r then [] else c ∷ r

  unfoldable pub strip_by : List ℕ → List ℕ
  strip_by s = lstrip_by (rstrip_by s)
