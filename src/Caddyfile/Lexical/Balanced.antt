-- ===== src/Caddyfile/Lexical/Balanced.antt =====
-- `_has_roughly_balanced_braces` against the grammar of balanced texts.
use caddybuddy.Text.{Text}
use caddybuddy.Caddyfile.Lexical.{balanced_from, has_roughly_balanced_braces}
use mathlib.Core.List.{append_assoc, append-nil}
use caddybuddy.Prelude.{
  ℕ, zero, suc, ◌≡◌, refl, sym, ap, ◌∙◌, subst, ◌↔◌, inl, inr, true, false, [], ◌∷◌, ◌++◌, arith,
  ◌==◌, ==_iff, Bool-cases,
}

-- A balanced text is empty, starts with a character that is no brace, or with a balanced text in
-- braces, and goes on balanced.
pub data Balanced : Text → Type 0 where
  nothing : Balanced []
  plain :
      (c : ℕ) {s : Text} → (c == b'{') ≡ false → (c == b'}') ≡ false → Balanced s → Balanced (c ∷ s)
  nested : {a b : Text} → Balanced a → Balanced b → Balanced (b'{' ∷ (a ++ b'}' ∷ b))

-- Balanced after as many closing braces.
abbrev Closes : ℕ → Text → Type 0
Closes zero s = Balanced s
Closes (suc d) s = (a : Text) × (b : Text) × (s ≡ a ++ b'}' ∷ b) × Balanced a × Closes d b

Closes-plain :
    (d c : ℕ) (s : Text) → (c == b'{') ≡ false → (c == b'}') ≡ false → Closes d s → Closes d (c ∷ s)
Closes-plain zero c s no_open no_close h = plain c no_open no_close h
Closes-plain (suc d) c s no_open no_close (a, b, split, inner, rest) =
    (c ∷ a, b, ap (λ t. c ∷ t) split, plain c no_open no_close inner, rest)

Closes-nested : (d : ℕ) (a b : Text) → Balanced a → Closes d b → Closes d (b'{' ∷ (a ++ b'}' ∷ b))
Closes-nested zero a b inner rest = nested inner rest
Closes-nested (suc d) a b inner (a', b', split, inner', rest) = (
  b'{' ∷ (a ++ b'}' ∷ a'),
  b',
  ap (λ t. b'{' ∷ (a ++ b'}' ∷ t)) split
      ∙ ap (λ t. b'{' ∷ t) (sym (append_assoc a (b'}' ∷ a') (b'}' ∷ b'))),
  nested inner inner',
  rest,
)

Closes-close :
    (d c : ℕ) (s : Text)
    → (c == b'{') ≡ false
    → (c == b'}') ≡ true
    → ((k : ℕ) → balanced_from k s ≡ true → Closes k s)
    → balanced_from d (c ∷ s) ≡ true
    → Closes d (c ∷ s)
unfolding balanced_from
Closes-close zero c s no_open closes ih h = ground (arith, no_open, closes, h)
Closes-close (suc d) c s no_open closes ih h = (
  [],
  s,
  ap (λ x. x ∷ s) ((==_iff c b'}').0 closes),
  nothing,
  ih d (ground (arith, no_open, closes, h)),
)

pub balanced_from-plain :
    (d c : ℕ) (s : Text)
    → (c == b'{') ≡ false
    → (c == b'}') ≡ false
    → balanced_from d (c ∷ s) ≡ balanced_from d s
unfolding balanced_from
balanced_from-plain d c s no_open no_close = ground (arith, no_open, no_close)

balanced_from-Closes : (s : Text) (d : ℕ) → balanced_from d s ≡ true → Closes d s
unfolding balanced_from
balanced_from-Closes [] zero h = nothing
balanced_from-Closes [] (suc d) h = ground arith
balanced_from-Closes (c ∷ s) d h = elim (Bool-cases (c == b'{')) [
  | inl opens ↦
      let (a, b, split, inner, rest) = balanced_from-Closes s (suc d) (ground (arith, opens)) in
      subst (Closes d)
        (sym (ap (λ t. c ∷ t) split ∙ ap (λ x. x ∷ (a ++ b'}' ∷ b)) ((==_iff c b'{').0 opens)))
        (Closes-nested d a b inner rest)
  | inr no_open ↦ elim (Bool-cases (c == b'}')) [
    | inl closes ↦ Closes-close d c s no_open closes (balanced_from-Closes s) h
    | inr no_close ↦
        Closes-plain d c s no_open no_close
          (balanced_from-Closes s d (ground (arith, no_open, no_close)))
  ]
]

pub Balanced-skips :
    {s : Text} → Balanced s → (d : ℕ) (t : Text) → balanced_from d (s ++ t) ≡ balanced_from d t
unfolding balanced_from
Balanced-skips nothing d t = refl
Balanced-skips (plain c {s} no_open no_close h) d t =
    balanced_from-plain d c (s ++ t) no_open no_close ∙ Balanced-skips h d t
Balanced-skips (nested {a} {b} inner rest) d t =
    ap (balanced_from (suc d)) (append_assoc a (b'}' ∷ b) t)
    ∙ Balanced-skips inner (suc d) (b'}' ∷ (b ++ t))
    ∙ Balanced-skips rest d t

-- `_has_roughly_balanced_braces` answers true exactly for the texts that the grammar of balanced
-- texts derives.
pub has_roughly_balanced_braces_iff :
    (s : Text) → (has_roughly_balanced_braces s ≡ true) ↔ Balanced s
unfolding has_roughly_balanced_braces
has_roughly_balanced_braces_iff s = (
  λ h. balanced_from-Closes s 0 h,
  λ h. ap (balanced_from 0) (sym (append-nil s)) ∙ Balanced-skips h 0 [],
)
