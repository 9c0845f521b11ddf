-- ===== src/Text/Written.antt =====
-- Lines that were joined by line feeds are split again.
use caddybuddy.Text.{Text}
use caddybuddy.Text.Lines.{join, splitlines, lines_from, is_line_end}
use caddybuddy.Text.Split.{split_at, push_first}
use mathlib.Core.List.{append_assoc, append-nil, reverse-cons}
use caddybuddy.Prelude.{
  ℕ, ◌≡◌, refl, sym, ap, ◌∙◌, subst, inl, inr, Bool, true, false, not, ◌&&◌, List, [], ◌∷◌, ◌++◌,
  reverse, arith, ◌==◌, ==_iff, Bool-cases, any,
}

-- A character that ends a line but is no line feed.
abbrev pub is_other_end : ℕ → Bool
is_other_end c = is_line_end c && not (c == 10)

-- Text in front of the first part.
abbrev push_text : Text → List Text → List Text
push_text s [] = s ∷ []
push_text s (p ∷ ps) = (s ++ p) ∷ ps

push_text-push_first :
    (s : Text) (c : ℕ) (parts : List Text)
    → push_text s (push_first c parts) ≡ push_text (s ++ c ∷ []) parts
unfolding push_first
push_text-push_first s c [] = refl
push_text-push_first s c (p ∷ ps) = ap (λ t. t ∷ ps) (sym (append_assoc s (c ∷ []) p))

pub data IsCons {ℓ} {A : Type ℓ} : List A → Type ℓ where
  is_cons : (x : A) (xs : List A) → IsCons (x ∷ xs)

push_first-IsCons : (c : ℕ) (parts : List Text) → IsCons (push_first c parts)
unfolding push_first
push_first-IsCons c [] = is_cons (c ∷ []) []
push_first-IsCons c (p ∷ ps) = is_cons (c ∷ p) ps

pub split_at-ink :
    (c d : ℕ) (s : Text) → (d == c) ≡ false → split_at c (d ∷ s) ≡ push_first d (split_at c s)
unfolding split_at
split_at-ink c d s h = rw (split_at, h) refl

split_at-sep : (c d : ℕ) (s : Text) → (d == c) ≡ true → split_at c (d ∷ s) ≡ [] ∷ split_at c s
unfolding split_at
split_at-sep c d s h = rw (split_at, h) refl

pub split_at-IsCons : (c : ℕ) (s : Text) → IsCons (split_at c s)
unfolding split_at
split_at-IsCons c [] = is_cons [] []
split_at-IsCons c (d ∷ s) = elim (Bool-cases (d == c)) [
  | inl same ↦ subst IsCons (sym (split_at-sep c d s same)) (is_cons [] (split_at c s))
  | inr other ↦ subst IsCons (sym (split_at-ink c d s other)) (push_first-IsCons d (split_at c s))
]

join-push_first :
    (c : ℕ) (parts : List Text)
    → IsCons parts
    → join (10 ∷ []) (push_first c parts) ≡ c ∷ join (10 ∷ []) parts
unfolding join push_first
join-push_first c [] h = elim h [ ]
join-push_first c (p ∷ []) h = refl
join-push_first c (p ∷ q ∷ ps) h = refl

join-nil :
    (parts : List Text) → IsCons parts → join (10 ∷ []) ([] ∷ parts) ≡ 10 ∷ join (10 ∷ []) parts
unfolding join
join-nil [] h = elim h [ ]
join-nil (p ∷ ps) h = refl

pub join-split_at : (s : Text) → join (10 ∷ []) (split_at 10 s) ≡ s
unfolding join split_at
join-split_at [] = refl
join-split_at (c ∷ s) = elim (Bool-cases (c == 10)) [
  | inl same ↦
      ap (join (10 ∷ [])) (split_at-sep 10 c s same)
      ∙ join-nil (split_at 10 s) (split_at-IsCons 10 s)
      ∙ ap (λ t. 10 ∷ t) (join-split_at s)
      ∙ ap (λ d. d ∷ s) (sym ((==_iff c 10).0 same))
  | inr other ↦
      ap (join (10 ∷ [])) (split_at-ink 10 c s other)
      ∙ join-push_first c (split_at 10 s) (split_at-IsCons 10 s)
      ∙ ap (λ t. c ∷ t) (join-split_at s)
]

lines_from-end :
    (cur : Text) (c : ℕ) (s : Text)
    → (c == 10) ≡ true
    → lines_from false cur (c ∷ s) ≡ reverse cur ∷ lines_from false [] s
unfolding lines_from is_line_end
lines_from-end cur c s h =
    subst (λ d. lines_from false cur (d ∷ s) ≡ reverse cur ∷ lines_from false [] s)
      (sym ((==_iff c 10).0 h)) refl

lines_from-ink :
    (cur : Text) (c : ℕ) (s : Text)
    → is_line_end c ≡ false
    → lines_from false cur (c ∷ s) ≡ lines_from false (c ∷ cur) s
unfolding lines_from
lines_from-ink cur c s h = rw (lines_from, h) refl

no_end : (c : ℕ) → is_other_end c ≡ false → (c == 10) ≡ false → is_line_end c ≡ false
no_end c h k = ground (arith, h, k)

push_text-nil : (parts : List Text) → IsCons parts → push_text [] parts ≡ parts
push_text-nil [] h = elim h [ ]
push_text-nil (p ∷ ps) h = refl

lines_from-written :
    (s t cur : Text)
    → any is_other_end s ≡ false
    → lines_from false cur (s ++ 10 ∷ t)
      ≡ push_text (reverse cur) (split_at 10 s) ++ lines_from false [] t
unfolding split_at any
lines_from-written [] t cur h =
    lines_from-end cur 10 t refl
    ∙ ap (λ x. x ∷ lines_from false [] t) (sym (append-nil (reverse cur)))
lines_from-written (c ∷ s) t cur h = elim (Bool-cases (c == 10)) [
  | inl same ↦
      lines_from-end cur c (s ++ 10 ∷ t) same
      ∙ ap (λ x. reverse cur ∷ x) (lines_from-written s t [] (ground (arith, h)))
      ∙ ap (λ x. reverse cur ∷ (x ++ lines_from false [] t))
          (push_text-nil (split_at 10 s) (split_at-IsCons 10 s))
      ∙ ap (λ x. x ∷ (split_at 10 s ++ lines_from false [] t)) (sym (append-nil (reverse cur)))
      ∙ ap (λ x. push_text (reverse cur) x ++ lines_from false [] t)
          (sym (split_at-sep 10 c s same))
  | inr other ↦
      lines_from-ink cur c (s ++ 10 ∷ t) (no_end c (ground (arith, h)) other)
      ∙ lines_from-written s t (c ∷ cur) (ground (arith, h))
      ∙ ap (λ x. push_text x (split_at 10 s) ++ lines_from false [] t) (reverse-cons c cur)
      ∙ ap (λ x. x ++ lines_from false [] t)
          (sym (push_text-push_first (reverse cur) c (split_at 10 s))
            ∙ ap (push_text (reverse cur)) (sym (split_at-ink 10 c s other)))
]

pub splitlines-written :
    (s t : Text)
    → any is_other_end s ≡ false
    → splitlines (s ++ 10 ∷ t) ≡ split_at 10 s ++ splitlines t
unfolding splitlines
splitlines-written s t h =
    lines_from-written s t [] h
    ∙ ap (λ x. x ++ splitlines t) (push_text-nil (split_at 10 s) (split_at-IsCons 10 s))
