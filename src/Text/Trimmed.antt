-- ===== src/Text/Trimmed.antt =====
-- `strip` takes a text apart into its white space in front, its core and its white space at the end.
use mathlib.Core.List.{append_assoc, append-nil}
use caddybuddy.Text.Ends.{lstrip_by-solid}
use caddybuddy.Text.{Text}
use caddybuddy.Text.Strip.{lstrip_by, rstrip_by, strip_by}
use caddybuddy.Prelude.{
  ℕ, ◌≡◌, refl, sym, ap, ◌∙◌, ◌≢◌, inl, inr, Bool, true, false, ◌&&◌, [], ◌∷◌, ◌++◌, arith,
  Bool-cases, and-eq-true, is_nil, All,
}

module _ (p : ℕ → Bool) where
  abbrev pub FirstIsKept : Text → Type 0
  FirstIsKept core = (c : ℕ) (s : Text) → core ≡ c ∷ s → p c ≡ false

  abbrev pub LastIsKept : Text → Type 0
  LastIsKept core = (s : Text) (c : ℕ) → core ≡ s ++ c ∷ [] → p c ≡ false

  -- `s` is `core` with dropped characters on both sides, as many as there are.
  pub record IsStripped (core s : Text) : Type 0 where
    pub before : Text
    pub after : Text
    pub parts : s ≡ before ++ (core ++ after)
    pub before_dropped : All (λ c. p c ≡ true) before
    pub after_dropped : All (λ c. p c ≡ true) after
    pub first_kept : FirstIsKept core
    pub last_kept : LastIsKept core

head_eq : (x y : ℕ) (s t : Text) → x ∷ s ≡ y ∷ t → x ≡ y
head_eq x y s t h = ground (arith, h)

tail_eq : (x y : ℕ) (s t : Text) → x ∷ s ≡ y ∷ t → s ≡ t
tail_eq x y s t h = ground (arith, h)

not_empty : (s : Text) (c : ℕ) → [] ≢ s ++ c ∷ []
not_empty [] c h = ground (arith, h)
not_empty (x ∷ s) c h = ground (arith, h)

not_nil : (s t : Text) → is_nil t ≡ false → is_nil (s ++ t) ≡ false
not_nil [] t h = h
not_nil (c ∷ s) t h = refl

module _ (p : ℕ → Bool) where
  rstrip_by-blank :
      (c : ℕ) (s : Text) → p c ≡ true → is_nil (rstrip_by p s) ≡ true → rstrip_by p (c ∷ s) ≡ []
  unfolding rstrip_by
  rstrip_by-blank c s h k = rw (rstrip_by, h, k) refl

  rstrip_by-ink :
      (c : ℕ) (s : Text)
      → (p c && is_nil (rstrip_by p s)) ≡ false
      → rstrip_by p (c ∷ s) ≡ c ∷ rstrip_by p s
  unfolding rstrip_by
  rstrip_by-ink c s h = rw (rstrip_by, h) refl

  nil_of : (s : Text) → is_nil s ≡ true → s ≡ []
  nil_of [] h = refl
  nil_of (c ∷ s) h = ground (arith, h)

  rstrip_by-parts :
      (s : Text) → (after : Text) × (s ≡ rstrip_by p s ++ after) × All (λ c. p c ≡ true) after
  unfolding rstrip_by
  rstrip_by-parts [] = ([], refl, tt)
  rstrip_by-parts (c ∷ s) =
      let (after, parts, dropped) = rstrip_by-parts s in
      elim (Bool-cases (p c && is_nil (rstrip_by p s))) [
        | inl blank ↦
            let both = and-eq-true (p c) (is_nil (rstrip_by p s)) blank in
            let same : s ≡ after = parts ∙ ap (λ t. t ++ after) (nil_of (rstrip_by p s) both.1) in
            (
              c ∷ after,
              ap (λ t. c ∷ t) same
                  ∙ sym (ap (λ t. t ++ c ∷ after) (rstrip_by-blank c s both.0 both.1)),
              (both.0, dropped),
            )
        | inr ink ↦ (
          after,
          ap (λ t. c ∷ t) parts ∙ sym (ap (λ t. t ++ after) (rstrip_by-ink c s ink)),
          dropped,
        )
      ]

  lstrip_by-parts :
      (s : Text) → (before : Text) × (s ≡ before ++ lstrip_by p s) × All (λ c. p c ≡ true) before
  unfolding lstrip_by
  lstrip_by-parts [] = ([], refl, tt)
  lstrip_by-parts (c ∷ s) =
      let (before, parts, dropped) = lstrip_by-parts s in
      elim (Bool-cases (p c)) [
        | inl blank ↦ (c ∷ before, rw blank (ap (λ t. c ∷ t) parts), (blank, dropped))
        | inr ink ↦ ([], rw ink refl, tt)
      ]

  lstrip_by-kept : (s : Text) → FirstIsKept p (lstrip_by p s)
  unfolding lstrip_by
  lstrip_by-kept [] c t h = ground (arith, h)
  lstrip_by-kept (x ∷ s) c t h = elim (Bool-cases (p x)) [
    | inl blank ↦
        let same : lstrip_by p (x ∷ s) ≡ lstrip_by p s = rw (lstrip_by, blank) refl in
        lstrip_by-kept s c t (sym same ∙ h)
    | inr ink ↦
        let same = lstrip_by-solid p x s ink in ap p (sym (head_eq x c s t (sym same ∙ h))) ∙ ink
  ]

  ink-LastIsKept :
      (x : ℕ) (r : Text) → (p x && is_nil r) ≡ false → LastIsKept p r → LastIsKept p (x ∷ r)
  ink-LastIsKept x r ink kept [] c h =
      let alone = tail_eq x c r [] h in
      let same = head_eq x c r [] h in ap p (sym same) ∙ ground (arith, ink, alone)
  ink-LastIsKept x r ink kept (y ∷ t) c h = kept t c (tail_eq x y r (t ++ c ∷ []) h)

  rstrip_by-kept : (s : Text) → LastIsKept p (rstrip_by p s)
  unfolding rstrip_by
  rstrip_by-kept [] t c h = absurd (not_empty t c h)
  rstrip_by-kept (x ∷ s) t c h = elim (Bool-cases (p x && is_nil (rstrip_by p s))) [
    | inl blank ↦
        let both = and-eq-true (p x) (is_nil (rstrip_by p s)) blank in
        absurd (not_empty t c (sym (rstrip_by-blank x s both.0 both.1) ∙ h))
    | inr ink ↦
        ink-LastIsKept x (rstrip_by p s) ink (rstrip_by-kept s) t c
          (sym (rstrip_by-ink x s ink) ∙ h)
  ]

  pub strip_by-IsStripped : (s : Text) → IsStripped p (strip_by p s) s
  unfolding strip_by
  strip_by-IsStripped s =
      let (after, end_parts, after_dropped) = rstrip_by-parts s in
      let (before, parts, before_dropped) = lstrip_by-parts (rstrip_by p s) in
      record {
        before = before;
        after = after;
        parts =
            end_parts
            ∙ ap (λ t. t ++ after) parts
            ∙ append_assoc before (lstrip_by p (rstrip_by p s)) after;
        before_dropped = before_dropped;
        after_dropped = after_dropped;
        first_kept = lstrip_by-kept (rstrip_by p s);
        last_kept = λ t c h.
            rstrip_by-kept s (before ++ t) c
              (parts ∙ ap (λ x. before ++ x) h ∙ sym (append_assoc before t (c ∷ [])));
      }

  rstrip_by_blanks : (s : Text) → All (λ c. p c ≡ true) s → rstrip_by p s ≡ []
  unfolding rstrip_by
  rstrip_by_blanks [] h = refl
  rstrip_by_blanks (c ∷ s) h = rstrip_by-blank c s h.0 (ap is_nil (rstrip_by_blanks s h.1))

  rstrip_by-after :
      (s after : Text) → All (λ c. p c ≡ true) after → rstrip_by p (s ++ after) ≡ rstrip_by p s
  unfolding rstrip_by
  rstrip_by-after [] after h = rstrip_by_blanks after h
  rstrip_by-after (c ∷ s) after h = rw (rstrip_by-after s after h) refl

  LastIsKept-tail : (x : ℕ) (s : Text) → LastIsKept p (x ∷ s) → LastIsKept p s
  LastIsKept-tail x s h t c same = h (x ∷ t) c (ap (λ y. x ∷ y) same)

  LastIsKept-ink : (x : ℕ) (s : Text) → LastIsKept p (x ∷ s) → (p x && is_nil s) ≡ false
  LastIsKept-ink x [] h = ground (arith, h [] x refl)
  LastIsKept-ink x (y ∷ s) h = ground arith

  rstrip_by-same : (s : Text) → LastIsKept p s → rstrip_by p s ≡ s
  unfolding rstrip_by
  rstrip_by-same [] h = refl
  rstrip_by-same (x ∷ s) h =
      let rest = rstrip_by-same s (LastIsKept-tail x s h) in
      let ink = ap (λ r. p x && is_nil r) rest ∙ LastIsKept-ink x s h in
      rstrip_by-ink x s ink ∙ ap (λ r. x ∷ r) rest

  lstrip_by-before :
      (before s : Text) → All (λ c. p c ≡ true) before → lstrip_by p (before ++ s) ≡ lstrip_by p s
  unfolding lstrip_by
  lstrip_by-before [] s h = refl
  lstrip_by-before (c ∷ before) s h = rw (lstrip_by, h.0) (lstrip_by-before before s h.1)

  lstrip_by-same : (s : Text) → FirstIsKept p s → lstrip_by p s ≡ s
  unfolding lstrip_by
  lstrip_by-same [] h = refl
  lstrip_by-same (c ∷ s) h = lstrip_by-solid p c s (h c s refl)

  rstrip_by-before :
      (before s : Text)
      → is_nil (rstrip_by p s) ≡ false
      → rstrip_by p (before ++ s) ≡ before ++ rstrip_by p s
  unfolding rstrip_by
  rstrip_by-before [] s h = refl
  rstrip_by-before (c ∷ before) s h =
      let rest = rstrip_by-before before s h in
      let solid : is_nil (before ++ rstrip_by p s) ≡ false = not_nil before (rstrip_by p s) h in
      rstrip_by-ink c (before ++ s) (ground (arith, ap is_nil rest, solid)) ∙ ap (λ r. c ∷ r) rest

  both_ends :
      (core before : Text)
      → All (λ c. p c ≡ true) before
      → FirstIsKept p core
      → LastIsKept p core
      → lstrip_by p (rstrip_by p (before ++ core)) ≡ core
  unfolding lstrip_by
  both_ends [] before h first last =
      ap (λ t. lstrip_by p (rstrip_by p t)) (append-nil before)
      ∙ ap (lstrip_by p) (rstrip_by_blanks before h)
  both_ends (c ∷ s) before h first last =
      let same = rstrip_by-same (c ∷ s) last in
      ap (lstrip_by p)
        (rstrip_by-before before (c ∷ s) (ap is_nil same) ∙ ap (λ t. before ++ t) same)
      ∙ lstrip_by-before before (c ∷ s) h
      ∙ lstrip_by-same (c ∷ s) first

  -- What is around a core is stripped.
  pub strip_by-core : (core s : Text) → IsStripped p core s → strip_by p s ≡ core
  unfolding strip_by
  strip_by-core core s h =
      ap (λ t. lstrip_by p (rstrip_by p t)) (h.parts ∙ sym (append_assoc h.before core h.after))
      ∙ ap (lstrip_by p) (rstrip_by-after (h.before ++ core) h.after h.after_dropped)
      ∙ both_ends core h.before h.before_dropped h.first_kept h.last_kept
