-- ===== src/Text/Kept.antt =====
-- What stripping, splitting into lines and joining keep of a text: all characters of a kind that
-- takes in no white space.
use mathlib.Core.List.{append_assoc, append-nil, reverse-cons}
use caddybuddy.Text.{Text, is_space}
use caddybuddy.Text.Strip.{lstrip_by, rstrip_by, strip_by}
use caddybuddy.Text.Lines.{join, splitlines, lines_from, close_line, is_line_end}
use caddybuddy.Text.Search.{strip, rstrip}
use caddybuddy.Prelude.{
  ℕ, ◌≡◌, refl, sym, ap, ◌∙◌, inl, inr, Bool, true, false, ◌&&◌, List, [], ◌∷◌, ◌++◌, map, reverse,
  arith, ◌==◌, if◌then◌else◌, Bool-cases, and-eq-true, is_nil,
}

-- The characters of the kind, in their order.
unfoldable pub keep : (ℕ → Bool) → Text → Text
keep p [] = []
keep p (c ∷ s) = let rest = keep p s in if p c then c ∷ rest else rest

unfoldable pub keep_all : (ℕ → Bool) → List Text → Text
unfolding keep
keep_all p [] = []
keep_all p (s ∷ r) = keep p s ++ keep_all p r

module _ (p : ℕ → Bool) where
  pub keep-append : (a b : Text) → keep p (a ++ b) ≡ keep p a ++ keep p b
  unfolding keep
  keep-append [] b = refl
  keep-append (c ∷ a) b = elim (Bool-cases (p c)) [
    | inl yes_kept ↦ rw yes_kept (ap (λ t. c ∷ t) (keep-append a b))
    | inr dropped ↦ rw dropped (keep-append a b)
  ]

  pub keep_all-append : (a b : List Text) → keep_all p (a ++ b) ≡ keep_all p a ++ keep_all p b
  unfolding keep_all
  keep_all-append [] b = refl
  keep_all-append (s ∷ a) b =
      ap (λ t. keep p s ++ t) (keep_all-append a b)
      ∙ sym (append_assoc (keep p s) (keep_all p a) (keep_all p b))

  module _ (solid : (c : ℕ) → is_space c ≡ true → p c ≡ false) where
    keep-lstrip : (s : Text) → keep p (lstrip_by is_space s) ≡ keep p s
    unfolding keep lstrip_by
    keep-lstrip [] = refl
    keep-lstrip (c ∷ s) = elim (Bool-cases (is_space c)) [
      | inl space ↦ rw (space, solid c space) (keep-lstrip s)
      | inr ink ↦ rw ink refl
    ]

    keep-nil : (s : Text) → is_nil s ≡ true → keep p s ≡ []
    unfolding keep
    keep-nil [] h = refl
    keep-nil (c ∷ s) h = ground arith

    keep-rstrip_by : (s : Text) → keep p (rstrip_by is_space s) ≡ keep p s
    unfolding keep rstrip_by
    keep-rstrip_by [] = refl
    keep-rstrip_by (c ∷ s) = elim (Bool-cases (is_space c && is_nil (rstrip_by is_space s))) [
      | inl gone ↦
          let both = and-eq-true (is_space c) (is_nil (rstrip_by is_space s)) gone in
          rw (gone, solid c both.0)
            (sym (keep-nil (rstrip_by is_space s) both.1) ∙ keep-rstrip_by s)
      | inr stays ↦ rw stays (ground (arith, keep-rstrip_by s))
    ]

    pub keep-rstrip : (s : Text) → keep p (rstrip s) ≡ keep p s
    unfolding rstrip
    keep-rstrip s = keep-rstrip_by s

    pub keep-strip : (s : Text) → keep p (strip s) ≡ keep p s
    unfolding strip strip_by
    keep-strip s = keep-lstrip (rstrip_by is_space s) ∙ keep-rstrip_by s

    keep_after_newline : (s : Text) → keep p (10 ∷ s) ≡ keep p s
    unfolding keep is_space
    keep_after_newline s = rw (solid 10 refl) refl

    -- joined by line feeds
    pub keep-join : (lines : List Text) → keep p (join (10 ∷ []) lines) ≡ keep_all p lines
    unfolding join keep_all keep
    keep-join [] = refl
    keep-join (l ∷ []) = sym (append-nil (keep p l))
    keep-join (l ∷ m ∷ ls) =
        keep-append l ((10 ∷ []) ++ join (10 ∷ []) (m ∷ ls))
        ∙ ap (λ t. keep p l ++ t)
            (keep_after_newline (join (10 ∷ []) (m ∷ ls)) ∙ keep-join (m ∷ ls))

    pub keep_all-map :
        (f : Text → Text)
        → ((s : Text) → keep p (f s) ≡ keep p s)
        → (lines : List Text) → keep_all p (map f lines) ≡ keep_all p lines
    unfolding keep_all
    keep_all-map f same [] = refl
    keep_all-map f same (l ∷ ls) =
        ap (λ t. t ++ keep_all p (map f ls)) (same l)
        ∙ ap (λ t. keep p l ++ t) (keep_all-map f same ls)

    line_end-space : (c : ℕ) → is_line_end c ≡ true → is_space c ≡ true
    unfolding is_line_end is_space
    line_end-space c h = ground arith

    -- A character that does not follow a carriage return.
    keep_all-step :
        (cur s : Text) (c : ℕ)
        → ((b : Bool) → keep_all p (lines_from b [] s) ≡ keep p s)
        → ((d : Text) → keep_all p (lines_from false d s) ≡ keep p (reverse d) ++ keep p s)
        → keep_all p (elim (is_line_end c) [
          | true ↦ reverse cur ∷ lines_from (c == 13) [] s
          | false ↦ lines_from false (c ∷ cur) s
        ])
          ≡ keep p (reverse cur) ++ keep p (c ∷ s)
    unfolding keep_all keep
    keep_all-step cur s c closed going = elim (Bool-cases (is_line_end c)) [
      | inl ends ↦
          rw (ends, solid c (line_end-space c ends))
            (ap (λ t. keep p (reverse cur) ++ t) (closed (c == 13)))
      | inr goes ↦
          let word : keep p (reverse (c ∷ cur)) ≡ keep p (reverse cur) ++ keep p (c ∷ []) =
            ap (keep p) (reverse-cons c cur) ∙ keep-append (reverse cur) (c ∷ []) in
          rw goes (
            going (c ∷ cur)
            ∙ ap (λ t. t ++ keep p s) word
            ∙ append_assoc (keep p (reverse cur)) (keep p (c ∷ [])) (keep p s)
            ∙ ap (λ t. keep p (reverse cur) ++ t) (sym (keep-append (c ∷ []) s)))
    ]

    lines_from-feed :
        (c : ℕ) (s : Text) → (c == 10) ≡ true → lines_from true [] (c ∷ s) ≡ lines_from false [] s
    unfolding lines_from
    lines_from-feed c s feed = ground (arith, feed)

    lines_from-other :
        (c : ℕ) (s : Text)
        → (c == 10) ≡ false
        → lines_from true [] (c ∷ s) ≡ lines_from false [] (c ∷ s)
    unfolding lines_from
    lines_from-other c s other = ground (arith, other)

    is_line_end-feed : (c : ℕ) → (c == 10) ≡ true → is_line_end c ≡ true
    unfolding is_line_end
    is_line_end-feed c feed = ground (arith, feed)

    keep_dropped : (c : ℕ) (s : Text) → p c ≡ false → keep p (c ∷ s) ≡ keep p s
    unfolding keep
    keep_dropped c s h = rw h refl

    -- After a line feed that belongs to a carriage return, or after any other character.
    keep_all-fresh :
        (b : Bool) (c : ℕ) (s : Text)
        → keep_all p (lines_from false [] s) ≡ keep p s
        → keep_all p (lines_from false [] (c ∷ s)) ≡ keep p (c ∷ s)
        → keep_all p (lines_from b [] (c ∷ s)) ≡ keep p (c ∷ s)
    unfolding lines_from keep
    keep_all-fresh false c s after fresh = fresh
    keep_all-fresh true c s after fresh = elim (Bool-cases (c == 10)) [
      | inl feed ↦
          ap (keep_all p) (lines_from-feed c s feed)
          ∙ after
          ∙ sym (keep_dropped c s (solid c (line_end-space c (is_line_end-feed c feed))))
      | inr other ↦ ap (keep_all p) (lines_from-other c s other) ∙ fresh
    ]

    keep_all-close_line : (cur : Text) → keep_all p (close_line cur) ≡ keep p (reverse cur) ++ []
    unfolding close_line keep_all keep
    keep_all-close_line [] = refl
    keep_all-close_line (c ∷ cur) = refl

    keep_all-lines_from :
        (s : Text)
        → ((b : Bool) → keep_all p (lines_from b [] s) ≡ keep p s)
          × ((cur : Text) → keep_all p (lines_from false cur s) ≡ keep p (reverse cur) ++ keep p s)
    unfolding lines_from keep_all keep
    keep_all-lines_from [] = (λ b. refl, λ cur. keep_all-close_line cur)
    keep_all-lines_from (c ∷ s) =
        let ih = keep_all-lines_from s in
        let fresh = keep_all-step [] s c ih.0 ih.1 in
        (λ b. keep_all-fresh b c s (ih.0 false) fresh, λ cur. keep_all-step cur s c ih.0 ih.1)

    pub keep_all-splitlines : (s : Text) → keep_all p (splitlines s) ≡ keep p s
    unfolding splitlines
    keep_all-splitlines s = (keep_all-lines_from s).0 false
