-- ===== src/Caddyfile/Split/Kept.antt =====
-- Splitting directives loses nothing but white space.
use caddybuddy.Caddyfile.Split.{
  completed, unmatched, finished, grown, padded, ignored, chunks_from, chunk_of, nonempty,
  line_step, blank_step, LineStep, split_top_level_directives,
}
use caddybuddy.Text.{Text, is_space}
use caddybuddy.Text.Kept.{
  keep, keep_all, keep_all-append, keep-strip, keep-rstrip, keep-join, keep_all-splitlines,
}
use caddybuddy.Text.Search.{strip, rstrip}
use caddybuddy.Text.Lines.{splitlines}
use mathlib.Core.List.{append_assoc, append-nil}
use mathlib.Core.Option
use caddybuddy.Prelude.{
  ℕ, zero, suc, ◌≡◌, refl, sym, ap, ◌∙◌, Bool, true, false, Option, none, some, List, [], ◌∷◌, ◌++◌,
  arith, is_nil,
}

abbrev pub skips : LineStep → Bool
skips ignored = true
skips padded = true
skips finished = true
skips _ = false

blank_step-skips : (current : List Text) (depth : ℕ) → skips (blank_step current depth) ≡ true
unfolding blank_step
blank_step-skips [] zero = refl
blank_step-skips (l ∷ ls) zero = refl
blank_step-skips [] (suc depth) = refl
blank_step-skips (l ∷ ls) (suc depth) = refl

line_step-skips :
    (current : List Text) (depth : ℕ) (raw : Text)
    → skips (line_step current depth raw) ≡ is_nil (strip raw)
unfolding line_step
line_step-skips current depth raw = ground (arith, blank_step-skips current depth)

module _ (p : ℕ → Bool) (solid : (c : ℕ) → is_space c ≡ true → p c ≡ false) where
  keep-none : (s : Text) → is_nil s ≡ true → keep p s ≡ []
  unfolding keep
  keep-none [] h = refl
  keep-none (c ∷ s) h = ground arith

  keep-blank : (raw : Text) → is_nil (strip raw) ≡ true → keep p raw ≡ []
  unfolding keep
  keep-blank raw h = sym (keep-strip p solid raw) ∙ keep-none (strip raw) h

  keep-chunk_of : (lines : List Text) → keep p (chunk_of lines) ≡ keep_all p lines
  keep-chunk_of lines = keep-strip p solid _ ∙ keep-join p solid lines

  keep_all-nonempty : (chunks : List Text) → keep_all p (nonempty chunks) ≡ keep_all p chunks
  unfolding nonempty keep_all keep
  keep_all-nonempty [] = refl
  keep_all-nonempty ([] ∷ chunks) = keep_all-nonempty chunks
  keep_all-nonempty ((c ∷ s) ∷ chunks) = ap (λ t. keep p (c ∷ s) ++ t) (keep_all-nonempty chunks)

  -- What the rest of the loop returns holds the current lines and the lines that follow.
  abbrev Conserved : List Text → List Text → Option (List Text) → Type 0
  Conserved current lines none = Unit
  Conserved current lines (some chunks) = keep_all p chunks ≡ keep_all p current ++ keep_all p lines

  Conserved-blank :
      (current lines : List Text) (raw : Text) (o : Option (List Text))
      → is_nil (strip raw) ≡ true
      → Conserved current lines o
      → Conserved current (raw ∷ lines) o
  unfolding keep_all
  Conserved-blank current lines raw none h c = tt
  Conserved-blank current lines raw (some chunks) h c =
      c ∙ ap (λ t. keep_all p current ++ (t ++ keep_all p lines)) (sym (keep-blank raw h))

  Conserved-finished :
      (current lines : List Text) (o : Option (List Text))
      → Conserved [] lines o
      → Conserved current lines (Option.map (λ chunks. chunk_of current ∷ chunks) o)
  unfolding keep_all
  Conserved-finished current lines none c = tt
  Conserved-finished current lines (some chunks) c =
      ap (λ t. t ++ keep_all p chunks) (keep-chunk_of current) ∙ ap (λ t. keep_all p current ++ t) c

  -- A line with its end stripped moves to the current lines.
  Conserved-moved :
      (current lines : List Text) (raw line : Text) (o : Option (List Text))
      → keep p line ≡ keep p raw
      → Conserved (current ++ line ∷ []) lines o
      → Conserved current (raw ∷ lines) o
  unfolding keep_all
  Conserved-moved current lines raw line none h c = tt
  Conserved-moved current lines raw line (some chunks) h c =
      c
      ∙ ap (λ t. t ++ keep_all p lines)
          (keep_all-append p current (line ∷ [])
            ∙ ap (λ t. keep_all p current ++ t) (append-nil (keep p line) ∙ h))
      ∙ append_assoc (keep_all p current) (keep p raw) (keep_all p lines)

  -- One line, by what the rest of the loop does in each case.
  Conserved-step :
      (current : List Text) (depth : ℕ) (raw : Text) (lines : List Text) (step : LineStep)
      → skips step ≡ is_nil (strip raw)
      → Conserved current lines (chunks_from current depth lines)
      → Conserved (current ++ [] ∷ []) lines (chunks_from (current ++ [] ∷ []) depth lines)
      → Conserved [] lines (chunks_from [] depth lines)
      → ((deeper : ℕ)
          → Conserved
              (current ++ rstrip raw ∷ [])
              lines
              (chunks_from (current ++ rstrip raw ∷ []) deeper lines))
      → Conserved [] lines (chunks_from [] 0 lines)
      → Conserved current (raw ∷ lines) (elim step [
        | ignored ↦ chunks_from current depth lines
        | padded ↦ chunks_from (current ++ [] ∷ []) depth lines
        | finished ↦ Option.map (λ chunks. chunk_of current ∷ chunks) (chunks_from [] depth lines)
        | unmatched ↦ none
        | grown deeper ↦ chunks_from (current ++ rstrip raw ∷ []) deeper lines
        | completed ↦
            Option.map
              (λ chunks. chunk_of (current ++ rstrip raw ∷ []) ∷ chunks)
              (chunks_from [] 0 lines)
      ])
  unfolding keep keep_all
  Conserved-step current depth raw lines ignored e a b c d f =
      Conserved-blank current lines raw (chunks_from current depth lines) (sym e) a
  Conserved-step current depth raw lines padded e a b c d f =
      Conserved-moved current lines raw [] _ (sym (keep-blank raw (sym e))) b
  Conserved-step current depth raw lines finished e a b c d f =
      Conserved-blank current lines raw _ (sym e)
        (Conserved-finished current lines (chunks_from [] depth lines) c)
  Conserved-step current depth raw lines unmatched e a b c d f = tt
  Conserved-step current depth raw lines (grown deeper) e a b c d f =
      Conserved-moved current lines raw (rstrip raw) _ (keep-rstrip p solid raw) (d deeper)
  Conserved-step current depth raw lines completed e a b c d f =
      Conserved-moved current lines raw (rstrip raw) _ (keep-rstrip p solid raw)
        (Conserved-finished (current ++ rstrip raw ∷ []) lines (chunks_from [] 0 lines) f)

  chunks_from-Conserved :
      (current : List Text) (depth : ℕ) (lines : List Text)
      → Conserved current lines (chunks_from current depth lines)
  unfolding chunks_from keep_all
  chunks_from-Conserved [] depth [] = refl
  chunks_from-Conserved (l ∷ ls) depth [] = ap (λ t. t ++ []) (keep-chunk_of (l ∷ ls))
  chunks_from-Conserved current depth (raw ∷ lines) =
      Conserved-step current depth raw lines (line_step current depth raw)
        (line_step-skips current depth raw) (chunks_from-Conserved current depth lines)
        (chunks_from-Conserved (current ++ [] ∷ []) depth lines)
        (chunks_from-Conserved [] depth lines)
        (λ deeper. chunks_from-Conserved (current ++ rstrip raw ∷ []) deeper lines)
        (chunks_from-Conserved [] 0 lines)

  keeps-mapped :
      (directives : Text) (chunks : List Text) (o : Option (List Text))
      → Conserved [] (splitlines directives) o
      → Option.map nonempty o ≡ some chunks
      → keep_all p chunks ≡ keep p directives
  unfolding keep_all
  keeps-mapped directives chunks none c h = ground arith
  keeps-mapped directives chunks (some all_chunks) c h =
      let same : nonempty all_chunks ≡ chunks = ground (arith, h) in
      ap (keep_all p) (sym same)
      ∙ keep_all-nonempty all_chunks
      ∙ c
      ∙ keep_all-splitlines p solid directives

  -- Where `_split_top_level_directives` returns, the directives it returns hold, one after the other,
  -- every character of the text that is of a kind without white space, in order.
  pub split_top_level_directives-keeps :
      (directives : Text) (chunks : List Text)
      → split_top_level_directives directives ≡ some chunks
      → keep_all p chunks ≡ keep p directives
  unfolding split_top_level_directives
  split_top_level_directives-keeps directives chunks h =
      keeps-mapped directives chunks (chunks_from [] 0 (splitlines directives))
        (chunks_from-Conserved [] 0 (splitlines directives)) h
