-- ===== src/Text/Ends.antt =====
-- The end of a text under `rstrip`, and the place of a character in it.
use caddybuddy.Text.{Text}
use caddybuddy.Text.Search.{has_char, before_char, count_char}
use caddybuddy.Text.Strip.{lstrip_by, rstrip_by}
use caddybuddy.Prelude.{
  ℕ, ◌+◌, ◌≡◌, refl, Bool, true, false, ◌&&◌, List, [], ◌∷◌, ◌++◌, arith, ◌==◌, if◌then◌else◌,
  is_nil, any,
}

nil-append-cons {ℓ} : {A : Type ℓ} (s : List A) (x : A) (t : List A) → is_nil (s ++ x ∷ t) ≡ false
nil-append-cons [] x t = refl
nil-append-cons (y ∷ s) x t = refl

keep_when_false : (b : Bool) (s t : Text) → (if b && false then s else t) ≡ t
keep_when_false true s t = refl
keep_when_false false s t = refl

module _ (p : ℕ → Bool) where
  pub rstrip_by-solid : (s : Text) (x : ℕ) → p x ≡ false → rstrip_by p (s ++ x ∷ []) ≡ s ++ x ∷ []
  unfolding rstrip_by
  rstrip_by-solid [] x h = rw h refl
  rstrip_by-solid (c ∷ s) x h =
      rw (rstrip_by-solid s x h, nil-append-cons s x [])
        (keep_when_false (p c) [] (c ∷ (s ++ x ∷ [])))

  pub rstrip_by-drops : (s : Text) (x : ℕ) → p x ≡ true → rstrip_by p (s ++ x ∷ []) ≡ rstrip_by p s
  unfolding rstrip_by
  rstrip_by-drops [] x h = rw h refl
  rstrip_by-drops (c ∷ s) x h = rw (rstrip_by-drops s x h) refl

  pub lstrip_by-solid : (c : ℕ) (s : Text) → p c ≡ false → lstrip_by p (c ∷ s) ≡ c ∷ s
  unfolding lstrip_by
  lstrip_by-solid c s h = rw h refl

pub before_char-append :
    (c : ℕ) (s t : Text) → has_char c s ≡ false → before_char c (s ++ c ∷ t) ≡ s
unfolding before_char has_char any
before_char-append c [] t h = ground arith
before_char-append c (d ∷ s) t h = ground (arith, h, before_char-append c s t)

pub has_char-append : (c : ℕ) (s t : Text) → has_char c (s ++ c ∷ t) ≡ true
unfolding has_char any
has_char-append c [] t = ground arith
has_char-append c (d ∷ s) t = ground (arith, has_char-append c s t)

pub count_char-append :
    (c : ℕ) (s t : Text) → count_char c (s ++ t) ≡ count_char c s + count_char c t
unfolding count_char
count_char-append c [] t = omega arith
count_char-append c (d ∷ s) t = ground (arith, count_char-append c s t)

pub count_char-none : (c : ℕ) (s : Text) → has_char c s ≡ false → count_char c s ≡ 0
unfolding has_char count_char any
count_char-none c [] h = refl
count_char-none c (d ∷ s) h = ground (arith, h, count_char-none c s)

pub has_char-append_space :
    (c : ℕ) (s : Text)
    → has_char c s ≡ false
    → (32 == c) ≡ false
    → has_char c (s ++ 32 ∷ []) ≡ false
unfolding has_char any
has_char-append_space c [] h k = ground (arith, k)
has_char-append_space c (d ∷ s) h k = ground (arith, h, k, has_char-append_space c s)
