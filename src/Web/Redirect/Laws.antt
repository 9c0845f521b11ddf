-- ===== src/Web/Redirect/Laws.antt =====
-- Where a redirect leads.
use caddybuddy.Web.Redirect.{safe_redirect_path, starts_with, is_rooted, is_unsafe}
use caddybuddy.Text.Search.{after_prefix, starts_with}
use caddybuddy.Text.{Text}
use caddybuddy.Prelude.{
  ℕ, ◌≤◌, ◌≡◌, refl, ap, ◌∙◌, ◌≢◌, ◌⊎◌, inl, inr, Bool, true, false, not, ◌||◌, Option, none, some,
  [], ◌∷◌, arith, if◌then◌else◌, is_nil, All, any,
}

-- The second character of a path from the root.
abbrev NotHost : Text → Type 0
NotHost [] = Unit
NotHost (c ∷ s) = (c ≢ b'/') × (c ≢ 92)

-- `/`, then neither `/` nor a backslash.
abbrev pub IsRooted : Text → Type 0
IsRooted p = (rest : Text) × (p ≡ b'/' ∷ rest) × NotHost rest

-- Neither a control character nor a backslash.
abbrev pub IsPrintable : ℕ → Type 0
IsPrintable c = (32 ≤ c) × (c ≢ 127) × (c ≢ 92)

is_rooted-IsRooted : (p : Text) → is_rooted p ≡ true → IsRooted p
unfolding is_rooted starts_with after_prefix
is_rooted-IsRooted [] h = ground (arith, h)
is_rooted-IsRooted (c ∷ []) h = ([], ap (λ x. x ∷ []) (ground (arith, h)), tt)
is_rooted-IsRooted (c ∷ d ∷ s) h = (
  d ∷ s,
  ap (λ x. x ∷ d ∷ s) (ground (arith, h)),
  (λ e. ground (arith, e, h), λ e. ground (arith, e, h)),
)

any-IsPrintable : (p : Text) → any is_unsafe p ≡ false → All IsPrintable p
unfolding any is_unsafe
any-IsPrintable [] h = tt
any-IsPrintable (c ∷ s) h = (
  (ground (arith, h), λ e. ground (arith, e, h), λ e. ground (arith, e, h)),
  any-IsPrintable s (ground (arith, h)),
)

-- A path that is its own answer: it, and what it decodes to, start at the root and name no host, and
-- have neither control characters nor backslashes.
pub record IsSafe (unquote : Text → Text) (path : Text) : Type 0 where
  pub rooted : IsRooted path
  pub rooted_decoded : IsRooted (unquote path)
  pub printable : All IsPrintable path
  pub printable_decoded : All IsPrintable (unquote path)

if-cases :
    (b : Bool) (x y : Text)
    → ((if b then x else y) ≡ x) ⊎ ((b ≡ false) × ((if b then x else y) ≡ y))
if-cases true x y = inl refl
if-cases false x y = inr (refl, refl)

rooted_of : (n r : Bool) → (n || not r) ≡ false → r ≡ true
rooted_of n r h = ground (arith, h)

safe_of : (r a b : Bool) → (not r || a || b) ≡ false → (r ≡ true) × (a ≡ false) × (b ≡ false)
safe_of r a b h = (ground (arith, h), ground (arith, h), ground (arith, h))

given-IsSafe :
    (unquote : Text → Text) (path fallback : Text)
    → (safe_redirect_path unquote (some path) fallback ≡ fallback)
      ⊎ ((safe_redirect_path unquote (some path) fallback ≡ path) × IsSafe unquote path)
unfolding safe_redirect_path
given-IsSafe unquote path fallback =
    let decoded = unquote path in
    let unsafe = not (is_rooted decoded) || any is_unsafe path || any is_unsafe decoded in
    elim (if-cases (is_nil path || not (is_rooted path)) fallback
      (if unsafe then fallback else path)) [
        | inl back ↦ inl back
        | inr (front, same) ↦ elim (if-cases unsafe fallback path) [
          | inl back ↦ inl (same ∙ back)
          | inr (clean, kept) ↦
              let (r, a, b) =
                safe_of (is_rooted decoded) (any is_unsafe path) (any is_unsafe decoded) clean in
              inr (
                same ∙ kept,
                record {
                  rooted = is_rooted-IsRooted path (rooted_of (is_nil path) (is_rooted path) front);
                  rooted_decoded = is_rooted-IsRooted decoded r;
                  printable = any-IsPrintable path a;
                  printable_decoded = any-IsPrintable decoded b;
                },
              )
        ]
      ]

-- A redirect leads to the fallback, or to the given path, which then starts at the root, names no
-- host, and has neither control characters nor backslashes, as given and as decoded.
pub safe_redirect_path-IsSafe :
    (unquote : Text → Text) (given : Option Text) (fallback : Text)
    → (safe_redirect_path unquote given fallback ≡ fallback)
      ⊎ ((path : Text) × (given ≡ some path)
          × (safe_redirect_path unquote given fallback ≡ path)
          × IsSafe unquote path)
unfolding safe_redirect_path
safe_redirect_path-IsSafe unquote none fallback = inl refl
safe_redirect_path-IsSafe unquote (some path) fallback = elim (given-IsSafe unquote path fallback) [
  | inl back ↦ inl back
  | inr (same, safe) ↦ inr (path, refl, same, safe)
]
