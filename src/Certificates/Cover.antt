-- ===== src/Certificates/Cover.antt =====
-- `dns_name_covers` of app/services/certificates.py: does one certificate name cover a domain?
pub mod Laws
use caddybuddy.Prelude.{
  ℕ, zero, suc, ◌+◌, ◌-◌, ◌*◌, ◌/◌, ◌%◌, ◌^◌, ◌≤◌, ◌<◌, String, ◌≡◌, refl, sym, ap, ◌∙◌, subst, ◌≢◌,
  ◌↔◌, ◌⊎◌, inl, inr, Bool, true, false, not, ◌&&◌, ◌||◌, false≢true, Option, none, some, List, [],
  ◌∷◌, ◌++◌, map, reverse, arith, ltb, leb, ◌==◌, if◌then◌else◌, ltb→lt, lt→ltb, leb→le, ==_iff,
  Bool-cases, Option-cases, and-eq-true, length, is_nil, All, length-append, all, any, all-append,
  All-append, All-all,
}
use caddybuddy.Text.{Text, text_eq, is_space}
use caddybuddy.Text.Strip.{strip_by}
use caddybuddy.Domains.Shape.{Runtime}

pub data CoverKind : Type 0 where
  exact wildcard : CoverKind

-- `value.lower().strip()`
unfoldable pub normalized : Runtime → Text → Text
normalized rt value = strip_by is_space (rt.lower value)

-- The text without the suffix, if it ends with it.
unfoldable pub remove_suffix : Text → Text → Option Text
remove_suffix suffix [] = if text_eq [] suffix then some [] else none
remove_suffix suffix (c ∷ s) =
    let rest = remove_suffix suffix s in
    if text_eq (c ∷ s) suffix then some [] else elim rest [ none ↦ none | some r ↦ some (c ∷ r) ]

unfoldable pub contains_dot : Text → Bool
contains_dot s = any (λ c. c == b'.') s

-- `remainder and "." not in remainder`
unfoldable pub is_one_label : Option Text → Bool
unfolding contains_dot
is_one_label none = false
is_one_label (some r) = not (is_nil r) && not (contains_dot r)

-- The name behind `*`, where the name starts with `*.`.
unfoldable pub wildcard_suffix : Text → Option Text
wildcard_suffix [] = none
wildcard_suffix (a ∷ []) = none
wildcard_suffix (a ∷ b ∷ s) = if a == b'*' && b == b'.' then some (b ∷ s) else none

-- The last test of the function, on what `wildcard_suffix` gives.
unfoldable pub covers_below : Option Text → Text → Bool × Option CoverKind
unfolding is_one_label remove_suffix
covers_below none domain = (false, none)
covers_below (some suffix) domain =
    if is_one_label (remove_suffix suffix domain) then (true, some wildcard) else (false, none)

unfoldable pub covers_normalized : Text → Text → Bool × Option CoverKind
unfolding wildcard_suffix covers_below
covers_normalized cert_name domain =
    if is_nil cert_name || is_nil domain
    then (false, none)
    else if text_eq cert_name domain
    then (true, some exact)
    else covers_below (wildcard_suffix cert_name) domain

unfoldable pub dns_name_covers : Runtime → Text → Text → Bool × Option CoverKind
unfolding covers_normalized normalized
dns_name_covers rt cert_name domain =
    covers_normalized (normalized rt cert_name) (normalized rt domain)
