-- ===== src/Settings/Values/Nearest.antt =====
-- The retention snaps to the nearest allowed value.
use caddybuddy.Settings.Values.{
  strip, Text, history_retention_days, retention_of, retention_day_values, nearest, distance,
  is_value,
}
use caddybuddy.Web.Session.{ℤ}
use mathlib.Core.List.{Mem, mem-cons_self, mem-cons_of_mem}
use caddybuddy.Prelude.{
  ℕ, suc, ◌+◌, ◌≤◌, ◌≡◌, refl, sym, subst, ◌⊎◌, inl, inr, true, false, Option, some, List, [], ◌∷◌,
  arith, ltb, ◌==◌, ==_iff, Bool-cases, All, any,
}

-- One of the values, and none of them is nearer.
pub record IsNearest (days : ℤ) (values : List ℕ) (r : ℕ) : Type 0 where
  pub is_one : any (λ a. r == a) values ≡ true
  pub least : All (λ a. distance days r ≤ distance days a) values

nearest-nearer :
    (days : ℤ) (best a : ℕ) (rest : List ℕ)
    → ltb (distance days a) (distance days best) ≡ true
    → nearest days best (a ∷ rest) ≡ nearest days a rest
unfolding nearest
nearest-nearer days best a rest h = rw (nearest, h) refl

nearest-further :
    (days : ℤ) (best a : ℕ) (rest : List ℕ)
    → ltb (distance days a) (distance days best) ≡ false
    → nearest days best (a ∷ rest) ≡ nearest days best rest
unfolding nearest
nearest-further days best a rest h = rw (nearest, h) refl

IsNearest-later :
    (days : ℤ) (best a r : ℕ) (rest : List ℕ)
    → distance days a ≤ distance days best
    → IsNearest days (a ∷ rest) r
    → IsNearest days (best ∷ a ∷ rest) r
unfolding any
IsNearest-later days best a r rest h n = record {
  is_one = ground (arith, n.is_one);
  least = (omega (arith, h, n.least.0), n.least);
}

IsNearest-skips :
    (days : ℤ) (best a r : ℕ) (rest : List ℕ)
    → distance days best ≤ distance days a
    → IsNearest days (best ∷ rest) r
    → IsNearest days (best ∷ a ∷ rest) r
unfolding any
IsNearest-skips days best a r rest h n = record {
  is_one = ground (arith, n.is_one);
  least = (n.least.0, (omega (arith, h, n.least.0), n.least.1));
}

nearest-IsNearest :
    (days : ℤ) (best : ℕ) (allowed : List ℕ)
    → IsNearest days (best ∷ allowed) (nearest days best allowed)
unfolding nearest any
nearest-IsNearest days best [] = record { is_one = ground arith; least = (omega arith, tt) }
nearest-IsNearest days best (a ∷ rest) =
    elim (Bool-cases (ltb (distance days a) (distance days best))) [
      | inl nearer ↦
          subst (IsNearest days (best ∷ a ∷ rest)) (sym (nearest-nearer days best a rest nearer)) (
            IsNearest-later days best a (nearest days a rest) rest (ground (arith, nearer))
              (nearest-IsNearest days a rest))
      | inr further ↦
          subst (IsNearest days (best ∷ a ∷ rest)) (sym (nearest-further days best a rest further))
            (IsNearest-skips days best a (nearest days best rest) rest (ground (arith, further))
              (nearest-IsNearest days best rest))
    ]

is_value-any :
    (n : ℕ) (values : List ℕ) → is_value (ℤ.pos n) values ≡ true → any (λ a. n == a) values ≡ true
unfolding is_value any
is_value-any n [] h = h
is_value-any n (a ∷ values) h = ground (arith, h, is_value-any n values)

no_value : (n : ℕ) (values : List ℕ) → is_value (ℤ.negsuc n) values ≡ false
unfolding is_value
no_value n [] = refl
no_value n (a ∷ values) = no_value n values

distance-zero : (n : ℕ) → distance (ℤ.pos n) n ≡ 0
unfolding distance
distance-zero n = omega arith

All-distance :
    (n : ℕ) (values : List ℕ) → All (λ a. distance (ℤ.pos n) n ≤ distance (ℤ.pos n) a) values
All-distance n [] = tt
All-distance n (a ∷ values) = (
  subst (λ d. d ≤ distance (ℤ.pos n) a) (sym (distance-zero n)) (omega arith),
  All-distance n values,
)

retention_of-number :
    (n : ℕ) → is_value (ℤ.pos n) retention_day_values ≡ true → retention_of (some (ℤ.pos n)) ≡ n
unfolding retention_of
retention_of-number n h = rw (retention_of, h) refl

retention_of-snaps :
    (days : ℤ)
    → is_value days retention_day_values ≡ false
    → retention_of (some days) ≡ nearest days 0 (7 ∷ 14 ∷ 30 ∷ 90 ∷ 180 ∷ 365 ∷ [])
unfolding retention_of
retention_of-snaps days h = rw (retention_of, h) refl

snaps-IsNearest :
    (days : ℤ)
    → is_value days retention_day_values ≡ false
    → IsNearest days retention_day_values (retention_of (some days))
snaps-IsNearest days h =
    subst (IsNearest days retention_day_values) (sym (retention_of-snaps days h))
      (nearest-IsNearest days 0 (7 ∷ 14 ∷ 30 ∷ 90 ∷ 180 ∷ 365 ∷ []))

retention_of-IsNearest : (days : ℤ) → IsNearest days retention_day_values (retention_of (some days))
retention_of-IsNearest (ℤ.negsuc n) = snaps-IsNearest (ℤ.negsuc n) (no_value n retention_day_values)
retention_of-IsNearest (ℤ.pos n) = elim (Bool-cases (is_value (ℤ.pos n) retention_day_values)) [
  | inr other ↦ snaps-IsNearest (ℤ.pos n) other
  | inl known ↦
      subst (IsNearest (ℤ.pos n) retention_day_values) (sym (retention_of-number n known)) (record {
        is_one = is_value-any n retention_day_values known;
        least = All-distance n retention_day_values;
      })
]

-- `a` and `b` are `g` apart.
abbrev pub IsGap : ℕ → ℕ → ℕ → Type 0
IsGap g a b = (a ≡ b + g) ⊎ (b ≡ a + g)

-- For a natural number, no value is fewer days away; for a negative one, the answer is zero.
abbrev pub IsClosest : ℤ → ℕ → Type 0
IsClosest (ℤ.negsuc n) r = r ≡ 0
IsClosest (ℤ.pos n) r =
    All (λ a. (g h : ℕ) → IsGap g r n → IsGap h a n → g ≤ h) (0 ∷ 7 ∷ 14 ∷ 30 ∷ 90 ∷ 180 ∷ 365 ∷ [])

distance-IsGap : (n a g : ℕ) → IsGap g a n → distance (ℤ.pos n) a ≡ g
unfolding distance
distance-IsGap n a g (inl h) = omega arith
distance-IsGap n a g (inr h) = omega arith

closer :
    (n r a : ℕ)
    → distance (ℤ.pos n) r ≤ distance (ℤ.pos n) a
    → (g h : ℕ) → IsGap g r n
    → IsGap h a n
    → g ≤ h
closer n r a least g h near far =
    let one = distance-IsGap n r g near in let other = distance-IsGap n a h far in omega arith

All-closer :
    (n r : ℕ) (values : List ℕ)
    → All (λ a. distance (ℤ.pos n) r ≤ distance (ℤ.pos n) a) values
    → All (λ a. (g h : ℕ) → IsGap g r n → IsGap h a n → g ≤ h) values
All-closer n r [] h = tt
All-closer n r (a ∷ values) h = (closer n r a h.0, All-closer n r values h.1)

distance-positive : (n : ℕ) → distance (ℤ.negsuc n) 0 ≡ suc n
unfolding distance
distance-positive n = omega arith

below-zero : (n r : ℕ) → distance (ℤ.negsuc n) r ≤ distance (ℤ.negsuc n) 0 → r ≡ 0
unfolding distance
below-zero n r h = omega arith

IsNearest-IsClosest : (days : ℤ) (r : ℕ) → IsNearest days retention_day_values r → IsClosest days r
IsNearest-IsClosest (ℤ.negsuc n) r h = below-zero n r h.least.0
IsNearest-IsClosest (ℤ.pos n) r h = All-closer n r retention_day_values h.least

one_of : (r : ℕ) (values : List ℕ) → any (λ a. r == a) values ≡ true → Mem r values
unfolding any
one_of r [] h = ground (arith, h)
one_of r (a ∷ values) h = elim (Bool-cases (r == a)) [
  | inl same ↦ subst (λ x. Mem x (a ∷ values)) (sym ((==_iff r a).0 same)) mem-cons_self
  | inr other ↦ mem-cons_of_mem a (one_of r values (ground (arith, h, other)))
]

-- Whatever integer is stored, the retention is one of 0, 7, 14, 30, 90, 180 and 365 days; of these
-- none is fewer days away from the stored number, and for a negative one it is 0.
pub history_retention_days-IsNearest :
    (int : Text → Option ℤ) (raw : Text) (days : ℤ)
    → int (strip raw) ≡ some days
    → Mem (history_retention_days int raw) (0 ∷ 7 ∷ 14 ∷ 30 ∷ 90 ∷ 180 ∷ 365 ∷ [])
      × IsClosest days (history_retention_days int raw)
unfolding history_retention_days
history_retention_days-IsNearest int raw days h =
    let found =
      subst (λ o. IsNearest days retention_day_values (retention_of o)) (sym h)
        (retention_of-IsNearest days) in
    (
      one_of (history_retention_days int raw) retention_day_values found.is_one,
      IsNearest-IsClosest days (history_retention_days int raw) found,
    )
