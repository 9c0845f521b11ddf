-- ===== src/SslLabs/Schedule/Laws.antt =====
-- The next scan comes after the time that it has to come after.
use caddybuddy.SslLabs.Schedule.{Calendar}
use caddybuddy.Prelude.{ℕ, ◌+◌, ◌≤◌, ◌<◌, ◌≡◌, ◌⊎◌, Option, none, some}

-- What `datetime` and `calendar` promise: days count from one, months have days, and a valid date in
-- a later month makes a later time.
pub record IsCalendar (c : Calendar) : Type 0 where
  pub first_day : (t : ℕ) → 1 ≤ c.day t
  pub has_days : (y m : ℕ) → 1 ≤ c.month_length y m
  pub replaced :
      (t y m d : ℕ)
      → (c.year t < y) ⊎ ((c.year t ≡ y) × (c.month t < m))
      → 1 ≤ d
      → d ≤ c.month_length y m
      → t < c.replace t y m d

abbrev IsLater : ℕ → ℕ → ℕ × ℕ → Type 0
IsLater y m r = (y < r.0) ⊎ ((y ≡ r.0) × (m < r.1))

-- Later than the least time that is asked for, if one is.
abbrev pub IsAfter : Option ℕ → ℕ → Type 0
IsAfter none s = Unit
IsAfter (some minimum_after) s = minimum_after < s

-- Fuel that reaches the least time.
abbrev Enough : Option ℕ → ℕ → ℕ → Type 0
Enough none fuel base = 1 ≤ fuel
Enough (some m) fuel base = m + 1 ≤ fuel + base

abbrev Found : Option ℕ → Option ℕ → ℕ → Type 0
Found result o base = (s : ℕ) × (result ≡ some s) × IsAfter o s × (base < s)
