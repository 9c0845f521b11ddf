-- ===== src/Supervisor/Names.antt =====
-- The constructors of the supervisors: which names and paths they accept.
use caddybuddy.Certificates.Cover.Laws.{remove_suffix-eq-some}
use caddybuddy.Certificates.Cover.{remove_suffix}
use caddybuddy.Text.{is_digit, is_upper, is_lower, Text, text}
use caddybuddy.Certificates.Coverage.{ends_with}
use caddybuddy.Prelude.{
  ℕ, ◌≤◌, ◌≡◌, refl, sym, ap, ◌⊎◌, inl, inr, Bool, true, false, not, ◌&&◌, ◌||◌, Option, none, some,
  [], ◌∷◌, ◌++◌, arith, ◌==◌, if◌then◌else◌, ==_iff, Bool-cases, Option-cases, and-eq-true, is_nil,
  All,
}
use caddybuddy.Supervisor.ScriptPath.{Checked, FilePath, FileSystem, validate_script_path}

-- `[a-zA-Z0-9_.-]`
unfoldable pub is_container_char : ℕ → Bool
unfolding is_lower is_upper is_digit
is_container_char c = is_lower c || is_upper c || is_digit c || c == b'_' || c == b'.' || c == b'-'

-- `[a-zA-Z0-9_.@-]`
unfoldable pub is_unit_char : ℕ → Bool
unfolding is_container_char
is_unit_char c = is_container_char c || c == b'@'

-- `[...]*$`, where `$` also matches in front of a line feed that ends the text
unfoldable pub are_to_end : (ℕ → Bool) → Text → Bool
are_to_end p [] = true
are_to_end p (c ∷ []) = p c || c == 10
are_to_end p (c ∷ d ∷ s) = p c && are_to_end p (d ∷ s)

-- `[...]+$`
unfoldable pub are_some_to_end : (ℕ → Bool) → Text → Bool
unfolding are_to_end
are_some_to_end p [] = false
are_some_to_end p (c ∷ s) = p c && are_to_end p s

-- The name of the unit, or a `ValueError`. The first alternative of the pattern is part of the second.
unfoldable pub new_systemd : Text → Option Text
unfolding are_some_to_end is_unit_char ends_with
new_systemd unit =
    if not (are_some_to_end is_unit_char unit)
    then none
    else if ends_with (text ".service") unit
    then some unit
    else some (unit ++ text ".service")

unfoldable pub is_container_name : Text → Bool
unfolding are_some_to_end is_container_char
is_container_name [] = false
is_container_name (c ∷ s) =
    (is_lower c || is_upper c || is_digit c) && are_some_to_end is_container_char s

-- The container and the path, or a `ValueError`.
unfoldable pub new_docker : FileSystem → Text → Text → Option (Text × Text)
unfolding is_container_name
new_docker fs container caddyfile_path =
    if not (is_container_name container)
      || is_nil caddyfile_path
      || not (fs.is_absolute caddyfile_path)
    then none
    else some (container, caddyfile_path)

unfoldable pub new_script : FileSystem → Text → Checked FilePath
unfolding validate_script_path
new_script fs script_path = validate_script_path fs script_path

-- A letter or a digit of ASCII, or one of `_.@-`.
abbrev pub IsUnitChar : ℕ → Type 0
IsUnitChar c =
    ((97 ≤ c) × (c ≤ 122))
    ⊎ (((65 ≤ c) × (c ≤ 90))
        ⊎ (((48 ≤ c) × (c ≤ 57)) ⊎ ((c ≡ 95) ⊎ ((c ≡ 46) ⊎ ((c ≡ 64) ⊎ (c ≡ 45))))))

is_unit_char-IsUnitChar : (c : ℕ) → is_unit_char c ≡ true → IsUnitChar c
unfolding is_unit_char is_container_char is_lower is_upper is_digit
is_unit_char-IsUnitChar c h = ground arith

-- Characters of that kind, and a line feed after them or not.
abbrev pub IsUnitText : Text → Type 0
IsUnitText s = (core : Text) × All IsUnitChar core × ((s ≡ core) ⊎ (s ≡ core ++ 10 ∷ []))

IsUnitText-cons : (c : ℕ) (s : Text) → IsUnitChar c → IsUnitText s → IsUnitText (c ∷ s)
IsUnitText-cons c s h (core, all_core, inl same) =
    (c ∷ core, (h, all_core), inl (ap (λ t. c ∷ t) same))
IsUnitText-cons c s h (core, all_core, inr same) =
    (c ∷ core, (h, all_core), inr (ap (λ t. c ∷ t) same))

last_char : (c : ℕ) → (is_unit_char c || c == 10) ≡ true → IsUnitText (c ∷ [])
last_char c h = elim (Bool-cases (is_unit_char c)) [
  | inl fits ↦ (c ∷ [], (is_unit_char-IsUnitChar c fits, tt), inl refl)
  | inr odd ↦
      let feed : (c == 10) ≡ true = ground (arith, odd, h) in
      ([], tt, inr (ap (λ d. d ∷ []) ((==_iff c 10).0 feed)))
]

are_to_end-IsUnitText : (s : Text) → are_to_end is_unit_char s ≡ true → IsUnitText s
unfolding are_to_end
are_to_end-IsUnitText [] h = ([], tt, inl refl)
are_to_end-IsUnitText (c ∷ []) h = last_char c h
are_to_end-IsUnitText (c ∷ d ∷ s) h =
    let both = and-eq-true (is_unit_char c) (are_to_end is_unit_char (d ∷ s)) h in
    IsUnitText-cons c (d ∷ s) (is_unit_char-IsUnitChar c both.0)
      (are_to_end-IsUnitText (d ∷ s) both.1)

are_some_to_end-IsUnitText : (s : Text) → are_some_to_end is_unit_char s ≡ true → IsUnitText s
unfolding are_some_to_end
are_some_to_end-IsUnitText [] h = ground (arith, h)
are_some_to_end-IsUnitText (c ∷ s) h =
    let both = and-eq-true (is_unit_char c) (are_to_end is_unit_char s) h in
    IsUnitText-cons c s (is_unit_char-IsUnitChar c both.0) (are_to_end-IsUnitText s both.1)

ends_with-parts : (suffix s : Text) → ends_with suffix s ≡ true → (p : Text) × (s ≡ p ++ suffix)
unfolding ends_with
ends_with-parts suffix s h = elim (Option-cases (remove_suffix suffix s)) [
  | inl lacks ↦ ground (arith, h, lacks)
  | inr (p, found) ↦ (p, remove_suffix-eq-some suffix s p found)
]

-- A unit name that `SystemdSupervisor` accepts has letters and digits of ASCII and `_.@-`, and a line
-- feed at its end or not; the name of the unit is this one, which then ends with `.service`, or it
-- with `.service` added.
pub new_systemd-IsUnit :
    (unit name : Text)
    → new_systemd unit ≡ some name
    → IsUnitText unit
      × (((name ≡ unit) × ((p : Text) × (unit ≡ p ++ text ".service")))
          ⊎ (name ≡ unit ++ text ".service"))
unfolding new_systemd
new_systemd-IsUnit unit name h = elim (Bool-cases (are_some_to_end is_unit_char unit)) [
  | inl fits ↦ elim (Bool-cases (ends_with (text ".service") unit)) [
    | inl has ↦
        let same : unit ≡ name = ground (arith, h, fits, has) in
        (
          are_some_to_end-IsUnitText unit fits,
          inl (sym same, ends_with-parts (text ".service") unit has),
        )
    | inr lacks ↦
        let same : unit ++ text ".service" ≡ name = ground (arith, h, fits, lacks) in
        (are_some_to_end-IsUnitText unit fits, inr (sym same))
  ]
  | inr odd ↦ ground (arith, h, odd)
]
