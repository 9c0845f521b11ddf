-- ===== src/Auth/Captcha/Laws.antt =====
-- What an accepted form token guarantees.
use caddybuddy.Auth.Captcha.{
  passed, after_epoch, before_epoch, is_blank, judge_age, Seconds, judge_decoded, judge_parts,
  judge_raw, judge_time, push_left, signed, split_first, split_last, verify_captcha_token, Codec,
}
use caddybuddy.Text.{text_eq_iff, text, Text}
use caddybuddy.Prelude.{
  ℕ, ◌+◌, ◌*◌, ◌≤◌, ◌≡◌, refl, sym, ap, ◌∙◌, subst, inl, inr, true, Option, none, some, [], ◌∷◌,
  ◌++◌, arith, ◌==◌, if◌then◌else◌, ==_iff, Bool-cases,
}

at_colon :
    (c : ℕ) (s : Text) (r : Text × Text)
    → (c == b':') ≡ true
    → (if c == b':' then some ([], s) else none) ≡ some r
    → c ∷ s ≡ r.0 ++ b':' ∷ r.1
at_colon c s r colon h =
    let p : ([], s) ≡ r = ground (arith, h) in
    subst (λ (x : Text × Text). c ∷ s ≡ x.0 ++ b':' ∷ x.1) p
      (ap (λ d. d ∷ s) ((==_iff c b':').0 colon))

push_left-some :
    (c : ℕ) (o : Option (Text × Text)) (r : Text × Text)
    → push_left c o ≡ some r
    → (a : Text) × (o ≡ some (a, r.1)) × (r.0 ≡ c ∷ a)
unfolding push_left
push_left-some c none r h = ground arith
push_left-some c (some (a, b)) r h = (a, ground arith, ground arith)

split_first-some : (s : Text) (r : Text × Text) → split_first s ≡ some r → s ≡ r.0 ++ b':' ∷ r.1
unfolding split_first
split_first-some [] r h = ground arith
split_first-some (c ∷ s) r h = elim (Bool-cases (c == b':')) [
  | inl colon ↦ at_colon c s r colon (ground arith)
  | inr other ↦
      let (a, e, front) = push_left-some c (split_first s) r (ground arith) in
      ap (λ t. c ∷ t) (split_first-some s (a, r.1) e) ∙ ap (λ t. t ++ b':' ∷ r.1) (sym front)
]

split_last-cases :
    (c : ℕ) (s : Text) (r : Text × Text) (o : Option (Text × Text))
    → split_last s ≡ o
    → elim (push_left c o) [ some r ↦ some r | none ↦ if c == b':' then some ([], s) else none ]
      ≡ some r
    → ((o' : Text × Text) → split_last s ≡ some o' → s ≡ o'.0 ++ b':' ∷ o'.1)
    → c ∷ s ≡ r.0 ++ b':' ∷ r.1
unfolding push_left
split_last-cases c s r none e h again = at_colon c s r (ground arith) h
split_last-cases c s r (some (a, b)) e h again =
    let p : (c ∷ a, b) ≡ r = ground (arith, h) in
    subst (λ (x : Text × Text). c ∷ s ≡ x.0 ++ b':' ∷ x.1) p (ap (λ t. c ∷ t) (again (a, b) e))

split_last-some : (s : Text) (r : Text × Text) → split_last s ≡ some r → s ≡ r.0 ++ b':' ∷ r.1
unfolding split_last
split_last-some [] r h = ground arith
split_last-some (c ∷ s) r h = split_last-cases c s r (split_last s) refl h (split_last-some s)

module _ (codec : Codec) (min_age max_age now : ℕ) where
  -- The token is not from the future, and neither too old nor too young.
  abbrev pub IsCurrent : Seconds → Type 0
  IsCurrent (before_epoch s) = (now + 1000 * s ≤ max_age) × (min_age ≤ now + 1000 * s)
  IsCurrent (after_epoch s) =
      (1000 * s ≤ now) × (now ≤ max_age + 1000 * s) × (min_age + 1000 * s ≤ now)

  judge_time-IsCurrent :
      (s : Seconds) → judge_time codec min_age max_age now (some s) ≡ passed → IsCurrent s
  unfolding judge_time judge_age
  judge_time-IsCurrent (before_epoch s) h = ground arith
  judge_time-IsCurrent (after_epoch s) h = ground arith

  -- What an accepted text is: signed, of the version, and current.
  abbrev pub IsAuthentic : Text → Type 0
  IsAuthentic raw =
      (issued_at : Text) × (raw ≡ signed codec issued_at)
      × ((s : Seconds) × (codec.int issued_at ≡ some s) × IsCurrent s)

  judge_int-IsCurrent :
      (o : Option Seconds)
      → judge_time codec min_age max_age now o ≡ passed
      → (s : Seconds) × (o ≡ some s) × IsCurrent s
  unfolding judge_time
  judge_int-IsCurrent none h = ground arith
  judge_int-IsCurrent (some s) h = (s, refl, judge_time-IsCurrent s h)

  judge_parts-IsAuthentic :
      (payload signature : Text) (o : Option (Text × Text))
      → split_first payload ≡ o
      → judge_parts codec min_age max_age now payload signature o ≡ passed
      → IsAuthentic (payload ++ b':' ∷ signature)
  unfolding judge_parts
  judge_parts-IsAuthentic payload signature none e h = ground arith
  judge_parts-IsAuthentic payload signature (some (version, issued_at)) e h =
      let v : version ≡ text "v1" = (text_eq_iff version (text "v1")).0 (ground arith) in
      let g : signature ≡ codec.sign payload =
        (text_eq_iff signature (codec.sign payload)).0 (ground arith) in
      let p : payload ≡ text "v1:" ++ issued_at =
        split_first-some payload (version, issued_at) e ∙ ap (λ t. t ++ b':' ∷ issued_at) v in
      (
        issued_at,
        ap (λ t. payload ++ b':' ∷ t) g ∙ ap (λ t. t ++ b':' ∷ codec.sign t) p,
        judge_int-IsCurrent (codec.int issued_at) (ground arith),
      )

  judge_raw-IsAuthentic :
      (raw : Text) (o : Option (Text × Text))
      → split_last raw ≡ o
      → judge_raw codec min_age max_age now o ≡ passed
      → IsAuthentic raw
  unfolding judge_raw
  judge_raw-IsAuthentic raw none e h = ground arith
  judge_raw-IsAuthentic raw (some (payload, signature)) e h =
      subst IsAuthentic (sym (split_last-some raw (payload, signature) e))
        (judge_parts-IsAuthentic payload signature (split_first payload) refl h)

  judge_decoded-IsAuthentic :
      (o : Option Text)
      → judge_decoded codec min_age max_age now o ≡ passed
      → (raw : Text) × (o ≡ some raw) × IsAuthentic raw
  unfolding judge_decoded
  judge_decoded-IsAuthentic none h = ground arith
  judge_decoded-IsAuthentic (some raw) h =
      (raw, refl, judge_raw-IsAuthentic raw (split_last raw) refl h)

  -- If `verify_captcha_token` accepts a submission, the honeypot field is blank, and the token decodes to
  -- the version, a time of issue and the signature of both under the secret key, where the time reads
  -- as a number of seconds that is not in the future, and not further back than the maximal age nor
  -- nearer than the minimal age.
  pub verify_captcha_token-IsAuthentic :
      (token : Text) (honeypot : Option Text)
      → verify_captcha_token codec min_age max_age now (some token) honeypot ≡ passed
      → (is_blank codec min_age max_age now honeypot ≡ true)
        × ((raw : Text) × (codec.decode token ≡ some raw) × IsAuthentic raw)
  unfolding verify_captcha_token
  verify_captcha_token-IsAuthentic [] honeypot h = ground arith
  verify_captcha_token-IsAuthentic (c ∷ s) honeypot h =
      (ground arith, judge_decoded-IsAuthentic (codec.decode (c ∷ s)) (ground arith))
