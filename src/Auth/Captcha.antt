-- ===== src/Auth/Captcha.antt =====
-- app/utils/hidden_captcha.py: `verify_captcha_token`.
pub mod Laws
use caddybuddy.Text.{text_eq_iff, is_space, text, text_eq, Text}
use caddybuddy.Text.Strip.{strip_by}
use caddybuddy.Prelude.{
  ℕ, zero, suc, ◌+◌, ◌-◌, ◌*◌, ◌/◌, ◌%◌, ◌^◌, ◌≤◌, ◌<◌, String, ◌≡◌, refl, sym, ap, ◌∙◌, subst, ◌≢◌,
  ◌↔◌, ◌⊎◌, inl, inr, Bool, true, false, not, ◌&&◌, ◌||◌, false≢true, Option, none, some, List, [],
  ◌∷◌, ◌++◌, map, reverse, arith, ltb, leb, ◌==◌, if◌then◌else◌, ltb→lt, lt→ltb, leb→le, ==_iff,
  Bool-cases, Option-cases, and-eq-true, length, is_nil, All, length-append, all, any, all-append,
  All-append, All-all,
}

-- The outcomes, and the `TypeError` that `compare_digest` raises and nothing catches.
pub data CaptchaOutcome : Type 0 where
  passed honeypot_filled missing invalid expired too_fast type_error : CaptchaOutcome

-- The seconds that `int` reads, which may be negative.
pub data Seconds : Type 0 where
  after_epoch before_epoch : ℕ → Seconds

-- What is called: Base64 and UTF-8 decoding of the padded token, the HMAC under the secret key, `int`;
-- each `none` where it raises.
pub record Codec : Type 0 where
  pub decode : Text → Option Text
  pub sign : Text → Text
  pub int : Text → Option Seconds

unfoldable pub push_left : ℕ → Option (Text × Text) → Option (Text × Text)
push_left c none = none
push_left c (some (a, b)) = some (c ∷ a, b)

-- `s.split(":", 1)`, `none` where there is no colon to unpack at
unfoldable pub split_first : Text → Option (Text × Text)
unfolding push_left
split_first [] = none
split_first (c ∷ s) =
    let rest = push_left c (split_first s) in if c == b':' then some ([], s) else rest

-- `s.rsplit(":", 1)`
unfoldable pub split_last : Text → Option (Text × Text)
unfolding push_left
split_last [] = none
split_last (c ∷ s) = elim (push_left c (split_last s)) [
  | some r ↦ some r
  | none ↦ if c == b':' then some ([], s) else none
]

module _ (codec : Codec) (min_age max_age now : ℕ) where
  -- The tests of the age; all times are milliseconds.
  unfoldable pub judge_age : ℕ → CaptchaOutcome
  judge_age age =
      if ltb max_age age
      then expired
      else if ltb 0 min_age && ltb age min_age
      then too_fast
      else passed

  unfoldable pub judge_time : Option Seconds → CaptchaOutcome
  unfolding judge_age
  judge_time none = invalid
  judge_time (some (before_epoch s)) = judge_age (now + 1000 * s)
  judge_time (some (after_epoch s)) =
      if ltb now (1000 * s) then invalid else judge_age (now - 1000 * s)

  -- The version, and the signature of the payload: `compare_digest` takes texts in ASCII only.
  unfoldable pub judge_parts : Text → Text → Option (Text × Text) → CaptchaOutcome
  unfolding judge_time
  judge_parts payload signature none = invalid
  judge_parts payload signature (some (version, issued_at)) =
      if not (text_eq version (text "v1"))
      then invalid
      else if not (all (λ c. ltb c 128) signature)
      then type_error
      else if not (text_eq signature (codec.sign payload))
      then invalid
      else judge_time (codec.int issued_at)

  unfoldable pub judge_raw : Option (Text × Text) → CaptchaOutcome
  unfolding judge_parts split_first
  judge_raw none = invalid
  judge_raw (some (payload, signature)) = judge_parts payload signature (split_first payload)

  unfoldable pub judge_decoded : Option Text → CaptchaOutcome
  unfolding judge_raw split_last
  judge_decoded none = invalid
  judge_decoded (some raw) = judge_raw (split_last raw)

  abbrev pub is_blank : Option Text → Bool
  is_blank none = true
  is_blank (some s) = is_nil (strip_by is_space s)

  abbrev judge_token : Option Text → CaptchaOutcome
  judge_token none = missing
  judge_token (some []) = missing
  judge_token (some (c ∷ s)) = judge_decoded (codec.decode (c ∷ s))

  unfoldable pub verify_captcha_token : Option Text → Option Text → CaptchaOutcome
  unfolding judge_decoded
  verify_captcha_token token honeypot =
      if not (is_blank honeypot) then honeypot_filled else judge_token token

-- `_TOKEN_VERSION`, the time of issue and the signature, joined by colons: what is encoded as a token.
abbrev pub signed : Codec → Text → Text
signed codec issued_at =
    let payload = text "v1:" ++ issued_at in payload ++ b':' ∷ codec.sign payload
