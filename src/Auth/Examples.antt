-- ===== src/Auth/Examples.antt =====
-- The theorems on the second factor applied to one user, with an HMAC that is constant.
use caddybuddy.Auth.Captcha.Laws.{verify_captcha_token-IsAuthentic, IsAuthentic}
use caddybuddy.Auth.Captcha.{
  after_epoch, is_blank, passed, push_left, split_first, split_last, judge_age, judge_time,
  judge_parts, judge_raw, judge_decoded, verify_captcha_token, Codec,
}
use caddybuddy.Auth.Lifecycle.{
  handle_all-is_complete, verify, disable, enrollment-KeepsEnabled, handle_all, is_complete,
}
use caddybuddy.Auth.Recovery.{consume_recovery_code-count, count, RoundTrips}
use caddybuddy.Auth.Replay.{verify_otp_factor-NoReplay, after, Attempt, attempt, counter_in}
use caddybuddy.Auth.Otp.{
  Item, string, repeat, is_hex, is_totp_code, is_recovery_code, is_recovery_hash, padding,
  four_bytes, zfill, expected_code, decode_key, match_code, verify_totp, keep_hashes, stored_items,
  stored_hashes, remove_hash, consume_recovery_code, Library,
}
use caddybuddy.Auth.Service.{
  totp, Cipher, decrypt_otp_secret, begin_otp_enrollment, pending_otp_secret, counter_of,
  confirm_with, confirm_otp_enrollment, verify_recovery, verify_with, verify_otp_factor,
}
use caddybuddy.Auth.Users.{
  Session, no_otp, update_where, start_otp_enrollment, confirm_enrollment, consume_otp_counter,
  replace_codes, disable_otp, OtpRow,
}
use caddybuddy.Text.{
  Text, text, text_eq, member, is_space, is_ascii_space, is_digit, is_lower, is_upper,
}
use caddybuddy.Prelude.{
  ℕ, zero, suc, ◌+◌, ◌≡◌, refl, ap, ◌∙◌, Bool, true, ◌&&◌, Option, none, some, List, [], ◌∷◌, ◌++◌,
  map, arith, ltb, if◌then◌else◌, all,
}
use caddybuddy.Text.Strip.{lstrip_by, rstrip_by, strip_by}
use caddybuddy.Domains.Examples.{ascii_lower}

-- A list of texts as one text: each text with its characters moved up by one, and a zero at its end.
abbrev encode : List Text → Text
encode [] = []
encode (x ∷ xs) = map suc x ++ 0 ∷ encode xs

abbrev push : ℕ → List Text → List Text
push c [] = (c ∷ []) ∷ []
push c (x ∷ xs) = (c ∷ x) ∷ xs

abbrev decode : Text → List Text
decode [] = []
decode (zero ∷ s) = [] ∷ decode s
decode (suc c ∷ s) = push c (decode s)

decode-append : (x : Text) (s : Text) → decode (map suc x ++ 0 ∷ s) ≡ x ∷ decode s
decode-append [] s = refl
decode-append (c ∷ x) s = ap (push c) (decode-append x s)

decode-encode : (xs : List Text) → decode (encode xs) ≡ xs
decode-encode [] = refl
decode-encode (x ∷ xs) = decode-append x (encode xs) ∙ ap (λ ys. x ∷ ys) (decode-encode xs)

abbrev load : Text → Option (List Item)
load [] = none
load (c ∷ s) = some (map string (decode s))

-- Every digest is twenty zero bytes, for which the code is 000000.
abbrev library : Library
library = record {
  loads = load;
  dumps = λ xs. 1 ∷ encode xs;
  recovery_hash = λ code. repeat 64 b'a';
  b32decode = λ s. some [];
  hmac_sha1 = λ key counter. repeat 20 0;
  lower = map ascii_lower;
  upper = λ s. s;
}

library-RoundTrips : RoundTrips library
library-RoundTrips xs = (ap (λ ys. some (map string ys)) (decode-encode xs), refl)

abbrev cipher : Cipher
cipher = record { encrypt = λ s. s; decrypt = λ s. some s }

abbrev enabled_row : OtpRow
enabled_row = record {
  otp_enabled = true;
  otp_secret = some (text "secret");
  otp_recovery_codes = some (1 ∷ encode (repeat 64 b'a' ∷ []));
  otp_last_verified_counter = some 1;
}

abbrev attempt_at : ℕ → Attempt
attempt_at time = record { user = enabled_row; code = text "000000"; now = time }

accepted : (attempt library cipher (some enabled_row) (attempt_at 60)).1 ≡ some totp
unfolding is_hex is_totp_code is_recovery_code is_recovery_hash padding four_bytes zfill
    expected_code decode_key match_code verify_totp keep_hashes stored_items stored_hashes
    remove_hash consume_recovery_code decrypt_otp_secret begin_otp_enrollment pending_otp_secret
    counter_of confirm_with confirm_otp_enrollment verify_recovery verify_with verify_otp_factor
    update_where start_otp_enrollment confirm_enrollment consume_otp_counter replace_codes
    disable_otp lstrip_by rstrip_by strip_by text_eq member is_space is_ascii_space is_digit
    is_lower is_upper all
accepted = refl

step_of :
    (counter_in library cipher (attempt_at 60) ≡ some 2)
    × (counter_in library cipher (attempt_at 45) ≡ some 1)
unfolding is_hex is_totp_code is_recovery_code is_recovery_hash padding four_bytes zfill
    expected_code decode_key match_code verify_totp keep_hashes stored_items stored_hashes
    remove_hash consume_recovery_code decrypt_otp_secret begin_otp_enrollment pending_otp_secret
    counter_of confirm_with confirm_otp_enrollment verify_recovery verify_with verify_otp_factor
    update_where start_otp_enrollment confirm_enrollment consume_otp_counter replace_codes
    disable_otp lstrip_by rstrip_by strip_by text_eq member is_space is_ascii_space is_digit
    is_lower is_upper all
step_of = (refl, refl)

verify_otp_factor-NoReplay_example :
    (attempt library cipher
      (after library cipher (attempt library cipher (some enabled_row) (attempt_at 60)).0.row [])
      (attempt_at 45)).1
    ≡ none
verify_otp_factor-NoReplay_example =
    verify_otp_factor-NoReplay library cipher (some enabled_row) (attempt_at 60) [] (attempt_at 45)
      2 1 accepted step_of.0 step_of.1 (omega arith)

abbrev stored : Option Text
stored = enabled_row.otp_recovery_codes

abbrev spent : Bool × Text
spent = consume_recovery_code library (text "0123456789abcdef") stored

abbrev the_hash : Text
the_hash = repeat 64 b'a'

consume_recovery_code-count_example :
    (spent.0 ≡ (
      is_recovery_code (library.lower (strip_by is_space (text "0123456789abcdef")))
      && ltb 0 (count the_hash (stored_hashes library stored))))
    × (count the_hash (stored_hashes library (some spent.1))
          + (if spent.0 && text_eq the_hash the_hash then 1 else 0)
        ≡ count the_hash (stored_hashes library stored))
consume_recovery_code-count_example =
    consume_recovery_code-count library (text "0123456789abcdef") stored the_hash library-RoundTrips

handle_all-complete_example :
    is_complete (
      handle_all library cipher
        (some enabled_row)
        ((enabled_row, disable) ∷ (enabled_row, verify (text "000000") 90) ∷ []))
    ≡ true
handle_all-complete_example =
    handle_all-is_complete library cipher (some enabled_row)
      ((enabled_row, disable) ∷ (enabled_row, verify (text "000000") 90) ∷ []) refl

abbrev stale_user : OtpRow
stale_user = no_otp

abbrev stale_session : Session
stale_session = record { row = some enabled_row; user = stale_user }

enrollment-KeepsEnabled_example :
    (((begin_otp_enrollment library cipher (text "new") stale_session).0.row ≡ some enabled_row)
      × ((begin_otp_enrollment library cipher (text "new") stale_session).1 ≡ none))
    × (((confirm_otp_enrollment library cipher [] [] (text "000000") 60 stale_session).0.row
          ≡ some enabled_row)
        × ((confirm_otp_enrollment library cipher [] [] (text "000000") 60 stale_session).1 ≡ none))
enrollment-KeepsEnabled_example =
    enrollment-KeepsEnabled library cipher enabled_row stale_user (text "new") [] (text "000000") []
      60 refl

-- Nothing is encoded, and every signature is "sig".
abbrev plain_codec : Codec
plain_codec = record {
  decode = λ t. some t;
  sign = λ payload. text "sig";
  int = λ digits. some (after_epoch 5);
}

form_passes :
    verify_captcha_token plain_codec 1000 21600000 10000 (some (text "v1:5:sig")) none ≡ passed
unfolding push_left split_first split_last judge_age judge_time judge_parts judge_raw judge_decoded
    verify_captcha_token text_eq member is_space is_ascii_space is_digit is_lower is_upper all
form_passes = refl

verify_captcha_token-IsAuthentic_example :
    (is_blank plain_codec 1000 21600000 10000 none ≡ true)
    × ((raw : Text) × (plain_codec.decode (text "v1:5:sig") ≡ some raw)
        × IsAuthentic plain_codec 1000 21600000 10000 raw)
verify_captcha_token-IsAuthentic_example =
    verify_captcha_token-IsAuthentic plain_codec 1000 21600000 10000 (text "v1:5:sig") none
      form_passes
