-- ===== src/Auth/Otp.antt =====
-- app/utils/otp.py: `verify_totp` and `consume_recovery_code`.
use caddybuddy.Text.{is_space, is_digit, text_eq, Text}
use caddybuddy.Text.Strip.{strip_by}
use caddybuddy.Prelude.{
  ℕ, zero, suc, ◌+◌, ◌-◌, ◌*◌, ◌/◌, ◌%◌, ◌^◌, Bool, true, false, not, ◌&&◌, ◌||◌, Option, none,
  some, List, [], ◌∷◌, ◌++◌, leb, ◌==◌, if◌then◌else◌, length, all,
}

-- An item of a decoded JSON array: a string, or something else.
pub data Item : Type 0 where
  string : Text → Item
  other : Item

-- What the program calls: `json`, `hmac` under the derived recovery key, Base32 and HMAC-SHA1, and
-- the two case methods. `loads` is `none` where the decoding raises a `JSONDecodeError`; a decoded
-- value is what iterating it yields, and the stored values are arrays.
pub record Library : Type 0 where
  pub loads : Text → Option (List Item)
  pub dumps : List Text → Text
  pub recovery_hash : Text → Text
  pub b32decode : Text → Option (List ℕ)
  pub hmac_sha1 : List ℕ → ℕ → List ℕ
  pub lower : Text → Text
  pub upper : Text → Text

unfoldable pub is_hex : ℕ → Bool
unfolding is_digit
is_hex c = is_digit c || leb b'a' c && leb c b'f'

-- `_TOTP_CODE_RE`, `_RECOVERY_CODE_RE` and `_RECOVERY_HASH_RE`, each under `fullmatch`.
unfoldable pub is_totp_code : Text → Bool
unfolding is_digit
is_totp_code s = all is_digit s && length s == 6

unfoldable pub is_recovery_code : Text → Bool
unfolding is_hex
is_recovery_code s = all is_hex s && length s == 16

unfoldable pub is_recovery_hash : Text → Bool
unfolding is_hex
is_recovery_hash s = all is_hex s && length s == 64

abbrev pub repeat : ℕ → ℕ → Text
repeat zero c = []
repeat (suc n) c = c ∷ repeat n c

-- `-n % 8` of Python
unfoldable pub padding : ℕ → ℕ
padding n = (8 - n % 8) % 8

abbrev pub drop : ℕ → List ℕ → List ℕ
drop zero s = s
drop (suc n) [] = []
drop (suc n) (c ∷ s) = drop n s

-- The last byte; an HMAC-SHA1 digest has twenty.
abbrev pub last_byte : List ℕ → ℕ
last_byte [] = 0
last_byte (b ∷ []) = b
last_byte (b ∷ c ∷ s) = last_byte (c ∷ s)

-- `int.from_bytes(s[:4], "big")`
unfoldable pub four_bytes : ℕ → ℕ → List ℕ → ℕ
four_bytes zero sum s = sum
four_bytes (suc n) sum [] = sum
four_bytes (suc n) sum (b ∷ s) = four_bytes n (sum * 256 + b) s

-- `str(n).zfill(width)` of a number with at most that many digits
unfoldable pub zfill : ℕ → ℕ → Text
zfill zero n = []
zfill (suc width) n = (b'0' + (n / 10 ^ width) % 10) ∷ zfill width n

unfoldable pub expected_code : List ℕ → Text
unfolding four_bytes zfill
expected_code digest =
    let offset = last_byte digest % 16 in
    zfill 6 (four_bytes 4 0 (drop offset digest) % 2 ^ 31 % 1000000)

module _ (lib : Library) where
  unfoldable pub decode_key : Text → Option (List ℕ)
  unfolding padding
  decode_key secret =
      let stripped = strip_by is_space secret in
      lib.b32decode (lib.upper stripped ++ repeat (padding (length stripped)) b'=')

  unfoldable pub match_code : ℕ → Text → List ℕ → Option ℕ
  unfolding expected_code
  match_code counter code key =
      if text_eq code (expected_code (lib.hmac_sha1 key counter)) then some counter else none

  -- `now` in seconds
  unfoldable pub verify_totp : Text → Text → ℕ → Option ℕ
  unfolding is_totp_code decode_key match_code
  verify_totp secret code now =
      let normalized_code = strip_by is_space code in
      if not (is_totp_code normalized_code) then none else elim (decode_key secret) [
        | none ↦ none
        | some key ↦ match_code (now / 30) normalized_code key
      ]

  -- The filter on the stored items.
  unfoldable pub keep_hashes : List Item → List Text
  unfolding is_recovery_hash
  keep_hashes [] = []
  keep_hashes (other ∷ items) = keep_hashes items
  keep_hashes (string s ∷ items) =
      let kept = keep_hashes items in if is_recovery_hash s then s ∷ kept else kept

  -- `json.loads(stored_json or "[]")`, and `[]` if that raises
  unfoldable pub stored_items : Option Text → List Item
  stored_items none = []
  stored_items (some []) = []
  stored_items (some (c ∷ s)) = elim (lib.loads (c ∷ s)) [ none ↦ [] | some items ↦ items ]

  unfoldable pub stored_hashes : Option Text → List Text
  unfolding keep_hashes stored_items
  stored_hashes stored_json = keep_hashes (stored_items stored_json)

-- The loop: the first equal hash is left out.
unfoldable pub remove_hash : Text → List Text → Bool × List Text
remove_hash candidate [] = (false, [])
remove_hash candidate (stored ∷ rest) =
    let later = remove_hash candidate rest in
    if text_eq candidate stored then (true, rest) else (later.0, stored ∷ later.1)

unfoldable pub consume_recovery_code : Library → Text → Option Text → Bool × Text
unfolding stored_hashes is_recovery_code remove_hash
consume_recovery_code lib candidate stored_json =
    let hashes = stored_hashes lib stored_json in
    let normalized = lib.lower (strip_by is_space candidate) in
    let answer = remove_hash (lib.recovery_hash normalized) hashes in
    if not (is_recovery_code normalized)
    then (false, lib.dumps hashes)
    else (answer.0, lib.dumps answer.1)
