-- ===== src/SslLabs/Schedule.antt =====
-- The schedule of the scans; a time is a number of seconds from the first that `datetime` has. That
-- there is a last one, after which it raises `OverflowError`, is left out.
pub mod Laws
use caddybuddy.Text.{member, text, text_eq, Text}
use caddybuddy.Text.Search.{strip}
use caddybuddy.Prelude.{
  ℕ, zero, suc, ◌+◌, ◌-◌, ◌*◌, ◌%◌, Bool, true, false, ◌||◌, Option, none, some, List, [], ◌∷◌,
  ◌++◌, ltb, ◌==◌, if◌then◌else◌, is_nil,
}

pub data Frequency : Type 0 where
  weekly monthly : Frequency

-- `none` where it raises `ValueError`; the inner option is the frequency.
unfoldable pub normalize_ssllabs_schedule_frequency :
    (Text → Text) → Option Text → Option (Option Frequency)
unfolding strip text_eq
normalize_ssllabs_schedule_frequency lower none = some none
normalize_ssllabs_schedule_frequency lower (some raw_value) =
    let normalized = lower (strip raw_value) in
    if is_nil normalized
    then some none
    else if text_eq normalized (text "weekly")
    then some (some weekly)
    else if text_eq normalized (text "monthly")
    then some (some monthly)
    else none

abbrev pub off_words : List Text
off_words = text "off" ∷ text "false" ∷ text "0" ∷ text "no" ∷ []

abbrev pub weekly_words : List Text
weekly_words = text "on" ∷ text "weekly" ∷ text "true" ∷ text "1" ∷ text "yes" ∷ []

unfoldable pub parse_ssllabs_schedule_control : (Text → Text) → Text → Option (Option Frequency)
unfolding strip text_eq member
parse_ssllabs_schedule_control lower raw_value =
    let normalized = lower (strip raw_value) in
    if is_nil normalized || member normalized off_words
    then some none
    else if member normalized weekly_words
    then some (some weekly)
    else if text_eq normalized (text "monthly")
    then some (some monthly)
    else none

abbrev pub day_seconds : ℕ
day_seconds = 86400

abbrev pub schedule_interval : Frequency → ℕ
schedule_interval weekly = 7 * day_seconds
schedule_interval monthly = 28 * day_seconds

-- `datetime` and `calendar`: the parts of a time, a time with its date replaced, and the length of a
-- month.
pub record Calendar : Type 0 where
  pub year : ℕ → ℕ
  pub month : ℕ → ℕ
  pub day : ℕ → ℕ
  pub replace : ℕ → ℕ → ℕ → ℕ → ℕ
  pub month_length : ℕ → ℕ → ℕ

abbrev pub least_of : ℕ → ℕ → ℕ
least_of a b = if ltb b a then b else a

-- The year and the month that follow.
unfoldable pub next_month : ℕ → ℕ → ℕ × ℕ
next_month year month = if month + 1 == 13 then (year + 1, 1) else (year, month + 1)

unfoldable pub advance_schedule_base : Calendar → Frequency → ℕ → ℕ
unfolding next_month
advance_schedule_base c weekly reference = reference + schedule_interval weekly
advance_schedule_base c monthly reference =
    let (year, month) = next_month (c.year reference) (c.month reference) in
    c.replace reference year month (least_of (c.day reference) (c.month_length year month))

-- `digest` stands for the first eight bytes of the hash of a key.
unfoldable pub deterministic_jitter_seconds : (Text → ℕ) → Text → ℕ → ℕ
deterministic_jitter_seconds digest key zero = 0
deterministic_jitter_seconds digest key (suc n) = digest key % (suc n + 1)

abbrev pub frequency_text : Frequency → Text
frequency_text weekly = text "weekly"
frequency_text monthly = text "monthly"

-- `max_jitter` in seconds, below zero as zero
unfoldable pub jitter_of : (Text → ℕ) → Frequency → Option Text → Option ℕ → ℕ
unfolding deterministic_jitter_seconds
jitter_of digest frequency (some key) (some max_jitter) =
    deterministic_jitter_seconds digest (frequency_text frequency ++ b':' ∷ key) max_jitter
jitter_of digest frequency _ _ = 0

abbrev pub is_after : Option ℕ → ℕ → Bool
is_after none scheduled = true
is_after (some minimum_after) scheduled = ltb minimum_after scheduled

-- The loop, with fuel for its rounds.
unfoldable pub schedule_from : Calendar → Frequency → ℕ → Option ℕ → ℕ → ℕ → Option ℕ
unfolding advance_schedule_base
schedule_from c frequency jitter minimum_after zero base = none
schedule_from c frequency jitter minimum_after (suc fuel) base =
    let candidate = advance_schedule_base c frequency base in
    let later = schedule_from c frequency jitter minimum_after fuel candidate in
    if is_after minimum_after (candidate + jitter) then some (candidate + jitter) else later

abbrev pub rounds : Option ℕ → ℕ
rounds none = 1
rounds (some minimum_after) = minimum_after + 1

-- The time without the jitter; a time before the first one raises `OverflowError`.
abbrev pub base_of : Bool → ℕ → ℕ → Option ℕ
base_of false jitter reference = some reference
base_of true jitter reference = if ltb reference jitter then none else some (reference - jitter)

abbrev pub schedule_at : Calendar → Frequency → ℕ → Option ℕ → Option ℕ → Option ℕ
schedule_at c frequency jitter minimum_after none = none
schedule_at c frequency jitter minimum_after (some base) =
    schedule_from c frequency jitter minimum_after (rounds minimum_after) base

-- All times in UTC.
unfoldable pub next_schedule_time :
    Calendar → (Text → ℕ) → Frequency → ℕ → Option Text → Option ℕ → Option ℕ → Bool → Option ℕ
unfolding schedule_from jitter_of
next_schedule_time c digest frequency reference jitter_key max_jitter minimum_after includes =
    let jitter = jitter_of digest frequency jitter_key max_jitter in
    schedule_at c frequency jitter minimum_after (base_of includes jitter reference)
