-- ===== src/Backends/Utils/Rates.antt =====
-- django_smart_ratelimit/backends/utils.py: `parse_rate`, `validate_rate_config` and
-- `get_window_times`. A digit is an ASCII one; `none` is ImproperlyConfigured.
pub mod Parse
use django_smart_ratelimit.Prelude.{
  ℕ, zero, suc, ◌+◌, ◌-◌, ◌*◌, ◌/◌, ◌≡◌, refl, Bool, true, false, not, ◌&&◌, ◌||◌, Option, none,
  some, List, [], ◌∷◌, ◌++◌, Text, text_key, codes, ◌==◌, ltb, leb, nat_beq, get_or, if◌then◌else◌,
}
use django_smart_ratelimit.Prelude.Int.{ℤ, pos, negsuc}
use django_smart_ratelimit.Prelude.Dict
use django_smart_ratelimit.Prelude.Dict.{Dict}
use django_smart_ratelimit.Prelude.Strings.{strip, split_by}

abbrev pub is_digit : ℕ → Bool
is_digit c = leb b'0' c && leb c b'9'

-- The digits of `int(…)`, in which single underscores may stand between digits. The flag says that
-- the last character was a digit.
unfoldable pub scan_int : Bool → ℕ → Text → Option ℕ
scan_int after_digit n [] = if after_digit then some n else none
scan_int after_digit n (c ∷ t) =
    let digit = scan_int true (n * 10 + (c - b'0')) t in
    let underscore = scan_int false n t in
    if is_digit c then digit else if nat_beq c b'_' && after_digit then underscore else none

unfoldable pub negative : Option ℕ → Option ℤ
negative none = none
negative (some zero) = some (pos 0)
negative (some (suc n)) = some (negsuc n)

unfoldable pub positive : Option ℕ → Option ℤ
positive none = none
positive (some n) = some (pos n)

unfoldable pub signed_int : Text → Option ℤ
unfolding scan_int negative positive
signed_int [] = none
signed_int (c ∷ t) =
    if nat_beq c b'-'
    then negative (scan_int false 0 t)
    else if nat_beq c b'+'
    then positive (scan_int false 0 t)
    else positive (scan_int false 0 (c ∷ t))

-- `int(text)`; `none` is the ValueError.
unfoldable pub parse_int : Text → Option ℤ
unfolding signed_int strip
parse_int text = signed_int (strip text)

unfoldable pub period_map : Dict Text ℕ
period_map =
    (codes "s", 1)
    ∷ (codes "m", 60)
    ∷ (codes "h", 3600)
    ∷ (codes "d", 86400)
    ∷ (codes "sec", 1)
    ∷ (codes "second", 1)
    ∷ (codes "min", 60)
    ∷ (codes "minute", 60)
    ∷ (codes "hr", 3600)
    ∷ (codes "hour", 3600)
    ∷ (codes "day", 86400)
    ∷ []

-- `[smhd]$`, where `$` also stands before a line break at the end.
unfoldable pub unit_seconds : Text → Option ℕ
unfolding period_map Dict.get
unit_seconds [] = none
unit_seconds (u ∷ []) =
    if nat_beq u b's' || nat_beq u b'm' || nat_beq u b'h' || nat_beq u b'd'
    then Dict.get period_map (u ∷ [])
    else none
unit_seconds (u ∷ c ∷ []) =
    if (nat_beq u b's' || nat_beq u b'm' || nat_beq u b'h' || nat_beq u b'd') && nat_beq c 10
    then Dict.get period_map (u ∷ [])
    else none
unit_seconds (u ∷ c ∷ d ∷ t) = none

-- `^(\d+)([smhd])$` and its two groups; the flag says that there has been a digit.
unfoldable pub match_custom : Bool → ℕ → Text → Option (ℕ × ℕ)
match_custom some_digit n [] = none
match_custom some_digit n (c ∷ t) =
    let rest = match_custom true (n * 10 + (c - b'0')) t in
    if is_digit c
    then rest
    else if some_digit
    then (elim (unit_seconds (c ∷ t)) [ none ↦ none | some seconds ↦ some (n, seconds) ])
    else none

unfoldable pub parse_period : Text → Option ℕ
parse_period period_str = elim (Dict.get period_map period_str) [
  | some period ↦ some period
  | none ↦ elim (match_custom false 0 period_str) [
    | none ↦ none
    | some (multiplier, seconds) ↦
        if nat_beq multiplier 0 then none else some (multiplier * seconds)
  ]
]

-- The limit is first, and is not negative.
unfoldable pub limit_and_period : Option ℤ → Option ℕ → Option (ℕ × ℕ)
limit_and_period none period = none
limit_and_period (some (negsuc n)) period = none
limit_and_period (some (pos n)) none = none
limit_and_period (some (pos n)) (some period) = some (n, period)

unfoldable pub parse_rate : Text → Option (ℕ × ℕ)
parse_rate rate = elim (split_by (λ c. nat_beq c b'/') rate) [
  | [] ↦ none
  | limit_str ∷ rest ↦ elim rest [
    | [] ↦ none
    | period_str ∷ more ↦ elim more [
      | [] ↦ limit_and_period (parse_int limit_str) (parse_period period_str)
      | _ ∷ _ ↦ none
    ]
  ]
]

-- A setting of an algorithm, by what its check looks at: a number by its sign.
pub data Setting : Type 0 where
  number : ℤ → Setting
  not_number : Setting

unfoldable pub non_negative : Option Setting → Bool
non_negative none = true
non_negative (some (number (pos n))) = true
non_negative (some (number (negsuc n))) = false
non_negative (some not_number) = false

unfoldable pub strictly_positive : Option Setting → Bool
strictly_positive none = true
strictly_positive (some (number (pos n))) = ltb 0 n
strictly_positive (some (number (negsuc n))) = false
strictly_positive (some not_number) = false

pub data Algorithm : Type 0 where
  fixed_window sliding_window token_bucket leaky_bucket : Algorithm

-- The name of an algorithm; `none` is an unknown one.
unfoldable pub algorithm_named : Text → Option Algorithm
algorithm_named name =
    if name == codes "fixed_window"
    then some fixed_window
    else if name == codes "sliding_window"
    then some sliding_window
    else if name == codes "token_bucket"
    then some token_bucket
    else if name == codes "leaky_bucket"
    then some leaky_bucket
    else none

-- Whether `validate_rate_config` raises nothing. The algorithm may be missing or empty.
unfoldable pub validate_rate_config : Text → Text → Dict Text Setting → Bool
validate_rate_config rate [] settings = elim (parse_rate rate) [ none ↦ false | some _ ↦ true ]
validate_rate_config rate (c ∷ algorithm) settings = elim (parse_rate rate) [
  | none ↦ false
  | some _ ↦ elim (algorithm_named (c ∷ algorithm)) [
    | none ↦ false
    | some fixed_window ↦ true
    | some sliding_window ↦ true
    | some token_bucket ↦
        non_negative (Dict.get settings (codes "bucket_size"))
        && non_negative (Dict.get settings (codes "refill_rate"))
    | some leaky_bucket ↦
        non_negative (Dict.get settings (codes "leak_rate"))
        && strictly_positive (Dict.get settings (codes "bucket_capacity"))
  ]
]

-- The start and the end of a window; `now` is in milliseconds, as are they. With `none` the setting
-- `RATELIMIT_ALIGN_WINDOW_TO_CLOCK` decides.
unfoldable pub get_window_times : Bool → ℕ → ℕ → Option Bool → ℕ × ℕ
get_window_times setting now window_seconds align_to_clock =
    let window_start : ℕ =
      if get_or align_to_clock setting
      then now / 1000 / window_seconds * window_seconds * 1000
      else now in
    (window_start, window_start + window_seconds * 1000)
