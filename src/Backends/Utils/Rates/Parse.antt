-- ===== src/Backends/Utils/Rates/Parse.antt =====
-- What `parse_rate` (django_smart_ratelimit/backends/utils.py) accepts and returns.
use django_smart_ratelimit.Prelude.{
  ℕ, ◌+◌, ◌-◌, ◌*◌, ◌≤◌, ◌≡◌, refl, ap, sym, ◌∙◌, inl, inr, Bool, true, false, ◌&&◌, Option, none,
  some, [], ◌∷◌, ◌++◌, ◌⊎◌, arith, Text, text_key, ltb, nat_beq, Option-cases, List-cases,
}
use django_smart_ratelimit.Prelude.Int.{ℤ, pos}
use django_smart_ratelimit.Prelude.Dict
use django_smart_ratelimit.Prelude.Dict.{Dict}
use django_smart_ratelimit.Prelude.Strings.{is_space, lstrip, rstrip, strip, split_by}
use django_smart_ratelimit.Backends.Utils.Rates.{
  is_digit, scan_int, positive, signed_int, parse_int, period_map, unit_seconds, match_custom,
  parse_period, limit_and_period, parse_rate,
}

abbrev pub all_digits : Text → Bool
all_digits [] = true
all_digits (c ∷ t) = is_digit c && all_digits t

-- The number that digits spell behind `n`.
abbrev pub value : ℕ → Text → ℕ
value n [] = n
value n (c ∷ t) = value (n * 10 + (c - b'0')) t

scan_int-digits :
    (n : ℕ) (ds : Text) → all_digits ds ≡ true → scan_int true n ds ≡ some (value n ds)
unfolding scan_int
scan_int-digits n [] h = refl
scan_int-digits n (c ∷ t) h = ground (arith, scan_int-digits (n * 10 + (c - b'0')) t)

rstrip-digits : (ds : Text) → all_digits ds ≡ true → rstrip ds ≡ ds
unfolding rstrip is_space
rstrip-digits [] h = refl
rstrip-digits (c ∷ []) h = ground arith
rstrip-digits (c ∷ d ∷ t) h = ground (arith, rstrip-digits (d ∷ t))

parse_int-digits :
    (c : ℕ) (ds : Text)
    → all_digits (c ∷ ds) ≡ true
    → parse_int (c ∷ ds) ≡ some (pos (value 0 (c ∷ ds)))
unfolding parse_int strip lstrip is_space signed_int scan_int positive
parse_int-digits c ds h = ground (arith, rstrip-digits (c ∷ ds) h, scan_int-digits (c - b'0') ds)

-- A unit is one of four letters.
unit_letter :
    (u seconds : ℕ)
    → unit_seconds (u ∷ []) ≡ some seconds
    → (is_digit u ≡ false) × (nat_beq u b'/' ≡ false) × (1 ≤ seconds)
unfolding unit_seconds
unit_letter u seconds e = (ground arith, ground arith, ground arith)

match_custom-digits :
    (n : ℕ) (ds : Text) (u seconds : ℕ)
    → all_digits ds ≡ true
    → unit_seconds (u ∷ []) ≡ some seconds
    → match_custom true n (ds ++ u ∷ []) ≡ some (value n ds, seconds)
unfolding match_custom
match_custom-digits n [] u seconds h e = ground (arith, unit_letter u seconds e)
match_custom-digits n (c ∷ t) u seconds h e =
    ground (arith, match_custom-digits (n * 10 + (c - b'0')) t u seconds)

split-rate :
    (ls rest : Text)
    → all_digits ls ≡ true
    → split_by (λ c. nat_beq c b'/') (ls ++ b'/' ∷ rest) ≡ ls ∷ split_by (λ c. nat_beq c b'/') rest
unfolding split_by
split-rate [] rest h = refl
split-rate (c ∷ ls) rest h = ground (arith, split-rate ls rest)

split-period :
    (ds : Text) (u : ℕ)
    → all_digits ds ≡ true
    → nat_beq u b'/' ≡ false
    → split_by (λ c. nat_beq c b'/') (ds ++ u ∷ []) ≡ (ds ++ u ∷ []) ∷ []
unfolding split_by
split-period [] u h other = ground arith
split-period (c ∷ ds) u h other = ground (arith, split-period ds u)

-- A custom period is not one of the named ones.
period_map-digit : (c : ℕ) (t : Text) → is_digit c ≡ true → Dict.get period_map (c ∷ t) ≡ none
unfolding period_map Dict.get
period_map-digit c t h = ground arith

parse_rate_pieces :
    (rate limit_str period_str : Text)
    → split_by (λ c. nat_beq c b'/') rate ≡ limit_str ∷ period_str ∷ []
    → parse_rate rate ≡ limit_and_period (parse_int limit_str) (parse_period period_str)
unfolding parse_rate
parse_rate_pieces rate limit_str period_str e = ground (arith, e)

-- The units of a custom period, with their seconds.
abbrev pub IsUnit : ℕ → ℕ → Type 0
IsUnit u seconds =
    ((u ≡ b's') × (seconds ≡ 1))
    ⊎ ((u ≡ b'm') × (seconds ≡ 60))
    ⊎ ((u ≡ b'h') × (seconds ≡ 3600))
    ⊎ ((u ≡ b'd') × (seconds ≡ 86400))

unit_seconds_lem : (u seconds : ℕ) → IsUnit u seconds → unit_seconds (u ∷ []) ≡ some seconds
unfolding unit_seconds period_map Dict.get
unit_seconds_lem u seconds (inl (a, b)) = rw (a, b) refl
unit_seconds_lem u seconds (inr (inl (a, b))) = rw (a, b) refl
unit_seconds_lem u seconds (inr (inr (inl (a, b)))) = rw (a, b) refl
unit_seconds_lem u seconds (inr (inr (inr (a, b)))) = rw (a, b) refl

-- A limit and a multiplier in ASCII digits, the multiplier not zero, and a unit, which is `s` for 1
-- second, `m` for 60, `h` for 3600 or `d` for 86400, give the limit, and the multiplier times the
-- seconds of the unit.
pub parse_rate_custom :
    (l d u seconds : ℕ) (ls ds : Text)
    → all_digits (l ∷ ls) ≡ true
    → all_digits (d ∷ ds) ≡ true
    → IsUnit u seconds
    → 1 ≤ value 0 (d ∷ ds)
    → parse_rate ((l ∷ ls) ++ (b'/' ∷ ((d ∷ ds) ++ u ∷ [])))
      ≡ some (value 0 (l ∷ ls), value 0 (d ∷ ds) * seconds)
parse_rate_custom l d u seconds ls ds digits_l digits_d is_unit pos_d =
    let unit = unit_seconds_lem u seconds is_unit in
    let (_, no_slash, _) = unit_letter u seconds unit in
    let period : parse_period ((d ∷ ds) ++ u ∷ []) ≡ some (value 0 (d ∷ ds) * seconds) =
      unfold parse_period match_custom in
      ground
        (arith, period_map-digit d (ds ++ u ∷ []), match_custom-digits (d - b'0') ds u seconds) in
    let whole : Text = (l ∷ ls) ++ (b'/' ∷ ((d ∷ ds) ++ u ∷ [])) in
    let pieces : split_by (λ c. nat_beq c b'/') whole ≡ (l ∷ ls) ∷ ((d ∷ ds) ++ u ∷ []) ∷ [] =
      rw (split-rate (l ∷ ls) ((d ∷ ds) ++ u ∷ []) digits_l)
        (ap (λ ps. (l ∷ ls) ∷ ps) (split-period (d ∷ ds) u digits_d no_slash)) in
    parse_rate_pieces whole (l ∷ ls) ((d ∷ ds) ++ u ∷ []) pieces
    ∙ rw (parse_int-digits l ls digits_l, period) (unfold limit_and_period in refl)

unit_positive : (t : Text) (seconds : ℕ) → unit_seconds t ≡ some seconds → 1 ≤ seconds
unfolding unit_seconds
unit_positive [] seconds e = ground arith
unit_positive (u ∷ []) seconds e = ground arith
unit_positive (u ∷ c ∷ []) seconds e = ground arith
unit_positive (u ∷ c ∷ d ∷ t) seconds e = ground arith

all_positive : Dict Text ℕ → Bool
all_positive [] = true
all_positive ((_, n) ∷ d) = ltb 0 n && all_positive d

get_positive :
    (d : Dict Text ℕ) (t : Text) (p : ℕ) → all_positive d ≡ true → Dict.get d t ≡ some p → 1 ≤ p
unfolding all_positive Dict.get
get_positive [] t p h e = ground arith
get_positive ((k, n) ∷ d) t p h e = ground (arith, get_positive d t p)

named_positive : (t : Text) (p : ℕ) → Dict.get period_map t ≡ some p → 1 ≤ p
named_positive t p = get_positive period_map t p (unfold all_positive period_map in refl)

match_positive :
    (t : Text) (b : Bool) (n m seconds : ℕ) → match_custom b n t ≡ some (m, seconds) → 1 ≤ seconds
unfolding match_custom
match_positive [] b n m seconds e = ground arith
match_positive (c ∷ t) b n m seconds e = elim (Option-cases (unit_seconds (c ∷ t))) [
  | inl none_there ↦ ground (arith, match_positive t true (n * 10 + (c - b'0')) m seconds)
  | inr (s, there) ↦
      ground (
        arith,
        match_positive t true (n * 10 + (c - b'0')) m seconds,
        unit_positive (c ∷ t) s there,
      )
]

parse_period_positive : (t : Text) (period : ℕ) → parse_period t ≡ some period → 1 ≤ period
unfolding parse_period
parse_period_positive t period e = elim (Option-cases (Dict.get period_map t)) [
  | inr (p, named) ↦ ground (arith, named_positive t p named)
  | inl unnamed ↦ elim (Option-cases (match_custom false 0 t)) [
    | inl unmatched ↦ ground arith
    | inr ((m, seconds), matched) ↦
        let long = match_positive t false 0 m seconds matched in grind arith
  ]
]

both_positive :
    (l : Option ℤ) (b : Text) (limit period : ℕ)
    → limit_and_period l (parse_period b) ≡ some (limit, period)
    → 1 ≤ period
both_positive l b limit period e = elim (Option-cases (parse_period b)) [
  | inl nothing ↦ unfold limit_and_period in ground (arith, Option-cases l)
  | inr (p, there) ↦
      let long = parse_period_positive b p there in
      unfold limit_and_period in ground (arith, Option-cases l)
]

-- Every period that is parsed lasts at least a second.
pub parse_rate_positive :
    (rate : Text) (limit period : ℕ) → parse_rate rate ≡ some (limit, period) → 1 ≤ period
parse_rate_positive rate limit period e =
    let pieces = split_by (λ c. nat_beq c b'/') rate in
    elim (List-cases pieces) [
      | inl empty ↦ unfold parse_rate in ground arith
      | inr (a, rest, two) ↦ elim (List-cases rest) [
        | inl one ↦ unfold parse_rate in ground arith
        | inr (b, more, three) ↦ elim (List-cases more) [
          | inr (c, others, four) ↦ unfold parse_rate in ground arith
          | inl exact ↦
              let same : pieces ≡ a ∷ b ∷ [] = ground (arith, two, three, exact) in
              both_positive (parse_int a) b limit period (sym (parse_rate_pieces rate a b same) ∙ e)
        ]
      ]
    ]
