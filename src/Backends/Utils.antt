-- ===== src/Backends/Utils.antt =====
-- django_smart_ratelimit/backends/utils.py: keys, windows, expiry and token bucket state.
-- A time is in milliseconds, the precision at which the source compares window entries; a period
-- is in seconds. A function that reads the clock takes the reading as `now`.
pub mod Keys
mod Tests
pub mod Rates
pub mod Retry
use django_smart_ratelimit.Prelude.{
  ℕ, ◌+◌, ◌-◌, ◌*◌, ◌/◌, Bool, true, Option, none, some, List, [], ◌∷◌, ◌++◌, map, Text, text_key,
  ltb, leb, nat_beq, length, take, filter, if◌then◌else◌,
}
use django_smart_ratelimit.Prelude.Int.{ℤ, pos, sub_ℕ, pos_part, min_ℤ, leb_ℤ, ◌-ℤ◌, ◌+ℤ◌}
use django_smart_ratelimit.Prelude.Dict.{Dict}

abbrev pub millis : ℕ → ℕ
millis seconds = seconds * 1000

-- `prefix.rstrip(":")`
unfoldable pub rstrip_colon : Text → Text
rstrip_colon [] = []
rstrip_colon (c ∷ s) =
    let rest = rstrip_colon s in
    elim rest [ [] ↦ if nat_beq c b':' then [] else c ∷ [] | d ∷ r ↦ c ∷ d ∷ r ]

-- `full_key.replace(" ", "_")`
unfoldable pub replace_spaces : Text → Text
replace_spaces = map (λ c. if nat_beq c b' ' then b'_' else c)

unfoldable pub with_prefix : Text → Text → Text
with_prefix key [] = key
with_prefix key (c ∷ prefix) = rstrip_colon (c ∷ prefix) ++ b':' ∷ key

-- `text[:a - b]`, which counts from the end where the difference is negative.
unfoldable pub slice_to : ℕ → ℕ → Text → Text
slice_to a b text = if leb b a then take (a - b) text else take (length text - (b - a)) text

-- `hexdigest` is that of `hashlib.sha256`.
unfoldable pub normalize_key : (Text → Text) → Text → Text → ℕ → Text
normalize_key hexdigest key prefix max_length =
    let full_key = with_prefix key prefix in
    let hash_suffix = hexdigest full_key in
    replace_spaces (
      if ltb max_length (length full_key)
      then slice_to max_length (length hash_suffix + 1) full_key ++ b':' ∷ hash_suffix
      else full_key)

unfoldable pub calculate_expiry : ℕ → ℕ → ℕ
calculate_expiry period current_time = current_time + millis period

-- `int(time.time()) + ttl_seconds`
unfoldable pub generate_expiry_timestamp : ℕ → ℕ → ℕ
generate_expiry_timestamp ttl_seconds now = millis (now / 1000 + ttl_seconds)

unfoldable pub is_expired : ℕ → ℕ → Bool
is_expired timestamp now = ltb timestamp now

-- A request in a window: its time and its unique id.
abbrev pub Request : Type 0
Request = ℕ × Text

-- `int(ts * 1000) > current_ms - window_ms`
abbrev pub in_window : ℕ → ℕ → Request → Bool
in_window window_size current_time (ts, _) = ltb current_time (ts + millis window_size)

unfoldable pub filter_sliding_window_requests : List Request → ℕ → ℕ → List Request
filter_sliding_window_requests requests window_size current_time =
    filter (in_window window_size current_time) requests

unfoldable pub calculate_sliding_window_count : List Request → ℕ → ℕ → ℕ
calculate_sliding_window_count window_data window_size current_time =
    length (filter_sliding_window_requests window_data window_size current_time)

-- A value of the generic storage: what `MemoryBackend.set` stores.
pub record Item : Type 0 where
  pub value : Text
  pub expires_at : Option ℕ

-- `clean_expired_entries` on such values. The comparison `time.time() > None` for an item with no
-- expiration raises a TypeError: `none`.
unfoldable pub clean_expired_entries : Dict Text Item → ℕ → Option (Dict Text Item)
clean_expired_entries [] now = some []
clean_expired_entries ((key, item) ∷ d) now =
    let rest = clean_expired_entries d now in
    elim item.expires_at [
      | none ↦ none
      | some t ↦ elim rest [
        | none ↦ none
        | some cleaned ↦ some (if is_expired t now then cleaned else (key, item) ∷ cleaned)
      ]
    ]

-- A time until a refill, as the quotient of an amount and a rate, or never.
pub data Wait : Type 0 where
  wait : ℕ → ℕ → Wait
  never : Wait

pub record TokenBucketOutcome : Type 0 where
  pub is_allowed : Bool
  pub current_tokens : ℤ
  pub tokens_remaining : ℤ
  pub time_to_refill : Wait

-- Tokens are counted in units, and `refill_rate` is in units per millisecond. The elapsed time is
-- not clamped: a clock that stepped back takes tokens away, and the tokens can be negative.
unfoldable pub calculate_token_bucket_state : ℤ → ℕ → ℕ → ℕ → ℕ → ℕ → TokenBucketOutcome
calculate_token_bucket_state current_tokens last_refill current_time bucket_size refill_rate
      tokens_requested =
    let tokens_to_add =
      sub_ℕ ((current_time - last_refill) * refill_rate)
        ((last_refill - current_time) * refill_rate) in
    let updated_tokens = min_ℤ (pos bucket_size) (current_tokens +ℤ tokens_to_add) in
    let allowed =
      if ltb 0 tokens_requested then leb_ℤ (pos tokens_requested) updated_tokens else true in
    let tokens_remaining =
      if allowed then updated_tokens -ℤ pos tokens_requested else updated_tokens in
    record {
      is_allowed = allowed;
      current_tokens = updated_tokens;
      tokens_remaining = tokens_remaining;
      time_to_refill =
          if allowed
          then (if ltb 0 refill_rate
              then wait (pos_part (pos bucket_size -ℤ tokens_remaining)) refill_rate
              else wait 0 1)
          else if ltb 0 refill_rate
          then wait (pos_part (pos tokens_requested -ℤ updated_tokens)) refill_rate
          else never;
    }
