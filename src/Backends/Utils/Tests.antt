-- ===== src/Backends/Utils/Tests.antt =====
-- Rates and retries of django_smart_ratelimit/backends/utils.py at concrete inputs.
use django_smart_ratelimit.Prelude.{
  ℕ, ◌+◌, ◌*◌, ◌≡◌, refl, true, some, [], ◌∷◌, codes, arith, ltb, false, inl, inr, none,
  if◌then◌else◌,
}
use django_smart_ratelimit.Backends.Utils.Rates.{parse_rate}
use django_smart_ratelimit.Backends.Utils.Rates.Parse.{parse_rate_custom}
use django_smart_ratelimit.Backends.Utils.Retry.{
  Attempt, returned, raised, escaped, RetryConfig, with_retry, IsRun, with_retry-IsRun,
}

parse_rate_custom_example : parse_rate (codes "100/12h") ≡ some (100, 12 * 3600)
parse_rate_custom_example =
    parse_rate_custom b'1' b'1' b'h' 3600 (codes "00") (codes "2") refl refl
      (inr (inr (inl (refl, refl)))) (omega arith)

-- An operation that fails twice and then answers 7; its state counts the attempts.
abbrev third_time : ℕ → Attempt ℕ × ℕ
third_time n = (if ltb n 2 then raised else returned 7, n + 1)

abbrev patient : RetryConfig
patient = record {
  max_retries = 3;
  delay = 100;
  max_delay = 2000;
  exponential_backoff = true;
  exponential_base = 2;
}

waits_longer : with_retry third_time none patient 0 ≡ (returned 7, 100 ∷ 200 ∷ [], 3)
unfolding with_retry
waits_longer = refl

-- A callback that raises when it is told of the first attempt.
callback_ends_it :
    with_retry third_time (some (λ n s. (false, s + 10 * n))) patient 0 ≡ (escaped, [], 11)
unfolding with_retry
callback_ends_it = refl

with_retry-IsRun_example : IsRun third_time 3 2000 0 (with_retry third_time none patient 0)
with_retry-IsRun_example = with_retry-IsRun third_time patient 0
