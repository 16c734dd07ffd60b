-- ===== src/Decorator/Tests.antt =====
-- The decorator of django_smart_ratelimit/decorator.py at concrete inputs. The state is the count
-- of requests and the runs of the view.
use django_smart_ratelimit.Prelude.{
  ℕ, ◌+◌, ◌-◌, ◌≤◌, ◌≡◌, ◌<◌, ◌*◌, ◌∷◌, refl, true, false, List, inr, count_if, none, some, [],
  codes, leb, arith,
}
use django_smart_ratelimit.Backends.Memory.{MemoryConfig, MemoryBackend}
use django_smart_ratelimit.Backends.Memory.Window.Exact.{Call, after, ordered, counts_for}
use django_smart_ratelimit.Decorator.ResetTime.{get_first_aligned_reset_time, new_reset_time, clean}
use django_smart_ratelimit.Decorator.ResetTime.Stable.{first_aligned_stays}
use django_smart_ratelimit.Prelude.Int.{pos}
use django_smart_ratelimit.Prelude.Dict
use django_smart_ratelimit.Prelude.Strings.{is_empty, split_by}
use django_smart_ratelimit.Policy.Check.{policy_continue}
use django_smart_ratelimit.Backends.Utils.Rates.{
  parse_rate, limit_and_period, parse_int, parse_period, period_map,
}
use django_smart_ratelimit.Decorator.Pipeline.{
  apply_adaptive, off, value, resolve_effective_rate, ResolvedLimit, resolved, resolve_cost,
}
use django_smart_ratelimit.Decorator.Pipeline.Usable.{resolved_usable}
use django_smart_ratelimit.Decorator.Handlers.{
  backend_error, type_error, other_error, returns, raises, bare_too_many, Context, Limit, Callees,
  repeated, counted_by, catch_type_error, is_type_error, handle_exception, after_check,
  check_rate_limit, handle_standard_rate_limiting, handle_token_bucket_algorithm,
}
use django_smart_ratelimit.Decorator.Handlers.Views.{view_runs_twice}
use django_smart_ratelimit.Decorator.Handlers.Weights.{increment_at, again, weighted_check}
use django_smart_ratelimit.Decorator.Wrapper.{Lookup, wrapper}
use django_smart_ratelimit.Decorator.Wrapper.Decisions.{shadow_never_blocks}
use django_smart_ratelimit.Decorator.Wrapper.Blocks.{blocked}

-- A counter, a bucket that is never empty, and a view that is counted and raises.
abbrev broken_view : Callees (ℕ × ℕ) ℕ
broken_view = record {
  increment = some (λ key period limit w. (returns (w.0 + 1, limit - (w.0 + 1)), (w.0 + 1, w.1)));
  incr = λ key period cost w. (raises other_error, w);
  is_allowed = λ key limit period cost w. (returns (true, 9), w);
  get_reset_time = λ key period w. (returns (some 60), w);
  func = λ w. (raises other_error, (w.0, w.1 + 1));
  mark_exceeded = λ w. w;
  exception_handler = none;
}

abbrev ten : Limit
ten = record { key = codes "k"; limit = 10; period = 60; block = true; shadow = false; cost = 2 }

abbrev counted_two : Context
counted_two = record { allowed = true; remaining = 8; reset_time = some 60 }

checked : check_rate_limit broken_view ten (0, 1) ≡ (returns counted_two, (2, 1))
unfolding check_rate_limit counted_by repeated
checked = refl

-- One request, two runs of the view.
view_runs_twice_example : (handle_token_bucket_algorithm broken_view ten (0, 0)).1 ≡ (2, 2)
view_runs_twice_example =
    view_runs_twice broken_view ten (0, 0) (0, 0) (0, 1) (2, 1) 9 other_error counted_two refl refl
      checked refl

abbrev memory : MemoryConfig
memory = record {
  max_keys = 100;
  cleanup_interval = 60;
  sliding_window = true;
  key_prefix = [];
  fail_open = false;
  hexdigest = λ t. t;
}

-- The decorator over a memory backend at 7 seconds.
abbrev over_memory : Callees MemoryBackend ℕ
over_memory = record {
  increment = some (increment_at memory 7000 (codes "u"));
  incr = λ key period cost s. (raises type_error, s);
  is_allowed = λ key limit period cost s. (raises type_error, s);
  get_reset_time = λ key period s. (returns (some 60), s);
  func = λ s. (returns 200, s);
  mark_exceeded = λ s. s;
  exception_handler = none;
}

abbrev earlier : List Call
earlier = (5000, codes "k", codes "a") ∷ (4000, codes "j", codes "b") ∷ []

earlier_ordered : ordered 7000 earlier ≡ true
unfolding ordered
earlier_ordered = refl

weighted_check_example : check_rate_limit over_memory ten (after memory 60 0 earlier) ≡ (
  returns (record {
    allowed = leb (count_if (counts_for memory 60 7000 (codes "k")) earlier + 2) 10;
    remaining = 10 - (count_if (counts_for memory 60 7000 (codes "k")) earlier + 2);
    reset_time = some 60;
  }),
  after memory 60 0 (again 2 (7000, codes "k", codes "u") earlier),
)
weighted_check_example =
    weighted_check over_memory ten memory 0 7000 (codes "u") earlier (some 60) refl (omega arith)
      (omega arith) earlier_ordered (omega arith) refl refl

-- A backend with no `increment`, whose `incr` knows no cost.
abbrev plain : Callees ℕ ℕ
plain = record {
  increment = none;
  incr = λ key period cost n. elim cost [
    | none ↦ (returns (n + 1), n + 1)
    | some _ ↦ (raises type_error, n)
  ];
  is_allowed = λ key limit period cost n. (raises type_error, n);
  get_reset_time = λ key period n. (returns (some 60), n);
  func = λ n. (returns 200, n);
  mark_exceeded = λ n. n;
  exception_handler = none;
}

plain_counts_the_cost :
    check_rate_limit plain ten 3
    ≡ (returns (record { allowed = true; remaining = 5; reset_time = some 60 }), 5)
unfolding check_rate_limit counted_by repeated catch_type_error is_type_error
plain_counts_the_cost = refl

-- A backend that is down: the default exception handler answers 429, in shadow too.
abbrev down : Callees ℕ ℕ
down = record plain { increment = some (λ key period limit n. (raises backend_error, n)) }

down_answers_429 :
    handle_standard_rate_limiting down (record ten { shadow = true }) 0 ≡ (returns bare_too_many, 0)
unfolding handle_standard_rate_limiting check_rate_limit counted_by after_check handle_exception
down_answers_429 = refl

abbrev usable : ResolvedLimit
usable = record { key = codes "k"; limit = 10; period = 60; cost = 1; rate_string = codes "10/m" }

abbrev in_shadow : Lookup
in_shadow = record {
  enabled = true;
  has_request = true;
  skip_if = none;
  policy = policy_continue;
  resolution = resolved usable;
  adaptive = false;
  tiered = none;
  middleware_processed = false;
  algorithm = none;
  has_leaky_bucket_check = false;
  block = true;
  shadow = true;
}

-- The backend is down, and a handler is configured.
abbrev handled_down : Callees ℕ ℕ
handled_down = record down { exception_handler = some (λ n. (returns 503, n)) }

shadow_never_blocks_example : blocked (wrapper handled_down in_shadow 7 10).0 ≡ false
shadow_never_blocks_example =
    shadow_never_blocks handled_down (λ l w. inr (λ n. (returns 503, n), refl)) in_shadow 7 10 refl

resolves :
    (resolve_effective_rate {World = ℕ} [] 0 0
      (codes "k")
      (codes "10/m")
      off
      (value (some (pos 0)))).0
    ≡ resolved usable
unfolding resolve_effective_rate parse_rate resolve_cost split_by limit_and_period parse_int
    parse_period Dict.get period_map apply_adaptive
resolves = refl

resolved_usable_example : (is_empty (codes "k") ≡ false) × (1 ≤ 1) × (1 ≤ 60)
resolved_usable_example =
    resolved_usable {World = ℕ} [] 0 0 (codes "k") (codes "10/m") off (value (some (pos 0))) usable
      resolves

-- 90 seconds and 2 milliseconds after the epoch, with a window of a minute.
first_aligned_stays_example :
    (90002 < 150 * 1000)
    × (get_first_aligned_reset_time ((codes "k", 150) ∷ []) 120000 (codes "k") 30
        ≡ (150, (codes "k", 150) ∷ []))
first_aligned_stays_example =
    first_aligned_stays [] ((codes "k", 150) ∷ []) 90002 120000 (codes "k") 60 30 150 tt
      (omega arith)
      (unfold get_first_aligned_reset_time Dict.get Dict.put new_reset_time clean in refl)
      (omega arith)
