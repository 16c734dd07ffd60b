-- ===== src/Lib.antt =====
-- A model of django-smart-ratelimit, a rate limiting library for Django, and what is proved of it.
--
-- The parts. A limit is kept by a backend (django_smart_ratelimit/backends), which counts requests
-- in windows, holds token buckets and counts the requests in flight; algorithms
-- (django_smart_ratelimit/algorithms) keep token and leaky buckets in the generic storage of a
-- backend that has none of its own; a multi backend passes requests on to the first of several
-- backends that is healthy and answers; a circuit breaker (django_smart_ratelimit/circuit_breaker.py)
-- stands before a backend that may fail. Around the limits stand lists of addresses that are let
-- through or denied (django_smart_ratelimit/policy), quotas over calendar periods (quota.py), and
-- limits that follow the load of the system (adaptive.py); the decorator `rate_limit` (decorator.py)
-- puts them together around a view.
--
-- The files.
-- Prelude: shared names, Boolean tests, lists, keys as lists of code points, dictionaries in
--   insertion order, signed integers.
-- CircuitBreaker/Storage: circuit_breaker_state.py, `MemoryCircuitBreakerState`.
-- CircuitBreaker/Stats, Breaker, Call, Registry: circuit_breaker.py, `CircuitBreakerStats`,
--   `CircuitBreaker` (`is_allowed`, `report_success`, `report_failure`, `_change_state`, `call`,
--   `get_status` and the others under their names) and `CircuitBreakerRegistry`.
-- CircuitBreaker/Spec, Refines: the abstract machine of a breaker, and the methods against it.
-- CircuitBreaker/Run, Laws, Counting: sequences of calls of the methods, one method at a time, and
--   their laws.
-- Algorithms/Store: the backend and the `json` module as parameters. Algorithms/TokenBucket and
--   Algorithms/LeakyBucket: token_bucket.py and leaky_bucket.py; Rate, Flow: proofs.
-- Backends/Utils: backends/utils.py; Utils/Keys: proofs on `normalize_key`.
-- Backends/Base: backends/base.py, what `BaseBackend` builds on `incr`.
-- Backends/Memory: backends/memory.py, its state, partitions, cleanup and eviction;
--   Memory/Counters (`incr`, `get_count`, `reset`, the generic storage), Memory/Semaphore
--   (`concurrency_acquire`, `concurrency_release`), Memory/Buckets (`token_bucket_check`,
--   `token_bucket_info`); proofs in Memory/Eviction (the cleanup), Index (the partitions), Reset,
--   and Window (the counts of the sliding window; Window/Limit joins them to `check_rate_limit`).
-- Backends/Multi: backends/multi.py, `MultiBackend` over any backends; proofs in Multi/Order, Loop,
--   Fallback, Cycle and RoundRobin.
-- Backends/Utils/Rates: `parse_rate`, `validate_rate_config` and `get_window_times` of utils.py;
--   Utils/Retry: `with_retry` and `_execute_with_retry`; proofs in Rates/Parse and in Retry.
-- Policy/Lists, Client, Check: policy/lists.py (`IPList` and the lists with a source,
--   `get_client_ip`, `check_lists`) and `apply_policy_lists` of pipeline.py; proofs in
--   Policy/Membership, Refresh, Spoofing and Precedence.
-- Quota/Calendar: the dates of Python that quota.py uses. Quota/Period: `_period_bounds`, its proof
--   in Period/Bounds; Quota/Ledger: `consume_quota`, `get_quota_usage`, `reset_quota` and the
--   decorator, over the rows of the model `Quota`; proofs in Ledger/Charges and Ledger/Spending.
-- Adaptive/Quotient: fractions. Adaptive/Indicators: the load indicators of adaptive.py;
--   Adaptive/Limiter: `AdaptiveRateLimiter` and the registry; proofs in Indicators/Range,
--   Limiter/Bounds, Limiter/Updates and Limiter/Runs.
-- Decorator/Pipeline: `resolve_effective_rate` of pipeline.py; Decorator/Handlers: `check_rate_limit`
--   and the `_handle_…` functions of decorator.py, with `handle_shadow_decision` of pipeline.py;
--   Decorator/ResetTime: `_get_reset_time` and what it calls; Decorator/Wrapper: the wrapper of
--   `rate_limit`; proofs in ResetTime/Stable, Pipeline/Usable, Handlers/Actions, Views and
--   Weights (over the memory backend), and Wrapper/Blocks and Decisions.
-- Concurrency: the wrapper of concurrency.py, over the memory backend.
-- The modules named Tests hold the theorems at concrete inputs.
--
-- How the code is read. A state is a record and a method, which is one step, returns the new one. The
-- methods of the memory backend hold its lock. Those of a circuit breaker hold theirs in part or not
-- at all, so that its theorems are on methods which do not run at the same time. Times are whole clock ticks (milliseconds in the backends) and a method that
-- reads the clock takes the reading as an argument; it reads it once, where the source reads it
-- again a moment later. Amounts of tokens are counted in units so that a rate is a whole number of
-- units per tick; a time to wait is a quotient, kept as its two numbers. The backoff multiplier is
-- a whole number. Sizes, limits and costs are natural numbers. The eviction loop takes as many
-- rounds as there are entries, which is enough since each evicts one. A load and a weight are exact
-- fractions. A printed number is given as many rounds as it counts, and one. A decorator is modelled
-- by its synchronous wrapper; the asynchronous one makes the same calls.
--
-- Not modelled: threads that are inside the methods of a circuit breaker at once, logging and
-- metrics, the reading of Django settings, the other backends, whose logic is in scripts and
-- queries of external services, and the request layer (the middleware, views, and the asynchronous
-- wrappers where they differ). `hashlib`, `json` and the backend below the algorithms are
-- parameters, as are the parsers of `ipaddress`, the files and responses that lists are read from,
-- the time zone and what the system says of its load. Digits in a rate are ASCII digits, and years
-- stay below 9999.
pub mod Prelude
pub mod Policy
pub mod Quota
pub mod Adaptive
pub mod Decorator
pub mod Concurrency
pub mod CircuitBreaker
pub mod Algorithms
pub mod Backends
