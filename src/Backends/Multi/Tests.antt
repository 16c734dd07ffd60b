-- ===== src/Backends/Multi/Tests.antt =====
-- The theorems on `MultiBackend` (django_smart_ratelimit/backends/multi.py) at concrete inputs.
use django_smart_ratelimit.Prelude.{
  ℕ, suc, ◌≡◌, ◌≢◌, refl, true, Option, none, some, List, [], ◌∷◌, arith, codes, nat_beq, nat_key,
  if◌then◌else◌,
}
use django_smart_ratelimit.Prelude.Dict
use django_smart_ratelimit.Backends.Multi.{
  new_multi, next_backend, find_primary, index_of, rotate, check_health, mark, Method, incr, Value,
  number, returned, backend_error, runtime_error, Entry, MultiBackend, healthy_marks, is_healthy,
  get_ordered_backends, try_backends, execute_with_fallback, fail_open_value,
}
use django_smart_ratelimit.Backends.Multi.Order.{any_healthy}
use django_smart_ratelimit.Backends.Multi.RoundRobin.{serve, round_robin_first}
use django_smart_ratelimit.Backends.Multi.Fallback.{answered_by_some, outage}

-- Two backends in turn, and a world that counts the calls.
abbrev two : List Entry
two = (codes "redis", 1) ∷ (codes "memory", 2) ∷ []

abbrev two_backends : MultiBackend
two_backends = record {
  backends = two;
  backend_health = healthy_marks two;
  backend_cycle = two;
  round_robin = true;
  health_check_interval = 30;
  fail_open = true;
}

-- The first backend is down.
abbrev first_down : ℕ → ℕ → Method → Option Value × ℕ
first_down w id method = (if nat_beq id 1 then none else some (number w), suc w)

-- Both are.
abbrev all_down : ℕ → ℕ → Method → Option Value × ℕ
all_down w id method = (none, suc w)

abbrev request : Method
request = incr (codes "ip") 60

memory_answers : (w : ℕ) (method : Method) → (first_down w 2 method).0 ≢ none
memory_answers w method e = cc

memory_healthy : is_healthy two_backends 2 ≡ true
unfolding is_healthy healthy_marks Dict.put Dict.get
memory_healthy = refl

answered_by_some_example :
    (value : Value) × ((execute_with_fallback first_down two_backends 0 request).0 ≡ returned value)
answered_by_some_example =
    answered_by_some first_down two_backends 0 request 2 memory_answers memory_healthy refl

outage_example :
    let (reply, m', w') = execute_with_fallback all_down two_backends 0 request in
    (reply ≡ (if two_backends.fail_open then returned (fail_open_value request) else backend_error))
    × ((execute_with_fallback all_down m' w' request).0 ≡ runtime_error)
outage_example =
    outage all_down two_backends 0 request request (λ w id method. refl) (omega arith)
      (unfold is_healthy healthy_marks Dict.put Dict.get in refl)

two_new : new_multi two true 30 true ≡ some two_backends
unfolding new_multi
two_new = refl

-- After a request that found the first backend down.
abbrev after_one : MultiBackend
after_one = (serve first_down two_backends 0 (request ∷ [])).0

one_left : any_healthy after_one after_one.backends ≡ true
unfolding serve execute_with_fallback get_ordered_backends find_primary next_backend rotate index_of
    try_backends check_health mark is_healthy healthy_marks Dict.get Dict.put
one_left = refl

round_robin_first_example :
    (first : Entry) × (rest : List Entry) × ((get_ordered_backends after_one).0 ≡ first ∷ rest)
    × (is_healthy after_one first.1 ≡ true)
round_robin_first_example =
    round_robin_first first_down (codes "redis", 1) ((codes "memory", 2) ∷ []) 30 true two_backends
      0 (request ∷ []) two_new one_left
