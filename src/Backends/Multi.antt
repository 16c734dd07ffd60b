-- ===== src/Backends/Multi.antt =====
-- django_smart_ratelimit/backends/multi.py: `MultiBackend`, which passes a call on to the first of
-- its backends that is healthy and answers. The backends are any implementations of the base
-- class: `call` is what the one with an identity does in a state of the world, where `none` is an
-- exception.
pub mod Order
pub mod Cycle
pub mod Loop
pub mod Fallback
pub mod RoundRobin
mod Tests
use django_smart_ratelimit.Prelude.{
  ℕ, zero, suc, ◌+◌, ◌-◌, Bool, true, false, ◌&&◌, ◌||◌, not, Option, none, some, List, [], ◌∷◌,
  ◌++◌, Text, text_key, nat_key, ◌==◌, nat_beq, codes, take, drop, get_or, if◌then◌else◌,
}
use django_smart_ratelimit.Prelude.Dict
use django_smart_ratelimit.Prelude.Dict.{Dict}

-- The methods that go through `_execute_with_fallback`, with their arguments.
pub data Method : Type 0 where
  incr : Text → ℕ → Method
  get_count : Text → ℕ → Method
  get_reset_time : Text → Method
  reset : Text → Method
  increment : Text → ℕ → ℕ → Method
  cleanup_expired : Method

-- What they return: a number, a count with what remains, or None.
pub data Value : Type 0 where
  number : ℕ → Value
  count_and_remaining : ℕ → ℕ → Value
  nothing : Value

-- How a call ends: `backend_error` is the BackendError of `_handle_backend_error`, and
-- `runtime_error` is raised where no backend was tried.
pub data Reply : Type 0 where
  returned : Value → Reply
  backend_error : Reply
  runtime_error : Reply

-- A backend: its name and its identity.
abbrev pub Entry : Type 0
Entry = Text × ℕ

-- `backend_cycle` is what is left of the current pass over the backends.
pub record MultiBackend : Type 0 where
  pub backends : List Entry
  pub backend_health : Dict ℕ Bool
  pub backend_cycle : List Entry
  pub round_robin : Bool
  pub health_check_interval : ℕ
  pub fail_open : Bool

-- The marks of new backends: all healthy.
unfoldable pub healthy_marks : List Entry → Dict ℕ Bool
unfolding Dict.put
healthy_marks [] = []
healthy_marks ((_, id) ∷ es) = Dict.put (healthy_marks es) id true

-- No backends is a ValueError.
unfoldable pub new_multi : List Entry → Bool → ℕ → Bool → Option MultiBackend
unfolding healthy_marks
new_multi [] round_robin health_check_interval fail_open = none
new_multi (e ∷ es) round_robin health_check_interval fail_open = some (record {
  backends = e ∷ es;
  backend_health = healthy_marks (e ∷ es);
  backend_cycle = e ∷ es;
  round_robin = round_robin;
  health_check_interval = health_check_interval;
  fail_open = fail_open;
})

unfoldable pub is_healthy : MultiBackend → ℕ → Bool
is_healthy m id = get_or (Dict.get m.backend_health id) true

-- `_mark_healthy` and `_mark_unhealthy`
unfoldable pub mark : MultiBackend → ℕ → Bool → MultiBackend
mark m id healthy = record m { backend_health = Dict.put m.backend_health id healthy }

-- `next(self._backend_cycle)`
unfoldable pub next_backend : MultiBackend → Option Entry × MultiBackend
next_backend m = elim m.backend_cycle [
  | e ∷ rest ↦ (some e, record m { backend_cycle = rest })
  | [] ↦ elim m.backends [ [] ↦ (none, m) | e ∷ rest ↦ (some e, record m { backend_cycle = rest }) ]
]

-- The next healthy backend of the cycle, in as many steps as there are entries in a list.
unfoldable pub find_primary : List Entry → MultiBackend → Option Entry × MultiBackend
unfolding is_healthy
find_primary [] m = (none, m)
find_primary (_ ∷ steps) m =
    let (candidate, m') = next_backend m in
    elim candidate [
      | none ↦ (none, m')
      | some e ↦ elim (is_healthy m e.1) [ true ↦ (some e, m') | false ↦ find_primary steps m' ]
    ]

-- `self.backends.index(primary)`; `none` is the ValueError.
unfoldable pub index_of : Entry → List Entry → Option ℕ
index_of e [] = none
index_of e (x ∷ xs) =
    let rest = index_of e xs in
    if x.0 == e.0 && x.1 == e.1 then some 0 else elim rest [ none ↦ none | some i ↦ some (suc i) ]

unfoldable pub rotate : List Entry → Entry → List Entry
rotate backends primary =
    let start_index = get_or (index_of primary backends) 0 in
    drop start_index backends ++ take start_index backends

-- Where no backend is healthy, the first is the primary.
unfoldable pub get_ordered_backends : MultiBackend → List Entry × MultiBackend
get_ordered_backends m =
    if m.round_robin
    then (let (primary, m') = find_primary m.backends m in
        elim primary [
          | some e ↦ (rotate m.backends e, m')
          | none ↦ elim m.backends [ [] ↦ ([], m') | e ∷ rest ↦ (rotate (e ∷ rest) e, m') ]
        ])
    else (m.backends, m)

-- What a method returns when all backends fail and the multi backend fails open.
unfoldable pub fail_open_value : Method → Value
fail_open_value (incr _ _) = number 1
fail_open_value (get_count _ _) = number 0
fail_open_value (get_reset_time _) = nothing
fail_open_value (reset _) = nothing
fail_open_value (increment _ _ limit) = count_and_remaining 1 (limit - 1)
fail_open_value cleanup_expired = number 0

-- The end of the loop: `attempted` tells whether a backend was tried.
unfoldable pub all_failed : MultiBackend → Method → Bool → Reply
all_failed m method attempted =
    if attempted
    then (if m.fail_open then returned (fail_open_value method) else backend_error)
    else runtime_error

module _ {ℓ} {W : Type ℓ} (call : W → ℕ → Method → Option Value × W) where
  -- A call of `get_count`, which marks the backend by whether it raised.
  unfoldable pub ping : MultiBackend → W → ℕ → Bool × MultiBackend × W
  ping m w id =
      let (answer, w') = call w id (get_count (codes "health:check") 60) in
      elim answer [ none ↦ (false, mark m id false, w') | some _ ↦ (true, mark m id true, w') ]

  -- The health of a backend as the loop takes it: with no interval it is checked on the spot.
  unfoldable pub check_health : MultiBackend → W → ℕ → Bool × MultiBackend × W
  unfolding ping is_healthy
  check_health m w id =
      if nat_beq m.health_check_interval 0 then ping m w id else (is_healthy m id, m, w)

  -- One round of the health check thread.
  unfoldable pub health_round : List Entry → MultiBackend → W → MultiBackend × W
  unfolding ping
  health_round [] m w = (m, w)
  health_round ((_, id) ∷ es) m w = let (_, m', w') = ping m w id in health_round es m' w'

  unfoldable pub try_backends :
      Method → List Entry → Bool → MultiBackend → W → Reply × MultiBackend × W
  unfolding check_health
  try_backends method [] attempted m w = (all_failed m method attempted, m, w)
  try_backends method ((_, id) ∷ es) attempted m w =
      let (healthy, m', w') = check_health m w id in
      elim healthy [
        | false ↦ try_backends method es attempted m' w'
        | true ↦
            let (result, w'') = call w' id method in
            elim result [
              | some value ↦ (returned value, m', w'')
              | none ↦ try_backends method es true (mark m' id false) w''
            ]
      ]

  unfoldable pub execute_with_fallback : MultiBackend → W → Method → Reply × MultiBackend × W
  execute_with_fallback m w method =
      let (ordered, m') = get_ordered_backends m in try_backends method ordered false m' w
