-- ===== src/Backends/Multi/Fallback.antt =====
-- `_execute_with_fallback` of `MultiBackend` (django_smart_ratelimit/backends/multi.py): when a
-- call is answered, and what an outage of all backends does.
use django_smart_ratelimit.Backends.Multi.Loop.{try-answers, try_dead, try-state, try-filter}
use django_smart_ratelimit.Prelude.{
  ℕ, ◌<◌, ◌≡◌, ◌≢◌, refl, true, false, ◌&&◌, not, Option, none, List, [], ◌∷◌, arith, text_key,
  nat_key, nat_beq_iff, filter, if◌then◌else◌,
}
use django_smart_ratelimit.Backends.Multi.Order.{any_healthy, listed, ordered_lem}
use django_smart_ratelimit.Backends.Multi.{
  Method, Value, returned, backend_error, runtime_error, Entry, MultiBackend, is_healthy,
  get_ordered_backends, fail_open_value, all_failed, try_backends, execute_with_fallback,
}

-- Choosing the order changes no mark and no setting.
is_healthy-ordered :
    (m : MultiBackend) (id : ℕ) → is_healthy (get_ordered_backends m).1 id ≡ is_healthy m id
is_healthy-ordered m id = rw ((ordered_lem m).2) (unfold is_healthy in refl)

any_healthy-ordered :
    (m : MultiBackend) (es : List Entry)
    → any_healthy (get_ordered_backends m).1 es ≡ any_healthy m es
any_healthy-ordered m [] = refl
any_healthy-ordered m ((name, id) ∷ es) =
    ground (arith, is_healthy-ordered m id, any_healthy-ordered m es)

all_sick :
    (m : MultiBackend) (es : List Entry)
    → ((id : ℕ) → listed id es ≡ true → is_healthy m id ≡ false)
    → any_healthy m es ≡ false
all_sick m [] sick = refl
all_sick m ((name, j) ∷ es) sick =
    ground (arith, sick j, nat_beq_iff j j, all_sick m es (λ id h. sick id (ground arith)))

module _ {ℓ} {W : Type ℓ} (call : W → ℕ → Method → Option Value × W) where
  -- A request is answered, in either strategy, while one of the backends that is marked healthy
  -- answers whatever it is asked.
  pub answered_by_some :
      (m : MultiBackend) (w : W) (method : Method) (id : ℕ)
      → ((w' : W) (method' : Method) → (call w' id method').0 ≢ none)
      → is_healthy m id ≡ true
      → listed id m.backends ≡ true
      → (value : Value) × ((execute_with_fallback call m w method).0 ≡ returned value)
  unfolding execute_with_fallback
  answered_by_some m w method id answers healthy inside =
      let (_, same, _) = ordered_lem m in
      try-answers call method (get_ordered_backends m).0 false (get_ordered_backends m).1 w id
        answers (rw (is_healthy-ordered m id) healthy) (rw (same id) inside)

  -- A backend that is marked unhealthy is as good as absent: a call is that on the healthy ones of
  -- the chosen order, where the health is not checked on the spot.
  pub unhealthy_skipped :
      (m : MultiBackend) (w : W) (method : Method)
      → 0 < m.health_check_interval
      → let (ordered, m') = get_ordered_backends m in
        execute_with_fallback call m w method
        ≡ try_backends call method (filter (λ (e : Entry). is_healthy m e.1) ordered) false m' w
  unfolding execute_with_fallback
  unhealthy_skipped m w method interval =
      let (ordered, m') = get_ordered_backends m in
      let (_, _, state) = ordered_lem m in
      try-filter call (λ (e : Entry). is_healthy m e.1) method ordered false m' w
        (λ e h. ground (arith, is_healthy-ordered m e.1)) (rw state interval)

  -- What a call does when no backend answers.
  execute_dead :
      (m : MultiBackend) (w : W) (method : Method)
      → ((w' : W) (id : ℕ) → (call w' id method).0 ≡ none)
      → 0 < m.health_check_interval
      → ((execute_with_fallback call m w method).0 ≡ all_failed m method (any_healthy m m.backends))
        × ((id : ℕ)
            → is_healthy (execute_with_fallback call m w method).1 id
              ≡ (is_healthy m id && not (listed id m.backends)))
        × ((execute_with_fallback call m w method).1.backends ≡ m.backends)
        × ((execute_with_fallback call m w method).1.health_check_interval
            ≡ m.health_check_interval)
  execute_dead m w method dead interval =
      let (any, inside, state) = ordered_lem m in
      let (ordered, m') = get_ordered_backends m in
      let every : m'.health_check_interval ≡ m.health_check_interval = rw state refl in
      let (reply, marks) = try_dead call method ordered false m' w dead (rw every interval) in
      let kept = try-state call method ordered false m' w in
      let same : all_failed m' method (any_healthy m m.backends)
          ≡ all_failed m method (any_healthy m m.backends) =
        unfold all_failed in rw state refl in
      unfold execute_with_fallback in
      (
        ground (arith, reply, same, any m, any_healthy-ordered m ordered),
        λ id. ground (arith, marks id, inside id, is_healthy-ordered m id),
        ground (arith, kept, state),
        ground (arith, kept, every),
      )

  -- With a health check interval, while no backend answers and some are marked healthy, the first
  -- request makes the multi backend fail as it is configured to, open or with a BackendError; the
  -- next request then raises a RuntimeError, also where it is to fail open, since none is tried.
  pub outage :
      (m : MultiBackend) (w : W) (method next : Method)
      → ((w' : W) (id : ℕ) (method' : Method) → (call w' id method').0 ≡ none)
      → 0 < m.health_check_interval
      → any_healthy m m.backends ≡ true
      → let (reply, m', w') = execute_with_fallback call m w method in
        (reply ≡ (if m.fail_open then returned (fail_open_value method) else backend_error))
        × ((execute_with_fallback call m' w' next).0 ≡ runtime_error)
  outage m w method next dead interval some_healthy =
      let (_, m', w') = execute_with_fallback call m w method in
      let (reply, marks, same, every) =
        execute_dead m w method (λ w'' id. dead w'' id method) interval in
      let sick : any_healthy m' m'.backends ≡ false =
        all_sick m' m'.backends (λ id h. ground (arith, marks id, same)) in
      let then' = execute_dead m' w' next (λ w'' id. dead w'' id next) (rw every interval) in
      unfold all_failed in (ground (arith, reply), ground (arith, then'.0, sick))
