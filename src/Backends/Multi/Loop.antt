-- ===== src/Backends/Multi/Loop.antt =====
-- The loop of `_execute_with_fallback` of `MultiBackend`
-- (django_smart_ratelimit/backends/multi.py), step by step.
use django_smart_ratelimit.Prelude.{
  ℕ, ◌<◌, ◌≡◌, ◌≢◌, refl, inl, inr, Bool, true, false, ◌&&◌, ◌||◌, not, Option, none, some, List,
  [], ◌∷◌, arith, Text, text_key, nat_key, nat_beq, nat_beq_iff, codes, filter, Option-cases,
  Bool-cases, if◌then◌else◌,
}
use django_smart_ratelimit.Prelude.Dict
use django_smart_ratelimit.Prelude.Dict.{Dict}
use django_smart_ratelimit.Backends.Multi.Order.{any_healthy, listed}
use django_smart_ratelimit.Backends.Multi.{
  Method, get_count, Value, returned, Entry, MultiBackend, is_healthy, mark, all_failed, ping,
  check_health, try_backends,
}

is_healthy-mark :
    (m : MultiBackend) (id j : ℕ) (b : Bool)
    → is_healthy (mark m id b) j ≡ (if nat_beq id j then b else is_healthy m j)
unfolding is_healthy mark
is_healthy-mark m id j b = ground (arith, Dict.get-put m.backend_health id j b)

module _ {ℓ} {W : Type ℓ} (call : W → ℕ → Method → Option Value × W) where
  -- With an interval, the health is the mark.
  check_health-mark :
      (m : MultiBackend) (w : W) (id : ℕ)
      → 0 < m.health_check_interval
      → ((check_health call m w id).0 ≡ is_healthy m id)
        × ((check_health call m w id).1 ≡ m)
        × ((check_health call m w id).2 ≡ w)
  unfolding check_health
  check_health-mark m w id h = (ground arith, ground arith, ground arith)

  -- One step of the loop: an unhealthy backend, one that raises, and one that answers.
  module _ (method : Method) (name : Text) (j : ℕ) (es : List Entry) (attempted : Bool)
      (m : MultiBackend) (w : W) where
    abbrev checked : MultiBackend
    checked = (check_health call m w j).1

    abbrev world : W
    world = (check_health call m w j).2

    try_skipped :
        (check_health call m w j).0 ≡ false
        → try_backends call method ((name, j) ∷ es) attempted m w
          ≡ try_backends call method es attempted checked world
    unfolding try_backends
    try_skipped h = ground arith

    try_raised :
        (check_health call m w j).0 ≡ true
        → (call world j method).0 ≡ none
        → try_backends call method ((name, j) ∷ es) attempted m w
          ≡ try_backends call method es true (mark checked j false) (call world j method).1
    unfolding try_backends
    try_raised h e = ground arith

    try_answered :
        (value : Value)
        → (check_health call m w j).0 ≡ true
        → (call world j method).0 ≡ some value
        → try_backends call method ((name, j) ∷ es) attempted m w
          ≡ (returned value, checked, (call world j method).1)
    unfolding try_backends
    try_answered value h e = ground arith

  -- A backend that always answers stays healthy through a check of any backend.
  check_health-keeps :
      (m : MultiBackend) (w : W) (j id : ℕ)
      → ((w' : W) (method : Method) → (call w' id method).0 ≢ none)
      → is_healthy m id ≡ true
      → (is_healthy (check_health call m w j).1 id ≡ true)
        × (j ≡ id → (check_health call m w j).0 ≡ true)
  unfolding check_health ping
  check_health-keeps m w j id answers healthy =
      let asked = answers w (get_count (codes "health:check") 60) in
      elim (Bool-cases (nat_beq j id)) [
        | inl same ↦ (
          ground (
            arith,
            nat_beq_iff j id,
            asked,
            is_healthy-mark m j id true,
            is_healthy-mark m j id false,
          ),
          λ e. ground (arith, nat_beq_iff j id, asked),
        )
        | inr other ↦ (
          ground
              (arith, nat_beq_iff j id, is_healthy-mark m j id true, is_healthy-mark m j id false),
          λ e. ground (arith, nat_beq_iff j id),
        )
      ]

  -- Where a backend that is listed and marked healthy always answers, some backend does.
  pub try-answers :
      (method : Method) (es : List Entry) (attempted : Bool) (m : MultiBackend) (w : W) (id : ℕ)
      → ((w' : W) (method' : Method) → (call w' id method').0 ≢ none)
      → is_healthy m id ≡ true
      → listed id es ≡ true
      → (value : Value) × ((try_backends call method es attempted m w).0 ≡ returned value)
  try-answers method [] attempted m w id answers healthy inside = ground arith
  try-answers method ((name, j) ∷ es) attempted m w id answers healthy inside =
      let (kept, hit) = check_health-keeps m w j id answers healthy in
      let (_, m', w') = check_health call m w j in
      elim (Bool-cases (check_health call m w j).0) [
        | inr skip ↦ rw (try_skipped method name j es attempted m w skip) (
            try-answers method es attempted m' w' id answers kept
              (ground (arith, hit, nat_beq_iff j id)))
        | inl go ↦ elim (Option-cases (call w' j method).0) [
          | inr (value, e) ↦
              (value, rw (try_answered method name j es attempted m w value go e) refl)
          | inl e ↦ rw (try_raised method name j es attempted m w go e) (
              try-answers method es true (mark m' j false) (call w' j method).1 id answers
                (ground (arith, answers w' method, nat_beq_iff j id, is_healthy-mark m' j id false))
                (ground (arith, answers w' method, nat_beq_iff j id)))
        ]
      ]

  -- When no backend answers, the marks of those that were tried are gone and the reply tells
  -- whether one was.
  pub try_dead :
      (method : Method) (es : List Entry) (attempted : Bool) (m : MultiBackend) (w : W)
      → ((w' : W) (id : ℕ) → (call w' id method).0 ≡ none)
      → 0 < m.health_check_interval
      → ((try_backends call method es attempted m w).0
          ≡ all_failed m method (attempted || any_healthy m es))
        × ((id : ℕ)
            → is_healthy (try_backends call method es attempted m w).1 id
              ≡ (is_healthy m id && not (listed id es)))
  try_dead method [] attempted m w dead interval =
      unfold try_backends in (ground arith, λ id. ground arith)
  try_dead method ((name, j) ∷ es) attempted m w dead interval =
      let (c, c_state, c_world) = check_health-mark m w j interval in
      elim (Bool-cases (is_healthy m j)) [
        | inr sick ↦
            let (reply, marks) = try_dead method es attempted m w dead interval in
            rw (try_skipped method name j es attempted m w (rw c sick), c_state, c_world)
              (ground (arith, reply), λ id. ground (arith, marks id, nat_beq_iff j id))
        | inl well ↦
            let m' = mark m j false in
            let w' = (call w j method).1 in
            let (reply, marks) = try_dead method es true m' w' dead (unfold mark in interval) in
            let same : all_failed m' method true ≡ all_failed m method true =
              unfold mark all_failed in refl in
            rw
              (
                try_raised method name j es attempted m w (rw c well)
                    (dead (check_health call m w j).2 j),
                c_state,
                c_world,
              )
              (
                ground (arith, reply, same),
                λ id. ground (arith, marks id, is_healthy-mark m j id false, nat_beq_iff j id),
              )
      ]

  -- The loop changes only the marks.
  check_health-state :
      (m : MultiBackend) (w : W) (id : ℕ)
      → (check_health call m w id).1
        ≡ record m { backend_health = (check_health call m w id).1.backend_health }
  unfolding check_health ping mark
  check_health-state m w id = ground arith

  pub try-state :
      (method : Method) (es : List Entry) (attempted : Bool) (m : MultiBackend) (w : W)
      → (try_backends call method es attempted m w).1
        ≡ record m { backend_health = (try_backends call method es attempted m w).1.backend_health }
  unfolding try_backends mark
  try-state method [] attempted m w = refl
  try-state method ((name, j) ∷ es) attempted m w =
      let (_, m', w') = check_health call m w j in
      ground (
        arith,
        try-state method es attempted m' w',
        try-state method es true (mark m' j false) (call w' j method).1,
        check_health-state m w j,
      )

  -- Leaving out backends that are not marked healthy changes nothing.
  pub try-filter :
      (p : Entry → Bool) (method : Method) (es : List Entry) (attempted : Bool) (m : MultiBackend)
      (w : W)
      → ((e : Entry) → is_healthy m e.1 ≡ true → p e ≡ true)
      → 0 < m.health_check_interval
      → try_backends call method es attempted m w
        ≡ try_backends call method (filter p es) attempted m w
  try-filter p method [] attempted m w keeps interval = refl
  try-filter p method ((name, j) ∷ es) attempted m w keeps interval =
      let (c, c_state, c_world) = check_health-mark m w j interval in
      elim (Bool-cases (p (name, j))) [
        | inr out ↦
            rw
              (
                try_skipped method name j es attempted m w (
                    rw c (elim (Bool-cases (is_healthy m j)) [
                      | inl well ↦ ground (arith, keeps (name, j) well)
                      | inr sick ↦ sick
                    ])),
                c_state,
                c_world,
                out,
              )
              (try-filter p method es attempted m w keeps interval)
        | inl stays ↦ rw stays (elim (Bool-cases (is_healthy m j)) [
          | inr sick ↦
              rw
                (
                  try_skipped method name j es attempted m w (rw c sick),
                  try_skipped method name j (filter p es) attempted m w (rw c sick),
                  c_state,
                  c_world,
                )
                (try-filter p method es attempted m w keeps interval)
          | inl well ↦ elim (Option-cases (call (check_health call m w j).2 j method).0) [
            | inr (value, e) ↦
                rw
                  (
                    try_answered method name j es attempted m w value (rw c well) e,
                    try_answered method name j (filter p es) attempted m w value (rw c well) e,
                  )
                  refl
            | inl e ↦
                rw
                  (
                    try_raised method name j es attempted m w (rw c well) e,
                    try_raised method name j (filter p es) attempted m w (rw c well) e,
                    c_state,
                    c_world,
                  )
                  (try-filter p method es true (mark m j false) (call w j method).1
                    (λ x h. ground (arith, keeps x, is_healthy-mark m j x.1 false))
                    (unfold mark in interval))
          ]
        ])
      ]
