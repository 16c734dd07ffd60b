-- ===== src/Backends/Multi/Order.antt =====
-- `_get_ordered_backends` of `MultiBackend` (django_smart_ratelimit/backends/multi.py): the order
-- holds every backend, and choosing it changes only the cycle.
use django_smart_ratelimit.Prelude.{
  ℕ, zero, suc, ◌≡◌, refl, inl, inr, Bool, false, ◌||◌, List, [], ◌∷◌, ◌++◌, arith, nat_beq, take,
  drop, get_or, Option-cases, List-cases, Bool-cases,
}
use django_smart_ratelimit.Backends.Multi.{
  Entry, MultiBackend, is_healthy, next_backend, find_primary, index_of, rotate,
  get_ordered_backends,
}

-- Some of the backends is marked healthy.
abbrev pub any_healthy : MultiBackend → List Entry → Bool
any_healthy m [] = false
any_healthy m ((_, id) ∷ es) = is_healthy m id || any_healthy m es

-- An identity is that of one of the backends.
abbrev pub listed : ℕ → List Entry → Bool
listed id [] = false
listed id ((_, j) ∷ es) = nat_beq j id || listed id es

pub any_healthy-append :
    (m : MultiBackend) (xs ys : List Entry)
    → any_healthy m (xs ++ ys) ≡ (any_healthy m xs || any_healthy m ys)
any_healthy-append m [] ys = refl
any_healthy-append m (x ∷ xs) ys = ground (arith, any_healthy-append m xs ys)

listed-append :
    (id : ℕ) (xs ys : List Entry) → listed id (xs ++ ys) ≡ (listed id xs || listed id ys)
listed-append id [] ys = refl
listed-append id (x ∷ xs) ys = ground (arith, listed-append id xs ys)

take-drop : (n : ℕ) (xs : List Entry) → take n xs ++ drop n xs ≡ xs
take-drop zero xs = refl
take-drop (suc n) [] = refl
take-drop (suc n) (x ∷ xs) = ground (arith, take-drop n xs)

any_healthy-rotate :
    (m : MultiBackend) (es : List Entry) (e : Entry)
    → any_healthy m (rotate es e) ≡ any_healthy m es
unfolding rotate
any_healthy-rotate m es e =
    let i = get_or (index_of e es) 0 in
    let split : any_healthy m es ≡ any_healthy m (take i es ++ drop i es) =
      rw (take-drop i es) refl in
    ground (
      arith,
      split,
      any_healthy-append m (drop i es) (take i es),
      any_healthy-append m (take i es) (drop i es),
    )

listed-rotate : (id : ℕ) (es : List Entry) (e : Entry) → listed id (rotate es e) ≡ listed id es
unfolding rotate
listed-rotate id es e =
    let i = get_or (index_of e es) 0 in
    let split : listed id es ≡ listed id (take i es ++ drop i es) = rw (take-drop i es) refl in
    ground (
      arith,
      split,
      listed-append id (drop i es) (take i es),
      listed-append id (take i es) (drop i es),
    )

next_backend-state :
    (m : MultiBackend)
    → (next_backend m).1 ≡ record m { backend_cycle = (next_backend m).1.backend_cycle }
unfolding next_backend
next_backend-state m = ground arith

find_primary-state :
    (steps : List Entry) (m : MultiBackend)
    → (find_primary steps m).1 ≡ record m { backend_cycle = (find_primary steps m).1.backend_cycle }
unfolding find_primary
find_primary-state [] m = refl
find_primary-state (x ∷ steps) m =
    ground (arith, next_backend-state m, find_primary-state steps (next_backend m).1)

-- The order holds the backends, and only the cycle of the state has changed.
pub ordered_lem :
    (m : MultiBackend)
    → ((m' : MultiBackend) → any_healthy m' (get_ordered_backends m).0 ≡ any_healthy m' m.backends)
      × ((id : ℕ) → listed id (get_ordered_backends m).0 ≡ listed id m.backends)
      × ((get_ordered_backends m).1
          ≡ record m { backend_cycle = (get_ordered_backends m).1.backend_cycle })
unfolding get_ordered_backends
ordered_lem m =
    let fp = find_primary m.backends m in
    elim (Bool-cases m.round_robin) [
      | inr linear ↦ (λ m'. ground arith, λ id. ground arith, ground arith)
      | inl cycle ↦ elim (Option-cases fp.0) [
        | inr (e, found) ↦ (
          λ m'. ground (arith, any_healthy-rotate m' m.backends e),
          λ id. ground (arith, listed-rotate id m.backends e),
          ground (arith, find_primary-state m.backends m),
        )
        | inl missing ↦ elim (List-cases m.backends) [
          | inl empty ↦ (
            λ m'. ground arith,
            λ id. ground arith,
            ground (arith, find_primary-state m.backends m),
          )
          | inr (x, xs, full) ↦ (
            λ m'. ground (arith, any_healthy-rotate m' (x ∷ xs) x),
            λ id. ground (arith, listed-rotate id (x ∷ xs) x),
            ground (arith, find_primary-state m.backends m),
          )
        ]
      ]
    ]
