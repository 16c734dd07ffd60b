-- ===== src/Backends/Multi/RoundRobin.antt =====
-- The round robin of `MultiBackend` (django_smart_ratelimit/backends/multi.py) along its calls.
use django_smart_ratelimit.Backends.Multi.Cycle.{IsCycle, append_assoc, first-healthy}
use django_smart_ratelimit.Prelude.{
  ℕ, ◌≡◌, refl, sym, ◌∙◌, inl, inr, Bool, true, false, Option, some, List, [], ◌∷◌, ◌++◌, arith,
  text_key, nat_key, Option-cases, List-cases, Bool-cases,
}
use django_smart_ratelimit.Backends.Multi.Order.{any_healthy, ordered_lem}
use django_smart_ratelimit.Backends.Multi.Loop.{try-state}
use django_smart_ratelimit.Backends.Multi.{
  Method, Value, new_multi, execute_with_fallback, Entry, MultiBackend, is_healthy, next_backend,
  find_primary, get_ordered_backends,
}

next_backend-IsCycle :
    (m : MultiBackend) (bs cycle passed : List Entry)
    → bs ≡ passed ++ cycle
    → IsCycle (next_backend (record m { backends = bs; backend_cycle = cycle })).1
unfolding next_backend
next_backend-IsCycle m bs (x ∷ rest) passed h = record {
  passed = passed ++ x ∷ [];
  passed_eq = h ∙ sym (append_assoc passed (x ∷ []) rest);
}
next_backend-IsCycle m [] [] passed h = record { passed = []; passed_eq = refl }
next_backend-IsCycle m (x ∷ rest) [] passed h = record { passed = x ∷ []; passed_eq = refl }

find_primary-IsCycle :
    (steps : List Entry) (m : MultiBackend) → IsCycle m → IsCycle (find_primary steps m).1
unfolding find_primary
find_primary-IsCycle [] m h = h
find_primary-IsCycle (s ∷ steps) m h =
    let (candidate, m') = next_backend m in
    let h' : IsCycle m' = next_backend-IsCycle m m.backends m.backend_cycle h.passed h.passed_eq in
    let whole = find_primary (s ∷ steps) m in
    elim (Option-cases candidate) [
      | inl e ↦ let same : whole.1 ≡ m' = ground arith in rw same h'
      | inr (x, e) ↦ elim (Bool-cases (is_healthy m x.1)) [
        | inl well ↦ let same : whole.1 ≡ m' = ground arith in rw same h'
        | inr sick ↦
            let same : whole.1 ≡ (find_primary steps m').1 = ground arith in
            rw same (find_primary-IsCycle steps m' h')
      ]
    ]

-- Choosing an order keeps the cycle in step with the list.
ordered-IsCycle : (m : MultiBackend) → IsCycle m → IsCycle (get_ordered_backends m).1
unfolding get_ordered_backends
ordered-IsCycle m h =
    let m' = (find_primary m.backends m).1 in
    let h' = find_primary-IsCycle m.backends m h in
    elim (Bool-cases m.round_robin) [
      | inr linear ↦ let same : (get_ordered_backends m).1 ≡ m = ground arith in rw same h
      | inl cycle ↦
          let same : (get_ordered_backends m).1 ≡ m' =
            ground (arith, Option-cases (find_primary m.backends m).0, List-cases m.backends) in
          rw same h'
    ]

module _ {ℓ} {W : Type ℓ} (call : W → ℕ → Method → Option Value × W) where
  -- A call of one method after another.
  unfoldable pub serve : MultiBackend → W → List Method → MultiBackend × W
  serve m w [] = (m, w)
  serve m w (method ∷ methods) =
      let (_, m', w') = execute_with_fallback call m w method in serve m' w' methods

  execute-IsCycle :
      (m : MultiBackend) (w : W) (method : Method)
      → IsCycle m
      → IsCycle (execute_with_fallback call m w method).1
        × ((execute_with_fallback call m w method).1.round_robin ≡ m.round_robin)
  unfolding execute_with_fallback
  execute-IsCycle m w method h =
      let (ordered, m') = get_ordered_backends m in
      let (_, _, chosen) = ordered_lem m in
      let h' = ordered-IsCycle m h in
      let tried = try-state call method ordered false m' w in
      (
        rw tried (record { passed = h'.passed; passed_eq = h'.passed_eq }),
        ground (arith, tried, chosen),
      )

  serve-IsCycle :
      (m : MultiBackend) (w : W) (methods : List Method)
      → IsCycle m
      → IsCycle (serve m w methods).0 × ((serve m w methods).0.round_robin ≡ m.round_robin)
  unfolding serve
  serve-IsCycle m w [] h = (h, refl)
  serve-IsCycle m w (method ∷ methods) h =
      let (_, m', w') = execute_with_fallback call m w method in
      let (h', same) = execute-IsCycle m w method h in
      let (h'', same') = serve-IsCycle m' w' methods h' in (h'', same' ∙ same)

  -- In the round robin, whatever calls a new multi backend has served, the first backend of the
  -- next order is marked healthy where some backend is.
  pub round_robin_first :
      (e : Entry) (es : List Entry) (interval : ℕ) (fail_open : Bool) (m : MultiBackend) (w : W)
      (methods : List Method)
      → new_multi (e ∷ es) true interval fail_open ≡ some m
      → let m' = (serve m w methods).0 in
        any_healthy m' m'.backends ≡ true
        → (first : Entry) × (rest : List Entry) × ((get_ordered_backends m').0 ≡ first ∷ rest)
          × (is_healthy m' first.1 ≡ true)
  round_robin_first e es interval fail_open m w methods new some_well =
      let start : IsCycle m = record {
        passed = [];
        passed_eq = unfold new_multi in ground arith;
      } in
      let (h, same) = serve-IsCycle m w methods start in
      let cycle : m.round_robin ≡ true = unfold new_multi in ground arith in
      first-healthy (serve m w methods).0 h (same ∙ cycle) some_well
