-- ===== src/Backends/Multi/Cycle.antt =====
-- The cycle of `MultiBackend` (`_get_ordered_backends` of
-- django_smart_ratelimit/backends/multi.py): the first backend of the order.
use django_smart_ratelimit.Prelude.{
  ℕ, suc, ◌+◌, ◌-◌, ◌≤◌, ◌≡◌, refl, ap, sym, ◌∙◌, inl, inr, true, false, ◌&&◌, Option, some, List,
  [], ◌∷◌, ◌++◌, arith, text_key, nat_key, text_beq_iff, nat_beq_iff, length, length-append,
  length-drop, take, drop, List-cases, Bool-cases,
}
use django_smart_ratelimit.Backends.Multi.Order.{any_healthy, any_healthy-append}
use django_smart_ratelimit.Backends.Multi.{
  Entry, MultiBackend, is_healthy, next_backend, find_primary, index_of, rotate,
  get_ordered_backends,
}

-- What is left of the pass over the backends is the end of their list.
pub record IsCycle (m : MultiBackend) : Type 0 where
  pub passed : List Entry
  pub passed_eq : m.backends ≡ passed ++ m.backend_cycle

-- A healthy entry of a list, with what is before and after it.
record IsPick (m : MultiBackend) (es : List Entry) (found : Option Entry) : Type 0 where
  entry : Entry
  before : List Entry
  after : List Entry
  found_eq : found ≡ some entry
  well : is_healthy m entry.1 ≡ true
  split : es ≡ before ++ entry ∷ after

-- A healthy backend among the next ones is found.
find_ahead :
    (xs ys steps : List Entry) (m : MultiBackend)
    → any_healthy m xs ≡ true
    → length xs ≤ length steps
    → IsPick m xs (find_primary steps (record m { backend_cycle = xs ++ ys })).0
unfolding find_primary next_backend is_healthy
find_ahead [] ys steps m some_well long = ground arith
find_ahead (x ∷ xs) ys [] m some_well long = absurd (omega arith)
find_ahead (x ∷ xs) ys (s ∷ steps) m some_well long = elim (Bool-cases (is_healthy m x.1)) [
  | inl well ↦ record {
    entry = x;
    before = [];
    after = xs;
    found_eq = ground arith;
    well = well;
    split = refl;
  }
  | inr sick ↦
      let p = find_ahead xs ys steps m (ground arith) (omega arith) in
      record {
        entry = p.entry;
        before = x ∷ p.before;
        after = p.after;
        found_eq = ground (arith, p.found_eq);
        well = p.well;
        split = ap (λ zs. x ∷ zs) p.split;
      }
]

-- A pass over the rest of the cycle that finds nothing.
find_behind :
    (xs steps : List Entry) (m : MultiBackend)
    → any_healthy m xs ≡ false
    → length xs ≤ length steps
    → find_primary steps (record m { backend_cycle = xs })
      ≡ find_primary (drop (length xs) steps) (record m { backend_cycle = [] })
unfolding find_primary next_backend is_healthy
find_behind [] steps m sick long = refl
find_behind (x ∷ xs) [] m sick long = absurd (omega arith)
find_behind (x ∷ xs) (s ∷ steps) m sick long = ground (arith, find_behind xs steps m)

-- At the end of a pass the next one begins.
find_again :
    (s : Entry) (steps : List Entry) (m : MultiBackend)
    → find_primary (s ∷ steps) (record m { backend_cycle = [] })
      ≡ find_primary (s ∷ steps) (record m { backend_cycle = m.backends })
unfolding find_primary next_backend is_healthy
find_again s steps m = ground (arith, List-cases m.backends)

index_of-split :
    (pre post : List Entry) (e : Entry)
    → (i : ℕ) × (rest : List Entry) × (x : Entry) × (index_of e (pre ++ e ∷ post) ≡ some i)
      × (drop i (pre ++ e ∷ post) ≡ x ∷ rest)
      × (x.1 ≡ e.1)
unfolding index_of
index_of-split [] post e =
    (0, post, e, ground (arith, text_beq_iff e.0 e.0, nat_beq_iff e.1 e.1), refl, refl)
index_of-split (p ∷ pre) post e =
    elim (Bool-cases (text_key.same p.0 e.0 && nat_key.same p.1 e.1)) [
      | inl same ↦ (0, pre ++ e ∷ post, p, ground arith, refl, ground (arith, nat_beq_iff p.1 e.1))
      | inr other ↦
          let (i, rest, x, found, at, id) = index_of-split pre post e in
          (suc i, rest, x, ground (arith, found), at, id)
    ]

append_nil : (xs : List Entry) → xs ++ [] ≡ xs
append_nil [] = refl
append_nil (x ∷ xs) = ap (λ zs. x ∷ zs) (append_nil xs)

pub append_assoc : (xs ys zs : List Entry) → (xs ++ ys) ++ zs ≡ xs ++ (ys ++ zs)
append_assoc [] ys zs = refl
append_assoc (x ∷ xs) ys zs = ap (λ l. x ∷ l) (append_assoc xs ys zs)

nonempty : (m : MultiBackend) (xs : List Entry) → any_healthy m xs ≡ true → 1 ≤ length xs
nonempty m [] h = ground arith
nonempty m (x ∷ xs) h = omega arith

length-backends :
    (m : MultiBackend) (h : IsCycle m)
    → length m.backends ≡ length h.passed + length m.backend_cycle
length-backends m h = rw (h.passed_eq) (length-append h.passed m.backend_cycle)

-- A healthy backend in the rest of the pass is the primary.
ahead-IsPick :
    (m : MultiBackend)
    → IsCycle m
    → any_healthy m m.backend_cycle ≡ true
    → IsPick m m.backends (find_primary m.backends m).0
ahead-IsPick m h ahead =
    let p = find_ahead m.backend_cycle [] m.backends m ahead (omega (arith, length-backends m h)) in
    let same : find_primary m.backends (record m { backend_cycle = m.backend_cycle ++ [] })
        ≡ find_primary m.backends m =
      ap (λ zs. find_primary m.backends (record m { backend_cycle = zs }))
        (append_nil m.backend_cycle) in
    record {
      entry = p.entry;
      before = h.passed ++ p.before;
      after = p.after;
      found_eq = ap (λ r. r.0) (sym same) ∙ p.found_eq;
      well = p.well;
      split =
          h.passed_eq
          ∙ ap (λ zs. h.passed ++ zs) p.split
          ∙ sym (append_assoc h.passed p.before (p.entry ∷ p.after));
    }

-- Otherwise a healthy one that the pass has left behind is, in the next pass.
behind-IsPick :
    (m : MultiBackend) (h : IsCycle m)
    → any_healthy m m.backend_cycle ≡ false
    → any_healthy m h.passed ≡ true
    → IsPick m m.backends (find_primary m.backends m).0
behind-IsPick m h none_ahead behind =
    let left = length-drop (length m.backend_cycle) m.backends in
    let long = length-backends m h in
    elim (List-cases (drop (length m.backend_cycle) m.backends)) [
      | inl nothing_left ↦ absurd (ground (arith, left, long, nonempty m h.passed behind))
      | inr (s, steps, rest) ↦
          let len : length (s ∷ steps) ≡ length m.backends - length m.backend_cycle =
            ap (λ zs. length zs) (sym rest) ∙ left in
          let p = find_ahead h.passed m.backend_cycle (s ∷ steps) m behind (omega arith) in
          let round : find_primary m.backends m
              ≡ find_primary (s ∷ steps)
                  (record m { backend_cycle = h.passed ++ m.backend_cycle }) =
            find_behind m.backend_cycle m.backends m none_ahead (omega arith)
            ∙ ap (λ zs. find_primary zs (record m { backend_cycle = [] })) rest
            ∙ find_again s steps m
            ∙ ap (λ zs. find_primary (s ∷ steps) (record m { backend_cycle = zs })) h.passed_eq in
          record {
            entry = p.entry;
            before = p.before;
            after = p.after ++ m.backend_cycle;
            found_eq = ap (λ r. r.0) round ∙ p.found_eq;
            well = p.well;
            split =
                h.passed_eq
                ∙ ap (λ zs. zs ++ m.backend_cycle) p.split
                ∙ append_assoc p.before (p.entry ∷ p.after) m.backend_cycle;
          }
    ]

-- The primary is healthy where some backend is.
find_primary-healthy :
    (m : MultiBackend)
    → IsCycle m
    → any_healthy m m.backends ≡ true
    → IsPick m m.backends (find_primary m.backends m).0
find_primary-healthy m h some_well = elim (Bool-cases (any_healthy m m.backend_cycle)) [
  | inl ahead ↦ ahead-IsPick m h ahead
  | inr none_ahead ↦ behind-IsPick m h none_ahead (
      ground (
        arith,
        none_ahead,
        any_healthy-append m h.passed m.backend_cycle,
        ap (any_healthy m) h.passed_eq,
      ))
]

-- In the round robin the first backend of the order is healthy where some backend is.
pub first-healthy :
    (m : MultiBackend)
    → IsCycle m
    → m.round_robin ≡ true
    → any_healthy m m.backends ≡ true
    → (first : Entry) × (rest : List Entry) × ((get_ordered_backends m).0 ≡ first ∷ rest)
      × (is_healthy m first.1 ≡ true)
unfolding get_ordered_backends rotate
first-healthy m h cycle some_well =
    let p = find_primary-healthy m h some_well in
    let (i, rest, x, found, at, id) = index_of-split p.before p.after p.entry in
    let start : index_of p.entry m.backends ≡ some i = rw (p.split) found in
    let dropped : drop i m.backends ≡ x ∷ rest = rw (p.split) at in
    (x, rest ++ take i m.backends, ground (arith, p.found_eq, start, dropped), rw id p.well)
