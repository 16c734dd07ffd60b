-- ===== src/Quota/Ledger/Spending.antt =====
-- What a sequence of calls of `consume_quota` (django_smart_ratelimit/quota.py) grants to a key.
use django_smart_ratelimit.Prelude.{
  ℕ, ◌+◌, ◌≤◌, ◌<◌, ◌≡◌, refl, ap, ◌∙◌, sym, inl, inr, Bool, true, false, ◌&&◌, Option, none, some,
  List, [], ◌∷◌, max, Text, text_key, text_pair_key, text_beq_iff, ◌==◌, arith, Option-cases,
  Bool-cases, if◌then◌else◌,
}
use django_smart_ratelimit.Prelude.Dict
use django_smart_ratelimit.Quota.Period.{Period, str_period}
use django_smart_ratelimit.Quota.Ledger.{
  Zone, Row, Table, Info, bounds_at, current_row, charge, consume_quota,
}
use django_smart_ratelimit.Quota.Ledger.Charges.{consume_quota_lem, charged_exactly}

-- A request: its time, key and cost.
pub record Request : Type 0 where
  pub now : ℕ
  pub key : Text
  pub cost : ℕ

-- All requests come before a time.
abbrev pub AllBefore : ℕ → List Request → Type 0
AllBefore t [] = Unit {0}
AllBefore t (r ∷ rs) = (r.now < t) × AllBefore t rs

-- The arithmetic of one call for the key itself.
add_grant :
    (cost rest used used' limit : ℕ) (allowed same : Bool)
    → same ≡ true
    → used' ≡ used + (if allowed then cost else 0)
    → rest + used' ≤ max limit used'
    → (allowed ≡ true → used' ≤ limit)
    → (if allowed && same then cost else 0) + rest + used ≤ max limit used
add_grant cost rest used used' limit true same s u r f = let fits = f refl in ground arith
add_grant cost rest used used' limit false same s u r f = ground arith

module _ (zone : Zone) (limit : ℕ) (period : Period) (scope : Text) where
  -- The costs that are granted to a key when the requests, of this key and of others, call
  -- `consume_quota` one after the other. A call that raises grants nothing.
  unfoldable pub granted : Text → Table → List Request → ℕ
  granted key rows [] = 0
  granted key rows (r ∷ rs) = elim (consume_quota zone rows r.now r.key limit period scope r.cost) [
    | none ↦ granted key rows rs
    | some (allowed, _, rows') ↦
        (if allowed && r.key == key then r.cost else 0) + granted key rows' rs
  ]

  -- What a charge leaves in a row of which `base` was used, in a period that ends at `reset_at`.
  abbrev IsCharge : ℕ → ℕ → ℕ → Bool × Row → Type 0
  IsCharge base reset_at cost (allowed, row) =
      (row.reset_at ≡ reset_at)
      × (row.period ≡ str_period period)
      × (row.used ≡ base + (if allowed then cost else 0))
      × (allowed ≡ true → row.used ≤ limit)

  abbrev charged_row : Option Row → ℕ → ℕ → ℕ × ℕ → Bool × Row
  charged_row old now cost (start, reset_at) =
      charge (current_row old now limit (str_period period) start reset_at) limit cost

  -- A charge in the middle of the period of a row keeps the end of the period.
  charged_within :
      (old : Row) (now cost : ℕ) (bounds : ℕ × ℕ)
      → now < old.reset_at
      → old.period ≡ str_period period
      → IsCharge old.used old.reset_at cost (charged_row (some old) now cost bounds)
  unfolding charge current_row
  charged_within old now cost bounds early same =
      ground (arith, text_key.same_iff old.period (str_period period))

  -- A charge with no row, or one whose period is over, begins a period with nothing used.
  charged_anew :
      (old : Option Row) (now cost : ℕ) (bounds : ℕ × ℕ)
      → ((row : Row) → old ≡ some row → row.reset_at ≤ now)
      → IsCharge 0 bounds.1 cost (charged_row old now cost bounds)
  unfolding charge current_row
  charged_anew none now cost bounds over = ground arith
  charged_anew (some old) now cost bounds over = ground (arith, over old refl)

  module _ (rows rows' : Table) (r : Request) (allowed : Bool) (info : Info)
      (called : consume_quota zone rows r.now r.key limit period scope r.cost
        ≡ some (allowed, info, rows')) where
    -- A call leaves the rows of other keys alone.
    other_row :
        (key : Text)
        → (r.key == key) ≡ false
        → Dict.get rows' (key, scope) ≡ Dict.get rows (key, scope)
    other_row key apart =
        let facts =
          charged_exactly zone rows r.now r.key limit period scope r.cost allowed info rows'
            called in
        facts.4 (key, scope) λ e. ground (arith, text_beq_iff r.key key)

    -- What a call leaves in the row of its own key.
    own_row :
        (base reset_at : ℕ)
        → ((bounds : ℕ × ℕ)
            → bounds_at zone period r.now ≡ some bounds
            → IsCharge base reset_at r.cost
                (charged_row (Dict.get rows (r.key, scope)) r.now r.cost bounds))
        → (row : Row) × (Dict.get rows' (r.key, scope) ≡ some row)
          × IsCharge base reset_at r.cost (allowed, row)
    own_row base reset_at facts =
        let (bounds, valid, (a, i, p)) =
          consume_quota_lem zone rows r.now r.key limit period scope r.cost allowed info rows'
            called in
        let result = charged_row (Dict.get rows (r.key, scope)) r.now r.cost bounds in
        let (reset, same, used, fits) = facts bounds valid in
        let there : Dict.get rows' (r.key, scope) ≡ some result.1 =
          ap (λ (d : Table). Dict.get d (r.key, scope)) p
          ∙ Dict.get-put_self rows (r.key, scope) result.1 in
        (
          result.1,
          there,
          (
            reset,
            same,
            used ∙ ap (λ (b : Bool). base + (if b then r.cost else 0)) (sym a),
            λ granted_it. fits (sym a ∙ granted_it),
          ),
        )

  -- From a row in the middle of its period, no more is granted than is left.
  granted_within :
      (key : Text) (rows : Table) (rs : List Request) (row : Row)
      → Dict.get rows (key, scope) ≡ some row
      → row.period ≡ str_period period
      → AllBefore row.reset_at rs
      → granted key rows rs + row.used ≤ max limit row.used
  unfolding granted
  granted_within key rows [] row found same early = omega arith
  granted_within key rows (r ∷ rs) row found same early =
      elim (Option-cases (consume_quota zone rows r.now r.key limit period scope r.cost)) [
        | inl raised ↦ rw (raised, granted) (granted_within key rows rs row found same early.1)
        | inr ((allowed, info, rows'), called) ↦ elim (Bool-cases (r.key == key)) [
          | inr apart ↦
              let rest =
                granted_within key rows' rs row
                  (other_row rows rows' r allowed info called key apart ∙ found) same early.1 in
              rw (called, granted) (ground arith)
          | inl here ↦
              let own : r.key ≡ key = (text_beq_iff r.key key).0 here in
              let (row', found', (reset', same', used', fits')) =
                own_row rows rows' r allowed info called row.used row.reset_at λ bounds valid.
                  rw (own, found) (charged_within row r.now r.cost bounds early.0 same) in
              let later : AllBefore row'.reset_at rs = rw reset' early.1 in
              let rest =
                granted_within key rows' rs row'
                  (ap (λ (k : Text). Dict.get rows' (k, scope)) (sym own) ∙ found') same' later in
              rw (called, granted)
                (add_grant r.cost (granted key rows' rs) row.used row'.used limit allowed
                  (r.key == key) here used' rest fits')
        ]
      ]

-- While a period lasts a key gets no more than its limit. The table has no row of the key, or one
-- whose period is over, when the first request comes; the others come before the end of the
-- period that then begins, with any requests of other keys among them. What is granted to the key
-- adds up to at most the limit.
pub spend_bound :
    (zone : Zone) (limit : ℕ) (period : Period) (scope : Text) (rows : Table) (first : Request)
    (rs : List Request) (start reset_at : ℕ)
    → ((row : Row) → Dict.get rows (first.key, scope) ≡ some row → row.reset_at ≤ first.now)
    → bounds_at zone period first.now ≡ some (start, reset_at)
    → AllBefore reset_at rs
    → granted zone limit period scope first.key rows (first ∷ rs) ≤ limit
unfolding granted
spend_bound zone limit period scope rows first rs start reset_at over valid early =
    elim (Option-cases
      (consume_quota zone rows first.now first.key limit period scope first.cost)) [
        | inl raised ↦ absurd (unfold consume_quota in ground arith)
        | inr ((allowed, info, rows'), called) ↦
            let (row', found', (reset', same', used', fits')) =
              own_row zone limit period scope rows rows' first allowed info called 0 reset_at
                λ bounds valid'.
                  let e : (start, reset_at) ≡ bounds = cc in
                  rw (← e) (
                    charged_anew zone limit period scope (Dict.get rows (first.key, scope))
                      first.now first.cost (start, reset_at) over) in
            let later : AllBefore row'.reset_at rs = rw reset' early in
            let rest =
              granted_within zone limit period scope first.key rows' rs row' found' same' later in
            let here : (first.key == first.key) ≡ true =
              (text_beq_iff first.key first.key).1 refl in
            let total =
              add_grant first.cost (granted zone limit period scope first.key rows' rs) 0 row'.used
                limit allowed (first.key == first.key) here used' rest fits' in
            rw (called, granted) (omega (arith, total))
      ]
