-- ===== src/Quota/Ledger/Charges.antt =====
-- What one call of `consume_quota` (django_smart_ratelimit/quota.py) charges.
use django_smart_ratelimit.Prelude.{
  ℕ, ◌+◌, ◌-◌, ◌≤◌, ◌<◌, ◌≡◌, ◌≢◌, ◌==◌, ◌↔◌, ap, ◌∙◌, Bool, true, not, ◌||◌, Option, none, some,
  Text, text_key, text_pair_key, leb, arith, Option-cases, if◌then◌else◌, inl, inr,
}
use django_smart_ratelimit.Prelude.Dict
use django_smart_ratelimit.Quota.Calendar.{Datetime, IsValid, stamp}
use django_smart_ratelimit.Quota.Period.{Period, str_period, period_bounds}
use django_smart_ratelimit.Quota.Period.Bounds.{period_bounds-Encloses}
use django_smart_ratelimit.Quota.Ledger.{
  Zone, Row, Table, Info, info_of, bounds_at, current_row, charge, consume_quota, get_quota_usage,
}

-- A time zone whose local times are dates of the calendar and whose instants are in the order of
-- its wall-clock times, as where no clock is ever set back.
pub record IsZone (zone : Zone) : Type 0 where
  pub local_valid : (now : ℕ) → IsValid (zone.localtime now)
  pub not_after :
      (now : ℕ) (d : Datetime) → stamp d ≤ stamp (zone.localtime now) → zone.instant d ≤ now
  pub after : (now : ℕ) (d : Datetime) → stamp (zone.localtime now) < stamp d → now < zone.instant d

-- What a key has used of its quota at `now`: nothing if it has no row, or the period of the row is
-- over or another one.
unfoldable pub used_at : Option Row → ℕ → Text → ℕ
used_at none now period = 0
used_at (some row) now period =
    if leb row.reset_at now || not (row.period == period) then 0 else row.used

-- The reset of the period at a time comes after the time.
bounds_at-lt :
    (zone : Zone) (period : Period) (now start reset_at : ℕ)
    → IsZone zone
    → bounds_at zone period now ≡ some (start, reset_at)
    → now < reset_at
unfolding bounds_at
bounds_at-lt zone period now start reset_at z e =
    let local = zone.localtime now in
    elim (Option-cases (period_bounds period local)) [
      | inl invalid ↦ absurd (ground arith)
      | inr ((a, b), valid) ↦
          let inside = period_bounds-Encloses period local (a, b) (z.local_valid now) valid in
          let later = z.after now b inside.before_reset in ground arith
    ]

usage_of_row :
    (rows : Table) (limit : ℕ) (key scope : Text) (info : Info) (row : Row) (t : ℕ)
    → Dict.get rows (key, scope) ≡ some row
    → row.limit ≡ limit
    → info ≡ info_of row row.used
    → get_quota_usage rows t key scope
      ≡ some (if leb info.reset_at t then record info { used = 0; remaining = limit } else info)
unfolding get_quota_usage
usage_of_row rows limit key scope info row t found l i = ground (arith, found, l, i)

-- The row that a call stores, and whether it was charged.
abbrev pub stored : Table → ℕ → Text → ℕ → Text → Text → ℕ → ℕ × ℕ → Bool × Row
stored rows now key limit period scope cost (start, reset_at) =
    charge (current_row (Dict.get rows (key, scope)) now limit period start reset_at) limit cost

module _ (zone : Zone) (rows : Table) (now : ℕ) (key : Text) (limit : ℕ) (period : Period)
    (scope : Text) (cost : ℕ) where
  -- What the stored row says of the charge.
  pub stored_lem :
      (start reset_at : ℕ)
      → let used = used_at (Dict.get rows (key, scope)) now (str_period period) in
        let (allowed, row) =
          stored rows now key limit (str_period period) scope cost (start, reset_at) in
        ((allowed ≡ true) ↔ (used + cost ≤ limit))
        × (row.used ≡ (if allowed then used + cost else used))
        × (row.limit ≡ limit)
        × (row.period ≡ str_period period)
        × (now < reset_at → now < row.reset_at)
  unfolding used_at charge current_row
  stored_lem start reset_at = elim (Option-cases (Dict.get rows (key, scope))) [
    | inl new ↦ ground arith
    | inr (row, old) ↦ ground (arith, text_key.same_iff row.period (str_period period))
  ]

  module _ (allowed : Bool) (info : Info) (rows' : Table)
      (called : consume_quota zone rows now key limit period scope cost
        ≡ some (allowed, info, rows')) where
    -- The result of a call that does not raise, by the row that it stores.
    pub consume_quota_lem :
        (bounds : ℕ × ℕ) × (bounds_at zone period now ≡ some bounds)
        × (let (answer, row) = stored rows now key limit (str_period period) scope cost bounds in
            (allowed ≡ answer)
            × (info ≡ info_of row row.used)
            × (rows' ≡ Dict.put rows (key, scope) row))
    unfolding consume_quota
    consume_quota_lem = elim (Option-cases (bounds_at zone period now)) [
      | inl invalid ↦ absurd (ground arith)
      | inr ((start, reset_at), valid) ↦
          let e = rw (valid, consume_quota) at called in ((start, reset_at), valid, (cc, cc, cc))
    ]

    -- In such a zone the reset comes after the call.
    reset_later : IsZone zone → now < info.reset_at
    reset_later z =
        let ((start, reset_at), valid, (_, i, _)) = consume_quota_lem in
        let later = bounds_at-lt zone period now start reset_at z valid in
        ground (arith, (stored_lem start reset_at).4, i)

    -- The row that is stored says what the result says is used, until its reset.
    used_later :
        (t : ℕ)
        → used_at (Dict.get rows' (key, scope)) t (str_period period)
          ≡ (if leb info.reset_at t then 0 else info.used)
    unfolding used_at
    used_later t =
        let (bounds, valid, (_, i, r)) = consume_quota_lem in
        let row = (stored rows now key limit (str_period period) scope cost bounds).1 in
        let named : (row.period == str_period period) ≡ true = ground (
          arith,
          (stored_lem bounds.0 bounds.1).3,
          text_key.same_iff row.period (str_period period),
        ) in
        let found : Dict.get rows' (key, scope) ≡ some row =
          ap (λ (d : Table). Dict.get d (key, scope)) r ∙ Dict.get-put_self rows (key, scope) row in
        ground (arith, found, named, i)

    -- A call whose period is valid is granted exactly when what the key has used in the current
    -- period and the cost fit into the limit, and then the cost is added; a refused call adds
    -- nothing. The result says what is used and what remains. From then on the table says that the
    -- key has used this in the period, at every time before the reset that the result announces,
    -- and nothing after it; the rows of other keys stay as they are.
    pub charged_exactly :
        let used = used_at (Dict.get rows (key, scope)) now (str_period period) in
        ((allowed ≡ true) ↔ (used + cost ≤ limit))
        × (info.used ≡ (if allowed then used + cost else used))
        × (info.remaining ≡ limit - info.used)
        × ((t : ℕ)
            → used_at (Dict.get rows' (key, scope)) t (str_period period)
              ≡ (if leb info.reset_at t then 0 else info.used))
        × ((other : Text × Text)
            → other ≢ (key, scope)
            → Dict.get rows' other ≡ Dict.get rows other)
    charged_exactly =
        let ((start, reset_at), valid, (a, i, r)) = consume_quota_lem in
        let facts = stored_lem start reset_at in
        let row = (stored rows now key limit (str_period period) scope cost (start, reset_at)).1 in
        (
          ground (arith, facts.0, a),
          ground (arith, facts.1, a, i),
          ground (arith, facts.2, i),
          used_later,
          λ other apart. ground (
            arith,
            r,
            apart,
            Dict.get-put rows (key, scope) other row,
            text_pair_key.same_iff (key, scope) other,
          ),
        )

    -- After a call whose period is valid, `get_quota_usage` gives the information that the call
    -- gave at every time before the reset announced, and from the reset on that nothing is used.
    pub usage_agrees :
        (t : ℕ)
        → get_quota_usage rows' t key scope
          ≡ some (if leb info.reset_at t then record info { used = 0; remaining = limit } else info)
    unfolding get_quota_usage
    usage_agrees t =
        let (bounds, valid, (_, i, r)) = consume_quota_lem in
        let row = (stored rows now key limit (str_period period) scope cost bounds).1 in
        let facts = stored_lem bounds.0 bounds.1 in
        let found : Dict.get rows' (key, scope) ≡ some row =
          ap (λ (d : Table). Dict.get d (key, scope)) r ∙ Dict.get-put_self rows (key, scope) row in
        usage_of_row rows' limit key scope info row t found (facts.2) i
