-- ===== src/Quota/Ledger.antt =====
-- django_smart_ratelimit/quota.py: `consume_quota`, `get_quota_usage`, `reset_quota` and the
-- wrapper of the decorator `quota`. A transaction is one step; `none` is the ValueError of a bad
-- period, which leaves the table as it is. Limits and costs are natural numbers. The time zone is
-- a parameter: its local times, and the instants of wall-clock times.
pub mod Charges
pub mod Spending
use django_smart_ratelimit.Prelude.{
  ℕ, ◌+◌, ◌-◌, Bool, true, false, not, ◌&&◌, ◌||◌, Option, none, some, Text, text_key,
  text_pair_key, codes, ◌==◌, ◌++◌, leb, if◌then◌else◌,
}
use django_smart_ratelimit.Prelude.Dict
use django_smart_ratelimit.Prelude.Dict.{Dict}
use django_smart_ratelimit.Quota.Calendar.{Datetime}
use django_smart_ratelimit.Quota.Period.{Period, str_period, period_bounds}

pub record Zone : Type 0 where
  pub localtime : ℕ → Datetime
  pub instant : Datetime → ℕ

-- A row of the model `Quota`, but for its key and scope, which are the key of the table.
pub record Row : Type 0 where
  pub used : ℕ
  pub limit : ℕ
  pub period : Text
  pub period_start : ℕ
  pub reset_at : ℕ

abbrev pub Table : Type 0
Table = Dict (Text × Text) Row

pub record Info : Type 0 where
  pub used : ℕ
  pub limit : ℕ
  pub remaining : ℕ
  pub reset_at : ℕ
  pub period : Text

abbrev pub info_of : Row → ℕ → Info
info_of row used = record {
  used = used;
  limit = row.limit;
  remaining = row.limit - used;
  reset_at = row.reset_at;
  period = row.period;
}

-- The bounds of the period at `now`, as instants.
unfoldable pub bounds_at : Zone → Period → ℕ → Option (ℕ × ℕ)
bounds_at zone period now = elim (period_bounds period (zone.localtime now)) [
  | none ↦ none
  | some (start, reset_at) ↦ some (zone.instant start, zone.instant reset_at)
]

-- The row of a key, made if it is not there, and begun anew if its period is over or another one.
unfoldable pub current_row : Option Row → ℕ → ℕ → Text → ℕ → ℕ → Row
current_row none now limit period start reset_at = record {
  used = 0;
  limit = limit;
  period = period;
  period_start = start;
  reset_at = reset_at;
}
current_row (some row) now limit period start reset_at =
    if leb row.reset_at now || not (row.period == period)
    then record row {
      used = 0;
      limit = limit;
      period = period;
      period_start = start;
      reset_at = reset_at;
    }
    else record row { limit = limit }

-- `row.used + cost <= limit`, and the charge.
unfoldable pub charge : Row → ℕ → ℕ → Bool × Row
charge row limit cost =
    if leb (row.used + cost) limit
    then (true, record row { used = row.used + cost })
    else (false, row)

unfoldable pub consume_quota :
    Zone → Table → ℕ → Text → ℕ → Period → Text → ℕ → Option (Bool × Info × Table)
unfolding bounds_at current_row charge
consume_quota zone rows now key limit period scope cost = elim (bounds_at zone period now) [
  | none ↦ none
  | some (start, reset_at) ↦
      let row =
        current_row (Dict.get rows (key, scope)) now limit (str_period period) start reset_at in
      let (allowed, row') = charge row limit cost in
      some (allowed, info_of row' row'.used, Dict.put rows (key, scope) row')
]

unfoldable pub get_quota_usage : Table → ℕ → Text → Text → Option Info
get_quota_usage rows now key scope = elim (Dict.get rows (key, scope)) [
  | none ↦ none
  | some row ↦ some (info_of row (if leb row.reset_at now then 0 else row.used))
]

unfoldable pub reset_quota : Table → Text → Text → Table
reset_quota rows key scope = Dict.remove rows (key, scope)

-- What the wrapper of the decorator gives: the answer of the view, or the response of a quota that
-- is used up.
pub data Outcome {ℓ} (A : Type ℓ) : Type ℓ where
  answered : A → Outcome A
  over_quota : Outcome A

-- The arguments of the decorator, with `key` and `cost` as functions of the request.
pub record Decorator {ℓ} (Request : Type ℓ) : Type ℓ where
  pub generate_key : Request → Text
  pub limit : ℕ
  pub period : Period
  pub scope : Text
  pub cost : Request → ℕ
  pub block : Bool

-- `wrapper`, where the view answers every request; `none` for the request is a call without one.
unfoldable pub wrapper {ℓ κ} :
    {Request : Type ℓ} {A : Type κ}
    → Zone
    → Decorator Request
    → (Option Request → A)
    → Table
    → ℕ
    → Option Request
    → Option (Outcome A × Table)
wrapper zone q func rows now none = some (answered (func none), rows)
wrapper zone q func rows now (some request) =
    elim (consume_quota zone rows now (codes "quota:" ++ q.generate_key request) q.limit q.period
      q.scope (q.cost request)) [
        | none ↦ none
        | some (allowed, info, rows') ↦
            some
              (if not allowed && q.block then over_quota else answered (func (some request)), rows')
      ]
