-- ===== src/Backends/Base.antt =====
-- django_smart_ratelimit/backends/base.py: what `BaseBackend` builds on a backend's `incr`.
use django_smart_ratelimit.Prelude.{
  ℕ, ◌-◌, Bool, true, Option, none, List, [], ◌∷◌, Text, leb, get_or, if◌then◌else◌,
}

-- How a method ends: a value, or the BackendError of `_handle_backend_error`.
pub data Outcome {ℓ} (A : Type ℓ) : Type ℓ where
  ok : A → Outcome A
  backend_error : Outcome A

-- The metadata of a check: the count and what remains, or the error of a backend that fails open.
pub data CheckMetadata : Type 0 where
  counted : ℕ → ℕ → CheckMetadata
  failed_open : CheckMetadata

-- `_handle_backend_error`: the default of the operation, where it has one, goes before `fail_open`.
unfoldable pub handle_backend_error : Bool → Option Bool → Outcome (Bool × CheckMetadata)
handle_backend_error fail_open default_allowed =
    if get_or default_allowed fail_open then ok (true, failed_open) else backend_error

-- A check of `check_batch`.
pub record Check : Type 0 where
  pub key : Text
  pub limit : ℕ
  pub period : ℕ

-- `incr` of a backend with state `S`, which takes a key and a period.
module _ {ℓ} {S : Type ℓ} (incr : S → Text → ℕ → Outcome ℕ × S) where
  unfoldable pub increment : S → Text → ℕ → ℕ → Outcome (ℕ × ℕ) × S
  increment s key window_seconds limit =
      let (outcome, s') = incr s key window_seconds in
      (
        elim outcome [
          | ok current_count ↦ ok (current_count, limit - current_count)
          | backend_error ↦ backend_error
        ],
        s',
      )

  unfoldable pub check_rate_limit : Bool → S → Text → ℕ → ℕ → Outcome (Bool × CheckMetadata) × S
  check_rate_limit fail_open s key limit period =
      let (outcome, s') = incr s key period in
      (
        elim outcome [
          | ok count ↦ ok (leb count limit, counted count (limit - count))
          | backend_error ↦ handle_backend_error fail_open none
        ],
        s',
      )

  -- The checks one after the other; the first that raises ends the batch.
  unfoldable pub check_batch : S → List Check → Outcome (List (Bool × ℕ)) × S
  check_batch s [] = (ok [], s)
  check_batch s (check ∷ checks) =
      let (outcome, s') = incr s check.key check.period in
      let (rest, s'') = check_batch s' checks in
      elim outcome [
        | backend_error ↦ (backend_error, s')
        | ok count ↦ (elim rest [
          | backend_error ↦ (backend_error, s'')
          | ok results ↦ (ok ((leb count check.limit, count) ∷ results), s'')
        ])
      ]
