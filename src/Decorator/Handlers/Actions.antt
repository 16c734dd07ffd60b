-- ===== src/Decorator/Handlers/Actions.antt =====
-- The actions in which the handlers of django_smart_ratelimit/decorator.py are written.
use django_smart_ratelimit.Prelude.{◌≡◌, refl, ap, arith}
use django_smart_ratelimit.Decorator.Handlers.{
  Error, Attempt, returns, raises, Action, ◌>>=◌, catch_all, catch_type_error,
}

module _ {W A : Type 0} (m : Action W A) (w w' : W) where
  -- An action goes on with its value, and not after an exception.
  pub >>=-returns :
      {B : Type 0} (f : A → Action W B) (a : A) → m w ≡ (returns a, w') → (m >>= f) w ≡ f a w'
  >>=-returns {B} f a e =
      let go : Attempt A × W → Attempt B × W =
        λ run. elim run.0 [ returns a ↦ f a run.1 | raises e ↦ (raises e, run.1) ] in
      ap go e

  pub >>=-raises :
      {B : Type 0} (f : A → Action W B) (x : Error)
      → m w ≡ (raises x, w')
      → (m >>= f) w ≡ (raises x, w')
  >>=-raises {B} f x e =
      let go : Attempt A × W → Attempt B × W =
        λ run. elim run.0 [ returns a ↦ f a run.1 | raises e ↦ (raises e, run.1) ] in
      ap go e

  pub catch_type_error-returns :
      (recover : Action W A) (a : A)
      → m w ≡ (returns a, w')
      → catch_type_error m recover w ≡ (returns a, w')
  unfolding catch_type_error
  catch_type_error-returns recover a e = ground (arith, e)

  pub catch_all-raises :
      (recover : Action W A) (x : Error) → m w ≡ (raises x, w') → catch_all m recover w ≡ recover w'
  unfolding catch_all
  catch_all-raises recover x e =
      let go : Attempt A × W → Attempt A × W =
        λ run. elim run.0 [ returns a ↦ (returns a, run.1) | raises e ↦ recover run.1 ] in
      ap go e

-- A pure step behind an action leaves the state as the action left it.
pub state_of_done :
    {W A B : Type 0} (f : A → B) (run : Attempt A × W)
    → let after : Attempt B × W = elim run.0 [
      | returns a ↦ (returns (f a), run.1)
      | raises e ↦ (raises e, run.1)
    ] in
      after.1 ≡ run.1
state_of_done f (returns a, w) = refl
state_of_done f (raises e, w) = refl
