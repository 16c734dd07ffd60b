-- ===== src/Prelude/Dict.antt =====
-- Python's `dict` and `OrderedDict` as an association list in insertion order.
use Prim.Native.Nat.{suc, ◌≤◌}
use mathlib.Core.Path.{◌≡◌, refl}
use mathlib.Core.Logic.{inl, inr}
use mathlib.Core.Bool.{Bool, true, false}
use mathlib.Core.Option.{Option, none, some}
use mathlib.Core.List.{List, [], ◌∷◌, ◌++◌}
use native.Mathlib.Omega.{arith}
use django_smart_ratelimit.Prelude.Tests.{Key, ◌==◌, if◌then◌else◌, Option-cases}
use django_smart_ratelimit.Prelude.Lists.{length, filter, length-append}

abbrev pub Dict {ℓ κ} : Type ℓ → Type κ → Type (ℓ ⊔ κ)
Dict K V = List (K × V)

module _ {ℓ κ} {K : Type ℓ} {V : Type κ} ⦃keys : Key K⦄ where
  -- d.get(k)
  unfoldable pub get : Dict K V → K → Option V
  get [] k = none
  get ((j, v) ∷ d) k = if j == k then some v else get d k

  -- k in d
  unfoldable pub contains : Dict K V → K → Bool
  unfolding get
  contains d k = elim (get d k) [ none ↦ false | some _ ↦ true ]

  -- d[k] = v: an old key keeps its place, a new one goes to the end
  unfoldable pub put : Dict K V → K → V → Dict K V
  put [] k v = (k, v) ∷ []
  put ((j, w) ∷ d) k v = if j == k then (k, v) ∷ d else (j, w) ∷ put d k v

  -- del d[k], d.pop(k, None)
  unfoldable pub remove : Dict K V → K → Dict K V
  remove [] k = []
  remove ((j, w) ∷ d) k = if j == k then remove d k else (j, w) ∷ remove d k

  -- d.move_to_end(k), for a key that is there
  unfoldable pub move_to_end : Dict K V → K → Dict K V
  unfolding get remove
  move_to_end d k = elim (get d k) [ none ↦ d | some v ↦ remove d k ++ (k, v) ∷ [] ]

module _ {ℓ κ} {K : Type ℓ} {V : Type κ} ⦃keys : Key K⦄ where
  pub get-put :
      (d : Dict K V) (k j : K) (v : V) → get (put d k v) j ≡ (if k == j then some v else get d j)
  unfolding get put
  get-put [] k j v = refl
  get-put ((i, w) ∷ d) k j v =
      ground (arith, keys.same_iff k j, keys.same_iff i k, keys.same_iff i j, get-put d k j v)

  pub get-put_self : (d : Dict K V) (k : K) (v : V) → get (put d k v) k ≡ some v
  get-put_self d k v = ground (arith, get-put d k k v, keys.same_iff k k)

  pub get-remove :
      (d : Dict K V) (k j : K) → get (remove d k) j ≡ (if k == j then none else get d j)
  unfolding get remove
  get-remove [] k j = ground arith
  get-remove ((i, w) ∷ d) k j =
      ground (arith, keys.same_iff k j, keys.same_iff i k, keys.same_iff i j, get-remove d k j)

  pub get-append_new :
      (d : Dict K V) (k j : K) (v : V)
      → get d k ≡ none
      → get (d ++ (k, v) ∷ []) j ≡ (if k == j then some v else get d j)
  unfolding get
  get-append_new [] k j v h = refl
  get-append_new ((i, w) ∷ d) k j v h =
      ground
        (arith, keys.same_iff k j, keys.same_iff i k, keys.same_iff i j, get-append_new d k j v)

  -- Moving a key to the end changes no lookup.
  pub get-move_to_end : (d : Dict K V) (k j : K) → get (move_to_end d k) j ≡ get d j
  unfolding move_to_end
  get-move_to_end d k j = elim (Option-cases (get d k)) [
    | inl absent ↦ ground arith
    | inr (v, found) ↦ ground (
      arith,
      get-append_new (remove d k) k j v,
      get-remove d k k,
      get-remove d k j,
      keys.same_iff k j,
      keys.same_iff k k,
    )
  ]

  pub length-remove-le : (d : Dict K V) (k : K) → length (remove d k) ≤ length d
  unfolding remove
  length-remove-le [] k = omega arith
  length-remove-le ((j, w) ∷ d) k = ground (arith, length-remove-le d k)

  pub length-put-le : (d : Dict K V) (k : K) (v : V) → length (put d k v) ≤ suc (length d)
  unfolding put
  length-put-le [] k v = omega arith
  length-put-le ((j, w) ∷ d) k v = ground (arith, length-put-le d k v)

module _ {ℓ κ} {K : Type ℓ} {V : Type κ} ⦃keys : Key K⦄ where
  pub length-remove-lt :
      (d : Dict K V) (k : K) (v : V) → get d k ≡ some v → suc (length (remove d k)) ≤ length d
  unfolding get remove
  length-remove-lt [] k v h = ground arith
  length-remove-lt ((j, w) ∷ d) k v h = ground (arith, length-remove-lt d k v, length-remove-le d k)

  pub length-move_to_end-le : (d : Dict K V) (k : K) → length (move_to_end d k) ≤ length d
  unfolding move_to_end
  length-move_to_end-le d k = elim (Option-cases (get d k)) [
    | inl absent ↦ ground arith
    | inr (v, found) ↦
        ground (arith, length-append (remove d k) ((k, v) ∷ []), length-remove-lt d k v found)
  ]

  -- A filter that depends on the value alone, where keys occur once.
  pub get_none-filter :
      (p : K × V → Bool) (d : Dict K V) (k : K) → get d k ≡ none → get (filter p d) k ≡ none
  unfolding get
  get_none-filter p [] k h = refl
  get_none-filter p ((j, w) ∷ d) k h = ground (arith, get_none-filter p d k)
