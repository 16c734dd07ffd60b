-- ===== src/Algorithms/Store.antt =====
-- What the generic algorithms of django_smart_ratelimit/algorithms use: a backend with `get` and
-- `set`, and the `json` module. Both are parameters; the laws say what the algorithms rely on.
use django_smart_ratelimit.Prelude.{ℕ, ◌≡◌, refl, Option, some, Text}

-- What `backend.get` gives, as `json.loads` sees it: nothing (or an empty value), a text, a value
-- that is no text, or an AttributeError.
pub data Fetched : Type 0 where
  missing : Fetched
  text : Text → Fetched
  not_text : Fetched
  attribute_error : Fetched

-- The errors that leave the algorithms.
pub data Error : Type 0 where
  type_error zero_division_error backend_error : Error

pub data Result {ℓ} (A : Type ℓ) : Type ℓ where
  raises : Error → Result A
  returns : A → Result A

infixl 5 ◌>>=◌
abbrev pub ◌>>=◌ {ℓ κ} : {A : Type ℓ} {B : Type κ} → Result A → (A → Result B) → Result B
m >>= next = elim m [ raises e ↦ raises e | returns a ↦ next a ]

-- A block that returns has got a value from its first step, and has gone on from there.
pub bind-eq-returns {ℓ κ} :
    {B : Type κ} {A : Type ℓ} (first : Result A) (next : A → Result B) {last : B}
    → (first >>= next) ≡ returns last
    → (got : A) × (first ≡ returns got) × (next got ≡ returns last)
bind-eq-returns (raises e) next done = cc
bind-eq-returns (returns got) next done = (got, refl, done)

pub returns-injective {ℓ} : {A : Type ℓ} {x y : A} → returns x ≡ returns y → x ≡ y
returns-injective same = cc

-- A time is a number of clock ticks. `set` gives `none` if it raises; an expiration is in seconds,
-- as the algorithms pass it.
pub record Backend : Type 1 where
  pub State : Type 0
  pub get : State → ℕ → Text → Fetched
  pub set : State → ℕ → Text → Text → Option ℕ → Option State

-- `json.dumps` and `json.loads` on the dict of a bucket: an amount and a time. `loads` gives
-- `none` for a JSONDecodeError.
pub record Json : Type 0 where
  pub dumps : ℕ × ℕ → Text
  pub loads : Text → Option (ℕ × ℕ)
  pub loads-dumps : (b : ℕ × ℕ) → loads (dumps b) ≡ some b
