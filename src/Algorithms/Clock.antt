-- ===== src/Algorithms/Clock.antt =====
-- Times at which requests come, and what drips in between them.
use native.Mathlib.Nat.{add-mul}
use django_smart_ratelimit.Prelude.{ℕ, ◌+◌, ◌-◌, ◌*◌, ◌≤◌, ◌≡◌, sym, ap, ◌∙◌, List, [], ◌∷◌, arith}

-- From `start` on the clock does not step back.
abbrev pub InOrder : ℕ → List (ℕ × ℕ) → Type 0
InOrder start [] = Unit
InOrder start ((now, _) ∷ requests) = (start ≤ now) × InOrder now requests

pub elapsed_add :
    (rate a m n : ℕ) → a ≤ m → m ≤ n → (m - a) * rate + (n - m) * rate ≡ (n - a) * rate
elapsed_add rate a m n h k =
    sym (add-mul (m - a) (n - m) rate) ∙ ap (λ (t : ℕ). t * rate) (omega arith)
