-- ===== src/Adaptive/Quotient.antt =====
-- Fractions of natural numbers, which stand for the loads and weights of
-- django_smart_ratelimit/adaptive.py, with the order and the operations by their two parts.
use native.Mathlib.Nat.{mul-le-mul_right, mul-pos, mul-sub, le_of_mul-le-mul_right}
use django_smart_ratelimit.Prelude.{
  ℕ, ◌+◌, ◌-◌, ◌*◌, ◌≤◌, ◌<◌, ◌≡◌, ap, Bool, leb, arith, if◌then◌else◌,
}

pub record Quotient : Type 0 where
  pub num : ℕ
  pub den : ℕ

abbrev pub quotient : ℕ → ℕ → Quotient
quotient n d = record { num = n; den = d }

abbrev pub zero_q : Quotient
zero_q = quotient 0 1

abbrev pub one_q : Quotient
one_q = quotient 1 1

infix 50 ◌≤q◌
abbrev pub ◌≤q◌ : Quotient → Quotient → Type 0
a ≤q b = a.num * b.den ≤ b.num * a.den

abbrev pub leb_q : Quotient → Quotient → Bool
leb_q a b = leb (a.num * b.den) (b.num * a.den)

abbrev pub min_q : Quotient → Quotient → Quotient
min_q a b = if leb_q a b then a else b

unfoldable pub add_q : Quotient → Quotient → Quotient
add_q a b = quotient (a.num * b.den + b.num * a.den) (a.den * b.den)

unfoldable pub mul_q : Quotient → Quotient → Quotient
mul_q a b = quotient (a.num * b.num) (a.den * b.den)

-- For `b ≤q a`.
unfoldable pub sub_q : Quotient → Quotient → Quotient
sub_q a b = quotient (a.num * b.den - b.num * a.den) (a.den * b.den)

-- For a `b` that is not zero.
unfoldable pub div_q : Quotient → Quotient → Quotient
div_q a b = quotient (a.num * b.den) (a.den * b.num)

pub sub_q-mono : (a b c : Quotient) → a ≤q c → sub_q a b ≤q sub_q c b
unfolding sub_q
sub_q-mono a b c h =
    let scaled = mul-le-mul_right (b.den * b.den) h in
    let left = mul-sub (c.den * b.den) (a.num * b.den) (b.num * a.den) in
    let right = mul-sub (a.den * b.den) (c.num * b.den) (b.num * c.den) in
    omega (arith, scaled, left, right)

pub div_q-mono : (a b c : Quotient) → a ≤q c → div_q a b ≤q div_q c b
unfolding div_q
div_q-mono a b c h = let scaled = mul-le-mul_right (b.den * b.num) h in omega (arith, scaled)

pub ≤q_trans : (a b c : Quotient) → 0 < b.den → a ≤q b → b ≤q c → a ≤q c
≤q_trans a b c pos h k =
    le_of_mul-le-mul_right
      (let l = mul-le-mul_right c.den h in
        let r = mul-le-mul_right a.den k in
        let both : a.num * c.den * b.den ≤ c.num * a.den * b.den = omega (arith, l, r) in both)
      pos

pub add_q-mono : (a b c d : Quotient) → a ≤q b → c ≤q d → add_q a c ≤q add_q b d
unfolding add_q
add_q-mono a b c d h k =
    let left = mul-le-mul_right (c.den * d.den) h in
    let right = mul-le-mul_right (a.den * b.den) k in omega (arith, left, right)

-- A part of a quotient, as large as a quotient up to 1 says, is at most the quotient.
pub mul_q-le : (load weight : Quotient) → load ≤q one_q → mul_q load weight ≤q weight
unfolding mul_q
mul_q-le load weight h =
    let scaled = mul-le-mul_right (weight.num * weight.den) h in omega (arith, scaled)

pub mul_q-le_left : (factor load : Quotient) → load ≤q one_q → mul_q factor load ≤q factor
unfolding mul_q
mul_q-le_left factor load h =
    let scaled = mul-le-mul_right (factor.num * factor.den) h in omega (arith, scaled)

complement : (n g d : ℕ) → n + g ≡ d → (n * (1 * d) + g * d) * 1 ≤ 1 * (d * (1 * d))
complement n g d e = let scaled = ap (λ (t : ℕ). t * d) e in omega (arith, scaled)

-- A quotient up to 1 and what it lacks make 1.
pub add_q-sub_q : (a : Quotient) → a ≤q one_q → add_q a (sub_q one_q a) ≤q one_q
unfolding add_q sub_q
add_q-sub_q a h = complement a.num (1 * a.den - a.num * 1) a.den (omega arith)

pub add_q-den : (a b : Quotient) → 0 < a.den → 0 < b.den → 0 < (add_q a b).den
unfolding add_q
add_q-den a b h k = mul-pos h k

pub mul_q-den : (a b : Quotient) → 0 < a.den → 0 < b.den → 0 < (mul_q a b).den
unfolding mul_q
mul_q-den a b h k = mul-pos h k

pub sub_q-den : (a b : Quotient) → 0 < a.den → 0 < b.den → 0 < (sub_q a b).den
unfolding sub_q
sub_q-den a b h k = mul-pos h k
