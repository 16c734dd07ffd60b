-- ===== src/Adaptive/Limiter/Bounds.antt =====
-- The limit that django_smart_ratelimit/adaptive.py, `_calculate_effective_limit`, gives for a load.
use native.Mathlib.Nat.{
  mul-le-mul_right, mul-le-mul_left, mul-pos, mul-sub, le-div_iff_mul-le, div-le_of_le-mul,
  div-mul-le_self, le_of_mul-le-mul_right,
}
use django_smart_ratelimit.Prelude.{
  ℕ, ◌+◌, ◌-◌, ◌*◌, ◌/◌, ◌≤◌, ◌<◌, ◌≡◌, inl, inr, false, leb, le→leb, leb→le, Bool-cases, arith,
}
use django_smart_ratelimit.Adaptive.Quotient.{
  Quotient, one_q, leb_q, ◌≤q◌, sub_q, div_q, sub_q-mono, div_q-mono, ≤q_trans,
}
use django_smart_ratelimit.Adaptive.Limiter.{interpolated, calculate_effective_limit}

module _ (min_limit max_limit : ℕ) (ordered : min_limit ≤ max_limit) where
  -- What is below the line at `n2 / d2` is below it at the earlier `n1 / d1`.
  product :
      (n1 d1 n2 d2 range y : ℕ)
      → 0 < d2
      → n1 * d2 ≤ n2 * d1
      → y * d2 ≤ max_limit * d2 - n2 * range
      → y * d1 ≤ max_limit * d1 - n1 * range
  product n1 d1 n2 d2 range y pos h under = elim (Bool-cases (leb (n2 * range) (max_limit * d2))) [
    | inl inside ↦
        let fits = leb→le (n2 * range) (max_limit * d2) inside in
        let sum : y * d2 + n2 * range ≤ max_limit * d2 = omega arith in
        let by_d1 = mul-le-mul_right d1 sum in
        let by_range = mul-le-mul_right range h in
        let key : (y * d1 + n1 * range) * d2 ≤ max_limit * d1 * d2 =
          omega (arith, by_d1, by_range) in
        let cancelled : y * d1 + n1 * range ≤ max_limit * d1 = le_of_mul-le-mul_right key pos in
        omega (arith, cancelled)
    | inr outside ↦
        let nothing : y * d2 ≤ 0 * d2 = ground arith in
        let zero_y : y ≤ 0 = le_of_mul-le-mul_right nothing pos in
        let product = mul-le-mul_right d1 zero_y in omega (arith, product)
  ]

  -- A later position in the range gives no higher limit.
  interpolated_antitone :
      (p q : Quotient)
      → 0 < p.den
      → 0 < q.den
      → p ≤q q
      → interpolated min_limit max_limit q ≤ interpolated min_limit max_limit p
  unfolding interpolated
  interpolated_antitone p q pp pq h =
      let range = max_limit - min_limit in
      let y = (max_limit * q.den - q.num * range) / q.den in
      let under : y * q.den ≤ max_limit * q.den - q.num * range =
        div-mul-le_self (max_limit * q.den - q.num * range) q.den in
      let goal : y ≤ (max_limit * p.den - p.num * range) / p.den =
        (le-div_iff_mul-le pp).1 (product p.num p.den q.num q.den range y pq h under) in
      rw (le→leb min_limit max_limit ordered) goal

  interpolated-le : (p : Quotient) → 0 < p.den → interpolated min_limit max_limit p ≤ max_limit
  unfolding interpolated
  interpolated-le p pp =
      let under : (max_limit * p.den - p.num * (max_limit - min_limit)) / p.den ≤ max_limit =
        div-le_of_le-mul p.den (omega arith) in
      rw (le→leb min_limit max_limit ordered) under

  le-interpolated :
      (p : Quotient) → 0 < p.den → p ≤q one_q → min_limit ≤ interpolated min_limit max_limit p
  unfolding interpolated
  le-interpolated p pp h =
      let range = max_limit - min_limit in
      let scaled : p.num * range ≤ p.den * range = mul-le-mul_right range (omega arith) in
      let split : p.den * range ≡ p.den * max_limit - p.den * min_limit =
        mul-sub p.den max_limit min_limit in
      let over : p.den * min_limit ≤ p.den * max_limit = mul-le-mul_left p.den ordered in
      let goal : min_limit ≤ (max_limit * p.den - p.num * range) / p.den =
        (le-div_iff_mul-le pp).1 (omega (arith, scaled, split, over)) in
      rw (le→leb min_limit max_limit ordered) goal

-- Thresholds are fractions, the low one below the high one.
pub record AreThresholds (low high : Quotient) : Type 0 where
  pub low_den : 0 < low.den
  pub high_den : 0 < high.den
  pub apart : low.num * high.den < high.num * low.den

-- `load_position`
abbrev position : Quotient → Quotient → Quotient → Quotient
position low high load = div_q (sub_q load low) (sub_q high low)

module _ (low high : Quotient) (t : AreThresholds low high) where
  position_den : (load : Quotient) → 0 < load.den → 0 < (position low high load).den
  unfolding div_q sub_q
  position_den load d =
      let gap : 0 < high.num * low.den - low.num * high.den = let a = t.apart in omega arith in
      mul-pos (mul-pos d t.low_den) gap

  position-le : (load : Quotient) → load ≤q high → position low high load ≤q one_q
  unfolding div_q
  position-le load h = omega (arith, sub_q-mono load low high h)

module _ (min_limit max_limit : ℕ) (low high : Quotient) (ordered : min_limit ≤ max_limit)
    (t : AreThresholds low high) where
  -- The limit lies between the least and the greatest one.
  pub limit_bounds :
      (load : Quotient)
      → 0 < load.den
      → let limit = calculate_effective_limit min_limit max_limit low high load in
        (min_limit ≤ limit) × (limit ≤ max_limit)
  unfolding calculate_effective_limit
  limit_bounds load d =
      let p = position low high load in
      let pp = position_den low high t load d in
      let over = interpolated-le min_limit max_limit ordered p pp in
      elim (Bool-cases (leb_q high load)) [
        | inl above ↦ ground arith
        | inr below ↦
            let under =
              le-interpolated min_limit max_limit ordered p pp
                (position-le low high t load (ground arith)) in
            ground arith
      ]

  above_low :
      (load load' : Quotient)
      → 0 < load'.den
      → load ≤q load'
      → leb_q load low ≡ false
      → leb_q load' low ≡ false
  above_low load load' d' h more = ground (arith, ≤q_trans load load' low d' h)

  below_high :
      (load load' : Quotient)
      → 0 < load.den
      → load ≤q load'
      → leb_q high load' ≡ false
      → leb_q high load ≡ false
  below_high load load' d h less =
      ground (arith, λ (k : high ≤q load). ≤q_trans high load load' d k h)

  -- Where thresholds and loads are fractions of positive denominators, the least limit is not above
  -- the greatest one and the low threshold is below the high one, the greater of two loads is given
  -- no higher limit.
  pub more_load_no_higher_limit :
      (load load' : Quotient)
      → 0 < load.den
      → 0 < load'.den
      → load ≤q load'
      → calculate_effective_limit min_limit max_limit low high load'
        ≤ calculate_effective_limit min_limit max_limit low high load
  more_load_no_higher_limit load load' d d' h =
      let bounds = limit_bounds load d in
      let bounds' = limit_bounds load' d' in
      elim (Bool-cases (leb_q load low)) [
        | inl low_load ↦ unfold calculate_effective_limit in rw low_load bounds'.1
        | inr more ↦
            let more' : leb_q load' low ≡ false = above_low load load' d' h more in
            elim (Bool-cases (leb_q high load')) [
              | inl high_load ↦
                  let least : calculate_effective_limit min_limit max_limit low high load'
                      ≡ min_limit =
                    unfold calculate_effective_limit in rw (more', high_load) in
                  rw least bounds.0
              | inr less' ↦
                  let less : leb_q high load ≡ false = below_high load load' d h less' in
                  unfold calculate_effective_limit in
                  rw (more, less, more', less')
                    (interpolated_antitone min_limit max_limit ordered (position low high load)
                      (position low high load') (position_den low high t load d)
                      (position_den low high t load' d')
                      (div_q-mono (sub_q load low) (sub_q high low) (sub_q load' low)
                        (sub_q-mono load low load' h)))
            ]
      ]
