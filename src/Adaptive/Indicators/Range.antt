-- ===== src/Adaptive/Indicators/Range.antt =====
-- The loads that the indicators of django_smart_ratelimit/adaptive.py report.
use native.Mathlib.Nat.{mul-pos, lt_of_mul-lt-mul_right}
use django_smart_ratelimit.Prelude.{
  ℕ, zero, suc, ◌*◌, ◌<◌, ◌≡◌, inl, inr, Option, none, some, Text, nat_beq, length, Bool-cases,
  Option-cases, arith,
}
use django_smart_ratelimit.Prelude.Int.{ℤ, pos, negsuc}
use django_smart_ratelimit.Adaptive.Quotient.{
  Quotient, quotient, zero_q, one_q, leb_q, min_q, sub_q, div_q, sub_q-mono,
}
use django_smart_ratelimit.Adaptive.Limiter.Updates.{IsLoad}
use django_smart_ratelimit.Adaptive.Indicators.{
  ConnectionCountIndicator, LatencyLoadIndicator, System, TimeOfDayIndicator, connection_load,
  cpu_load, cpus, custom_load, fallback_load, is_in, latency_load, latency_position, load_of,
  memory_load, percent_load, sum, time_load, LoadIndicator, cpu, memory, latency, connections,
  custom, hours,
}

zero-IsLoad : IsLoad zero_q
zero-IsLoad = record { positive_den = omega arith; le_one = omega arith }

cpus_pos : (count : Option ℕ) → 0 < cpus count
unfolding cpus
cpus_pos none = omega arith
cpus_pos (some zero) = omega arith
cpus_pos (some (suc n)) = omega arith

min_q-IsLoad : (q : Quotient) → 0 < q.den → IsLoad (min_q one_q q)
min_q-IsLoad q d = elim (Bool-cases (leb_q one_q q)) [
  | inl more ↦ rw more (record { positive_den = omega arith; le_one = omega arith })
  | inr less ↦ rw less (record { positive_den = d; le_one = ground arith })
]

-- Quotients that the system or the user hands over have a denominator that is not zero.
pub record IsSystem (s : System) : Type 0 where
  pub cpu_den : (q : Quotient) → s.cpu_percent ≡ some q → 0 < q.den
  pub memory_den : (q : Quotient) → s.memory_percent ≡ some q → 0 < q.den
  pub avg_den : (q : Quotient) → s.load_avg ≡ some q → 0 < q.den

abbrev pub HasDenominators : LoadIndicator → Type 0
HasDenominators (custom name (some (n, d))) = 0 < d
HasDenominators (hours i) = IsLoad i.peak_load × IsLoad i.off_peak_load
HasDenominators _ = Unit {0}

latency_position-IsLoad :
    (target greatest : ℕ) (avg : Quotient)
    → 0 < avg.den
    → IsLoad (latency_position target greatest avg)
unfolding latency_position
latency_position-IsLoad target greatest avg d =
    let t = quotient target 1 in
    let g = quotient greatest 1 in
    elim (Bool-cases (leb_q avg t)) [
      | inl low ↦ rw low (record { positive_den = omega arith; le_one = omega arith })
      | inr above ↦ elim (Bool-cases (leb_q g avg)) [
        | inl high ↦ rw (above, high) (record { positive_den = omega arith; le_one = omega arith })
        | inr below ↦
            let lower : target * avg.den < greatest * avg.den = ground arith in
            let gap : target < greatest = lt_of_mul-lt-mul_right avg.den lower in
            rw (above, below)
              (unfold div_q in
                record {
                  positive_den = unfold sub_q in mul-pos (omega (arith, d)) (omega (arith, gap));
                  le_one = omega (arith, sub_q-mono avg t g (ground arith));
                })
      ]
    ]

percent_load-IsLoad : (q : Quotient) → 0 < q.den → IsLoad (percent_load q)
unfolding percent_load
percent_load-IsLoad q d = min_q-IsLoad (quotient q.num (q.den * 100)) (omega arith)

fallback_load-IsLoad : (s : System) → IsSystem s → IsLoad (fallback_load s)
unfolding fallback_load
fallback_load-IsLoad s v = elim (Option-cases s.load_avg) [
  | inl nothing ↦ rw nothing zero-IsLoad
  | inr (avg, found) ↦ rw found (
      min_q-IsLoad (quotient avg.num (avg.den * cpus s.cpu_count))
        (mul-pos (v.avg_den avg found) (cpus_pos s.cpu_count)))
]

cpu_load-IsLoad : (s : System) → IsSystem s → IsLoad (cpu_load s)
unfolding cpu_load
cpu_load-IsLoad s v = elim (Option-cases s.cpu_percent) [
  | inl nothing ↦ rw nothing (fallback_load-IsLoad s v)
  | inr (q, found) ↦ rw found (percent_load-IsLoad q (v.cpu_den q found))
]

memory_load-IsLoad : (s : System) → IsSystem s → IsLoad (memory_load s)
unfolding memory_load
memory_load-IsLoad s v = elim (Option-cases s.memory_percent) [
  | inl nothing ↦ rw nothing zero-IsLoad
  | inr (q, found) ↦ rw found (percent_load-IsLoad q (v.memory_den q found))
]

latency_load-IsLoad : (i : LatencyLoadIndicator) → IsLoad (latency_load i)
unfolding latency_load
latency_load-IsLoad i = elim (Bool-cases (nat_beq (length i.latencies) 0)) [
  | inl nothing ↦ rw nothing zero-IsLoad
  | inr some_there ↦ rw some_there (
      latency_position-IsLoad i.target_latency i.max_latency
        (quotient (sum i.latencies) (length i.latencies)) (ground arith))
]

connection_load-IsLoad : (i : ConnectionCountIndicator) → IsLoad (connection_load i)
unfolding connection_load
connection_load-IsLoad i = elim (Bool-cases (nat_beq i.max_connections 0)) [
  | inl nothing ↦ rw nothing zero-IsLoad
  | inr some_there ↦
      rw some_there (min_q-IsLoad (quotient i.current_connections i.max_connections) (ground arith))
]

custom_load-IsLoad :
    (name : Text) (answer : Option (ℤ × ℕ))
    → HasDenominators (custom name answer)
    → IsLoad (custom_load answer)
unfolding custom_load
custom_load-IsLoad name none h = zero-IsLoad
custom_load-IsLoad name (some (pos n, d)) h = min_q-IsLoad (quotient n d) h
custom_load-IsLoad name (some (negsuc n, d)) h = zero-IsLoad

time_load-IsLoad :
    (i : TimeOfDayIndicator) (s : System) → HasDenominators (hours i) → IsLoad (time_load i s)
unfolding time_load
time_load-IsLoad i s h = elim (Bool-cases (is_in s.hour i.peak_hours)) [
  | inl peak ↦ rw peak h.0
  | inr off_peak ↦ rw off_peak h.1
]

-- Whatever an indicator of the module has seen, and whatever the system says, it reports a load
-- between 0 and 1.
pub load_of-IsLoad :
    (i : LoadIndicator) (s : System) → HasDenominators i → IsSystem s → IsLoad (load_of i s)
unfolding load_of
load_of-IsLoad cpu s h v = cpu_load-IsLoad s v
load_of-IsLoad memory s h v = memory_load-IsLoad s v
load_of-IsLoad (latency i) s h v = latency_load-IsLoad i
load_of-IsLoad (connections i) s h v = connection_load-IsLoad i
load_of-IsLoad (custom name answer) s h v = custom_load-IsLoad name answer h
load_of-IsLoad (hours i) s h v = time_load-IsLoad i s h
