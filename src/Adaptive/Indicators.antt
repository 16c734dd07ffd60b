-- ===== src/Adaptive/Indicators.antt =====
-- django_smart_ratelimit/adaptive.py: the load indicators. The system (`psutil`, `os.getloadavg`,
-- `os.cpu_count` and the clock) is what `System` says at the time of the question; `none` is a
-- value that is not there or an exception. Latencies are natural numbers.
pub mod Range
use django_smart_ratelimit.Prelude.{
  ℕ, zero, suc, ◌+◌, ◌-◌, ◌*◌, ◌≤◌, ◌<◌, ◌≡◌, refl, inl, inr, Bool, true, false, Option, none, some,
  List, [], ◌∷◌, ◌++◌, map, Text, codes, leb, ltb, nat_beq, get_or, length, drop, length-append,
  length-drop, Bool-cases, Option-cases, arith, if◌then◌else◌,
}
use django_smart_ratelimit.Prelude.Int.{ℤ, pos, negsuc}
use django_smart_ratelimit.Adaptive.Quotient.{
  Quotient, quotient, zero_q, one_q, leb_q, min_q, ◌≤q◌, sub_q, div_q, sub_q-mono, sub_q-den,
}
use django_smart_ratelimit.Adaptive.Limiter.{Indicator}
use django_smart_ratelimit.Adaptive.Limiter.Updates.{IsLoad}

pub record System : Type 0 where
  pub cpu_percent : Option Quotient
  pub memory_percent : Option Quotient
  pub load_avg : Option Quotient
  pub cpu_count : Option ℕ
  pub hour : ℕ

-- `percent / 100.0`, at most 1.
unfoldable pub percent_load : Quotient → Quotient
percent_load percent = min_q one_q (quotient percent.num (percent.den * 100))

-- `os.cpu_count() or 1`
unfoldable pub cpus : Option ℕ → ℕ
cpus none = 1
cpus (some zero) = 1
cpus (some (suc n)) = suc n

unfoldable pub fallback_load : System → Quotient
unfolding cpus
fallback_load s = elim s.load_avg [
  | none ↦ zero_q
  | some avg ↦ min_q one_q (quotient avg.num (avg.den * cpus s.cpu_count))
]

unfoldable pub cpu_load : System → Quotient
unfolding percent_load fallback_load
cpu_load s = elim s.cpu_percent [ none ↦ fallback_load s | some percent ↦ percent_load percent ]

unfoldable pub memory_load : System → Quotient
unfolding percent_load
memory_load s = elim s.memory_percent [ none ↦ zero_q | some percent ↦ percent_load percent ]

pub record LatencyLoadIndicator : Type 0 where
  pub target_latency : ℕ
  pub max_latency : ℕ
  pub window_size : ℕ
  pub latencies : List ℕ

unfoldable pub record_latency : LatencyLoadIndicator → ℕ → LatencyLoadIndicator
record_latency i latency_ms =
    let latencies' = i.latencies ++ latency_ms ∷ [] in
    record i {
      latencies = if ltb i.window_size (length latencies') then drop 1 latencies' else latencies';
    }

unfoldable pub sum : List ℕ → ℕ
sum [] = 0
sum (x ∷ xs) = x + sum xs

-- The load of an average latency, by linear interpolation between the target and the maximum.
unfoldable pub latency_position : ℕ → ℕ → Quotient → Quotient
latency_position target greatest avg =
    if leb_q avg (quotient target 1)
    then zero_q
    else if leb_q (quotient greatest 1) avg
    then one_q
    else div_q (sub_q avg (quotient target 1)) (sub_q (quotient greatest 1) (quotient target 1))

unfoldable pub latency_load : LatencyLoadIndicator → Quotient
unfolding sum latency_position
latency_load i =
    if nat_beq (length i.latencies) 0
    then zero_q
    else latency_position i.target_latency i.max_latency
        (quotient (sum i.latencies) (length i.latencies))

pub record ConnectionCountIndicator : Type 0 where
  pub max_connections : ℕ
  pub current_connections : ℕ

unfoldable pub increment : ConnectionCountIndicator → ConnectionCountIndicator
increment i = record i { current_connections = i.current_connections + 1 }

unfoldable pub decrement : ConnectionCountIndicator → ConnectionCountIndicator
decrement i = record i { current_connections = i.current_connections - 1 }

unfoldable pub connection_load : ConnectionCountIndicator → Quotient
connection_load i =
    if nat_beq i.max_connections 0
    then zero_q
    else min_q one_q (quotient i.current_connections i.max_connections)

-- `max(0.0, min(1.0, x))` for a quotient whose numerator may be negative.
unfoldable pub clamped : ℤ → ℕ → Quotient
clamped (pos n) d = min_q one_q (quotient n d)
clamped (negsuc n) d = zero_q

-- `CustomLoadIndicator.get_load`; `none` is an exception of the function.
unfoldable pub custom_load : Option (ℤ × ℕ) → Quotient
unfolding clamped
custom_load none = zero_q
custom_load (some (n, d)) = clamped n d

pub record TimeOfDayIndicator : Type 0 where
  pub peak_hours : List ℕ
  pub peak_load : Quotient
  pub off_peak_load : Quotient

-- `__init__`, where the loads are clamped.
unfoldable pub time_of_day : List ℕ → ℤ × ℕ → ℤ × ℕ → TimeOfDayIndicator
unfolding clamped
time_of_day hours (p, pd) (o, od) = record {
  peak_hours = hours;
  peak_load = clamped p pd;
  off_peak_load = clamped o od;
}

unfoldable pub is_in : ℕ → List ℕ → Bool
is_in h [] = false
is_in h (x ∷ xs) = if nat_beq x h then true else is_in h xs

unfoldable pub time_load : TimeOfDayIndicator → System → Quotient
unfolding is_in
time_load i s = if is_in s.hour i.peak_hours then i.peak_load else i.off_peak_load

-- The indicators of the module; the last is what a subclass of the user answers.
pub data LoadIndicator : Type 0 where
  cpu : LoadIndicator
  memory : LoadIndicator
  latency : LatencyLoadIndicator → LoadIndicator
  connections : ConnectionCountIndicator → LoadIndicator
  custom : Text → Option (ℤ × ℕ) → LoadIndicator
  hours : TimeOfDayIndicator → LoadIndicator

unfoldable pub load_of : LoadIndicator → System → Quotient
load_of cpu s = cpu_load s
load_of memory s = memory_load s
load_of (latency i) s = latency_load i
load_of (connections i) s = connection_load i
load_of (custom name answer) s = custom_load answer
load_of (hours i) s = time_load i s

unfoldable pub name_of : LoadIndicator → Text
name_of cpu = codes "CPULoadIndicator"
name_of memory = codes "MemoryLoadIndicator"
name_of (latency i) = codes "LatencyLoadIndicator"
name_of (connections i) = codes "ConnectionCountIndicator"
name_of (custom name answer) = name
name_of (hours i) = codes "TimeOfDayIndicator"

unfoldable pub as_indicator : LoadIndicator → Indicator System
as_indicator i = record { name = name_of i; get_load = λ s. some (load_of i s) }
