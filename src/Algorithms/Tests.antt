-- ===== src/Algorithms/Tests.antt =====
-- The theorems on the token and the leaky bucket (django_smart_ratelimit/algorithms) at concrete
-- inputs, over a backend and a JSON codec that meet the assumptions.
use django_smart_ratelimit.Prelude.{
  ℕ, ◌+◌, ◌-◌, ◌*◌, ◌≤◌, ◌≡◌, refl, Bool, true, false, Option, none, some, List, [], ◌∷◌, arith,
  Text, text_key, codes, if◌then◌else◌, ltb,
}
use django_smart_ratelimit.Algorithms.Store.{Fetched, missing, text, Result, returns, Backend, Json}
use django_smart_ratelimit.Algorithms.TokenBucket
use django_smart_ratelimit.Algorithms.TokenBucket.{
  Bucket, Decision, checked, take_tokens, refilled, load, generic_token_bucket_check,
}
use django_smart_ratelimit.Algorithms.TokenBucket.Rate.{serve, burst_bound}
use django_smart_ratelimit.Algorithms.LeakyBucket
use django_smart_ratelimit.Algorithms.LeakyBucket.{leaked, pour}
use django_smart_ratelimit.Algorithms.LeakyBucket.Flow.{accept, outflow_bound}

-- A JSON text for tests: the two numbers themselves.
abbrev pair_loads : Text → Option (ℕ × ℕ)
pair_loads (a ∷ b ∷ []) = some (a, b)
pair_loads _ = none

abbrev pair_json : Json
pair_json = record { dumps = λ (a, b). a ∷ b ∷ []; loads = pair_loads; loads-dumps = λ b. refl }

-- A backend for tests: a list of the writes, the newest first, with the time each ends.
abbrev Write : Type 0
Write = Text × Text × Option ℕ

abbrev alive : ℕ → Option ℕ → Bool
alive now none = true
alive now (some end) = ltb now end

abbrev fetch : List Write → ℕ → Text → Fetched
fetch [] now key = missing
fetch ((k, v, end) ∷ ws) now key =
    if text_key.same k key then (if alive now end then text v else missing) else fetch ws now key

abbrev ends : ℕ → ℕ → Option ℕ → Option ℕ
ends second now none = none
ends second now (some s) = some (now + s * second)

abbrev writes : ℕ → Backend
writes second = record {
  State = List Write;
  get = fetch;
  set = λ s now key value seconds. some ((key, value, ends second now seconds) ∷ s);
}

-- Ten tokens, one unit each, and one unit a tick; two tokens are left at time 100.
abbrev low : Bucket
low = record { tokens = 2; last_refill = 100 }

-- A bucket that was filled when its size was larger.
abbrev overfull : Bucket
overfull = record { tokens = 50; last_refill = 90 }

abbrev later_burst : List (ℕ × ℕ)
later_burst = (101, 5) ∷ (120, 10) ∷ []

abbrev burst : List (ℕ × ℕ)
burst = (100, 2) ∷ later_burst

burst_served : serve 10 1 low burst ≡ (12, record { tokens = 0; last_refill = 120 })
unfolding serve take_tokens
burst_served = refl

burst_bound_example :
    let (taken, final) = serve 10 1 overfull burst in taken ≤ 10 + (final.last_refill - 100) * 1
burst_bound_example = burst_bound 10 1 overfull 100 2 later_burst (omega arith)

abbrev first_check : Result (Decision × List Write)
first_check = generic_token_bucket_check pair_json (writes 1) 1 [] 100 (codes "ip") 10 1 10 4

abbrev after_first : List Write
after_first = (codes "ip:token_bucket", 6 ∷ 100 ∷ [], some 170) ∷ []

abbrev first_decision : Decision
first_decision =
    checked true (record { tokens_remaining = 6; time_to_refill = record { amount = 4; rate = 1 } })

first_check_ok : first_check ≡ returns (first_decision, after_first)
unfolding generic_token_bucket_check load take_tokens TokenBucket.save TokenBucket.expiration
    TokenBucket.bucket_key
first_check_ok = refl

-- A leaky bucket of ten units that leaks one a tick, with eight in it at time 100.
abbrev high : LeakyBucket.Bucket
high = record { level = 8; last_leak = 100 }

outflow_bound_example :
    let (added, final) = accept 1 10 1 high burst in
    (added ≤ 10 - 8 + (final.last_leak - 100) * 1) × (final.level ≤ 10)
outflow_bound_example = outflow_bound 1 10 1 high burst (omega arith) (omega arith)

four_refused : (pour 1 10 1 100 4 high).0 ≡ false
unfolding pour
four_refused = refl

high_expires : high.last_leak + LeakyBucket.expiration 1 10 1 * 1 ≤ 170
unfolding LeakyBucket.expiration
high_expires = omega arith
