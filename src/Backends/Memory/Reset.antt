-- ===== src/Backends/Memory/Reset.antt =====
-- `MemoryBackend.reset` (django_smart_ratelimit/backends/memory.py): what it removes and what it
-- leaves.
use django_smart_ratelimit.Prelude.{
  ◌≡◌, ap, false, inl, inr, none, ◌++◌, arith, Text, text_key, text_beq_iff, codes, length,
  length-append, Bool-cases,
}
use django_smart_ratelimit.Prelude.Dict
use django_smart_ratelimit.Backends.Memory.{MemoryConfig, MemoryBackend, remove_from_partition}
use django_smart_ratelimit.Backends.Memory.Counters.{normalized, reset}
use django_smart_ratelimit.Backends.Memory.Buckets.{bucket_key}

-- No text is itself with something behind it.
bucket_key-differs :
    (c : MemoryConfig) (key : Text) → text_key.same (normalized c key) (bucket_key c key) ≡ false
unfolding bucket_key
bucket_key-differs c key =
    let k = normalized c key in
    elim (Bool-cases (text_key.same k (k ++ codes ":token_bucket"))) [
      | inr other ↦ other
      | inl same ↦
          let lengths : length k ≡ length (k ++ codes ":token_bucket") =
            ap (λ (t : Text). length t) ((text_beq_iff k (k ++ codes ":token_bucket")).0 same) in
          absurd (omega (arith, lengths, length-append k (codes ":token_bucket")))
    ]

-- A reset removes the counter of a key, but leaves the token bucket of the key as it is.
pub reset_keeps_bucket :
    (c : MemoryConfig) (s : MemoryBackend) (key : Text)
    → (Dict.get (reset c s key).counters (normalized c key) ≡ none)
      × (Dict.get (reset c s key).token_buckets (bucket_key c key)
          ≡ Dict.get s.token_buckets (bucket_key c key))
unfolding reset remove_from_partition Dict.contains
reset_keeps_bucket c s key =
    let k = normalized c key in
    (
      ground (arith, Dict.get-remove s.counters k k, text_beq_iff k k),
      ground
          (arith, Dict.get-remove s.token_buckets k (bucket_key c key), bucket_key-differs c key),
    )
