-- ===== src/Backends/Memory/Index.antt =====
-- The partition index of `MemoryBackend` (django_smart_ratelimit/backends/memory.py): what
-- `_update_partition`, `_remove_from_partition` and the sweep do to it.
use django_smart_ratelimit.Prelude.{
  ℕ, ◌≤◌, ◌≡◌, refl, inl, inr, true, false, ◌&&◌, ◌||◌, not, none, some, List, [], ◌∷◌, ◌++◌, arith,
  Text, text_key, nat_key, text_beq_iff, nat_beq_iff, length, Option-cases, List-cases,
  if◌then◌else◌,
}
use django_smart_ratelimit.Prelude.Dict
use django_smart_ratelimit.Prelude.Dict.{Dict}
use django_smart_ratelimit.Backends.Memory.{
  MemoryConfig, MemoryBackend, member, set_add, discard, leave_partition, join_partition,
  update_partition, drop_keys, get_partition_id,
}

member-append : (k : Text) (xs ys : List Text) → member k (xs ++ ys) ≡ (member k xs || member k ys)
unfolding member
member-append k [] ys = refl
member-append k (x ∷ xs) ys = ground (arith, member-append k xs ys)

member-set_add :
    (k j : Text) (ks : List Text) → member j (set_add k ks) ≡ (text_key.same k j || member j ks)
unfolding set_add member
member-set_add k j ks = ground (arith, member-append j ks (k ∷ []), text_beq_iff k j)

member-discard :
    (k j : Text) (ks : List Text)
    → member j (discard k ks) ≡ (not (text_key.same k j) && member j ks)
unfolding member discard
member-discard k j [] = ground arith
member-discard k j (x ∷ xs) =
    ground (arith, member-discard k j xs, text_beq_iff x k, text_beq_iff x j, text_beq_iff k j)

-- The keys of a partition; there are none where the partition is missing.
abbrev pub keys_of : Dict ℕ (List Text) → ℕ → List Text
keys_of partitions p = elim (Dict.get partitions p) [ none ↦ [] | some ks ↦ ks ]

pub member-join :
    (d : Dict ℕ (List Text)) (p q : ℕ) (k j : Text)
    → member j (keys_of (join_partition d p k) q) ≡ (
        if nat_key.same p q
        then text_key.same k j || member j (keys_of d q)
        else member j (keys_of d q))
unfolding join_partition
member-join d p q k j =
    let ks = keys_of d p in
    ground (arith, Dict.get-put d p q (set_add k ks), member-set_add k j ks, nat_beq_iff p q)

pub member-nil : (k : Text) → member k [] ≡ false
unfolding member
member-nil k = refl

pub member-leave :
    (d : Dict ℕ (List Text)) (p q : ℕ) (k j : Text)
    → member j (keys_of (leave_partition d p k) q) ≡ (
        if nat_key.same p q
        then not (text_key.same k j) && member j (keys_of d q)
        else member j (keys_of d q))
unfolding leave_partition
member-leave d p q k j =
    let ks = keys_of d p in
    elim (Option-cases (Dict.get d p)) [
      | inl e ↦ unfold member in ground (arith, nat_beq_iff p q)
      | inr (ks, e) ↦ elim (List-cases (discard k ks)) [
        | inl none_left ↦
            ground
              (arith, nat_beq_iff p q, Dict.get-remove d p q, member-discard k j ks, member-nil j)
        | inr (x, xs, some_left) ↦
            ground (arith, nat_beq_iff p q, Dict.get-put d p q (x ∷ xs), member-discard k j ks)
      ]
    ]

-- The keys that `drop_keys` drops are gone from the counters and from the key map; nothing else
-- changes.
pub counters-drop_keys :
    (keys : List Text) (s : MemoryBackend) (k : Text)
    → Dict.get (drop_keys s keys).counters k
      ≡ (if member k keys then none else Dict.get s.counters k)
unfolding drop_keys member
counters-drop_keys [] s k = refl
counters-drop_keys (j ∷ keys) s k =
    let s' : MemoryBackend = record s {
      counters = Dict.remove s.counters j;
      key_partition = Dict.remove s.key_partition j;
    } in
    ground (arith, counters-drop_keys keys s' k, Dict.get-remove s.counters j k)

pub key_partition-drop_keys :
    (keys : List Text) (s : MemoryBackend) (k : Text)
    → Dict.get (drop_keys s keys).key_partition k
      ≡ (if member k keys then none else Dict.get s.key_partition k)
unfolding drop_keys member
key_partition-drop_keys [] s k = refl
key_partition-drop_keys (j ∷ keys) s k =
    let s' : MemoryBackend = record s {
      counters = Dict.remove s.counters j;
      key_partition = Dict.remove s.key_partition j;
    } in
    ground (arith, key_partition-drop_keys keys s' k, Dict.get-remove s.key_partition j k)

pub length-drop_keys-le :
    (keys : List Text) (s : MemoryBackend) → length (drop_keys s keys).counters ≤ length s.counters
unfolding drop_keys
length-drop_keys-le [] s = omega arith
length-drop_keys-le (j ∷ keys) s = omega (
  arith,
  length-drop_keys-le keys (record s {
    counters = Dict.remove s.counters j;
    key_partition = Dict.remove s.key_partition j;
  }),
  Dict.length-remove-le s.counters j,
)

pub rest-drop_keys :
    (keys : List Text) (s : MemoryBackend)
    → ((drop_keys s keys).token_buckets ≡ s.token_buckets)
      × ((drop_keys s keys).storage ≡ s.storage)
unfolding drop_keys
rest-drop_keys [] s = (refl, refl)
rest-drop_keys (j ∷ keys) s = rest-drop_keys keys (record s {
  counters = Dict.remove s.counters j;
  key_partition = Dict.remove s.key_partition j;
})

module _ (c : MemoryConfig) (s : MemoryBackend) (key : Text) (expiry : ℕ) where
  pub key_partition-update :
      (k : Text)
      → Dict.get (update_partition c s key expiry).key_partition k ≡ (
          if text_key.same key k
          then some (get_partition_id c expiry)
          else Dict.get s.key_partition k)
  unfolding update_partition
  key_partition-update k = elim (Option-cases (Dict.get s.key_partition key)) [
    | inl e ↦ ground (arith, Dict.get-put s.key_partition key k (get_partition_id c expiry))
    | inr (p, e) ↦ ground (
      arith,
      Dict.get-put s.key_partition key k (get_partition_id c expiry),
      nat_beq_iff p (get_partition_id c expiry),
      text_beq_iff key k,
    )
  ]

  pub rest-update :
      ((update_partition c s key expiry).counters ≡ s.counters)
      × ((update_partition c s key expiry).token_buckets ≡ s.token_buckets)
      × ((update_partition c s key expiry).storage ≡ s.storage)
  unfolding update_partition
  rest-update = (ground arith, ground arith, ground arith)

  -- A key that moves to another partition leaves the one that it was in.
  pub indexed-update :
      ((p : ℕ) (k : Text)
        → member k (keys_of s.partitions p) ≡ true
        → Dict.get s.key_partition k ≡ some p)
      → (p : ℕ) (k : Text)
      → member k (keys_of (update_partition c s key expiry).partitions p) ≡ true
      → Dict.get (update_partition c s key expiry).key_partition k ≡ some p
  indexed-update h p k = elim (Option-cases (Dict.get s.key_partition key)) [
    | inl e ↦ λ inside.
        unfold update_partition in
        ground (
          arith,
          key_partition-update k,
          h p k,
          text_beq_iff key k,
          member-join s.partitions (get_partition_id c expiry) p key k,
          nat_beq_iff (get_partition_id c expiry) p,
        )
    | inr (old, e) ↦ λ inside.
        let left = leave_partition s.partitions old key in
        unfold update_partition in
        ground (
          arith,
          key_partition-update k,
          h p k,
          h old k,
          text_beq_iff key k,
          member-join left (get_partition_id c expiry) p key k,
          member-leave s.partitions old p key k,
          nat_beq_iff (get_partition_id c expiry) p,
          nat_beq_iff old p,
          nat_beq_iff old (get_partition_id c expiry),
        )
  ]
