-- ===== src/Backends/Utils/Keys.antt =====
-- `normalize_key` (django_smart_ratelimit/backends/utils.py): the length of a key, and its
-- characters.
use django_smart_ratelimit.Prelude.{
  ℕ, zero, suc, ◌+◌, ◌-◌, ◌≤◌, ◌≡◌, refl, [], ◌∷◌, ◌++◌, arith, Text, nat_beq, length,
  length-append, take, count_if,
}
use django_smart_ratelimit.Backends.Utils.{replace_spaces, with_prefix, slice_to, normalize_key}

length-take-le : (n : ℕ) (t : Text) → length (take n t) ≤ n
length-take-le zero t = omega arith
length-take-le (suc n) [] = omega arith
length-take-le (suc n) (c ∷ t) = omega (arith, length-take-le n t)

length-replace_spaces : (t : Text) → length (replace_spaces t) ≡ length t
unfolding replace_spaces
length-replace_spaces [] = refl
length-replace_spaces (c ∷ t) = omega (arith, length-replace_spaces t)

abbrev pub spaces : Text → ℕ
spaces = count_if (λ c. nat_beq c b' ')

spaces-replace_spaces : (t : Text) → spaces (replace_spaces t) ≡ 0
unfolding replace_spaces
spaces-replace_spaces [] = refl
spaces-replace_spaces (c ∷ t) = ground (arith, spaces-replace_spaces t)

-- With a digest of 64 characters, a normalized key is no longer than the maximum, if that leaves
-- room for the digest and its colon, and it has no space.
pub normalize_key_fits :
    (hexdigest : Text → Text) (key prefix : Text) (max_length : ℕ)
    → ((t : Text) → length (hexdigest t) ≡ 64)
    → 65 ≤ max_length
    → (length (normalize_key hexdigest key prefix max_length) ≤ max_length)
      × (spaces (normalize_key hexdigest key prefix max_length) ≡ 0)
unfolding normalize_key slice_to
normalize_key_fits hexdigest key prefix max_length digest room =
    let full_key = with_prefix key prefix in
    let hash_suffix = hexdigest full_key in
    let cut = take (max_length - (length hash_suffix + 1)) full_key in
    let hashed = cut ++ b':' ∷ hash_suffix in
    (
      ground (
        arith,
        digest full_key,
        length-append cut (b':' ∷ hash_suffix),
        length-take-le (max_length - (length hash_suffix + 1)) full_key,
        length-replace_spaces full_key,
        length-replace_spaces hashed,
      ),
      spaces-replace_spaces _,
    )
