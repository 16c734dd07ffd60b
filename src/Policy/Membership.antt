-- ===== src/Policy/Membership.antt =====
-- `IPList` of django_smart_ratelimit/policy/lists.py: which addresses are in a list.
use django_smart_ratelimit.Prelude.{
  ℕ, ◌+◌, ◌*◌, ◌/◌, ◌%◌, ◌^◌, ◌<◌, ◌≡◌, Bool, true, false, Option, none, some, List, [], ◌∷◌, ◌++◌,
  arith, Text, codes, nat_beq,
}
use django_smart_ratelimit.Prelude.Strings.{has_char}
use django_smart_ratelimit.Policy.Lists.{
  Address, v4, v6, Network, net4, ipv4_mapped, in_network, in_any, IpList, parse_entry,
  parse_entries, new_ip_list, contains_ip,
}

-- An address is that of the IPv4 host `n`, as it is or mapped into IPv6.
abbrev pub is_host : ℕ → Address → Bool
is_host n (v4 m) = nat_beq m n
is_host n (v6 m) = nat_beq m (0xffff * 2 ^ 32 + n)

contains_host :
    (ip_address : Text → Option Address) (u : Text) (n : ℕ) (a : Address)
    → n < 2 ^ 32
    → ip_address u ≡ some a
    → contains_ip ip_address (net4 n 32 ∷ []) u ≡ is_host n a
unfolding contains_ip in_any in_network ipv4_mapped
contains_host ip_address u n (v4 m) small au = ground arith
contains_host ip_address u n (v6 m) small au = ground arith

-- Nothing that a list denies or allows as an IPv4 address is missed in its IPv6 form.
pub mapped_found :
    (ip_address : Text → Option Address) (ns : List Network) (t u : Text) (n : ℕ)
    → n < 2 ^ 32
    → ip_address t ≡ some (v4 n)
    → ip_address u ≡ some (v6 (0xffff * 2 ^ 32 + n))
    → contains_ip ip_address ns t ≡ true
    → contains_ip ip_address ns u ≡ true
unfolding contains_ip ipv4_mapped
mapped_found ip_address ns t u n small at au h =
    let high : (0xffff * 2 ^ 32 + n) / 2 ^ 32 ≡ 0xffff = omega arith in
    let low : (0xffff * 2 ^ 32 + n) % 2 ^ 32 ≡ n = omega arith in ground (arith, high, low)

module _ (ip_address : Text → Option Address) (ip_network : Text → Option Network) where
  -- Where the parser gives a full prefix its one host, and an address has no slash, the list of a
  -- single IPv4 address holds that host, also in its IPv6 form, and nothing else.
  pub single_address_exact :
      ((t : Text) (m : ℕ)
        → ip_address t ≡ some (v4 m)
        → (has_char b'/' t ≡ false) × (ip_network (t ++ codes "/32") ≡ some (net4 m 32)))
      → (t u : Text) (n : ℕ) (a : Address) → n < 2 ^ 32
      → ip_address t ≡ some (v4 n)
      → ip_address u ≡ some a
      → (l : IpList) × (new_ip_list ip_address ip_network (t ∷ []) ≡ some l)
        × (contains_ip ip_address l.networks u ≡ is_host n a)
  unfolding new_ip_list parse_entries parse_entry contains_ip in_any in_network
  single_address_exact full t u n a small at au =
      let (no_slash, host) = full t n at in
      (
        record { networks = net4 n 32 ∷ []; load_failed = false; backing = none },
        ground arith,
        contains_host ip_address u n a small au,
      )
