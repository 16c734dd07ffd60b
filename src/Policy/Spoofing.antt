-- ===== src/Policy/Spoofing.antt =====
-- `get_client_ip` of django_smart_ratelimit/policy/lists.py against headers that a client made up.
use django_smart_ratelimit.Prelude.{
  ◌≡◌, ◌≢◌, refl, inl, inr, Bool, true, false, ◌&&◌, not, Option, none, some, List, [], ◌∷◌, ◌++◌,
  map, arith, Text, nat_beq, filter, text_key, Option-cases,
}
use django_smart_ratelimit.Prelude.Strings.{is_empty, split_by, strip}
use django_smart_ratelimit.Policy.Lists.{Address, Network, parse_entries, contains_ip}
use django_smart_ratelimit.Policy.Client.{
  Meta, header, cf_connecting_ip, x_real_ip, x_forwarded_for, remote_addr_name, forwarded_parts,
  last_untrusted, client_from_trusted_chain, or_unknown, first_forwarded, ProxySettings,
  get_trusted_proxies, trusted_client, get_client_ip,
}

abbrev pub all_pass : (Text → Bool) → List Text → Bool
all_pass p [] = true
all_pass p (x ∷ xs) = p x && all_pass p xs

filter-passes : (p : Text → Bool) (xs : List Text) → all_pass p (filter p xs) ≡ true
filter-passes p [] = refl
filter-passes p (x ∷ xs) = ground (arith, filter-passes p xs)

passes-middle :
    (p : Text → Bool) (xs : List Text) (y : Text) (ys : List Text)
    → all_pass p (xs ++ y ∷ ys) ≡ true
    → p y ≡ true
passes-middle p [] y ys h = ground arith
passes-middle p (x ∷ xs) y ys h = ground (arith, passes-middle p xs y ys)

trusted_tail :
    (trusted : Text → Bool) (proxies : List Text)
    → all_pass trusted proxies ≡ true
    → last_untrusted trusted proxies ≡ none
unfolding last_untrusted
trusted_tail trusted [] h = refl
trusted_tail trusted (p ∷ proxies) h = ground (arith, trusted_tail trusted proxies)

-- What stands before the last hop that is not trusted does not matter.
last_untrusted-append :
    (trusted : Text → Bool) (fake proxies : List Text) (real : Text)
    → trusted real ≡ false
    → all_pass trusted proxies ≡ true
    → last_untrusted trusted (fake ++ real ∷ proxies) ≡ some real
unfolding last_untrusted
last_untrusted-append trusted [] proxies real h t = ground (arith, trusted_tail trusted proxies t)
last_untrusted-append trusted (f ∷ fake) proxies real h t =
    ground (arith, last_untrusted-append trusted fake proxies real h t)

hop_known :
    (xff : Text) (fake proxies : List Text) (real : Text)
    → forwarded_parts xff ≡ fake ++ real ∷ proxies
    → is_empty real ≡ false
unfolding forwarded_parts
hop_known xff fake proxies real parts =
    let pieces = map strip (split_by (λ c. nat_beq c b',') xff) in
    let all : all_pass (λ p. not (is_empty p)) (fake ++ real ∷ proxies) ≡ true =
      rw⁻¹ parts (filter-passes (λ p. not (is_empty p)) pieces) in
    ground (arith, passes-middle (λ p. not (is_empty p)) fake real proxies all)

chain_client :
    (meta : Meta) (trusted : Text → Bool) (fake proxies : List Text) (real : Text)
    → forwarded_parts (header meta x_forwarded_for) ≡ fake ++ real ∷ proxies
    → trusted real ≡ false
    → all_pass trusted proxies ≡ true
    → client_from_trusted_chain meta trusted ≡ real
unfolding client_from_trusted_chain
chain_client meta trusted fake proxies real parts outside tail =
    ground (arith, parts, last_untrusted-append trusted fake proxies real outside tail)

or_unknown_known : (t : Text) → is_empty (or_unknown t) ≡ false
or_unknown_known [] = refl
or_unknown_known (c ∷ t) = refl

first_forwarded_known :
    (meta : Meta) (names : List Text) → is_empty (first_forwarded meta names) ≡ false
unfolding first_forwarded
first_forwarded_known meta [] = refl
first_forwarded_known meta (name ∷ names) = ground (arith, first_forwarded_known meta names)

module _ (ip_address : Text → Option Address) (ip_network : Text → Option Network)
    (s : ProxySettings) (meta : Meta) where
  -- Once trusted proxies are configured, a request that does not come from one of them is known
  -- by its remote address, whatever its other headers say; so is every request if the setting is
  -- invalid.
  pub untrusted_peer :
      s.trusted_proxies ≢ []
      → ((ns : List Network)
          → parse_entries ip_address ip_network s.trusted_proxies ≡ some ns
          → contains_ip ip_address ns (header meta remote_addr_name) ≡ false)
      → get_client_ip ip_address ip_network s meta ≡ or_unknown (header meta remote_addr_name)
  unfolding get_client_ip trusted_client get_trusted_proxies
  untrusted_peer configured outside =
      elim (Option-cases (parse_entries ip_address ip_network s.trusted_proxies)) [
        | inl e ↦ ground (arith, configured)
        | inr (ns, e) ↦ ground (arith, configured, outside ns e)
      ]

  -- From a trusted proxy the client is the last hop that is not trusted: what the client itself
  -- put before it in the chain does not matter.
  pub spoofed_hops_ignored :
      (ns : List Network) (fake proxies : List Text) (real : Text)
      → s.trusted_proxies ≢ []
      → parse_entries ip_address ip_network s.trusted_proxies ≡ some ns
      → is_empty (header meta remote_addr_name) ≡ false
      → contains_ip ip_address ns (header meta remote_addr_name) ≡ true
      → forwarded_parts (header meta x_forwarded_for) ≡ fake ++ real ∷ proxies
      → contains_ip ip_address ns real ≡ false
      → all_pass (contains_ip ip_address ns) proxies ≡ true
      → get_client_ip ip_address ip_network s meta ≡ real
  spoofed_hops_ignored ns fake proxies real configured parsed peer peer_in parts outside tail =
      let known : is_empty real ≡ false =
        hop_known (header meta x_forwarded_for) fake proxies real parts in
      let client =
        chain_client meta (contains_ip ip_address ns) fake proxies real parts outside tail in
      unfold get_client_ip trusted_client get_trusted_proxies in
      ground (arith, configured, parsed, peer, peer_in, client, known)

  -- A client is always known by something: the address is never empty.
  pub get_client_ip_known : is_empty (get_client_ip ip_address ip_network s meta) ≡ false
  unfolding get_client_ip trusted_client
  get_client_ip_known =
      let names = cf_connecting_ip ∷ x_forwarded_for ∷ x_real_ip ∷ remote_addr_name ∷ [] in
      ground
        (arith, or_unknown_known (header meta remote_addr_name), first_forwarded_known meta names)
