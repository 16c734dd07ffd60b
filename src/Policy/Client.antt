-- ===== src/Policy/Client.antt =====
-- django_smart_ratelimit/policy/lists.py: `get_client_ip`. A header that is missing is the empty
-- text.
use django_smart_ratelimit.Prelude.{
  Bool, not, ◌&&◌, ◌||◌, Option, none, some, List, [], ◌∷◌, Text, text_key, codes, ◌==◌, filter,
  map, nat_beq, if◌then◌else◌,
}
use django_smart_ratelimit.Prelude.Dict
use django_smart_ratelimit.Prelude.Dict.{Dict}
use django_smart_ratelimit.Prelude.Strings.{strip, split_by, has_char, is_empty}
use django_smart_ratelimit.Policy.Lists.{Address, Network, parse_entries, contains_ip}

-- `request.META`
abbrev pub Meta : Type 0
Meta = Dict Text Text

-- `(request.META.get(name) or "").strip()`
unfoldable pub header : Meta → Text → Text
unfolding strip
header meta name = elim (Dict.get meta name) [ none ↦ [] | some value ↦ strip value ]

abbrev pub x_forwarded_for : Text
x_forwarded_for = codes "HTTP_X_FORWARDED_FOR"

abbrev pub cf_connecting_ip : Text
cf_connecting_ip = codes "HTTP_CF_CONNECTING_IP"

abbrev pub x_real_ip : Text
x_real_ip = codes "HTTP_X_REAL_IP"

abbrev pub remote_addr_name : Text
remote_addr_name = codes "REMOTE_ADDR"

abbrev pub unknown : Text
unknown = codes "unknown"

-- The hops of a forwarded chain.
unfoldable pub forwarded_parts : Text → List Text
unfolding split_by strip
forwarded_parts xff =
    filter (λ p. not (is_empty p)) (map strip (split_by (λ c. nat_beq c b',') xff))

-- The last part that is not trusted.
unfoldable pub last_untrusted : (Text → Bool) → List Text → Option Text
last_untrusted trusted [] = none
last_untrusted trusted (p ∷ parts) =
    let later = last_untrusted trusted parts in
    elim later [ some addr ↦ some addr | none ↦ if trusted p then none else some p ]

-- The first of the headers that is not empty.
unfoldable pub first_header : Meta → List Text → Text
unfolding header
first_header meta [] = []
first_header meta (name ∷ names) =
    let rest = first_header meta names in
    if is_empty (header meta name) then rest else header meta name

unfoldable pub client_from_trusted_chain : Meta → (Text → Bool) → Text
unfolding header forwarded_parts
client_from_trusted_chain meta trusted =
    let parts = forwarded_parts (header meta x_forwarded_for) in
    elim (last_untrusted trusted parts) [
      | some addr ↦ addr
      | none ↦ elim parts [ p ∷ _ ↦ p | [] ↦ first_header meta (cf_connecting_ip ∷ x_real_ip ∷ []) ]
    ]

abbrev pub or_unknown : Text → Text
or_unknown [] = unknown
or_unknown (c ∷ t) = c ∷ t

-- The value of a header before its first comma.
unfoldable pub before_comma : Text → Text
unfolding split_by strip has_char
before_comma value =
    if has_char b',' value
    then (elim (split_by (λ c. nat_beq c b',') value) [ [] ↦ [] | p ∷ _ ↦ strip p ])
    else value

-- The loop of the legacy behaviour.
unfoldable pub first_forwarded : Meta → List Text → Text
unfolding header before_comma
first_forwarded meta [] = unknown
first_forwarded meta (name ∷ names) =
    let rest = first_forwarded meta names in
    let value = header meta name in
    if is_empty value || value == unknown || is_empty (before_comma value)
    then rest
    else before_comma value

-- The settings `RATELIMIT_TRUSTED_PROXIES`, where an empty list is unset, and
-- `RATELIMIT_TRUST_FORWARDED_HEADERS`.
pub record ProxySettings : Type 0 where
  pub trusted_proxies : List Text
  pub trust_forwarded_headers : Bool

module _ (ip_address : Text → Option Address) (ip_network : Text → Option Network) where
  -- The cache of the parsed setting is keyed by the setting, so that it changes no answer.
  unfoldable pub get_trusted_proxies : ProxySettings → Option (List Network)
  get_trusted_proxies s = elim s.trusted_proxies [
    | [] ↦ none
    | cidr ∷ cidrs ↦ parse_entries ip_address ip_network (cidr ∷ cidrs)
  ]

  unfoldable pub trusted_client : ProxySettings → Meta → Text
  unfolding get_trusted_proxies header client_from_trusted_chain
  trusted_client s meta =
      let remote_addr = header meta remote_addr_name in
      elim (get_trusted_proxies s) [
        | none ↦ or_unknown remote_addr
        | some ns ↦
            let client = client_from_trusted_chain meta (contains_ip ip_address ns) in
            if not (is_empty remote_addr)
              && contains_ip ip_address ns remote_addr
              && not (is_empty client)
            then client
            else or_unknown remote_addr
      ]

  unfoldable pub get_client_ip : ProxySettings → Meta → Text
  unfolding trusted_client header first_forwarded
  get_client_ip s meta = elim s.trusted_proxies [
    | _ ∷ _ ↦ trusted_client s meta
    | [] ↦
        if s.trust_forwarded_headers
        then first_forwarded meta
            (cf_connecting_ip ∷ x_forwarded_for ∷ x_real_ip ∷ remote_addr_name ∷ [])
        else or_unknown (header meta remote_addr_name)
  ]
