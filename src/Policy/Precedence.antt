-- ===== src/Policy/Precedence.antt =====
-- `apply_policy_lists` (django_smart_ratelimit/pipeline.py) on lists in memory: deny goes before
-- allow.
use django_smart_ratelimit.Prelude.{◌≡◌, ◌↔◌, Bool, true, false, Option, some, List, arith, Text}
use django_smart_ratelimit.Policy.Lists.{
  Address, Network, World, parse_entries, new_ip_list, check_refresh, contains, contains_ip,
}
use django_smart_ratelimit.Policy.Check.{
  cidr_list, policy_allow, policy_deny, parse_ip_list, from_cidrs, parsed_or_skipped, look_up,
  unavailable, check_lists, to_policy, apply_policy_lists,
}

-- With lists of CIDRs that parse, a request is denied exactly when its client is in the deny list,
-- and skips the limit exactly when it is in the allow list and not in the deny list.
pub policy_decides :
    (ip_address : Text → Option Address) (ip_network : Text → Option Network) (fail_closed : Bool)
    (w : World) (ip : Text) (allow deny : List Text) (as' ds : List Network)
    → parse_entries ip_address ip_network allow ≡ some as'
    → parse_entries ip_address ip_network deny ≡ some ds
    → let result =
        apply_policy_lists ip_address ip_network fail_closed w ip
          (cidr_list allow)
          (cidr_list deny) in
      ((result ≡ policy_deny) ↔ (contains_ip ip_address ds ip ≡ true))
      × ((result ≡ policy_allow)
          ↔ ((contains_ip ip_address ds ip ≡ false) × (contains_ip ip_address as' ip ≡ true)))
unfolding apply_policy_lists parsed_or_skipped parse_ip_list from_cidrs new_ip_list check_lists
    unavailable look_up contains check_refresh to_policy
policy_decides ip_address ip_network fail_closed w ip allow deny as' ds allow_parses deny_parses =
    (ground (arith, allow_parses, deny_parses), ground (arith, allow_parses, deny_parses))
