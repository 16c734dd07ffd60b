-- ===== src/Policy/Tests.antt =====
-- The theorems on django_smart_ratelimit/policy at concrete inputs. The parser of these examples
-- reads an address as the number of its characters, and one that starts with a colon as that
-- number mapped into IPv6.
use django_smart_ratelimit.Prelude.{
  ℕ, ◌+◌, ◌*◌, ◌-◌, ◌^◌, ◌≡◌, ◌≢◌, ◌↔◌, refl, true, false, Option, none, some, List, [], ◌∷◌, ◌++◌,
  map, arith, Text, text_key, codes, length, length-append, if◌then◌else◌,
}
use django_smart_ratelimit.Prelude.Strings.{
  has_char, starts_with, strip, lstrip, rstrip, split_by, is_space,
}
use django_smart_ratelimit.Prelude.Dict
use django_smart_ratelimit.Policy.Lists.{
  Address, v4, v6, Network, net4, World, Origin, file_path, Backing, IpList, read_source, read_file,
  parse_entry, parse_entries, new_backed_list, force_refresh, load, contains_ip, in_any, in_network,
  ipv4_mapped,
}
use django_smart_ratelimit.Policy.Client.{
  Meta, header, x_forwarded_for, remote_addr_name, forwarded_parts, ProxySettings, get_client_ip,
}
use django_smart_ratelimit.Policy.Check.{
  deny_list, cidr_list, policy_allow, policy_deny, apply_policy_lists,
}
use django_smart_ratelimit.Policy.Membership.{mapped_found}
use django_smart_ratelimit.Policy.Refresh.{answer_all, fail_closed_forever}
use django_smart_ratelimit.Policy.Spoofing.{spoofed_hops_ignored}
use django_smart_ratelimit.Policy.Precedence.{policy_decides}

abbrev address : Text → Option Address
address t =
    if has_char b'/' t
    then none
    else if starts_with t (codes ":")
    then some (v6 (0xffff * 2 ^ 32 + (length t - 1)))
    else some (v4 (length t))

abbrev network : Text → Option Network
network t = if has_char b'/' t then some (net4 (length t - 3) 32) else none

slash-append : (t : Text) → has_char b'/' (t ++ codes "/32") ≡ true
unfolding has_char
slash-append [] = refl
slash-append (c ∷ t) = ground (arith, slash-append t)

full_prefix :
    (t : Text) (m : ℕ)
    → address t ≡ some (v4 m)
    → (has_char b'/' t ≡ false) × (network (t ++ codes "/32") ≡ some (net4 m 32))
full_prefix t m at = (ground arith, ground (arith, slash-append t, length-append t (codes "/32")))

mapped_found_example : contains_ip address (net4 3 32 ∷ []) (codes ":abc") ≡ true
mapped_found_example =
    mapped_found address (net4 3 32 ∷ []) (codes "abc") (codes ":abc") 3 (omega arith)
      (unfold has_char starts_with in refl) (unfold has_char starts_with in refl)
      (unfold contains_ip in_any in_network has_char starts_with in refl)

-- A deny list in a file that is not there at first, and then is.
abbrev missing : World
missing = record {
  now = 1000;
  file = λ path. none;
  exists = λ path. false;
  feed = λ url. none;
  decode = λ raw. some raw;
}

abbrev present : World
present = record missing { now = 9000; file = λ path. some (codes "abc") }

abbrev deny_file : Origin
deny_file = file_path (codes "deny.txt")

unread : read_source missing deny_file ≡ none
unfolding read_source read_file
unread = refl

abbrev later : List (World × Text)
later = (present, codes "zzzz") ∷ (present, codes "y") ∷ []

fail_closed_forever_example :
    answer_all address network true later none
      (some (new_backed_list address network deny_file 300 missing))
    ≡ map (λ r. (false, deny_list)) later
fail_closed_forever_example =
    fail_closed_forever address network deny_file 300 missing later none unread

abbrev denied : IpList
denied = new_backed_list address network deny_file 300 missing

abbrev never_read : Backing
never_read = record {
  origin = deny_file;
  refresh_interval = 300;
  last_refresh = 0;
  ever_loaded = false;
}

denied_backing : denied.backing ≡ some never_read
unfolding new_backed_list force_refresh load read_source read_file
denied_backing = refl

-- One trusted proxy, of ten characters.
abbrev behind_proxy : ProxySettings
behind_proxy = record { trusted_proxies = codes "0123456789" ∷ []; trust_forwarded_headers = true }

abbrev spoofed : Meta
spoofed =
    (remote_addr_name, codes "0123456789") ∷ (x_forwarded_for, codes "fake, real , 9876543210") ∷ []

abbrev direct : Meta
direct = (remote_addr_name, codes "peer") ∷ (x_forwarded_for, codes "fake") ∷ []

configured : behind_proxy.trusted_proxies ≢ []
configured e = ground arith

proxies_parse : parse_entries address network behind_proxy.trusted_proxies ≡ some (net4 10 32 ∷ [])
unfolding parse_entries parse_entry has_char starts_with
proxies_parse = refl

spoofed_hops_ignored_example : get_client_ip address network behind_proxy spoofed ≡ codes "real"
spoofed_hops_ignored_example =
    spoofed_hops_ignored address network behind_proxy spoofed (net4 10 32 ∷ []) (codes "fake" ∷ [])
      (codes "9876543210" ∷ []) (codes "real") configured proxies_parse
      (unfold header strip lstrip rstrip is_space Dict.get in refl)
      (unfold contains_ip in_any in_network header strip lstrip rstrip is_space has_char starts_with
          Dict.get in
        refl)
      (unfold forwarded_parts split_by header strip lstrip rstrip is_space Dict.get in refl)
      (unfold contains_ip in_any in_network has_char starts_with ipv4_mapped in refl)
      (unfold contains_ip in_any in_network has_char starts_with in refl)

direct_outside :
    (ns : List Network)
    → parse_entries address network behind_proxy.trusted_proxies ≡ some ns
    → contains_ip address ns (header direct remote_addr_name) ≡ false
unfolding contains_ip in_any in_network ipv4_mapped header strip lstrip rstrip is_space has_char
    starts_with Dict.get
direct_outside ns parses = ground (arith, proxies_parse, parses)

deny_parses : parse_entries address network (codes "abc" ∷ []) ≡ some (net4 3 32 ∷ [])
unfolding parse_entries parse_entry has_char starts_with
deny_parses = refl

policy_decides_example :
    let result =
      apply_policy_lists address network false missing
        (codes "abc")
        (cidr_list [])
        (cidr_list (codes "abc" ∷ [])) in
    ((result ≡ policy_deny) ↔ (contains_ip address (net4 3 32 ∷ []) (codes "abc") ≡ true))
    × ((result ≡ policy_allow) ↔ (
        (contains_ip address (net4 3 32 ∷ []) (codes "abc") ≡ false)
        × (contains_ip address [] (codes "abc") ≡ true)))
policy_decides_example =
    policy_decides address network false missing (codes "abc") [] (codes "abc" ∷ []) []
      (net4 3 32 ∷ []) (unfold parse_entries in refl) deny_parses
