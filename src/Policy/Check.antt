-- ===== src/Policy/Check.antt =====
-- django_smart_ratelimit/policy/lists.py: `parse_ip_list` and `check_lists`, and
-- `apply_policy_lists` of django_smart_ratelimit/pipeline.py.
use django_smart_ratelimit.Prelude.{
  ℕ, Bool, true, false, ◌&&◌, ◌||◌, Option, none, some, List, [], ◌∷◌, Text, codes, drop,
  if◌then◌else◌,
}
use django_smart_ratelimit.Prelude.Strings.{starts_with}
use django_smart_ratelimit.Policy.Lists.{
  Address, Network, World, file_path, feed_url, IpList, new_ip_list, new_backed_list, contains,
}

-- What `parse_ip_list` takes.
pub data Source : Type 0 where
  no_source : Source
  ready : IpList → Source
  cidr_list : List Text → Source
  text : Text → Source
  other : Source

pub data Parsed : Type 0 where
  parsed : Option IpList → Parsed
  value_error : Parsed

-- `check_lists` says whether to skip the limit, and why.
pub data Reason : Type 0 where
  deny_list allow_list no_reason : Reason

pub data PolicyResult : Type 0 where
  policy_allow policy_deny policy_continue : PolicyResult

abbrev pub file_refresh_interval : ℕ
file_refresh_interval = 300

abbrev pub url_refresh_interval : ℕ
url_refresh_interval = 3600

unfoldable pub to_policy : Bool × Reason → PolicyResult
to_policy (_, deny_list) = policy_deny
to_policy (true, allow_list) = policy_allow
to_policy (false, allow_list) = policy_continue
to_policy (_, no_reason) = policy_continue

module _ (ip_address : Text → Option Address) (ip_network : Text → Option Network) where
  unfoldable pub from_file : World → Text → IpList
  from_file w path = new_backed_list ip_address ip_network (file_path path) file_refresh_interval w

  -- `URLBackedIPList(url)`, for a URL that starts as it must.
  unfoldable pub from_url : World → Text → IpList
  from_url w url = new_backed_list ip_address ip_network (feed_url url) url_refresh_interval w

  unfoldable pub from_cidrs : List Text → Parsed
  from_cidrs cidrs = elim (new_ip_list ip_address ip_network cidrs) [
    | none ↦ value_error
    | some l ↦ parsed (some l)
  ]

  unfoldable pub parse_ip_list : World → Source → Parsed
  unfolding from_file from_url from_cidrs starts_with
  parse_ip_list w no_source = parsed none
  parse_ip_list w (ready l) = parsed (some l)
  parse_ip_list w (cidr_list cidrs) = from_cidrs cidrs
  parse_ip_list w other = parsed none
  parse_ip_list w (text source) =
      if starts_with source (codes "file://")
      then parsed (some (from_file w (drop 7 source)))
      else if w.exists source
      then parsed (some (from_file w source))
      else if starts_with source (codes "http://") || starts_with source (codes "https://")
      then parsed (some (from_url w source))
      else from_cidrs (source ∷ [])

  -- A lookup in a list, which may be read again; there may be no list.
  unfoldable pub look_up : World → Text → Option IpList → Bool × Option IpList
  look_up w ip none = (false, none)
  look_up w ip (some l) =
      let (inside, l') = contains ip_address ip_network l w ip in (inside, some l')

  unfoldable pub unavailable : Option IpList → Bool
  unavailable none = false
  unavailable (some l) = l.load_failed

  -- `check_lists` for the client's address, and the lists as it leaves them. `fail_closed` is the
  -- setting `RATELIMIT_POLICY_FAIL_CLOSED`.
  unfoldable pub check_lists :
      Bool
      → World
      → Text
      → Option IpList
      → Option IpList
      → (Bool × Reason) × Option IpList × Option IpList
  unfolding look_up unavailable
  check_lists fail_closed w ip allow deny =
      if unavailable deny && fail_closed
      then ((false, deny_list), allow, deny)
      else (let (denied, deny') = look_up w ip deny in
          let (allowed, allow') = look_up w ip allow in
          if denied
          then ((false, deny_list), allow, deny')
          else if allowed
          then ((true, allow_list), allow', deny')
          else ((false, no_reason), allow', deny'))

  -- A source that does not parse is skipped, with a warning.
  unfoldable pub parsed_or_skipped : World → Source → Option IpList
  unfolding parse_ip_list
  parsed_or_skipped w s = elim (parse_ip_list w s) [ parsed l ↦ l | value_error ↦ none ]

  -- `apply_policy_lists`, where the client's address has been extracted.
  unfoldable pub apply_policy_lists : Bool → World → Text → Source → Source → PolicyResult
  unfolding check_lists parsed_or_skipped to_policy
  apply_policy_lists fail_closed w ip no_source no_source = policy_continue
  apply_policy_lists fail_closed w ip allow deny =
      to_policy
        (check_lists fail_closed w ip (parsed_or_skipped w allow) (parsed_or_skipped w deny)).0
