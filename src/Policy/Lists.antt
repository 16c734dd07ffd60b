-- ===== src/Policy/Lists.antt =====
-- django_smart_ratelimit/policy/lists.py: `IPList`, and the lists that are read from a file or a
-- URL. The parsers of the `ipaddress` module are parameters; what is asked of an address or of a
-- network is defined here. Times are in seconds.
use django_smart_ratelimit.Prelude.{
  ℕ, ◌+◌, ◌*◌, ◌/◌, ◌%◌, ◌^◌, ◌-◌, Bool, true, false, not, ◌&&◌, ◌||◌, Option, none, some, List, [],
  ◌∷◌, ◌++◌, Text, codes, length, filter, map, ltb, leb, nat_beq, if◌then◌else◌,
}
use django_smart_ratelimit.Prelude.Strings.{strip, split_by, has_char, is_empty, starts_with}

-- `IPv4Address` and `IPv6Address`
pub data Address : Type 0 where
  v4 : ℕ → Address
  v6 : ℕ → Address

-- `IPv4Network` and `IPv6Network`: the address and the length of the prefix.
pub data Network : Type 0 where
  net4 : ℕ → ℕ → Network
  net6 : ℕ → ℕ → Network

-- `ipv4_mapped`, of ::ffff:0:0/96
unfoldable pub ipv4_mapped : Address → Option Address
ipv4_mapped (v4 n) = none
ipv4_mapped (v6 n) = if nat_beq (n / 2 ^ 32) 0xffff then some (v4 (n % 2 ^ 32)) else none

-- `candidate.version == network.version and candidate in network`
unfoldable pub in_network : Address → Network → Bool
in_network (v4 n) (net4 base len) = nat_beq (n / 2 ^ (32 - len)) (base / 2 ^ (32 - len))
in_network (v6 n) (net6 base len) = nat_beq (n / 2 ^ (128 - len)) (base / 2 ^ (128 - len))
in_network (v4 n) (net6 base len) = false
in_network (v6 n) (net4 base len) = false

unfoldable pub in_any : Address → List Network → Bool
unfolding in_network
in_any a [] = false
in_any a (n ∷ ns) = in_network a n || in_any a ns

-- What is outside: the clock, the files and the feeds, where `none` is an exception. `decode` is
-- that of UTF-8.
pub record World : Type 0 where
  pub now : ℕ
  pub file : Text → Option Text
  pub exists : Text → Bool
  pub feed : Text → Option (List ℕ)
  pub decode : List ℕ → Option Text

-- Where a list is read from.
pub data Origin : Type 0 where
  file_path : Text → Origin
  feed_url : Text → Origin

-- Where a list comes from, when it was read, and whether it ever was.
pub record Backing : Type 0 where
  pub origin : Origin
  pub refresh_interval : ℕ
  pub last_refresh : ℕ
  pub ever_loaded : Bool

-- A list in memory has no backing.
pub record IpList : Type 0 where
  pub networks : List Network
  pub load_failed : Bool
  pub backing : Option Backing

-- The lines of a source: stripped, with no blank ones and no comments.
unfoldable pub is_entry : Text → Bool
is_entry line = not (is_empty line || starts_with line (codes "#"))

unfoldable pub is_line_break : ℕ → Bool
is_line_break c =
    (leb 10 c && leb c 13)
    || (leb 28 c && leb c 30)
    || nat_beq c 133
    || nat_beq c 8232
    || nat_beq c 8233

unfoldable pub source_lines : (ℕ → Bool) → Text → List Text
unfolding split_by strip is_entry
source_lines breaks content = filter is_entry (map strip (split_by breaks content))

-- A file is iterated by `\n` and `\r`; `none` is a missing or unreadable file.
unfoldable pub read_file : Option Text → Option (List Text)
unfolding source_lines
read_file none = none
read_file (some content) = some (source_lines (λ c. nat_beq c 10 || nat_beq c 13) content)

abbrev pub max_url_response_bytes : ℕ
max_url_response_bytes = 5 * 1024 * 1024

-- `decode` is that of UTF-8.
unfoldable pub fetch_url : (List ℕ → Option Text) → Option (List ℕ) → Option (List Text)
unfolding source_lines is_line_break
fetch_url decode none = none
fetch_url decode (some raw) =
    if ltb max_url_response_bytes (length raw) then none else elim (decode raw) [
      | none ↦ none
      | some content ↦ some (source_lines is_line_break content)
    ]

-- `_read_file` or `_fetch_url`
unfoldable pub read_source : World → Origin → Option (List Text)
unfolding read_file fetch_url
read_source w (file_path path) = read_file (w.file path)
read_source w (feed_url url) = fetch_url w.decode (w.feed url)

-- `IPList.contains`; an invalid address is in no list.
unfoldable pub contains_ip : (Text → Option Address) → List Network → Text → Bool
unfolding in_any ipv4_mapped
contains_ip ip_address ns ip = elim (ip_address ip) [
  | none ↦ false
  | some a ↦ in_any a ns || (elim (ipv4_mapped a) [ none ↦ false | some m ↦ in_any m ns ])
]

module _ (ip_address : Text → Option Address) (ip_network : Text → Option Network) where
  -- A single address gets the full prefix; `none` is the ValueError.
  unfoldable pub parse_entry : Text → Option Network
  parse_entry cidr = if has_char b'/' cidr then ip_network cidr else elim (ip_address cidr) [
    | none ↦ none
    | some (v4 _) ↦ ip_network (cidr ++ codes "/32")
    | some (v6 _) ↦ ip_network (cidr ++ codes "/128")
  ]

  -- The first entry that is invalid raises.
  unfoldable pub parse_entries : List Text → Option (List Network)
  unfolding parse_entry
  parse_entries [] = some []
  parse_entries (cidr ∷ cidrs) =
      let rest = parse_entries cidrs in
      elim (parse_entry cidr) [
        | none ↦ none
        | some n ↦ elim rest [ none ↦ none | some ns ↦ some (n ∷ ns) ]
      ]

  unfoldable pub new_ip_list : List Text → Option IpList
  new_ip_list cidrs = elim (parse_entries cidrs) [
    | none ↦ none
    | some ns ↦ some (record { networks = ns; load_failed = false; backing = none })
  ]

  -- What `force_refresh` makes of the lines: all are parsed before any is taken.
  unfoldable pub load : Backing → IpList → ℕ → Option (List Text) → IpList
  load b l now none = l
  load b l now (some cidrs) = elim (parse_entries cidrs) [
    | none ↦ l
    | some ns ↦ record {
      networks = ns;
      load_failed = false;
      backing = some (record b { last_refresh = now; ever_loaded = true });
    }
  ]

  unfoldable pub force_refresh : Backing → IpList → World → IpList
  unfolding load
  force_refresh b l w = load b l w.now (read_source w b.origin)

  unfoldable pub new_backed_list : Origin → ℕ → World → IpList
  unfolding force_refresh
  new_backed_list origin refresh_interval w =
      let b : Backing = record {
        origin = origin;
        refresh_interval = refresh_interval;
        last_refresh = 0;
        ever_loaded = false;
      } in
      let l = force_refresh b (record { networks = []; load_failed = false; backing = some b }) w in
      elim l.backing [
        | none ↦ l
        | some b' ↦ if b'.ever_loaded then l else record l { load_failed = true }
      ]

  -- `_check_refresh`, which does nothing for a list in memory.
  unfoldable pub check_refresh : IpList → World → IpList
  unfolding force_refresh
  check_refresh l w = elim l.backing [
    | none ↦ l
    | some b ↦ if ltb (b.last_refresh + b.refresh_interval) w.now then force_refresh b l w else l
  ]

  unfoldable pub contains : IpList → World → Text → Bool × IpList
  unfolding check_refresh contains_ip
  contains l w ip = let l' = check_refresh l w in (contains_ip ip_address l'.networks ip, l')
