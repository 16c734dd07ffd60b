-- ===== src/Policy/Refresh.antt =====
-- The lists that are read from a source (django_smart_ratelimit/policy/lists.py), along the
-- requests that look into them.
use django_smart_ratelimit.Prelude.{
  ℕ, ◌+◌, ◌≡◌, refl, inl, inr, Bool, true, false, Option, none, some, List, [], ◌∷◌, map, arith,
  Text, ltb, Option-cases, Bool-cases, if◌then◌else◌,
}
use django_smart_ratelimit.Policy.Lists.{
  Address, Network, World, Origin, Backing, IpList, read_source, parse_entries, load, force_refresh,
  new_backed_list, check_refresh, contains, contains_ip, in_any,
}
use django_smart_ratelimit.Policy.Check.{Reason, deny_list, check_lists, unavailable}

-- A list whose source never loaded is empty; one whose source did is not marked as failed.
pub record IsConsistent (l : IpList) : Type 0 where
  pub failed_empty : l.load_failed ≡ true → l.networks ≡ []
  pub loaded_sound :
      (b : Backing) → l.backing ≡ some b → b.ever_loaded ≡ true → l.load_failed ≡ false
  pub memory_sound : l.backing ≡ none → l.load_failed ≡ false

no_networks :
    (ip_address : Text → Option Address) (ip : Text) → contains_ip ip_address [] ip ≡ false
unfolding contains_ip in_any
no_networks ip_address ip = ground arith

module _ (ip_address : Text → Option Address) (ip_network : Text → Option Network) where
  load-IsConsistent :
      (b : Backing) (l : IpList) (now : ℕ) (source : Option (List Text))
      → IsConsistent l
      → IsConsistent (load ip_address ip_network b l now source)
  unfolding load
  load-IsConsistent b l now none h = h
  load-IsConsistent b l now (some cidrs) h =
      let after = load ip_address ip_network b l now (some cidrs) in
      elim (Option-cases (parse_entries ip_address ip_network cidrs)) [
        | inl e ↦ let same : after ≡ l = ground arith in rw same h
        | inr (ns, e) ↦ record {
          failed_empty = λ failed. ground arith;
          loaded_sound = λ b' at ever. ground arith;
          memory_sound = λ at. ground arith;
        }
      ]

  -- Reading a source that raises, or that has an invalid entry, changes nothing.
  pub load-kept :
      (b : Backing) (l : IpList) (now : ℕ) (source : Option (List Text))
      → ((cidrs : List Text)
          → source ≡ some cidrs
          → parse_entries ip_address ip_network cidrs ≡ none)
      → load ip_address ip_network b l now source ≡ l
  unfolding load
  load-kept b l now none bad = refl
  load-kept b l now (some cidrs) bad = ground (arith, bad cidrs refl)

  pub contains-IsConsistent :
      (l : IpList) (w : World) (ip : Text)
      → IsConsistent l
      → IsConsistent (contains ip_address ip_network l w ip).1
  unfolding contains check_refresh force_refresh
  contains-IsConsistent l w ip h =
      let after = (contains ip_address ip_network l w ip).1 in
      elim (Option-cases l.backing) [
        | inl e ↦ let same : after ≡ l = ground arith in rw same h
        | inr (b, e) ↦ elim (Bool-cases (ltb (b.last_refresh + b.refresh_interval) w.now)) [
          | inr early ↦ let same : after ≡ l = ground arith in rw same h
          | inl due ↦
              let source = read_source w b.origin in
              let same : after ≡ load ip_address ip_network b l w.now source = ground arith in
              rw same (load-IsConsistent b l w.now source h)
        ]
      ]

  pub new_backed_list-IsConsistent :
      (origin : Origin) (interval : ℕ) (w : World)
      → IsConsistent (new_backed_list ip_address ip_network origin interval w)
  unfolding new_backed_list force_refresh load
  new_backed_list-IsConsistent origin interval w =
      let source = read_source w origin in
      elim (Option-cases source) [
        | inl e ↦ record {
          failed_empty = λ failed. ground arith;
          loaded_sound = λ b at ever. ground arith;
          memory_sound = λ at. ground arith;
        }
        | inr (cidrs, e) ↦ elim (Option-cases (parse_entries ip_address ip_network cidrs)) [
          | inl e' ↦ record {
            failed_empty = λ failed. ground arith;
            loaded_sound = λ b at ever. ground arith;
            memory_sound = λ at. ground arith;
          }
          | inr (ns, e') ↦ record {
            failed_empty = λ failed. ground arith;
            loaded_sound = λ b at ever. ground arith;
            memory_sound = λ at. ground arith;
          }
        ]
      ]

  -- Requests one after the other, each in its world and from its client, with the lists as the
  -- ones before have left them.
  unfoldable pub answer_all :
      Bool → List (World × Text) → Option IpList → Option IpList → List (Bool × Reason)
  answer_all fail_closed [] allow deny = []
  answer_all fail_closed ((w, ip) ∷ requests) allow deny =
      let (answer, allow', deny') = check_lists ip_address ip_network fail_closed w ip allow deny in
      answer ∷ answer_all fail_closed requests allow' deny'

  denied_while_failed :
      (requests : List (World × Text)) (allow : Option IpList) (l : IpList)
      → l.load_failed ≡ true
      → answer_all true requests allow (some l) ≡ map (λ r. (false, deny_list)) requests
  unfolding answer_all check_lists unavailable
  denied_while_failed [] allow l failed = refl
  denied_while_failed ((w, ip) ∷ requests) allow l failed =
      ground (arith, failed, denied_while_failed requests allow l failed)

  -- When failing closed is on, a deny list whose source could not be read when it was made denies
  -- every later request, whatever its source holds by then: the check never reads it again.
  pub fail_closed_forever :
      (origin : Origin) (interval : ℕ) (w : World) (requests : List (World × Text))
      (allow : Option IpList)
      → read_source w origin ≡ none
      → answer_all true requests allow
          (some (new_backed_list ip_address ip_network origin interval w))
        ≡ map (λ r. (false, deny_list)) requests
  unfolding new_backed_list force_refresh load
  fail_closed_forever origin interval w requests allow unread =
      denied_while_failed requests allow (new_backed_list ip_address ip_network origin interval w)
        (ground (arith, unread))

  -- With failing closed off, a list whose source has not been read yet, nor can be now, denies
  -- nobody; a list that has been read keeps its last entries.
  pub unreadable_source :
      (l : IpList) (b : Backing) (w : World) (ip : Text)
      → IsConsistent l
      → l.backing ≡ some b
      → read_source w b.origin ≡ none
      → ((contains ip_address ip_network l w ip).1 ≡ l)
        × ((contains ip_address ip_network l w ip).0
            ≡ (if l.load_failed then false else contains_ip ip_address l.networks ip))
  unfolding contains check_refresh force_refresh load
  unreadable_source l b w ip h at unread = (
    ground (arith, at, unread),
    ground (arith, at, unread, h.failed_empty, no_networks ip_address ip),
  )
