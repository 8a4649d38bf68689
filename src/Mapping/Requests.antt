-- ===== src/Mapping/Requests.antt =====
-- What `mapping_install_route` and `mapping_uninstall_route` ask of the system, as two lists.
use map.Common.{
  ℕ, ◌+◌, ◌≡◌, inl, inr, refl, Bool, true, false, some, List, [], ◌∷◌, ◌++◌, arith, length,
  replicate,
}
use map.Mapping.Invariant.{All}
use map.Mapping.Routes.{
  install_hosts, install_hosts66, install_route, uninstall_hosts, uninstall_route,
}
use map.Mapping.{Mapping, Mapping66, Tables}
use map.Memory.{Bytes, Endian}
use map.Tunif.Layout.{
  route_message, rule_message, unrule_message, route_sent, rule_sent, len_of, tun_op_route_lem,
  tun_op_rule_lem, tun_delete_rule_lem,
}
use map.Tunif.Netlink.{
  Link, Netlink, tun_add_route, tun_delete_route, tun_create_policy_table, tun_add_policy,
  tun_delete_policy,
}

-- A route that is made or deleted, a rule for a source, and the deletion of a rule.
pub data Request : Type 0 where
  route : (new : Bool) (af : ℕ) (addr : Bytes) (prefix_len table : ℕ) → Request
  rule : (addr : Bytes) → Request
  unrule : Request

abbrev pub carry_out : Endian → Link → Request → Netlink → Netlink
carry_out e link (route new af addr prefix_len table) n =
    route_sent (route_message e link new af (len_of af) addr prefix_len table (n.route_seq + 1)) n
carry_out e link (rule addr) n = rule_sent (rule_message e 16 addr 128 1 (n.rule_seq + 1)) n
carry_out e link unrule n = rule_sent (unrule_message e 1 (n.rule_seq + 1)) n

abbrev pub carry_all : Endian → Link → List Request → Netlink → Netlink
carry_all e link [] n = n
carry_all e link (r ∷ rs) n = carry_all e link rs (carry_out e link r n)

-- A route to the host of a mapping.
abbrev pub host : Bool → Mapping → Request
host new m = route new 2 m.addr4 32 254

abbrev pub hosts : Bool → List Mapping → List Request
hosts new [] = []
hosts new (m ∷ ms) = host new m ∷ hosts new ms

abbrev pub hosts66 : List Mapping66 → List Request
hosts66 [] = []
hosts66 (m ∷ ms) = route true 10 m.global 128 254 ∷ rule m.intra ∷ hosts66 ms

-- The routes to the mapped hosts and the prefix, the default route of the second table, and for each
-- pair of IPv6 addresses a route to the global one and a rule for the internal one.
abbrev pub wanted : Tables → List Request
wanted t =
    hosts true t.mappings
    ++ (route true 10 t.prefix 64 254 ∷ route true 10 (replicate 16 0) 0 1 ∷ hosts66 t.mappings66)

-- The routes to the mapped hosts and the prefix, and one rule: those to the global addresses, and
-- the default route, are not among them.
abbrev pub withdrawn : Tables → List Request
withdrawn t = hosts false t.mappings ++ (route false 10 t.prefix 64 254 ∷ unrule ∷ [])

-- The addresses of a mapping have the right lengths.
abbrev pub HasLengths : Tables → Type 0
HasLengths t =
    All (λ (m : Mapping). length m.addr4 ≡ 4) t.mappings
    × (length t.prefix ≡ 16)
    × All (λ (m : Mapping66). (length m.global ≡ 16) × (length m.intra ≡ 16)) t.mappings66

module _ (e : Endian) (link : Link) (works : (i : ℕ) → link.works i ≡ true) where
  carry_all-append :
      (rs qs : List Request) (n : Netlink)
      → carry_all e link (rs ++ qs) n ≡ carry_all e link qs (carry_all e link rs n)
  carry_all-append [] qs n = refl
  carry_all-append (r ∷ rs) qs n = carry_all-append rs qs (carry_out e link r n)

  install_hosts_lem :
      (ms : List Mapping) (n : Netlink)
      → All (λ (m : Mapping). length m.addr4 ≡ 4) ms
      → install_hosts e link ms n ≡ some (carry_all e link (hosts true ms) n)
  unfolding install_hosts tun_add_route
  install_hosts_lem [] n h = refl
  install_hosts_lem (m ∷ ms) n h =
      rw
        (
          tun_op_route_lem e link n (works _) true 2 m.addr4 32 254 (inl refl) h.0 (omega arith)
              (omega arith),
          install_hosts,
        )
        (install_hosts_lem ms (carry_out e link (host true m) n) h.1)

  uninstall_hosts_lem :
      (ms : List Mapping) (n : Netlink)
      → All (λ (m : Mapping). length m.addr4 ≡ 4) ms
      → uninstall_hosts e link ms n ≡ some (carry_all e link (hosts false ms) n)
  unfolding uninstall_hosts tun_delete_route
  uninstall_hosts_lem [] n h = refl
  uninstall_hosts_lem (m ∷ ms) n h =
      rw
        (
          tun_op_route_lem e link n (works _) false 2 m.addr4 32 254 (inl refl) h.0 (omega arith)
              (omega arith),
          uninstall_hosts,
        )
        (uninstall_hosts_lem ms (carry_out e link (host false m) n) h.1)

  install_hosts66_lem :
      (ms : List Mapping66) (n : Netlink)
      → All (λ (m : Mapping66). (length m.global ≡ 16) × (length m.intra ≡ 16)) ms
      → install_hosts66 e link ms n ≡ some (carry_all e link (hosts66 ms) n)
  unfolding install_hosts66 tun_add_route tun_add_policy
  install_hosts66_lem [] n h = refl
  install_hosts66_lem (m ∷ ms) n h =
      let n' = carry_out e link (route true 10 m.global 128 254) n in
      rw
        (
          tun_op_route_lem e link n (works _) true 10 m.global 128 254 (inr refl) h.0.0
              (omega arith) (omega arith),
          install_hosts66,
        )
        (rw
          (
            tun_op_rule_lem e link n' (works _) m.intra 128 1 h.0.1 (omega arith) (omega arith),
            install_hosts66,
          )
          (install_hosts66_lem ms (carry_out e link (rule m.intra) n') h.1))

  -- If the netlink sockets work and the addresses in the tables have the lengths of their kinds,
  -- mapping_install_route returns 0 and has written, behind what was written before, one message for
  -- each wanted route and rule in order, laid out and numbered as rtnetlink asks for.
  pub install_route-wanted :
      (t : Tables) (n : Netlink)
      → HasLengths t
      → install_route e link t n ≡ some (true, carry_all e link (wanted t) n)
  unfolding install_route tun_add_route tun_create_policy_table
  install_route-wanted t n (four, prefix, sixteen) =
      let n1 = carry_all e link (hosts true t.mappings) n in
      let n2 = carry_out e link (route true 10 t.prefix 64 254) n1 in
      let n3 = carry_out e link (route true 10 (replicate 16 0) 0 1) n2 in
      rw (install_hosts_lem t.mappings n four, install_route)
        (rw
          (
            tun_op_route_lem e link n1 (works _) true 10 t.prefix 64 254 (inr refl) prefix
                (omega arith) (omega arith),
            install_route,
          )
          (rw
            (
              tun_op_route_lem e link n2 (works _) true 10 (replicate 16 0) 0 1 (inr refl) refl
                  (omega arith) (omega arith),
              install_route,
            )
            (rw (install_hosts66_lem t.mappings66 n3 sixteen, carry_all-append) refl)))

  -- Under the same conditions mapping_uninstall_route returns 0 and has written the deletions of
  -- the routes to the mapped hosts and the prefix and of one rule: the routes to the global
  -- addresses and the default route of the second table that mapping_install_route makes stay.
  pub uninstall_route-withdrawn :
      (t : Tables) (n : Netlink)
      → HasLengths t
      → uninstall_route e link t n ≡ some (true, carry_all e link (withdrawn t) n)
  unfolding uninstall_route tun_delete_route tun_delete_policy
  uninstall_route-withdrawn t n (four, prefix, sixteen) =
      let n1 = carry_all e link (hosts false t.mappings) n in
      let n2 = carry_out e link (route false 10 t.prefix 64 254) n1 in
      rw (uninstall_hosts_lem t.mappings n four, uninstall_route)
        (rw
          (
            tun_op_route_lem e link n1 (works _) false 10 t.prefix 64 254 (inr refl) prefix
                (omega arith) (omega arith),
            uninstall_route,
          )
          (rw
            (
              tun_delete_rule_lem e link n2 (works _) 1 (omega arith),
              uninstall_route,
              carry_all-append,
            )
            refl))
