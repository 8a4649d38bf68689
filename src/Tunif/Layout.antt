-- ===== src/Tunif/Layout.antt =====
-- The netlink messages byte by byte, as rtnetlink(7) lays them out.
use map.Common.{
  ℕ, zero, suc, ◌+◌, ◌%◌, ◌<◌, ◌≡◌, ◌⊎◌, inl, inr, refl, ap, Bool, true, false, none, some, [], ◌∷◌,
  ◌++◌, arith, length, ◌==◌, if◌then◌else◌, get_or,
}
use map.Memory.{Bytes, Endian}
use map.Tunif.Netlink.{
  Netlink, Link, host16, host32, put_attribute, bytelen, send_message, route_rtmsg, rule_rtmsg,
  rule_body, tun_op_route, tun_op_rule, send_rule, rtm_newroute, rtm_delroute, rtm_newrule,
  rtm_delrule,
}
use map.Tunif.{af_inet, af_inet6}

-- An `nlmsghdr` with no port.
abbrev nlmsghdr : Endian → ℕ → ℕ → ℕ → ℕ → Bytes → Bytes
nlmsghdr e len type flags seq rest =
    host32 e len ++ (host16 e type ++ (host16 e flags ++ (host32 e seq ++ (host32 e 0 ++ rest))))

-- An attribute whose value needs no padding, before others.
abbrev rtattr : Endian → ℕ → ℕ → Bytes → Bytes → Bytes
rtattr e len type value rest = host16 e len ++ (host16 e type ++ (value ++ rest))

-- A new or a deleted route for a prefix through the tun device, in a table.
abbrev pub route_message : Endian → Link → Bool → ℕ → ℕ → Bytes → ℕ → ℕ → ℕ → Bytes
route_message e link new af len addr prefix_len table seq =
    nlmsghdr e (40 + len) (if new then 24 else 25) (if new then 0x601 else 1) seq (
      af
      ∷ prefix_len
      ∷ 0
      ∷ 0
      ∷ table
      ∷ (if new then 3 else 0)
      ∷ (if new then 0 else 255)
      ∷ (if new then 1 else 0)
      ∷ 0
      ∷ 0
      ∷ 0
      ∷ 0
      ∷ rtattr e (4 + len) 1 addr (rtattr e 8 4 (host32 e link.ifindex) []))

-- A new rule that sends what comes from a prefix to a table.
abbrev pub rule_message : Endian → ℕ → Bytes → ℕ → ℕ → ℕ → Bytes
rule_message e len addr prefix_len table seq =
    nlmsghdr e (32 + len) 32 0x601 seq
      (10 ∷ 0 ∷ prefix_len ∷ 0 ∷ table ∷ 3 ∷ 0 ∷ 1 ∷ 0 ∷ 0 ∷ 0 ∷ 0 ∷ rtattr e (4 + len) 2 addr [])

-- The deletion of a rule of a table.
abbrev pub unrule_message : Endian → ℕ → ℕ → Bytes
unrule_message e table seq =
    nlmsghdr e 28 33 1 seq (10 ∷ 0 ∷ 0 ∷ 0 ∷ table ∷ 3 ∷ 0 ∷ 0 ∷ 0 ∷ 0 ∷ 0 ∷ 0 ∷ [])

-- The list of the first `n` values of a function.
abbrev tabulate : ℕ → (ℕ → ℕ) → Bytes
tabulate zero f = []
tabulate (suc n) f = f 0 ∷ tabulate n (λ i. f (suc i))

listed : (addr : Bytes) (n : ℕ) → length addr ≡ n → tabulate n (λ i. get_or addr i 0) ≡ addr
listed [] zero h = refl
listed [] (suc n) h = absurd (omega arith)
listed (a ∷ r) zero h = absurd (omega arith)
listed (a ∷ r) (suc n) h = ap (λ t. a ∷ t) (listed r n (omega arith))

small-mod : {v : ℕ} → v < 256 → v % 256 ≡ v
small-mod h = omega arith

-- The number of bytes of an address.
abbrev pub len_of : ℕ → ℕ
len_of af = if af == af_inet then 4 else 16

-- The state after a route's message.
abbrev pub route_sent : Bytes → Netlink → Netlink
route_sent msg n = record n { route_seq = n.route_seq + 1; sent = n.sent ++ (msg ∷ []) }

abbrev pub rule_sent : Bytes → Netlink → Netlink
rule_sent msg n = record n { rule_seq = n.rule_seq + 1; sent = n.sent ++ (msg ∷ []) }

abbrev op_of : Bool → ℕ
op_of new = if new then rtm_newroute else rtm_delroute

module _ (e : Endian) (link : Link) (n : Netlink) (goes : link.works (length n.sent) ≡ true) where
  tabulated_route :
      (new : Bool) (af : ℕ) (f : ℕ → ℕ) (prefix_len table : ℕ)
      → (af ≡ af_inet) ⊎ (af ≡ af_inet6)
      → prefix_len < 256
      → table < 256
      → let addr = tabulate (len_of af) f in
        tun_op_route e link (op_of new) af addr prefix_len table n
        ≡ some (
          true,
          route_sent
              (route_message e link new af (len_of af) addr prefix_len table (n.route_seq + 1))
              n,
        )
  unfolding tun_op_route put_attribute bytelen send_message route_rtmsg
  tabulated_route true af f prefix_len table (inl h) p t =
      rw (h, small-mod p, small-mod t, goes, h) refl
  tabulated_route true af f prefix_len table (inr h) p t =
      rw (h, small-mod p, small-mod t, goes, h) refl
  tabulated_route false af f prefix_len table (inl h) p t =
      rw (h, small-mod p, small-mod t, goes, h) refl
  tabulated_route false af f prefix_len table (inr h) p t =
      rw (h, small-mod p, small-mod t, goes, h) refl

  -- A route for an address of either family whose length is right is installed or deleted by one
  -- message, which is laid out so.
  pub tun_op_route_lem :
      (new : Bool) (af : ℕ) (addr : Bytes) (prefix_len table : ℕ)
      → (af ≡ af_inet) ⊎ (af ≡ af_inet6)
      → length addr ≡ len_of af
      → prefix_len < 256
      → table < 256
      → tun_op_route e link (if new then rtm_newroute else rtm_delroute) af addr prefix_len table n
        ≡ some (
          true,
          route_sent
              (route_message e link new af (len_of af) addr prefix_len table (n.route_seq + 1))
              n,
        )
  tun_op_route_lem new af addr prefix_len table family size p t =
      rw (← listed addr (len_of af) size)
        (tabulated_route new af (λ i. get_or addr i 0) prefix_len table family p t)

  tabulated_rule :
      (f : ℕ → ℕ) (prefix_len table : ℕ)
      → prefix_len < 256
      → table < 256
      → tun_op_rule e link rtm_newrule af_inet6 (some (tabulate 16 f)) prefix_len table n
        ≡ some (
          true,
          rule_sent (rule_message e 16 (tabulate 16 f) prefix_len table (n.rule_seq + 1)) n,
        )
  unfolding tun_op_rule send_rule rule_body put_attribute bytelen send_message rule_rtmsg
  tabulated_rule f prefix_len table p t = rw (small-mod p, small-mod t, goes) refl

  pub tun_op_rule_lem :
      (addr : Bytes) (prefix_len table : ℕ)
      → length addr ≡ 16
      → prefix_len < 256
      → table < 256
      → tun_op_rule e link rtm_newrule af_inet6 (some addr) prefix_len table n
        ≡ some (true, rule_sent (rule_message e 16 addr prefix_len table (n.rule_seq + 1)) n)
  tun_op_rule_lem addr prefix_len table size p t =
      rw (← listed addr 16 size) (tabulated_rule (λ i. get_or addr i 0) prefix_len table p t)

  pub tun_delete_rule_lem :
      (table : ℕ)
      → table < 256
      → tun_op_rule e link rtm_delrule af_inet6 none 0 table n
        ≡ some (true, rule_sent (unrule_message e table (n.rule_seq + 1)) n)
  unfolding tun_op_rule send_rule rule_body bytelen send_message rule_rtmsg
  tun_delete_rule_lem table t = rw (small-mod t, goes) refl
