-- ===== src/Tunif/Netlink.antt =====
-- tunif.c on Linux: the netlink messages that install and delete routes and rules. A message is made
-- of an `nlmsghdr`, an `rtmsg` and attributes, numbers in the order of the host.
use map.Common.{
  ℕ, ◌+◌, ◌-◌, ◌*◌, ◌/◌, ◌%◌, Bool, true, false, not, ◌||◌, ◌&&◌, Option, none, some, List, [], ◌∷◌,
  ◌++◌, ◌>>=◌, length, take, replicate, ltb, ◌==◌, if◌then◌else◌,
}
use map.Memory.{Bytes, Endian, first_byte, second_byte, little, big}
use map.Tunif.{af_inet, af_inet6}

-- RTM_NEWROUTE and the like, RT_TABLE_MAIN, and the types of attributes.
abbrev pub rtm_newroute : ℕ
rtm_newroute = 24

abbrev pub rtm_delroute : ℕ
rtm_delroute = 25

abbrev pub rtm_newrule : ℕ
rtm_newrule = 32

abbrev pub rtm_delrule : ℕ
rtm_delrule = 33

abbrev pub rt_table_main : ℕ
rt_table_main = 254

abbrev pub policy_table_id : ℕ
policy_table_id = 1

abbrev pub rta_dst : ℕ
rta_dst = 1

abbrev pub rta_oif : ℕ
rta_oif = 4

abbrev pub fra_src : ℕ
fra_src = 2

-- A `uint16_t` and a `uint32_t` in memory.
abbrev pub host16 : Endian → ℕ → Bytes
host16 e v = first_byte e v ∷ second_byte e v ∷ []

unfoldable pub first_word : Endian → ℕ → ℕ
first_word little v = v % 65536
first_word big v = v / 65536 % 65536

unfoldable pub second_word : Endian → ℕ → ℕ
second_word little v = v / 65536 % 65536
second_word big v = v % 65536

abbrev pub host32 : Endian → ℕ → Bytes
host32 e v = host16 e (first_word e v) ++ host16 e (second_word e v)

-- What has been written to netlink sockets, in order, and the two counters `seq`.
pub record Netlink : Type 0 where
  pub route_seq : ℕ
  pub rule_seq : ℕ
  pub sent : List Bytes

-- What the system answers: `if_nametoindex` of the tun device, and whether the socket for a message
-- can be opened and written to, by the number of messages before.
pub record Link : Type 0 where
  pub ifindex : ℕ
  pub works : ℕ → Bool

-- NLMSG_ALIGN and RTA_ALIGN.
abbrev pub align : ℕ → ℕ
align n = (n + 3) / 4 * 4

-- An attribute behind what the message holds after its `nlmsghdr`; `none` is the exit for a message
-- that is too long.
unfoldable pub put_attribute : Endian → ℕ → Bytes → Bytes → Option Bytes
put_attribute e type value body =
    let len = 4 + length value in
    if ltb 1052 (align (16 + length body) + align len)
    then none
    else some (
        body
        ++ (replicate (align (length body) - length body) 0
            ++ (host16 e len ++ (host16 e type ++ (value ++ replicate (align len - len) 0)))))

-- The `nlmsghdr` and what follows.
abbrev pub message : Endian → ℕ → ℕ → ℕ → Bytes → Bytes
message e type flags seq body =
    host32 e (16 + length body)
    ++ (host16 e type ++ (host16 e flags ++ (host32 e seq ++ (host32 e 0 ++ body))))

-- The length of the address, `none` for a family that is not supported.
unfoldable pub bytelen : ℕ → Option ℕ
bytelen af = if af % 256 == af_inet then some 4 else if af % 256 == af_inet6 then some 16 else none

-- The socket's opening and `sendmsg`; `none` is the exit when one of them fails.
unfoldable pub send_message : Link → Bytes → Netlink → Option Netlink
send_message link msg n =
    if link.works (length n.sent) then some (record n { sent = n.sent ++ (msg ∷ []) }) else none

-- The `rtmsg` of `tun_op_route`.
unfoldable pub route_rtmsg : ℕ → ℕ → ℕ → ℕ → Bytes
route_rtmsg op af prefix_len rt_class =
    if op == rtm_newroute
    then af % 256 ∷ prefix_len % 256 ∷ 0 ∷ 0 ∷ rt_class % 256 ∷ 3 ∷ 0 ∷ 1 ∷ replicate 4 0
    else af % 256 ∷ prefix_len % 256 ∷ 0 ∷ 0 ∷ rt_class % 256 ∷ 0 ∷ 255 ∷ 0 ∷ replicate 4 0

-- `tun_op_route`: whether it returns 0; `none` is a failed assertion or an exit.
unfoldable pub tun_op_route :
    Endian → Link → ℕ → ℕ → Bytes → ℕ → ℕ → Netlink → Option (Bool × Netlink)
tun_op_route e link op af addr prefix_len rt_class n =
    if not (op == rtm_newroute || op == rtm_delroute) then none else elim (bytelen af) [
      | none ↦ some (false, n)
      | some len ↦ do
        let body = route_rtmsg op af prefix_len rt_class
        with_dst ← put_attribute e rta_dst (take len addr) body
        whole ← put_attribute e rta_oif (host32 e link.ifindex) with_dst
        let seq = n.route_seq + 1
        let flags : ℕ = if op == rtm_newroute then 0x601 else 1
        n' ← send_message link (message e op flags seq whole) (record n { route_seq = seq })
        some (true, n')
    ]

-- The `rtmsg` of `tun_op_rule`; the prefix length is set with an address alone.
unfoldable pub rule_rtmsg : ℕ → ℕ → ℕ → ℕ → Bytes
rule_rtmsg op af prefix_len rt_class =
    af % 256
    ∷ 0
    ∷ prefix_len % 256
    ∷ 0
    ∷ rt_class % 256
    ∷ 3
    ∷ 0
    ∷ (if op == rtm_newrule then 1 else 0)
    ∷ replicate 4 0

-- The message's part that names the address; `some none` is the return of -1.
unfoldable pub rule_body : Endian → ℕ → ℕ → Option Bytes → ℕ → ℕ → Option (Option Bytes)
rule_body e op af none prefix_len rt_class = some (some (rule_rtmsg op af 0 rt_class))
rule_body e op af (some addr) prefix_len rt_class = elim (bytelen af) [
  | none ↦ some none
  | some len ↦
      elim (put_attribute e fra_src (take len addr) (rule_rtmsg op af prefix_len rt_class)) [
        | none ↦ none
        | some body ↦ some (some body)
      ]
]

-- `addr == NULL`.
abbrev pub is_missing : Option Bytes → Bool
is_missing none = true
is_missing (some addr) = false

-- The rest of `tun_op_rule`, from the address on.
unfoldable pub send_rule :
    Endian → Link → ℕ → ℕ → Option Bytes → ℕ → ℕ → Netlink → Option (Bool × Netlink)
send_rule e link op af addr prefix_len rt_class n =
    elim (rule_body e op af addr prefix_len rt_class) [
      | none ↦ none
      | some none ↦ some (false, n)
      | some (some body) ↦ do
        let seq = n.rule_seq + 1
        let flags : ℕ = if op == rtm_newrule then 0x601 else 1
        n' ← send_message link (message e op flags seq body) (record n { rule_seq = seq })
        some (true, n')
    ]

-- `tun_op_rule`: `addr` is `none` for NULL, which only a deletion may give.
unfoldable pub tun_op_rule :
    Endian → Link → ℕ → ℕ → Option Bytes → ℕ → ℕ → Netlink → Option (Bool × Netlink)
tun_op_rule e link op af addr prefix_len rt_class n =
    if not (op == rtm_newrule || op == rtm_delrule) || (op == rtm_newrule && is_missing addr)
    then none
    else send_rule e link op af addr prefix_len rt_class n

unfoldable pub tun_add_route : Endian → Link → ℕ → Bytes → ℕ → Netlink → Option (Bool × Netlink)
tun_add_route e link af addr prefix_len n =
    tun_op_route e link rtm_newroute af addr prefix_len rt_table_main n

unfoldable pub tun_delete_route : Endian → Link → ℕ → Bytes → ℕ → Netlink → Option (Bool × Netlink)
tun_delete_route e link af addr prefix_len n =
    tun_op_route e link rtm_delroute af addr prefix_len rt_table_main n

-- The default route of the table that the rules lead to.
unfoldable pub tun_create_policy_table : Endian → Link → Netlink → Option (Bool × Netlink)
tun_create_policy_table e link n =
    tun_op_route e link rtm_newroute af_inet6 (replicate 16 0) 0 policy_table_id n

unfoldable pub tun_add_policy : Endian → Link → Bytes → ℕ → Netlink → Option (Bool × Netlink)
tun_add_policy e link addr prefix_len n =
    tun_op_rule e link rtm_newrule af_inet6 (some addr) prefix_len policy_table_id n

unfoldable pub tun_delete_policy : Endian → Link → Netlink → Option (Bool × Netlink)
tun_delete_policy e link n = tun_op_rule e link rtm_delrule af_inet6 none 0 policy_table_id n
