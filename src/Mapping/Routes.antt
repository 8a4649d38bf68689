-- ===== src/Mapping/Routes.antt =====
-- mapping.c: `mapping_install_route` and `mapping_uninstall_route`.
use map.Common.{Bool, true, false, Option, some, List, [], ◌∷◌, ◌>>=◌, if◌then◌else◌}
use map.Mapping.{Mapping, Mapping66, Tables}
use map.Memory.{Endian}
use map.Tunif.Netlink.{
  Link, Netlink, tun_add_route, tun_delete_route, tun_create_policy_table, tun_add_policy,
  tun_delete_policy,
}
use map.Tunif.{af_inet, af_inet6}

-- The first loop. A failure gets a warning and does not end it.
unfoldable pub install_hosts : Endian → Link → List Mapping → Netlink → Option Netlink
install_hosts e link [] n = some n
install_hosts e link (m ∷ ms) n = do
  (ok, n') ← tun_add_route e link af_inet m.addr4 32 n
  install_hosts e link ms n'

-- The second loop.
unfoldable pub install_hosts66 : Endian → Link → List Mapping66 → Netlink → Option Netlink
install_hosts66 e link [] n = some n
install_hosts66 e link (m ∷ ms) n = do
  (ok, n') ← tun_add_route e link af_inet6 m.global 128 n
  (ok', n'') ← tun_add_policy e link m.intra 128 n'
  install_hosts66 e link ms n''

-- `mapping_install_route`: whether it returns 0.
unfoldable pub install_route : Endian → Link → Tables → Netlink → Option (Bool × Netlink)
install_route e link t n = do
  n1 ← install_hosts e link t.mappings n
  (ok, n2) ← tun_add_route e link af_inet6 t.prefix 64 n1
  if ok
      then (do
        (ok', n3) ← tun_create_policy_table e link n2
        if ok'
            then (do n4 ← install_hosts66 e link t.mappings66 n3; some (true, n4))
            else some (false, n3))
      else some (false, n2)

-- The loop of `mapping_uninstall_route`.
unfoldable pub uninstall_hosts : Endian → Link → List Mapping → Netlink → Option Netlink
uninstall_hosts e link [] n = some n
uninstall_hosts e link (m ∷ ms) n = do
  (ok, n') ← tun_delete_route e link af_inet m.addr4 32 n
  uninstall_hosts e link ms n'

-- `mapping_uninstall_route`.
unfoldable pub uninstall_route : Endian → Link → Tables → Netlink → Option (Bool × Netlink)
uninstall_route e link t n = do
  n1 ← uninstall_hosts e link t.mappings n
  (ok, n2) ← tun_delete_route e link af_inet6 t.prefix 64 n1
  if ok then (do (ok', n3) ← tun_delete_policy e link n2; some (true, n3)) else some (false, n2)
