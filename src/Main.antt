-- ===== src/Main.antt =====
-- map646.cpp: what the main loop does with a packet that it reads from the tun device, and the
-- reload of the configuration on SIGHUP. Statistics do not change what is done.
pub mod Safety
pub mod Runs
pub mod Socket
pub mod Events
pub mod Answers
use Prim.Native.String.{String}
use map.Common.{ℕ, Bool, true, false, Option, none, some, List, [], ◌∷◌, ◌>>=◌, drop, if◌then◌else◌}
use map.Icmpsub.{Rate}
use map.Mapping.Routes.{install_route, uninstall_route}
use map.Tunif.Netlink.{Link, Netlink}
use map.Mapping.Config.{Environment, create_table}
use map.Mapping
use map.Pmtudisc
use map.Mapping.{Tables, Direction, dispatch, destroy_table}
use map.Mapping.Direction.{unknown, sixtosix_itog, sixtosix_gtoi, sixtofour, fourtosix}
use map.Memory.{Bytes, Endian}
use map.Packet.FourToSix.{send_4to6}
use map.Packet.SixToFour.{send_6to4}
use map.Packet.SixToSix.{send66_itog, send66_gtoi}
use map.Packet.{Moment, Result, drop_packet}
use map.Pmtudisc.{Cache}

-- The switch over the result of `dispatch`; a packet of no direction is dropped.
unfoldable pub send_towards :
    Direction → Endian → Tables → Moment → Bytes → ℕ → Cache → Rate → Option Result
send_towards fourtosix e t m pkt read_len cache rate = send_4to6 e t m pkt read_len cache rate
send_towards sixtofour e t m pkt read_len cache rate = send_6to4 e t m pkt read_len cache rate
send_towards sixtosix_gtoi e t m pkt read_len cache rate = send66_gtoi e t m pkt read_len cache rate
send_towards sixtosix_itog e t m pkt read_len cache rate = send66_itog e t m pkt read_len cache rate
send_towards unknown e t m pkt read_len cache rate = some (drop_packet true cache rate)

-- The body of the loop for the tun device. `read_len` counts the 4 bytes of the tun header, and is
-- passed on as it is.
unfoldable pub handle : Endian → Tables → Moment → Bytes → ℕ → Cache → Rate → Option Result
handle e t m buf read_len cache rate =
    send_towards (dispatch e t buf) e t m (drop 4 buf) read_len cache rate

-- `reload_sighup`: the tables and what has been written to netlink; `none` is the end of the process.
unfoldable pub reload_sighup :
    Endian → Environment → Link → String → Tables → Netlink → Option (Tables × Netlink)
reload_sighup e env link path t n = do
  (ok, n1) ← uninstall_route e link t n
  t' ← create_table e env path 0 (destroy_table t)
  (ok', n2) ← install_route e link t' n1
  if ok' then some (t', n2) else none

-- The state of the modules that the loop begins with, `none` where `main` ends.
unfoldable pub start_up :
    Endian
    → Environment
    → Link
    → String
    → Tables
    → Cache
    → Netlink
    → Option (Tables × Cache × Netlink)
start_up e env link path t c n = do
  t' ← create_table e env path 0 (Mapping.initialize t)
  (ok, n') ← install_route e link t' n
  if ok then some (t', Pmtudisc.initialize c, n') else none
