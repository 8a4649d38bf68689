-- ===== src/Tunif.antt =====
-- tunif.c on Linux: the address family in the `tun_pi` header (16 bits of flags, then the Ether type
-- in network order) that stands before each packet.
pub mod Family
pub mod Netlink
pub mod Layout
use map.Common.{ℕ, Option, none, some, ◌==◌, if◌then◌else◌}
use map.Memory.{Bytes, Endian, htons, load16, store16}

abbrev pub af_inet : ℕ
af_inet = 2

abbrev pub af_inet6 : ℕ
af_inet6 = 10

abbrev pub eth_p_ip : ℕ
eth_p_ip = 0x0800

abbrev pub eth_p_ipv6 : ℕ
eth_p_ipv6 = 0x86dd

-- `tun_get_af`; 255 stands for an unknown Ether type.
unfoldable pub tun_get_af : Endian → Bytes → ℕ
tun_get_af e buf =
    let ether_type = htons e (load16 e buf 2) in
    if ether_type == eth_p_ip then af_inet else if ether_type == eth_p_ipv6 then af_inet6 else 255

-- `tun_set_af`: `none` is -1, and leaves the buffer alone.
unfoldable pub tun_set_af : Endian → Bytes → ℕ → Option Bytes
tun_set_af e buf af =
    if af == af_inet
    then some (store16 e (store16 e buf 0 0) 2 (htons e eth_p_ip))
    else if af == af_inet6
    then some (store16 e (store16 e buf 0 0) 2 (htons e eth_p_ipv6))
    else none
