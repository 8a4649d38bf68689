-- ===== src/Tests/Packets.antt =====
-- A TCP segment and two echo messages between 202.214.86.196 and the mapping 192.0.2.1 <=>
-- 2001:db8::100, under the prefix 64::.
use map.Checksum.{Iov}
use map.Common.{none, [], ◌∷◌}
use map.Memory.{Bytes}

abbrev pub remote4 : Bytes
remote4 = 202 ∷ 214 ∷ 86 ∷ 196 ∷ []

abbrev pub server4 : Bytes
server4 = 192 ∷ 0 ∷ 2 ∷ 1 ∷ []

abbrev pub remote6 : Bytes
remote6 = 0 ∷ 100 ∷ 0 ∷ 0 ∷ 0 ∷ 0 ∷ 0 ∷ 0 ∷ 0 ∷ 0 ∷ 0 ∷ 0 ∷ 202 ∷ 214 ∷ 86 ∷ 196 ∷ []

abbrev pub server6 : Bytes
server6 = 32 ∷ 1 ∷ 13 ∷ 184 ∷ 0 ∷ 0 ∷ 0 ∷ 0 ∷ 0 ∷ 0 ∷ 0 ∷ 0 ∷ 0 ∷ 0 ∷ 1 ∷ 0 ∷ []

-- An IPv4 header with a zero checksum.
abbrev pub blank_header4 : Bytes
blank_header4 =
    69 ∷ 0 ∷ 0 ∷ 40 ∷ 0 ∷ 1 ∷ 0 ∷ 0 ∷ 64 ∷ 6 ∷ 0 ∷ 0 ∷ 202 ∷ 214 ∷ 86 ∷ 196 ∷ 192 ∷ 0 ∷ 2 ∷ 1 ∷ []

abbrev pub header4 : Bytes
header4 =
    69 ∷ 0 ∷ 0 ∷ 40 ∷ 0 ∷ 1 ∷ 0 ∷ 0 ∷ 64 ∷ 6 ∷ 151 ∷ 51 ∷ 202 ∷ 214 ∷ 86 ∷ 196 ∷ 192 ∷ 0 ∷ 2 ∷ 1
    ∷ []

abbrev pub header6 : Bytes
header6 =
    96 ∷ 0 ∷ 0 ∷ 0 ∷ 0 ∷ 20 ∷ 6 ∷ 64 ∷ 0 ∷ 100 ∷ 0 ∷ 0 ∷ 0 ∷ 0 ∷ 0 ∷ 0 ∷ 0 ∷ 0 ∷ 0 ∷ 0 ∷ 202 ∷ 214
    ∷ 86 ∷ 196 ∷ 32 ∷ 1 ∷ 13 ∷ 184 ∷ 0 ∷ 0 ∷ 0 ∷ 0 ∷ 0 ∷ 0 ∷ 0 ∷ 0 ∷ 0 ∷ 0 ∷ 1 ∷ 0 ∷ []

abbrev pub icmp_header6 : Bytes
icmp_header6 =
    96 ∷ 0 ∷ 0 ∷ 0 ∷ 0 ∷ 11 ∷ 58 ∷ 64 ∷ 0 ∷ 100 ∷ 0 ∷ 0 ∷ 0 ∷ 0 ∷ 0 ∷ 0 ∷ 0 ∷ 0 ∷ 0 ∷ 0 ∷ 202 ∷ 214
    ∷ 86 ∷ 196 ∷ 32 ∷ 1 ∷ 13 ∷ 184 ∷ 0 ∷ 0 ∷ 0 ∷ 0 ∷ 0 ∷ 0 ∷ 0 ∷ 0 ∷ 0 ∷ 0 ∷ 1 ∷ 0 ∷ []

-- A SYN with its checksum under `header4`.
abbrev pub segment : Bytes
segment =
    48 ∷ 57 ∷ 0 ∷ 80 ∷ 0 ∷ 0 ∷ 0 ∷ 1 ∷ 0 ∷ 0 ∷ 0 ∷ 0 ∷ 80 ∷ 2 ∷ 255 ∷ 255 ∷ 155 ∷ 188 ∷ 0 ∷ 0 ∷ []

-- An ICMPv4 echo request of 11 bytes, and an ICMPv6 one under `icmp_header6`.
abbrev pub echo4 : Bytes
echo4 = 8 ∷ 0 ∷ 33 ∷ 104 ∷ 18 ∷ 52 ∷ 0 ∷ 1 ∷ 97 ∷ 98 ∷ 99 ∷ []

abbrev pub echo6 : Bytes
echo6 = 128 ∷ 0 ∷ 88 ∷ 106 ∷ 18 ∷ 52 ∷ 0 ∷ 1 ∷ 97 ∷ 98 ∷ 99 ∷ []

abbrev pub iov_of : Bytes → Bytes → Iov
iov_of ip ulp = record { af = []; ip = ip; frag = none; ulp = ulp; payload = none }

-- A segment of 40 bytes in an IPv4 packet.
abbrev pub long4 : Bytes
long4 =
    69 ∷ 0 ∷ 0 ∷ 60 ∷ 0 ∷ 1 ∷ 0 ∷ 0 ∷ 64 ∷ 6 ∷ 151 ∷ 31 ∷ 202 ∷ 214 ∷ 86 ∷ 196 ∷ 192 ∷ 0 ∷ 2 ∷ 1
    ∷ 48 ∷ 57 ∷ 0 ∷ 80 ∷ 0 ∷ 0 ∷ 0 ∷ 1 ∷ 0 ∷ 0 ∷ 0 ∷ 0 ∷ 80 ∷ 2 ∷ 255 ∷ 255 ∷ 55 ∷ 58 ∷ 0 ∷ 0 ∷ 1
    ∷ 2 ∷ 3 ∷ 4 ∷ 5 ∷ 6 ∷ 7 ∷ 8 ∷ 9 ∷ 10 ∷ 11 ∷ 12 ∷ 13 ∷ 14 ∷ 15 ∷ 16 ∷ 17 ∷ 18 ∷ 19 ∷ 20 ∷ []

-- The last part of a datagram, 8 bytes from its start.
abbrev pub part4 : Bytes
part4 =
    69 ∷ 0 ∷ 0 ∷ 60 ∷ 0 ∷ 7 ∷ 0 ∷ 1 ∷ 64 ∷ 6 ∷ 151 ∷ 24 ∷ 202 ∷ 214 ∷ 86 ∷ 196 ∷ 192 ∷ 0 ∷ 2 ∷ 1 ∷ 0
    ∷ 1 ∷ 2 ∷ 3 ∷ 4 ∷ 5 ∷ 6 ∷ 7 ∷ 8 ∷ 9 ∷ 10 ∷ 11 ∷ 12 ∷ 13 ∷ 14 ∷ 15 ∷ 16 ∷ 17 ∷ 18 ∷ 19 ∷ 20 ∷ 21
    ∷ 22 ∷ 23 ∷ 24 ∷ 25 ∷ 26 ∷ 27 ∷ 28 ∷ 29 ∷ 30 ∷ 31 ∷ 32 ∷ 33 ∷ 34 ∷ 35 ∷ 36 ∷ 37 ∷ 38 ∷ 39 ∷ []

-- A segment of the server to `remote_under_zero`, in IPv6.
abbrev pub answer6 : Bytes
answer6 =
    96 ∷ 0 ∷ 0 ∷ 0 ∷ 0 ∷ 20 ∷ 6 ∷ 64 ∷ 32 ∷ 1 ∷ 13 ∷ 184 ∷ 0 ∷ 0 ∷ 0 ∷ 0 ∷ 0 ∷ 0 ∷ 0 ∷ 0 ∷ 0 ∷ 0 ∷ 1
    ∷ 0 ∷ 0 ∷ 0 ∷ 0 ∷ 0 ∷ 0 ∷ 0 ∷ 0 ∷ 0 ∷ 0 ∷ 0 ∷ 0 ∷ 0 ∷ 202 ∷ 214 ∷ 86 ∷ 196 ∷ 48 ∷ 57 ∷ 0 ∷ 80
    ∷ 0 ∷ 0 ∷ 0 ∷ 1 ∷ 0 ∷ 0 ∷ 0 ∷ 0 ∷ 80 ∷ 2 ∷ 255 ∷ 255 ∷ 47 ∷ 5 ∷ 0 ∷ 0 ∷ []

-- An ICMPv6 echo request to the mapping's global address.
abbrev pub echo66 : Bytes
echo66 =
    96 ∷ 0 ∷ 0 ∷ 0 ∷ 0 ∷ 11 ∷ 58 ∷ 64 ∷ 0 ∷ 0 ∷ 0 ∷ 0 ∷ 0 ∷ 0 ∷ 0 ∷ 0 ∷ 0 ∷ 0 ∷ 0 ∷ 0 ∷ 202 ∷ 214
    ∷ 86 ∷ 196 ∷ 0 ∷ 100 ∷ 0 ∷ 0 ∷ 0 ∷ 0 ∷ 0 ∷ 0 ∷ 0 ∷ 0 ∷ 0 ∷ 0 ∷ 202 ∷ 214 ∷ 86 ∷ 196 ∷ 128 ∷ 0
    ∷ 101 ∷ 136 ∷ 18 ∷ 52 ∷ 0 ∷ 1 ∷ 97 ∷ 98 ∷ 99 ∷ []

-- A packet with a Fragment header, the first part of a datagram.
abbrev pub part66 : Bytes
part66 =
    96 ∷ 0 ∷ 0 ∷ 0 ∷ 0 ∷ 16 ∷ 44 ∷ 64 ∷ 0 ∷ 0 ∷ 0 ∷ 0 ∷ 0 ∷ 0 ∷ 0 ∷ 0 ∷ 0 ∷ 0 ∷ 0 ∷ 0 ∷ 202 ∷ 214
    ∷ 86 ∷ 196 ∷ 0 ∷ 100 ∷ 0 ∷ 0 ∷ 0 ∷ 0 ∷ 0 ∷ 0 ∷ 0 ∷ 0 ∷ 0 ∷ 0 ∷ 202 ∷ 214 ∷ 86 ∷ 196 ∷ 6 ∷ 0 ∷ 0
    ∷ 9 ∷ 0 ∷ 0 ∷ 0 ∷ 5 ∷ 1 ∷ 2 ∷ 3 ∷ 4 ∷ 5 ∷ 6 ∷ 7 ∷ 8 ∷ []

-- The IPv4 header of `echo4`.
abbrev pub icmp_header4 : Bytes
icmp_header4 =
    69 ∷ 0 ∷ 0 ∷ 31 ∷ 0 ∷ 1 ∷ 0 ∷ 0 ∷ 64 ∷ 1 ∷ 151 ∷ 65 ∷ 202 ∷ 214 ∷ 86 ∷ 196 ∷ 192 ∷ 0 ∷ 2 ∷ 1
    ∷ []

-- An ICMPv6 echo reply of the server to `remote_under_zero`.
abbrev pub pong6 : Bytes
pong6 =
    96 ∷ 0 ∷ 0 ∷ 0 ∷ 0 ∷ 11 ∷ 58 ∷ 64 ∷ 32 ∷ 1 ∷ 13 ∷ 184 ∷ 0 ∷ 0 ∷ 0 ∷ 0 ∷ 0 ∷ 0 ∷ 0 ∷ 0 ∷ 0 ∷ 0
    ∷ 1 ∷ 0 ∷ 0 ∷ 0 ∷ 0 ∷ 0 ∷ 0 ∷ 0 ∷ 0 ∷ 0 ∷ 0 ∷ 0 ∷ 0 ∷ 0 ∷ 202 ∷ 214 ∷ 86 ∷ 196 ∷ 129 ∷ 0 ∷ 87
    ∷ 206 ∷ 18 ∷ 52 ∷ 0 ∷ 1 ∷ 97 ∷ 98 ∷ 99 ∷ []
