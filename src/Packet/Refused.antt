-- ===== src/Packet/Refused.antt =====
-- The packets that `send_4to6` drops.
use map.Checksum.{proto_icmp, ip_header_len}
use map.Common.{
  ℕ, ◌≡◌, ◌≢◌, ◌<◌, ◌⊎◌, inl, inr, refl, false, not, ◌&&◌, none, some, arith, ltb, ◌==◌, Bool-cases,
}
use map.Icmpsub.{Rate}
use map.Mapping.{Tables, convert_addrs_4to6}
use map.Memory.{Bytes, Endian, load8, slice}
use map.Packet.FourToSix.{analyze4, forward6, send_4to6}
use map.Packet.{Moment, load_network16, drop_packet}
use map.Pmtudisc.{Cache}

-- A packet with IPv4 options, one longer than what was read, and one of another protocol than ICMP
-- whose addresses are not mapped are dropped by send_4to6: nothing is written, and the cache and the
-- rate limit stay. The return value is -1 for the second kind alone, of a packet without options.
pub send_4to6-refused :
    (e : Endian) (t : Tables) (m : Moment) (pkt : Bytes) (data_len : ℕ) (cache : Cache)
    (rate : Rate)
    → (ip_header_len pkt ≢ 20)
      ⊎ (data_len < load_network16 pkt 2)
      ⊎ ((load8 pkt 9 ≢ proto_icmp)
          × (convert_addrs_4to6 e t (slice pkt 12 4) (slice pkt 16 4) ≡ none))
    → send_4to6 e t m pkt data_len cache rate
      ≡ some (
          drop_packet
            (not (ip_header_len pkt == 20 && ltb data_len (load_network16 pkt 2)))
            cache
            rate)
unfolding send_4to6 forward6 analyze4
send_4to6-refused e t m pkt data_len cache rate h = elim (Bool-cases (ip_header_len pkt == 20)) [
  | inr options ↦ rw options refl
  | inl plain ↦ elim (Bool-cases (ltb data_len (load_network16 pkt 2))) [
    | inl short ↦ rw (plain, short) refl
    | inr long ↦ elim h [
      | inl options ↦ absurd (ground arith)
      | inr (inl short) ↦ absurd (ground arith)
      | inr (inr (other, unmapped)) ↦
          let transport : (load8 pkt 9 == proto_icmp) ≡ false = ground arith in
          rw (plain, long, transport, forward6) (rw (unmapped, forward6) refl)
    ]
  ]
]
