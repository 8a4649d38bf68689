-- ===== src/Packet/Fragment66.antt =====
-- `send66_ItoG` and `send66_GtoI` on a packet with a Fragment header.
use map.Checksum.Update.{length-adjust}
use map.Checksum.{Iov, proto_icmp6, proto_tcp, proto_udp, update66_ulp}
use map.Common.{
  ℕ, ◌+◌, ◌-◌, ◌*◌, ◌/◌, ◌%◌, ◌≤◌, ◌≡◌, ◌⊎◌, inl, inr, refl, ◌∙◌, true, false, none, some, [], ◌∷◌,
  arith, length, length-drop, length-take, drop, ltb, ◌==◌,
}
use map.Icmpsub.{Rate}
use map.Mapping.{Tables}
use map.Memory.Bound.{IsBytes, load8-lt}
use map.Memory.{Bytes, Endian, load8, slice}
use map.Packet.FourToSix.{proto_fragment}
use map.Packet.SixToFour.{Fields6, analyze6, is_supported}
use map.Packet.SixToSix.{Convert66, list66, checked66, send66}
use map.Packet.{Moment, hdr6, load_network16}
use map.Pmtudisc.{Cache}

-- A packet whose payload is a Fragment header and then a TCP or UDP fragment, as long as its
-- header says.
pub record IsFragment66 (pkt : Bytes) (data_len : ℕ) : Type 0 where
  pub bytes : IsBytes pkt
  pub fragment : load8 pkt 6 ≡ proto_fragment
  pub proto : (load8 pkt 40 ≡ proto_tcp) ⊎ (load8 pkt 40 ≡ proto_udp)
  pub header_fits : 48 ≤ length pkt
  pub total : load_network16 pkt 4 + 40 ≡ length pkt
  pub read : length pkt ≤ data_len

abbrev pub fields_fragment : Bytes → Fields6
fields_fragment pkt = record {
  next_header = load8 pkt 40;
  payload_len = length pkt - 48;
  hop_limit = load8 pkt 7;
  fragmented = true;
  more_frag = load_network16 pkt 42 % 2 == 1;
  offset = load_network16 pkt 42 / 8 * 8;
  id = (analyze6 pkt).id;
  start = 48;
}

module _ {pkt : Bytes} {data_len : ℕ} (w : IsFragment66 pkt data_len) where
  analyzed_fragment : analyze6 pkt ≡ fields_fragment pkt
  unfolding analyze6
  analyzed_fragment =
      let fragment : (load8 pkt 6 == proto_fragment) ≡ true = ground (arith, w.fragment) in
      let plen : (load_network16 pkt 4 + 65536 - 8) % 65536 ≡ length pkt - 48 =
        omega (arith, w.total, w.header_fits, load8-lt pkt 4 w.bytes, load8-lt pkt 5 w.bytes) in
      rw (fragment, plen) refl

  -- The adjustment of the checksum changes neither the header nor the number of bytes.
  list66_fragment :
      (e : Endian) (src dst : Bytes)
      → let iov = list66 e pkt (fields_fragment pkt) src dst in
        (iov.ip ≡ hdr6 (load_network16 pkt 4) (load8 pkt 40) (load8 pkt 7) src dst)
        × (iov.frag ≡ none)
        × (length iov.ulp ≡ length pkt - 48)
  unfolding list66 update66_ulp
  list66_fragment e src dst =
      let size : length (slice (drop 48 pkt) 0 (length pkt - 48)) ≡ length pkt - 48 =
        omega (arith, length-take (length pkt - 48) (drop 48 pkt), length-drop 48 pkt) in
      elim w.proto [
        | inl tcp ↦ rw tcp (refl, refl, length-adjust e 16 _ _ _ ∙ size)
        | inr udp ↦ rw udp (refl, refl, length-adjust e 6 _ _ _ ∙ size)
      ]

  send66_fragment :
      (convert : Convert66) (e : Endian) (t : Tables) (m : Moment) (cache : Cache) (rate : Rate)
      (src dst : Bytes)
      → convert e t (slice pkt 8 16) (slice pkt 24 16) ≡ some (src, dst)
      → send66 convert e t m pkt data_len cache rate
        ≡ some (record {
          ok = true;
          cache = cache;
          rate = rate;
          packets = list66 e pkt (fields_fragment pkt) src dst ∷ [];
        })
  unfolding send66 checked66 is_supported
  send66_fragment convert e t m cache rate src dst mapped =
      let other : (load8 pkt 6 == proto_icmp6) ≡ false = ground (arith, w.fragment) in
      let supported : is_supported (load8 pkt 40) ≡ true = ground (arith, w.proto) in
      let long : ltb data_len (length pkt - 48 + 40) ≡ false =
        ground (arith, w.read, w.header_fits) in
      rw (other, analyzed_fragment)
        (rw (supported, long) (rw (mapped, checked66) (rw analyzed_fragment refl)))

-- A packet of IPv6 with a Fragment header and a part of a TCP or UDP datagram, as long as its header
-- says, is sent by send66_ItoG, and by send66_GtoI, without the Fragment header, if the conversion
-- of the addresses succeeds: the header that is written has the protocol of the fragment as its
-- next header, but still the payload length with the Fragment header, 8 more than the bytes that
-- follow it.
pub send66-fragment :
    (convert : Convert66) (e : Endian) (t : Tables) (m : Moment) (cache : Cache) (rate : Rate)
    {pkt src dst : Bytes} {data_len : ℕ}
    → IsFragment66 pkt data_len
    → convert e t (slice pkt 8 16) (slice pkt 24 16) ≡ some (src, dst)
    → (iov : Iov) × (send66 convert e t m pkt data_len cache rate
        ≡ some (record { ok = true; cache = cache; rate = rate; packets = iov ∷ [] }))
      × (iov.frag ≡ none)
      × (load8 iov.ip 6 ≡ load8 pkt 40)
      × (load_network16 iov.ip 4 ≡ length iov.ulp + 8)
unfolding hdr6
send66-fragment convert e t m cache rate {pkt} {src} {dst} w mapped =
    let made = list66_fragment w e src dst in
    (
      list66 e pkt (fields_fragment pkt) src dst,
      send66_fragment w convert e t m cache rate src dst mapped,
      made.1,
      rw made.0 refl,
      rw made.0 (
          omega (
            arith,
            made.2,
            w.total,
            w.header_fits,
            load8-lt pkt 4 w.bytes,
            load8-lt pkt 5 w.bytes,
          )),
    )
