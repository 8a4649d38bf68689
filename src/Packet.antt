-- ===== src/Packet.antt =====
-- map646.cpp: what the functions that translate a packet share. Each takes the packet behind the tun
-- header, writes at most one error message and the translated packet or its fragments, and
-- changes the cache of path MTUs and the state of the rate limit.
pub mod FourToSix
pub mod SixToFour
pub mod SixToSix
pub mod Headers
pub mod Single4
pub mod Echo6
pub mod Echo4
pub mod Single6
pub mod Pieces
pub mod Split6
pub mod Reassembly6
pub mod Cuts6
pub mod Cuts4
pub mod Refused
pub mod Single66
pub mod Fragment66
use map.Checksum.{Iov}
use map.Common.{
  ℕ, ◌+◌, ◌*◌, ◌/◌, ◌%◌, ◌^◌, Bool, true, false, not, ◌&&◌, Option, none, some, List, [], ◌∷◌, ◌++◌,
  take, if◌then◌else◌,
}
use map.Icmpsub.Process.{Turn, Outcome}
use map.Icmpsub.{Rate}
use map.Memory.{Bytes, load8}
use map.Pmtudisc.{Cache}

-- What a call meets: `turn` is for an ICMP message that comes in, `looked_up` the time at which the
-- path MTU is looked up, `checked` that of the rate check of a message about the size.
pub record Moment : Type 0 where
  pub turn : Turn
  pub looked_up : ℕ
  pub checked : ℕ
  pub random : ℕ

-- What a call leaves: whether it returns 0, the two states, and what is given to `writev`, in order.
-- A `writev` that fails gets a warning and changes nothing else.
pub record Result : Type 0 where
  pub ok : Bool
  pub cache : Cache
  pub rate : Rate
  pub packets : List Iov

-- `htons` of a value, in the memory of either host.
abbrev pub network16 : ℕ → Bytes
network16 v = v / 256 % 256 ∷ v % 256 ∷ []

-- `ntohs` of the two bytes.
abbrev pub load_network16 : Bytes → ℕ → ℕ
load_network16 buf i = load8 buf i * 256 + load8 buf (i + 1)

-- An IPv6 header, filled in after `memset`.
unfoldable pub hdr6 : ℕ → ℕ → ℕ → Bytes → Bytes → Bytes
hdr6 plen nxt hlim src dst =
    0x60 ∷ 0 ∷ 0 ∷ 0 ∷ (plen / 256 % 256) ∷ (plen % 256) ∷ nxt ∷ hlim ∷ (take 16 src ++ take 16 dst)

-- An IPv4 header with a zero checksum, filled in after `memset`.
unfoldable pub hdr4 : ℕ → ℕ → ℕ → ℕ → ℕ → Bytes → Bytes → Bytes
hdr4 len id off ttl proto src dst =
    0x45
    ∷ 0
    ∷ (len / 256 % 256)
    ∷ (len % 256)
    ∷ (id / 256 % 256)
    ∷ (id % 256)
    ∷ (off / 256 % 256)
    ∷ (off % 256)
    ∷ ttl
    ∷ proto
    ∷ 0
    ∷ 0
    ∷ (take 4 src ++ take 4 dst)

-- Dropped, with the value that the function returns.
abbrev pub drop_packet : Bool → Cache → Rate → Result
drop_packet ok cache rate = record { ok = ok; cache = cache; rate = rate; packets = [] }

-- The messages that are sent, one or none.
abbrev pub list_of : Option Iov → List Iov
list_of none = []
list_of (some iov) = iov ∷ []

-- A message about the size of the packet, unless the rate is over the limit.
unfoldable pub limited : Bool × Rate → Iov → List Iov × Rate
limited (over, rate) message = if over then ([], rate) else (message ∷ [], rate)

-- The ICMP handling that each function begins with: -1 and `discard_ok` both end it with 0.
unfoldable pub after_icmp : Option Outcome → (Cache → Rate → Result) → Option Result
after_icmp none rest = none
after_icmp (some out) rest =
    let sent = list_of out.sent in
    let next = rest out.cache out.rate in
    if out.ok && not out.discard_ok
    then some (record next { packets = sent ++ next.packets })
    else some (record { ok = true; cache = out.cache; rate = out.rate; packets = sent })
