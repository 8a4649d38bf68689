-- ===== src/Main/Events.antt =====
-- The states of the whole loop: packets, connections and commands of statistics clients, and
-- reloads, in any order. The tables, the cache and the rate limit go the way of `Main.Runs`.
use Prim.Native.String.{String}
use mathlib.Core.Option.{some-injective}
use map.Common.Maps.{sum_by}
use map.Common.Text.{Text, c_string, codes, text_eq}
use map.Common.{
  ℕ, suc, ◌≤◌, ◌≡◌, ◌⊎◌, refl, arith, ap, sym, ◌∙◌, Bool, true, Option, none, some, [], ◌∷◌, drop,
  take, if◌then◌else◌, Option-cases, Bool-cases, if_both, inl, inr,
}
use map.Icmpsub.{Rate}
use map.Main.Runs.{State, Reaches, handled, reloaded}
use map.Main.Socket.{
  Peers, Written, Server, accept_client, serve, run_command, info, write_to, close_client,
}
use map.Main.{handle, reload_sighup}
use map.Mapping.Config.{Environment}
use map.Mapping.Reload.{PtonLengths}
use map.Mapping.{Tables, dispatch}
use map.Memory.{Bytes, Endian}
use map.Packet.{Moment, Result}
use map.Pmtudisc.{Cache}
use map.Stat.Counted.{IsAccounted, flush-IsAccounted}
use map.Stat.Totals.{packets, update-CountsOne}
use map.Stat.{Stat, update, flush}
use map.Tunif.Netlink.{Link, Netlink}

-- The branch of the loop for the tun device: the counters, if they are enabled, and the packet.
unfoldable pub on_packet :
    Endian → Tables → Moment → Bytes → ℕ → Cache → Rate → Server → Option (Result × Server)
on_packet e t m buf read_len cache rate s =
    let counted =
      if s.stat_enable
      then record s { stat = update (dispatch e t buf) e t (drop 4 buf) read_len s.stat }
      else s in
    elim (handle e t m buf read_len cache rate) [ none ↦ none | some r ↦ some (r, counted) ]

-- What the loop starts the statistics with.
abbrev pub new_server : ℕ → Server
new_server now = record {
  stat = record { stat66 = []; stat46 = []; last_flush = now };
  stat_enable = true;
  stat_fd = none;
  watched = [];
}

-- The states, with the number of packets that were read so far.
pub data Serves (e : Endian) : State → Server → ℕ → Type 0 where
  begins : (s : State) (now : ℕ) → Reaches e s → Serves e s (new_server now) 0
  packet :
      (s : State) (v v' : Server) (n : ℕ) (m : Moment) (buf : Bytes) (read_len : ℕ) (r : Result)
      → s.clock ≤ m.turn.call.now
      → m.turn.call.now ≤ m.looked_up
      → on_packet e s.tables m buf read_len s.cache s.rate v ≡ some (r, v')
      → Serves e s v n
      → Serves e (record s { clock = m.looked_up; cache = r.cache; rate = r.rate }) v' (suc n)
  connected :
      (s : State) (v : Server) (n : ℕ) (added : Bool) (fd : ℕ)
      → Serves e s v n
      → Serves e s (accept_client added fd v) n
  commanded :
      (s : State) (v v' : Server) (n : ℕ) (p : Peers) (fd : ℕ) (received : Option Bytes)
      (w : Written)
      → serve p fd received v ≡ some (v', w)
      → Serves e s v n
      → Serves e s v' n
  reload :
      (s : State) (v : Server) (n : ℕ) (env : Environment) (link : Link) (path : String)
      (t' : Tables) (k : Netlink)
      → PtonLengths env
      → reload_sighup e env link path s.tables s.netlink ≡ some (t', k)
      → Serves e s v n
      → Serves e (record s { tables = t'; netlink = k }) v n

on_packet_lem :
    (e : Endian) (t : Tables) (m : Moment) (buf : Bytes) (read_len : ℕ) (cache : Cache)
    (rate : Rate) (v v' : Server) (r : Result)
    → on_packet e t m buf read_len cache rate v ≡ some (r, v')
    → (handle e t m buf read_len cache rate ≡ some r)
      × (v'.stat ≡ (
          if v.stat_enable
          then update (dispatch e t buf) e t (drop 4 buf) read_len v.stat
          else v.stat))
unfolding on_packet
on_packet_lem e t m buf read_len cache rate v v' r h =
    elim (Option-cases (handle e t m buf read_len cache rate)) [
      | inl p ↦ absurd (cc (rw (p, on_packet) at h))
      | inr (sent, p) ↦
          let same = some-injective _ _ (rw (p, on_packet) at h) in
          (
            p ∙ ap some (ap (λ q. q.0) same),
            elim (Bool-cases v.stat_enable) [
              | inl on ↦ rw on (sym (ap (λ q. q.1.stat) (rw on at same)))
              | inr off ↦ rw off (sym (ap (λ q. q.1.stat) (rw off at same)))
            ],
          )
    ]

-- A command leaves the counters or flushes them.
abbrev Leaves : Peers → Server → Option (Server × Written) → Type 0
Leaves p v none = Unit
Leaves p v (some r) = (r.0.stat ≡ v.stat) ⊎ (r.0.stat ≡ flush p.now v.stat)

info-Leaves :
    (p : Peers) (v : Server)
    → Leaves p v
        (elim (info p v.stat) [ none ↦ none | some text ↦ some (v, write_to p v.stat_fd text) ])
info-Leaves p v = elim (Option-cases (info p v.stat)) [
  | inl e ↦ rw e tt
  | inr (text, e) ↦ rw e (inl refl)
]

run_command-Leaves :
    (p : Peers) (fd : ℕ) (command : Text) (v : Server) → Leaves p v (run_command p fd command v)
unfolding run_command
run_command-Leaves p fd command v = elim (Bool-cases (text_eq command (codes "show"))) [
  | inl e ↦ rw e (inl refl)
  | inr e ↦ rw e (
      (elim (Bool-cases (text_eq command (codes "info"))) [
        | inl e ↦ rw e (info-Leaves p v)
        | inr e ↦ rw e (
            (elim (Bool-cases (text_eq command (codes "time"))) [
              | inl e ↦ rw e (inl refl)
              | inr e ↦ rw e (
                  (elim (Bool-cases (text_eq command (codes "flush"))) [
                    | inl e ↦ rw e (inr refl)
                    | inr e ↦ rw e (
                        (elim (Bool-cases (text_eq command (codes "toggle"))) [
                          | inl e ↦ rw e (inl refl)
                          | inr e ↦ rw e (
                              (elim (Bool-cases (text_eq command (codes "stat"))) [
                                | inl e ↦ rw e (inl refl)
                                | inr e ↦ rw e (
                                    (elim (Bool-cases (text_eq command (codes "help"))) [
                                      | inl e ↦ rw e (inl refl)
                                      | inr e ↦ rw e (inl refl)
                                    ]))
                              ]))
                        ]))
                  ]))
            ]))
      ]))
]

closed-Leaves :
    (p : Peers) (fd : ℕ) (v : Server) (o : Option (Server × Written))
    → Leaves p v o
    → Leaves p v (elim o [ none ↦ none | some r ↦ some (close_client fd r) ])
closed-Leaves p fd v none h = tt
closed-Leaves p fd v (some r) h = h

serve-Leaves :
    (p : Peers) (fd : ℕ) (received : Option Bytes) (v : Server) → Leaves p v (serve p fd received v)
unfolding serve
serve-Leaves p fd none v = inl refl
serve-Leaves p fd (some []) v = inl refl
serve-Leaves p fd (some (c ∷ cs)) v =
    closed-Leaves p fd v (run_command p fd (c_string (take 10 (c ∷ cs))) v)
      (run_command-Leaves p fd (c_string (take 10 (c ∷ cs))) v)

-- The counters after a packet.
counted-IsAccounted :
    (e : Endian) (t : Tables) (buf : Bytes) (read_len n : ℕ) (v : Server)
    → IsAccounted e v.stat
    → packets v.stat ≤ n
    → let s' : Stat =
        if v.stat_enable
        then update (dispatch e t buf) e t (drop 4 buf) read_len v.stat
        else v.stat in
      IsAccounted e s' × (packets s' ≤ suc n)
counted-IsAccounted e t buf read_len n v h k =
    let (one, after) = update-CountsOne (dispatch e t buf) e t (drop 4 buf) read_len v.stat h in
    if_both (λ s. IsAccounted e s × (packets s ≤ suc n)) v.stat_enable
      (after, elim one [ inl same ↦ rw same (omega arith) | inr more ↦ omega arith ])
      (h, omega arith)

flushed-IsAccounted :
    (e : Endian) (p : Peers) (n : ℕ) (v : Server) (s : Stat)
    → IsAccounted e v.stat
    → packets v.stat ≤ n
    → (s ≡ v.stat) ⊎ (s ≡ flush p.now v.stat)
    → IsAccounted e s × (packets s ≤ n)
unfolding flush sum_by
flushed-IsAccounted e p n v s h k (inl same) = rw same (h, k)
flushed-IsAccounted e p n v s h k (inr gone) =
    rw gone (unfold flush in flush-IsAccounted e p.now v.stat, omega arith)

-- In every state of the loop, whatever packets, connections, commands and reloads there were, the
-- statistics do not reach the translation, whose state is one that packets and reloads alone lead
-- to; every entry's counters agree, each packet being in one bin of lengths and those of TCP and UDP
-- under one port; and no more packets are counted than were read.
pub Serves-IsAccounted :
    {e : Endian} {s : State} {v : Server} {n : ℕ}
    → Serves e s v n
    → Reaches e s × IsAccounted e v.stat × (packets v.stat ≤ n)
unfolding accept_client sum_by
Serves-IsAccounted (begins s now h) =
    (h, record { table46 = (tt, tt); table66 = (tt, tt) }, omega arith)
Serves-IsAccounted {e} (packet s v v' n m buf read_len r h k made before) =
    let (reached, accounted, counted) = Serves-IsAccounted before in
    let (sent, left) = on_packet_lem e s.tables m buf read_len s.cache s.rate v v' r made in
    let (after, bound) = counted-IsAccounted e s.tables buf read_len n v accounted counted in
    (handled s m buf read_len r h k sent reached, rw left after, rw left bound)
Serves-IsAccounted (connected s v n added fd before) = Serves-IsAccounted before
Serves-IsAccounted {e} (commanded s v v' n p fd received w made before) =
    let (reached, accounted, counted) = Serves-IsAccounted before in
    let left : Leaves p v (some (v', w)) = rw made at (serve-Leaves p fd received v) in
    let (after, bound) = flushed-IsAccounted e p n v v'.stat accounted counted left in
    (reached, after, bound)
Serves-IsAccounted (reload s v n env link path t' k pton made before) =
    let (reached, accounted, counted) = Serves-IsAccounted before in
    (reloaded s env link path t' k pton made reached, accounted, counted)
