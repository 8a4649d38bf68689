-- ===== src/Main/Runs.antt =====
-- The states of the loop: each packet that is read and each reload, taken between two packets, is a
-- step from one to the next.
use Prim.Native.String.{String}
use mathlib.Core.Option.{some-injective}
use map.Common.{ℕ, ◌≤◌, ◌≡◌, arith, ap, sym, ◌∙◌, some, Option-cases, Bool-cases, inl, inr}
use map.Icmpsub.{Rate}
use map.Mapping.Routes.{install_route, uninstall_route}
use map.Tunif.Netlink.{Link, Netlink}
use map.Main.Safety.{Sends, send_towards-Sends}
use map.Main.{handle, reload_sighup, start_up}
use map.Mapping
use map.Mapping.Config.{Environment, create_table}
use map.Mapping.Emptied.{destroy_table-IsConsistent}
use map.Mapping.Invariant.{IsConsistent, initialize-IsConsistent}
use map.Mapping.Reload.{PtonLengths, create_table-IsConsistent}
use map.Mapping.{Tables, dispatch, destroy_table}
use map.Memory.{Bytes, Endian}
use map.Packet.{Moment, Result}
use map.Pmtudisc
use map.Pmtudisc.Answers.{IsGood}
use map.Pmtudisc.Coherent.{initialize-IsCoherent}
use map.Pmtudisc.{Cache}

-- What the loop holds, with the time of the last packet.
pub record State : Type 0 where
  pub clock : ℕ
  pub tables : Tables
  pub cache : Cache
  pub rate : Rate
  pub netlink : Netlink

pub data Reaches (e : Endian) : State → Type 0 where
  started :
      (env : Environment) (link : Link) (path : String) (t t' : Tables) (c c' : Cache)
      (n n' : Netlink) (clock : ℕ) (rate : Rate)
      → PtonLengths env
      → start_up e env link path t c n ≡ some (t', c', n')
      → Reaches e (record { clock = clock; tables = t'; cache = c'; rate = rate; netlink = n' })
  handled :
      (s : State) (m : Moment) (buf : Bytes) (read_len : ℕ) (r : Result)
      → s.clock ≤ m.turn.call.now
      → m.turn.call.now ≤ m.looked_up
      → handle e s.tables m buf read_len s.cache s.rate ≡ some r
      → Reaches e s
      → Reaches e (record s { clock = m.looked_up; cache = r.cache; rate = r.rate })
  reloaded :
      (s : State) (env : Environment) (link : Link) (path : String) (t' : Tables) (n' : Netlink)
      → PtonLengths env
      → reload_sighup e env link path s.tables s.netlink ≡ some (t', n')
      → Reaches e s
      → Reaches e (record s { tables = t'; netlink = n' })

start_up_lem :
    (e : Endian) (env : Environment) (link : Link) (path : String) (t t' : Tables) (c c' : Cache)
    (n n' : Netlink)
    → start_up e env link path t c n ≡ some (t', c', n')
    → (create_table e env path 0 (Mapping.initialize t) ≡ some t') × (c' ≡ Pmtudisc.initialize c)
unfolding start_up
start_up_lem e env link path t t' c c' n n' h =
    elim (Option-cases (create_table e env path 0 (Mapping.initialize t))) [
      | inl none_ ↦ let failed = rw (none_, start_up) at h in absurd (cc)
      | inr (made, k) ↦
          let h1 = rw (k, start_up) at h in
          elim (Option-cases (install_route e link made n)) [
            | inl none_ ↦ let failed = rw (none_, start_up) at h1 in absurd (cc)
            | inr ((ok, n1), i) ↦ elim (Bool-cases ok) [
              | inr refused ↦ let failed = rw (i, refused, start_up) at h1 in absurd (cc)
              | inl on ↦
                  let same = some-injective _ _ (rw (i, on, start_up) at h1) in
                  (k ∙ ap some (ap (λ p. p.0) same), sym (ap (λ p. p.1) same))
            ]
          ]
    ]

reload_sighup_lem :
    (e : Endian) (env : Environment) (link : Link) (path : String) (t t' : Tables) (n n' : Netlink)
    → reload_sighup e env link path t n ≡ some (t', n')
    → create_table e env path 0 (destroy_table t) ≡ some t'
unfolding reload_sighup
reload_sighup_lem e env link path t t' n n' h = elim (Option-cases (uninstall_route e link t n)) [
  | inl none_ ↦ let failed = rw (none_, reload_sighup) at h in absurd (cc)
  | inr ((ok, n1), u) ↦
      let h1 = rw (u, reload_sighup) at h in
      elim (Option-cases (create_table e env path 0 (destroy_table t))) [
        | inl none_ ↦ let failed = rw (none_, reload_sighup) at h1 in absurd (cc)
        | inr (made, k) ↦
            let h2 = rw (k, reload_sighup) at h1 in
            elim (Option-cases (install_route e link made n1)) [
              | inl none_ ↦ let failed = rw (none_, reload_sighup) at h2 in absurd (cc)
              | inr ((ok', n2), i) ↦ elim (Bool-cases ok') [
                | inr refused ↦ let failed = rw (i, refused, reload_sighup) at h2 in absurd (cc)
                | inl on ↦
                    let same = some-injective _ _ (rw (i, on, reload_sighup) at h2) in
                    k ∙ ap some (ap (λ p. p.0) same)
              ]
            ]
      ]
]

-- The next packet, whatever it holds.
handle-Sends :
    (e : Endian) (s : State) (m : Moment) (buf : Bytes) (read_len : ℕ)
    → s.clock ≤ m.turn.call.now
    → m.turn.call.now ≤ m.looked_up
    → IsGood e s.clock s.cache
    → Sends e m.looked_up (handle e s.tables m buf read_len s.cache s.rate)
unfolding handle
handle-Sends e s m buf read_len h k good =
    send_towards-Sends e s.clock s.tables m _ read_len s.cache s.rate h k good
      (dispatch e s.tables buf)

-- In every state that the loop reaches, whatever packets came in, whatever the configuration files
-- held at each reload, if inet_pton writes addresses of the right length and the times of the
-- packets do not go back, the tables are consistent and the cache of path MTUs is coherent and
-- within its size.
pub Reaches-IsConsistent :
    {e : Endian} {s : State} → Reaches e s → IsConsistent e s.tables × IsGood e s.clock s.cache
unfolding Pmtudisc.initialize
Reaches-IsConsistent {e} (started env link path t t' c c' n n' clock rate pton h) =
    let (made, fresh) = start_up_lem e env link path t t' c c' n n' h in
    (
      create_table-IsConsistent e env pton path 0 (Mapping.initialize t) t'
          (initialize-IsConsistent e t) made,
      rw fresh (initialize-IsCoherent e clock c, omega arith),
    )
Reaches-IsConsistent {e} (handled s m buf read_len r h k made before) =
    let (tables, good) = Reaches-IsConsistent before in
    let (sent, returned, left) = handle-Sends e s m buf read_len h k good in
    let same : sent ≡ r = some-injective _ _ (sym returned ∙ made) in (tables, rw same at left)
Reaches-IsConsistent {e} (reloaded s env link path t' n' pton h before) =
    let (tables, good) = Reaches-IsConsistent before in
    (
      create_table-IsConsistent e env pton path 0 (destroy_table s.tables) t'
          (destroy_table-IsConsistent e s.tables).0
          (reload_sighup_lem e env link path s.tables t' s.netlink n' h),
      good,
    )

-- In every state that the loop reaches, whatever is read from the tun device at a time that is not
-- before the last packet's, the packet is handled, no assertion failing.
pub Reaches-handle :
    {e : Endian} {s : State} (m : Moment) (buf : Bytes) (read_len : ℕ)
    → Reaches e s
    → s.clock ≤ m.turn.call.now
    → m.turn.call.now ≤ m.looked_up
    → (r : Result) × (handle e s.tables m buf read_len s.cache s.rate ≡ some r)
      × Reaches e (record s { clock = m.looked_up; cache = r.cache; rate = r.rate })
Reaches-handle {e} {s} m buf read_len before h k =
    let (r, returned, left) = handle-Sends e s m buf read_len h k (Reaches-IsConsistent before).1 in
    (r, returned, handled s m buf read_len r h k returned before)
