-- ===== src/Tests/Loop.antt =====
-- A start, a packet and a reload.
use map.Common.{◌≡◌, refl, arith, true, some, [], ◌∷◌, ◌++◌}
use map.Main.Runs.{State, Reaches, started, Reaches-IsConsistent, Reaches-handle}
use map.Mapping.Requests.{
  carry_all, wanted, withdrawn, install_route-wanted, uninstall_route-withdrawn,
}
use map.Mapping.Routes.{install_route, uninstall_route}
use map.Tunif.Netlink.{Link, Netlink}
use map.Main.{handle, start_up}
use map.Mapping.Invariant.{IsConsistent}
use map.Memory.{Bytes, little}
use map.Packet.{Moment, Result}
use map.Pmtudisc.Answers.{IsGood}
use map.Tests.Files.{files, files-PtonLengths, reads}
use map.Tests.Packets.{header4, segment}
use map.Tests.Paths.{at, unset, empty}
use map.Tests.Tables.{zeroed, one_mapping, two_mappings, program}

abbrev link : Link
link = record { ifindex = 5; works = λ i. true }

abbrev unwritten : Netlink
unwritten = record { route_seq = 0; rule_seq = 0; sent = [] }

-- The messages for the mapping, the prefix and the default route of the second table.
abbrev installed : Netlink
installed = carry_all little link (wanted one_mapping) unwritten

installs : install_route little link one_mapping unwritten ≡ some (true, installed)
unfolding program
installs = install_route-wanted little link (λ i. refl) one_mapping unwritten ((refl, tt), refl, tt)

abbrev pub begun : State
begun = record {
  clock = 0;
  tables = one_mapping;
  cache = empty;
  rate = record { count = 0; from = 0 };
  netlink = installed;
}

starts :
    start_up little files link "map646.conf" zeroed unset unwritten
    ≡ some (one_mapping, empty, installed)
unfolding start_up
starts = rw (reads, start_up) (rw (installs, start_up) refl)

pub begun-Reaches : Reaches little begun
begun-Reaches =
    started files link "map646.conf" zeroed one_mapping unset empty unwritten installed 0 begun.rate
      files-PtonLengths starts

abbrev pub moment : Moment
moment = record {
  turn = record { call = at 300; checked = 300; has_tun = true; written = true };
  looked_up = 301;
  checked = 301;
  random = 77;
}

-- The packet behind its tun header.
abbrev pub buffer : Bytes
buffer = 0 ∷ 0 ∷ 8 ∷ 0 ∷ [] ++ (header4 ++ segment)

Reaches-handle_example :
    (r : Result) × (handle little one_mapping moment buffer 44 empty begun.rate ≡ some r)
    × Reaches little (record begun { clock = 301; cache = r.cache; rate = r.rate })
Reaches-handle_example = Reaches-handle moment buffer 44 begun-Reaches (omega arith) (omega arith)

abbrev pub next : Result
next = (Reaches-handle moment buffer 44 begun-Reaches (omega arith) (omega arith)).0

Reaches-IsConsistent_example : IsConsistent little one_mapping × IsGood little 301 next.cache
Reaches-IsConsistent_example =
    Reaches-IsConsistent
      (Reaches-handle moment buffer 44 begun-Reaches (omega arith) (omega arith)).2

install_route-wanted_example :
    install_route little link two_mappings unwritten
    ≡ some (true, carry_all little link (wanted two_mappings) unwritten)
unfolding program
install_route-wanted_example =
    install_route-wanted little link (λ i. refl) two_mappings unwritten
      ((refl, tt), refl, ((refl, refl), tt))

uninstall_route-withdrawn_example :
    uninstall_route little link two_mappings unwritten
    ≡ some (true, carry_all little link (withdrawn two_mappings) unwritten)
unfolding program
uninstall_route-withdrawn_example =
    uninstall_route-withdrawn little link (λ i. refl) two_mappings unwritten
      ((refl, tt), refl, ((refl, refl), tt))
