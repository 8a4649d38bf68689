-- ===== src/Lib.antt =====
-- map646: IPv4 packets for a mapped address become IPv6 packets and back, one address to one address,
-- without state per connection. The modules model the C code that decides and computes this:
--
-- - Checksum: checksum.c. The ones' complement sums (acc_words, acc_ip_pheader), the folding of
--   carries (addcarry), the adjustment of a TCP, UDP or ICMP checksum from one IP header to another
--   (update_ulp, update66_ulp), and the computation of a new one (calc_ulp, calc_ip4_header).
-- - HashTable: what the five hash tables of mapping.c and pmtudisc.c have in common: the index
--   (get_hash_index), the chains, search by memcmp and insertion at the head.
-- - Mapping: mapping.c. The two lists of mappings and the four tables over them, the conversion of
--   addresses, and dispatch. Mapping/Config: the reader of the configuration file, with its includes.
-- - Pmtudisc: pmtudisc.c. The cache of path MTUs, its list ordered by time and its hash table.
-- - Icmpsub: icmpsub.c. Conversion of echo messages, the limit of messages per window, and the making
--   of ICMPv4 and ICMPv6 errors. Icmpsub/Process: the handling of incoming errors, which updates the
--   cache of Pmtudisc, converts addresses by Mapping and fills checksums by Checksum.
-- - Packet: map646.cpp. Packet/FourToSix: send_4to6, with its loop over fragments. Packet/SixToFour:
--   send_6to4. Packet/SixToSix: send66_ItoG and send66_GtoI, which differ in the conversion alone. They
--   parse the header, give ICMP messages to Icmpsub, convert the addresses by Mapping, ask Pmtudisc
--   for the MTU and adjust the checksum by Checksum.
-- - Stat: stat.cpp and stat.h. The counters of packets by service, protocol and direction, and the
--   order of their addresses. They see each packet before it is translated and change nothing else.
-- - Main: map646.cpp. The handling of what is read from the tun device, with the switch over dispatch,
--   the start, and reload_sighup. Main/Runs: the states that packets and reloads lead to. Main/Socket:
--   the commands of statistics clients, with stat::safe_write and write_info. Main/Events: the states
--   of the whole loop.
-- - Clients: contrib/stat. Clients/Date: date.cpp. Clients/Files: stat_file.cpp and
--   stat_file_manager.cpp, with the end of cron/stat_client_cron.cpp; the directory is a list of names
--   and texts (Clients/Files/Directory). Clients/Merge: json_merge of json_util.cpp, which reads the
--   counters in the values of files and writes one value for them, and get_json of stat.cpp, which
--   writes the values that it reads.
-- - Tunif: tunif.c, on Linux. The address family in the header before a packet. Tunif/Netlink: the
--   messages for routes and rules. Mapping/Routes: mapping_install_route and mapping_uninstall_route.
-- - Memory and Common: buffers as lists of bytes, uint16_t in the byte order of a host, which is the
--   parameter Endian, and shared names and lemmas. Tests: the theorems at sample packets.
--
-- A definition has the name of the C function without its prefix (cksum_, mapping_, pmtudisc_,
-- icmpsub_, or none), G and I of mapping66 being g and i. State is passed: Tables holds the file
-- variables of mapping.c, Cache those of pmtudisc.c, Rate those of icmpsub.c. A function that
-- returns -1 is an Option or a Boolean; a failed assertion and err(EXIT_FAILURE) are none.
--
-- Bounds. A signed sum is an integer, and the theorems ask for at most 65000 bytes, so that no
-- int32_t overflows; addcarry has three tests of its loop, enough for every int32_t. Included
-- files nest at most 11 deep, as in the source, so the reader needs no other bound. Lists of
-- numbers stand for the pointers of pmtudisc.c, and malloc gives the numbers in order.
--
-- Parameters. What the libraries answer is an argument: inet_pton, the words that sscanf finds, the
-- files, time, whether malloc, writev and netlink sockets work, the index of the tun device, what a
-- client of the socket acknowledges, and the texts of json-c, inet_ntop and localtime (Peers). Times
-- do not go back where a theorem says so. json-c is an argument of Clients/Merge (JsonC), and what it
-- documents a hypothesis (IsJsonC); the files of Clients/Files take json_merge and the texts of json-c
-- as an argument (Json). A std::map is the list of its entries in order (Common/Maps); a text is the
-- list of its bytes, and the numbers that C++ streams print and read are those of Common/Text.
--
-- A packet is a list of bytes, which reads 0 behind its end; the list of an iovec holds copies. The
-- code adjusts a checksum within the packet itself; the bytes that this writes lie in the first
-- fragment, and no later one reads them, since the MTU of an IPv6 path is at least 1280 and that of
-- an IPv4 path at least 68; for the same reason no difference with the MTU wraps. The signal SIGHUP is
-- taken between two packets, as if it were blocked while one is handled. Fields in network order are
-- bytes; a size_t difference that can wrap is written out. A counter of type int does not overflow.
--
-- Not modelled: in map646.cpp the making of the devices and sockets, epoll, and the closing of both at
-- the end; in stat.cpp localtime and the allocation of the socket; in contrib/stat
-- find_lastupdate of json_util.cpp, and the prompt and sockets of the clients; in tunif.c the ioctl
-- calls that make the device; the BSD branches; warnings.
pub mod Common
pub mod Memory
pub mod Checksum
pub mod HashTable
pub mod Tunif
pub mod Mapping
pub mod Pmtudisc
pub mod Icmpsub
pub mod Packet
pub mod Main
pub mod Tests
pub mod Clients
pub mod Stat
