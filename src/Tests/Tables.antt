-- ===== src/Tests/Tables.antt =====
-- The theorems on the mapping tables at a small configuration.
use map.Common.{◌≡◌, refl, none, some, [], ◌∷◌, replicate, ◌++◌}
use map.HashTable.{find, scan, get_hash_index, hash_loop, init_heads, insert_head, memcmp_eq}
use map.Mapping.Convert.{convert_addrs-reply, dispatch-reply}
use map.Mapping.Invariant.{
  IsConsistent, inserted, inserted66, initialize-IsConsistent, inserted-IsConsistent,
  inserted66-IsConsistent,
}
use map.Mapping.Emptied.{destroy_table-IsConsistent}
use map.Mapping.{
  Tables, Mapping, Mapping66, initialize, destroy_table, find_with_ip4_addr, find_with_ip6_addr,
  find_with_g_addr, find_with_i_addr, convert_addrs_4to6, convert_addrs_6to4, convert_addrs_gtoi,
  convert_addrs_itog, dispatch, sixtofour,
}
use map.Memory.{Bytes, little, load16, word, htons}
use map.Tests.Packets.{remote4, server4, remote6, server6}
use map.Tunif.{tun_get_af, af_inet6}

abbrev pub zeroed : Tables
zeroed = record {
  prefix = replicate 16 0;
  mappings = [];
  mappings66 = [];
  hash_4to6 = λ i. [];
  hash_6to4 = λ i. [];
  hash_itog = λ i. [];
  hash_gtoi = λ i. [];
}

abbrev pub server : Mapping
server = record { addr4 = server4; addr6 = server6 }

abbrev relay : Mapping66
relay = record { global = remote6; intra = server6 }

abbrev pub start : Tables
start = initialize zeroed

abbrev pub one_mapping : Tables
one_mapping = inserted little server start

abbrev pub two_mappings : Tables
two_mappings = inserted66 little relay one_mapping

abbrev pub start-IsConsistent : IsConsistent little start
start-IsConsistent = initialize-IsConsistent little zeroed

unfoldable pub program : Unit {0}
unfolding initialize find_with_ip4_addr find_with_ip6_addr find_with_g_addr find_with_i_addr find
    scan get_hash_index hash_loop init_heads insert_head memcmp_eq load16 word convert_addrs_4to6
    convert_addrs_6to4 convert_addrs_gtoi convert_addrs_itog dispatch htons tun_get_af
program = tt

pub one_mapping-IsConsistent : IsConsistent little one_mapping
unfolding program
one_mapping-IsConsistent =
    inserted-IsConsistent little server start start-IsConsistent refl refl refl refl

pub two_mappings-IsConsistent : IsConsistent little two_mappings
unfolding program
two_mappings-IsConsistent =
    inserted66-IsConsistent little relay one_mapping one_mapping-IsConsistent refl refl refl refl

-- The prefix of a table that no `mapping-prefix` line has set is ::.
abbrev pub remote_under_zero : Bytes
remote_under_zero = replicate 12 0 ++ remote4

pub translates :
    convert_addrs_4to6 little one_mapping remote4 server4 ≡ some (remote_under_zero, server6)
unfolding program
translates = refl

convert_addrs-reply_example :
    convert_addrs_6to4 little one_mapping server6 (some remote_under_zero)
    ≡ (some server4, some remote4)
convert_addrs-reply_example =
    convert_addrs-reply one_mapping-IsConsistent remote4 server4 remote_under_zero server6 refl refl
      translates

-- A packet of the server's answer, as the tun device hands it over.
abbrev answer : Bytes
answer =
    0 ∷ 0 ∷ 0x86 ∷ 0xdd ∷ 96 ∷ 0 ∷ 0 ∷ 0 ∷ 0 ∷ 20 ∷ 6 ∷ 64 ∷ [] ++ (server6 ++ remote_under_zero)

answer-af : tun_get_af little answer ≡ af_inet6
unfolding program
answer-af = refl

dispatch-reply_example : dispatch little one_mapping answer ≡ sixtofour
dispatch-reply_example =
    dispatch-reply one_mapping-IsConsistent remote4 server4 remote_under_zero server6 answer refl
      translates answer-af refl refl

pub lets_in :
    convert_addrs_gtoi little two_mappings remote_under_zero remote6
    ≡ some (remote_under_zero, server6)
unfolding program
lets_in = refl

destroy_table-IsConsistent_example :
    IsConsistent little (destroy_table two_mappings)
    × ((destroy_table two_mappings).mappings ≡ [])
    × ((destroy_table two_mappings).mappings66 ≡ [])
    × ((addr : Bytes) → find_with_ip4_addr little (destroy_table two_mappings) addr ≡ none)
    × ((addr : Bytes) → find_with_ip6_addr little (destroy_table two_mappings) addr ≡ none)
    × ((addr : Bytes) → find_with_g_addr little (destroy_table two_mappings) addr ≡ none)
    × ((addr : Bytes) → find_with_i_addr little (destroy_table two_mappings) addr ≡ none)
destroy_table-IsConsistent_example = destroy_table-IsConsistent little two_mappings
