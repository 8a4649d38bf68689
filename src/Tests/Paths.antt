-- ===== src/Tests/Paths.antt =====
-- The cache of path MTUs on examples: one address, noted twice.
use map.Common.{ℕ, ◌≡◌, refl, inl, arith, true, some, [], ◌∷◌, take}
use map.HashTable.{init_heads, get_hash_index, hash_loop, memcmp_eq}
use map.Memory.{Bytes, little, load16, word}
use map.Pmtudisc.Answers.{expire_path_mtus-fresh, IsGood}
use map.Pmtudisc.Expiry.{fresh}
use map.Pmtudisc.Noted.{answer, create-get_path_mtu_size, unchanged-get_path_mtu_size}
use map.Pmtudisc.Reachable.{Reachable, started, got, updated, Reachable-IsGood}
use map.Pmtudisc.{
  Cache, Call, initialize, find_path_mtu, scan_chain, matches, addr_len, is_outdated,
  get_path_mtu_size, update_path_mtu_size, create_path_mtu, change_path_mtu, insert_path_mtu,
  link_path_mtu, shrink, expire_path_mtus, expired_from, remove_all, remove_path_mtu,
}

abbrev host : Bytes
host = 192 ∷ 0 ∷ 2 ∷ 1 ∷ []

abbrev pub unset : Cache
unset = record {
  cell = λ p. record { af = 0; addr = []; mtu = 0; last_updated = 0 };
  next = 0;
  entries = 3 ∷ [];
  heads = λ i. [];
  instance_size = 7;
}

abbrev pub at : ℕ → Call
at t = record { now = t; later = t; granted_entry = true; granted_hash = true }

abbrev pub empty : Cache
empty = initialize unset

abbrev pub one : Cache
one = (create_path_mtu little (at 100) 2 host 1400 empty).1

unfoldable pub steps : Unit {0}
unfolding initialize find_path_mtu scan_chain addr_len matches is_outdated get_path_mtu_size
    update_path_mtu_size create_path_mtu change_path_mtu insert_path_mtu link_path_mtu shrink
    expire_path_mtus expired_from remove_all remove_path_mtu init_heads get_hash_index hash_loop
    memcmp_eq load16 word
steps = tt

noted : update_path_mtu_size little (at 100) 2 host 1400 empty ≡ some (true, one)
unfolding steps
noted = refl

reached_one : Reachable little 100 one
reached_one = updated (at 100) 2 host 1400 true one (omega arith) noted (started 50 unset)

Reachable-IsGood_example : IsGood little 200 (get_path_mtu_size little 200 2 host one).1
Reachable-IsGood_example = Reachable-IsGood (got 200 2 host (omega arith) reached_one)

pub one-IsGood : IsGood little 100 one
one-IsGood = Reachable-IsGood reached_one

-- The hour is over: the entry leaves.
looked_up : (get_path_mtu_size little 3700 2 host one).0 ≡ 1400
unfolding steps
looked_up = refl

looked_up_late : (get_path_mtu_size little 3701 2 host one).0 ≡ 1500
unfolding steps
looked_up_late = refl

expire_path_mtus-fresh_example :
    (expire_path_mtus 9000 one).entries ≡ take 5001 (fresh one.cell 9000 one.entries)
expire_path_mtus-fresh_example = expire_path_mtus-fresh little 100 9000 one one-IsGood.0

create-get_path_mtu_size_example :
    answer little 3700 2 host (update_path_mtu_size little (at 100) 2 host 1400 empty) ≡ some 1400
unfolding steps
create-get_path_mtu_size_example =
    create-get_path_mtu_size little 50 (at 100) 3700 2 host 1400 empty (inl refl) (omega arith)
      (omega arith) (omega arith) (omega arith) (Reachable-IsGood (started 50 unset)).0 refl refl
      refl

-- The MTU is noted again at 200, and 1500 is the answer from 3701 on.
unchanged-get_path_mtu_size_example :
    answer little 3701 2 host (update_path_mtu_size little (at 200) 2 host 1400 one) ≡ some 1500
unfolding steps
unchanged-get_path_mtu_size_example =
    unchanged-get_path_mtu_size little 100 (at 200) 3701 2 host one 0 (omega arith) one-IsGood.0
      refl (omega arith)
