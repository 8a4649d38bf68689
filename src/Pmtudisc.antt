-- ===== src/Pmtudisc.antt =====
-- pmtudisc.c: the cache of path MTUs, a list of entries with the most recently changed first and
-- a hash table over the same entries. An entry is an object that both refer to, so it has an
-- identity, a number, under which `cell` holds its fields. A hash entry is the only one of its
-- path MTU entry and goes by that entry's number. The entry keeps the address itself: of the
-- bytes that `memcpy` copies beyond it none is read.
pub mod Lists
pub mod Coherent
pub mod Scan
pub mod Steps
pub mod Linking
pub mod Expiry
pub mod Branches
pub mod Answers
pub mod Noted
pub mod Reachable
use map.Common.{
  ℕ, zero, suc, ◌+◌, ◌-◌, Bool, true, false, not, ◌||◌, ◌&&◌, Option, none, some, List, [], ◌∷◌,
  ◌==◌, ltb, if◌then◌else◌,
}
use map.HashTable.{Heads, memcmp_eq, get_hash_index, init_heads, hash_size, update}
use map.Memory.{Bytes, Endian}
use map.Tunif.{af_inet, af_inet6}

-- `struct path_mtu`.
pub record PathMtu : Type 0 where
  pub af : ℕ
  pub addr : Bytes
  pub mtu : ℕ
  pub last_updated : ℕ

-- The file's variables, with the heap: the fields of each entry and the next number that `malloc`
-- gives.
pub record Cache : Type 0 where
  pub cell : ℕ → PathMtu
  pub next : ℕ
  pub entries : List ℕ
  pub heads : Heads ℕ
  pub instance_size : ℕ

abbrev pub default_mtu : ℕ
default_mtu = 1500

abbrev pub lifetime : ℕ
lifetime = 3600

abbrev pub max_instance_size : ℕ
max_instance_size = 10000

-- `pmtudisc_initialize`.
unfoldable pub initialize : Cache → Cache
initialize c = record c { entries = []; heads = init_heads hash_size c.heads; instance_size = 0 }

-- `now - last_updated > PMTUDISC_DEFAULT_LIFETIME`, a signed comparison.
unfoldable pub is_outdated : ℕ → PathMtu → Bool
is_outdated now p = ltb (p.last_updated + lifetime) now

-- The length of an address of a family; `none` is the default case.
unfoldable pub addr_len : ℕ → Option ℕ
addr_len af = if af == af_inet then some 4 else if af == af_inet6 then some 16 else none

-- What the loop of `pmtudisc_find_path_mtu` asks of an entry.
unfoldable pub matches : ℕ → Bytes → ℕ → PathMtu → Bool
matches af addr len p = (af == p.af) && memcmp_eq len addr p.addr

unfoldable pub scan_chain : (ℕ → PathMtu) → ℕ → Bytes → ℕ → List ℕ → Option ℕ
scan_chain cell af addr len [] = none
scan_chain cell af addr len (p ∷ ps) =
    if matches af addr len (cell p) then some p else scan_chain cell af addr len ps

-- `pmtudisc_find_path_mtu`.
unfoldable pub find_path_mtu : Endian → Cache → ℕ → Bytes → Option ℕ
find_path_mtu e c af addr = elim (addr_len af) [
  | none ↦ none
  | some len ↦ scan_chain c.cell af addr len (c.heads (get_hash_index e addr len))
]

-- `LIST_REMOVE`.
unfoldable pub erase : ℕ → List ℕ → List ℕ
erase p [] = []
erase p (q ∷ qs) = if p == q then qs else q ∷ erase p qs

-- `pmtudisc_remove_path_mtu`: the hash entry is taken out of the chain that it is linked in.
unfoldable pub remove_path_mtu : ℕ → Cache → Cache
remove_path_mtu p c = record c {
  entries = erase p c.entries;
  heads = λ i. erase p (c.heads i);
  instance_size = c.instance_size - 1;
}

-- The first loop of `pmtudisc_expire_path_mtus`: the rest of the list from the entry at which it
-- breaks. `budget` is `reduced_size + 1`.
unfoldable pub expired_from : (ℕ → PathMtu) → ℕ → ℕ → List ℕ → List ℕ
expired_from cell now budget [] = []
expired_from cell now zero (p ∷ ps) = p ∷ ps
expired_from cell now (suc budget) (p ∷ ps) =
    if is_outdated now (cell p) then p ∷ ps else expired_from cell now budget ps

-- The second loop.
unfoldable pub remove_all : List ℕ → Cache → Cache
remove_all [] c = c
remove_all (p ∷ ps) c = remove_all ps (remove_path_mtu p c)

abbrev pub expire_budget : ℕ
expire_budget = 5001

-- `pmtudisc_expire_path_mtus`.
unfoldable pub expire_path_mtus : ℕ → Cache → Cache
expire_path_mtus now c = remove_all (expired_from c.cell now expire_budget c.entries) c

-- `pmtudisc_get_path_mtu_size`: the size and the cache that it leaves.
unfoldable pub get_path_mtu_size : Endian → ℕ → ℕ → Bytes → Cache → ℕ × Cache
get_path_mtu_size e now af addr c = elim (find_path_mtu e c af addr) [
  | none ↦ (default_mtu, c)
  | some p ↦
      if is_outdated now (c.cell p) then (default_mtu, remove_path_mtu p c) else ((c.cell p).mtu, c)
]

-- A write to an entry's fields.
abbrev pub set_cell : (ℕ → PathMtu) → ℕ → PathMtu → ℕ → PathMtu
set_cell cell p v q = if p == q then v else cell q

-- The links of `pmtudisc_insert_path_mtu`, and the count.
unfoldable pub link_path_mtu : Endian → ℕ → ℕ → Cache → Cache
link_path_mtu e p len c =
    let hash_index = get_hash_index e (c.cell p).addr len in
    record c {
      entries = p ∷ c.entries;
      heads = update c.heads hash_index (p ∷ c.heads hash_index);
      instance_size = c.instance_size + 1;
    }

-- The expiry when the count is over the limit.
unfoldable pub shrink : ℕ → Cache → Cache
shrink later c = if ltb max_instance_size c.instance_size then expire_path_mtus later c else c

-- `pmtudisc_insert_path_mtu`: whether it returns 0. `granted` says whether `malloc` succeeds, and
-- `later` is the time at which entries are expired.
unfoldable pub insert_path_mtu : Endian → Bool → ℕ → ℕ → Cache → Bool × Cache
insert_path_mtu e granted later p c = elim (addr_len (c.cell p).af) [
  | none ↦ (false, c)
  | some len ↦ if granted then (true, shrink later (link_path_mtu e p len c)) else (false, c)
]

-- The environment of a call: the two clock readings and the two results of `malloc`.
pub record Call : Type 0 where
  pub now : ℕ
  pub later : ℕ
  pub granted_entry : Bool
  pub granted_hash : Bool

-- The branch of an existing entry, which is left alone if it has this MTU already.
unfoldable pub change_path_mtu : ℕ → ℕ → ℕ → Cache → Cache
change_path_mtu now p mtu c = if (c.cell p).mtu == mtu then c else record c {
  cell = set_cell c.cell p (record (c.cell p) { mtu = mtu; last_updated = now });
  entries = p ∷ erase p c.entries;
}

-- The branch that makes a new entry. `malloc` gives the next number; on failure it is freed again.
unfoldable pub create_path_mtu : Endian → Call → ℕ → Bytes → ℕ → Cache → Bool × Cache
create_path_mtu e call af addr mtu c =
    if not call.granted_entry then (false, c) else elim (addr_len af) [
      | none ↦ (false, record c { next = suc c.next })
      | some len ↦ insert_path_mtu e call.granted_hash call.later c.next (record c {
        cell =
            set_cell c.cell c.next
              (record { af = af; addr = addr; mtu = mtu; last_updated = call.now });
        next = suc c.next;
      })
    ]

-- `pmtudisc_update_path_mtu_size`: whether it returns 0; `none` is the failed assertion.
unfoldable pub update_path_mtu_size : Endian → Call → ℕ → Bytes → ℕ → Cache → Option (Bool × Cache)
update_path_mtu_size e call af addr mtu c =
    if ltb mtu 68 then none else elim (find_path_mtu e c af addr) [
      | some p ↦ some (true, change_path_mtu call.now p mtu c)
      | none ↦ some (create_path_mtu e call af addr mtu c)
    ]
