-- ===== src/Pmtudisc/Noted.antt =====
-- A path MTU that was noted is the one that is found, until it is outdated.
use map.Common.{
  ℕ, ◌+◌, ◌≤◌, ◌<◌, ◌≡◌, ◌≢◌, refl, ap, ◌∙◌, inl, inr, Bool, true, false, Option, none, some, List,
  ◌∷◌, ◌==◌, if◌then◌else◌, arith, Bool-cases, ltb,
}
use map.HashTable.Lookup.{memcmp_eq_refl}
use map.Memory.{Bytes, Endian}
use map.Pmtudisc.Branches.{get_found, update_found, update_missed, stored_new, create_known, entry}
use map.Pmtudisc.Answers.{expire_path_mtus-fresh}
use map.Pmtudisc.Coherent.{IsCoherent, len_of}
use map.Pmtudisc.Expiry.{shrink-IsCoherent, remove_all_cell}
use map.Pmtudisc.Linking.{stored, link_path_mtu-IsCoherent}
use map.Pmtudisc.Lists.{count}
use map.Pmtudisc.Scan.{
  IsFamily, find_path_mtu-some, find_path_mtu-none, find_path_mtu-eq, matches_of,
}
use map.Pmtudisc.Steps.{change_path_mtu-IsCoherent}
use map.Pmtudisc.{
  PathMtu, Cache, Call, matches, is_outdated, find_path_mtu, link_path_mtu, expire_path_mtus,
  shrink, get_path_mtu_size, change_path_mtu, update_path_mtu_size, max_instance_size,
}

-- What a look-up answers from an entry of the list for the address.
get_of :
    (e : Endian) (clock t af : ℕ) (addr : Bytes) (c : Cache) (p : ℕ)
    → IsFamily af
    → IsCoherent e clock c
    → 0 < count p c.entries
    → matches af addr (len_of af) (c.cell p) ≡ true
    → t ≤ (c.cell p).last_updated + 3600
    → get_path_mtu_size e t af addr c ≡ ((c.cell p).mtu, c)
unfolding is_outdated
get_of e clock t af addr c p f k live m h =
    let new : is_outdated t (c.cell p) ≡ false = ground arith in
    get_found e t af addr c p (find_path_mtu-eq k af addr f p live m) ∙ rw new refl

changed_cell :
    (now p mtu : ℕ) (c : Cache)
    → ((c.cell p).mtu == mtu) ≡ false
    → (change_path_mtu now p mtu c).cell p ≡ record (c.cell p) { mtu = mtu; last_updated = now }
unfolding change_path_mtu
changed_cell now p mtu c h = ground arith

changed_live :
    (now p mtu : ℕ) (c : Cache)
    → ((c.cell p).mtu == mtu) ≡ false
    → 0 < count p (change_path_mtu now p mtu c).entries
unfolding change_path_mtu
changed_live now p mtu c h = ground arith

matches_changed :
    (af len : ℕ) (addr : Bytes) (p : PathMtu) (mtu now : ℕ)
    → matches af addr len (record p { mtu = mtu; last_updated = now }) ≡ matches af addr len p
unfolding matches
matches_changed af len addr p mtu now = refl

-- What a look-up at `t` answers in the cache that a successful update leaves.
abbrev pub answer : Endian → ℕ → ℕ → Bytes → Option (Bool × Cache) → Option ℕ
answer e t af addr none = none
answer e t af addr (some (ok, c)) = if ok then some (get_path_mtu_size e t af addr c).0 else none

-- In a coherent cache that holds another MTU for an IPv4 or IPv6 address, once an update has
-- changed it, a look-up within an hour answers the new MTU.
pub change-get_path_mtu_size :
    (e : Endian) (clock : ℕ) (call : Call) (t af : ℕ) (addr : Bytes) (mtu : ℕ) (c : Cache) (p : ℕ)
    → IsFamily af
    → 68 ≤ mtu
    → clock ≤ call.now
    → t ≤ call.now + 3600
    → IsCoherent e clock c
    → find_path_mtu e c af addr ≡ some p
    → (c.cell p).mtu ≢ mtu
    → answer e t af addr (update_path_mtu_size e call af addr mtu c) ≡ some mtu
change-get_path_mtu_size e clock call t af addr mtu c p f m h u k found other =
    let here = find_path_mtu-some k af addr f p found in
    let differs : ((c.cell p).mtu == mtu) ≡ false = ground arith in
    let c' = change_path_mtu call.now p mtu c in
    let k' = change_path_mtu-IsCoherent e clock call.now p mtu c h here.0 k in
    let cell' = changed_cell call.now p mtu c differs in
    let live = changed_live call.now p mtu c differs in
    let same : matches af addr (len_of af) (c'.cell p) ≡ true =
      ap (matches af addr (len_of af)) cell'
      ∙ matches_changed af (len_of af) addr (c.cell p) mtu call.now
      ∙ here.1 in
    let recent : t ≤ (c'.cell p).last_updated + 3600 = rw cell' u in
    rw
      (
        update_found e call af addr mtu c p m found,
        get_of e call.now t af addr c' p f k' live same recent,
      )
      (ap (λ v. some v.mtu) cell')

linked_cell :
    (e : Endian) (len : ℕ) (v : PathMtu) (c : Cache)
    → (link_path_mtu e c.next len (stored v c)).cell c.next ≡ v
unfolding link_path_mtu
linked_cell e len v c = stored_new v c

linked_entries :
    (e : Endian) (len : ℕ) (v : PathMtu) (c : Cache)
    → (link_path_mtu e c.next len (stored v c)).entries ≡ c.next ∷ c.entries
unfolding link_path_mtu
linked_entries e len v c = refl

shrink_cell : (later : ℕ) (c : Cache) → (shrink later c).cell ≡ c.cell
unfolding shrink expire_path_mtus
shrink_cell later c = elim (Bool-cases (ltb max_instance_size c.instance_size)) [
  | inl over ↦ rw over (remove_all_cell _ c)
  | inr fits ↦ rw fits refl
]

-- The head of the list stays if it is not outdated.
shrink_live :
    (e : Endian) (clock later p : ℕ) (ps : List ℕ) (c : Cache)
    → IsCoherent e clock c
    → c.entries ≡ p ∷ ps
    → is_outdated later (c.cell p) ≡ false
    → 0 < count p (shrink later c).entries
unfolding shrink
shrink_live e clock later p ps c k h new =
    elim (Bool-cases (ltb max_instance_size c.instance_size)) [
      | inl over ↦ rw (over, expire_path_mtus-fresh e clock later c k, h, new) (ground arith)
      | inr fits ↦ rw (fits, h) (ground arith)
    ]

-- In a coherent cache without an IPv4 or IPv6 address, if memory is to be had and entries are
-- expired within an hour of the update, a look-up within the hour answers the MTU of the update.
pub create-get_path_mtu_size :
    (e : Endian) (clock : ℕ) (call : Call) (t af : ℕ) (addr : Bytes) (mtu : ℕ) (c : Cache)
    → IsFamily af
    → 68 ≤ mtu
    → clock ≤ call.now
    → t ≤ call.now + 3600
    → call.later ≤ call.now + 3600
    → IsCoherent e clock c
    → find_path_mtu e c af addr ≡ none
    → call.granted_entry ≡ true
    → call.granted_hash ≡ true
    → answer e t af addr (update_path_mtu_size e call af addr mtu c) ≡ some mtu
unfolding is_outdated
create-get_path_mtu_size e clock call t af addr mtu c f m h u l k missed g1 g2 =
    let v = entry call af addr mtu in
    let c1 = link_path_mtu e c.next (len_of af) (stored v c) in
    let k1 = link_path_mtu-IsCoherent k v (find_path_mtu-none k af addr f missed) h f in
    let c2 = shrink call.later c1 in
    let k2 = shrink-IsCoherent e call.now call.later c1 k1 in
    let cell1 = linked_cell e (len_of af) v c in
    let cell2 : c2.cell c.next ≡ v = ap (λ w. w c.next) (shrink_cell call.later c1) ∙ cell1 in
    let new : is_outdated call.later (c1.cell c.next) ≡ false = rw cell1 (ground arith) in
    let live =
      shrink_live e call.now call.later c.next c.entries c1 k1 (linked_entries e (len_of af) v c)
        new in
    let same : matches af addr (len_of af) (c2.cell c.next) ≡ true =
      rw cell2 (matches_of af (len_of af) addr v refl (memcmp_eq_refl (len_of af) addr)) in
    let recent : t ≤ (c2.cell c.next).last_updated + 3600 = rw cell2 u in
    rw
      (
        update_missed e call af addr mtu c m missed,
        create_known e call af addr mtu c f g1,
        g2,
        get_of e call.now t af addr c2 c.next f k2 live same recent,
      )
      (ap (λ w. some w.mtu) cell2)

-- In a coherent cache that holds an MTU for an IPv4 or IPv6 address, if an update notes the same
-- MTU again, a look-up more than an hour after the MTU first was noted answers 1500.
pub unchanged-get_path_mtu_size :
    (e : Endian) (clock : ℕ) (call : Call) (t af : ℕ) (addr : Bytes) (c : Cache) (p : ℕ)
    → 68 ≤ (c.cell p).mtu
    → IsCoherent e clock c
    → find_path_mtu e c af addr ≡ some p
    → (c.cell p).last_updated + 3600 < t
    → answer e t af addr (update_path_mtu_size e call af addr (c.cell p).mtu c) ≡ some 1500
unfolding is_outdated change_path_mtu
unchanged-get_path_mtu_size e clock call t af addr c p m k found late =
    let old : is_outdated t (c.cell p) ≡ true = ground arith in
    let kept : change_path_mtu call.now p (c.cell p).mtu c ≡ c = ground arith in
    rw
      (
        update_found e call af addr (c.cell p).mtu c p m found,
        kept,
        get_found e t af addr c p found,
        old,
      )
      refl
