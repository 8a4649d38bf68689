-- ===== src/Pmtudisc/Scan.antt =====
-- Searching the hash table finds the entry of an address, if the list has one.
use map.Common.{
  ℕ, ◌<◌, ◌≡◌, refl, sym, ap, ◌∙◌, ◌⊎◌, inl, inr, true, false, none, some, List, [], ◌∷◌, arith,
  Option-cases, Bool-cases,
}
use map.HashTable.Lookup.{
  memcmp_eq_symm, memcmp_eq_trans, get_hash_index-memcmp_eq, get_hash_index-lt,
}
use map.HashTable.{memcmp_eq, get_hash_index}
use map.Memory.{Bytes, Endian}
use map.Pmtudisc.Coherent.{IsCoherent, SameKey, len_of, chain_of}
use map.Pmtudisc.Lists.{count}
use map.Pmtudisc.{PathMtu, Cache, addr_len, matches, scan_chain, find_path_mtu}
use map.Tunif.{af_inet, af_inet6}

abbrev pub IsFamily : ℕ → Type 0
IsFamily af = (af ≡ af_inet) ⊎ (af ≡ af_inet6)

pub addr_len_lem : (af : ℕ) → IsFamily af → addr_len af ≡ some (len_of af)
unfolding addr_len
addr_len_lem af (inl h) = rw h refl
addr_len_lem af (inr h) = rw h refl

pub matches_af :
    (af len : ℕ) (addr : Bytes) (p : PathMtu) → matches af addr len p ≡ true → af ≡ p.af
unfolding matches
matches_af af len addr p h = ground arith

pub matches_addr :
    (af len : ℕ) (addr : Bytes) (p : PathMtu)
    → matches af addr len p ≡ true
    → memcmp_eq len addr p.addr ≡ true
unfolding matches
matches_addr af len addr p h = ground arith

pub matches_of :
    (af len : ℕ) (addr : Bytes) (p : PathMtu)
    → af ≡ p.af
    → memcmp_eq len addr p.addr ≡ true
    → matches af addr len p ≡ true
unfolding matches
matches_of af len addr p h k = ground arith

-- Entries that match an address stand in the chain of the address.
pub matches-chain_of :
    (e : Endian) (af : ℕ) (addr : Bytes) (p : PathMtu)
    → IsFamily af
    → matches af addr (len_of af) p ≡ true
    → get_hash_index e addr (len_of af) ≡ chain_of e p
matches-chain_of e af addr p (inl f) h =
    let same = matches_af af (len_of af) addr p h in
    let equal = matches_addr af (len_of af) addr p h in
    rw (← same, f) (get_hash_index-memcmp_eq e 2 addr p.addr (rw f at equal))
matches-chain_of e af addr p (inr f) h =
    let same = matches_af af (len_of af) addr p h in
    let equal = matches_addr af (len_of af) addr p h in
    rw (← same, f) (get_hash_index-memcmp_eq e 8 addr p.addr (rw f at equal))

-- Two entries that match one address have the same key.
pub matches-SameKey :
    (af : ℕ) (addr : Bytes) (p q : PathMtu)
    → matches af addr (len_of af) p ≡ true
    → matches af addr (len_of af) q ≡ true
    → SameKey p q
matches-SameKey af addr p q h k =
    let len = len_of af in
    let p_af = matches_af af len addr p h in
    let p_addr = rw memcmp_eq_symm at (matches_addr af len addr p h) in
    let both = memcmp_eq_trans len p.addr addr q.addr p_addr (matches_addr af len addr q k) in
    rw (← p_af) (matches_of af len p.addr q (matches_af af len addr q k) both)

scan_chain-some :
    (cell : ℕ → PathMtu) (af len : ℕ) (addr : Bytes) (ps : List ℕ) (p : ℕ)
    → scan_chain cell af addr len ps ≡ some p
    → (0 < count p ps) × (matches af addr len (cell p) ≡ true)
unfolding scan_chain
scan_chain-some cell af len addr [] p h = cc
scan_chain-some cell af len addr (q ∷ qs) p h =
    ground (arith, scan_chain-some cell af len addr qs p)

scan_chain-none :
    (cell : ℕ → PathMtu) (af len : ℕ) (addr : Bytes) (ps : List ℕ) (p : ℕ)
    → scan_chain cell af addr len ps ≡ none
    → 0 < count p ps
    → matches af addr len (cell p) ≡ false
unfolding scan_chain
scan_chain-none cell af len addr [] p h k = absurd (omega arith)
scan_chain-none cell af len addr (q ∷ qs) p h k =
    ground (arith, scan_chain-none cell af len addr qs p)

module _ {e : Endian} {clock : ℕ} {c : Cache} (k : IsCoherent e clock c) (af : ℕ) (addr : Bytes)
    (f : IsFamily af) where
  chain : List ℕ
  chain = c.heads (get_hash_index e addr (len_of af))

  find_path_mtu_lem : find_path_mtu e c af addr ≡ scan_chain c.cell af addr (len_of af) chain
  unfolding find_path_mtu chain
  find_path_mtu_lem = rw (addr_len_lem af f, find_path_mtu) refl

  -- What is found is an entry of the list that has the address.
  pub find_path_mtu-some :
      (p : ℕ)
      → find_path_mtu e c af addr ≡ some p
      → (0 < count p c.entries) × (matches af addr (len_of af) (c.cell p) ≡ true)
  unfolding chain
  find_path_mtu-some p h =
      let found = scan_chain-some c.cell af (len_of af) addr chain p (sym find_path_mtu_lem ∙ h) in
      (
        ground (
          arith,
          found.0,
          k.chained p (get_hash_index e addr (len_of af)) (get_hash_index-lt e addr (len_of af)),
        ),
        found.1,
      )

  -- If nothing is found, no entry of the list has the address.
  pub find_path_mtu-none :
      find_path_mtu e c af addr ≡ none
      → (p : ℕ) → 0 < count p c.entries
      → matches af addr (len_of af) (c.cell p) ≡ false
  unfolding chain
  find_path_mtu-none h p live = elim (Bool-cases (matches af addr (len_of af) (c.cell p))) [
    | inr n ↦ n
    | inl m ↦ scan_chain-none c.cell af (len_of af) addr chain p (sym find_path_mtu_lem ∙ h) (
        ground (
          arith,
          matches-chain_of e af addr (c.cell p) f m,
          k.chained p (get_hash_index e addr (len_of af)) (get_hash_index-lt e addr (len_of af)),
        ))
  ]

  -- An entry of the list that has the address is what is found.
  pub find_path_mtu-eq :
      (p : ℕ)
      → 0 < count p c.entries
      → matches af addr (len_of af) (c.cell p) ≡ true
      → find_path_mtu e c af addr ≡ some p
  find_path_mtu-eq p live m = elim (Option-cases (find_path_mtu e c af addr)) [
    | inl n ↦ let missed = find_path_mtu-none n p live in cc
    | inr (q, h) ↦
        let found = find_path_mtu-some q h in
        let same =
          k.distinct p q live found.0 (matches-SameKey af addr (c.cell p) (c.cell q) m found.1) in
        rw h (ap some (sym same))
  ]
