-- ===== src/Mapping/Reload.antt =====
-- Reading configuration files keeps the tables consistent.
use Prim.Native.String.{String}
use map.Common.{
  ℕ, zero, suc, ◌-◌, ◌≡◌, refl, Bool, true, false, ◌&&◌, Option, none, some, List, [], ◌∷◌,
  if◌then◌else◌, length, Bool-cases, Option-cases, inl, inr,
}
use map.Mapping.Config.{
  Line, Terms, Environment, map_static, map66_static, mapping_prefix, run_operand, run_lines,
  create_levels, create_table, assign,
}
use map.Mapping.Invariant.{
  IsConsistent, or_exit-insert_mapping, or_exit-insert_mapping66, inserted-IsConsistent,
  inserted66-IsConsistent,
}
use map.Mapping.{
  Tables, Mapping, Mapping66, find_with_ip4_addr, find_with_ip6_addr, find_with_g_addr,
  find_with_i_addr, is_null,
}
use map.Memory.{Bytes, Endian}
use text.Mathlib.Text.{◌==◌}

-- `inet_pton` writes an address of the family's length.
pub record PtonLengths (env : Environment) : Type 0 where
  pub length4 : (s : String) (a : Bytes) → env.pton4 s ≡ some a → length a ≡ 4
  pub length6 : (s : String) (a : Bytes) → env.pton6 s ≡ some a → length a ≡ 16

-- If the process goes on, the tables that it goes on with are consistent.
abbrev pub Keeps : Endian → Option Tables → Type 0
Keeps e none = Unit
Keeps e (some t) = IsConsistent e t

is_null-eq : {A : Type 0} (o : Option A) → is_null o ≡ true → o ≡ none
is_null-eq none h = refl
is_null-eq (some a) h = cc

Keeps-branch :
    (e : Endian) (b : Bool) (x y : Option Tables)
    → Keeps e x
    → Keeps e y
    → Keeps e (if b then x else y)
Keeps-branch e true x y h k = h
Keeps-branch e false x y h k = k

Keeps-if :
    {e : Endian} (b : Bool) {t : Tables} → IsConsistent e t → Keeps e (if b then some t else none)
Keeps-if true c = c
Keeps-if false c = tt

prefixed-IsConsistent :
    {e : Endian} (t : Tables) (a : Bytes)
    → IsConsistent e t
    → length a ≡ 16
    → IsConsistent e (record t { prefix = a })
prefixed-IsConsistent t a c l = record {
  by_addr4 = c.by_addr4;
  by_addr6 = c.by_addr6;
  by_global = c.by_global;
  by_intra = c.by_intra;
  unique_addr4 = c.unique_addr4;
  unique_addr6 = c.unique_addr6;
  unique_global = c.unique_global;
  unique_intra = c.unique_intra;
  sizes = c.sizes;
  sizes66 = c.sizes66;
  prefix_size = l;
}

module _ (e : Endian) (env : Environment) (pton : PtonLengths env) where
  map_static-Keeps :
      (granted1 granted2 : Bool) (terms : Terms) (t : Tables)
      → IsConsistent e t
      → Keeps e (map_static e env granted1 granted2 terms t)
  unfolding map_static
  map_static-Keeps granted1 granted2 terms t c = elim (Option-cases (env.pton4 terms.addr1)) [
    | inl p ↦ rw (p, map_static) c
    | inr (a, p) ↦ elim (Bool-cases (is_null (find_with_ip4_addr e t a))) [
      | inr old ↦ rw (p, map_static) (rw old c)
      | inl new ↦ elim (Option-cases (env.pton6 terms.addr2)) [
        | inl q ↦ rw (p, map_static) (rw new (rw (q, map_static) c))
        | inr (b, q) ↦ elim (Bool-cases (is_null (find_with_ip6_addr e t b))) [
          | inr old ↦ rw (p, map_static) (rw new (rw (q, map_static) (rw old c)))
          | inl new' ↦
              let m : Mapping = record { addr4 = a; addr6 = b } in
              let absentA = is_null-eq (find_with_ip4_addr e t a) new in
              let absentB = is_null-eq (find_with_ip6_addr e t b) new' in
              rw (p, map_static)
                (rw new (
                  rw (q, map_static)
                    (rw new' (
                      rw (or_exit-insert_mapping e granted1 granted2 m t absentA absentB) (
                        Keeps-if (granted1 && granted2) (
                          inserted-IsConsistent e m t c absentA absentB (pton.length4 _ a p)
                            (pton.length6 _ b q)))))))
        ]
      ]
    ]
  ]

  map66_static-Keeps :
      (granted1 granted2 : Bool) (terms : Terms) (t : Tables)
      → IsConsistent e t
      → Keeps e (map66_static e env granted1 granted2 terms t)
  unfolding map66_static
  map66_static-Keeps granted1 granted2 terms t c = elim (Option-cases (env.pton6 terms.addr1)) [
    | inl p ↦ rw (p, map66_static) c
    | inr (a, p) ↦ elim (Bool-cases (is_null (find_with_g_addr e t a))) [
      | inr old ↦ rw (p, map66_static) (rw old c)
      | inl new ↦ elim (Option-cases (env.pton6 terms.addr2)) [
        | inl q ↦ rw (p, map66_static) (rw new (rw (q, map66_static) c))
        | inr (b, q) ↦ elim (Bool-cases (is_null (find_with_i_addr e t b))) [
          | inr old ↦ rw (p, map66_static) (rw new (rw (q, map66_static) (rw old c)))
          | inl new' ↦
              let m : Mapping66 = record { global = a; intra = b } in
              let absentA = is_null-eq (find_with_g_addr e t a) new in
              let absentB = is_null-eq (find_with_i_addr e t b) new' in
              rw (p, map66_static)
                (rw new (
                  rw (q, map66_static)
                    (rw new' (
                      rw (or_exit-insert_mapping66 e granted1 granted2 m t absentA absentB) (
                        Keeps-if (granted1 && granted2) (
                          inserted66-IsConsistent e m t c absentA absentB (pton.length6 _ a p)
                            (pton.length6 _ b q)))))))
        ]
      ]
    ]
  ]

  mapping_prefix-IsConsistent :
      (terms : Terms) (t : Tables) → IsConsistent e t → IsConsistent e (mapping_prefix env terms t)
  unfolding mapping_prefix
  mapping_prefix-IsConsistent terms t c = elim (Option-cases (env.pton6 terms.addr1)) [
    | inl p ↦ rw (p, mapping_prefix) c
    | inr (a, p) ↦ rw (p, mapping_prefix) (prefixed-IsConsistent t a c (pton.length6 _ a p))
  ]

  run_operand-Keeps :
      (include : String → Tables → Option Tables)
      → ((path : String) (t : Tables) → IsConsistent e t → Keeps e (include path t))
      → (granted1 granted2 : Bool) (terms : Terms) (t : Tables) → IsConsistent e t
      → Keeps e (run_operand e env include granted1 granted2 terms t)
  unfolding run_operand
  run_operand-Keeps include sub granted1 granted2 terms t c =
      let on_include =
        Keeps-branch e (env.exists terms.addr1) (include terms.addr1 t) (some t)
          (sub terms.addr1 t c) c in
      let on_prefix =
        Keeps-branch e (terms.op == "mapping-prefix") (some (mapping_prefix env terms t)) _
          (mapping_prefix-IsConsistent terms t c)
          (Keeps-branch e (terms.op == "include") _ (some t) on_include c) in
      Keeps-branch e (terms.op == "map-static") (map_static e env granted1 granted2 terms t) _
        (map_static-Keeps granted1 granted2 terms t c)
        (Keeps-branch e (terms.op == "map66-static") (map66_static e env granted1 granted2 terms t)
          _ (map66_static-Keeps granted1 granted2 terms t c) on_prefix)

  run_lines-Keeps :
      (include : String → Tables → Option Tables)
      → ((path : String) (t : Tables) → IsConsistent e t → Keeps e (include path t))
      → (lines : List Line) (terms : Terms) (t : Tables) → IsConsistent e t
      → Keeps e (run_lines e env include lines terms t)
  unfolding run_lines
  run_lines-Keeps include sub [] terms t c = c
  run_lines-Keeps include sub (line ∷ lines) terms t c =
      let terms' = assign line.words terms in
      let here = run_operand-Keeps include sub line.granted1 line.granted2 terms' t c in
      elim (Option-cases (run_operand e env include line.granted1 line.granted2 terms' t)) [
        | inl p ↦ rw (p, run_lines) tt
        | inr (t', p) ↦
            rw (p, run_lines) (run_lines-Keeps include sub lines terms' t' (rw p at here))
      ]

  create_levels-Keeps :
      (left : ℕ) (path : String) (t : Tables)
      → IsConsistent e t
      → Keeps e (create_levels e env left path t)
  unfolding create_levels
  create_levels-Keeps zero path t c = tt
  create_levels-Keeps (suc left) path t c = elim (Option-cases (env.open_file path)) [
    | inl p ↦ rw (p, create_levels) tt
    | inr (lines, p) ↦
        rw (p, create_levels)
          (run_lines-Keeps (create_levels e env left) (create_levels-Keeps left) lines env.garbage t
            c)
  ]

  -- Reading a configuration, with all that it includes, whatever the files hold: if the process does
  -- not exit, the tables are one to one and searched as their lists.
  pub create_table-IsConsistent :
      (path : String) (depth : ℕ) (t t' : Tables)
      → IsConsistent e t
      → create_table e env path depth t ≡ some t'
      → IsConsistent e t'
  unfolding create_table
  create_table-IsConsistent path depth t t' c h =
      rw h at (create_levels-Keeps (11 - depth) path t c)
