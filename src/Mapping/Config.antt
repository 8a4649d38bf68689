-- ===== src/Mapping/Config.antt =====
-- `mapping_create_table`: reading a configuration file. The C library is the environment: what
-- `getline` and `sscanf` make of a line, `inet_pton`, `fopen`, `stat` and `malloc`.
use Prim.Native.String.{String}
use map.Common.{ℕ, zero, suc, ◌-◌, Bool, Option, none, some, List, [], ◌∷◌, if◌then◌else◌}
use map.Mapping.{
  Tables, find_with_ip4_addr, find_with_ip6_addr, find_with_g_addr, find_with_i_addr, is_null,
  insert_mapping, insert_mapping66,
}
use map.Memory.{Bytes, Endian}
use text.Mathlib.Text.{◌==◌}

-- The three buffers of a call.
pub record Terms : Type 0 where
  pub op : String
  pub addr1 : String
  pub addr2 : String

-- A line: the words that `sscanf` assigns, of which there are none if it returns -1, and whether
-- the two `malloc` calls of an insertion succeed.
pub record Line : Type 0 where
  pub words : List String
  pub granted1 : Bool
  pub granted2 : Bool

pub record Environment : Type 0 where
  -- `inet_pton(AF_INET, …)` and `inet_pton(AF_INET6, …)`; `none` is a result other than 1.
  pub pton4 : String → Option Bytes
  pub pton6 : String → Option Bytes
  -- `fopen` with the file's lines, and `stat(…) == 0`.
  pub open_file : String → Option (List Line)
  pub exists : String → Bool
  -- What the buffers of a call hold before the first line.
  pub garbage : Terms

-- `sscanf(line, "%255s %255s %255s", op, addr1, addr2)`: a word that is missing leaves its buffer.
unfoldable pub assign : List String → Terms → Terms
assign [] terms = terms
assign (a ∷ []) terms = record terms { op = a }
assign (a ∷ b ∷ []) terms = record terms { op = a; addr1 = b }
assign (a ∷ b ∷ c ∷ r) terms = record { op = a; addr1 = b; addr2 = c }

-- An insertion that returns -1 ends the process, which is `none`.
abbrev pub or_exit : Bool × Tables → Option Tables
or_exit r = if r.0 then some r.1 else none

-- `map-static`.
unfoldable pub map_static : Endian → Environment → Bool → Bool → Terms → Tables → Option Tables
map_static e env granted1 granted2 terms t = elim (env.pton4 terms.addr1) [
  | none ↦ some t
  | some addr4 ↦
      if is_null (find_with_ip4_addr e t addr4)
      then elim (env.pton6 terms.addr2) [
        | none ↦ some t
        | some addr6 ↦
            if is_null (find_with_ip6_addr e t addr6)
            then or_exit
                (insert_mapping e granted1 granted2 (record { addr4 = addr4; addr6 = addr6 }) t)
            else some t
      ]
      else some t
]

-- `map66-static`.
unfoldable pub map66_static : Endian → Environment → Bool → Bool → Terms → Tables → Option Tables
map66_static e env granted1 granted2 terms t = elim (env.pton6 terms.addr1) [
  | none ↦ some t
  | some global ↦
      if is_null (find_with_g_addr e t global)
      then elim (env.pton6 terms.addr2) [
        | none ↦ some t
        | some intra ↦
            if is_null (find_with_i_addr e t intra)
            then or_exit
                (insert_mapping66 e granted1 granted2 (record { global = global; intra = intra }) t)
            else some t
      ]
      else some t
]

-- `mapping-prefix`.
unfoldable pub mapping_prefix : Environment → Terms → Tables → Tables
mapping_prefix env terms t = elim (env.pton6 terms.addr1) [
  | none ↦ t
  | some addr ↦ record t { prefix = addr }
]

-- One line, after `sscanf`. `include` is the recursive call of `mapping_create_table`.
unfoldable pub run_operand :
    Endian
    → Environment
    → (String → Tables → Option Tables)
    → Bool
    → Bool
    → Terms
    → Tables
    → Option Tables
run_operand e env include granted1 granted2 terms t =
    if terms.op == "map-static"
    then map_static e env granted1 granted2 terms t
    else if terms.op == "map66-static"
    then map66_static e env granted1 granted2 terms t
    else if terms.op == "mapping-prefix"
    then some (mapping_prefix env terms t)
    else if terms.op == "include"
    then if env.exists terms.addr1 then include terms.addr1 t else some t
    else some t

-- The loop over the lines; the buffers carry over from one line to the next.
unfoldable pub run_lines :
    Endian
    → Environment
    → (String → Tables → Option Tables)
    → List Line
    → Terms
    → Tables
    → Option Tables
run_lines e env include [] terms t = some t
run_lines e env include (line ∷ lines) terms t =
    let terms' = assign line.words terms in
    elim (run_operand e env include line.granted1 line.granted2 terms' t) [
      | none ↦ none
      | some t' ↦ run_lines e env include lines terms' t'
    ]

-- A call at a depth that leaves `left` levels; the call with none left ends the process.
unfoldable pub create_levels : Endian → Environment → ℕ → String → Tables → Option Tables
create_levels e env zero path t = none
create_levels e env (suc left) path t = elim (env.open_file path) [
  | none ↦ none
  | some lines ↦ run_lines e env (create_levels e env left) lines env.garbage t
]

-- `mapping_create_table(path, depth)`, which ends the process at a depth above 10.
unfoldable pub create_table : Endian → Environment → String → ℕ → Tables → Option Tables
create_table e env path depth t = create_levels e env (11 - depth) path t
