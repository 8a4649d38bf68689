-- ===== src/Tests/Files.antt =====
-- Reading small configuration files.
use Prim.Native.String.{String}
use map.Common.{◌≡◌, refl, true, Option, none, some, List, [], ◌∷◌, if◌then◌else◌, arith}
use map.Mapping.Config.{
  Line, Environment, assign, run_operand, run_lines, create_table, create_levels, map_static,
}
use map.Mapping.Invariant.{IsConsistent, inserted}
use map.Mapping.Reload.{PtonLengths, create_table-IsConsistent}
use map.Mapping.Lines.{run_lines-blank}
use map.Mapping.{Tables, insert_mapping, insert_hash_4to6, insert_hash_6to4}
use map.Memory.{little}
use map.Tests.Packets.{server4, server6}
use map.Tests.Tables.{program, start, start-IsConsistent, server}
use text.Mathlib.Text.{◌==◌}

abbrev line_of : List String → Line
line_of words = record { words = words; granted1 = true; granted2 = true }

abbrev map_line : Line
map_line = line_of ("map-static" ∷ "192.0.2.1" ∷ "2001:db8::100" ∷ [])

abbrev loop_line : Line
loop_line = line_of ("include" ∷ "loop.conf" ∷ [])

abbrev pub files : Environment
files = record {
  pton4 = λ s. if s == "192.0.2.1" then some server4 else none;
  pton6 = λ s. if s == "2001:db8::100" then some server6 else none;
  open_file = λ s.
      if s == "map646.conf"
      then some (map_line ∷ [])
      else if s == "loop.conf"
      then some (loop_line ∷ map_line ∷ [])
      else none;
  exists = λ s. s == "loop.conf";
  garbage = record { op = ""; addr1 = ""; addr2 = "" };
}

pub files-PtonLengths : PtonLengths files
files-PtonLengths = record { length4 = λ s a h. ground arith; length6 = λ s a h. ground arith }

pub reads : create_table little files "map646.conf" 0 start ≡ some (inserted little server start)
unfolding program create_table create_levels run_lines run_operand map_static assign insert_mapping
    insert_hash_4to6 insert_hash_6to4
reads = refl

create_table-IsConsistent_example : IsConsistent little (inserted little server start)
create_table-IsConsistent_example =
    create_table-IsConsistent little files files-PtonLengths "map646.conf" 0 start
      (inserted little server start) start-IsConsistent reads

abbrev no_include : String → Tables → Option Tables
no_include path t = some t

run_lines-blank_example :
    run_lines little files no_include (map_line ∷ line_of [] ∷ []) files.garbage start
    ≡ run_lines little files no_include (map_line ∷ map_line ∷ []) files.garbage start
run_lines-blank_example =
    run_lines-blank little files no_include map_line true true [] files.garbage start
