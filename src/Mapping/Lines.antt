-- ===== src/Mapping/Lines.antt =====
-- Configuration files with a line that lacks words, and files that include themselves.
use Prim.Native.String.{String}
use map.Common.{
  ℕ, zero, suc, ◌-◌, ◌≡◌, refl, ap, ◌∙◌, sym, Bool, true, Option, none, some, List, [], ◌∷◌,
  Option-cases, inl, inr,
}
use map.Mapping.Config.{
  Line, Terms, Environment, run_operand, run_lines, create_levels, create_table, assign,
}
use map.Mapping.{Tables}
use map.Memory.{Endian}

assign_idem :
    (words : List String) (terms : Terms) → assign words (assign words terms) ≡ assign words terms
unfolding assign
assign_idem [] terms = refl
assign_idem (a ∷ []) terms = refl
assign_idem (a ∷ b ∷ []) terms = refl
assign_idem (a ∷ b ∷ c ∷ r) terms = refl

-- A blank line runs the line before it once more: the loop goes on after the warning, with the words
-- that the buffers still hold.
pub run_lines-blank :
    (e : Endian) (env : Environment) (include : String → Tables → Option Tables)
    → (line : Line) (granted1 granted2 : Bool) (lines : List Line) (terms : Terms) (t : Tables)
    → run_lines e env include
        (line ∷ record { words = []; granted1 = granted1; granted2 = granted2 } ∷ lines)
        terms
        t
      ≡ run_lines e env include
          (line ∷ record { words = line.words; granted1 = granted1; granted2 = granted2 } ∷ lines)
          terms
          t
unfolding run_lines assign
run_lines-blank e env include line g1 g2 lines terms t =
    let terms' = assign line.words terms in
    elim (Option-cases (run_operand e env include line.granted1 line.granted2 terms' t)) [
      | inl p ↦ rw (p, run_lines) refl
      | inr (t', p) ↦
          let again : Terms → Option Tables = λ terms''.
            elim (run_operand e env include g1 g2 terms'' t') [
              | none ↦ none
              | some t'' ↦ run_lines e env include lines terms'' t''
            ] in
          rw (p, run_lines) (ap again (sym (assign_idem line.words terms)))
    ]

include_terms :
    (path : String) (rest : List String) (terms : Terms)
    → let terms' = assign ("include" ∷ path ∷ rest) terms in
      (terms'.op ≡ "include") × (terms'.addr1 ≡ path)
unfolding assign
include_terms path [] terms = (refl, refl)
include_terms path (r ∷ rest) terms = (refl, refl)

-- The operand `include` is the recursive call, if the file exists.
run_operand-include :
    (e : Endian) (env : Environment) (include : String → Tables → Option Tables)
    → (granted1 granted2 : Bool) (terms : Terms) (t : Tables) → terms.op ≡ "include"
    → env.exists terms.addr1 ≡ true
    → run_operand e env include granted1 granted2 terms t ≡ include terms.addr1 t
unfolding run_operand
run_operand-include e env include granted1 granted2 terms t o x = rw (o, x) refl

-- A file whose first line includes the file itself ends the process, at whatever depth it is read.
pub create_table-self_include :
    (e : Endian) (env : Environment) (path : String) (line : Line) (lines : List Line)
    → (rest : List String) → line.words ≡ "include" ∷ path ∷ rest
    → env.open_file path ≡ some (line ∷ lines)
    → env.exists path ≡ true
    → (depth : ℕ) (t : Tables) → create_table e env path depth t ≡ none
unfolding create_table create_levels run_lines
create_table-self_include e env path line lines rest w o x depth t = go (11 - depth)
  where
    go : (left : ℕ) → create_levels e env left path t ≡ none
    go zero = refl
    go (suc left) =
        let terms' = assign line.words env.garbage in
        let include = create_levels e env left in
        let words = rw (← w) at (include_terms path rest env.garbage) in
        let recurs : run_operand e env include line.granted1 line.granted2 terms' t ≡ none =
          run_operand-include e env include line.granted1 line.granted2 terms' t words.0
            (rw words.1 x)
          ∙ rw words.1 (go left) in
        rw (o, create_levels) (rw (recurs, run_lines) refl)
