-- ===== src/Precise/Vector.antt =====
-- vector_manager.c: the lengths of the customised kernel, which are set as in mem_gobbler.c, and the
-- lines of the vector file.
use memory_management_phase.Base.{ℕ, Bool, Option, none, some, List, [], ◌∷◌, String, if◌then◌else◌}
use memory_management_phase.Machine.Run.{Cmd, pr_error, skip}
use memory_management_phase.Vector.{Tokens, Locality, of_tokens, phase_delimiter, ipfvt_delimiter}
use memory_management_phase.Stma
use memory_management_phase.Stma.{PdLen, Reset}

abbrev pub write_lengths : PdLen → ℕ → ℕ → Reset
write_lengths = Stma.write_lengths

abbrev pub reset_stma_ltma : PdLen → ℕ → ℕ → Reset
reset_stma_ltma = Stma.reset_stma_ltma

-- What vector_mgr_get_nxt returns, what it sets, and the lines that are left of the stream.
pub record Line : Type 0 where
  pub nread : ℕ
  pub locality : Option Locality
  pub lines : List String

-- strtok, atol and atof on a line
unfoldable pub split_line : Tokens → Bool → String → Locality
split_line lib is_ipfvt line =
    of_tokens lib is_ipfvt (lib.strtok line (if is_ipfvt then ipfvt_delimiter else phase_delimiter))

-- nread is the truth value of the comparison of getline's result with -1.
unfoldable pub vector_mgr_get_nxt : Tokens → Bool → List String → Line
vector_mgr_get_nxt lib is_ipfvt [] = record { nread = 0; locality = none; lines = [] }
vector_mgr_get_nxt lib is_ipfvt (line ∷ lines) = record {
  nread = 1;
  locality = some (split_line lib is_ipfvt line);
  lines = lines;
}

unfoldable pub vector_mgr_init : (opens : String → Bool) → Option String → Cmd (Unit {0})
vector_mgr_init opens none = pr_error
vector_mgr_init opens (some path) = if opens path then skip else pr_error
