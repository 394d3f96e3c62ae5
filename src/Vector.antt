-- ===== src/Vector.antt =====
-- The vector of localities of mem_gobbler.c: a line gives the count of pages of a phase and its
-- execution time. strtok, atol and atof are the C library's.
use memory_management_phase.Base.Int.{ℤ}
use memory_management_phase.Base.Word.{to_word, to_word-lt}
use memory_management_phase.Base.{
  ◌<◌, ◌^◌, ◌≡◌, ap, arith, ℕ, Bool, true, false, Option, none, some, List, [], ◌∷◌, String,
  if◌then◌else◌,
}

-- strtok: the tokens of a line, in order, for a delimiter. atof gives thousandths.
pub record Tokens : Type 0 where
  pub strtok : String → String → List String
  pub atol : String → ℤ
  pub atof : String → ℤ

pub data Locality : Type 0 where
  -- *alloc_cnt and *wcet
  locality : (alloc_cnt : ℕ) → (wcet : ℤ) → Locality
  -- atol or atof of a null pointer
  null_token : Locality

abbrev pub phase_delimiter : String
phase_delimiter = ","

abbrev pub ipfvt_delimiter : String
ipfvt_delimiter = "\t"

unfoldable pub of_tokens : Tokens → (is_ipfvt : Bool) → List String → Locality
of_tokens lib true (t ∷ u ∷ rest) = locality 1 (lib.atof u)
of_tokens lib false (t ∷ u ∷ rest) = locality (to_word (lib.atol t)) (lib.atof u)
of_tokens lib _ _ = null_token

-- What a locality asks for.
abbrev alloc_cnt_of : Locality → ℕ
alloc_cnt_of (locality alloc_cnt wcet) = alloc_cnt
alloc_cnt_of null_token = 0

alloc_cnt_of-lt :
    (lib : Tokens) (b : Bool) (ts : List String) → alloc_cnt_of (of_tokens lib b ts) < 2 ^ 64
unfolding of_tokens
alloc_cnt_of-lt lib true [] = omega arith
alloc_cnt_of-lt lib false [] = omega arith
alloc_cnt_of-lt lib true (t ∷ []) = omega arith
alloc_cnt_of-lt lib false (t ∷ []) = omega arith
alloc_cnt_of-lt lib true (t ∷ u ∷ rest) = omega arith
alloc_cnt_of-lt lib false (t ∷ u ∷ rest) = to_word-lt (lib.atol t)

-- The count of a line is a word.
pub of_tokens-lt :
    (lib : Tokens) (b : Bool) (ts : List String) (n : ℕ) (w : ℤ)
    → of_tokens lib b ts ≡ locality n w
    → n < 2 ^ 64
of_tokens-lt lib b ts n w e = omega (arith, alloc_cnt_of-lt lib b ts, ap alloc_cnt_of e)

-- get_nxt_alloc, with the lines that are left of the stream; none is its 0 at the end.
unfoldable pub get_nxt_alloc : Tokens → Bool → List String → Option (Locality × List String)
get_nxt_alloc lib is_ipfvt [] = none
get_nxt_alloc lib is_ipfvt (line ∷ lines) = some (
  of_tokens lib is_ipfvt (lib.strtok line (if is_ipfvt then ipfvt_delimiter else phase_delimiter)),
  lines,
)

-- locality_vector_init: 0 if the path is given and opens
unfoldable pub locality_vector_init : (opens : String → Bool) → Option String → ℕ
locality_vector_init opens none = 1
locality_vector_init opens (some path) = if opens path then 0 else 1
