-- ===== src/Examples/Text.antt =====
-- strtok, atol and atof on texts of whole numbers, and the lines of test.vector.
use memory_management_phase.Base.{
  All, ℕ, ◌+◌, ◌-◌, ◌*◌, ◌≡◌, refl, false, List, [], ◌∷◌, String, ◌==◌, ◌&&◌, leb, if◌then◌else◌,
}
use memory_management_phase.Base.Int.{pos}
use memory_management_phase.Vector.{Tokens, locality, of_tokens, phase_delimiter}
use memory_management_phase.Base.Word.{to_word}
use memory_management_phase.Main.Running.{IsLine}
use Prim.Native.Char.{Char, code}
use Prim.Native.String.{[] as no_text, ◌∷◌ as put_char}

abbrev put_first : Char → List String → List String
put_first c [] = put_char c no_text ∷ []
put_first c (w ∷ ws) = put_char c w ∷ ws

-- The pieces of a text between the characters with the code d, the empty ones too.
abbrev pieces : ℕ → String → List String
pieces d no_text = no_text ∷ []
pieces d (put_char c s) =
    let rest = pieces d s in if code c == d then no_text ∷ rest else put_first c rest

abbrev drop_empty : List String → List String
drop_empty [] = []
drop_empty (no_text ∷ ws) = drop_empty ws
drop_empty (put_char c s ∷ ws) = put_char c s ∷ drop_empty ws

abbrev first_code : String → ℕ
first_code no_text = 0
first_code (put_char c s) = code c

-- The number of the digits of a text, behind n.
abbrev number : ℕ → String → ℕ
number n no_text = n
number n (put_char c s) =
    number (if leb 48 (code c) && leb (code c) 57 then n * 10 + (code c - 48) else n) s

abbrev pub tokens : Tokens
tokens = record {
  strtok = λ line delimiter. drop_empty (pieces (first_code delimiter) line);
  atol = λ t. pos (number 0 t);
  atof = λ t. pos (1000 * number 0 t);
}

abbrev pub test_vector : List String
test_vector = "10, 5\n" ∷ "20, 15\n" ∷ "34, 9\n" ∷ "40, 12\n" ∷ "23, 12\n" ∷ []

of_tokens-IsLine :
    (line : String) (n w : ℕ)
    → of_tokens tokens false (tokens.strtok line phase_delimiter) ≡ locality n (pos w)
    → IsLine tokens false line
of_tokens-IsLine line n w e = record { alloc_cnt = n; wcet = pos w; fields = e }

pub vector-IsLine : All (IsLine tokens false) test_vector
unfolding of_tokens to_word
vector-IsLine = (
  of_tokens-IsLine "10, 5\n" 10 5000 refl,
  (
    of_tokens-IsLine "20, 15\n" 20 15000 refl,
    (
      of_tokens-IsLine "34, 9\n" 34 9000 refl,
      (of_tokens-IsLine "40, 12\n" 40 12000 refl, (of_tokens-IsLine "23, 12\n" 23 12000 refl, tt)),
    ),
  ),
)
