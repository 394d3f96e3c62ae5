-- ===== src/Files/Table.antt =====
-- files.h: the generated table of files, and the names that its macro PATH makes.
pub mod Names
pub mod Order
use memory_management_phase.Base.{
  false, ℕ, zero, suc, ◌+◌, ◌*◌, ◌-◌, ◌/◌, ◌%◌, String, List, [], ◌∷◌, ◌++◌, ◌==◌, if◌then◌else◌,
}
use memory_management_phase.Base.Int.{pos}
use memory_management_phase.Machine.State.{FileEntry, FileClass}
use Prim.Native.Char.{Char, char}
use Prim.Native.String.{◌++◌ as append, [] as no_text, ◌∷◌ as put_char}

-- The character of a digit.
abbrev pub digit_char : ℕ → Char
digit_char zero = char 48 tt
digit_char (suc zero) = char 49 tt
digit_char (suc (suc zero)) = char 50 tt
digit_char (suc (suc (suc zero))) = char 51 tt
digit_char (suc (suc (suc (suc zero)))) = char 52 tt
digit_char (suc (suc (suc (suc (suc zero))))) = char 53 tt
digit_char (suc (suc (suc (suc (suc (suc zero)))))) = char 54 tt
digit_char (suc (suc (suc (suc (suc (suc (suc zero))))))) = char 55 tt
digit_char (suc (suc (suc (suc (suc (suc (suc (suc zero)))))))) = char 56 tt
digit_char _ = char 57 tt

-- The digits of a number that is at most `fuel`, the highest first.
unfoldable pub digits : (fuel n : ℕ) → List ℕ
digits zero n = n ∷ []
digits (suc fuel) n =
    let higher = digits fuel (n / 10) in if n / 10 == 0 then n ∷ [] else higher ++ (n % 10 ∷ [])

unfoldable pub text : List ℕ → String
text [] = no_text
text (d ∷ ds) = put_char (digit_char d) (text ds)

unfoldable pub decimal : ℕ → String
decimal n = text (digits n n)

-- PATH(4K_<n>.txt)
unfoldable pub path : ℕ → String
path n = append "/media/test_images/4K_" (append (decimal n) ".txt")

-- n entries, from the number i on
unfoldable pub entries : (n i : ℕ) → List FileEntry
entries zero i = []
entries (suc n) i = record { alloc = pos 0; path = path i } ∷ entries n (i + 1)

-- The NULL entry at the end is the end of the list.
unfoldable pub file_itema : List FileEntry
file_itema = entries 50000 1

-- enum file_len
abbrev pub max : ℕ
max = 1

unfoldable pub file_lst : List FileClass
file_lst = record { size = 4096; paths = file_itema; filled = false } ∷ []
