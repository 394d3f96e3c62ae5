-- ===== src/Precise/Main/Letters.antt =====
-- The letters of the options of precise_allocer.c.
use memory_management_phase.Base.{
  ℕ, ◌≡◌, ◌≢◌, false, none, some, List, [], ◌∷◌, String, arith, ◌==◌, if◌then◌else◌,
}
use memory_management_phase.Base.Word.{to_word}
use memory_management_phase.Options.Letters.{Getopt, takes_argument}
use memory_management_phase.Precise.Main.{Opt}

-- OPT
abbrev pub opt : List ℕ
opt = b'I' ∷ b'v' ∷ b'V' ∷ b':' ∷ b'h' ∷ b'S' ∷ b':' ∷ b'L' ∷ b':' ∷ []

module _ (g : Getopt) where
  unfoldable pub option_of : (c : ℕ) → (optarg : String) → Opt
  option_of c optarg =
      if c == b'v'
      then Opt.quiet
      else if c == b'V'
      then Opt.vector optarg
      else if c == b'I'
      then Opt.ipfvt
      else if c == b'S'
      then Opt.stma (to_word (g.atoll optarg))
      else if c == b'L'
      then Opt.ltma (to_word (g.atoll optarg))
      else Opt.usage

  unfoldable pub read_letters : List (ℕ × String) → List Opt
  read_letters [] = []
  read_letters ((c, optarg) ∷ rest) = option_of c optarg ∷ read_letters rest

  unfoldable pub read_options : (arguments : List String) → List Opt
  read_options arguments = read_letters (g.getopt opt arguments)

-- A letter that does not stand in OPT asks for the usage; one that stands in it and takes no argument
-- gives an option that does not depend on one; and of the letters of OPT only -h asks for the usage.
pub option_of-opt :
    (g : Getopt) (c : ℕ) (x y : String)
    → (takes_argument opt c ≡ none → option_of g c x ≡ Opt.usage)
      × (takes_argument opt c ≡ some false → option_of g c x ≡ option_of g c y)
      × (takes_argument opt c ≢ none → c ≢ b'h' → option_of g c x ≢ Opt.usage)
unfolding option_of takes_argument
option_of-opt g c x y = (λ h. ground arith, λ h. ground arith, λ h k. ground arith)
