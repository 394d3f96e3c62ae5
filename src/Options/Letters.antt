-- ===== src/Options/Letters.antt =====
-- The letters of the options of main: OPT, which getopt reads, and the switch over what it returns.
-- getopt, atol and atoll are the C library's.
use memory_management_phase.Base.{
  ℕ, ◌≡◌, ◌≢◌, Bool, false, Option, none, some, List, [], ◌∷◌, String, arith, ◌==◌, ◌&&◌, not,
  if◌then◌else◌,
}
use memory_management_phase.Base.Int.{ℤ}
use memory_management_phase.Base.Word.{to_word}
use memory_management_phase.Vector.{Tokens}
use memory_management_phase.Options.{Opt}

-- getopt: the options of the arguments, each with its letter, or '?' if it is not one of the letters
-- it is given, and with optarg.
pub record Getopt : Type 0 where
  pub getopt : List ℕ → List String → List (ℕ × String)
  pub atoll : String → ℤ

-- OPT
abbrev pub opt : List ℕ
opt =
    b'I' ∷ b'v' ∷ b'p' ∷ b':' ∷ b'l' ∷ b':' ∷ b'e' ∷ b':' ∷ b'M' ∷ b':' ∷ b's' ∷ b':' ∷ b't' ∷ b':'
    ∷ b'A' ∷ b':' ∷ b'V' ∷ b':' ∷ b'h' ∷ b'S' ∷ b':' ∷ b'L' ∷ b':' ∷ []

module _ (g : Getopt) (lib : Tokens) where
  -- The switch. A number is a word.
  unfoldable pub option_of : (c : ℕ) → (optarg : String) → Opt
  option_of c optarg =
      if c == b'p'
      then Opt.max_phase (to_word (lib.atol optarg))
      else if c == b'l'
      then Opt.max_limit (to_word (lib.atol optarg))
      else if c == b'v'
      then Opt.quiet
      else if c == b'e'
      then Opt.exec_time (lib.atol optarg)
      else if c == b'M'
      then Opt.max_alloc (to_word (lib.atol optarg))
      else if c == b's'
      then Opt.speed (to_word (lib.atol optarg))
      else if c == b't'
      then Opt.access (to_word (lib.atol optarg))
      else if c == b'A'
      then Opt.alloc_size (to_word (lib.atol optarg))
      else if c == b'V'
      then Opt.vector optarg
      else if c == b'I'
      then Opt.ipfvt
      else if c == b'S'
      then Opt.stma (to_word (g.atoll optarg))
      else if c == b'L'
      then Opt.ltma (to_word (g.atoll optarg))
      else Opt.usage

  unfoldable pub read_letters : List (ℕ × String) → List Opt
  read_letters [] = []
  read_letters ((c, optarg) ∷ rest) = option_of c optarg ∷ read_letters rest

  unfoldable pub read_options : (arguments : List String) → List Opt
  read_options arguments = read_letters (g.getopt opt arguments)

-- Whether the first letter is a colon.
abbrev colon_first : List ℕ → Bool
colon_first [] = false
colon_first (c ∷ _) = c == b':'

-- Whether a letter of a string for getopt takes an argument, if it stands in it.
unfoldable pub takes_argument : List ℕ → ℕ → Option Bool
takes_argument [] c = none
takes_argument (o ∷ os) c =
    let rest = takes_argument os c in
    if o == c && not (o == b':') then some (colon_first os) else rest

-- A letter that does not stand in OPT asks for the usage; one that stands in it and takes no argument
-- gives an option that does not depend on one; and of the letters of OPT only -h asks for the usage.
pub option_of-opt :
    (g : Getopt) (lib : Tokens) (c : ℕ) (x y : String)
    → (takes_argument opt c ≡ none → option_of g lib c x ≡ Opt.usage)
      × (takes_argument opt c ≡ some false → option_of g lib c x ≡ option_of g lib c y)
      × (takes_argument opt c ≢ none → c ≢ b'h' → option_of g lib c x ≢ Opt.usage)
unfolding option_of takes_argument
option_of-opt g lib c x y = (λ h. ground arith, λ h. ground arith, λ h k. ground arith)
