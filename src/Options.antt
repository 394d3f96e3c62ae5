-- ===== src/Options.antt =====
-- The command line of mem_gobbler.c, as getopt hands it to main: each option with the number that
-- atol or atoll reads from its argument, as a word.
pub mod Sane
pub mod Letters
use memory_management_phase.Base.{
  ℕ, zero, suc, ◌-◌, ◌*◌, ◌%◌, ◌^◌, Bool, true, false, Option, none, some, List, [], ◌∷◌, String,
  leb, ◌==◌, if◌then◌else◌,
}
use memory_management_phase.Base.Word.{mul64}
use memory_management_phase.Machine.State.{
  Output, Config, MemPattern, mem_fix, mem_stride, mem_seq, mem_rep, mem_rand, mem_max, t_secs,
  t_nano,
}
use memory_management_phase.Base.Int.{ℤ, pos, pos_part, neg_part, sub_ℕ, is_zero_ℤ}
use memory_management_phase.Output.{write_texts, usage_text}
use memory_management_phase.Vector.{locality_vector_init}

pub data Opt : Type 0 where
  -- -p -l -M -s -t -A -S -L, and -e
  max_phase max_limit max_alloc speed access alloc_size stma ltma : ℕ → Opt
  exec_time : ℤ → Opt
  -- -v -I
  quiet ipfvt : Opt
  -- -V
  vector : String → Opt
  -- -h, and what getopt does not know
  usage : Opt

-- The settings, and the locals of main that the options set. `wcet` is a whole number.
pub record Args : Type 0 where
  pub config : Config
  pub max_phase : ℕ
  pub verbose : Bool
  pub wcet : ℤ
  -- the file that vector_stream reads
  pub stream : Option String
  -- what has been printed, the last write first
  pub output : List Output

pub data Parsed : Type 0 where
  ok : Args → Parsed
  -- exit(-1) and exit(1), with what has been printed
  minus_one one : List Output → Parsed

unfoldable pub reset_max_alloc_per_phase : ℕ → Config → Config
reset_max_alloc_per_phase alloc_cnt c = record c {
  max_alloc_per_phase = alloc_cnt;
  alloc_precision = true;
  max_alloc_per_phase_byte = mul64 alloc_cnt 4096;
}

-- The initial values of the variables; `max` is the number of classes of files.h.
unfoldable pub initial : (max : ℕ) → Args
initial max = record {
  config = record {
    max_alloc_per_phase = 150;
    alloc_precision = false;
    max_limit = 100000000;
    speed = max - 1;
    access_type = mem_rand;
    alloc_size = 0;
    max_alloc_per_phase_byte = 0;
    vector = false;
    ipfvt = false;
    time_g = t_secs;
    stma = 0;
    ltma = 0;
  };
  max_phase = 60000;
  verbose = true;
  wcet = pos 0;
  stream = none;
  output = [];
}

-- The number as an enum mem_pattern_types; MEM_MAX and what is above are refused.
abbrev pub mem_pattern : ℕ → Option MemPattern
mem_pattern zero = some mem_fix
mem_pattern (suc zero) = some mem_stride
mem_pattern (suc (suc zero)) = some mem_seq
mem_pattern (suc (suc (suc zero))) = some mem_rep
mem_pattern (suc (suc (suc (suc zero)))) = some mem_rand
mem_pattern _ = none

abbrev pub set_config : Args → Config → Parsed
set_config a c = ok (record a { config = c })

abbrev pub set_pattern : Args → Option MemPattern → Parsed
set_pattern a none = minus_one a.output
set_pattern a (some k) = set_config a (record (a.config) { access_type = k })

abbrev pub next_options : (Args → Parsed) → Parsed → Parsed
next_options rest (ok a) = rest a
next_options rest (minus_one out) = minus_one out
next_options rest (one out) = one out

module _ (max : ℕ) (opens : String → Bool) where
  -- One round of the loop over the options.
  unfoldable pub apply_option : Opt → Args → Parsed
  apply_option (Opt.max_phase n) a = ok (record a { max_phase = n })
  apply_option (Opt.max_limit n) a = set_config a (record (a.config) { max_limit = n })
  apply_option Opt.quiet a = ok (record a { verbose = false })
  apply_option (Opt.exec_time n) a = ok (record a { wcet = n })
  apply_option (Opt.max_alloc n) a = set_config a (reset_max_alloc_per_phase n a.config)
  apply_option (Opt.speed n) a =
      set_config a (record (a.config) { speed = if leb max n then max - 1 else n })
  apply_option (Opt.access n) a = set_pattern a (mem_pattern n)
  apply_option (Opt.alloc_size n) a =
      set_config a (record (a.config) { alloc_size = n; alloc_precision = true })
  apply_option (Opt.vector path) a =
      if locality_vector_init opens (some path) == 0
      then ok (record a {
        config = record (a.config) { vector = true };
        stream = some path;
        output = write_texts (path ∷ "\n" ∷ []) a.output;
      })
      else minus_one (write_texts (path ∷ "\n" ∷ []) a.output)
  apply_option Opt.ipfvt a = set_config a (record (a.config) { ipfvt = true; time_g = t_nano })
  apply_option (Opt.stma n) a = set_config a (record (a.config) { stma = n })
  apply_option (Opt.ltma n) a = set_config a (record (a.config) { ltma = n })
  apply_option Opt.usage a = one (write_texts usage_text a.output)

  unfoldable pub parse_options : List Opt → Args → Parsed
  parse_options [] a = ok a
  parse_options (o ∷ os) a = next_options (parse_options os) (apply_option o a)

-- wcet_ms, in thousandths
unfoldable pub wcet_ms : Args → ℤ
wcet_ms a =
    if is_zero_ℤ a.wcet
    then pos (55 * 1000)
    else sub_ℕ (pos_part a.wcet * 1000) (neg_part a.wcet * 1000)
