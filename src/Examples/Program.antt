-- ===== src/Examples/Program.antt =====
-- The whole program with a vector of one line.
use memory_management_phase.Base.{All, ◌<◌, ◌≤◌, ◌≡◌, refl, true, false, List, [], ◌∷◌, arith, some}
use memory_management_phase.Machine.State.{plain, mem_stride, t_secs}
use memory_management_phase.Machine.Returns.{Anyhow, Stays, Returns}
use memory_management_phase.Output.{
  write_texts, path_lines, print_paths, on_process_exit, usage_text,
}
use memory_management_phase.Vector.{of_tokens, locality_vector_init}
use memory_management_phase.Options.{Opt, Args, Parsed, parse_options, apply_option, initial}
use memory_management_phase.Stma.{PdLen}
use memory_management_phase.Options.Letters.{Getopt, read_options, read_letters, option_of}
use memory_management_phase.Machine.Run.{ok}
use memory_management_phase.Main.Running.{IsTimed, Gobbled, IsLine}
use memory_management_phase.Base.Word.{add64, to_word}
use memory_management_phase.Base.Int.{pos}
use memory_management_phase.Main.{main_loop}
use memory_management_phase.Main.Limit.{Stopped, main_loop-Stopped}
use memory_management_phase.Main.Start.{run_main, initial_state, run_main-Gobbled}
use memory_management_phase.Main.Process.{process, ended, stream_lines}
use memory_management_phase.Phase.Load.{least}
use memory_management_phase.Examples.Text.{tokens, test_vector}
use memory_management_phase.Examples.World.{host, host-IsHost, host-IsFair, files, state}

abbrev pub pd_len : PdLen
pd_len = record {
  open_rw = true;
  open_wb = true;
  fwrite = true;
  open_rb = true;
  read_back = λ stma ltma. (stma, ltma);
}

-- -p 10 -t 1 -V vector.csv
abbrev pub options : List Opt
options = Opt.max_phase 10 ∷ Opt.access 1 ∷ Opt.vector "vector.csv" ∷ []

abbrev pub args : Args
args = record {
  config = record {
    max_alloc_per_phase = 150;
    alloc_precision = false;
    max_limit = 100000000;
    speed = 0;
    access_type = mem_stride;
    alloc_size = 0;
    max_alloc_per_phase_byte = 0;
    vector = true;
    ipfvt = false;
    time_g = t_secs;
    stma = 0;
    ltma = 0;
  };
  max_phase = 10;
  verbose = true;
  wcet = pos 0;
  stream = some "vector.csv";
  output = plain "\n" ∷ plain "vector.csv" ∷ [];
}

pub options-parsed : parse_options 1 (λ _. true) options (initial 1) ≡ Parsed.ok args
unfolding initial parse_options apply_option locality_vector_init write_texts
options-parsed = refl

-- -p 10 -t 1 -V vector.csv, whatever the arguments are
abbrev getopt_three : Getopt
getopt_three = record {
  getopt = λ letters arguments. (b'p', "10") ∷ (b't', "1") ∷ (b'V', "vector.csv") ∷ [];
  atoll = λ t. pos 1;
}

-- The lines that main reads with the settings have two fields.
abbrev HasFields : Args → Type 0
HasFields a = All (IsLine tokens a.config.ipfvt) (stream_lines (λ _. test_vector) a.stream)

-- -h prints the usage and ends the process with 1.
usage-process :
    process host tokens pd_len
      (λ _. true)
      (λ _. [])
      files
      (record { getopt = λ letters arguments. (b'h', "") ∷ []; atoll = λ t. pos 0 })
      ("-h" ∷ [])
    ≡ ended
        (pos 1)
        (write_texts usage_text [])
        []
        (record { pid = 42; file_cnt = 0; anon_cnt = 0; minflt = 100; majflt = 2 })
unfolding process initial parse_options apply_option on_process_exit initial_state read_options
    read_letters option_of
usage-process = refl

-- Each path stands on a line.
print_paths-first :
    print_paths
      (record { size = 4096; paths = record { path = "a"; alloc = pos 0 } ∷ []; filled = false }
        ∷ [])
      state
    ≡ ok tt (record state { printed = plain "\n" ∷ plain "a" ∷ state.printed })
unfolding path_lines write_texts
print_paths-first = refl

over-limit : state.config.max_limit < add64 state.stats.file_cnt state.stats.anon_cnt
unfolding add64
over-limit = omega arith

main_loop-Stopped_example :
    Returns
      (λ _ t. Stopped 42 true 0 3 state t)
      (main_loop host tokens true 0 9 3 (pos 55000) [] state)
main_loop-Stopped_example =
    main_loop-Stopped host tokens 0 3 true 9 (pos 55000) [] state refl over-limit

one-Asks : IsTimed (λ alloc_cnt _. 1 ≤ alloc_cnt) tokens args.config.ipfvt "1,55"
unfolding of_tokens to_word
one-Asks = record {
  line_ok = record { alloc_cnt = 1; wcet = pos 55000; fields = refl };
  allowed = omega arith;
}

at_least : 1 ≤ least args.config
unfolding least
at_least = omega arith

run_main-Gobbled_example :
    Stays Anyhow
      (λ _ u. Gobbled 1 u)
      (run_main host tokens pd_len args ("1,55" ∷ []) (initial_state files args.config))
run_main-Gobbled_example =
    run_main-Gobbled host host-IsHost host-IsFair refl tokens pd_len (λ _. true) files options args
      ("1,55" ∷ []) (omega arith, tt) (omega arith) (omega arith) options-parsed (omega arith)
      (omega arith) refl 1 at_least (one-Asks, tt)
