-- ===== src/Main/Start.antt =====
-- main of mem_gobbler.c behind its options: the state that the process starts in, what comes before
-- the jobs, and that none of it traps.
use memory_management_phase.Base.{
  All, ◌+◌, ◌*◌, ◌-◌, ℕ, zero, suc, ◌^◌, ◌<◌, ◌≤◌, ◌≡◌, ◌≢◌, true, refl, inl, inr, Bool, false,
  none, List, [], ◌∷◌, String, arith, length, ◌==◌, ◌&&◌, if◌then◌else◌, Bool-cases, subst,
}
use memory_management_phase.Base.Int.{ℤ, ◌≤ℤ◌, pos, negsuc, ◌+ℤ◌}
use memory_management_phase.Machine.Host.{Host, IsHost, IsFair}
use memory_management_phase.Machine.State.{file, anon, State, Config, FileClass}
use memory_management_phase.Machine.Run.{
  Cmd, exit, minus_one, trap, segmentation, skip, get, modify, ◌>>=◌, ◌>>◌,
}
use memory_management_phase.Machine.Returns
use memory_management_phase.Machine.Returns.{Anyhow, After, Stays, stays, leaves}
use memory_management_phase.Base.Word.{add64}
use memory_management_phase.Clock.{wctime, cpu_reading}
use memory_management_phase.Vector.{Tokens}
use memory_management_phase.Options.{Opt, Args, Parsed, parse_options, initial, wcet_ms}
use memory_management_phase.Options.Sane.{IsSane, Leaves, parse_options-initial}
use memory_management_phase.Stma.{
  PdLen, Reset, set, failed, crashed, reset_stma_ltma, reset_stma_ltma-returns,
}
use memory_management_phase.Track.{empty_list, alloc_track_init}
use memory_management_phase.Track.Pages.{tracked_pages-empty}
use memory_management_phase.Valid.{IsValid, sizes}
use memory_management_phase.Main.{run_jobs}
use memory_management_phase.Output.{write_texts, print_texts, format, set_file_cnt, file_max}
use memory_management_phase.Main.Running.{
  printed-IsValid, Any, Asks, IsTimed, All-IsTimed, mono_IsTimed, IsLine, Ran, Gobbled,
}
use memory_management_phase.Phase.Timely.{Ordered, Punctual, horizon-Ordered, horizon-Punctual}
use memory_management_phase.Phase.Load.{least}
use memory_management_phase.Main.Safe.{Finished, Loaded, run_jobs-Stays}
use memory_management_phase.Main.Log.{Printed}

unfoldable pub zeros : ℕ → List ℕ
zeros zero = []
zeros (suc n) = 0 ∷ zeros n

-- The initial values of the variables, with the settings that the options leave.
unfoldable pub initial_state : List FileClass → Config → State
initial_state files config = record {
  mem = λ _. none;
  calls = 0;
  files = files;
  curr = negsuc 0;
  alloc_track = λ _. empty_list;
  fix_head = [];
  stats = record { anon_cnt = 0; file_cnt = 0; phase_cnt = 0; total_alloc_pages = 0 };
  config = config;
  in_transition = false;
  alloc_nomore = false;
  type_cnt = 0;
  num = zeros 4096;
  printed = [];
  notes = [];
}

abbrev pub on_reset : Reset → Cmd (Unit {0})
on_reset (set _ _) = skip
on_reset failed = exit minus_one
on_reset crashed = λ s. trap segmentation

-- The lengths are reset if one of them is given.
unfoldable pub set_lengths : PdLen → Cmd (Unit {0})
set_lengths fd s =
    if s.config.stma == 0 && s.config.ltma == 0
    then skip s
    else on_reset (reset_stma_ltma fd s.config.stma s.config.ltma) s

-- main behind the options, with the lines of the vector file. What the options have printed stands
-- in a.output.
unfoldable pub run_main : Host → Tokens → PdLen → Args → List String → Cmd (Unit {0})
run_main host lib fd a lines = do
  modify (λ s. record s { printed = a.output })
  t ← get (λ s. s.config.time_g)
  start ← wctime host t
  alloc_track_init host
  set_file_cnt host file_max
  set_lengths fd
  print_texts format
  run_jobs host lib a.verbose start a.max_phase (wcet_ms a) lines

set_lengths-same :
    (Q : State → Type 0) (fd : PdLen) (s : State)
    → fd.open_rb ≡ true
    → Stays Q (λ _ t. t ≡ s) (set_lengths fd s)
unfolding set_lengths
set_lengths-same Q fd s reopens = elim (Bool-cases (s.config.stma == 0 && s.config.ltma == 0)) [
  | inl neither ↦ rw neither (stays refl)
  | inr given ↦ rw given (
      reset (reset_stma_ltma fd s.config.stma s.config.ltma)
        (reset_stma_ltma-returns fd s.config.stma s.config.ltma reopens))
]
  where
    reset : (r : Reset) → r ≢ crashed → Stays Q (λ _ t. t ≡ s) (on_reset r s)
    reset (set _ _) h = stays refl
    reset failed h = leaves
    reset crashed h = absurd (h refl)

-- The state before the jobs.
unfoldable pub started : List FileClass → Config → State
unfolding initial_state
started files config = record (initial_state files config) { calls = 3 }

pub started-IsValid :
    (files : List FileClass) (config : Config)
    → All (λ n. 4096 ≤ n) (sizes files)
    → length (sizes files) < 2 ^ 31
    → IsSane (length (sizes files)) config
    → IsValid (started files config)
unfolding started initial_state add64
started-IsValid files config big short sane = record {
  tracked = λ p i h. absurd (omega arith);
  fixed = tt;
  big = big;
  speed = sane.speed;
  short = short;
  cap = sane.cap;
  access = sane.access;
  total = none_counted;
  counted = record {
    files = omega (arith, tracked_pages-empty file);
    anons = omega (arith, tracked_pages-empty anon);
  };
}
  where
    none_counted : 0 ≡ add64 0 0
    none_counted = refl

pub first_phase : negsuc 0 +ℤ pos 1 ≡ pos 0
unfolding ◌+ℤ◌
first_phase = refl

module _ (host : Host) (std : IsHost host) (fair : IsFair host) (page : host.page_size ≡ 4096)
    (lib : Tokens) (fd : PdLen) (opens : String → Bool) (files : List FileClass) (os : List Opt)
    (a : Args) (lines : List String) (big : All (λ n. 4096 ≤ n) (sizes files))
    (some_class : 0 < length (sizes files)) (short : length (sizes files) < 2 ^ 31)
    (parsed : parse_options (length (sizes files)) opens os (initial (length (sizes files)))
      ≡ Parsed.ok a)
    (word : a.config.max_alloc_per_phase < 2 ^ 64) (few : a.max_phase ≤ 60001)
    (reopens : fd.open_rb ≡ true) where
  finished :
      (m : ℕ) (Q : State → Type 0) (Allowed : ℤ → Type 0)
      → m ≤ least a.config
      → Ordered host Q a.config.time_g
      → ((exec_time : ℤ)
          → Allowed exec_time
          → (c : ℕ) → Punctual host Q a.config.time_g exec_time c)
      → Allowed (wcet_ms a)
      → All (IsTimed (Asks m Allowed) lib a.config.ipfvt) lines
      → Stays Q
          (λ _ u. Loaded m (write_texts format a.output) a.config a.verbose (a.max_phase - 1) u)
          (run_main host lib fd a lines (initial_state files a.config))
  unfolding run_main initial_state wctime alloc_track_init set_file_cnt started
  finished m Q Allowed enough ordered punctual w ls =
      let sane =
        subst (λ r. Leaves (λ b. IsSane (length (sizes files)) b.config) r) parsed
          (parse_options-initial (length (sizes files)) opens os some_class) in
      let valid = started-IsValid files a.config big short sane in
      elim (Bool-cases (host.malloc 1)) [
        | inr full ↦ rw full leaves
        | inl found ↦ rw found (
            Returns.bind_Stays
              (set_lengths-same Q fd (record (started files a.config) { printed = a.output })
                reopens)
              λ _ t same. rw same (
                run_jobs-Stays host std fair page m lib a.verbose _ (write_texts format a.output)
                  a.config Q Allowed ordered punctual a.max_phase (wcet_ms a) lines
                  (record (started files a.config) { printed = write_texts format a.output }) refl
                  (printed-IsValid _ (started files a.config) valid) word enough refl first_phase
                  refl few w ls))
      ]

  pub loaded :
      (m : ℕ)
      → m ≤ least a.config
      → All (IsTimed (λ alloc_cnt _. m ≤ alloc_cnt) lib a.config.ipfvt) lines
      → Stays Anyhow
          (λ _ u. Loaded m (write_texts format a.output) a.config a.verbose (a.max_phase - 1) u)
          (run_main host lib fd a lines (initial_state files a.config))
  loaded m enough ls =
      finished m Anyhow Any enough (λ n k h. inr λ w j. tt) (λ e h c. inr λ w j. tt) tt
        (mono_IsTimed lib a.config.ipfvt lines (λ n e h. (h, tt)) ls)

  module _ (ls : All (IsLine lib a.config.ipfvt) lines) where
    anyhow :
        Stays Anyhow
          (λ _ u. Finished (write_texts format a.output) a.config a.verbose (a.max_phase - 1) u)
          (run_main host lib fd a lines (initial_state files a.config))
    anyhow =
        Returns.mono_Stays
          (loaded 0 (omega arith)
            (All-IsTimed (λ n _. 0 ≤ n) lib a.config.ipfvt lines (λ n e. omega arith) ls))
          λ _ _ end. end.0

    -- On a host that is as IsHost says, whose generator is fair, and with pages of 4096 bytes:
    -- with options that do not end the process, a table of files that is not empty, whose classes
    -- hold pages and are fewer than 2 ^ 31, a count of pages that is a word, at most 60001 phases,
    -- a vector whose lines have two fields, and a file of the lengths that the third fopen finds,
    -- the program does not trap: it returns in a valid state, whose page counters are those of the
    -- tracked allocations and whose phase is below the number of phases less one, ends the process
    -- by exit, or holds for longer than the holding loop is followed.
    pub run_main-Stays :
        Stays Anyhow
          (λ _ u. Ran (a.max_phase - 1) u)
          (run_main host lib fd a lines (initial_state files a.config))
    run_main-Stays = Returns.mono_Stays anyhow λ _ _ end. end.0

    -- On a host that is as IsHost says, whose generator is fair, and with pages of 4096 bytes:
    -- with options that do not end the process, a table of files that is not empty, whose classes
    -- hold pages and are fewer than 2 ^ 31, a count of pages that is a word, at most 60001 phases,
    -- a vector whose lines have two fields, and a file of the lengths that the third fopen finds,
    -- the program does not trap, and when it returns it has printed, behind what the options
    -- printed and the texts of `format`, the lines of at most max_phase jobs (of one, if max_phase
    -- is 0), numbered from 0, with the sum of the file and anonymous pages, of which only the last
    -- may have a sum above max_limit; if it is quiet, it has printed no line of a job.
    pub run_main-Printed :
        Stays Anyhow
          (λ _ u.
            Printed (write_texts format a.output) a.config.max_limit a.verbose (a.max_phase - 1) u)
          (run_main host lib fd a lines (initial_state files a.config))
    run_main-Printed = Returns.mono_Stays anyhow λ _ _ end. end.1

  -- On a host that is as IsHost says, whose generator is fair, and with pages of 4096 bytes: with
  -- options that do not end the process, a table of files that is not empty, whose classes hold
  -- pages and are fewer than 2 ^ 31, a count of pages that is a word, at most 60001 phases, a
  -- vector whose lines have two fields, and a file of the lengths that the third fopen finds, if
  -- the settings that the options leave ask for at least m pages (5, if the count is not precise)
  -- and each line of the vector for as many, the program does not trap, and when it returns, the
  -- tracked allocations have at least m pages for each phase that has begun, or a class of files
  -- has no free file left.
  pub run_main-Gobbled :
      (m : ℕ)
      → m ≤ least a.config
      → All (IsTimed (λ alloc_cnt _. m ≤ alloc_cnt) lib a.config.ipfvt) lines
      → Stays Anyhow
          (λ _ u. Gobbled m u)
          (run_main host lib fd a lines (initial_state files a.config))
  run_main-Gobbled m enough ls = Returns.mono_Stays (loaded m enough ls) λ _ _ end. end.1

  -- On a host that is as IsHost says, whose generator is fair, and with pages of 4096 bytes: with
  -- options that do not end the process, a table of files that is not empty, whose classes hold
  -- pages and are fewer than 2 ^ 31, a count of pages that is a word, at most 60001 phases, a
  -- vector whose lines have two fields, a file of the lengths that the third fopen finds, and a
  -- process clock that up to the call `horizon` does not go back and passes `longest` thousandths
  -- in as many calls as the holding loop is followed for, no execution time, of the options or of
  -- a line, being longer: the program returns in a valid state, whose phase is below the number of
  -- phases less one, ends the process by exit, or has made more than `horizon` calls of the host.
  pub run_main-After :
      (horizon longest : ℕ)
      → ((n m : ℕ)
          → n ≤ m
          → m ≤ horizon
          → cpu_reading host a.config.time_g n ≤ cpu_reading host a.config.time_g m)
      → ((c : ℕ)
          → c + host.ticks ≤ horizon
          → 1000 * cpu_reading host a.config.time_g c + longest
            ≤ 1000 * cpu_reading host a.config.time_g (c + host.ticks))
      → wcet_ms a ≤ℤ pos longest
      → All (IsTimed (λ _ e. e ≤ℤ pos longest) lib a.config.ipfvt) lines
      → Stays
          (After horizon)
          (λ _ u. Ran (a.max_phase - 1) u)
          (run_main host lib fd a lines (initial_state files a.config))
  run_main-After horizon longest ordered passes w ls =
      Returns.mono_Stays
        (finished 0 (After horizon) (λ e. e ≤ℤ pos longest) (omega arith)
          (horizon-Ordered host a.config.time_g horizon longest ordered passes)
          (horizon-Punctual host a.config.time_g horizon longest ordered passes) w
          (mono_IsTimed lib a.config.ipfvt lines (λ n e h. (omega arith, h)) ls))
        λ _ _ end. end.0.0
