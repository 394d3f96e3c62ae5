-- ===== src/Precise/Main.antt =====
-- precise_allocer.c: the options, and the loop of main, in which each job is one line of the vector.
-- get_nxt_alloc and reset_max_alloc_per_phase, which no header of these files declares, are taken
-- to be vector_mgr_get_nxt and the routine of mem_gobbler.c.
pub mod Letters
pub mod Safe
pub mod Start
use memory_management_phase.Base.{
  ◌+◌, ℕ, zero, suc, Bool, true, false, Option, none, some, List, [], ◌∷◌, String, ◌==◌, ◌&&◌,
  if◌then◌else◌,
}
use memory_management_phase.Base.Int.{ℤ, is_zero_ℤ}
use memory_management_phase.Machine.Host.{Host}
use memory_management_phase.Machine.State.{State, Output, Rusage, Granularity, t_secs, t_nano}
use memory_management_phase.Machine.Run.{
  Cmd, Status, minus_one, one, ok, exit, trap, segmentation, out_of_fuel, skip, modify, ask, ◌>>=◌,
  ◌>>◌,
}
use memory_management_phase.Vector.{Tokens, Locality, locality, null_token}
use memory_management_phase.Main.{print_line}
use memory_management_phase.Output.{write_texts, print_texts, format, file_max}
use memory_management_phase.Options.{reset_max_alloc_per_phase}
use memory_management_phase.Stma.{PdLen, Reset, set, failed, crashed}
use memory_management_phase.Precise.Time.{wctime}
use memory_management_phase.Precise.Vector.{Line, vector_mgr_get_nxt, reset_stma_ltma}
use memory_management_phase.Precise.Modules.{Modules}
use memory_management_phase.Precise.Files.{file_mgr_set_file_cnt}
use memory_management_phase.Precise.Alloc.{alloc_track_init}
use memory_management_phase.Precise.Job.{job}

pub data Opt : Type 0 where
  -- -v -I
  quiet ipfvt : Opt
  -- -V
  vector : String → Opt
  -- -S -L
  stma ltma : ℕ → Opt
  -- -h, and what getopt does not know
  usage : Opt

pub record Args : Type 0 where
  pub verbose : Bool
  pub vector : Bool
  pub ipfvt : Bool
  pub time_g : Granularity
  pub stma : ℕ
  pub ltma : ℕ
  pub stream : Option String

pub data Parsed : Type 0 where
  parsed : Args → Parsed
  -- with what has been printed
  ended : Status → List Output → Parsed

abbrev pub initial : Args
initial = record {
  verbose = true;
  vector = false;
  ipfvt = false;
  time_g = t_secs;
  stma = 0;
  ltma = 0;
  stream = none;
}

abbrev pub usage_text : List String
usage_text =
    "memgobble\n" ∷ "memgobble [options]\n" ∷ "List of options:\n"
    ∷ "\t-h                   : Display usage\n" ∷ "\t-v                   : Switch verbose off\n"
    ∷ "\t-V <File name>\t: Vector of localities\n" ∷ "\t-I\t\t: Vector is IPFVT\n"
    ∷ "\t if CUSTOM_LINUX_KERNEL defined, then\n" ∷ "\t\t -S <STMA Count>\t: STMA Value\n"
    ∷ "\t\t -L <LTMA Count>\t: LTMA Value\n" ∷ "\t endif\n" ∷ []

module _ (opens : String → Bool) where
  unfoldable pub apply_option : Opt → Args → Parsed
  apply_option Opt.quiet a = parsed (record a { verbose = false })
  apply_option Opt.ipfvt a = parsed (record a { ipfvt = true; time_g = t_nano })
  apply_option (Opt.vector path) a =
      if opens path
      then parsed (record a { vector = true; stream = some path })
      else ended minus_one []
  apply_option (Opt.stma n) a = parsed (record a { stma = n })
  apply_option (Opt.ltma n) a = parsed (record a { ltma = n })
  apply_option Opt.usage a = ended one (write_texts usage_text [])

  abbrev pub next_options : (Args → Parsed) → Parsed → Parsed
  next_options next (parsed a) = next a
  next_options next (ended c out) = ended c out

  unfoldable pub parse_options : List Opt → Args → Parsed
  parse_options [] a = parsed a
  parse_options (o ∷ os) a = next_options (parse_options os) (apply_option o a)

abbrev pub on_reset : Reset → Cmd (Unit {0})
on_reset (set _ _) = skip
on_reset failed = exit minus_one
on_reset crashed = λ s. trap segmentation

-- Init
unfoldable pub init : Host → PdLen → Args → Cmd (Unit {0})
init host fd a = do
  alloc_track_init host
  file_mgr_set_file_cnt host file_max
  if a.stma == 0 && a.ltma == 0 then skip else on_reset (reset_stma_ltma fd a.stma a.ltma)

module _ (host : Host) (m : Modules) (lib : Tokens) (a : Args) where
  -- What a line sets, before the rest of the round.
  abbrev pub take_line : Option Locality → (ℤ → Cmd (Unit {0})) → Cmd (Unit {0})
  take_line none next = skip
  take_line (some null_token) next = λ s. trap segmentation
  take_line (some (locality alloc_cnt wcet)) next =
      modify (λ s. record s { config = reset_max_alloc_per_phase alloc_cnt s.config }) >> next wcet

  abbrev pub print_job : Bool → (start cur_job : ℕ) → Rusage → Cmd (Unit {0})
  print_job true start cur_job res =
      wctime host a.time_g >>= λ now. modify (print_line host.pid start cur_job res a.time_g now)
  print_job false start cur_job res = skip

  -- The rest of a round: the job, and `next` if it does not return 0. The jobs return what is left
  -- in the result register of stabilise, one value for each.
  unfoldable pub round : (start cur_job : ℕ) → ℤ → (next : Cmd (Unit {0})) → ℤ → Cmd (Unit {0})
  round start cur_job indeterminate next wcet = ask host.getrusage >>= λ res.
      print_job a.verbose start cur_job res
      >> (job host m indeterminate wcet a.time_g >>= λ again.
          if is_zero_ℤ again then skip else next)

  -- The do loop with a vector; `start` is the reading of the wall clock before it.
  unfoldable pub vector_loop :
      (results : ℕ → ℤ) → (start cur_job : ℕ) → List String → Cmd (Unit {0})
  vector_loop results start cur_job [] =
      take_line (vector_mgr_get_nxt lib a.ipfvt []).locality (λ _. skip)
  vector_loop results start cur_job (line ∷ lines) =
      take_line (vector_mgr_get_nxt lib a.ipfvt (line ∷ lines)).locality
        (round start cur_job (results cur_job) (vector_loop results start (cur_job + 1) lines))

  -- Without one, for `fuel` jobs at most: the loop has no other end than a result of 0.
  unfoldable pub plain_loop :
      (fuel : ℕ) → (results : ℕ → ℤ) → (start cur_job : ℕ) → (wcet : ℤ) → Cmd (Unit {0})
  plain_loop zero results start cur_job wcet = out_of_fuel
  plain_loop (suc fuel) results start cur_job wcet =
      round start cur_job (results cur_job) (plain_loop fuel results start (cur_job + 1) wcet) wcet

  -- main behind the options; `wcet` is what the variable holds before a line sets it.
  unfoldable pub main :
      PdLen → (fuel : ℕ) → (results : ℕ → ℤ) → (wcet : ℤ) → List String → Cmd (Unit {0})
  main fd fuel results wcet lines = do
    init host fd a
    start ← wctime host a.time_g
    print_texts format
    if a.vector then vector_loop results start 0 lines else plain_loop fuel results start 0 wcet
