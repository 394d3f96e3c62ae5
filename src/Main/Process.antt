-- ===== src/Main/Process.antt =====
-- The process of mem_gobbler.c: its options, main behind them, and the destructor that the C runtime
-- calls when main returns or exit is called.
pub mod Ready
pub mod Ends
use memory_management_phase.Base.{
  All, ℕ, ◌-◌, ◌%◌, ◌^◌, ◌<◌, ◌≤◌, ◌≡◌, ◌≢◌, refl, subst, Bool, Option, none, some, List, [],
  String, arith, length, ◌==◌, Bool-cases, inl, inr,
}
use memory_management_phase.Base.Int.{ℤ, pos, negsuc}
use memory_management_phase.Machine.Host.{Host, IsHost, IsFair}
use memory_management_phase.Machine.State.{file, anon, State, Output, Note, FileClass, MemPattern}
use memory_management_phase.Machine.Run.{
  Run, ok, exit, trap, out_of_fuel, Trap, Status, minus_one, one,
}
use memory_management_phase.Machine.Returns.{Anyhow, Stays, stays, leaves, unfinished}
use memory_management_phase.Output.{ExitLine, on_process_exit, write_texts, format}
use memory_management_phase.Vector.{Tokens, locality_vector_init}
use memory_management_phase.Options.{
  Opt, Args, Parsed, parse_options, initial, apply_option, reset_max_alloc_per_phase, mem_pattern,
  set_pattern,
}
use memory_management_phase.Options.Sane.{Leaves, parse_options-Leaves}
use memory_management_phase.Options.Letters.{Getopt, read_options}
use memory_management_phase.Stma.{PdLen}
use memory_management_phase.Track.Pages.{tracked_pages}
use memory_management_phase.Valid.{IsValid, sizes}
use memory_management_phase.Main.Running.{IsLine}
use memory_management_phase.Main.Safe.{Finished}
use memory_management_phase.Main.Start.{run_main, initial_state}

-- How the process ends: with a status, what it has printed, with its notes, and the line at the exit; by a signal,
-- on which no destructor is called; or not in the rounds that its loops are followed for.
pub data Ending : Type 0 where
  ended : (status : ℤ) → (printed : List Output) → (notes : List (ℕ × Note)) → ExitLine → Ending
  crashed : Trap → Ending
  going : State → Ending

abbrev pub exit_status : Status → ℤ
exit_status minus_one = negsuc 0
exit_status one = pos 1

-- The lines of the file that vector_stream reads, if there is one.
abbrev pub stream_lines : (reads : String → List String) → Option String → List String
stream_lines reads none = []
stream_lines reads (some path) = reads path

module _ (host : Host) (lib : Tokens) (fd : PdLen) (opens : String → Bool)
    (reads : String → List String) (files : List FileClass) where
  abbrev pub at_exit : (status : ℤ) → State → Ending
  at_exit status s = ended status s.printed s.notes (on_process_exit host s)

  -- main returns 0.
  abbrev pub end_of_run : Run (Unit {0}) → Ending
  end_of_run (ok _ s) = at_exit (pos 0) s
  end_of_run (exit c s) = at_exit (exit_status c) s
  end_of_run (trap t) = crashed t
  end_of_run (out_of_fuel s) = going s

  -- With what the options have printed.
  abbrev pub before_main : List Output → State
  before_main out = record (initial_state files (initial (length (sizes files))).config) {
    printed = out;
  }

  abbrev pub main_of : Parsed → Ending
  main_of (Parsed.ok a) =
      end_of_run
        (run_main host lib fd a (stream_lines reads a.stream) (initial_state files a.config))
  main_of (Parsed.minus_one out) = at_exit (exit_status minus_one) (before_main out)
  main_of (Parsed.one out) = at_exit (exit_status one) (before_main out)

  -- The whole program, from its arguments on.
  unfoldable pub process : Getopt → (arguments : List String) → Ending
  process g arguments = main_of (
      parse_options (length (sizes files)) opens (read_options g lib arguments)
        (initial (length (sizes files))))
