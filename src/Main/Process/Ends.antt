-- ===== src/Main/Process/Ends.antt =====
-- The process of mem_gobbler.c ends by no signal, whatever its options are, and with the counts of
-- its allocations.
use memory_management_phase.Base.{ℕ, [], true, false, ◌-◌, ◌%◌, ◌^◌, ◌≡◌, ℕ, Bool, List}
use memory_management_phase.Base.Int.{pos, negsuc}
use memory_management_phase.Machine.Host.{Host}
use memory_management_phase.Machine.State.{file, anon, State, Output, Note, Config}
use memory_management_phase.Machine.Run.{Run, Status, ok, minus_one, one}
use memory_management_phase.Output.{ExitLine, write_texts, format}
use memory_management_phase.Options.{Args, Parsed}
use memory_management_phase.Track.Pages.{tracked_pages}
use memory_management_phase.Valid.{IsValid}
use memory_management_phase.Main.Running.{Gobbled}
use memory_management_phase.Phase.Load.{least}
use memory_management_phase.Main.Safe.{Finished}
use memory_management_phase.Main.Process.{Ending, ended, going, exit_status}

-- The counts of the line are the pages of the tracked allocations of a valid state.
pub record IsExitLine (host : Host) (u : State) (line : ExitLine) : Type 0 where
  pub valid : IsValid u
  pub pid : line.pid ≡ host.pid
  pub files : line.file_cnt ≡ tracked_pages file u.alloc_track % 2 ^ 64
  pub anons : line.anon_cnt ≡ tracked_pages anon u.alloc_track % 2 ^ 64

-- The pages that every job asks for: without a vector those of -M, or 5 if they are drawn.
abbrev pub asked : (vector : Bool) → Config → ℕ
asked true c = 0
asked false c = least c

-- The line of a process in which no job has run.
pub record IsIdle (host : Host) (line : ExitLine) : Type 0 where
  pub pid : line.pid ≡ host.pid
  pub files : line.file_cnt ≡ 0
  pub anons : line.anon_cnt ≡ 0

-- With the status 0 the jobs have run, with the settings of a; with another one the options, or else
-- a full memory or a refused length have ended the process.
pub data IsEnding (host : Host) (parse : Parsed) : Ending → Type 0 where
  finished :
      {line : ExitLine} (a : Args) (u : State)
      → parse ≡ Parsed.ok a
      → Finished (write_texts format a.output) a.config a.verbose (a.max_phase - 1) u
      → Gobbled (asked a.config.vector a.config) u
      → IsExitLine host u line
      → IsEnding host parse (ended (pos 0) u.printed u.notes line)
  usage :
      {out : List Output} {line : ExitLine}
      → parse ≡ Parsed.one out
      → IsIdle host line
      → IsEnding host parse (ended (pos 1) out [] line)
  refused :
      {out : List Output} {line : ExitLine}
      → parse ≡ Parsed.minus_one out
      → IsIdle host line
      → IsEnding host parse (ended (negsuc 0) out [] line)
  exited :
      {out : List Output} {notes : List (ℕ × Note)} {line : ExitLine} (a : Args) (c : Status)
      → parse ≡ Parsed.ok a
      → line.pid ≡ host.pid
      → IsEnding host parse (ended (exit_status c) out notes line)
  still_going : {s : State} (a : Args) → parse ≡ Parsed.ok a → IsEnding host parse (going s)
