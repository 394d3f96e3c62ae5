-- ===== src/Precise/Main/Start.antt =====
-- main of precise_allocer.c: the state before its jobs, and that none of it traps.
use memory_management_phase.Base.{
  All, ◌*◌, ◌-◌, ℕ, ◌+◌, ◌^◌, ◌<◌, ◌≤◌, ◌≡◌, ◌≢◌, refl, Bool, true, false, List, [], String, arith,
  length, ◌==◌, ◌&&◌, Bool-cases, inl, inr, if◌then◌else◌,
}
use memory_management_phase.Base.Int.{ℤ, pos, ◌≤ℤ◌}
use memory_management_phase.Machine.Host.{Host, IsHost, IsFair}
use memory_management_phase.Machine.State.{State, Config, FileClass}
use memory_management_phase.Machine.Run.{skip}
use memory_management_phase.Machine.Returns
use memory_management_phase.Machine.Returns.{Anyhow, After, Stays, stays, leaves}
use memory_management_phase.Clock
use memory_management_phase.Clock.{cpu_reading}
use memory_management_phase.Phase.Timely.{Ordered, Punctual, horizon-Ordered, horizon-Punctual}
use memory_management_phase.Vector.{Tokens}
use memory_management_phase.Options.Sane.{IsSane}
use memory_management_phase.Stma.{PdLen, Reset, set, failed, crashed, reset_stma_ltma-returns}
use memory_management_phase.Track
use memory_management_phase.Track.{phase_index}
use memory_management_phase.Valid.{sizes}
use memory_management_phase.Main.Running.{printed-IsValid, IsLine, IsTimed, Any, All-IsTimed}
use memory_management_phase.Main.Start.{initial_state, started, started-IsValid, first_phase}
use memory_management_phase.Precise.Vector.{reset_stma_ltma}
use memory_management_phase.Precise.Modules.{Modules, IsModules}
use memory_management_phase.Precise.Main.{Args, on_reset, init, main, vector_loop, plain_loop}
use memory_management_phase.Output.{write_texts, format, set_file_cnt}
use memory_management_phase.Main.Log.{IsLog, nothing, shown}
use memory_management_phase.Precise.Main.Safe.{IsAt, Worked, vector_loop-Stays, plain_loop-Stays}

-- How many jobs there are at most: the lines, or without a vector those that the loop is followed
-- for.
abbrev pub jobs_of : (vector : Bool) → List String → (fuel : ℕ) → ℕ
jobs_of true lines fuel = length lines
jobs_of false lines fuel = fuel

jobs_of-on :
    (vector : Bool) (lines : List String) (fuel : ℕ)
    → vector ≡ true
    → jobs_of vector lines fuel ≡ length lines
jobs_of-on true lines fuel on = refl
jobs_of-on false lines fuel on = cc

module _ (host : Host) (std : IsHost host) (fair : IsFair host) (page : host.page_size ≡ 4096)
    (m : Modules) (law : IsModules m) (lib : Tokens) (a : Args) (Q : State → Type 0)
    (Allowed : ℤ → Type 0) (ordered : Ordered host Q a.time_g)
    (punctual : (exec_time : ℤ)
      → Allowed exec_time
      → (c : ℕ) → Punctual host Q a.time_g exec_time c) where
  lengths-same :
      (fd : PdLen) (s : State)
      → fd.open_rb ≡ true
      → Stays Q
          (λ _ t. t ≡ s)
          ((if a.stma == 0 && a.ltma == 0
              then skip
              else on_reset (reset_stma_ltma fd a.stma a.ltma))
            s)
  lengths-same fd s reopens = elim (Bool-cases (a.stma == 0 && a.ltma == 0)) [
    | inl neither ↦ rw neither (stays refl)
    | inr given ↦ rw given (
        reset (reset_stma_ltma fd a.stma a.ltma) (reset_stma_ltma-returns fd a.stma a.ltma reopens))
  ]
    where
      reset : (r : Reset) → r ≢ crashed → Stays Q (λ _ t. t ≡ s) (on_reset r s)
      reset (set _ _) h = stays refl
      reset failed h = leaves
      reset crashed h = absurd (h refl)

  -- The loops, with a vector and without one.
  loops-Stays :
      (fuel : ℕ) (results : ℕ → ℤ) (wcet : ℤ) (lines : List String) (start : ℕ) (s : State)
      (vector : Bool)
      → jobs_of vector lines fuel ≤ 60000
      → (vector ≡ false → Allowed wcet × ((w : State) → Q w))
      → All (IsTimed (λ _. Allowed) lib a.ipfvt) lines
      → IsAt a.verbose 0 s
      → Stays Q
          (λ _ u. Worked a.verbose (jobs_of vector lines fuel) u)
          ((if vector
              then vector_loop host m lib a results start 0 lines
              else plain_loop host m lib a fuel results start 0 wcet)
            s)
  loops-Stays fuel results wcet lines start s true few plain ls h =
      vector_loop-Stays host std fair page m law lib a Q Allowed ordered punctual results
        (length lines) start 0 lines s (omega arith) few ls h
  loops-Stays fuel results wcet lines start s false few plain ls h =
      let unlimited = plain refl in
      plain_loop-Stays host std fair page m law lib a Q Allowed ordered punctual unlimited.1 fuel
        results fuel start 0 wcet s (omega arith) few unlimited.0 h

  main-ok :
      (fd : PdLen) (fuel : ℕ) (results : ℕ → ℤ) (wcet : ℤ) (lines : List String)
      (files : List FileClass) (config : Config)
      → fd.open_rb ≡ true
      → All (λ n. 4096 ≤ n) (sizes files)
      → length (sizes files) < 2 ^ 31
      → IsSane (length (sizes files)) config
      → jobs_of a.vector lines fuel ≤ 60000
      → (a.vector ≡ false → Allowed wcet × ((w : State) → Q w))
      → All (IsTimed (λ _. Allowed) lib a.ipfvt) lines
      → Stays Q
          (λ _ u. Worked a.verbose (jobs_of a.vector lines fuel) u)
          (main host m lib a fd fuel results wcet lines (initial_state files config))
  unfolding main init set_file_cnt Clock.wctime Track.alloc_track_init initial_state started
  main-ok fd fuel results wcet lines files config reopens big short sane few plain ls =
      let valid = started-IsValid files config big short sane in
      elim (Bool-cases (host.malloc 0)) [
        | inr full ↦ rw full leaves
        | inl found ↦ rw found (
            Returns.bind_Stays
              (lengths-same fd (record (started files config) { calls = 2 }) reopens)
              λ _ t same. rw same (
                loops-Stays fuel results wcet lines _ _ a.vector few plain ls (record {
                  valid = printed-IsValid _ (started files config) valid;
                  phase = first_phase;
                  loaded = omega arith;
                  log = first_log a.verbose;
                })))
      ]
    where
      first_log :
          (verbose : Bool)
          → IsLog (write_texts format []) (2 ^ 64 - 1) (shown verbose 0) (write_texts format [])
      first_log true = nothing
      first_log false = nothing

module _ (host : Host) (std : IsHost host) (fair : IsFair host) (page : host.page_size ≡ 4096)
    (m : Modules) (law : IsModules m) (lib : Tokens) (a : Args) where
  -- On a host that is as IsHost says, whose generator is fair, with pages of 4096 bytes, and with
  -- modules that are as IsModules says: main of precise_allocer.c does not trap, whatever
  -- stabilise leaves as its results, with lines that have two fields, a file of the lengths that
  -- the third fopen finds, a table of fewer than 2 ^ 31 classes that hold pages, and sane
  -- settings, if there are at most 60000 lines or, without a vector, the loop is followed for at
  -- most 60000 jobs. It returns in a valid state, ends the process by exit, or goes on for longer
  -- than its loops are followed. When it returns, as many jobs as phases have begun, and the
  -- tracked allocations have at least as many pages in all; the jobs are at most one for each line
  -- of the vector, or as many as the loop without one is followed for, and, if lines are printed,
  -- the output has one line for each job, numbered from 0, with the sum of its counts.
  pub main-Stays :
      (fd : PdLen) (fuel : ℕ) (results : ℕ → ℤ) (wcet : ℤ) (lines : List String)
      (files : List FileClass) (config : Config)
      → fd.open_rb ≡ true
      → All (λ n. 4096 ≤ n) (sizes files)
      → length (sizes files) < 2 ^ 31
      → IsSane (length (sizes files)) config
      → jobs_of a.vector lines fuel ≤ 60000
      → All (IsLine lib a.ipfvt) lines
      → Stays Anyhow
          (λ _ u. Worked a.verbose (jobs_of a.vector lines fuel) u)
          (main host m lib a fd fuel results wcet lines (initial_state files config))
  main-Stays fd fuel results wcet lines files config reopens big short sane few ls =
      main-ok host std fair page m law lib a Anyhow Any (λ n k h. inr λ w k. tt)
        (λ e h c. inr λ w k. tt) fd fuel results wcet lines files config reopens big short sane few
        (λ _. (tt, λ w. tt)) (All-IsTimed (λ _. Any) lib a.ipfvt lines (λ n e. tt) ls)

  -- On a host that is as IsHost says, whose generator is fair, with pages of 4096 bytes, and with
  -- modules that are as IsModules says: with a vector whose lines have two fields and are at most
  -- 60000, a file of the lengths that the third fopen finds, a table of fewer than 2 ^ 31 classes
  -- that hold pages, sane settings, and a process clock that up to the call `horizon` does not go
  -- back and passes `longest` thousandths in as many calls as stabilise is followed for, no
  -- execution time of a line being longer, main of precise_allocer.c returns in a state as main-
  -- Stays says, ends the process by exit, or has made more than `horizon` calls of the host.
  pub main-After :
      (fd : PdLen) (fuel : ℕ) (results : ℕ → ℤ) (wcet : ℤ) (lines : List String)
      (files : List FileClass) (config : Config)
      → fd.open_rb ≡ true
      → All (λ n. 4096 ≤ n) (sizes files)
      → length (sizes files) < 2 ^ 31
      → IsSane (length (sizes files)) config
      → a.vector ≡ true
      → length lines ≤ 60000
      → (horizon longest : ℕ)
      → ((n k : ℕ)
          → n ≤ k
          → k ≤ horizon
          → cpu_reading host a.time_g n ≤ cpu_reading host a.time_g k)
      → ((c : ℕ)
          → c + host.ticks ≤ horizon
          → 1000 * cpu_reading host a.time_g c + longest
            ≤ 1000 * cpu_reading host a.time_g (c + host.ticks))
      → All (IsTimed (λ _ e. e ≤ℤ pos longest) lib a.ipfvt) lines
      → Stays
          (After horizon)
          (λ _ u. Worked a.verbose (length lines) u)
          (main host m lib a fd fuel results wcet lines (initial_state files config))
  main-After fd fuel results wcet lines files config reopens big short sane on few horizon longest
        ordered passes ls =
      let same = jobs_of-on a.vector lines fuel on in
      Returns.mono_Stays
        (main-ok host std fair page m law lib a (After horizon) (λ e. e ≤ℤ pos longest)
          (horizon-Ordered host a.time_g horizon longest ordered passes)
          (horizon-Punctual host a.time_g horizon longest ordered passes) fd fuel results wcet lines
          files config reopens big short sane (rw same few) (λ off. cc) ls)
        λ _ u worked. rw same at worked
