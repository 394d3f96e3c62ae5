-- ===== src/Main/Limit.antt =====
-- The limit on the pages.
use memory_management_phase.Base.{
  ◌+◌, ℕ, zero, suc, ◌<◌, ◌≡◌, refl, Bool, true, false, List, String, arith, ltb, if◌then◌else◌,
}
use memory_management_phase.Base.Int.{ℤ}
use memory_management_phase.Base.Word.{add64}
use memory_management_phase.Machine.Host.{Host}
use memory_management_phase.Machine.State.{State, Rusage}
use memory_management_phase.Machine.Run.{Cmd}
use memory_management_phase.Machine.Returns.{Returns, returns}
use memory_management_phase.Clock.{wctime, wall_reading}
use memory_management_phase.Vector.{Tokens}
use memory_management_phase.Main.{print_line, round, with_line, main_loop}

-- No job has run: only the flag is set, the line for the job is printed, if any, and the wall clock
-- may have been read.
pub record Stopped (pid : ℕ) (verbose : Bool) (start cur_job : ℕ) (s t : State) : Type 0 where
  pub nomore : t.alloc_nomore ≡ true
  pub now : ℕ
  pub res : Rusage
  pub printed : t.printed ≡ (
      if verbose
      then (print_line pid start cur_job res s.config.time_g now s).printed
      else s.printed)
  pub rest : t ≡ record s { alloc_nomore = true; calls = t.calls; printed = t.printed }

module _ (host : Host) (lib : Tokens) (start cur_job : ℕ) where
  round-Stopped :
      (verbose : Bool) (next : ℤ → List String → Cmd (Unit {0})) (wcet : ℤ) (lines : List String)
      (s : State)
      → s.config.max_limit < add64 s.stats.file_cnt s.stats.anon_cnt
      → Returns
          (λ _ t. Stopped host.pid verbose start cur_job s t)
          (round host lib verbose start cur_job next wcet lines s)
  unfolding round wctime print_line
  round-Stopped true next wcet lines s h =
      let over : ltb s.config.max_limit (add64 s.stats.file_cnt s.stats.anon_cnt) ≡ true =
        ground arith in
      rw over (
        returns (record {
          nomore = refl;
          now = wall_reading host s.config.time_g (s.calls + 1);
          res = host.getrusage s.calls;
          printed = refl;
          rest = refl;
        }))
  round-Stopped false next wcet lines s h =
      let over : ltb s.config.max_limit (add64 s.stats.file_cnt s.stats.anon_cnt) ≡ true =
        ground arith in
      rw over (
        returns (record {
          nomore = refl;
          now = wall_reading host s.config.time_g (s.calls + 1);
          res = host.getrusage s.calls;
          printed = refl;
          rest = refl;
        }))

  with_line-Stopped :
      (verbose vector : Bool) (next : ℤ → List String → Cmd (Unit {0})) (wcet : ℤ)
      (lines : List String) (s : State)
      → vector ≡ false
      → s.config.max_limit < add64 s.stats.file_cnt s.stats.anon_cnt
      → Returns
          (λ _ t. Stopped host.pid verbose start cur_job s t)
          (with_line host lib verbose start vector cur_job next wcet lines s)
  with_line-Stopped verbose true next wcet lines s e h = cc
  with_line-Stopped verbose false next wcet lines s e h = round-Stopped verbose next wcet lines s h

  -- Without a vector, and with more file and anonymous pages than max_limit, the loop of main ends
  -- before the next job, however many phases are left: the flag alloc_nomore is set, the line for the
  -- job is printed, if lines are printed, and nothing else has changed but the count of the host's
  -- calls.
  pub main_loop-Stopped :
      (verbose : Bool) (left : ℕ) (wcet : ℤ) (lines : List String) (s : State)
      → s.config.vector ≡ false
      → s.config.max_limit < add64 s.stats.file_cnt s.stats.anon_cnt
      → Returns
          (λ _ t. Stopped host.pid verbose start cur_job s t)
          (main_loop host lib verbose start left cur_job wcet lines s)
  unfolding main_loop
  main_loop-Stopped verbose zero wcet lines s off h =
      with_line-Stopped verbose s.config.vector _ wcet lines s off h
  main_loop-Stopped verbose (suc left) wcet lines s off h =
      with_line-Stopped verbose s.config.vector _ wcet lines s off h
