-- ===== src/Main.antt =====
-- The loop of main in mem_gobbler.c: a line of the vector, if there is one, sets the count and the
-- time of the next job; the loop ends behind the last line, behind the last phase, or when the pages
-- have passed the limit.
pub mod Log
pub mod Running
pub mod Safe
pub mod Start
pub mod Process
pub mod Limit
use memory_management_phase.Base.{
  ◌∷◌, ◌+◌, ◌/◌, ℕ, zero, suc, ◌-◌, Bool, true, false, Option, none, some, List, String, ltb,
  if◌then◌else◌,
}
use memory_management_phase.Base.Int.{ℤ, is_zero_ℤ, sub_ℕ}
use memory_management_phase.Base.Word.{add64}
use memory_management_phase.Machine.Host.{Host}
use memory_management_phase.Machine.State.{State, Granularity, Rusage, Report, report}
use memory_management_phase.Output.{time_to_string}
use memory_management_phase.Machine.Run.{
  Cmd, ok, trap, segmentation, skip, get, modify, ask, ◌>>=◌, ◌>>◌,
}
use memory_management_phase.Clock.{wctime}
use memory_management_phase.Vector.{Tokens, Locality, locality, null_token, get_nxt_alloc}
use memory_management_phase.Options.{reset_max_alloc_per_phase}
use memory_management_phase.Phase.{job}

-- The test of the pages against max_limit.
abbrev pub check_limit : State → State
check_limit s =
    if ltb s.config.max_limit (add64 s.stats.file_cnt s.stats.anon_cnt)
    then record s { alloc_nomore = true }
    else s

-- What the line of the vector sets, before the rest of the round.
abbrev pub take_line :
    Option (Locality × List String) → (ℤ → List String → Cmd (Unit {0})) → Cmd (Unit {0})
take_line none next = skip
take_line (some (null_token, lines)) next = λ s. trap segmentation
take_line (some (locality alloc_cnt wcet, lines)) next =
    modify (λ s. record s { config = reset_max_alloc_per_phase alloc_cnt s.config })
    >> next wcet lines

-- The line for a job, at the time `now` and with what getrusage gave.
unfoldable pub print_line :
    (pid start cur_job : ℕ) → Rusage → Granularity → (now : ℕ) → State → State
print_line pid start cur_job res t now s = record s {
  printed =
      report (record {
        pid = pid;
        cur_job = cur_job;
        duration = sub_ℕ now start;
        unit = time_to_string t;
        file_cnt = s.stats.file_cnt;
        anon_cnt = s.stats.anon_cnt;
        total = add64 s.stats.file_cnt s.stats.anon_cnt;
        minflt = res.ru_minflt;
        majflt = res.ru_majflt;
        faults = res.ru_minflt + res.ru_majflt;
        rss = res.ru_maxrss / 4;
      })
      ∷ s.printed;
}

-- `start` is the reading of the wall clock before the loop.
module _ (host : Host) (lib : Tokens) (verbose : Bool) (start : ℕ) where
  abbrev pub print_job : (cur_job : ℕ) → Rusage → Cmd (Unit {0})
  print_job cur_job res =
      if verbose
      then (get (λ s. s.config.time_g) >>= λ t.
          wctime host t >>= λ now. modify (print_line host.pid start cur_job res t now))
      else skip

  -- The round behind the line of the vector; `next` is the job, with what follows it.
  unfoldable pub round :
      (cur_job : ℕ) → (ℤ → List String → Cmd (Unit {0})) → ℤ → List String → Cmd (Unit {0})
  round cur_job next wcet lines = do
    res ← ask host.getrusage
    print_job cur_job res
    modify check_limit
    nomore ← get (λ s. s.alloc_nomore)
    if nomore then skip else next wcet lines

  abbrev pub with_line :
      Bool → (cur_job : ℕ) → (ℤ → List String → Cmd (Unit {0})) → ℤ → List String → Cmd (Unit {0})
  with_line true cur_job next wcet lines = get (λ s. s.config.ipfvt) >>= λ is_ipfvt.
      take_line (get_nxt_alloc lib is_ipfvt lines) (round cur_job next)
  with_line false cur_job next wcet lines = round cur_job next wcet lines

  -- The do loop, with `left` more jobs to come: max_phase less 1, less cur_job. Below 2 ^ 31 the int
  -- cur_job does not overflow.
  unfoldable pub main_loop : (left cur_job : ℕ) → (wcet : ℤ) → List String → Cmd (Unit {0})
  main_loop zero cur_job wcet lines =
      get (λ s. s.config.vector) >>= λ vector. with_line vector cur_job (λ _ _. skip) wcet lines
  main_loop (suc left) cur_job wcet lines = get (λ s. s.config.vector) >>= λ vector.
      with_line vector cur_job
        (λ wcet' lines'. get (λ s. s.config.time_g) >>= λ t. job host wcet' t >>= λ again.
          if is_zero_ℤ again then skip else main_loop left (cur_job + 1) wcet' lines')
        wcet lines

-- From the first job on, with max_phase.
unfoldable pub run_jobs :
    Host
    → Tokens
    → (verbose : Bool) → (start max_phase : ℕ) → (wcet : ℤ) → List String
    → Cmd (Unit {0})
run_jobs host lib verbose start max_phase = main_loop host lib verbose start (max_phase - 1) 0
