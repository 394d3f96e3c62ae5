-- ===== src/Precise/Job.antt =====
-- job_manager.c: a job is a transition, and touches until the execution time has passed. stabilise
-- returns no value, though job returns what it returns: that value is a parameter.
pub mod Safe
pub mod Whole
use memory_management_phase.Base.{ℕ, zero, suc, ◌+◌, ◌*◌, if◌then◌else◌}
use memory_management_phase.Base.Int.{ℤ, pos, ltb_ℤ, ◌+ℤ◌, is_zero_ℤ}
use memory_management_phase.Machine.Host.{Host}
use memory_management_phase.Machine.State.{Granularity}
use memory_management_phase.Machine.Run.{Cmd, ok, out_of_fuel, skip, ◌>>=◌, ◌>>◌}
use memory_management_phase.Precise.Time.{cputime}
use memory_management_phase.Precise.Modules.{Modules}
use memory_management_phase.Precise.Alloc.{trans_rand_alloc, touch_once_curr}

module _ (host : Host) (m : Modules) where
  -- The result of trans_rand_alloc is dropped.
  unfoldable pub transition : Cmd ℤ
  transition = trans_rand_alloc host m >> ok (pos 0)

  -- The while loop, for `fuel` touches at most; the times are in thousandths.
  unfoldable pub stabilise_loop : (fuel : ℕ) → Granularity → (job_end : ℤ) → Cmd (Unit {0})
  stabilise_loop zero t job_end = do
    now ← cputime host t
    if ltb_ℤ (pos (1000 * now)) job_end then out_of_fuel else skip
  stabilise_loop (suc fuel) t job_end =
      let round = touch_once_curr host m >> stabilise_loop fuel t job_end in
      cputime host t >>= λ now. if ltb_ℤ (pos (1000 * now)) job_end then round else skip

  unfoldable pub stabilise : (exec_time : ℤ) → Granularity → Cmd (Unit {0})
  stabilise exec_time t = do
    start ← cputime host t
    stabilise_loop host.ticks t (pos (1000 * start) +ℤ exec_time)

  unfoldable pub job : (indeterminate : ℤ) → (exec_time : ℤ) → Granularity → Cmd ℤ
  job indeterminate exec_time t = do
    ret ← transition
    if is_zero_ℤ ret then (stabilise exec_time t >> ok indeterminate) else ok ret
