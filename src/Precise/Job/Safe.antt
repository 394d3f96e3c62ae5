-- ===== src/Precise/Job/Safe.antt =====
-- The touches of stabilise end.
use memory_management_phase.Base.{
  ℕ, zero, suc, ◌+◌, ◌*◌, ◌<◌, ◌≤◌, ◌≡◌, false, some, arith, Bool-cases, inl, inr,
}
use memory_management_phase.Base.Int.{ℤ, pos, pos_part, ltb_ℤ, ◌≤ℤ◌, ◌+ℤ◌}
use memory_management_phase.Machine.Host.{Host, IsHost, IsFair}
use memory_management_phase.Machine.State.{State, Granularity}
use memory_management_phase.Machine.Returns
use memory_management_phase.Machine.Returns.{Returns, returns, Stays, stays, leaves, unfinished}
use memory_management_phase.Clock
use memory_management_phase.Clock.{cpu_reading}
use memory_management_phase.Track.{phase_index}
use memory_management_phase.Phase.Holding.{Safe, Safe-trans}
use memory_management_phase.Phase.Hold.{other-Safe}
use memory_management_phase.Valid.{IsValid}
use memory_management_phase.Precise.Modules.{Modules, IsModules}
use memory_management_phase.Precise.Alloc.{touch_once_curr}
use memory_management_phase.Precise.Alloc.Transition.{touch_once_curr-Safe}
use memory_management_phase.Precise.Job.{stabilise_loop, stabilise}

-- In phase p of the table, which has an allocation.
pub record IsSettled (p : ℕ) (s : State) : Type 0 where
  pub valid : IsValid s
  pub at : phase_index s.curr ≡ some p
  pub some_alloc : 0 < (s.alloc_track p).list_count

unfoldable pub ticked : State → State
ticked s = record s { calls = s.calls + 1 }

pub ticked-Safe : (s : State) → IsValid s → Safe s (ticked s)
unfolding ticked
ticked-Safe s v = other-Safe s.num (s.calls + 1) s.stats.phase_cnt s (omega arith) v

pub ticked-IsSettled : (p : ℕ) (s : State) → IsSettled p s → IsSettled p (ticked s)
unfolding ticked
ticked-IsSettled p s w = record {
  valid = (ticked-Safe s w.valid).0;
  at = w.at;
  some_alloc = w.some_alloc;
}

pub IsSettled-Safe :
    (p : ℕ) (s t : State) → IsSettled p s → Safe s t → t.alloc_track ≡ s.alloc_track → IsSettled p t
IsSettled-Safe p s t w safe e = record {
  valid = safe.0;
  at = rw safe.1.curr w.at;
  some_alloc = rw e w.some_alloc;
}

-- The end of a job that the clock passes.
pub end-le :
    (start : ℕ) (exec_time : ℤ) (late : ℕ)
    → 1000 * start + pos_part exec_time ≤ 1000 * late
    → pos (1000 * start) +ℤ exec_time ≤ℤ pos (1000 * late)
unfolding ◌+ℤ◌
end-le start exec_time late h = ground arith

module _ (host : Host) (std : IsHost host) (fair : IsFair host) (page : host.page_size ≡ 4096)
    (m : Modules) (law : IsModules m) where
  pub touched :
      (p : ℕ) (s : State)
      → IsSettled p s
      → Returns
          (λ _ t. Safe s t × IsSettled p t × (s.calls < t.calls))
          (touch_once_curr host m (ticked s))
  unfolding ticked
  touched p s w =
      let x = ticked s in
      let w' = ticked-IsSettled p s w in
      Returns.mono (touch_once_curr-Safe host std fair page m law p x w'.valid w'.at w'.some_alloc)
        λ _ t (safe, e). (
          Safe-trans (ticked-Safe s w.valid) safe,
          IsSettled-Safe p x t w' safe e,
          omega (arith, safe.1.calls),
        )

  stabilise_loop-Returns :
      (t : Granularity)
      → ((n k : ℕ) → n ≤ k → cpu_reading host t n ≤ cpu_reading host t k)
      → (fuel deadline : ℕ) (job_end : ℤ) (p : ℕ) (s : State)
      → job_end ≤ℤ pos (1000 * cpu_reading host t deadline)
      → deadline ≤ s.calls + fuel
      → IsSettled p s
      → Returns (λ _ u. Safe s u) (stabilise_loop host m fuel t job_end s)
  unfolding stabilise_loop Clock.cputime ticked
  stabilise_loop-Returns t ordered zero deadline job_end p s passes near w =
      let late = ordered deadline s.calls (omega arith) in
      let over : ltb_ℤ (pos (1000 * cpu_reading host t s.calls)) job_end ≡ false = ground arith in
      rw over (returns (ticked-Safe s w.valid))
  stabilise_loop-Returns t ordered (suc fuel) deadline job_end p s passes near w =
      elim (Bool-cases (ltb_ℤ (pos (1000 * cpu_reading host t s.calls)) job_end)) [
        | inr over ↦ rw over (returns (ticked-Safe s w.valid))
        | inl more ↦ rw more (
            Returns.bind (touched p s w) λ _ u (safe, w', later).
              Returns.mono
                (stabilise_loop-Returns t ordered fuel deadline job_end p u passes (omega arith) w')
                λ _ x safe'. Safe-trans safe safe')
      ]

  -- On a host that is as IsHost says, whose generator is fair, with pages of 4096 bytes, and with
  -- modules that are as IsModules says: on a valid state, in a phase of the table with an
  -- allocation, stabilise returns, in a valid state with the same settings, phase and tracked
  -- allocations, if the process clock does not go back and passes the execution time, counted from
  -- its first reading, within as many calls of the host behind this reading as the loop is
  -- followed for.
  pub stabilise-Returns :
      (t : Granularity) (exec_time : ℤ) (p : ℕ) (s : State)
      → ((n k : ℕ) → n ≤ k → cpu_reading host t n ≤ cpu_reading host t k)
      → 1000 * cpu_reading host t s.calls + pos_part exec_time
        ≤ 1000 * cpu_reading host t (s.calls + 1 + host.ticks)
      → IsSettled p s
      → Returns (λ _ u. Safe s u) (stabilise host m exec_time t s)
  unfolding stabilise Clock.cputime ticked
  stabilise-Returns t exec_time p s ordered passes w =
      Returns.mono
        (stabilise_loop-Returns t ordered host.ticks (s.calls + 1 + host.ticks) _ p (ticked s)
          (end-le _ exec_time _ passes) (omega arith) (ticked-IsSettled p s w))
        λ _ u safe. Safe-trans (ticked-Safe s w.valid) safe
