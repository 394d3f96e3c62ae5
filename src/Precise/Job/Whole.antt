-- ===== src/Precise/Job/Whole.antt =====
-- A job does not trap, and ends if the clock is punctual.
use memory_management_phase.Base.{
  ℕ, zero, suc, ◌+◌, ◌*◌, ◌<◌, ◌≤◌, ◌≡◌, refl, ◌∙◌, false, some, arith, Bool-cases, inl, inr, ◌⊎◌,
}
use memory_management_phase.Base.Int.{ℤ, pos, ltb_ℤ, ◌≤ℤ◌, ◌+ℤ◌}
use memory_management_phase.Machine.Host.{Host, IsHost, IsFair}
use memory_management_phase.Machine.State.{State, Granularity}
use memory_management_phase.Machine.Returns
use memory_management_phase.Machine.Returns.{Returns, returns, Stays, stays, leaves, unfinished}
use memory_management_phase.Clock
use memory_management_phase.Clock.{cpu_reading}
use memory_management_phase.Track.{phase_index}
use memory_management_phase.Phase.Holding.{Safe, Safe-trans}
use memory_management_phase.Phase.Timely.{Later, Ordered, Punctual}
use memory_management_phase.Track.Pages.{all_pages}
use memory_management_phase.Valid.{IsValid}
use memory_management_phase.Precise.Modules.{Modules, IsModules}
use memory_management_phase.Precise.Alloc.Transition.{Moved, trans_rand_alloc-Moved}
use memory_management_phase.Precise.Job.{transition, stabilise_loop, stabilise, job}
use memory_management_phase.Precise.Job.Safe.{
  IsSettled, ticked, ticked-Safe, ticked-IsSettled, end-le, touched,
}

module _ (host : Host) (std : IsHost host) (fair : IsFair host) (page : host.page_size ≡ 4096)
    (m : Modules) (law : IsModules m) where
  module _ (Q : State → Type 0) (t : Granularity) (ordered : Ordered host Q t) where
    -- The clock passes the end of the job within the touches that are left, or a run may be left
    -- unfinished behind them.
    abbrev Going : (fuel : ℕ) (job_end : ℤ) (c : ℕ) → Type 0
    Going fuel job_end c =
        ((d : ℕ) × (d ≤ c + fuel) × (job_end ≤ℤ pos (1000 * cpu_reading host t d)))
        ⊎ Later Q (c + fuel)

    Going-on :
        (fuel : ℕ) (job_end : ℤ) (c c' : ℕ)
        → c < c'
        → Going (suc fuel) job_end c
        → Going fuel job_end c'
    Going-on fuel job_end c c' lt (inl (d, near, passes)) = inl (d, omega arith, passes)
    Going-on fuel job_end c c' lt (inr later) = inr λ w h. later w (omega arith)

    over-or-Later :
        (job_end : ℤ) (c : ℕ) (s : State)
        → c < s.calls
        → Going zero job_end c
        → (ltb_ℤ (pos (1000 * cpu_reading host t c)) job_end ≡ false) ⊎ Q s
    over-or-Later job_end c s lt (inr later) = inr (later s (omega arith))
    over-or-Later job_end c s lt (inl (d, near, passes)) = elim (ordered d c (omega arith)) [
      | inr later ↦ inr (later s lt)
      | inl late ↦ inl (ground arith)
    ]

    stabilise_loop-Stays :
        (fuel : ℕ) (job_end : ℤ) (p : ℕ) (s : State)
        → Going fuel job_end s.calls
        → IsSettled p s
        → Stays Q (λ _ u. Safe s u) (stabilise_loop host m fuel t job_end s)
    unfolding stabilise_loop Clock.cputime ticked
    stabilise_loop-Stays zero job_end p s going w =
        elim (over-or-Later job_end s.calls (ticked s) (omega arith) going) [
          | inl over ↦ rw over (stays (ticked-Safe s w.valid))
          | inr q ↦ elim (Bool-cases (ltb_ℤ (pos (1000 * cpu_reading host t s.calls)) job_end)) [
            | inr over ↦ rw over (stays (ticked-Safe s w.valid))
            | inl more ↦ rw more (unfinished q)
          ]
        ]
    stabilise_loop-Stays (suc fuel) job_end p s going w =
        elim (Bool-cases (ltb_ℤ (pos (1000 * cpu_reading host t s.calls)) job_end)) [
          | inr over ↦ rw over (stays (ticked-Safe s w.valid))
          | inl more ↦ rw more (
              Returns.bind_Stays
                (Returns.of_Ends (Returns.of_Returns (touched host std fair page m law p s w)))
                λ _ u (safe, w', later).
                  Returns.mono_Stays
                    (stabilise_loop-Stays fuel job_end p u
                      (Going-on fuel job_end s.calls u.calls later going) w')
                    λ _ x safe'. Safe-trans safe safe')
        ]

    first_touch :
        (exec_time : ℤ) (s : State)
        → Punctual host Q t exec_time s.calls
        → Going host.ticks (pos (1000 * cpu_reading host t s.calls) +ℤ exec_time) (s.calls + 1)
    first_touch exec_time s (inl (d, near, passes)) =
        inl (d, omega arith, end-le _ exec_time _ passes)
    first_touch exec_time s (inr later) = inr λ w h. later w (omega arith)

  transition-Moved :
      (Q : State → Type 0) (q : ℕ) (s : State)
      → IsValid s
      → phase_index (s.curr +ℤ pos 1) ≡ some q
      → Stays Q (λ v u. (v ≡ pos 0) × Moved q s u) (transition host m s)
  unfolding transition
  transition-Moved Q q s v at =
      Returns.bind_Stays
        (Returns.of_Ends (trans_rand_alloc-Moved host std fair page m law q s v at))
        λ _ u h. stays (refl, h.1)

  -- On a host that is as IsHost says, whose generator is fair, with pages of 4096 bytes, and with
  -- modules that are as IsModules says: on a valid state whose next phase is one of the table, a
  -- job of job_manager.c on a punctual clock does not trap; when it returns, it returns the value
  -- that stabilise leaves, in a valid state, in the next phase, with the same settings and output,
  -- and with more pages.
  pub job-Stays :
      (Q : State → Type 0) (t : Granularity)
      → Ordered host Q t
      → (indeterminate exec_time : ℤ) (q : ℕ) (s : State)
      → ((c : ℕ) → Punctual host Q t exec_time c)
      → IsValid s
      → phase_index (s.curr +ℤ pos 1) ≡ some q
      → Stays Q
          (λ v u.
            (v ≡ indeterminate)
            × IsValid u
            × (u.config ≡ s.config)
            × (u.curr ≡ s.curr +ℤ pos 1)
            × (u.printed ≡ s.printed)
            × (all_pages s.alloc_track < all_pages u.alloc_track))
          (job host m indeterminate exec_time t s)
  unfolding job stabilise Clock.cputime ticked
  job-Stays Q t ordered indeterminate exec_time q s punctual v at =
      Returns.bind_Stays (transition-Moved Q q s v at) λ ret u (zero_, moved).
        let w : IsSettled q u = record {
          valid = moved.valid;
          at = rw moved.curr at;
          some_alloc = omega (arith, moved.count);
        } in
        rw zero_ (
          Returns.bind_Stays
            (stabilise_loop-Stays Q t ordered host.ticks _ q (ticked u)
              (first_touch Q t ordered exec_time u (punctual u.calls)) (ticked-IsSettled q u w))
            λ _ x safe. stays (
              refl,
              safe.0,
              safe.1.config ∙ moved.config,
              safe.1.curr ∙ moved.curr,
              safe.1.printed ∙ moved.printed,
              rw safe.1.alloc_track moved.pages,
            ))
