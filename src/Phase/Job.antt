-- ===== src/Phase/Job.antt =====
-- A job keeps the invariant, and goes to the next phase unless it is late.
use memory_management_phase.Base.{
  ℕ, ◌+◌, ◌*◌, ◌^◌, ◌<◌, ◌≤◌, ◌≡◌, refl, ◌∙◌, Bool, true, false, some, arith, Bool-cases, inl, inr,
  ◌⊎◌,
}
use memory_management_phase.Base.Int.{ℤ, pos, pos_part, ltb_ℤ, ◌+ℤ◌}
use memory_management_phase.Machine.Host.{Host, IsHost, IsFair}
use memory_management_phase.Machine.State.{State, Granularity}
use memory_management_phase.Machine.Run.{ok}
use memory_management_phase.Machine.Returns
use memory_management_phase.Machine.Returns.{Ends, Stays, stays, Never}
use memory_management_phase.Clock.{wctime, cpu_reading, wall_reading}
use memory_management_phase.Track.{phase_index}
use memory_management_phase.Phase.{job, trans_rand_alloc}
use memory_management_phase.Phase.Transition.{trans_rand_alloc_lem}
use memory_management_phase.Phase.Hold.{other-Safe, hold-Stays}
use memory_management_phase.Phase.Timely.{Ordered, Punctual}
use memory_management_phase.Phase.Load.{Gobbles, Gobbles-same}
use memory_management_phase.Valid.{IsValid}

-- Whether the wall clock has passed the end of the job at its second reading.
abbrev pub is_late : Host → Granularity → ℤ → State → Bool
is_late host t exec_time s =
    ltb_ℤ (host.add_double (pos (1000 * wall_reading host t s.calls)) exec_time)
      (pos (1000 * wall_reading host t (s.calls + 1)))

-- The state after a job: valid, with the same settings and output; if the job is late, in the same
-- phase with the same allocations; if not, in the next one, q, which is loaded with its pages.
pub record Worked (q : ℕ) (late : Bool) (s u : State) : Type 0 where
  pub valid : IsValid u
  pub config : u.config ≡ s.config
  pub nomore : u.alloc_nomore ≡ s.alloc_nomore
  pub printed : u.printed ≡ s.printed
  pub phase :
      ((late ≡ true) × (u.curr ≡ s.curr) × (u.alloc_track ≡ s.alloc_track) × (u.files ≡ s.files))
      ⊎ ((late ≡ false) × (u.curr ≡ s.curr +ℤ pos 1) × Gobbles q s u)

module _ (host : Host) (std : IsHost host) (fair : IsFair host) (page : host.page_size ≡ 4096) where
  -- On a valid state whose next phase is one of the table, a job on a punctual clock does not trap;
  -- when it returns, it returns 1, in a state as Worked says.
  pub job-Stays :
      (Q : State → Type 0) (t : Granularity)
      → Ordered host Q t
      → (exec_time : ℤ) (q : ℕ) (s : State)
      → ((v : ℤ) (u : State)
          → trans_rand_alloc host (record s { calls = s.calls + 1 + 1 }) ≡ ok v u
          → Punctual host Q t exec_time u.calls)
      → IsValid s
      → s.config.max_alloc_per_phase < 2 ^ 64
      → s.alloc_nomore ≡ false
      → phase_index (s.curr +ℤ pos 1) ≡ some q
      → Stays Q
          (λ v u. (v ≡ pos 1) × Worked q (is_late host t exec_time s) s u)
          (job host exec_time t s)
  unfolding job wctime
  job-Stays Q t ordered exec_time q s punctual v word nomore at =
      let begin : State = record s { calls = s.calls + 1 + 1 } in
      let begun = other-Safe s.num (s.calls + 1 + 1) s.stats.phase_cnt s (omega arith) v in
      elim (Bool-cases (is_late host t exec_time s)) [
        | inl late ↦
            let skipped =
              other-Safe s.num (s.calls + 1 + 1 + 1) s.stats.phase_cnt s (omega arith) v in
            rw late (
              stays (
                refl,
                record {
                  valid = skipped.0;
                  config = skipped.1.config;
                  nomore = refl;
                  printed = refl;
                  phase = inl (refl, refl, refl, refl);
                },
              ))
        | inr in_time ↦ rw in_time (
            Returns.Stays-else s.alloc_nomore _ _ begin nomore (
              Returns.bind_Stays_eq (trans_rand_alloc host begin)
                (Returns.of_Ends (trans_rand_alloc_lem host std fair page q begin begun.0 word at))
                λ r u ran (ret, x). rw ret (
                  Returns.mono_Stays
                    (hold-Stays host std fair page Q t ordered exec_time q u (punctual r u ran)
                      x.valid (rw x.curr_eq at))
                    λ z w (one, safe). (
                      one,
                      record {
                        valid = safe.0;
                        config = safe.1.config ∙ x.config;
                        nomore = safe.1.alloc_nomore ∙ x.alloc_nomore;
                        printed = safe.1.printed ∙ x.printed;
                        phase = inr (
                          refl,
                          safe.1.curr ∙ x.curr_eq,
                          Gobbles-same q s begin u w refl refl (λ y. y) safe.1.alloc_track
                              safe.1.used x.gobbles,
                        );
                      },
                    ))))
      ]

  -- On a host that is as IsHost says, whose generator is fair, and with pages of 4096 bytes: on a
  -- valid state whose next phase is one of the table, with a count of pages that is a word and
  -- alloc_nomore not set, a job returns 1 or ends the process by exit, if the process clock does
  -- not go back, and passes the execution time, counted from the end of the transition, within as
  -- many calls of the host behind it as the holding loop is followed for. When it returns, the
  -- state is valid, with the same settings, and with what main has printed as it was; and either
  -- the wall clock was late and the phase, the tracker and the files are as they were, or it was
  -- not, the phase is the next one, and the count of the transition has been spent in it.
  pub job_lem :
      (t : Granularity) (exec_time : ℤ) (deadline q : ℕ) (s : State)
      → ((n m : ℕ) → n ≤ m → cpu_reading host t n ≤ cpu_reading host t m)
      → ((v : ℤ) (u : State)
          → trans_rand_alloc host (record s { calls = s.calls + 1 + 1 }) ≡ ok v u
          → (deadline ≤ u.calls + host.ticks)
            × (1000 * cpu_reading host t u.calls + pos_part exec_time
                ≤ 1000 * cpu_reading host t deadline))
      → IsValid s
      → s.config.max_alloc_per_phase < 2 ^ 64
      → s.alloc_nomore ≡ false
      → phase_index (s.curr +ℤ pos 1) ≡ some q
      → Ends
          (λ v u. (v ≡ pos 1) × Worked q (is_late host t exec_time s) s u)
          (job host exec_time t s)
  job_lem t exec_time deadline q s ordered passes v word nomore at = Returns.to_Ends (
      job-Stays Never t (λ n m h. inl (ordered n m h)) exec_time q s
        (λ r u ran. let (near, passed) = passes r u ran in inl (deadline, near, passed)) v word
        nomore at)
