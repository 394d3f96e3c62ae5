-- ===== src/Phase/Hold.antt =====
-- The holding time: a run of loop_for ends when the process clock has passed the execution time, and
-- touches only allocations of the phase.
use memory_management_phase.Base.{
  ℕ, zero, suc, ◌+◌, ◌<◌, ◌≤◌, ◌≡◌, refl, ap, Bool, true, false, List, some, arith, Bool-cases, inl,
  inr,
}
use memory_management_phase.Base.Int.{ℤ, pos, ltb_ℤ, leb_ℤ}
use memory_management_phase.Machine.Host.{Host, IsHost, IsFair}
use memory_management_phase.Machine.State.{State, Granularity}
use memory_management_phase.Machine.Returns
use memory_management_phase.Machine.Returns.{
  Returns, returns, Ends, done, exits, Stays, stays, unfinished, After,
}
use memory_management_phase.Clock.{cputime, cpu_reading}
use memory_management_phase.Track.{phase_index}
use memory_management_phase.Phase.{loop_once, hold_touch, hold_loop, loop_for, hold}
use memory_management_phase.Phase.Holding.{Safe, Safe-trans, touch-Safe, list_count-ok}
use memory_management_phase.Phase.Timely.{Ordered, Punctual, Going, Going-on, over-or-Later}
use memory_management_phase.Valid.{IsValid, Steps-refl}

-- The array of loop_once, the count of the host's calls and the count of phases are free.
pub other-Safe :
    (num : List ℕ) (n phases : ℕ) (s : State)
    → s.calls ≤ n
    → IsValid s
    → Safe s (record s { num = num; calls = n; stats = record (s.stats) { phase_cnt = phases } })
other-Safe num n phases s le v = (
  record {
    tracked = v.tracked;
    fixed = v.fixed;
    big = v.big;
    speed = v.speed;
    short = v.short;
    cap = v.cap;
    access = v.access;
    total = v.total;
    counted = record { files = v.counted.files; anons = v.counted.anons };
  },
  record {
    config = refl;
    curr = refl;
    alloc_track = refl;
    in_transition = refl;
    alloc_nomore = refl;
    printed = refl;
    used = λ u. u;
    calls = le;
  },
)

pub loop_once-Safe :
    (stop : Bool) (s : State) → IsValid s → Returns (λ _ t. Safe s t) (loop_once stop s)
unfolding loop_once
loop_once-Safe true s v = returns (v, Steps-refl s)
loop_once-Safe false s v = returns (other-Safe _ s.calls s.stats.phase_cnt s (omega arith) v)

module _ (host : Host) (std : IsHost host) (fair : IsFair host) (page : host.page_size ≡ 4096) where
  pub hold_touch-Safe :
      (i p : ℕ) (s : State)
      → IsValid s
      → phase_index s.curr ≡ some p
      → Ends (λ _ t. Safe s t) (hold_touch host i s)
  unfolding hold_touch
  hold_touch-Safe zero p s v at =
      rw (list_count-ok host std fair page p s at) (done (v, Steps-refl s))
  hold_touch-Safe (suc i) p s v at =
      Returns.bind_Ends (touch-Safe host std fair page i p s v at) λ _ t safe. done safe

  module _ (Q : State → Type 0) (t : Granularity) (ordered : Ordered host Q t) where
    hold_loop-Stays :
        (exec_time : ℤ) (fuel now : ℕ) (run : ℤ) (i tmp c p : ℕ) (s : State)
        → c < s.calls
        → Going host Q t exec_time fuel c now run
        → IsValid s
        → phase_index s.curr ≡ some p
        → Stays Q (λ _ u. Safe s u) (hold_loop host fuel t exec_time now run i tmp s)
    unfolding hold_loop cputime
    hold_loop-Stays exec_time zero now run i tmp c p s c_lt going v at =
        elim (over-or-Later host Q t ordered exec_time c now run s c_lt going) [
          | inl over ↦ rw over (stays (v, Steps-refl s))
          | inr q ↦ elim (Bool-cases (ltb_ℤ run exec_time)) [
            | inl more ↦ rw more (unfinished q)
            | inr over ↦ rw over (stays (v, Steps-refl s))
          ]
        ]
    hold_loop-Stays exec_time (suc fuel) now run i tmp c p s c_lt going v at =
        elim (Bool-cases (ltb_ℤ run exec_time)) [
          | inr over ↦ rw over (stays (v, Steps-refl s))
          | inl more ↦ rw more (
              Returns.bind_Stays (Returns.of_Ends (hold_touch-Safe i p s v at)) λ i' u safe.
                Returns.bind_Stays
                  (Returns.of_Ends
                    (Returns.of_Returns (loop_once-Safe (leb_ℤ exec_time run) u safe.0)))
                  λ j w safe'.
                    let x : State = record w { calls = w.calls + 1 } in
                    let so_far = Safe-trans {s = s} safe (
                      Safe-trans {s = u} safe' (
                        other-Safe w.num (w.calls + 1) w.stats.phase_cnt w (omega arith)
                          safe'.0)) in
                    let later : c < w.calls = omega (arith, safe.1.calls, safe'.1.calls) in
                    Returns.mono_Stays
                      (hold_loop-Stays exec_time fuel _ _ i' _ w.calls p x (omega arith)
                        (Going-on host Q t ordered exec_time fuel c w.calls now run later going)
                        so_far.0 (rw so_far.1.curr at))
                      λ _ y safe''. Safe-trans so_far safe'')
        ]

    loop_for-Stays :
        (exec_time : ℤ) (p : ℕ) (s : State)
        → Punctual host Q t exec_time s.calls
        → IsValid s
        → phase_index s.curr ≡ some p
        → Stays Q (λ _ u. Safe s u) (loop_for host exec_time t s)
    unfolding loop_for cputime
    loop_for-Stays exec_time p s punctual v at =
        let begin : State = record s { calls = s.calls + 1 } in
        let begun = other-Safe s.num (s.calls + 1) s.stats.phase_cnt s (omega arith) v in
        rw (list_count-ok host std fair page p begin at) (
          Returns.mono_Stays
            (hold_loop-Stays exec_time host.ticks _ (pos 0) _ 0 s.calls p begin (omega arith)
              (first_round exec_time s punctual) begun.0 at)
            λ _ u safe. Safe-trans begun safe)
      where
        first_round :
            (exec_time : ℤ) (s : State)
            → Punctual host Q t exec_time s.calls
            → Going host Q t exec_time host.ticks s.calls (cpu_reading host t s.calls) (pos 0)
        first_round exec_time s (inr later) = inr later
        first_round exec_time s (inl (d, near, passes)) = inl (record {
          first = cpu_reading host t s.calls;
          deadline = d;
          passes = passes;
          near = near;
          read = refl;
          le = omega arith;
          ran = ap pos (omega arith);
        })

    pub hold-Stays :
        (exec_time : ℤ) (p : ℕ) (s : State)
        → Punctual host Q t exec_time s.calls
        → IsValid s
        → phase_index s.curr ≡ some p
        → Stays Q (λ v u. (v ≡ pos 1) × Safe s u) (hold host exec_time t s)
    unfolding hold
    hold-Stays exec_time p s punctual v at = rw (list_count-ok host std fair page p s at) (
        Returns.bind_Stays (loop_for-Stays exec_time p s punctual v at) λ _ u safe.
          stays (refl, Safe-trans safe (other-Safe u.num u.calls _ u (omega arith) safe.0)))
