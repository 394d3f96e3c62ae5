-- ===== src/Phase/Timely.antt =====
-- The process clock while a loop runs: it does not go back and passes an execution time, at every
-- call or up to the one behind which a run may be left unfinished.
use memory_management_phase.Base.{
  ℕ, zero, suc, ◌+◌, ◌-◌, ◌*◌, ◌<◌, ◌≤◌, ◌≡◌, refl, false, arith, leb, Bool-cases, inl, inr, ◌⊎◌,
}
use memory_management_phase.Base.Int.{ℤ, pos, pos_part, ◌≤ℤ◌, ltb_ℤ, ◌+ℤ◌, ◌-ℤ◌}
use memory_management_phase.Machine.Host.{Host}
use memory_management_phase.Machine.State.{State, Granularity}
use memory_management_phase.Machine.Returns.{After}
use memory_management_phase.Clock.{cpu_reading}

-- The time since the first reading, after one more reading.
run-next :
    (first now now' : ℕ)
    → first ≤ now
    → now ≤ now'
    → pos (1000 * (now - first)) +ℤ (pos (1000 * now') -ℤ pos (1000 * now))
      ≡ pos (1000 * (now' - first))
unfolding ◌+ℤ◌ ◌-ℤ◌
run-next first now now' h k = ground arith

-- Behind the call n of the host, every state is in Q.
abbrev pub Later : (State → Type 0) → ℕ → Type 0
Later Q n = (w : State) → n < w.calls → Q w

module _ (host : Host) (Q : State → Type 0) (t : Granularity) where
  -- The process clock does not go back from a call to a later one, or behind the later one a run may
  -- be left unfinished.
  abbrev pub Ordered : Type 0
  Ordered = (n m : ℕ) → n ≤ m → (cpu_reading host t n ≤ cpu_reading host t m) ⊎ Later Q m

  -- From the call c on, the clock passes the execution time within the rounds that the loop is
  -- followed for, or a run may be left unfinished behind as many calls.
  abbrev pub Punctual : (exec_time : ℤ) → ℕ → Type 0
  Punctual exec_time c =
      ((d : ℕ) × (d ≤ c + host.ticks)
        × (1000 * cpu_reading host t c + pos_part exec_time ≤ 1000 * cpu_reading host t d))
      ⊎ Later Q (c + host.ticks)

  -- In the loop, with `fuel` rounds to come: the last reading is that of the call c, and the clock
  -- passes the time that is left within these rounds.
  pub record Timing (exec_time : ℤ) (fuel c now : ℕ) (run : ℤ) : Type 0 where
    pub first : ℕ
    pub deadline : ℕ
    pub passes : 1000 * first + pos_part exec_time ≤ 1000 * cpu_reading host t deadline
    pub near : deadline ≤ c + fuel
    pub read : now ≡ cpu_reading host t c
    pub le : first ≤ now
    pub ran : run ≡ pos (1000 * (now - first))

  -- What holds in the loop.
  abbrev pub Going : (exec_time : ℤ) (fuel c now : ℕ) (run : ℤ) → Type 0
  Going exec_time fuel c now run = Timing exec_time fuel c now run ⊎ Later Q (c + fuel)

  pub Going-on :
      Ordered
      → (exec_time : ℤ) (fuel c c' now : ℕ) (run : ℤ) → c < c'
      → Going exec_time (suc fuel) c now run
      → let now' = cpu_reading host t c' in
        Going exec_time fuel c' now' (run +ℤ (pos (1000 * now') -ℤ pos (1000 * now)))
  Going-on ordered exec_time fuel c c' now run lt (inr later) = inr λ w h. later w (omega arith)
  Going-on ordered exec_time fuel c c' now run lt (inl g) =
      let now' = cpu_reading host t c' in
      elim (ordered c c' (omega arith)) [
        | inr later ↦ inr λ w h. later w (omega arith)
        | inl order ↦
            let onward : now ≤ now' = rw g.read order in
            let before = g.le in
            inl (record {
              first = g.first;
              deadline = g.deadline;
              passes = g.passes;
              near = omega (arith, g.near);
              read = refl;
              le = omega arith;
              ran = rw g.ran (run-next g.first now now' g.le onward);
            })
      ]

  pub over-or-Later :
      Ordered
      → (exec_time : ℤ) (c now : ℕ) (run : ℤ) (s : State) → c < s.calls
      → Going exec_time zero c now run
      → (ltb_ℤ run exec_time ≡ false) ⊎ Q s
  over-or-Later ordered exec_time c now run s lt (inr later) = inr (later s (omega arith))
  over-or-Later ordered exec_time c now run s lt (inl g) =
      elim (ordered g.deadline c (omega (arith, g.near))) [
        | inr later ↦ inr (later s lt)
        | inl late ↦ inl (rw g.ran (ground (arith, g.passes, g.read, g.le)))
      ]

-- A clock that is right up to the call `horizon`: it does not go back, and passes `longest`
-- thousandths within the rounds that a loop is followed for.
module _ (host : Host) (t : Granularity) (horizon longest : ℕ)
    (ordered : (n m : ℕ) → n ≤ m → m ≤ horizon → cpu_reading host t n ≤ cpu_reading host t m)
    (passes : (c : ℕ)
      → c + host.ticks ≤ horizon
      → 1000 * cpu_reading host t c + longest ≤ 1000 * cpu_reading host t (c + host.ticks)) where
  pub horizon-Ordered : Ordered host (After horizon) t
  horizon-Ordered n m h = elim (Bool-cases (leb m horizon)) [
    | inl early ↦ inl (ordered n m h (ground arith))
    | inr late ↦ inr λ w k. ground arith
  ]

  pub horizon-Punctual :
      (exec_time : ℤ)
      → exec_time ≤ℤ pos longest
      → (c : ℕ) → Punctual host (After horizon) t exec_time c
  horizon-Punctual exec_time h c = elim (Bool-cases (leb (c + host.ticks) horizon)) [
    | inl early ↦
        let passed = passes c (ground arith) in inl (c + host.ticks, omega arith, ground arith)
    | inr late ↦ inr λ w k. ground arith
  ]
