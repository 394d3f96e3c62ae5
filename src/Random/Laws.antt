-- ===== src/Random/Laws.antt =====
-- The range of rand_intr and of rand_lim, and when rand_lim returns.
use memory_management_phase.Base.{
  ℕ, zero, suc, ◌+◌, ◌-◌, ◌/◌, ◌%◌, ◌^◌, ◌<◌, ◌≤◌, ◌≡◌, refl, false, inl, inr, Option, some, arith,
  Bool-cases, leb, ◌==◌,
}
use native.Mathlib.Nat.{add-zero, zero-add, add_assoc, add_comm}
use native.Mathlib.Numerals.{add-one}
use memory_management_phase.Base.Int.{ℤ, pos, ◌+ℤ◌}
use memory_management_phase.Base.Word.{add64, sub64}
use memory_management_phase.Machine.Host.{Host, IsFair}
use memory_management_phase.Machine.State.{State, t_secs}
use memory_management_phase.Machine.Returns.{Returns, returns}
use memory_management_phase.Clock.{cputime, cpu_reading}
use memory_management_phase.Random.{drawn, lim_loop, intr_value, seed_time, rand_lim, rand_intr}

-- The state after one call of the host.
abbrev pub called : State → State
called s = record s { calls = s.calls + 1 }

pub intr_value_bounds :
    (rand_max : ℕ) (draw : ℕ → ℕ) (begin end : ℕ)
    → begin ≤ end
    → end < 2 ^ 64
    → (begin ≤ intr_value rand_max draw begin (end - begin + 1))
      × (intr_value rand_max draw begin (end - begin + 1) ≤ end)
unfolding intr_value add64
intr_value_bounds rand_max draw begin end h k = grind arith

lim_loop-hit :
    (draw : ℕ → ℕ) (d n fuel k j : ℕ)
    → j < fuel
    → draw (k + j) / d < n
    → (v : ℕ) × (lim_loop draw (pos d) (pos n) fuel k ≡ some (pos v)) × (v < n)
unfolding lim_loop
lim_loop-hit draw d n zero k j h hit = absurd (omega arith)
lim_loop-hit draw d n (suc fuel) k zero h hit =
    let hit' : draw k / d < n = rw (← add-zero k) hit in (draw k / d, ground arith, hit')
lim_loop-hit draw d n (suc fuel) k (suc j) h hit = elim (Bool-cases (leb n (draw k / d))) [
  | inl again ↦
      let (v, e, lt) =
        lim_loop-hit draw d n fuel (k + 1) j (omega arith)
          (rw (add_assoc k 1 j, add_comm 1 j) (rw (add-one j) hit)) in
      (v, ground arith, lt)
  | inr stop ↦ (draw k / d, ground arith, ground arith)
]

range-eq :
    (begin end : ℕ)
    → begin ≤ end
    → end - begin + 1 < 2 ^ 64
    → end < 2 ^ 64
    → add64 (sub64 end begin) 1 ≡ end - begin + 1
unfolding add64 sub64
range-eq begin end h j k = omega arith

succ-eq : (n : ℕ) → pos n +ℤ pos 1 ≡ pos (n + 1)
unfolding ◌+ℤ◌
succ-eq n = ground arith

div-pos : (m d : ℕ) → 0 < d → d ≤ m → 0 < m / d
div-pos m d h k = grind arith

drawn-lt :
    (o : Option ℤ) (limit : ℕ) (s : State)
    → (v : ℕ) × (o ≡ some (pos v)) × (v < limit)
    → Returns (λ v s'. ((n : ℕ) × (v ≡ pos n) × (n < limit)) × (s' ≡ s)) (drawn o s)
drawn-lt o limit s (v, e, h) = rw e (returns ((v, refl, h), refl))

module _ (host : Host) where
  -- On a host whose generator is fair, with a limit of at least 1 and below RAND_MAX, rand_lim returns
  -- a number from 0 up to, but without, the limit, and changes nothing but the count of the host's
  -- calls.
  pub rand_lim-lt :
      IsFair host
      → (s : State) (limit : ℕ) → 0 < limit
      → limit < host.rand_max
      → Returns
          (λ v s'. ((n : ℕ) × (v ≡ pos n) × (n < limit)) × (s' ≡ called s))
          (rand_lim host (pos limit) s)
  unfolding rand_lim cputime seed_time
  rand_lim-lt fair s limit h k =
      let seed = cpu_reading host t_secs s.calls % 2 ^ 32 in
      let (j, j_lt, hit) = fair.hits seed limit h k in
      let d = host.rand_max / (limit + 1) in
      let hit' : host.rand seed (0 + j) / d < limit = rw zero-add hit in
      let one : ((limit + 1) == 0) ≡ false = ground arith in
      let two : (d == 0) ≡ false = ground (arith, div-pos host.rand_max (limit + 1)) in
      rw (succ-eq limit) (
        rw (one, two)
          (drawn-lt _ limit (called s)
            (lim_loop-hit (host.rand seed) d limit host.draws 0 j j_lt hit')))

  -- For a range that is not empty, and of fewer than 2 ^ 64 numbers, rand_intr returns a number of
  -- the range, from the first to the last, and changes nothing but the count of the host's calls.
  pub rand_intr_bounds :
      (s : State) (begin end : ℕ)
      → begin ≤ end
      → end - begin + 1 < 2 ^ 64
      → end < 2 ^ 64
      → Returns (λ v s'. (begin ≤ v) × (v ≤ end) × (s' ≡ called s)) (rand_intr host begin end s)
  unfolding rand_intr cputime seed_time
  rand_intr_bounds s begin end h j k =
      let some_range : ((end - begin + 1) == 0) ≡ false = ground arith in
      let seed = cpu_reading host t_secs s.calls % 2 ^ 32 in
      let (low, high) = intr_value_bounds host.rand_max (host.rand seed) begin end h k in
      rw (range-eq begin end h j k) (rw some_range (returns (low, high, refl)))
