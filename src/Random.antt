-- ===== src/Random.antt =====
-- The randomizer of mem_gobbler.c. Both functions seed the generator with the seconds of processor
-- time and then draw from the sequence of that seed.
pub mod Laws
use memory_management_phase.Base.{
  ℕ, zero, suc, ◌+◌, ◌-◌, ◌%◌, ◌^◌, ◌||◌, Bool, true, false, Option, none, some, ◌==◌, ltb, leb,
  if◌then◌else◌,
}
use memory_management_phase.Base.Int.{ℤ, pos, ◌+ℤ◌, leb_ℤ, is_zero_ℤ, quot_ℤ}
use memory_management_phase.Base.Word.{add64, sub64}
use memory_management_phase.Machine.Host.{Host}
use memory_management_phase.Machine.State.{t_secs}
use memory_management_phase.Machine.Run.{Cmd, ok, trap, division_by_zero, out_of_fuel, ◌>>=◌}
use memory_management_phase.Clock.{cputime}

-- The loop of rand_lim over the numbers from the k-th on, for `fuel` numbers at most.
unfoldable pub lim_loop : (draw : ℕ → ℕ) (divisor limit : ℤ) → (fuel k : ℕ) → Option ℤ
lim_loop draw divisor limit zero k = none
lim_loop draw divisor limit (suc fuel) k =
    let retval = quot_ℤ (pos (draw k)) divisor in
    let again = lim_loop draw divisor limit fuel (k + 1) in
    if leb_ℤ limit retval then again else some retval

-- The loop of rand_intr: `rand_val` is the k-th number.
unfoldable pub intr_loop : (draw : ℕ → ℕ) (limit : ℕ) → (upper k : ℕ) → ℕ
intr_loop draw limit zero k = draw k
intr_loop draw limit (suc upper) k =
    let again = intr_loop draw limit upper (k + 1) in if leb limit (draw k) then again else draw k

-- The value of rand_intr, where the range is not 0.
unfoldable pub intr_value : (rand_max : ℕ) (draw : ℕ → ℕ) → (begin range : ℕ) → ℕ
intr_value rand_max draw begin range =
    let limit = rand_max - rand_max % range in add64 (intr_loop draw limit 128 0 % range) begin

-- What rand_lim gives back once its loop has ended.
abbrev pub drawn : Option ℤ → Cmd ℤ
drawn none s = out_of_fuel s
drawn (some v) s = ok v s

module _ (host : Host) where
  -- (unsigned int)cputime(T_SECS)
  unfoldable pub seed_time : Cmd ℕ
  seed_time = do t ← cputime host t_secs; ok (t % 2 ^ 32)

  unfoldable pub rand_lim : ℤ → Cmd ℤ
  rand_lim limit = do
    seed ← seed_time
    let above = limit +ℤ pos 1
    let divisor = quot_ℤ (pos host.rand_max) above
    if is_zero_ℤ above || is_zero_ℤ divisor
        then (λ s. trap division_by_zero)
        else drawn (lim_loop (host.rand seed) divisor limit host.draws 0)

  unfoldable pub rand_intr : ℕ → ℕ → Cmd ℕ
  rand_intr begin end = do
    let range = add64 (sub64 end begin) 1
    seed ← seed_time
    λ s.
        if range == 0
        then trap division_by_zero
        else ok (intr_value host.rand_max (host.rand seed) begin range) s
