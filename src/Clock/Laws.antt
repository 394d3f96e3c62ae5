-- ===== src/Clock/Laws.antt =====
-- What the clocks, the sleep and the timer of mem_gobbler.c measure.
use memory_management_phase.Base.{ℕ, ◌+◌, ◌-◌, ◌*◌, ◌^◌, ◌<◌, ◌≤◌, ◌≡◌, ◌↔◌, ◌∙◌, arith}
use memory_management_phase.Base.Int.{pos}
use memory_management_phase.Machine.State.{Granularity, t_secs, t_milli, t_micro, t_nano}
use memory_management_phase.Machine.Host.{Host, IsHost}
use memory_management_phase.Clock.{cpu_units, cpu_reading, lt_sleep_delay, timer_end}

-- The two parts that lt_sleep hands to nanosleep are a timespec in range, and together they are the
-- timeout.
pub lt_sleep_delay_lem :
    (timeout : ℕ)
    → let (sec, nsec) = lt_sleep_delay timeout in
      (nsec < 1000000000) × (sec * 1000000000 + nsec ≡ timeout)
unfolding lt_sleep_delay
lt_sleep_delay_lem timeout = omega arith

-- For two clock readings in range, the first not later than the second, the timer gives the
-- nanoseconds between them if and only if both fall into the same second.
pub timer_end-elapsed :
    (s₁ n₁ s₂ n₂ : ℕ)
    → n₁ < 1000000000
    → n₂ < 1000000000
    → s₁ * 1000000000 + n₁ ≤ s₂ * 1000000000 + n₂
    → (timer_end (s₁, n₁) (s₂, n₂) ≡ pos (s₂ * 1000000000 + n₂ - (s₁ * 1000000000 + n₁)))
      ↔ (s₁ ≡ s₂)
unfolding timer_end
timer_end-elapsed s₁ n₁ s₂ n₂ h₁ h₂ le = (λ e. ground arith, λ e. ground arith)

cpu_reading-exact :
    (h : Host)
    → IsHost h
    → (n : ℕ) (ts : ℕ × ℕ) (t : Granularity) → h.cpu_clock n ≡ ts
    → cpu_units t ts ≤ 2 ^ 53
    → cpu_reading h t n ≡ cpu_units t ts
cpu_reading-exact h std n ts t e k = rw (cpu_reading, e) (std.to_double-exact _ k)

-- On a host whose doubles hold every whole number up to 2 ^ 53, and below 2 ^ 23 seconds, a reading of
-- the process clock in seconds or in milliseconds counts whole seconds only, one in microseconds drops
-- what is below a second, and one in nanoseconds is exact.
pub cpu_reading-whole :
    (h : Host)
    → IsHost h
    → (n sec nsec : ℕ) → h.cpu_clock n ≡ (sec, nsec)
    → sec < 2 ^ 23
    → nsec < 1000000000
    → (cpu_reading h t_secs n ≡ sec)
      × (cpu_reading h t_milli n ≡ sec * 1000)
      × (cpu_reading h t_micro n ≡ sec * 1000000)
      × (cpu_reading h t_nano n ≡ sec * 1000000000 + nsec)
unfolding cpu_units
cpu_reading-whole h std n sec nsec e k l = (
  cpu_reading-exact h std n (sec, nsec) t_secs e (omega arith) ∙ omega arith,
  cpu_reading-exact h std n (sec, nsec) t_milli e (omega arith) ∙ omega arith,
  cpu_reading-exact h std n (sec, nsec) t_micro e (omega arith) ∙ omega arith,
  cpu_reading-exact h std n (sec, nsec) t_nano e (omega arith) ∙ omega arith,
)
