-- ===== src/Clock.antt =====
-- Time management of mem_gobbler.c: the conversion table, the two clocks, the sleep and the timer.
-- The fields of the table are unsigned longs, so its fractions are 0. A clock's reading is an
-- unsigned long, which is then converted to a double.
pub mod Laws
use memory_management_phase.Base.{ℕ, ◌+◌, ◌-◌, ◌*◌, ◌/◌, ◌%◌, ◌^◌}
use memory_management_phase.Base.Int.{ℤ, sub_ℕ}
use memory_management_phase.Machine.Host.{Host}
use memory_management_phase.Machine.State.{Granularity, t_secs, t_milli, t_micro, t_nano}
use memory_management_phase.Machine.Run.{Cmd, ask}

pub record Conv : Type 0 where
  pub secs : ℕ
  pub microsecs : ℕ
  pub nanosecs : ℕ

-- `converter`, with 1E-3, 1E-6 and 1E-9 as unsigned longs
abbrev pub converter : Granularity → Conv
converter t_secs = record { secs = 1; microsecs = 0; nanosecs = 0 }
converter t_milli = record { secs = 1000; microsecs = 0; nanosecs = 0 }
converter t_micro = record { secs = 1000000; microsecs = 1; nanosecs = 0 }
converter t_nano = record { secs = 1000000000; microsecs = 1000; nanosecs = 1 }

-- The arithmetic of cputime and wctime on one reading of the clock.
unfoldable pub cpu_units : Granularity → ℕ × ℕ → ℕ
cpu_units t (tv_sec, tv_nsec) =
    (tv_sec * (converter t).secs + tv_nsec * (converter t).nanosecs) % 2 ^ 64

unfoldable pub wall_units : Granularity → ℕ × ℕ → ℕ
wall_units t (tv_sec, tv_usec) =
    (tv_sec * (converter t).secs + tv_usec * (converter t).microsecs) % 2 ^ 64

-- What lt_sleep hands to nanosleep: tv_sec and tv_nsec.
unfoldable pub lt_sleep_delay : ℕ → ℕ × ℕ
lt_sleep_delay timeout = (timeout / 1000000000, timeout % 1000000000)

-- timer_end, at the time that timer_start returned and the time when it is called
unfoldable pub timer_end : ℕ × ℕ → ℕ × ℕ → ℤ
timer_end (_, start_nsec) (_, end_nsec) = sub_ℕ end_nsec start_nsec

module _ (host : Host) where
  -- The value that cputime returns, a double, at the call n of the host.
  abbrev pub cpu_reading : Granularity → ℕ → ℕ
  cpu_reading t n = host.to_double (cpu_units t (host.cpu_clock n))

  abbrev pub wall_reading : Granularity → ℕ → ℕ
  wall_reading t n = host.to_double (wall_units t (host.wall_clock n))

  unfoldable pub cputime : Granularity → Cmd ℕ
  cputime t = ask (cpu_reading t)

  unfoldable pub wctime : Granularity → Cmd ℕ
  wctime t = ask (wall_reading t)
