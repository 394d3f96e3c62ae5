-- ===== src/Precise/Time.antt =====
-- time_manager.c, which is word for word the time management of mem_gobbler.c but for the clock that
-- cputime reads: that of the process, where mem_gobbler.c, which has one thread, reads that of the
-- thread.
use memory_management_phase.Base.{ℕ}
use memory_management_phase.Base.Int.{ℤ}
use memory_management_phase.Machine.Host.{Host}
use memory_management_phase.Machine.State.{Granularity}
use memory_management_phase.Machine.Run.{Cmd}
use memory_management_phase.Clock
use memory_management_phase.Clock.{Conv}

abbrev pub converter : Granularity → Conv
converter = Clock.converter

abbrev pub lt_sleep_delay : ℕ → ℕ × ℕ
lt_sleep_delay = Clock.lt_sleep_delay

abbrev pub wctime : Host → Granularity → Cmd ℕ
wctime = Clock.wctime

abbrev pub cputime : Host → Granularity → Cmd ℕ
cputime = Clock.cputime

abbrev pub timer_end : ℕ × ℕ → ℕ × ℕ → ℤ
timer_end = Clock.timer_end
