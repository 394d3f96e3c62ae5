-- ===== src/Pattern.antt =====
-- The memory access patterns of mem_gobbler.c: each takes the address and the length of an
-- allocation and touches bytes of it.
pub mod Stride
pub mod Repeat
pub mod Sweep
pub mod Fix
pub mod Rand
use memory_management_phase.Base.{ℕ}
use memory_management_phase.Machine.Host.{Host}
use memory_management_phase.Machine.State.{
  MemPattern, mem_fix, mem_stride, mem_seq, mem_rep, mem_rand, mem_max,
}
use memory_management_phase.Machine.Run.{Cmd, trap, out_of_bounds}
use Sweep.{pattern_stride, pattern_seq, pattern_repeat}
use Fix.{pattern_fix}
use Rand.{pattern_rand}

-- pattern[access_type](addr, len); the table has MEM_MAX entries.
unfoldable pub access : Host → MemPattern → ℕ → ℕ → Cmd (Unit {0})
access host mem_fix addr len = pattern_fix host addr len
access host mem_stride addr len = pattern_stride addr len
access host mem_seq addr len = pattern_seq addr len
access host mem_rep addr len = pattern_repeat addr len
access host mem_rand addr len = pattern_rand host addr len
access host mem_max addr len = λ s. trap out_of_bounds
