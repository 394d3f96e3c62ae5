-- ===== src/Touch.antt =====
-- One access to one byte: touch_simple of mem_gobbler.c, and the store of fix_rand_loc. An access
-- to an address that is not mapped is a segmentation fault.
pub mod Frame
use memory_management_phase.Base.{ℕ, ◌+◌, ◌%◌, ◌^◌, Option, none, some, ◌==◌, if◌then◌else◌}
use memory_management_phase.Machine.State.{Memory, State}
use memory_management_phase.Machine.Run.{Cmd, ok, trap, segmentation}

-- &addr[i]
unfoldable pub offset : ℕ → ℕ → ℕ
offset addr i = (addr + i) % 2 ^ 64

abbrev pub write : Memory → ℕ → ℕ → Memory
write m p v q = if p == q then some v else m q

-- What touch_simple stores over a byte.
abbrev pub toggled : ℕ → ℕ
toggled v = if v == 0xf then 0 else 0xf

-- A store to `p` of a value that depends on the byte there.
abbrev pub store_over : Option ℕ → ℕ → (ℕ → ℕ) → Cmd (Unit {0})
store_over none p f s = trap segmentation
store_over (some v) p f s = ok tt (record s { mem = write s.mem p (f v) })

unfoldable pub touch_simple : ℕ → Cmd (Unit {0})
touch_simple p s = store_over (s.mem p) p toggled s

-- addr[i] = 0x00
unfoldable pub clear_byte : ℕ → Cmd (Unit {0})
clear_byte p s = store_over (s.mem p) p (λ _. 0) s
