-- ===== src/Track/Phases.antt =====
-- The phase index.
use memory_management_phase.Base.{ℕ, ◌<◌, ◌≡◌, arith, some}
use memory_management_phase.Base.Int.{ℤ, negsuc, pos, ◌+ℤ◌}
use memory_management_phase.Machine.State.{State}
use memory_management_phase.Machine.Run.{Cmd, ok, ◌>>◌, trap, out_of_bounds}
use memory_management_phase.Track.{go_to_nxt_phase, phase_index, current}

-- go_to_nxt_phase moves on from MAX_ALLOC - 1 to MAX_ALLOC, which is no index of the table: a use of
-- the current phase behind it is out of bounds.
pub go_to_nxt_phase-current :
    {A : Type 0}
    → (k : ℕ → Cmd A) (s : State) → s.curr ≡ pos 59999
    → (go_to_nxt_phase >> current k) s ≡ trap out_of_bounds
unfolding go_to_nxt_phase current
go_to_nxt_phase-current k s e = ground arith

pub go_to_nxt_phase-ok :
    (q : ℕ) (s : State)
    → phase_index (s.curr +ℤ pos 1) ≡ some q
    → go_to_nxt_phase s ≡ ok tt (record s { curr = s.curr +ℤ pos 1 })
unfolding go_to_nxt_phase
go_to_nxt_phase-ok q s e = ground arith

-- A phase of the table.
pub phase_index-lt : (curr : ℤ) (p : ℕ) → phase_index curr ≡ some p → p < 60000
phase_index-lt (pos q) p e = ground arith
phase_index-lt (negsuc q) p e = cc
