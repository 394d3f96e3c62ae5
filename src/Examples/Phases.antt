-- ===== src/Examples/Phases.antt =====
-- A job of the state, and its parts.
use memory_management_phase.Base.{◌+◌, ◌+◌, ◌≡◌, refl, some, arith}
use memory_management_phase.Base.Int.{pos, ◌+ℤ◌}
use memory_management_phase.Machine.Returns.{Ends}
use memory_management_phase.Track.{phase_index}
use memory_management_phase.Phase.{trans_rand_alloc}
use memory_management_phase.Phase.Transition.{Transited, trans_rand_alloc_lem}
use memory_management_phase.Examples.World.{host, host-IsHost, host-IsFair, state, state-IsValid}

next-phase : phase_index (state.curr +ℤ pos 1) ≡ some 1
unfolding ◌+ℤ◌
next-phase = refl

trans_rand_alloc_lem_example :
    Ends
      (λ v t. (v ≡ pos 0) × Transited 1 (state.curr +ℤ pos 1) state t)
      (trans_rand_alloc host state)
trans_rand_alloc_lem_example =
    trans_rand_alloc_lem host host-IsHost host-IsFair refl 1 state state-IsValid (omega arith)
      next-phase
