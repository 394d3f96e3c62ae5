-- ===== src/Examples/Patterns.antt =====
-- The patterns on the two pages of the state.
use memory_management_phase.Base.{ℕ, ◌<◌, ◌≤◌, ◌≡◌, refl, some, arith}
use memory_management_phase.Base.Int.{pos}
use memory_management_phase.Machine.Returns.{Returns}
use memory_management_phase.Touch.Frame.{Touched}
use memory_management_phase.Random.{rand_lim}
use memory_management_phase.Random.Laws.{called, rand_lim-lt}
use memory_management_phase.Pattern.Stride.{stride_loop, stride_get_offset}
use memory_management_phase.Pattern.Repeat.{repeat_get_count}
use memory_management_phase.Pattern.Sweep.{pattern_stride, pattern_seq, pattern_repeat}
use memory_management_phase.Pattern.Sweep.Bytes.{
  Toggles, in_range, pattern_seq_lem, pattern_repeat_lem,
}
use memory_management_phase.Pattern.Sweep.Strided.{in_steps, pattern_stride_lem}
use memory_management_phase.Pattern.Rand.{pattern_rand}
use memory_management_phase.Pattern.Rand.Bounds.{pattern_rand_lem}
use memory_management_phase.Examples.World.{host, host-IsHost, host-IsFair, state, state-IsRegion}

pattern_seq_lem_example :
    Returns (λ _ t. Toggles (in_range 1048576 8192) 1 state t) (pattern_seq 1048576 8192 state)
pattern_seq_lem_example = pattern_seq_lem 1048576 8192 state state-IsRegion

pattern_stride_lem_example :
    (d : ℕ) × (stride_get_offset 8192 ≡ some d)
    × (0 < d)
    × (d ≤ 8192)
    × Returns
        (λ _ t. Toggles (in_steps 1048576 8192 d) 1 state t)
        (pattern_stride 1048576 8192 state)
pattern_stride_lem_example = pattern_stride_lem 1048576 8192 state (omega arith) state-IsRegion

pattern_repeat_lem_example :
    (dist : ℕ) × (stride_get_offset 8192 ≡ some dist)
    × (0 < dist)
    × (dist ≤ 8192)
    × Returns
        (λ _ t. Toggles (in_range 1048576 dist) (repeat_get_count dist) state t)
        (pattern_repeat 1048576 8192 state)
pattern_repeat_lem_example = pattern_repeat_lem 1048576 8192 state (omega arith) state-IsRegion

pattern_rand_lem_example :
    Returns (λ _ t. Touched 1048576 8192 state t) (pattern_rand host 1048576 8192 state)
pattern_rand_lem_example =
    pattern_rand_lem host host-IsFair host-IsHost refl 1048576 8192 state (omega arith)
      state-IsRegion

rand_lim-lt_example :
    Returns
      (λ v s'. ((n : ℕ) × (v ≡ pos n) × (n < 3)) × (s' ≡ called state))
      (rand_lim host (pos 3) state)
rand_lim-lt_example = rand_lim-lt host host-IsFair state 3 (omega arith) (omega arith)

-- The stride of two pages, of 300 bytes (a 200th, behind two halvings) and of one byte.
stride_8192 : stride_get_offset 8192 ≡ some 8
unfolding stride_get_offset stride_loop
stride_8192 = refl

stride_300 : stride_get_offset 300 ≡ some 1
unfolding stride_get_offset stride_loop
stride_300 = refl
