-- ===== src/Pattern/Sweep.antt =====
-- The stride, the sequential and the repeat pattern.
pub mod Bytes
pub mod Strided
use memory_management_phase.Base.{ℕ, zero, suc, ◌+◌, Option, none, some, ltb, if◌then◌else◌}
use memory_management_phase.Base.Word.{add64}
use memory_management_phase.Machine.Run.{
  Cmd, skip, trap, division_by_zero, out_of_fuel, ◌>>=◌, ◌>>◌,
}
use memory_management_phase.Touch.{offset, touch_simple}
use memory_management_phase.Pattern.Stride.{stride_get_offset}
use memory_management_phase.Pattern.Repeat.{repeat_get_count}

-- The loop of pattern_stride at index i, for `fuel` rounds at most.
unfoldable pub stride_touch : (fuel addr len stride i : ℕ) → Cmd (Unit {0})
stride_touch zero addr len stride i = if ltb i len then out_of_fuel else skip
stride_touch (suc fuel) addr len stride i =
    let rest = touch_simple (offset addr i) >> stride_touch fuel addr len stride (add64 i stride) in
    if ltb i len then rest else skip

-- A stride is at least 1, so `len` rounds are enough.
abbrev pub with_stride : Option ℕ → (ℕ → Cmd (Unit {0})) → Cmd (Unit {0})
with_stride none k s = trap division_by_zero
with_stride (some d) k s = k d s

unfoldable pub pattern_stride : ℕ → ℕ → Cmd (Unit {0})
pattern_stride addr len =
    with_stride (stride_get_offset len) (λ stride. stride_touch len addr len stride 0)

-- The loop of pattern_seq, with n rounds left.
unfoldable pub seq_touch : (addr n i : ℕ) → Cmd (Unit {0})
seq_touch addr zero i = skip
seq_touch addr (suc n) i = touch_simple (offset addr i) >> seq_touch addr n (i + 1)

unfoldable pub pattern_seq : ℕ → ℕ → Cmd (Unit {0})
pattern_seq addr len = seq_touch addr len 0

-- The outer loop of pattern_repeat; its inner loop is that of pattern_seq over the distance.
unfoldable pub repeat_touch : (addr dist rep_count : ℕ) → Cmd (Unit {0})
repeat_touch addr dist zero = skip
repeat_touch addr dist (suc rep_count) = seq_touch addr dist 0 >> repeat_touch addr dist rep_count

unfoldable pub pattern_repeat : ℕ → ℕ → Cmd (Unit {0})
pattern_repeat addr len =
    with_stride (stride_get_offset len) (λ dist. repeat_touch addr dist (repeat_get_count dist))
