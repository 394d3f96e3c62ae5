-- ===== src/Pattern/Sweep/Strided.antt =====
-- Which bytes the stride pattern changes.
use native.Mathlib.Nat.{add-zero, mod-eq_of_lt, mod-eq-sub-mod}
use memory_management_phase.Base.{
  ℕ, zero, suc, ◌+◌, ◌-◌, ◌%◌, ◌<◌, ◌≤◌, ◌≡◌, refl, inl, inr, Bool, true, false, ◌&&◌, some, arith,
  ltb, ◌==◌, if◌then◌else◌, Bool-cases,
}
use memory_management_phase.Base.Word.{add64, add64-eq}
use memory_management_phase.Machine.State.{State}
use memory_management_phase.Machine.Returns
use memory_management_phase.Machine.Returns.{Returns, returns}
use memory_management_phase.Touch.{toggled, write}
use memory_management_phase.Touch.Frame.{
  IsRegion, touch_simple-eq, offset-eq, region-byte, IsRegion-write,
}
use memory_management_phase.Pattern.Stride.{stride_get_offset, stride_get_offset_bounds}
use memory_management_phase.Pattern.Sweep.{stride_touch, pattern_stride}
use memory_management_phase.Pattern.Sweep.Bytes.{Toggles, in_range, first_then}

-- The multiples of the stride, counted from the base, that lie in the range.
abbrev pub in_steps : (base n d p : ℕ) → Bool
in_steps base n d p = in_range base n p && (p - base) % d == 0

-- The first multiple is the base, and the others are those from base + d on.
in_steps-next :
    (base n d base' n' p : ℕ)
    → base' ≡ base + d
    → n' ≡ n - d
    → 0 < d
    → 0 < n
    → in_steps base n d p ≡ (if base == p then true else in_steps base' n' d p)
in_steps-next base n d base' n' p e f h k = elim (Bool-cases (ltb (p - base) d)) [
  | inl lt ↦ let small : p - base < d = ground arith in ground (arith, mod-eq_of_lt small)
  | inr ge ↦
      let big : d ≤ p - base = ground arith in
      let same : p - base' ≡ p - base - d = omega arith in ground (arith, mod-eq-sub-mod big, same)
]

stride_touch-Toggles :
    (fuel addr len d i : ℕ) (s : State)
    → 0 < d
    → d ≤ len
    → len ≤ i + fuel
    → i < len + d
    → IsRegion s.mem addr len
    → Returns
        (λ _ t. Toggles (in_steps (addr + i) (len - i) d) 1 s t)
        (stride_touch fuel addr len d i s)
unfolding stride_touch
stride_touch-Toggles zero addr len d i s h j k l r =
    let done : ltb i len ≡ false = ground arith in
    rw done (returns (record { bytes = λ p. ground arith; rest = refl }))
stride_touch-Toggles (suc fuel) addr len d i s h j k l r = elim (Bool-cases (ltb i len)) [
  | inl more ↦
      let lt : i < len = ground arith in
      let (v, e) = region-byte s.mem addr len (addr + i) r (omega arith) (omega arith) in
      let next : State = record s { mem = write s.mem (addr + i) (toggled v) } in
      let sum : add64 i d ≡ i + d = add64-eq i d (omega (arith, r.fits)) in
      let split = λ (p : ℕ).
        in_steps-next (addr + i) (len - i) d (addr + (i + d)) (len - (i + d)) p (omega arith)
          (omega arith) h (omega arith) in
      let tail =
        stride_touch-Toggles fuel addr len d (i + d) next h j (omega arith) (omega arith)
          (IsRegion-write s.mem addr len (addr + i) (toggled v) v e r) in
      rw (more, offset-eq addr i (omega (arith, r.fits)))
        (rw (touch_simple-eq (addr + i) v s e) (
          rw sum (
            Returns.mono tail (λ _ t k. first_then _ _ (addr + i) v s t e split (ground arith) k))))
  | inr done ↦ rw done (returns (record { bytes = λ p. ground arith; rest = refl }))
]

-- pattern_stride over a mapped allocation of at least one byte returns; for a stride from 1 to the
-- length it has toggled each byte of the allocation whose index is a multiple of the stride once,
-- and changed nothing else.
pub pattern_stride_lem :
    (addr len : ℕ) (s : State)
    → 0 < len
    → IsRegion s.mem addr len
    → (d : ℕ) × (stride_get_offset len ≡ some d)
      × (0 < d)
      × (d ≤ len)
      × Returns (λ _ t. Toggles (in_steps addr len d) 1 s t) (pattern_stride addr len s)
unfolding pattern_stride
pattern_stride_lem addr len s h r =
    let (d, e, pos_d, le, _) = stride_get_offset_bounds len h in
    let start = stride_touch-Toggles len addr len d 0 s pos_d le (omega arith) (omega arith) r in
    let sum = add-zero addr in
    let all : len - 0 ≡ len = omega arith in (d, e, pos_d, le, rw e (rw (sum, all) at start))
