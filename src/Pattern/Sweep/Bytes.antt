-- ===== src/Pattern/Sweep/Bytes.antt =====
-- Which bytes the stride, the sequential and the repeat pattern change, and how.
use native.Mathlib.Nat.{add-zero}
use memory_management_phase.Base.{
  ℕ, zero, suc, ◌+◌, ◌<◌, ◌≤◌, ◌≡◌, refl, Bool, true, false, ◌&&◌, Option, none, some, arith, ltb,
  leb, ◌==◌, if◌then◌else◌,
}
use memory_management_phase.Machine.State.{State}
use memory_management_phase.Machine.Returns
use memory_management_phase.Machine.Returns.{Returns, returns}
use memory_management_phase.Touch.{toggled, write}
use memory_management_phase.Touch.Frame.{
  is_mapped, IsRegion, touch_simple-eq, offset-eq, region-byte, IsRegion-part, IsRegion-write,
  IsRegion-Kept, Kept,
}
use memory_management_phase.Pattern.Stride.{stride_get_offset, stride_get_offset_bounds}
use memory_management_phase.Pattern.Repeat.{repeat_get_count}
use memory_management_phase.Pattern.Sweep.{seq_touch, pattern_seq, repeat_touch, pattern_repeat}

abbrev pub toggle_cell : Option ℕ → Option ℕ
toggle_cell none = none
toggle_cell (some v) = some (toggled v)

abbrev pub toggle_times : ℕ → Option ℕ → Option ℕ
toggle_times zero o = o
toggle_times (suc n) o = toggle_times n (toggle_cell o)

abbrev pub in_range : (base n p : ℕ) → Bool
in_range base n p = leb base p && ltb p (base + n)

-- The bytes of the addresses that `hit` selects are toggled n times, and nothing else has changed.
pub record Toggles (hit : ℕ → Bool) (n : ℕ) (s t : State) : Type 0 where
  pub bytes : (p : ℕ) → t.mem p ≡ (if hit p then toggle_times n (s.mem p) else s.mem p)
  pub rest : t ≡ record s { mem = t.mem }

-- A step that toggles one byte, and a rest.
pub first_then :
    (hit hit' : ℕ → Bool) (a v : ℕ) (s t : State)
    → s.mem a ≡ some v
    → ((p : ℕ) → hit p ≡ (if a == p then true else hit' p))
    → hit' a ≡ false
    → Toggles hit' 1 (record s { mem = write s.mem a (toggled v) }) t
    → Toggles hit 1 s t
first_then hit hit' a v s t e split once rest = record {
  bytes = λ p. ground (arith, rest.bytes p, split p);
  rest = ground (arith, rest.rest);
}

seq_touch-Toggles :
    (addr n i : ℕ) (s : State)
    → IsRegion s.mem (addr + i) n
    → Returns (λ _ t. Toggles (in_range (addr + i) n) 1 s t) (seq_touch addr n i s)
unfolding seq_touch
seq_touch-Toggles addr zero i s r = returns (record { bytes = λ p. ground arith; rest = refl })
seq_touch-Toggles addr (suc n) i s r =
    let (v, e) = region-byte s.mem (addr + i) (suc n) (addr + i) r (omega arith) (omega arith) in
    let tail =
      seq_touch-Toggles addr n (i + 1) (record s { mem = write s.mem (addr + i) (toggled v) })
        (IsRegion-part (write s.mem (addr + i) (toggled v)) (addr + i) (suc n) (addr + (i + 1)) n
          (omega arith) (omega arith)
          (IsRegion-write s.mem (addr + i) (suc n) (addr + i) (toggled v) v e r)) in
    rw (offset-eq addr i (omega (arith, r.fits))) (
      rw (touch_simple-eq (addr + i) v s e) (
        Returns.mono tail
          (λ _ t h. first_then _ _ (addr + i) v s t e (λ p. ground arith) (ground arith) h)))

-- pattern_seq over mapped bytes returns; it has toggled each byte of the allocation once, and
-- changed nothing else.
pub pattern_seq_lem :
    (addr len : ℕ) (s : State)
    → IsRegion s.mem addr len
    → Returns (λ _ t. Toggles (in_range addr len) 1 s t) (pattern_seq addr len s)
unfolding pattern_seq
pattern_seq_lem addr len s r =
    let e = add-zero addr in rw e at (seq_touch-Toggles addr len 0 s (rw e r))

toggled_mapped : (n : ℕ) (o : Option ℕ) → is_mapped (toggle_times n o) ≡ is_mapped o
toggled_mapped zero o = refl
toggled_mapped (suc n) none = toggled_mapped n none
toggled_mapped (suc n) (some v) = toggled_mapped n (some (toggled v))

pub Toggles-Kept : (hit : ℕ → Bool) (n : ℕ) (s t : State) → Toggles hit n s t → Kept s t
Toggles-Kept hit n s t h = record {
  mapping = λ p. ground (arith, h.bytes p, toggled_mapped n (s.mem p));
  rest = ground (arith, h.rest);
  calls = ground (arith, h.rest);
}

pub Toggles-trans :
    (hit : ℕ → Bool) (n : ℕ) (s t u : State)
    → Toggles hit 1 s t
    → Toggles hit n t u
    → Toggles hit (suc n) s u
Toggles-trans hit n s t u h k = record {
  bytes = λ p. ground (arith, h.bytes p, k.bytes p);
  rest = ground (arith, h.rest, k.rest);
}

repeat_touch-Toggles :
    (addr dist n : ℕ) (s : State)
    → IsRegion s.mem addr dist
    → Returns (λ _ t. Toggles (in_range addr dist) n s t) (repeat_touch addr dist n s)
unfolding repeat_touch pattern_seq
repeat_touch-Toggles addr dist zero s r =
    returns (record { bytes = λ p. ground arith; rest = refl })
repeat_touch-Toggles addr dist (suc n) s r = Returns.bind (pattern_seq_lem addr dist s r) λ _ t h.
    Returns.mono
      (repeat_touch-Toggles addr dist n t (IsRegion-Kept addr dist (Toggles-Kept _ 1 s t h) r))
      (λ _ u k. Toggles-trans _ n s t u h k)

-- pattern_repeat over a mapped allocation of at least one byte returns; for a distance from 1 to
-- the length it has toggled each of the first bytes up to the distance as often as
-- repeat_get_count says of it, and changed nothing else.
pub pattern_repeat_lem :
    (addr len : ℕ) (s : State)
    → 0 < len
    → IsRegion s.mem addr len
    → (dist : ℕ) × (stride_get_offset len ≡ some dist)
      × (0 < dist)
      × (dist ≤ len)
      × Returns
          (λ _ t. Toggles (in_range addr dist) (repeat_get_count dist) s t)
          (pattern_repeat addr len s)
unfolding pattern_repeat
pattern_repeat_lem addr len s h r =
    let (dist, e, pos_d, le, _) = stride_get_offset_bounds len h in
    let part = IsRegion-part s.mem addr len addr dist (omega arith) (omega arith) r in
    (dist, e, pos_d, le, rw e (repeat_touch-Toggles addr dist (repeat_get_count dist) s part))
