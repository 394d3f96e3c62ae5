-- ===== src/Touch/Frame.antt =====
-- What accesses leave as it is: which addresses are mapped, the bytes outside a region, and the
-- variables of the program.
use native.Mathlib.Nat.{le_refl}
use memory_management_phase.Base.{
  ℕ, ◌+◌, ◌^◌, ◌≤◌, ◌<◌, ◌≡◌, refl, ◌⊎◌, inl, inr, Bool, true, false, Option, none, some, arith,
  Option-cases,
}
use memory_management_phase.Machine.State.{Memory, State}
use memory_management_phase.Machine.Run.{Run}
use memory_management_phase.Machine.Returns.{Returns, returns}
use memory_management_phase.Touch.{offset, write, toggled, touch_simple, clear_byte, store_over}

abbrev pub is_mapped : Option ℕ → Bool
is_mapped none = false
is_mapped (some _) = true

-- Every byte of the region is mapped, and the region lies in the address space.
pub record IsRegion (m : Memory) (base len : ℕ) : Type 0 where
  pub fits : base + len ≤ 2 ^ 63
  pub mapped : (p : ℕ) → base ≤ p → p < base + len → is_mapped (m p) ≡ true

-- The same addresses are mapped, no call of the host is undone, and of the program's state only the memory, the list of fixed
-- locations and the count of calls of the host may differ.
pub record Kept (s t : State) : Type 0 where
  pub mapping : (p : ℕ) → is_mapped (t.mem p) ≡ is_mapped (s.mem p)
  pub rest : t ≡ record s { mem = t.mem; calls = t.calls; fix_head = t.fix_head; notes = t.notes }
  pub calls : s.calls ≤ t.calls

-- Besides, the bytes outside the region are the same, and so is the list of fixed locations.
pub record Touched (base len : ℕ) (s t : State) : Type 0 where
  pub kept : Kept s t
  pub outside : (p : ℕ) → (p < base) ⊎ (base + len ≤ p) → t.mem p ≡ s.mem p
  pub fixed : t.fix_head ≡ s.fix_head

pub Kept-refl : (s : State) → Kept s s
Kept-refl s = record { mapping = λ p. refl; rest = refl; calls = le_refl s.calls }

pub Kept-trans : {s t u : State} → Kept s t → Kept t u → Kept s u
Kept-trans h k = record {
  mapping = λ p. ground (arith, h.mapping p, k.mapping p);
  rest = ground (arith, h.rest, k.rest);
  calls = omega (arith, h.calls, k.calls);
}

pub Touched-refl : (base len : ℕ) (s : State) → Touched base len s s
Touched-refl base len s = record { kept = Kept-refl s; outside = λ p _. refl; fixed = refl }

module _ {base len : ℕ} {s t u : State} where
  pub Touched-trans : Touched base len s t → Touched base len t u → Touched base len s u
  Touched-trans h k = record {
    kept = Kept-trans h.kept k.kept;
    outside = λ p o. ground (arith, h.outside p o, k.outside p o);
    fixed = cc (h.fixed, k.fixed);
  }

pub IsRegion-Kept :
    {s t : State} (base len : ℕ) → Kept s t → IsRegion s.mem base len → IsRegion t.mem base len
IsRegion-Kept base len k r = record {
  fits = r.fits;
  mapped = λ p h j. ground (arith, k.mapping p, r.mapped p h j);
}

pub write-mapping :
    (m : Memory) (p v q : ℕ) → is_mapped (m p) ≡ true → is_mapped (write m p v q) ≡ is_mapped (m q)
write-mapping m p v q h = ground arith

-- An access to a mapped byte returns, and changes nothing else.
pub touch_simple-eq :
    (p v : ℕ) (s : State)
    → s.mem p ≡ some v
    → touch_simple p s ≡ Run.ok tt (record s { mem = write s.mem p (toggled v) })
unfolding touch_simple
touch_simple-eq p v s e = rw e

pub store_over-Touched :
    (p base len : ℕ) (f : ℕ → ℕ) (s : State)
    → is_mapped (s.mem p) ≡ true
    → base ≤ p
    → p < base + len
    → Returns (λ _ t. Touched base len s t) (store_over (s.mem p) p f s)
store_over-Touched p base len f s m h k = elim (Option-cases (s.mem p)) [
  | inl e ↦ cc
  | inr (v, e) ↦ rw e (
      returns (record {
        kept = record {
          mapping = λ q. write-mapping s.mem p (f v) q m;
          rest = refl;
          calls = le_refl s.calls;
        };
        outside = λ q o. ground arith;
        fixed = refl;
      }))
]

pub offset-eq : (addr i : ℕ) → addr + i < 2 ^ 64 → offset addr i ≡ addr + i
unfolding offset
offset-eq addr i h = omega arith

pub region-byte :
    (m : Memory) (base len p : ℕ)
    → IsRegion m base len
    → base ≤ p
    → p < base + len
    → (v : ℕ) × (m p ≡ some v)
region-byte m base len p r h k = elim (Option-cases (m p)) [
  | inl e ↦ absurd (ground (arith, r.mapped p h k))
  | inr found ↦ found
]

-- A part of a region is a region.
pub IsRegion-part :
    (m : Memory) (base len base' len' : ℕ)
    → base ≤ base'
    → base' + len' ≤ base + len
    → IsRegion m base len
    → IsRegion m base' len'
IsRegion-part m base len base' len' h k r = record {
  fits = omega (arith, r.fits);
  mapped = λ p i j. r.mapped p (omega arith) (omega arith);
}

pub IsRegion-write :
    (m : Memory) (base len p v w : ℕ)
    → m p ≡ some w
    → IsRegion m base len
    → IsRegion (write m p v) base len
IsRegion-write m base len p v w e r = record {
  fits = r.fits;
  mapped = λ q i j. ground (arith, r.mapped q i j);
}

pub clear_byte-eq :
    (p v : ℕ) (s : State)
    → s.mem p ≡ some v
    → clear_byte p s ≡ Run.ok tt (record s { mem = write s.mem p 0 })
unfolding clear_byte
clear_byte-eq p v s e = rw e
