-- ===== src/Pattern/Fix/Location.antt =====
-- The location that the fix pattern keeps for an allocation, and that it stays inside mapped memory.
use memory_management_phase.Base.{
  ℕ, ◌+◌, ◌-◌, ◌<◌, ◌≤◌, ◌≡◌, ◌≢◌, refl, ◌∙◌, inl, inr, true, false, ◌||◌, none, some, List, [],
  ◌∷◌, arith, length, ltb, ◌==◌, Bool-cases, Option-cases,
}
use memory_management_phase.Base.Word.{sub64-eq}
use memory_management_phase.Machine.Host.{Host}
use memory_management_phase.Machine.State.{Memory, State, FixNode, deciding}
use memory_management_phase.Machine.Run.{noted}
use memory_management_phase.Machine.Returns
use memory_management_phase.Machine.Returns.{Returns, returns, Ends, done, exits}
use memory_management_phase.Random.Laws.{rand_intr_bounds}
use memory_management_phase.Touch.{offset, toggled, touch_simple, write}
use memory_management_phase.Touch.Frame.{
  is_mapped, IsRegion, Kept, write-mapping, touch_simple-eq, clear_byte-eq, offset-eq, region-byte,
}
use memory_management_phase.Pattern.Fix.{
  fix_exists, fix_alloc_node, fix_loc, fix_rand_loc, fix_first, pattern_fix,
}

-- The location of every node in the list is mapped.
abbrev pub IsFixed : Memory → List FixNode → Type 0
IsFixed m [] = Unit
IsFixed m (n ∷ ns) = (is_mapped (m (offset n.addr n.loc)) ≡ true) × IsFixed m ns

pub IsFixed-mono :
    (m m' : Memory) (ns : List FixNode)
    → ((p : ℕ) → is_mapped (m p) ≡ true → is_mapped (m' p) ≡ true)
    → IsFixed m ns
    → IsFixed m' ns
IsFixed-mono m m' [] g h = tt
IsFixed-mono m m' (n ∷ ns) g h = (g _ h.0, IsFixed-mono m m' ns g h.1)

-- A number that was drawn from 0 to the length less ten is kept as it is.
fix_loc-eq : (len drawn : ℕ) → drawn ≤ len → fix_loc len drawn ≡ drawn
unfolding fix_loc
fix_loc-eq len drawn h = ground arith

fix_exists-mapped :
    (m : Memory) (addr : ℕ) (ns : List FixNode) (n : FixNode)
    → IsFixed m ns
    → fix_exists addr ns ≡ some n
    → (n.addr ≡ addr) × (is_mapped (m (offset n.addr n.loc)) ≡ true)
unfolding fix_exists
fix_exists-mapped m addr [] n h e = cc
fix_exists-mapped m addr (k ∷ ns) n h e = ground (arith, fix_exists-mapped m addr ns n h.1)

-- What the first touch of an allocation does: a location for the allocation heads the list, at
-- least ten bytes before its end; the location is written to the standard output, the byte there is
-- cleared, and nothing else has changed but the count of calls of the host.
pub record Fixes (addr len : ℕ) (s t : State) : Type 0 where
  pub loc : ℕ
  pub inside : loc + 10 ≤ len
  pub state : t ≡ record s {
    mem = write s.mem (addr + loc) 0;
    calls = s.calls + 2;
    fix_head = record { addr = addr; loc = loc } ∷ s.fix_head;
    notes = (length s.printed, deciding loc) ∷ s.notes;
  }

module _ (host : Host) where
  fix_rand_loc-Fixes :
      (addr len : ℕ) (s : State)
      → 10 ≤ len
      → IsRegion s.mem addr len
      → Ends
          (λ _ t. Fixes addr len s t)
          (fix_rand_loc host addr len (record s {
            calls = s.calls + 1;
            fix_head = record { addr = addr; loc = 0 } ∷ s.fix_head;
          }))
  unfolding fix_rand_loc noted
  fix_rand_loc-Fixes addr len s h r =
      let begin : State = record s {
        calls = s.calls + 1;
        fix_head = record { addr = addr; loc = 0 } ∷ s.fix_head;
      } in
      let some_len : (len == 0) ≡ false = ground arith in
      rw (some_len, sub64-eq len 10 h (omega (arith, r.fits)))
        (Returns.bind_Ends
          (Returns.of_Returns (
            rand_intr_bounds host begin 0 (len - 10) (omega arith) (omega (arith, r.fits))
              (omega (arith, r.fits))))
          λ v t (low, high, same).
            let (b, e) = region-byte s.mem addr len (addr + v) r (omega arith) (omega arith) in
            let kept = fix_loc-eq len v (omega arith) in
            let place = offset-eq addr v (omega (arith, r.fits)) in
            let set : State = record begin {
              calls = s.calls + 1 + 1;
              fix_head = record { addr = addr; loc = v } ∷ s.fix_head;
              notes = (length s.printed, deciding v) ∷ s.notes;
            } in
            let right : ltb len v ≡ false = ground arith in
            rw same (
              rw (right, kept, place)
                (rw (clear_byte-eq (addr + v) b set e)
                  (done (record { loc = v; inside = omega arith; state = ground arith })))))

  fix_first-Fixes :
      (addr len : ℕ) (s : State)
      → 10 ≤ len
      → IsRegion s.mem addr len
      → Ends (λ _ t. Fixes addr len s t) (fix_first host addr len s)
  unfolding fix_first fix_alloc_node
  fix_first-Fixes addr len s h r = elim (Bool-cases (host.malloc s.calls)) [
    | inl found ↦ rw found (fix_rand_loc-Fixes addr len s h r)
    | inr full ↦ rw full exits
  ]

  -- An allocation in the list: the pattern touches its location, whatever the length is.
  pub pattern_fix-known :
      (addr len : ℕ) (s : State) (n : FixNode)
      → addr ≢ 0
      → len ≢ 0
      → fix_exists addr s.fix_head ≡ some n
      → pattern_fix host addr len s ≡ touch_simple (offset n.addr n.loc) s
  unfolding pattern_fix
  pattern_fix-known addr len s n h k e =
      let go : (addr == 0 || len == 0) ≡ false = ground arith in rw (go, e)

  pattern_fix-new :
      (addr len : ℕ) (s : State)
      → addr ≢ 0
      → len ≢ 0
      → fix_exists addr s.fix_head ≡ none
      → pattern_fix host addr len s ≡ fix_first host addr len s
  unfolding pattern_fix
  pattern_fix-new addr len s h k e =
      let go : (addr == 0 || len == 0) ≡ false = ground arith in rw (go, e)

  Fixes-IsFixed :
      (addr len : ℕ) (s t : State)
      → IsRegion s.mem addr len
      → IsFixed s.mem s.fix_head
      → Fixes addr len s t
      → Kept s t × IsFixed t.mem t.fix_head
  Fixes-IsFixed addr len s t r h f =
      let l = f.loc in
      let (b, e) =
        region-byte s.mem addr len (addr + l) r (omega arith) (omega (arith, f.inside)) in
      let place = offset-eq addr l (omega (arith, r.fits, f.inside)) in
      let here : is_mapped (s.mem (addr + l)) ≡ true = rw e refl in
      let keep = λ (p : ℕ). write-mapping s.mem (addr + l) 0 p here in
      let m = write s.mem (addr + l) 0 in
      let old : IsFixed m s.fix_head = IsFixed-mono s.mem m s.fix_head (λ p k. keep p ∙ k) h in
      let new : is_mapped (m (offset addr l)) ≡ true = rw place (keep (addr + l) ∙ here) in
      rw f.state (record { mapping = keep; rest = refl; calls = omega arith }, (new, old))

  known-IsFixed :
      (addr : ℕ) (s : State) (n : FixNode)
      → IsFixed s.mem s.fix_head
      → fix_exists addr s.fix_head ≡ some n
      → Returns (λ _ t. Kept s t × IsFixed t.mem t.fix_head) (touch_simple (offset n.addr n.loc) s)
  known-IsFixed addr s n h e =
      let (_, here) = fix_exists-mapped s.mem addr s.fix_head n h e in
      let p = offset n.addr n.loc in
      elim (Option-cases (s.mem p)) [
        | inl gone ↦ absurd (ground arith)
        | inr (v, held) ↦
            let keep = λ (q : ℕ). write-mapping s.mem p (toggled v) q here in
            let m = write s.mem p (toggled v) in
            rw (touch_simple-eq p v s held) (
              returns (
                record { mapping = keep; rest = refl; calls = omega arith },
                IsFixed-mono s.mem m s.fix_head (λ q k. keep q ∙ k) h,
              ))
      ]

  pub pattern_fix_safe :
      (addr len : ℕ) (s : State)
      → 0 < addr
      → 10 ≤ len
      → IsRegion s.mem addr len
      → IsFixed s.mem s.fix_head
      → Ends (λ _ t. Kept s t × IsFixed t.mem t.fix_head) (pattern_fix host addr len s)
  pattern_fix_safe addr len s h k r f = elim (Option-cases (fix_exists addr s.fix_head)) [
    | inl new ↦ rw (pattern_fix-new addr len s (omega arith) (omega arith) new) (
        Returns.mono_Ends (fix_first-Fixes addr len s k r)
          λ _ t g. Fixes-IsFixed addr len s t r f g)
    | inr (n, old) ↦
        rw (pattern_fix-known addr len s n (omega arith) (omega arith) old)
          (Returns.of_Returns (known-IsFixed addr s n f old))
  ]
