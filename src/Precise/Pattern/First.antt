-- ===== src/Precise/Pattern/First.antt =====
-- What calls of the fix pattern of pattern_manager.c do to memory and to the list.
use memory_management_phase.Base.{
  ℕ, zero, suc, ◌+◌, ◌<◌, ◌≡◌, refl, true, false, Option, none, some, List, [], ◌∷◌, arith, ◌||◌,
  ◌==◌, Option-cases, inl, inr,
}
use memory_management_phase.Machine.Host.{Host}
use memory_management_phase.Machine.State.{State, Memory, FixNode}
use memory_management_phase.Machine.Run.{Cmd, ok, skip, ◌>>◌}
use memory_management_phase.Machine.Returns
use memory_management_phase.Machine.Returns.{Returns, returns}
use memory_management_phase.Touch.{toggled, write}
use memory_management_phase.Touch.Frame.{touch_simple-eq}
use memory_management_phase.Pattern.Fix
use memory_management_phase.Pattern.Sweep.Bytes.{Toggles, Toggles-trans}
use memory_management_phase.Precise.Pattern.{pattern_fix, fix_exists}

-- The state with the address in the list.
abbrev pub with_node : ℕ → State → Option FixNode → State
with_node addr s none = record s {
  calls = s.calls + 1;
  fix_head = record { addr = addr; loc = 0 } ∷ s.fix_head;
}
with_node addr s (some _) = s

unfoldable pub noted : ℕ → State → State
noted addr s = with_node addr s (fix_exists addr s.fix_head)

fix_exists-addr :
    (addr : ℕ) (ns : List FixNode) (n : FixNode) → fix_exists addr ns ≡ some n → n.addr ≡ addr
unfolding Fix.fix_exists
fix_exists-addr addr [] n e = cc
fix_exists-addr addr (k ∷ ns) n e = ground (arith, fix_exists-addr addr ns n)

one_byte :
    (addr v : ℕ) (s : State)
    → s.mem addr ≡ some v
    → Toggles (λ p. addr == p) 1 s (record s { mem = write s.mem addr (toggled v) })
one_byte addr v s e = record { bytes = λ p. ground arith; rest = refl }

module _ (host : Host) (addr len : ℕ) where
  -- n calls
  unfoldable pub calls_of_fix : ℕ → Cmd (Unit {0})
  calls_of_fix zero = skip
  calls_of_fix (suc n) = pattern_fix host addr len >> calls_of_fix n

  known-Toggles :
      (n : FixNode) (v : ℕ) (s : State)
      → 0 < addr
      → 0 < len
      → s.mem addr ≡ some v
      → fix_exists addr s.fix_head ≡ some n
      → pattern_fix host addr len s ≡ ok tt (record s { mem = write s.mem addr (toggled v) })
  unfolding pattern_fix
  known-Toggles n v s h k m e =
      let go : (addr == 0 || len == 0) ≡ false = ground arith in
      let at = fix_exists-addr addr s.fix_head n e in
      rw (go, e) (rw at (touch_simple-eq addr v s m))

  calls-Toggles :
      (k : ℕ) (n : FixNode) (v : ℕ) (s : State)
      → 0 < addr
      → 0 < len
      → s.mem addr ≡ some v
      → fix_exists addr s.fix_head ≡ some n
      → Returns (λ _ t. Toggles (λ p. addr == p) k s t) (calls_of_fix k s)
  unfolding calls_of_fix
  calls-Toggles zero n v s h j m e = returns (record { bytes = λ p. ground arith; rest = refl })
  calls-Toggles (suc k) n v s h j m e =
      let next : State = record s { mem = write s.mem addr (toggled v) } in
      let here : next.mem addr ≡ some (toggled v) = ground arith in
      rw (known-Toggles n v s h j m e) (
        Returns.mono (calls-Toggles k n (toggled v) next h j here e)
          λ _ u rest. Toggles-trans _ k s next u (one_byte addr v s m) rest)

  -- The first of the calls, whether the address is in the list or not.
  pub first-Toggles :
      (v : ℕ) (s : State)
      → 0 < addr
      → 0 < len
      → host.malloc s.calls ≡ true
      → s.mem addr ≡ some v
      → pattern_fix host addr len s
        ≡ ok tt (record (noted addr s) { mem = write s.mem addr (toggled v) })
  unfolding pattern_fix noted Fix.fix_alloc_node
  first-Toggles v s h k room m = elim (Option-cases (fix_exists addr s.fix_head)) [
    | inr (n, old) ↦ rw old (known-Toggles n v s h k m old)
    | inl new ↦
        let go : (addr == 0 || len == 0) ≡ false = ground arith in
        let t : State = record s {
          calls = s.calls + 1;
          fix_head = record { addr = addr; loc = 0 } ∷ s.fix_head;
        } in
        rw (go, new) (rw room (touch_simple-eq addr v t m))
  ]

  noted-known :
      (s : State) (m : Memory)
      → (n : FixNode) × (fix_exists addr (record (noted addr s) { mem = m }).fix_head ≡ some n)
  unfolding noted Fix.fix_exists
  noted-known s m = elim (Option-cases (fix_exists addr s.fix_head)) [
    | inr (n, old) ↦ (n, rw old old)
    | inl new ↦ (record { addr = addr; loc = 0 }, rw new (ground arith))
  ]

  noted-mem : (s : State) → (noted addr s).mem ≡ s.mem
  unfolding noted
  noted-mem s = elim (Option-cases (fix_exists addr s.fix_head)) [
    | inr (n, old) ↦ rw old refl
    | inl new ↦ rw new refl
  ]

  -- At least one call of pattern_fix of pattern_manager.c on an allocation with a mapped first byte,
  -- with memory for malloc: each call toggles that byte, and behind all of them the address stands in
  -- the list, put there by the first call if it was not in it before; no other byte and no other
  -- variable of the program has changed.
  pub calls_of_fix-Toggles :
      (k v : ℕ) (s : State)
      → 0 < addr
      → 0 < len
      → host.malloc s.calls ≡ true
      → s.mem addr ≡ some v
      → Returns (λ _ t. Toggles (λ p. addr == p) (suc k) (noted addr s) t) (calls_of_fix (suc k) s)
  unfolding calls_of_fix noted
  calls_of_fix-Toggles k v s h j room m =
      let next : State = record (noted addr s) { mem = write s.mem addr (toggled v) } in
      let here : next.mem addr ≡ some (toggled v) = ground arith in
      let (n, known) = noted-known s (write s.mem addr (toggled v)) in
      let begin : (noted addr s).mem ≡ s.mem = noted-mem s in
      let one = one_byte addr v (noted addr s) (rw begin m) in
      rw (first-Toggles v s h j room m) (
        Returns.mono (calls-Toggles k n (toggled v) next h j here known)
          λ _ u rest. Toggles-trans _ k (noted addr s) next u (rw begin at one) rest)
