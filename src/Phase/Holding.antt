-- ===== src/Phase/Holding.antt =====
-- Touching an allocation keeps the invariant, and the holding loop ends.
use memory_management_phase.Base.{
  ℕ, zero, suc, ◌≡◌, ◌≢◌, refl, ap, Bool, some, arith, ltb, Bool-cases, inl, inr,
}
use memory_management_phase.Base.Int.{pos, leb_ℤ}
use memory_management_phase.Machine.Host.{Host, IsHost, IsFair}
use memory_management_phase.Machine.State.{
  State, MemPattern, mem_fix, mem_stride, mem_seq, mem_rep, mem_rand, mem_max, Allocation,
}
use memory_management_phase.Machine.Run.{ok}
use memory_management_phase.Machine.Returns
use memory_management_phase.Machine.Returns.{Returns, returns, Ends, done, exits}
use memory_management_phase.Touch.Frame.{Kept}
use memory_management_phase.Pattern.{access}
use memory_management_phase.Pattern.Fix.Location.{IsFixed, pattern_fix_safe}
use memory_management_phase.Pattern.Sweep.Bytes.{
  Toggles, Toggles-Kept, pattern_seq_lem, pattern_repeat_lem,
}
use memory_management_phase.Pattern.Sweep.Strided.{pattern_stride_lem}
use memory_management_phase.Pattern.Rand.Bounds.{pattern_rand_lem}
use memory_management_phase.Track.{phase_index, current}
use memory_management_phase.Phase.{list_count, touch_at, touch, loop_n}
use memory_management_phase.Valid.{
  IsValid, IsAllocation, Steps, Steps-refl, Steps-trans, Steps-Kept, IsValid-Kept, IsFixed-Kept,
}

-- The state is valid, and differs as a step may make it.
abbrev pub Safe : State → State → Type 0
Safe s t = IsValid t × Steps s t

pub Safe-trans : {s t u : State} → Safe s t → Safe t u → Safe s u
Safe-trans h k = (k.0, Steps-trans h.1 k.1)

pub Kept-Safe : {s t : State} → IsValid s → Kept s t → IsFixed t.mem t.fix_head → Safe s t
Kept-Safe v k f = (IsValid-Kept k f v, Steps-Kept k)

Toggles-Safe : {s t : State} (hit : ℕ → Bool) (n : ℕ) → IsValid s → Toggles hit n s t → Safe s t
Toggles-Safe {s} {t} hit n v h =
    let k = Toggles-Kept hit n s t h in
    Kept-Safe v k (IsFixed-Kept k (ap (λ (u : State). u.fix_head) h.rest) v.fixed)

module _ (host : Host) (std : IsHost host) (fair : IsFair host) (page : host.page_size ≡ 4096) where
  pub access-Safe :
      (kind : MemPattern) (a : Allocation) (s : State)
      → kind ≢ mem_max
      → IsValid s
      → IsAllocation s.mem a
      → Ends (λ _ t. Safe s t) (access host kind a.addr a.len s)
  unfolding access
  access-Safe mem_fix a s h v al =
      Returns.mono_Ends
        (pattern_fix_safe host a.addr a.len s al.nonnull (omega (arith, al.a_page)) al.region
          v.fixed)
        λ _ t (k, f). Kept-Safe v k f
  access-Safe mem_stride a s h v al =
      let (d, _, _, _, run) =
        pattern_stride_lem a.addr a.len s (omega (arith, al.a_page)) al.region in
      Returns.mono_Ends (Returns.of_Returns run) λ _ t g. Toggles-Safe _ 1 v g
  access-Safe mem_seq a s h v al =
      Returns.mono_Ends (Returns.of_Returns (pattern_seq_lem a.addr a.len s al.region))
        λ _ t g. Toggles-Safe _ 1 v g
  access-Safe mem_rep a s h v al =
      let (d, _, _, _, run) =
        pattern_repeat_lem a.addr a.len s (omega (arith, al.a_page)) al.region in
      Returns.mono_Ends (Returns.of_Returns run) λ _ t g. Toggles-Safe _ _ v g
  access-Safe mem_rand a s h v al =
      Returns.mono_Ends
        (Returns.of_Returns
          (pattern_rand_lem host fair std page a.addr a.len s al.a_page al.region))
        λ _ t g. Kept-Safe v g.kept (IsFixed-Kept g.kept g.fixed v.fixed)
  access-Safe mem_max a s h v al = absurd (h refl)

  touch_at-Safe : (i p : ℕ) (s : State) → IsValid s → Ends (λ _ t. Safe s t) (touch_at host i p s)
  unfolding touch_at
  touch_at-Safe i p s v = elim (Bool-cases (ltb i (s.alloc_track p).list_count)) [
    | inl inside ↦
        rw inside (access-Safe s.config.access_type _ s v.access v (v.tracked p i (ground arith)))
    | inr outside ↦ rw outside (done (v, Steps-refl s))
  ]

  -- On a host that is as IsHost says, whose generator is fair, and with pages of 4096 bytes: on a
  -- valid state in a phase of the table, touch with any index returns, or exits for want of
  -- memory, in a valid state with the same settings and phase.
  pub touch-Safe :
      (i p : ℕ) (s : State)
      → IsValid s
      → phase_index s.curr ≡ some p
      → Ends (λ _ t. Safe s t) (touch host i s)
  unfolding touch current
  touch-Safe i p s v at = elim (Bool-cases (leb_ℤ (pos 0) s.curr)) [
    | inl some_phase ↦ rw (some_phase, at) (touch_at-Safe i p s v)
    | inr no_phase ↦ rw no_phase (done (v, Steps-refl s))
  ]

  pub list_count-ok :
      (p : ℕ) (s : State)
      → phase_index s.curr ≡ some p
      → list_count s ≡ ok (s.alloc_track p).list_count s
  unfolding list_count current
  list_count-ok p s at = rw at

  pub loop_n-Safe :
      (n p : ℕ) (s : State)
      → IsValid s
      → phase_index s.curr ≡ some p
      → Ends (λ _ t. Safe s t) (loop_n host n s)
  unfolding loop_n
  loop_n-Safe zero p s v at = done (v, Steps-refl s)
  loop_n-Safe (suc n) p s v at = rw (list_count-ok p s at) (
      Returns.bind_Ends (touch-Safe _ p s v at) λ _ t safe.
        Returns.mono_Ends (loop_n-Safe n p t safe.0 (rw safe.1.curr at))
          λ _ u safe'. Safe-trans safe safe')
