-- ===== src/Precise/Alloc/Same.antt =====
-- The allocator of alloc_manager.c does what that of mem_gobbler.c does with a negative slice, but for
-- the count that is left.
use memory_management_phase.Base.{
  ℕ, ◌+◌, ◌%◌, ◌^◌, ◌≡◌, refl, ap, sym, subst, true, arith, ◌==◌, if◌then◌else◌, Bool-cases, inl,
  inr,
}
use memory_management_phase.Base.Int.{pos, negsuc, ltb_ℤ, leb_ℤ}
use memory_management_phase.Machine.Host.{Host}
use memory_management_phase.Machine.State.{State, MemType, file, anon, type_max}
use memory_management_phase.Machine.Run.{
  Run, Trap, Status, ok, exit, trap, out_of_fuel, and_then, ◌>>=◌,
}
use memory_management_phase.Track.{add_new_alloc}
use memory_management_phase.Alloc
use memory_management_phase.Alloc.{Mapped, map_found, ratio_type}
use memory_management_phase.Precise.Modules.{Modules, IsModules}
use memory_management_phase.Precise.Alloc.{
  randomize_alloc_type, randomize_alloc_len, alloc, record_alloc, random_allocator_one,
}

-- How a run ends.
data Ending {A : Type 0} (r : Run A) : Type 0 where
  returned : (a : A) (t : State) → r ≡ ok a t → Ending r
  exited : (c : Status) (t : State) → r ≡ exit c t → Ending r
  trapped : (c : Trap) → r ≡ trap c → Ending r
  endless : (u : State) → r ≡ out_of_fuel u → Ending r

ending : {A : Type 0} → (r : Run A) → Ending r
ending (ok a t) = returned a t refl
ending (exit c t) = exited c t refl
ending (trap c) = trapped c refl
ending (out_of_fuel u) = endless u refl

randomize_alloc_type-eq :
    (host : Host) (k : ℕ) (s : State)
    → Alloc.randomize_alloc_type host (negsuc k) s ≡ randomize_alloc_type s
unfolding randomize_alloc_type Alloc.randomize_alloc_type
randomize_alloc_type-eq host k s =
    let negative : ltb_ℤ (negsuc k) (pos 0) ≡ true = ground arith in rw negative refl

record_alloc-eq :
    (host : Host) (type : MemType) (cnt : ℕ) (found : Mapped) (s : State)
    → and_then (Alloc.record_alloc host type cnt found s) (λ r. ok r.0)
      ≡ record_alloc host type found s
unfolding record_alloc Alloc.record_alloc
record_alloc-eq host type cnt found s = elim (ending (add_new_alloc found.addr found.len type s)) [
  | exited c t e ↦ rw e refl
  | trapped c e ↦ rw e refl
  | endless u e ↦ rw e refl
  | returned alloc_suc t e ↦ rw e (elim (Bool-cases (leb_ℤ (pos 1) alloc_suc)) [
    | inl added ↦ rw added (elim (Bool-cases (ltb_ℤ alloc_suc (pos 0))) [
      | inl failed ↦ rw failed refl
      | inr fine ↦ rw fine refl
    ])
    | inr full ↦ rw full (elim (Bool-cases (ltb_ℤ alloc_suc (pos 0))) [
      | inl failed ↦ rw failed refl
      | inr fine ↦ rw fine refl
    ])
  ])
]

-- Behind alloc.
allocated-eq :
    (host : Host) (type : MemType) (cnt : ℕ) (found : Mapped) (s : State)
    → and_then
        ((if found.addr == 0 then ok (type_max, cnt) else Alloc.record_alloc host type cnt found) s)
        (λ r. ok r.0)
      ≡ (if found.addr == 0 then ok type_max else record_alloc host type found) s
allocated-eq host type cnt found s = elim (Bool-cases (found.addr == 0)) [
  | inl null ↦ rw null refl
  | inr address ↦ rw address (record_alloc-eq host type cnt found s)
]

module _ (host : Host) (m : Modules) (law : IsModules m) where
  pub alloc-eq :
      (type : MemType) (len : ℕ) (s : State) → alloc host m type len s ≡ Alloc.alloc host type len s
  unfolding alloc Alloc.alloc
  alloc-eq anon len s = refl
  alloc-eq file len s = ap (λ f. map_found host file f s) (law.get_file-eq s.files len)
  alloc-eq type_max len s = ap (λ f. map_found host type_max f s) (law.get_file-eq s.files len)

  -- With the draw of the length that alloc_manager.c has.
  pub one_of_len-eq :
      (cnt : ℕ) (s : State)
      → (Alloc.one_of_len host (randomize_alloc_len host) (negsuc 0) cnt >>= λ r. ok r.0) s
        ≡ random_allocator_one host m s
  unfolding random_allocator_one randomize_alloc_type
  one_of_len-eq cnt s =
      let type = ratio_type s.type_cnt in
      let t : State = record s { type_cnt = (s.type_cnt + 1) % 2 ^ 32 } in
      rw (randomize_alloc_type-eq host 0 s) (elim (ending (randomize_alloc_len host t)) [
        | exited c u e ↦ rw e refl
        | trapped c e ↦ rw e refl
        | endless u e ↦ rw e refl
        | returned len u e ↦ rw e (
            rw (alloc-eq type len u) (elim (ending (Alloc.alloc host type len u)) [
              | exited c w e' ↦ rw e' refl
              | trapped c e' ↦ rw e' refl
              | endless v e' ↦ rw e' refl
              | returned found w e' ↦ rw e' (allocated-eq host type cnt found w)
            ]))
      ])

  -- For modules that are as IsModules says, and where mem_gobbler.c has 1 as its max_limit, which
  -- alloc_manager.c always has: random_allocator_one of alloc_manager.c is random_allocator_one of
  -- mem_gobbler.c at the slice -1, whatever the count is, without the count that this one leaves;
  -- they give the same type in the same state, and end or trap alike.
  pub random_allocator_one-eq :
      (cnt : ℕ) (s : State)
      → s.config.max_limit ≡ 1
      → (Alloc.random_allocator_one host (negsuc 0) cnt >>= λ r. ok r.0) s
        ≡ random_allocator_one host m s
  unfolding Alloc.random_allocator_one Alloc.randomize_alloc_len Alloc.randomize_alloc_type
  random_allocator_one-eq cnt s one =
      subst
        (λ l.
          (Alloc.one_of_len host (Alloc.len_within host l) (negsuc 0) cnt >>= λ r. ok r.0) s
          ≡ random_allocator_one host m s)
        (sym one) (one_of_len-eq cnt s)
