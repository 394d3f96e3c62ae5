-- ===== src/Track/Entries.antt =====
-- The entry that add_new_alloc makes.
use memory_management_phase.Base.{
  ℕ, ◌+◌, ◌<◌, ◌≤◌, ◌≡◌, ◌≢◌, refl, arith, some, inl, inr, ◌⊎◌, leb, Bool-cases,
}
use memory_management_phase.Base.Int.{pos, negsuc}
use memory_management_phase.Machine.State.{State, MemType, Allocation}
use memory_management_phase.Machine.Run.{ok}
use memory_management_phase.Track.{phase_index, current, add_to, add_new_alloc, push_alloc, update}

-- Allocation `a` stands at the end of the list of phase p, and no other entry has changed.
pub record Added (p : ℕ) (a : Allocation) (s t : State) : Type 0 where
  pub count : (t.alloc_track p).list_count ≡ (s.alloc_track p).list_count + 1
  pub last : (t.alloc_track p).lst (s.alloc_track p).list_count ≡ a
  pub others :
      (i : ℕ) → i < (s.alloc_track p).list_count → (t.alloc_track p).lst i ≡ (s.alloc_track p).lst i
  pub phases : (q : ℕ) → q ≢ p → t.alloc_track q ≡ s.alloc_track q
  pub rest : t ≡ record s { alloc_track = t.alloc_track }

pub pushed : ℕ → Allocation → State → State
pushed p a s = record s { alloc_track = update s.alloc_track p (push_alloc a (s.alloc_track p)) }

pub pushed-Added : (p : ℕ) (a : Allocation) (s : State) → Added p a s (pushed p a s)
unfolding pushed
pushed-Added p a s = record {
  count = ground arith;
  last = ground arith;
  others = λ i h. ground arith;
  phases = λ q h. ground arith;
  rest = refl;
}

-- In a phase of the table, add_new_alloc returns 1 and puts the allocation behind those of the phase
-- if these are fewer than MAX_ALLOC_PER_SE; it returns -1 and changes nothing otherwise.
pub add_new_alloc_lem :
    (addr len : ℕ) (type : MemType) (s : State) (p : ℕ)
    → phase_index s.curr ≡ some p
    → let a : Allocation = record { addr = addr; len = len; type = type } in
      (((s.alloc_track p).list_count < 500)
        × (t : State) × (add_new_alloc addr len type s ≡ ok (pos 1) t)
        × Added p a s t)
      ⊎ ((500 ≤ (s.alloc_track p).list_count) × (add_new_alloc addr len type s ≡ ok (negsuc 0) s))
unfolding add_new_alloc current add_to pushed
add_new_alloc_lem addr len type s p e =
    let a : Allocation = record { addr = addr; len = len; type = type } in
    elim (Bool-cases (leb 500 (s.alloc_track p).list_count)) [
      | inr room ↦ inl (ground arith, pushed p a s, rw e (rw room refl), pushed-Added p a s)
      | inl full ↦ inr (ground arith, rw e (rw full refl))
    ]
