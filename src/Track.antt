-- ===== src/Track.antt =====
-- The allocation tracker of mem_gobbler.c: the phases, and the allocations of each phase.
pub mod Phases
pub mod Entries
pub mod Pages
use memory_management_phase.Base.{ℕ, ◌+◌, Bool, Option, none, some, ◌==◌, ltb, leb, if◌then◌else◌}
use memory_management_phase.Base.Int.{ℤ, pos, negsuc, ◌+ℤ◌, leb_ℤ}
use memory_management_phase.Machine.Host.{Host}
use memory_management_phase.Machine.State.{State, MemType, file, Allocation, AllocList}
use memory_management_phase.Machine.Run.{
  Cmd, ok, exit, minus_one, trap, out_of_bounds, pr_error, modify, ask, skip, ◌>>=◌,
}

abbrev pub max_alloc : ℕ
max_alloc = 60000

abbrev pub max_alloc_per_se : ℕ
max_alloc_per_se = 500

unfoldable pub go_to_nxt_phase : Cmd (Unit {0})
unfolding ◌+ℤ◌
go_to_nxt_phase s =
    if leb_ℤ (pos max_alloc) s.curr
    then exit minus_one s
    else ok tt (record s { curr = s.curr +ℤ pos 1 })

-- The index of the current phase in alloc_track, an array of MAX_ALLOC lists.
abbrev pub phase_index : ℤ → Option ℕ
phase_index (pos p) = if ltb p max_alloc then some p else none
phase_index (negsuc _) = none

abbrev pub at_phase : {A : Type 0} → Option ℕ → (ℕ → Cmd A) → Cmd A
at_phase none k s = trap out_of_bounds
at_phase (some p) k s = k p s

-- The phase that alloc_track[curr] stands in.
unfoldable pub current : {A : Type 0} → (ℕ → Cmd A) → Cmd A
current k s = at_phase (phase_index s.curr) k s

-- An assignment to one place of an array.
abbrev pub update : {A : Type 0} → (ℕ → A) → ℕ → A → ℕ → A
update f i v j = if i == j then v else f j

abbrev pub no_alloc : Allocation
no_alloc = record { addr = 0; len = 0; type = file }

abbrev pub empty_list : AllocList
empty_list = record { list_count = 0; lst = λ _. no_alloc }

-- On the first call the pointer is null, so that the table is allocated.
unfoldable pub alloc_track_init : Host → Cmd (Unit {0})
alloc_track_init host = do
  found ← ask host.malloc
  if found then modify (λ s. record s { alloc_track = λ _. empty_list }) else exit minus_one

abbrev pub push_alloc : Allocation → AllocList → AllocList
push_alloc a l = record { list_count = l.list_count + 1; lst = update l.lst l.list_count a }

unfoldable pub add_to : Allocation → ℕ → Cmd ℤ
add_to a p s =
    let l = s.alloc_track p in
    if leb max_alloc_per_se l.list_count
    then ok (negsuc 0) s
    else ok (pos 1) (record s { alloc_track = update s.alloc_track p (push_alloc a l) })

unfoldable pub add_new_alloc : (address len : ℕ) → MemType → Cmd ℤ
add_new_alloc address len type =
    current (add_to (record { addr = address; len = len; type = type }))
