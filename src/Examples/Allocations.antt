-- ===== src/Examples/Allocations.antt =====
-- Allocations in the first phase of the state, and its two files.
use memory_management_phase.Base.{◌-◌, ◌/◌, ◌<◌, ◌≤◌, ◌≡◌, ◌≢◌, ◌⊎◌, refl, some, arith}
use memory_management_phase.Base.Int.{pos, negsuc}
use memory_management_phase.Machine.State.{State, file, anon, type_max, Allocation}
use memory_management_phase.Machine.Run.{ok, ◌>>◌, trap, out_of_bounds}
use memory_management_phase.Machine.Returns.{Returns, Ends}
use memory_management_phase.Files.{get_file_path, mark}
use memory_management_phase.Files.Mark.{get_file_path-mark}
use memory_management_phase.Alloc.{alloc, randomize_alloc_len, random_allocator_one}
use memory_management_phase.Alloc.Ratio.{anons, randomize_alloc_type_ratio}
use memory_management_phase.Alloc.Length.{IsSize, randomize_alloc_len_lem}
use memory_management_phase.Alloc.Mapping.{IsAlloc, alloc-IsAlloc}
use memory_management_phase.Alloc.Outcome.{Outcome}
use memory_management_phase.Alloc.One.{random_allocator_one-Outcome}
use memory_management_phase.Track.{add_new_alloc, go_to_nxt_phase, current}
use memory_management_phase.Track.Entries.{Added, add_new_alloc_lem}
use memory_management_phase.Track.Phases.{go_to_nxt_phase-current}
use memory_management_phase.Examples.World.{
  host, host-IsHost, host-IsFair, state, state-IsValid, state-IsSized, files,
}

random_allocator_one-Outcome_example :
    Ends (λ r t. Outcome 0 7 state r t) (random_allocator_one host (pos 1) 7 state)
random_allocator_one-Outcome_example =
    random_allocator_one-Outcome host host-IsHost host-IsFair refl (pos 1) 7 0 state (omega arith)
      (omega arith) state-IsValid refl

get_file_path-mark_example :
    (get_file_path (mark (pos 1) 0 1 files) 4096).node ≢ some (record { class = 0; index = 1 })
get_file_path-mark_example = get_file_path-mark files 4096 0 1

randomize_alloc_type_ratio_example :
    anons host (negsuc 0) 9 state ≡ ok ((9 - 1) / 4) (record state { type_cnt = 9 })
randomize_alloc_type_ratio_example = randomize_alloc_type_ratio host 0 9 state (omega arith) refl

randomize_alloc_len_lem_example :
    Returns (λ v t. IsSize 0 state v t) (randomize_alloc_len host state)
randomize_alloc_len_lem_example = randomize_alloc_len_lem host state state-IsSized

alloc-IsAlloc_example : Ends (λ m t. IsAlloc file state m t) (alloc host file 4096 state)
alloc-IsAlloc_example =
    alloc-IsAlloc host host-IsHost file 4096 0 _ state not-type_max state-IsValid refl (omega arith)
      (omega arith)
  where
    not-type_max : file ≢ type_max
    not-type_max e = ground arith

add_new_alloc_lem_example :
    let a : Allocation = record { addr = 4096; len = 4096; type = anon } in
    (((state.alloc_track 0).list_count < 500)
      × (t : State) × (add_new_alloc 4096 4096 anon state ≡ ok (pos 1) t)
      × Added 0 a state t)
    ⊎ ((500 ≤ (state.alloc_track 0).list_count)
        × (add_new_alloc 4096 4096 anon state ≡ ok (negsuc 0) state))
add_new_alloc_lem_example = add_new_alloc_lem 4096 4096 anon state 0 refl

go_to_nxt_phase-current_example :
    (go_to_nxt_phase >> current (λ p s. ok (s.alloc_track p).list_count s))
      (record state { curr = pos 59999 })
    ≡ trap out_of_bounds
go_to_nxt_phase-current_example =
    go_to_nxt_phase-current (λ p s. ok (s.alloc_track p).list_count s)
      (record state { curr = pos 59999 }) refl
