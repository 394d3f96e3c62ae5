-- ===== src/Examples/Job.antt =====
-- A job of the state: the transition takes few calls of the host, so that the clock passes the
-- holding time behind it.
use memory_management_phase.Base.{ℕ, ◌+◌, ◌*◌, ◌≤◌, ◌≡◌, refl, ap, arith, some}
use memory_management_phase.Base.Int.{ℤ, pos, ◌+ℤ◌, ◌-ℤ◌}
use memory_management_phase.Machine.State.{State, t_secs}
use memory_management_phase.Machine.Run.{Run, ok}
use memory_management_phase.Machine.Returns.{Ends}
use memory_management_phase.Phase.{job}
use memory_management_phase.Phase.Job.{Worked, is_late, job_lem}
use memory_management_phase.Examples.World.{
  host, host-IsHost, host-IsFair, host-ordered, state, state-IsValid,
}
use memory_management_phase.Random.{rand_lim, seed_time, lim_loop, rand_intr, intr_loop, intr_value}
use memory_management_phase.Clock.{cputime, cpu_units, cpu_reading}
use memory_management_phase.Track.{phase_index, go_to_nxt_phase, current, add_new_alloc, add_to}
use memory_management_phase.Phase.{
  trans_rand_alloc, transition, trans_loop, list_count, loop_n, touch, touch_at,
}
use memory_management_phase.Alloc.{
  randomize_alloc_count, random_allocator_one, randomize_alloc_type, randomize_alloc_len, file_size,
  alloc, ratio_type, cap_len, draw_len, left_of, map_bytes, map_node, map_region, mmapper,
  record_alloc,
}
use memory_management_phase.Base.Word.{mul64, add64, sub64}
use memory_management_phase.Files.{get_file_path, entry_at, find_avail_node, mark, set_alloc}

-- The number of calls of the host when a run returns.
abbrev calls_of : Run ℤ → ℕ
calls_of (ok _ s) = s.calls
calls_of _ = 0

transition_calls : calls_of (trans_rand_alloc host (record state { calls = 2 })) ≡ 7
unfolding rand_lim seed_time lim_loop rand_intr intr_loop intr_value cputime cpu_units
    go_to_nxt_phase current add_new_alloc add_to trans_rand_alloc transition trans_loop list_count
    loop_n touch touch_at randomize_alloc_count random_allocator_one randomize_alloc_type
    randomize_alloc_len file_size alloc ratio_type cap_len draw_len left_of map_bytes map_node
    map_region mmapper record_alloc mul64 add64 sub64 ◌+ℤ◌ ◌-ℤ◌ get_file_path entry_at
    find_avail_node mark set_alloc
transition_calls = refl

clock_after :
    (n : ℕ)
    → n ≡ 7
    → (50 ≤ n + host.ticks)
      × (1000 * cpu_reading host t_secs n + 3000 ≤ 1000 * cpu_reading host t_secs 50)
unfolding cpu_units
clock_after n e = rw e (omega arith, omega arith)

passes :
    (v : ℤ) (u : State)
    → trans_rand_alloc host (record state { calls = 2 }) ≡ ok v u
    → (50 ≤ u.calls + host.ticks)
      × (1000 * cpu_reading host t_secs u.calls + 3000 ≤ 1000 * cpu_reading host t_secs 50)
passes v u ran = clock_after u.calls (cc (ap calls_of ran, transition_calls))

next-phase : phase_index (state.curr +ℤ pos 1) ≡ some 1
unfolding ◌+ℤ◌
next-phase = refl

job_lem_example :
    Ends
      (λ v u. (v ≡ pos 1) × Worked 1 (is_late host t_secs (pos 3000) state) state u)
      (job host (pos 3000) t_secs state)
job_lem_example =
    job_lem host host-IsHost host-IsFair refl t_secs (pos 3000) 50 1 state host-ordered passes
      state-IsValid (omega arith) refl next-phase
