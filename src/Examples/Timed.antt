-- ===== src/Examples/Timed.antt =====
-- Both programs on a host whose clock goes on by a second with each call.
use memory_management_phase.Base.{All, ℕ, ◌+◌, ◌*◌, ◌-◌, ◌≤◌, refl, true, [], ◌∷◌, arith}
use memory_management_phase.Base.Int.{pos, ◌≤ℤ◌}
use memory_management_phase.Machine.Host.{Host, IsHost, IsFair}
use memory_management_phase.Machine.State.{t_secs}
use memory_management_phase.Machine.Returns.{After, Stays}
use memory_management_phase.Clock.{cpu_units, cpu_reading}
use memory_management_phase.Base.Word.{to_word}
use memory_management_phase.Vector.{of_tokens}
use memory_management_phase.Options.{wcet_ms}
use memory_management_phase.Main.Running.{Ran, IsTimed}
use memory_management_phase.Main.Start.{run_main, initial_state, run_main-After}
use memory_management_phase.Precise.Modules.{managers}
use memory_management_phase.Precise.Modules.Managers.{managers-IsModules}
use memory_management_phase.Precise.Main.{main}
use memory_management_phase.Precise.Main.Safe.{Worked}
use memory_management_phase.Precise.Main.Start.{main-After}
use memory_management_phase.Examples.Text.{tokens}
use memory_management_phase.Examples.World.{host, host-IsHost, host-IsFair, config, files}
use memory_management_phase.Examples.Program
use memory_management_phase.Examples.Program.{options, options-parsed}
use memory_management_phase.Examples.Precise
use memory_management_phase.Examples.Precise.{config-IsSane}

abbrev timed : Host
timed = record host { cpu_clock = λ n. (n, 0) }

timed-IsHost : IsHost timed
timed-IsHost = record {
  rand-le = host-IsHost.rand-le;
  rand_max-ge = host-IsHost.rand_max-ge;
  mmap-pos = host-IsHost.mmap-pos;
  to_double-exact = host-IsHost.to_double-exact;
  file_size-ge = host-IsHost.file_size-ge;
  mmap-fits = host-IsHost.mmap-fits;
}

timed-IsFair : IsFair timed
timed-IsFair = record { hits = host-IsFair.hits }

timed-ordered :
    (n m : ℕ) → n ≤ m → m ≤ 1000000 → cpu_reading timed t_secs n ≤ cpu_reading timed t_secs m
unfolding cpu_units
timed-ordered n m h k = omega arith

timed-passes :
    (c : ℕ)
    → c + timed.ticks ≤ 1000000
    → 1000 * cpu_reading timed t_secs c + 60000 ≤ 1000 * cpu_reading timed t_secs (c + timed.ticks)
unfolding cpu_units
timed-passes c h = omega arith

program-IsTimed : IsTimed (λ _ e. e ≤ℤ pos 60000) tokens Program.args.config.ipfvt "1,55"
unfolding of_tokens to_word
program-IsTimed = record {
  line_ok = record { alloc_cnt = 1; wcet = pos 55000; fields = refl };
  allowed = omega arith;
}

precise-IsTimed :
    All (IsTimed (λ _ e. e ≤ℤ pos 60000) tokens Precise.args.ipfvt) ("1,55" ∷ "1,60" ∷ [])
unfolding of_tokens to_word
precise-IsTimed = (
  record {
    line_ok = record { alloc_cnt = 1; wcet = pos 55000; fields = refl };
    allowed = omega arith;
  },
  (
    record {
      line_ok = record { alloc_cnt = 1; wcet = pos 60000; fields = refl };
      allowed = omega arith;
    },
    tt,
  ),
)

shorter : wcet_ms Program.args ≤ℤ pos 60000
unfolding wcet_ms
shorter = omega arith

run_main-After_example :
    Stays
      (After 1000000)
      (λ _ u. Ran (Program.args.max_phase - 1) u)
      (run_main timed tokens Program.pd_len Program.args
        ("1,55" ∷ [])
        (initial_state files Program.args.config))
run_main-After_example =
    run_main-After timed timed-IsHost timed-IsFair refl tokens Program.pd_len (λ _. true) files
      options Program.args ("1,55" ∷ []) (omega arith, tt) (omega arith) (omega arith)
      options-parsed (omega arith) (omega arith) refl 1000000 60000 timed-ordered timed-passes
      shorter (program-IsTimed, tt)

main-After_example :
    Stays
      (After 1000000)
      (λ _ u. Worked true 2 u)
      (main timed
        (managers timed)
        tokens
        Precise.args
        Precise.pd_len
        9
        (λ n. pos 1)
        (pos 0)
        ("1,55" ∷ "1,60" ∷ [])
        (initial_state files config))
main-After_example =
    main-After timed timed-IsHost timed-IsFair refl (managers timed)
      (managers-IsModules timed (λ n. refl)) tokens Precise.args Precise.pd_len 9 (λ n. pos 1)
      (pos 0) ("1,55" ∷ "1,60" ∷ []) files config refl (omega arith, tt) (omega arith) config-IsSane
      refl (omega arith) 1000000 60000 timed-ordered timed-passes precise-IsTimed
