-- ===== src/Examples/Precise.antt =====
-- The program of precise_allocer.c with a vector of two lines, and the table of files.
use memory_management_phase.Base.{
  ℕ, ◌+◌, ◌*◌, ◌<◌, ◌≤◌, ◌≡◌, ◌≢◌, ◌⊎◌, refl, inr, true, false, some, none, arith, get_elem?, ◌==◌,
}
use memory_management_phase.Base.Int.{pos, negsuc}
use memory_management_phase.Machine.State.{FileEntry, t_secs}
use memory_management_phase.Machine.Run.{ok, ◌>>=◌}
use memory_management_phase.Machine.Returns.{Anyhow, Returns, Stays}
use memory_management_phase.Clock.{cpu_units, cpu_reading}
use memory_management_phase.Stma.{PdLen}
use memory_management_phase.Options.Sane.{IsSane}
use memory_management_phase.Alloc
use memory_management_phase.Pattern.Sweep.Bytes.{Toggles}
use memory_management_phase.Files.{get_file_path, mark}
use memory_management_phase.Files.Table.{path, entries, file_itema, file_lst}
use memory_management_phase.Files.Table.Order.{after, file_itema-distinct, get_file_path-after}
use memory_management_phase.Phase.Holding.{Safe}
use memory_management_phase.Main.Start.{initial_state}
use memory_management_phase.Precise.Files.{file_mgr_get_file}
use memory_management_phase.Precise.Files.Same.{file_mgr_get_file-eq}
use memory_management_phase.Precise.Pattern.First.{noted, calls_of_fix, calls_of_fix-Toggles}
use memory_management_phase.Precise.Modules.{IsModules, managers}
use memory_management_phase.Precise.Modules.Managers.{managers-IsModules}
use memory_management_phase.Precise.Alloc.{random_allocator_one}
use memory_management_phase.Precise.Alloc.Same.{random_allocator_one-eq}
use memory_management_phase.Precise.Job.{stabilise}
use memory_management_phase.Precise.Job.Safe.{IsSettled, stabilise-Returns}
use memory_management_phase.Precise.Main.{Args, main}
use memory_management_phase.Precise.Main.Safe.{Worked}
use memory_management_phase.Precise.Main.Start.{main-Stays}
use memory_management_phase.Examples.Text.{tokens, test_vector, vector-IsLine}
use memory_management_phase.Examples.World.{
  host, host-IsHost, host-IsFair, host-ordered, config, state, state-IsValid, files,
}

host-IsModules : IsModules (managers host)
host-IsModules = managers-IsModules host (λ n. refl)

managers-IsModules_example : IsModules (managers host)
managers-IsModules_example = managers-IsModules host (λ n. refl)

file_mgr_get_file-eq_example : file_mgr_get_file files 4096 ≡ get_file_path files 4096
file_mgr_get_file-eq_example = file_mgr_get_file-eq files 4096

calls_of_fix-Toggles_example :
    Returns
      (λ _ t. Toggles (λ p. 1048576 == p) 3 (noted 1048576 state) t)
      (calls_of_fix host 1048576 8192 3 state)
calls_of_fix-Toggles_example =
    calls_of_fix-Toggles host 1048576 8192 2 7 state (omega arith) (omega arith) refl refl

random_allocator_one-eq_example :
    (Alloc.random_allocator_one host (negsuc 0) 5 >>= λ r. ok r.0) state
    ≡ random_allocator_one host (managers host) state
random_allocator_one-eq_example =
    random_allocator_one-eq host (managers host) host-IsModules 5 state refl

state-IsSettled : IsSettled 0 state
state-IsSettled = record { valid = state-IsValid; at = refl; some_alloc = omega arith }

passed_later : 1000 * cpu_reading host t_secs 0 + 3000 ≤ 1000 * cpu_reading host t_secs 61
unfolding cpu_units
passed_later = omega arith

stabilise-Returns_example :
    Returns (λ _ u. Safe state u) (stabilise host (managers host) (pos 3000) t_secs state)
stabilise-Returns_example =
    stabilise-Returns host host-IsHost host-IsFair refl (managers host) host-IsModules t_secs
      (pos 3000) 0 state host-ordered passed_later state-IsSettled

abbrev pub pd_len : PdLen
pd_len = record {
  open_rw = true;
  open_wb = true;
  fwrite = true;
  open_rb = true;
  read_back = λ stma ltma. (stma, ltma);
}

-- -V vector.csv -S 5
abbrev pub args : Args
args = record {
  verbose = true;
  vector = true;
  ipfvt = false;
  time_g = t_secs;
  stma = 5;
  ltma = 0;
  stream = some "vector.csv";
}

pub config-IsSane : IsSane 1 config
config-IsSane = record { speed = omega arith; cap = inr (omega arith); access = λ e. ground arith }

main-Stays_example :
    Stays Anyhow
      (λ _ u. Worked true 5 u)
      (main host
        (managers host)
        tokens
        args
        pd_len
        9
        (λ n. pos 1)
        (pos 0)
        test_vector
        (initial_state files config))
main-Stays_example =
    main-Stays host host-IsHost host-IsFair refl (managers host) host-IsModules tokens args pd_len 9
      (λ n. pos 1) (pos 0) test_vector files config refl (omega arith, tt) (omega arith)
      config-IsSane (omega arith) vector-IsLine

get_file_path-after_example :
    (after 0 ≡ file_lst)
    × (((7 < 50000)
          × ((get_file_path (after 7) 4096).node ≡ some (record { class = 0; index = 7 }))
          × ((get_file_path (after 7) 4096).len ≡ 4096)
          × (mark (pos 1) 0 7 (get_file_path (after 7) 4096).classes ≡ after 8))
        ⊎ ((50000 ≤ 7) × ((get_file_path (after 7) 4096).node ≡ none)))
get_file_path-after_example = get_file_path-after 7 4096 (omega arith)

abbrev entry : ℕ → FileEntry
entry n = record { alloc = pos 0; path = path n }

in_table : (get_elem? file_itema 3 ≡ some (entry 4)) × (get_elem? file_itema 41 ≡ some (entry 42))
unfolding file_itema entries
in_table = (refl, refl)

file_itema-distinct_example :
    ((entry 4).alloc ≡ pos 0) × ((entry 42).alloc ≡ pos 0) × ((entry 4).path ≢ (entry 42).path)
file_itema-distinct_example =
    file_itema-distinct 3 41 (entry 4) (entry 42) in_table.0 in_table.1 (omega arith)
