-- ===== src/Precise/Modules.antt =====
-- What alloc_manager.c takes from the other modules: get_file_path of the pool of files, and
-- pattern_mgr_fix of the patterns. No header declares them under these names; file_manager.c and
-- pattern_manager.c define them as file_mgr_get_file and pattern_fix.
pub mod Managers
use memory_management_phase.Base.{ℕ, ◌<◌, ◌≡◌, true, List}
use memory_management_phase.Machine.Host.{Host}
use memory_management_phase.Machine.State.{State, FileClass}
use memory_management_phase.Machine.Run.{Cmd}
use memory_management_phase.Machine.Returns
use memory_management_phase.Machine.Returns.{Returns}
use memory_management_phase.Touch.Frame.{IsRegion, Kept, region-byte}
use memory_management_phase.Pattern.Fix.Location.{IsFixed}
use memory_management_phase.Files.{Found, get_file_path}
use memory_management_phase.Precise.Files.{file_mgr_get_file}
use memory_management_phase.Precise.Files.Same.{file_mgr_get_file-eq}
use memory_management_phase.Precise.Pattern.{pattern_fix}

pub record Modules : Type 0 where
  pub get_file : List FileClass → ℕ → Found
  pub fix : ℕ → ℕ → Cmd (Unit {0})

-- The pool gives the first best fit; the pattern touches mapped memory, and keeps what is mapped and
-- the locations of its list.
pub record IsModules (m : Modules) : Type 0 where
  pub get_file-eq : (cs : List FileClass) (len : ℕ) → m.get_file cs len ≡ get_file_path cs len
  pub fix-Kept :
      (addr len : ℕ) (s : State)
      → 0 < addr
      → 0 < len
      → IsRegion s.mem addr len
      → IsFixed s.mem s.fix_head
      → Returns (λ _ t. Kept s t × IsFixed t.mem t.fix_head) (m.fix addr len s)

abbrev pub managers : Host → Modules
managers host = record { get_file = file_mgr_get_file; fix = pattern_fix host }
