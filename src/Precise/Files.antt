-- ===== src/Precise/Files.antt =====
-- file_manager.c: the pool of files as an array that loops over indices write to.
pub mod Same
use memory_management_phase.Base.{
  ℕ, zero, suc, ◌+◌, Bool, Option, none, some, List, [], ◌∷◌, true, ◌==◌, leb, length, get_elem?,
  set, if◌then◌else◌,
}
use memory_management_phase.Base.Int.{is_zero_ℤ}
use memory_management_phase.Machine.State.{FileEntry, FileClass}
use memory_management_phase.Machine.Host.{Host}
use memory_management_phase.Machine.Run.{Cmd, trap, out_of_bounds}
use memory_management_phase.Output.{set_file_cnt, path_lines, print_texts}
use memory_management_phase.Files.{NodeRef, Found}

abbrev pub file_mgr_set_file_cnt : Host → (file_max : ℕ) → Cmd Bool
file_mgr_set_file_cnt = set_file_cnt

abbrev pub print_paths : List FileClass → Cmd (Unit {0})
print_paths [] = λ s. trap out_of_bounds
print_paths (c ∷ _) = print_texts (path_lines c.paths)

-- The while loop of find_avail_node from index j on, over what is left of the list: the index where
-- it stops, which is that of the NULL path if no file is free.
unfoldable pub free_from : List FileEntry → ℕ → ℕ
free_from [] j = j
free_from (e ∷ es) j = let next = free_from es (j + 1) in if is_zero_ℤ e.alloc then j else next

unfoldable pub find_avail_node : List FileEntry → Option ℕ
find_avail_node paths = let j = free_from paths 0 in if j == length paths then none else some j

-- file_lst[i].filled = 1
abbrev pub fill : List FileClass → ℕ → FileClass → List FileClass
fill file_lst i c = set file_lst i (record c { filled = true })

abbrev pub found_at : List FileClass → ℕ → FileClass → ℕ → Found
found_at file_lst i c j = record {
  node = some (record { class = i; index = j });
  len = c.size;
  classes = file_lst;
}

-- The rest of the for loop at a class that is large enough, with what find_avail_node gives.
abbrev pub at_class :
    (next : List FileClass → Found) → List FileClass → ℕ → FileClass → Option ℕ → Found
at_class next file_lst i c none = next (fill file_lst i c)
at_class next file_lst i c (some j) = found_at file_lst i c j

-- One round of the for loop.
abbrev pub get_round :
    (next : List FileClass → Found) → List FileClass → ℕ → ℕ → Option FileClass → Found
get_round next file_lst len i none = next file_lst
get_round next file_lst len i (some c) =
    if leb len c.size then at_class next file_lst i c (find_avail_node c.paths) else next file_lst

-- The for loop of file_mgr_get_file at index i, with `left` rounds to come.
unfoldable pub get_loop : (left i len : ℕ) → List FileClass → Found
get_loop zero i len file_lst = record { node = none; len = len; classes = file_lst }
get_loop (suc left) i len file_lst =
    get_round (λ lst. get_loop left (i + 1) len lst) file_lst len i (get_elem? file_lst i)

-- `max` is the length of the array.
unfoldable pub file_mgr_get_file : List FileClass → ℕ → Found
file_mgr_get_file file_lst len = get_loop (length file_lst) 0 len file_lst
