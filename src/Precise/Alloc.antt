-- ===== src/Precise/Alloc.antt =====
-- alloc_manager.c. Its tracker, its mapping and its counts are those of mem_gobbler.c; the type of an
-- allocation does not depend on a slice, and a transition maps one allocation.
pub mod Same
pub mod Transition
use memory_management_phase.Base.{
  ℕ, ◌/◌, Bool, Option, none, some, String, List, [], ◌==◌, if◌then◌else◌,
}
use memory_management_phase.Base.Int.{ℤ, pos, ltb_ℤ, leb_ℤ}
use memory_management_phase.Machine.Host.{Host}
use memory_management_phase.Machine.State.{State, MemType, file, anon, type_max, FileClass}
use memory_management_phase.Machine.Run.{Cmd, ok, pr_error, skip, get, modify, when, ◌>>=◌, ◌>>◌}
use memory_management_phase.Touch.{offset}
use memory_management_phase.Track
use memory_management_phase.Alloc
use memory_management_phase.Alloc.{
  Mapped, ratio_type, count_type, file_size, map_found, map_anon, mark_node, add_pages,
}
use memory_management_phase.Precise.Modules.{Modules}

-- The routines that are word for word those of mem_gobbler.c; the PR_ERROR of go_to_nxt_phase ends
-- the process in both.
abbrev pub go_to_nxt_phase : Cmd (Unit {0})
go_to_nxt_phase = Track.go_to_nxt_phase

abbrev pub alloc_track_init : Host → Cmd (Unit {0})
alloc_track_init = Track.alloc_track_init

abbrev pub add_new_alloc : (address len : ℕ) → MemType → Cmd ℤ
add_new_alloc = Track.add_new_alloc

-- max_limit of alloc_manager.c, which nothing sets.
abbrev pub max_limit : ℕ
max_limit = 1

abbrev pub randomize_alloc_len : Host → Cmd ℕ
randomize_alloc_len host = Alloc.len_within host max_limit

abbrev pub randomize_alloc_count : Host → Bool → Cmd ℕ
randomize_alloc_count = Alloc.randomize_alloc_count

abbrev pub mmapper : Host → Option String → ℕ → MemType → Cmd ℕ
mmapper = Alloc.mmapper

unfoldable pub randomize_alloc_type : Cmd MemType
randomize_alloc_type = do cnt ← get (λ s. s.type_cnt); count_type; ok (ratio_type cnt)

module _ (host : Host) where
  -- random_allocator_one behind a successful alloc
  unfoldable pub record_alloc : MemType → Mapped → Cmd MemType
  record_alloc type found = do
    alloc_suc ← add_new_alloc found.addr found.len type
    let page_cnt = found.len / host.page_size
    modify (λ s. record s { stats = add_pages type page_cnt s.stats })
    when (leb_ℤ (pos 1) alloc_suc)
        (modify (λ s. record s { files = mark_node found.node alloc_suc s.files }))
    if ltb_ℤ alloc_suc (pos 0) then pr_error else skip
    ok type

module _ (host : Host) (m : Modules) where
  abbrev pub map_file : MemType → ℕ → Cmd Mapped
  map_file type len s = map_found host type (m.get_file s.files len) s

  unfoldable pub alloc : MemType → ℕ → Cmd Mapped
  alloc anon len = map_anon host len
  alloc file len = map_file file len
  alloc type_max len = map_file type_max len

  unfoldable pub random_allocator_one : Cmd MemType
  random_allocator_one = do
    type ← randomize_alloc_type
    len ← randomize_alloc_len host
    found ← alloc type len
    if found.addr == 0 then ok type_max else record_alloc host type found

  -- The test of the result of random_allocator_one.
  abbrev pub check_type : MemType → Cmd (Unit {0})
  check_type type_max = pr_error
  check_type _ = skip

  unfoldable pub trans_rand_alloc : Cmd ℤ
  trans_rand_alloc = do go_to_nxt_phase; typ ← random_allocator_one; check_type typ; ok (pos 0)

  -- For the phase p, on the first allocation of its list.
  unfoldable pub touch_once_at : ℕ → Cmd (Unit {0})
  touch_once_at p s =
      let a = (s.alloc_track p).lst 0 in m.fix (offset a.addr (a.len / 2)) (a.len / 2) s

  unfoldable pub touch_once_curr : Cmd (Unit {0})
  touch_once_curr = Track.current touch_once_at
