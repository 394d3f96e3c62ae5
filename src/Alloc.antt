-- ===== src/Alloc.antt =====
-- The allocator of mem_gobbler.c: what is allocated next, the mapping, and the bookkeeping.
pub mod Ratio
pub mod Length
pub mod Mapping
pub mod Growth
pub mod Outcome
pub mod One
use memory_management_phase.Base.{
  ℕ, zero, suc, ◌+◌, ◌-◌, ◌/◌, ◌%◌, ◌^◌, ◌≡◌, Bool, true, false, Option, none, some, List, [], ◌∷◌,
  String, not, ◌&&◌, ltb, leb, ◌==◌, get_elem?, if◌then◌else◌,
}
use memory_management_phase.Base.Int.{ℤ, pos, negsuc, is_zero_ℤ, ltb_ℤ, leb_ℤ}
use memory_management_phase.Base.Word.{add64, sub64, mul64}
use memory_management_phase.Machine.Host.{Host}
use memory_management_phase.Machine.State.{
  Memory, State, MemType, file, anon, type_max, map_failed, FileEntry, FileClass, Stats,
}
use memory_management_phase.Machine.Run.{
  Cmd, ok, exit, one, trap, out_of_bounds, pr_error, get, modify, noted, skip, when, ask, ◌>>=◌,
  ◌>>◌,
}
use memory_management_phase.Random.{rand_lim, rand_intr}
use memory_management_phase.Files.{NodeRef, Found, get_file_path, entry_at, mark}
use memory_management_phase.Track.{add_new_alloc}

abbrev pub file_ratio : ℕ
file_ratio = 4

abbrev pub page_bytes : ℕ
page_bytes = 4096

-- The number as an enum mem_type.
abbrev pub mem_type : ℤ → MemType
mem_type (pos zero) = file
mem_type (pos (suc zero)) = anon
mem_type _ = type_max

-- With a negative anon_slice, the type at the counter `cnt`, an int, whose 32 bits are kept: 4 divides
-- it if it divides them.
unfoldable pub ratio_type : ℕ → MemType
ratio_type cnt = if cnt % file_ratio == 0 && not (cnt == 0) then anon else file

abbrev pub count_type : Cmd (Unit {0})
count_type = modify (λ s. record s { type_cnt = (s.type_cnt + 1) % 2 ^ 32 })

-- file_lst[i].size
abbrev pub size_of : Option FileClass → Cmd ℕ
size_of none s = trap out_of_bounds
size_of (some c) s = ok c.size s

unfoldable pub file_size : ℕ → Cmd ℕ
file_size i s = size_of (get_elem? s.files i) s

-- What alloc returns: the address, 0 for NULL, and what it leaves in *len and *node.
pub record Mapped : Type 0 where
  pub addr : ℕ
  pub len : ℕ
  pub node : Option NodeRef

-- The length after the cap on the bytes of a phase.
unfoldable pub cap_len : (max_byte len : ℕ) → ℕ
cap_len max_byte len = if not (max_byte == 0) && ltb max_byte len then max_byte else len

-- (*node)->path; none for NULL
abbrev pub path_of : Option FileEntry → Option String
path_of none = none
path_of (some e) = some e.path

-- The memory with `size` bytes mapped at `base`.
unfoldable pub map_bytes : (content : ℕ → ℕ) → (base size : ℕ) → Memory → Memory
map_bytes content base size m p =
    if leb base p && ltb p (base + size) then some (content p) else m p

-- How much of a mapping of `size` bytes the file holds, which has the size if ftruncate set it.
unfoldable pub held_bytes : (truncated : Bool) → (size file_size : ℕ) → ℕ
held_bytes true size file_size = size
held_bytes false size file_size = if ltb file_size size then file_size else size

-- What is left of the pages that a transition is to allocate.
unfoldable pub left_of : (alloc_precision : Bool) → (page_cnt cnt : ℕ) → ℕ
left_of true page_cnt cnt = if ltb cnt page_cnt then 0 else cnt - page_cnt
left_of false page_cnt cnt = sub64 cnt 1

abbrev pub add_pages : MemType → ℕ → Stats → Stats
add_pages file n st = record st {
  total_alloc_pages = add64 st.total_alloc_pages n;
  file_cnt = add64 st.file_cnt n;
}
add_pages anon n st = record st {
  total_alloc_pages = add64 st.total_alloc_pages n;
  anon_cnt = add64 st.anon_cnt n;
}
add_pages type_max n st = record st { total_alloc_pages = add64 st.total_alloc_pages n }

-- node->alloc = alloc_suc
abbrev pub mark_node : Option NodeRef → ℤ → List FileClass → List FileClass
mark_node none v cs = cs
mark_node (some r) v cs = mark v r.class r.index cs

abbrev pub null_mapped : ℕ → Mapped
null_mapped len = record { addr = 0; len = len; node = none }

module _ (host : Host) where
  unfoldable pub randomize_alloc_type : ℤ → Cmd MemType
  randomize_alloc_type anon_slice =
      if ltb_ℤ anon_slice (pos 0)
      then (do cnt ← get (λ s. s.type_cnt); count_type; ok (ratio_type cnt))
      else if not (is_zero_ℤ anon_slice)
      then (do v ← rand_lim host (pos 2); count_type; ok (mem_type v))
      else (do count_type; ok file)

  -- The loop of randomize_alloc_len, with l rounds left; i is the last index drawn.
  unfoldable pub draw_len : (max_req l i : ℕ) → Cmd ℕ
  draw_len max_req zero i = file_size i
  draw_len max_req (suc l) i = do
    speed ← get (λ s. s.config.speed)
    i' ← rand_intr host 0 speed
    size ← file_size i'
    let again = draw_len max_req l i'
    if ltb max_req size then again else ok size

  -- randomize_alloc_len with the value of max_limit.
  abbrev pub len_within : (max_limit : ℕ) → Cmd ℕ
  len_within max_limit = do
    let max_req = mul64 max_limit page_bytes
    first ← file_size 0
    if leb max_req first then ok first else draw_len max_req 10 0

  unfoldable pub randomize_alloc_len : Cmd ℕ
  randomize_alloc_len = get (λ s. s.config.max_limit) >>= len_within

  unfoldable pub randomize_alloc_count : Bool → Cmd ℕ
  randomize_alloc_count precision =
      if precision then get (λ s. s.config.max_alloc_per_phase) else rand_intr host 5 18

  -- mmap, and exit(1) where it fails; the bytes are those of the file, or 0, and `held` of them can be
  -- read.
  unfoldable pub map_region :
      (content : ℕ → ℕ → ℕ) → Option String → (size held : ℕ) → MemType → Cmd ℕ
  map_region content path size held type s =
      let t : State = record s { calls = s.calls + 1 } in
      elim (host.mmap s.calls size) [
        | none ↦ exit one (noted (map_failed path size type) t)
        | some a ↦ ok a (record t { mem = map_bytes (content s.calls) a held s.mem })
      ]

  abbrev pub open_file : Option String → Cmd (Unit {0})
  open_file none = pr_error
  open_file (some path) = do
    found ← ask (λ n. host.open_path n path)
    if found then skip else pr_error

  -- A failed ftruncate is only a warning: of the mapping, the bytes behind the end of the file cannot
  -- be read. For a type other than the two, map stays NULL.
  abbrev pub map_type : Option String → ℕ → MemType → Cmd ℕ
  map_type path size anon = map_region (λ _ _. 0) path size size anon
  map_type path size file = do
    open_file path
    held ← ask (λ n. held_bytes (host.ftruncate n) size (host.file_size n))
    map_region host.content path size held file
  map_type path size type_max = ok 0

  unfoldable pub mmapper : Option String → ℕ → MemType → Cmd ℕ
  mmapper path size type = do
    map ← map_type path size type
    advised ← ask host.madvise
    if advised then ok map else exit one

  -- The tail of alloc: the cap on the length, and the mapping.
  unfoldable pub map_node : MemType → ℕ → Option NodeRef → Option String → Cmd Mapped
  map_node type len node path = do
    max_byte ← get (λ s. s.config.max_alloc_per_phase_byte)
    let len' = cap_len max_byte len
    addr ← mmapper path len' type
    ok (record { addr = addr; len = len'; node = node })

  -- alloc, for a type other than anon, with what get_file_path gives.
  abbrev pub map_found : MemType → Found → Cmd Mapped
  map_found type f = do
    modify (λ s. record s { files = f.classes })
    elim f.node [
      | none ↦ ok (null_mapped f.len)
      | some r ↦ map_node type f.len (some r) (path_of (entry_at f.classes r))
    ]

  abbrev pub map_file : MemType → ℕ → Cmd Mapped
  map_file type len s = map_found type (get_file_path s.files len) s

  abbrev pub map_anon : ℕ → Cmd Mapped
  map_anon len = do first ← file_size 0; map_node anon (if len == 0 then first else len) none none

  unfoldable pub alloc : MemType → ℕ → Cmd Mapped
  alloc anon len = map_anon len
  alloc file len = map_file file len
  alloc type_max len = map_file type_max len

  -- random_allocator_one behind a successful alloc; the second result is *cnt.
  unfoldable pub record_alloc : MemType → (cnt : ℕ) → Mapped → Cmd (MemType × ℕ)
  record_alloc type cnt m = do
    alloc_suc ← add_new_alloc m.addr m.len type
    let page_cnt = m.len / host.page_size
    modify (λ s. record s { stats = add_pages type page_cnt s.stats })
    when (leb_ℤ (pos 1) alloc_suc)
        (modify (λ s. record s { files = mark_node m.node alloc_suc s.files }))
    if ltb_ℤ alloc_suc (pos 0) then pr_error else skip
    precise ← get (λ s. s.config.alloc_precision)
    ok (type, left_of precise page_cnt cnt)

  -- random_allocator_one with what draws the length.
  abbrev pub one_of_len : Cmd ℕ → ℤ → ℕ → Cmd (MemType × ℕ)
  one_of_len draw anon_slice cnt = do
    type ← randomize_alloc_type anon_slice
    len ← draw
    m ← alloc type len
    if m.addr == 0 then ok (type_max, cnt) else record_alloc type cnt m

  unfoldable pub random_allocator_one : ℤ → ℕ → Cmd (MemType × ℕ)
  random_allocator_one = one_of_len randomize_alloc_len
