-- ===== src/Machine/State.antt =====
-- The global variables of mem_gobbler.c, its address space, and its data types.
use memory_management_phase.Base.{ℕ, Bool, Option, List, String}
use memory_management_phase.Base.Int.{ℤ}

-- enum mem_type
pub data MemType : Type 0 where
  file anon type_max : MemType

-- enum mem_pattern_types
pub data MemPattern : Type 0 where
  mem_fix mem_stride mem_seq mem_rep mem_rand mem_max : MemPattern

-- enum time_granularity
pub data Granularity : Type 0 where
  t_secs t_milli t_micro t_nano : Granularity

-- struct _file_path: `alloc` is 0 for a free file; the entry with a NULL path ends the list.
pub record FileEntry : Type 0 where
  pub alloc : ℤ
  pub path : String

-- struct file_lst_size
pub record FileClass : Type 0 where
  pub size : ℕ
  pub paths : List FileEntry
  pub filled : Bool

-- struct alloc_list_per_se
pub record Allocation : Type 0 where
  pub addr : ℕ
  pub len : ℕ
  pub type : MemType

-- struct alloc_list: the array `lst` as the function from an index to the entry
pub record AllocList : Type 0 where
  pub list_count : ℕ
  pub lst : ℕ → Allocation

-- struct __fix_bookeeper_node
pub record FixNode : Type 0 where
  pub addr : ℕ
  pub loc : ℕ

-- The variables that the options and the vector file set.
pub record Config : Type 0 where
  pub max_alloc_per_phase : ℕ
  pub alloc_precision : Bool
  pub max_limit : ℕ
  pub speed : ℕ
  pub access_type : MemPattern
  pub alloc_size : ℕ
  pub max_alloc_per_phase_byte : ℕ
  pub vector : Bool
  pub ipfvt : Bool
  pub time_g : Granularity
  pub stma : ℕ
  pub ltma : ℕ

-- The statistics.
pub record Stats : Type 0 where
  pub anon_cnt : ℕ
  pub file_cnt : ℕ
  pub phase_cnt : ℕ
  pub total_alloc_pages : ℕ

abbrev pub Memory : Type 0
Memory = ℕ → Option ℕ

-- `mem` holds the bytes of the mapped addresses. `calls` numbers the calls of the host.
-- What getrusage gives.
pub record Rusage : Type 0 where
  pub ru_minflt : ℕ
  pub ru_majflt : ℕ
  pub ru_maxrss : ℕ

-- What main prints for a job: the process, the number of the job, the time since the start with its
-- unit, the counts of file and anonymous pages and their sum, the counts of faults and their sum, and
-- the resident pages.
pub record Report : Type 0 where
  pub pid : ℕ
  pub cur_job : ℕ
  pub duration : ℤ
  pub unit : String
  pub file_cnt : ℕ
  pub anon_cnt : ℕ
  pub total : ℕ
  pub minflt : ℕ
  pub majflt : ℕ
  pub faults : ℕ
  pub rss : ℕ

-- What printf writes.
pub data Output : Type 0 where
  plain : String → Output
  report : Report → Output

-- What the program writes to the standard output while it allocates and touches: the two complaints
-- and the location of fix_rand_loc, and the line of mmapper on MAP_FAILED.
pub data Note : Type 0 where
  len_zero something_wrong : Note
  deciding : (loc : ℕ) → Note
  map_failed : (path : Option String) (size : ℕ) → MemType → Note

pub record State : Type 0 where
  pub mem : Memory
  pub calls : ℕ
  pub files : List FileClass
  pub curr : ℤ
  pub alloc_track : ℕ → AllocList
  pub fix_head : List FixNode
  pub stats : Stats
  pub config : Config
  pub in_transition : Bool
  pub alloc_nomore : Bool
  -- `cnt` of randomize_alloc_type, and the array `num`
  pub type_cnt : ℕ
  pub num : List ℕ
  -- the standard output, the last write first
  pub printed : List Output
  -- the notes, the last first, each with the number of writes in `printed` that came before it
  pub notes : List (ℕ × Note)
