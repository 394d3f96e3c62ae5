-- ===== src/Machine/Host.antt =====
-- The C library and the kernel, which are not part of the repository: every answer that the program
-- gets from them is a function of the number of the call (and of the call's arguments), so nothing
-- is assumed of when an answer comes or of what it is.
use memory_management_phase.Base.{
  ℕ, ◌+◌, ◌/◌, ◌^◌, ◌≤◌, ◌<◌, ◌≡◌, Bool, false, Option, some, String,
}
use memory_management_phase.Base.Int.{ℤ}
use memory_management_phase.Machine.State.{Rusage}

pub record Host : Type 0 where
  -- RAND_MAX, and the k-th number that rand() gives after srand(seed)
  pub rand_max : ℕ
  pub rand : ℕ → ℕ → ℕ
  -- tv_sec and tv_nsec of clock_gettime, tv_sec and tv_usec of gettimeofday
  pub cpu_clock : ℕ → ℕ × ℕ
  pub wall_clock : ℕ → ℕ × ℕ
  -- sysconf(_SC_PAGESIZE)
  pub page_size : ℕ
  -- whether malloc finds memory, open finds the path, ftruncate and madvise return 0
  pub malloc : ℕ → Bool
  pub open_path : ℕ → String → Bool
  pub ftruncate : ℕ → Bool
  pub madvise : ℕ → Bool
  -- where mmap puts a mapping of the size, none for MAP_FAILED; and the bytes of a mapped file
  pub mmap : ℕ → ℕ → Option ℕ
  pub content : ℕ → ℕ → ℕ
  -- how long the file is, if the call of ftruncate does not set its length, up to the end of its last
  -- page
  pub file_size : ℕ → ℕ
  -- an unsigned long as a double, and the sum of two doubles, in thousandths
  pub to_double : ℕ → ℕ
  pub add_double : ℤ → ℤ → ℤ
  -- getpid, getrusage of the process, and what setrlimit returns for a limit on the open files
  pub pid : ℕ
  pub getrusage : ℕ → Rusage
  pub setrlimit : (limit call : ℕ) → ℤ
  -- how many numbers of one sequence rand_lim is followed through
  pub draws : ℕ
  -- how many rounds the holding loop is followed through
  pub ticks : ℕ

-- What the C standard and mmap(2) say: rand() is at most RAND_MAX, and RAND_MAX at least 32767; a
-- mapping is not at NULL and lies in the lower half of the address space, which is the user's; mmap(2)
-- refuses the length 0. A double holds every whole number up to 2 ^ 53. A file whose length ftruncate
-- cannot set has the length that is mapped.
pub record IsHost (h : Host) : Type 0 where
  pub rand-le : (seed k : ℕ) → h.rand seed k ≤ h.rand_max
  pub rand_max-ge : 32767 ≤ h.rand_max
  pub mmap-pos : (n size a : ℕ) → h.mmap n size ≡ some a → 0 < a
  pub to_double-exact : (n : ℕ) → n ≤ 2 ^ 53 → h.to_double n ≡ n
  pub file_size-ge :
      (n size a : ℕ) → h.ftruncate n ≡ false → h.mmap (n + 1) size ≡ some a → size ≤ h.file_size n
  pub mmap-fits : (n size a : ℕ) → h.mmap n size ≡ some a → a + size ≤ 2 ^ 63

-- Every sequence of rand(), cut into buckets of `rand_max / (limit + 1)` numbers, meets one of the
-- first `limit` buckets among the numbers that are followed.
pub record IsFair (h : Host) : Type 0 where
  pub hits :
      (seed limit : ℕ)
      → 0 < limit
      → limit < h.rand_max
      → (k : ℕ) × (k < h.draws) × (h.rand seed k / (h.rand_max / (limit + 1)) < limit)
