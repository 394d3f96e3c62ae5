-- ===== src/Examples/World.antt =====
-- A host, on which mmap puts everything up to a megabyte at one place and a minute of processor time
-- has gone by at the fiftieth call, and a state in its first phase with one allocation of two pages.
use memory_management_phase.Base.{
  ℕ, zero, suc, ◌+◌, ◌<◌, ◌≤◌, ◌≡◌, refl, inr, true, false, ◌/◌, ◌&&◌, some, none, List, [], ◌∷◌,
  arith, ltb, leb, if◌then◌else◌,
}
use memory_management_phase.Base.Int.{pos, ◌+ℤ◌}
use memory_management_phase.Machine.Host.{Host, IsHost, IsFair}
use memory_management_phase.Machine.State.{
  State, FileClass, Allocation, file, anon, mem_rand, Config, t_secs,
}
use memory_management_phase.Base.Word.{add64}
use memory_management_phase.Clock.{cpu_units, cpu_reading}
use memory_management_phase.Touch.Frame.{IsRegion}
use memory_management_phase.Track.{empty_list, update}
use memory_management_phase.Track.Entries.{Added}
use memory_management_phase.Track.Pages.{
  IsCounted, entry_pages, tracked_pages-Added, tracked_pages-empty,
}
use memory_management_phase.Alloc.Length.{IsSized}
use memory_management_phase.Valid.{IsValid, IsAllocation}

abbrev pub host : Host
host = record {
  rand_max = 32767;
  rand = λ _ _. 0;
  cpu_clock = λ n. (if ltb n 50 then 0 else 60, 0);
  wall_clock = λ n. (0, 0);
  page_size = 4096;
  malloc = λ _. true;
  open_path = λ _ _. true;
  ftruncate = λ _. true;
  madvise = λ _. true;
  mmap = λ _ size. if leb size 1048576 then some 1048576 else none;
  content = λ _ _. 1;
  file_size = λ _. 4096;
  to_double = λ n. n;
  add_double = λ x y. x +ℤ y;
  draws = 1;
  pid = 42;
  getrusage = λ _. record { ru_minflt = 100; ru_majflt = 2; ru_maxrss = 8192 };
  setrlimit = λ _ _. pos 0;
  ticks = 60;
}

pub host-IsHost : IsHost host
host-IsHost = record {
  rand-le = λ seed k. omega arith;
  rand_max-ge = omega arith;
  mmap-pos = λ n size a e. ground arith;
  to_double-exact = λ n h. refl;
  file_size-ge = λ n size a h e. cc;
  mmap-fits = λ n size a e. ground arith;
}

zero-div-lt : (d limit : ℕ) → 0 < limit → 0 / d < limit
zero-div-lt d limit h = grind arith

pub host-IsFair : IsFair host
host-IsFair = record {
  hits = λ seed limit h k. (0, omega arith, zero-div-lt (32767 / (limit + 1)) limit h);
}

pub host-ordered : (n m : ℕ) → n ≤ m → cpu_reading host t_secs n ≤ cpu_reading host t_secs m
unfolding cpu_units
host-ordered n m h = ground arith

abbrev pub two_pages : Allocation
two_pages = record { addr = 1048576; len = 8192; type = anon }

abbrev pub config : Config
config = record {
  max_alloc_per_phase = 1;
  alloc_precision = true;
  max_limit = 1;
  speed = 0;
  access_type = mem_rand;
  alloc_size = 0;
  max_alloc_per_phase_byte = 4096;
  vector = false;
  ipfvt = false;
  time_g = t_secs;
  stma = 0;
  ltma = 0;
}

abbrev pub files : List FileClass
files =
    record {
      size = 4096;
      paths =
          record { alloc = pos 1; path = "4K_1.txt" }
          ∷ record { alloc = pos 0; path = "4K_2.txt" }
          ∷ [];
      filled = false;
    }
    ∷ []

abbrev pub state : State
state = record {
  mem = λ p. if leb 1048576 p && ltb p 1056768 then some 7 else none;
  calls = 0;
  files = files;
  curr = pos 0;
  alloc_track = update (λ _. empty_list) 0 (record { list_count = 1; lst = λ _. two_pages });
  fix_head = [];
  stats = record { anon_cnt = 2; file_cnt = 0; phase_cnt = 0; total_alloc_pages = 2 };
  config = config;
  in_transition = false;
  alloc_nomore = false;
  type_cnt = 0;
  num = 0 ∷ 0 ∷ [];
  printed = [];
  notes = [];
}

pub state-IsRegion : IsRegion state.mem 1048576 8192
state-IsRegion = record { fits = omega arith; mapped = λ p h k. ground arith }

pub two_pages-IsAllocation : IsAllocation state.mem two_pages
two_pages-IsAllocation = record {
  nonnull = omega arith;
  a_page = omega arith;
  region = state-IsRegion;
}

tracked :
    (p i : ℕ)
    → i < (state.alloc_track p).list_count
    → IsAllocation state.mem ((state.alloc_track p).lst i)
tracked zero i h = two_pages-IsAllocation
tracked (suc p) i h = absurd (ground arith)

untracked : State
untracked = record state { alloc_track = λ _. empty_list }

two_pages-Added : Added 0 two_pages untracked state
unfolding untracked
two_pages-Added = record {
  count = refl;
  last = refl;
  others = λ i h. absurd (omega arith);
  phases = λ q h. ground arith;
  rest = refl;
}

state-IsCounted : IsCounted state.stats state.alloc_track
unfolding untracked entry_pages
state-IsCounted = record {
  files = omega (
    arith,
    tracked_pages-Added file 0 two_pages untracked state (omega arith) two_pages-Added,
    tracked_pages-empty file,
  );
  anons = omega (
    arith,
    tracked_pages-Added anon 0 two_pages untracked state (omega arith) two_pages-Added,
    tracked_pages-empty anon,
  );
}

pub state-IsValid : IsValid state
unfolding add64
state-IsValid = record {
  tracked = tracked;
  fixed = tt;
  big = (omega arith, tt);
  speed = omega arith;
  short = omega arith;
  cap = inr (omega arith);
  access = λ e. ground arith;
  total = total_state;
  counted = state-IsCounted;
}
  where
    total_state : 2 ≡ add64 0 2
    total_state = refl

pub state-IsSized : IsSized 0 state
state-IsSized = record { big = (omega arith, tt); last_lt = omega arith; short = omega arith }
