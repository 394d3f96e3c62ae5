-- ===== src/Output.antt =====
-- What the programs print on the standard output besides the lines of their jobs, and the limit of
-- the process on open files. Warnings, which go to the standard error, are left out.
use memory_management_phase.Base.{ℕ, Bool, String, List, [], ◌∷◌}
use memory_management_phase.Base.Int.{is_zero_ℤ}
use memory_management_phase.Machine.Host.{Host}
use memory_management_phase.Machine.State.{
  State, Rusage, Output, plain, FileEntry, FileClass, Granularity, t_secs, t_milli, t_micro, t_nano,
}
use memory_management_phase.Machine.Run.{Cmd, ok, trap, out_of_bounds, modify, ask, ◌>>=◌}

-- The texts in order, written behind what is there.
unfoldable pub write_texts : List String → List Output → List Output
write_texts [] printed = printed
write_texts (t ∷ ts) printed = write_texts ts (plain t ∷ printed)

abbrev pub print_texts : List String → Cmd (Unit {0})
print_texts ts = modify (λ s. record s { printed = write_texts ts s.printed })

-- TIME_TO_STRING
abbrev pub time_to_string : Granularity → String
time_to_string t_secs = "s"
time_to_string t_milli = "ms"
time_to_string t_micro = "us"
time_to_string t_nano = "ns"

abbrev pub usage_text : List String
usage_text =
    "memgobble\n" ∷ "memgobble [options]\n" ∷ "List of options:\n"
    ∷ "\t-h                   : Display usage\n" ∷ "\t-v                   : Switch verbose off\n"
    ∷ "\t-p <locality count>  : Maximum locality the system will run\n"
    ∷ "\t-l <upper limit>     : Set the upper bound of alloc request\n"
    ∷ "\t-e <Execution time>  : Execution time of each locality in Ms\n"
    ∷ "\t-M <pages>           : Maximum allocation in pages per phase\n"
    ∷ "\t-s <speed>           : Speed at which memory is gobbled\n"
    ∷ "\t\t speed: 0-n, Higher the value faster the memory exhaustion\n"
    ∷ "\t-t <access-type>     : Access type of the locality\n" ∷ "\t\t access-type:\n"
    ∷ "\t\t\t0: Fix memory access pattern\n" ∷ "\t\t\t1: Stride memory access pattern\n"
    ∷ "\t\t\t2: Sequential memory access pattern\n" ∷ "\t\t\t3: Repeat memory access pattern\n"
    ∷ "\t\t\t4: Random memory access pattern\n" ∷ "\t-V <File name>\t: Vector of localities\n"
    ∷ "\t-I\t\t: Vector is IPFVT\n" ∷ "\t if CUSTOM_LINUX_KERNEL defined, then\n"
    ∷ "\t\t -S <STMA Count>\t: STMA Value\n" ∷ "\t\t -L <LTMA Count>\t: LTMA Value\n" ∷ "\t endif\n"
    ∷ []

-- What stands above the lines of the jobs.
abbrev pub format : List String
format =
    "\nFORMAT:\n" ∷ "Metric: Pages of size 4k\n"
    ∷ "<PID>, <PHASE CNT>,  <DURATION>,  <FILEMAPCNT>, <ANONMAPCNT>, <TOTAL CNT>, <MINFAULT>, <MAJFAULT>, <TOTALFAULT>, <RSS(pages)>\n"
    ∷ []

-- The while loop over the paths of a class, each with its newline.
unfoldable pub path_lines : List FileEntry → List String
path_lines [] = []
path_lines (e ∷ es) = e.path ∷ "\n" ∷ path_lines es

abbrev pub print_paths : List FileClass → Cmd (Unit {0})
print_paths [] = λ s. trap out_of_bounds
print_paths (c ∷ _) = print_texts (path_lines c.paths)

-- Whether perror is called, which is so if setrlimit returns 0.
unfoldable pub set_file_cnt : Host → (file_max : ℕ) → Cmd Bool
set_file_cnt host file_max = ask (host.setrlimit file_max) >>= λ r. ok (is_zero_ℤ r)

abbrev pub file_max : ℕ
file_max = 500000

-- What the destructor of the process writes to the standard error.
pub record ExitLine : Type 0 where
  pub pid : ℕ
  pub file_cnt : ℕ
  pub anon_cnt : ℕ
  pub minflt : ℕ
  pub majflt : ℕ

abbrev exit_line : Host → State → Rusage → ExitLine
exit_line host s res = record {
  pid = host.pid;
  file_cnt = s.stats.file_cnt;
  anon_cnt = s.stats.anon_cnt;
  minflt = res.ru_minflt;
  majflt = res.ru_majflt;
}

-- Its call of getrusage is the last one of the process.
unfoldable pub on_process_exit : Host → State → ExitLine
on_process_exit host s = exit_line host s (host.getrusage s.calls)
