-- ===== src/Examples/Settings.antt =====
-- Options, lengths and clock readings.
use memory_management_phase.Base.{
  ℕ, ◌+◌, ◌-◌, ◌*◌, ◌/◌, ◌%◌, ◌^◌, ◌≡◌, ◌≢◌, ◌⊎◌, ◌↔◌, refl, inl, arith, true, false, none, List,
  [], ◌∷◌,
}
use memory_management_phase.Base.Int.{pos}
use memory_management_phase.Base.Word.{sub64, mul64}
use memory_management_phase.Machine.Host.{Host, IsHost}
use memory_management_phase.Machine.State.{t_secs, t_milli, t_micro, t_nano}
use memory_management_phase.Clock.{cpu_reading, timer_end}
use memory_management_phase.Clock.Laws.{cpu_reading-whole, timer_end-elapsed}
use memory_management_phase.Options.{Opt, parse_options, initial}
use memory_management_phase.Options.Sane.{IsSane, Leaves, parse_options-initial}
use memory_management_phase.Stma.{
  PdLen, Refused, set, failed, crashed, reset_stma_ltma-crashed, reset_stma_ltma, fill_lengths,
  write_lengths, check_back, reset_stma_ltma-set, reset_stma_ltma-failed,
}
use memory_management_phase.Pattern.Stride.{stride_get_offset, stride_get_offset-none}
use memory_management_phase.Files.{get_file_path}
use memory_management_phase.Files.Best.{Promise, get_file_path-Promise}
use memory_management_phase.Examples.World.{host, host-IsHost, files}

-- -a 2 -M 100 -s 1
abbrev options : List Opt
options = Opt.access 2 ∷ Opt.max_alloc 100 ∷ Opt.speed 1 ∷ []

parse_options-initial_example :
    Leaves (λ b. IsSane 1 b.config) (parse_options 1 (λ _. true) options (initial 1))
parse_options-initial_example = parse_options-initial 1 (λ _. true) options (omega arith)

-- A file that holds what was written.
abbrev pd_len : PdLen
pd_len = record {
  open_rw = true;
  open_wb = true;
  fwrite = true;
  open_rb = true;
  read_back = λ stma ltma. (stma, ltma);
}

abbrev five : ℕ
five = 5

abbrev ten : ℕ
ten = 10

abbrev none_given : ℕ
none_given = 0

five_ten : reset_stma_ltma pd_len 5 0 ≡ set 5 10
unfolding reset_stma_ltma fill_lengths write_lengths check_back sub64 mul64
five_ten = refl

reset_stma_ltma-set_example :
    (five ≢ 0)
    × (ten ≢ 0)
    × ((five ≡ five) ⊎ ((five ≡ 0) × (five ≡ none_given / 2)))
    × ((ten ≡ none_given) ⊎ ((none_given ≡ 0) × (ten ≡ (five * 2) % 2 ^ 64)))
    × (pd_len.open_rw ≡ true)
    × (pd_len.open_wb ≡ true)
    × (pd_len.fwrite ≡ true)
    × (pd_len.open_rb ≡ true)
    × (sub64 (pd_len.read_back 5 10).0 5 ≡ 0)
    × (sub64 (pd_len.read_back 5 10).1 10 ≡ 0)
reset_stma_ltma-set_example = reset_stma_ltma-set pd_len 5 0 5 10 five_ten

reset_stma_ltma-failed_example : reset_stma_ltma pd_len 0 1 ≡ failed
reset_stma_ltma-failed_example = reset_stma_ltma-failed pd_len 0 1 (inl (refl, omega arith))

-- A file that cannot be opened again.
abbrev lost : PdLen
lost = record pd_len { open_rb = false }

reset_stma_ltma-crashed_example : (reset_stma_ltma lost 5 0 ≡ crashed) ↔ (
    (¬ Refused 5 0)
    × (lost.open_rw ≡ true)
    × (lost.open_wb ≡ true)
    × (lost.fwrite ≡ true)
    × (lost.open_rb ≡ false))
reset_stma_ltma-crashed_example = reset_stma_ltma-crashed lost 5 0 (omega arith) (omega arith)

lost-crashed : reset_stma_ltma lost 5 0 ≡ crashed
unfolding reset_stma_ltma fill_lengths write_lengths mul64
lost-crashed = refl

-- The clock stands at 3.999999999 seconds.
abbrev fourth : Host
fourth = record host { cpu_clock = λ n. (3, 999999999) }

fourth-IsHost : IsHost fourth
fourth-IsHost = record {
  rand-le = host-IsHost.rand-le;
  rand_max-ge = host-IsHost.rand_max-ge;
  mmap-pos = host-IsHost.mmap-pos;
  to_double-exact = host-IsHost.to_double-exact;
  file_size-ge = host-IsHost.file_size-ge;
  mmap-fits = host-IsHost.mmap-fits;
}

cpu_reading-whole_example :
    (cpu_reading fourth t_secs 7 ≡ 3)
    × (cpu_reading fourth t_milli 7 ≡ 3 * 1000)
    × (cpu_reading fourth t_micro 7 ≡ 3 * 1000000)
    × (cpu_reading fourth t_nano 7 ≡ 3 * 1000000000 + 999999999)
cpu_reading-whole_example =
    cpu_reading-whole fourth fourth-IsHost 7 3 999999999 refl (omega arith) (omega arith)

timer_end-elapsed_example :
    (timer_end (1, 900000000) (2, 100000000)
      ≡ pos (2 * 1000000000 + 100000000 - (1 * 1000000000 + 900000000)))
    ↔ (◌≡◌ {A = ℕ} 1 2)
timer_end-elapsed_example =
    timer_end-elapsed 1 900000000 2 100000000 (omega arith) (omega arith) (omega arith)

stride_get_offset-none_example : (stride_get_offset 0 ≡ none) ↔ (none_given ≡ 0)
stride_get_offset-none_example = stride_get_offset-none 0

get_file_path-Promise_example :
    Promise files 4096 (get_file_path files 4096).node (get_file_path files 4096).len
get_file_path-Promise_example = get_file_path-Promise files 4096
