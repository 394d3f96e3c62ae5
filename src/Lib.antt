-- ===== src/Lib.antt =====
-- The memory gobbler, mem_gobbler.c: a program that loads the memory management of a system. It
-- runs jobs, one for each phase. A job first makes a transition, in which it maps anonymous
-- memory and files and touches what it has just mapped, and then holds for an execution time, in
-- which it touches the allocations of the phase in one of five patterns.
--
-- A second program, precise_allocer.c with alloc_manager.c, file_manager.c, job_manager.c,
-- pattern_manager.c, time_manager.c and vector_manager.c, is a split of the first one that the
-- build does not name and that is not finished: some of its calls name no function. In it a job
-- maps one allocation and touches one byte of it until an execution time has passed.
--
-- The parts, and the files that model them:
--   * Machine: the state of the process and what ends it. Machine/State has the global
--     variables, the structs and the enums of mem_gobbler.c, and the bytes of the mapped
--     addresses; Machine/Host has the C library and the kernel as functions of the number of a
--     call, with IsHost (what the C standard and mmap(2) say, that doubles hold the numbers up
--     to 2 ^ 53, and that a file which ftruncate cannot set is as long as its mapping) and
--     IsFair (that the sequences of rand() meet the wanted buckets); Machine/Run has commands,
--     which return, exit, trap or run out of rounds; Machine/Returns has the two forms of total
--     correctness, Returns, and Ends, which also lets the process exit with a status; and Stays,
--     which besides lets the rounds be used up, in a state of a given kind: in any, or behind a
--     number of calls of the host.
--   * Clock: converter, cputime, wctime, lt_sleep, timer_start and timer_end.
--   * Output: usage, print_paths, set_file_cnt, on_process_exit, and the texts of main.
--     State.printed has what the options and main have written to the standard output, the last
--     first; the line of a job is the record of its numbers. State.notes has what fix_rand_loc
--     and mmapper have written there, each with the number of writes of main before it.
--   * Random: rand_lim and rand_intr.
--   * Touch and Pattern: touch_simple, and the five patterns. Pattern/Stride and Pattern/Repeat
--     have stride_get_offset and repeat_get_count; Pattern/Sweep has pattern_stride, pattern_seq
--     and pattern_repeat; Pattern/Fix has pattern_fix and its list; Pattern/Rand has
--     pattern_rand.
--   * Files: find_avail_node and get_file_path over file_lst. Files/Table has the generated
--     table of files.h and the names that its macro PATH makes; the theorems on the program hold
--     for any table.
--   * Track: go_to_nxt_phase, alloc_track_init and add_new_alloc.
--   * Alloc: randomize_alloc_type, randomize_alloc_len, randomize_alloc_count, mmapper, alloc
--     and random_allocator_one, which calls Files and Track.
--   * Phase: touch, loop_once, loop_n, trans_rand_alloc, loop_for and job, which call Alloc,
--     Track and the patterns.
--   * Stma, Vector, Options: reset_stma_ltma, the lines of a vector file, and the options of
--     main, whose letters Options/Letters has, with getopt as a parameter.
--   * Main: the loop of main around the jobs, and main behind its options. Main/Running has what
--     holds in every round, Main/Log the printed lines, Main/Safe the loop, Main/Limit its stop,
--     Main/Start the initial state and main behind its options, and Main/Process the options,
--     main and the destructor in one.
--   * Precise: the second program. Precise/Files is file_manager.c, Precise/Pattern is
--     pattern_manager.c, Precise/Alloc is alloc_manager.c, Precise/Job is job_manager.c,
--     Precise/Time is time_manager.c, Precise/Vector is vector_manager.c and Precise/Main is
--     precise_allocer.c. A routine that is word for word one of mem_gobbler.c is an abbreviation
--     of its model; the others are written out and compared with it. What alloc_manager.c calls
--     of the pool of files and of the patterns is the interface Precise/Modules, whose laws
--     Precise/Modules/Managers is about. The calls of functions that no header declares are
--     taken as calls of the functions that stand for them: pattern_mgr_fix is pattern_fix,
--     get_file_path is file_mgr_get_file, get_nxt_alloc is vector_mgr_get_nxt, alloc_mgr_init is
--     alloc_track_init and stablilise is stabilise. stabilise returns no value, so that the
--     result of a job is a parameter, one for each job.
--   * Valid: the invariant of the running program, in which Track/Pages has the counts of pages.
--     Alloc/One, Phase/Holding, Phase/Loading, Phase/Spent, Phase/Load, Phase/Transition,
--     Phase/Timely, Phase/Hold and Phase/Job are about it. Base holds the names of the library
--     and the integers of C; Examples holds a host, a state, the theorems at these, and tests.
--
-- Numbers: lt_t and size_t are natural numbers with the wrap of 64 bits written out (add64,
-- sub64 and mul64 of Base/Word); int and long are integers where they can be negative. The
-- counter of randomize_alloc_type is an int, of which the 32 bits are kept. A double that holds
-- a time is an integer number of thousandths of the unit, since all readings are whole. What the
-- machine makes of an unsigned long as a double, and of the sum of the wall clock and an
-- execution time, are parameters of Machine/Host; the sums and differences of the process clock
-- are exact, as doubles are up to 2 ^ 53, which is 104 days in nanoseconds, and so is the
-- duration that main prints, the difference of two readings that are close to each other.
--
-- Bounds and fuel: every loop of the source that is not over a list has a number of rounds. The
-- loop of stride_get_offset has eleven, since ten halvings take 1000 to 0. The sweeps have a
-- round for each byte of the length. The loop of trans_rand_alloc has as many rounds as the
-- count, since each round makes the count smaller. The loop of main recurs on the jobs that are
-- left. The loops of rand_lim and loop_for depend on the host, so that Host says how many rounds
-- they are followed for (draws and ticks). IsFair, Ordered and Punctual of Phase/Timely say when
-- these are enough.
--
-- The loop of stabilise is followed for as many touches as host.ticks. The loop of
-- precise_allocer.c recurs on the lines of the vector; without a vector it has no other end than
-- a result of 0, and takes a number of jobs to follow it for.
--
-- What /proc/<pid>/pd_len does is the parameter PdLen of Stma. The third fopen of it is not
-- tested by the source: where it fails the model crashes, and the theorems on the two mains ask
-- that it does not. alloc_manager.c has a max_limit of its own, 1.
--
-- Not modelled: the warnings, which go to the standard error and change no state, but for the
-- line at the exit; the macros of log.h, which write these; the layout of the numbers by printf;
-- file_gen.sh, the script that wrote files.h; and del_alloc, which is compiled out.
pub mod Base
pub mod Machine
pub mod Clock
pub mod Output
pub mod Random
pub mod Touch
pub mod Pattern
pub mod Files
pub mod Track
pub mod Valid
pub mod Alloc
pub mod Phase
pub mod Stma
pub mod Vector
pub mod Options
pub mod Main
pub mod Precise
pub mod Examples
