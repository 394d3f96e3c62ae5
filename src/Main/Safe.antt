-- ===== src/Main/Safe.antt =====
-- The whole run of the jobs does not trap.
use memory_management_phase.Base.{
  All, ap, ℕ, zero, suc, ◌+◌, ◌-◌, ◌^◌, ◌<◌, ◌≤◌, ◌≡◌, Bool, true, false, some, List, [], ◌∷◌,
  String, arith, ltb, Bool-cases, inl, inr,
}
use memory_management_phase.Base.Int.{ℤ, pos, ◌+ℤ◌}
use memory_management_phase.Base.Word.{add64}
use memory_management_phase.Machine.Host.{Host, IsHost, IsFair}
use memory_management_phase.Machine.State.{State, Config, Output, Rusage}
use memory_management_phase.Machine.Run.{Cmd}
use memory_management_phase.Machine.Returns
use memory_management_phase.Machine.Returns.{Stays, stays, leaves, unfinished}
use memory_management_phase.Clock.{wctime}
use memory_management_phase.Vector.{Tokens, get_nxt_alloc, of_tokens-lt}
use memory_management_phase.Phase.Job.{job-Stays}
use memory_management_phase.Track.{phase_index}
use memory_management_phase.Valid.{IsValid}
use memory_management_phase.Main.{print_line, print_job, round, with_line, main_loop, run_jobs}
use memory_management_phase.Main.Running.{
  IsTimed, Asks, printed-IsRunning, IsRunning, Ran, Gobbled, IsRunning-Gobbled, clocked-Gobbled,
  IsRunning-Ran, clocked-Ran, set_line, set_line-IsRunning, clocked, clocked-IsRunning,
  phase_index-pos, Worked-IsRunning,
}
use memory_management_phase.Main.Log.{
  IsLog, nothing, within, shown, IsLogged, IsReported, print_line-IsReported, quiet-IsReported,
  Printed, IsOutput-Printed,
}
use memory_management_phase.Options.{reset_max_alloc_per_phase}
use memory_management_phase.Phase.Load.{least}
use memory_management_phase.Phase.Timely.{Ordered, Punctual}

-- The end of a run with the settings k: its state, and what it has printed.
abbrev pub Finished : List Output → Config → (verbose : Bool) (limit : ℕ) → State → Type 0
Finished before k verbose limit u = Ran limit u × Printed before k.max_limit verbose limit u

-- Besides, every phase has been loaded with m pages.
abbrev pub Loaded : (m : ℕ) → List Output → Config → (verbose : Bool) (limit : ℕ) → State → Type 0
Loaded m before k verbose limit u = Finished before k verbose limit u × Gobbled m u

module _ (host : Host) (m : ℕ) (lib : Tokens) (verbose : Bool) (start limit : ℕ)
    (before : List Output) (k : Config) (Q : State → Type 0) (Allowed : ℤ → Type 0) where
  report-IsReported :
      (left n : ℕ) (res : Rusage) (s : State) (v : Bool)
      → IsRunning m limit k left s
      → IsLogged before k.max_limit v n s
      → Stays Q
          (λ _ t. IsRunning m limit k left t × IsReported before k.max_limit v n t)
          (print_job host lib v start n res s)
  unfolding wctime clocked print_line
  report-IsReported left n res s true r l =
      let t = clocked s (s.calls + 1) s.alloc_nomore in
      let l' : IsLogged before k.max_limit true n t = record { same = l.same; log = l.log } in
      stays (
        printed-IsRunning m limit k left _ t (clocked-IsRunning m limit k left (s.calls + 1) s r),
        print_line-IsReported before k.max_limit host.pid start n res s.config.time_g _ t l',
      )
  report-IsReported left n res s false r l = stays (r, quiet-IsReported before k.max_limit n s l)

  -- The round behind the line, if what comes next does not trap.
  round-Stays :
      (left n : ℕ) (wcet : ℤ) (lines : List String) (next : ℤ → List String → Cmd (Unit {0}))
      (s : State)
      → n + left ≡ limit
      → IsRunning m limit k left s
      → IsLogged before k.max_limit verbose n s
      → ((t : State)
          → IsRunning m limit k left t
          → IsLogged before k.max_limit verbose (n + 1) t
          → Stays Q (λ _ u. Loaded m before k verbose limit u) (next wcet lines t))
      → Stays Q
          (λ _ u. Loaded m before k verbose limit u)
          (round host lib verbose start n next wcet lines s)
  unfolding round clocked
  round-Stays left n wcet lines next s here r l go =
      let t0 = clocked s (s.calls + 1) s.alloc_nomore in
      Returns.bind_Stays
        (report-IsReported left n (host.getrusage s.calls) t0 verbose
          (clocked-IsRunning m limit k left (s.calls + 1) s r)
          (record { same = l.same; log = l.log }))
        λ _ t (r', p).
          elim (Bool-cases (ltb t.config.max_limit (add64 t.stats.file_cnt t.stats.anon_cnt))) [
            | inl full ↦
                let ran = clocked-Ran limit t.calls true t (IsRunning-Ran m limit k left t r') in
                let log =
                  IsOutput-Printed before k.max_limit verbose (n + 1) limit (clocked t t.calls true)
                    (omega arith) (p.full full) in
                rw full (
                  stays (
                    (ran, log),
                    clocked-Gobbled m t t.calls true (IsRunning-Gobbled m limit k left t r'),
                  ))
            | inr space ↦ rw space (
                Returns.Stays-else t.alloc_nomore _ _ t r'.nomore
                  (go t r' (record { same = p.same; log = p.space space })))
          ]

  with_line-Stays :
      (vector : Bool) (left n : ℕ) (wcet : ℤ) (lines : List String)
      (next : ℤ → List String → Cmd (Unit {0})) (s : State)
      → n + left ≡ limit
      → IsRunning m limit k left s
      → IsLogged before k.max_limit verbose n s
      → Allowed wcet
      → All (IsTimed (Asks m Allowed) lib k.ipfvt) lines
      → ((wcet' : ℤ) (lines' : List String) (t : State)
          → Allowed wcet'
          → All (IsTimed (Asks m Allowed) lib k.ipfvt) lines'
          → IsRunning m limit k left t
          → IsLogged before k.max_limit verbose (n + 1) t
          → Stays Q (λ _ u. Loaded m before k verbose limit u) (next wcet' lines' t))
      → Stays Q
          (λ _ u. Loaded m before k verbose limit u)
          (with_line host lib verbose start vector n next wcet lines s)
  unfolding get_nxt_alloc set_line reset_max_alloc_per_phase
  with_line-Stays false left n wcet lines next s here r l w ls go =
      round-Stays left n wcet lines next s here r l λ t r' l'. go wcet lines t w ls r' l'
  with_line-Stays true left n wcet [] next s here r l w ls go = stays (
    (
      IsRunning-Ran m limit k left s r,
      IsOutput-Printed before k.max_limit verbose n limit s (omega arith) (within l.log),
    ),
    IsRunning-Gobbled m limit k left s r,
  )
  with_line-Stays true left n wcet (line ∷ lines) next s here r l w (i, ls) go =
      let i' : IsTimed (Asks m Allowed) lib s.config.ipfvt line = rw r.ipfvt i in
      let j = i'.line_ok in
      rw j.fields (
        round-Stays left n j.wcet lines next (set_line j.alloc_cnt s) here
          (set_line-IsRunning m limit k left j.alloc_cnt s
            (of_tokens-lt lib s.config.ipfvt _ j.alloc_cnt j.wcet j.fields) i'.allowed.0 r)
          (record { same = l.same; log = l.log })
          λ t r' l'. go j.wcet lines t i'.allowed.1 ls r' l')

module _ (host : Host) (std : IsHost host) (fair : IsFair host) (page : host.page_size ≡ 4096)
    (m : ℕ) (lib : Tokens) (verbose : Bool) (start : ℕ) (before : List Output) (k : Config)
    (Q : State → Type 0) (Allowed : ℤ → Type 0) (ordered : Ordered host Q k.time_g)
    (punctual : (exec_time : ℤ)
      → Allowed exec_time
      → (c : ℕ) → Punctual host Q k.time_g exec_time c) where
  main_loop-Stays :
      (limit left n : ℕ) (wcet : ℤ) (lines : List String) (s : State)
      → n + left ≡ limit
      → IsRunning m limit k left s
      → IsLogged before k.max_limit verbose n s
      → Allowed wcet
      → All (IsTimed (Asks m Allowed) lib k.ipfvt) lines
      → Stays Q
          (λ _ u. Loaded m before k verbose limit u)
          (main_loop host lib verbose start left n wcet lines s)
  unfolding main_loop
  main_loop-Stays limit zero n wcet lines s here r l w ls =
      with_line-Stays host m lib verbose start limit before k Q Allowed s.config.vector 0 n wcet
        lines _ s here r l w ls
        λ wcet' lines' t w' ls' r' l'. stays (
          (
            IsRunning-Ran m limit k 0 t r',
            IsOutput-Printed before k.max_limit verbose (n + 1) limit t (omega arith)
                (within l'.log),
          ),
          IsRunning-Gobbled m limit k 0 t r',
        )
  main_loop-Stays limit (suc left) n wcet lines s here r l w ls =
      with_line-Stays host m lib verbose start limit before k Q Allowed s.config.vector (suc left) n
        wcet lines _ s here r l w ls
        λ wcet' lines' t w' ls' r' l'.
          let at : phase_index (t.curr +ℤ pos 1) ≡ some r'.next =
            rw r'.phase (phase_index-pos r'.next (omega (arith, r'.room, r'.table))) in
          let ordered' : Ordered host Q t.config.time_g = rw r'.time_g ordered in
          let punctual' : (c : ℕ) → Punctual host Q t.config.time_g wcet' c =
            rw r'.time_g (punctual wcet' w') in
          Returns.bind_Stays
            (job-Stays host std fair page Q t.config.time_g ordered' wcet' r'.next t
              (λ v u ran. punctual' u.calls) r'.valid r'.word r'.nomore at)
            λ z u (one, j). rw one (
              main_loop-Stays limit left (n + 1) wcet' lines' u (omega arith)
                (Worked-IsRunning m limit k left r'.next _ t u r' j)
                (record { same = rw j.config l'.same; log = rw j.printed l'.log }) w' ls')

  -- From a valid state with the settings k in which no job has run, with the output `before`, with
  -- alloc_nomore not set, with a count that is a word, and with at most 60001 phases, on a punctual
  -- clock: the jobs of main do not trap, if each line of the vector has its two fields, with an
  -- execution time that is allowed, and it and the settings ask for at least m pages. They return in a valid state whose phase is below max_phase - 1,
  -- with the lines of at most max_phase jobs printed (of one, if max_phase is 0), end the process by
  -- exit, or are left unfinished in a state in Q.
  pub run_jobs-Stays :
      (max_phase : ℕ) (wcet : ℤ) (lines : List String) (s : State)
      → s.config ≡ k
      → IsValid s
      → k.max_alloc_per_phase < 2 ^ 64
      → m ≤ least k
      → s.alloc_nomore ≡ false
      → s.curr +ℤ pos 1 ≡ pos 0
      → s.printed ≡ before
      → max_phase ≤ 60001
      → Allowed wcet
      → All (IsTimed (Asks m Allowed) lib k.ipfvt) lines
      → Stays Q
          (λ _ u. Loaded m before k verbose (max_phase - 1) u)
          (run_jobs host lib verbose start max_phase wcet lines s)
  unfolding run_jobs
  run_jobs-Stays max_phase wcet lines s set v word enough nomore begin silent few w ls =
      main_loop-Stays (max_phase - 1) (max_phase - 1) 0 wcet lines s (omega arith)
        (record {
          valid = v;
          word = rw set word;
          nomore = nomore;
          ipfvt = ap (λ (c : Config). c.ipfvt) set;
          time_g = ap (λ (c : Config). c.time_g) set;
          next = 0;
          phase = begin;
          room = omega arith;
          table = omega arith;
          enough = rw set enough;
          load = inl (omega arith);
        })
        (record { same = ap (λ (c : Config). c.max_limit) set; log = first_log verbose }) w ls
    where
      first_log : (v : Bool) → IsLog before k.max_limit (shown v 0) s.printed
      first_log true = rw silent nothing
      first_log false = rw silent nothing
