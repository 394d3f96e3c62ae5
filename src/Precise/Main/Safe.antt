-- ===== src/Precise/Main/Safe.antt =====
-- A run over the lines of a vector does not trap, and has at most one job for each line.
use memory_management_phase.Base.{
  All, ◌-◌, ℕ, zero, suc, ◌+◌, ◌^◌, ◌<◌, ◌≤◌, ◌≡◌, refl, Bool, true, false, some, List, [], ◌∷◌,
  String, arith, length, Bool-cases, inl, inr,
}
use memory_management_phase.Base.Int.{ℤ, pos, ◌+ℤ◌, is_zero_ℤ}
use memory_management_phase.Machine.Host.{Host, IsHost, IsFair}
use memory_management_phase.Machine.State.{State, Rusage}
use memory_management_phase.Machine.Run.{Cmd}
use memory_management_phase.Machine.Returns
use memory_management_phase.Machine.Returns.{Stays, stays, unfinished}
use memory_management_phase.Clock
use memory_management_phase.Clock.{cpu_units}
use memory_management_phase.Phase.Timely.{Ordered, Punctual}
use memory_management_phase.Vector.{Tokens}
use memory_management_phase.Track.{phase_index}
use memory_management_phase.Track.Pages.{all_pages}
use memory_management_phase.Valid.{IsValid}
use memory_management_phase.Main.Running.{
  printed-IsValid, IsTimed, set_line, set_line-IsValid, clocked, clocked-IsValid, following,
  phase_index-pos,
}
use memory_management_phase.Precise.Vector.{split_line, vector_mgr_get_nxt}
use memory_management_phase.Precise.Modules.{Modules, IsModules}
use memory_management_phase.Precise.Job.Whole.{job-Stays}
use memory_management_phase.Precise.Main.{Args, print_job, round, vector_loop, plain_loop}
use memory_management_phase.Main.{print_line}
use memory_management_phase.Output.{write_texts, format}
use memory_management_phase.Main.Log.{IsLog, one_more, shown}
use memory_management_phase.Base.Word.{add64}

-- n phases have begun, the tracked allocations have at least n pages, and the lines of their n jobs are printed; a sum of
-- counts is a word.
pub record IsAt (verbose : Bool) (n : ℕ) (s : State) : Type 0 where
  pub valid : IsValid s
  pub phase : s.curr +ℤ pos 1 ≡ pos n
  pub loaded : n ≤ all_pages s.alloc_track
  pub log : IsLog (write_texts format []) (2 ^ 64 - 1) (shown verbose n) s.printed

-- At the end, with at most `limit` jobs.
pub record Worked (verbose : Bool) (limit : ℕ) (s : State) : Type 0 where
  pub jobs : ℕ
  pub few : jobs ≤ limit
  pub at : IsAt verbose jobs s

-- Behind the line for the job n.
record IsReported (verbose : Bool) (n : ℕ) (s : State) : Type 0 where
  valid : IsValid s
  phase : s.curr +ℤ pos 1 ≡ pos n
  loaded : n ≤ all_pages s.alloc_track
  log : IsLog (write_texts format []) (2 ^ 64 - 1) (shown verbose (n + 1)) s.printed

module _ (host : Host) (std : IsHost host) (fair : IsFair host) (page : host.page_size ≡ 4096)
    (m : Modules) (law : IsModules m) (lib : Tokens) (a : Args) (Q : State → Type 0)
    (Allowed : ℤ → Type 0) (ordered : Ordered host Q a.time_g)
    (punctual : (exec_time : ℤ)
      → Allowed exec_time
      → (c : ℕ) → Punctual host Q a.time_g exec_time c) where
  report-IsReported :
      (start n : ℕ) (res : Rusage) (s : State) (verbose : Bool)
      → IsAt verbose n s
      → Stays Q (λ _ t. IsReported verbose n t) (print_job host m lib a verbose start n res s)
  unfolding Clock.wctime clocked print_line add64
  report-IsReported start n res s true h = stays (record {
    valid =
        printed-IsValid _ (clocked s (s.calls + 1) s.alloc_nomore)
          (clocked-IsValid s (s.calls + 1) s.alloc_nomore h.valid);
    phase = h.phase;
    loaded = h.loaded;
    log = one_more h.log refl refl (omega arith);
  })
  report-IsReported start n res s false h =
      stays (record { valid = h.valid; phase = h.phase; loaded = h.loaded; log = h.log })

  round-Stays :
      (limit start n : ℕ) (wcet indeterminate : ℤ) (next : Cmd (Unit {0})) (s : State)
      → n < limit
      → limit ≤ 60000
      → Allowed wcet
      → IsAt a.verbose n s
      → ((t : State)
          → IsAt a.verbose (n + 1) t
          → Stays Q (λ _ u. Worked a.verbose limit u) (next t))
      → Stays Q
          (λ _ u. Worked a.verbose limit u)
          (round host m lib a start n indeterminate next wcet s)
  unfolding round clocked
  round-Stays limit start n wcet indeterminate next s lt table allowed h go =
      let t0 = clocked s (s.calls + 1) s.alloc_nomore in
      let h0 : IsAt a.verbose n t0 = record {
        valid = clocked-IsValid s (s.calls + 1) s.alloc_nomore h.valid;
        phase = h.phase;
        loaded = h.loaded;
        log = h.log;
      } in
      Returns.bind_Stays (report-IsReported start n (host.getrusage s.calls) t0 a.verbose h0)
        λ _ t h'.
          let at : phase_index (t.curr +ℤ pos 1) ≡ some n =
            rw h'.phase (phase_index-pos n (omega arith)) in
          Returns.bind_Stays
            (job-Stays host std fair page m law Q a.time_g ordered indeterminate wcet n t
              (punctual wcet allowed) h'.valid at)
            λ v u (_, valid, _, curr, printed, pages).
              let u_at : IsAt a.verbose (n + 1) u = record {
                valid = valid;
                phase = rw (curr, h'.phase) (following n);
                loaded = omega (arith, h'.loaded, pages);
                log = rw printed h'.log;
              } in
              elim (Bool-cases (is_zero_ℤ v)) [
                | inl stop ↦ rw stop (stays (record { jobs = n + 1; few = omega arith; at = u_at }))
                | inr again ↦ rw again (go u u_at)
              ]

  pub vector_loop-Stays :
      (results : ℕ → ℤ) (limit start n : ℕ) (lines : List String) (s : State)
      → n + length lines ≤ limit
      → limit ≤ 60000
      → All (IsTimed (λ _. Allowed) lib a.ipfvt) lines
      → IsAt a.verbose n s
      → Stays Q (λ _ u. Worked a.verbose limit u) (vector_loop host m lib a results start n lines s)
  unfolding vector_loop vector_mgr_get_nxt split_line set_line
  vector_loop-Stays results limit start n [] s room table ls h =
      stays (record { jobs = n; few = omega arith; at = h })
  vector_loop-Stays results limit start n (line ∷ lines) s room table (i, ls) h =
      let l = i.line_ok in
      rw l.fields (
        round-Stays limit start n l.wcet (results n) _ (set_line l.alloc_cnt s) (omega arith) table
          i.allowed
          (record {
            valid = set_line-IsValid l.alloc_cnt s h.valid;
            phase = h.phase;
            loaded = h.loaded;
            log = h.log;
          })
          λ t h'. vector_loop-Stays results limit start (n + 1) lines t (omega arith) table ls h')

  -- Without a vector, if a run may be left unfinished in any state.
  pub plain_loop-Stays :
      ((w : State) → Q w)
      → (fuel : ℕ) (results : ℕ → ℤ) (limit start n : ℕ) (wcet : ℤ) (s : State) → n + fuel ≤ limit
      → limit ≤ 60000
      → Allowed wcet
      → IsAt a.verbose n s
      → Stays Q
          (λ _ u. Worked a.verbose limit u)
          (plain_loop host m lib a fuel results start n wcet s)
  unfolding plain_loop
  plain_loop-Stays any zero results limit start n wcet s room table allowed h = unfinished (any s)
  plain_loop-Stays any (suc fuel) results limit start n wcet s room table allowed h =
      round-Stays limit start n wcet (results n) _ s (omega arith) table allowed h λ t h'.
        plain_loop-Stays any fuel results limit start (n + 1) wcet t (omega arith) table allowed h'
