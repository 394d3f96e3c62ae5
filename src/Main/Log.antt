-- ===== src/Main/Log.antt =====
-- The lines that main prints: numbered from 0, and within the limit on the pages, but for the last.
use memory_management_phase.Base.{
  ℕ, ◌+◌, ◌<◌, ◌≤◌, ◌≡◌, refl, Bool, true, false, List, ◌∷◌, arith, ltb,
}
use memory_management_phase.Base.Word.{add64}
use memory_management_phase.Machine.State.{State, Granularity, Rusage, Report, Output, report}
use memory_management_phase.Main.{print_line}

-- Above `before`, the lines of n jobs, the last first, none of which ended the run by the limit.
pub data IsLog (before : List Output) (max_limit : ℕ) : ℕ → List Output → Type 0 where
  nothing : IsLog before max_limit 0 before
  one_more :
      {n : ℕ} {r : Report} {out : List Output}
      → IsLog before max_limit n out
      → r.cur_job ≡ n
      → r.total ≡ add64 r.file_cnt r.anon_cnt
      → r.total ≤ max_limit
      → IsLog before max_limit (n + 1) (report r ∷ out)

-- The lines of a run that may have ended by the limit.
pub data IsOutput (before : List Output) (max_limit : ℕ) : ℕ → List Output → Type 0 where
  within :
      {n : ℕ} {out : List Output} → IsLog before max_limit n out → IsOutput before max_limit n out
  over :
      {n : ℕ} {r : Report} {out : List Output}
      → IsLog before max_limit n out
      → r.cur_job ≡ n
      → r.total ≡ add64 r.file_cnt r.anon_cnt
      → max_limit < r.total
      → IsOutput before max_limit (n + 1) (report r ∷ out)

-- How many lines n jobs print.
abbrev pub shown : Bool → ℕ → ℕ
shown true n = n
shown false n = 0

-- The limit, and the lines of n jobs.
pub record IsLogged (before : List Output) (max_limit : ℕ) (verbose : Bool) (n : ℕ) (s : State)
    : Type 0 where
  pub same : s.config.max_limit ≡ max_limit
  pub log : IsLog before max_limit (shown verbose n) s.printed

-- Behind the line of the job n, before the test of the limit.
pub record IsReported (before : List Output) (max_limit : ℕ) (verbose : Bool) (n : ℕ) (s : State)
    : Type 0 where
  pub same : s.config.max_limit ≡ max_limit
  pub full :
      ltb s.config.max_limit (add64 s.stats.file_cnt s.stats.anon_cnt) ≡ true
      → IsOutput before max_limit (shown verbose (n + 1)) s.printed
  pub space :
      ltb s.config.max_limit (add64 s.stats.file_cnt s.stats.anon_cnt) ≡ false
      → IsLog before max_limit (shown verbose (n + 1)) s.printed

pub print_line-IsReported :
    (before : List Output) (max_limit pid start n : ℕ) (res : Rusage) (t : Granularity) (now : ℕ)
    (s : State)
    → IsLogged before max_limit true n s
    → IsReported before max_limit true n (print_line pid start n res t now s)
unfolding print_line
print_line-IsReported before max_limit pid start n res t now s l = record {
  same = l.same;
  full = λ h. over l.log refl refl (ground (arith, l.same));
  space = λ h. one_more l.log refl refl (ground (arith, l.same));
}

pub quiet-IsReported :
    (before : List Output) (max_limit n : ℕ) (s : State)
    → IsLogged before max_limit false n s
    → IsReported before max_limit false n s
quiet-IsReported before max_limit n s l = record {
  same = l.same;
  full = λ h. within l.log;
  space = λ h. l.log;
}

-- At the end: at most `limit` and one lines.
pub record Printed (before : List Output) (max_limit : ℕ) (verbose : Bool) (limit : ℕ) (s : State)
    : Type 0 where
  pub lines : ℕ
  pub few : lines ≤ shown verbose (limit + 1)
  pub output : IsOutput before max_limit lines s.printed

shown-le : (verbose : Bool) (n limit : ℕ) → n ≤ limit → shown verbose n ≤ shown verbose limit
shown-le true n limit h = h
shown-le false n limit h = omega arith

pub IsOutput-Printed :
    (before : List Output) (max_limit : ℕ) (verbose : Bool) (n limit : ℕ) (s : State)
    → n ≤ limit + 1
    → IsOutput before max_limit (shown verbose n) s.printed
    → Printed before max_limit verbose limit s
IsOutput-Printed before max_limit verbose n limit s h o = record {
  lines = shown verbose n;
  few = shown-le verbose n (limit + 1) h;
  output = o;
}
