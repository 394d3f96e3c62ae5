-- ===== src/Main/Running.antt =====
-- What holds of the state in every round of the loop of main, and what keeps it.
use memory_management_phase.Base.{
  All, [], ◌∷◌, ℕ, suc, ◌+◌, ◌^◌, ◌<◌, ◌≤◌, ◌≡◌, ◌∙◌, Bool, false, some, String, arith, length,
  if◌then◌else◌, inl, inr, List,
}
use memory_management_phase.Base.Int.{ℤ, pos, ◌+ℤ◌}
use memory_management_phase.Machine.State.{State, Config, Output}
use memory_management_phase.Vector.{Tokens, locality, of_tokens, phase_delimiter, ipfvt_delimiter}
use memory_management_phase.Options.{reset_max_alloc_per_phase}
use memory_management_phase.Options.Sane.{IsSane, reset_max_alloc_per_phase-IsSane}
use memory_management_phase.Track.{phase_index}
use memory_management_phase.Phase.Job.{Worked}
use memory_management_phase.Phase.Load.{least, Load, Load-Gobbles}
use memory_management_phase.Valid.{IsValid, sizes}

-- A line has its two fields.
pub record IsLine (lib : Tokens) (is_ipfvt : Bool) (line : String) : Type 0 where
  pub alloc_cnt : ℕ
  pub wcet : ℤ
  pub fields :
      of_tokens lib is_ipfvt
        (lib.strtok line (if is_ipfvt then ipfvt_delimiter else phase_delimiter))
      ≡ locality alloc_cnt wcet

-- Besides, its count and its execution time are allowed.
pub record IsTimed (Allowed : ℕ → ℤ → Type 0) (lib : Tokens) (is_ipfvt : Bool) (line : String)
    : Type 0 where
  pub line_ok : IsLine lib is_ipfvt line
  pub allowed : Allowed line_ok.alloc_cnt line_ok.wcet

-- Every execution time.
abbrev pub Any : ℤ → Type 0
Any exec_time = Unit {0}

-- A count of at least m, with an execution time that is allowed.
abbrev pub Asks : ℕ → (ℤ → Type 0) → ℕ → ℤ → Type 0
Asks m Allowed alloc_cnt exec_time = (m ≤ alloc_cnt) × Allowed exec_time

pub All-IsTimed :
    (Allowed : ℕ → ℤ → Type 0) (lib : Tokens) (is_ipfvt : Bool) (lines : List String)
    → ((n : ℕ) (e : ℤ) → Allowed n e)
    → All (IsLine lib is_ipfvt) lines
    → All (IsTimed Allowed lib is_ipfvt) lines
All-IsTimed Allowed lib is_ipfvt [] every ls = tt
All-IsTimed Allowed lib is_ipfvt (line ∷ lines) every (l, ls) = (
  record { line_ok = l; allowed = every l.alloc_cnt l.wcet },
  All-IsTimed Allowed lib is_ipfvt lines every ls,
)

pub mono_IsTimed :
    {P Q : ℕ → ℤ → Type 0} (lib : Tokens) (is_ipfvt : Bool) (lines : List String)
    → ((n : ℕ) (e : ℤ) → P n e → Q n e)
    → All (IsTimed P lib is_ipfvt) lines
    → All (IsTimed Q lib is_ipfvt) lines
mono_IsTimed lib is_ipfvt [] weaken ls = tt
mono_IsTimed lib is_ipfvt (line ∷ lines) weaken (l, ls) = (
  record { line_ok = l.line_ok; allowed = weaken l.line_ok.alloc_cnt l.line_ok.wcet l.allowed },
  mono_IsTimed lib is_ipfvt lines weaken ls,
)

-- With `left` more jobs to come, `limit` jobs from the first on are enough, and the table has as
-- many phases; every phase so far has been loaded with m pages, and the next one asks for as many.
pub record IsRunning (m limit : ℕ) (k : Config) (left : ℕ) (s : State) : Type 0 where
  pub valid : IsValid s
  pub word : s.config.max_alloc_per_phase < 2 ^ 64
  pub nomore : s.alloc_nomore ≡ false
  pub ipfvt : s.config.ipfvt ≡ k.ipfvt
  pub time_g : s.config.time_g ≡ k.time_g
  pub next : ℕ
  pub phase : s.curr +ℤ pos 1 ≡ pos next
  pub room : next + left ≤ limit
  pub table : limit ≤ 60000
  pub enough : m ≤ least s.config
  pub load : Load m next s.alloc_track s.files

-- At the end: the state is valid, and its phase is at most the one of job `limit`.
pub record Ran (limit : ℕ) (s : State) : Type 0 where
  pub valid : IsValid s
  pub next : ℕ
  pub phase : s.curr +ℤ pos 1 ≡ pos next
  pub within : next ≤ limit

pub IsRunning-Ran :
    (m limit : ℕ) (k : Config) (left : ℕ) (s : State) → IsRunning m limit k left s → Ran limit s
IsRunning-Ran m limit k left s r = record {
  valid = r.valid;
  next = r.next;
  phase = r.phase;
  within = omega (arith, r.room);
}

-- The phases that have begun, each loaded with m pages.
pub record Gobbled (m : ℕ) (s : State) : Type 0 where
  pub next : ℕ
  pub phase : s.curr +ℤ pos 1 ≡ pos next
  pub load : Load m next s.alloc_track s.files

pub IsRunning-Gobbled :
    (m limit : ℕ) (k : Config) (left : ℕ) (s : State) → IsRunning m limit k left s → Gobbled m s
IsRunning-Gobbled m limit k left s r = record { next = r.next; phase = r.phase; load = r.load }

unfoldable pub set_line : ℕ → State → State
set_line alloc_cnt s = record s { config = reset_max_alloc_per_phase alloc_cnt s.config }

pub set_line-IsValid : (alloc_cnt : ℕ) (s : State) → IsValid s → IsValid (set_line alloc_cnt s)
unfolding set_line reset_max_alloc_per_phase
set_line-IsValid alloc_cnt s v =
    let sane : IsSane (length (sizes s.files)) s.config = record {
      speed = v.speed;
      cap = v.cap;
      access = v.access;
    } in
    let sane' = reset_max_alloc_per_phase-IsSane (length (sizes s.files)) alloc_cnt s.config sane in
    record {
      tracked = v.tracked;
      fixed = v.fixed;
      big = v.big;
      speed = sane'.speed;
      short = v.short;
      cap = sane'.cap;
      access = sane'.access;
      total = v.total;
      counted = v.counted;
    }

pub set_line-IsRunning :
    (m limit : ℕ) (k : Config) (left alloc_cnt : ℕ) (s : State)
    → alloc_cnt < 2 ^ 64
    → m ≤ alloc_cnt
    → IsRunning m limit k left s
    → IsRunning m limit k left (set_line alloc_cnt s)
unfolding set_line reset_max_alloc_per_phase least
set_line-IsRunning m limit k left alloc_cnt s word asks r = record {
  valid = set_line-IsValid alloc_cnt s r.valid;
  word = word;
  nomore = r.nomore;
  ipfvt = r.ipfvt;
  time_g = r.time_g;
  next = r.next;
  phase = r.phase;
  room = r.room;
  table = r.table;
  enough = asks;
  load = r.load;
}

unfoldable pub clocked : State → ℕ → Bool → State
clocked s n flag = record s { calls = n; alloc_nomore = flag }

pub clocked-IsValid : (s : State) (n : ℕ) (flag : Bool) → IsValid s → IsValid (clocked s n flag)
unfolding clocked
clocked-IsValid s n flag v = record {
  tracked = v.tracked;
  fixed = v.fixed;
  big = v.big;
  speed = v.speed;
  short = v.short;
  cap = v.cap;
  access = v.access;
  total = v.total;
  counted = v.counted;
}

pub printed-IsValid :
    (rs : List Output) (s : State) → IsValid s → IsValid (record s { printed = rs })
printed-IsValid rs s v = record {
  tracked = v.tracked;
  fixed = v.fixed;
  big = v.big;
  speed = v.speed;
  short = v.short;
  cap = v.cap;
  access = v.access;
  total = v.total;
  counted = v.counted;
}

pub clocked-IsRunning :
    (m limit : ℕ) (k : Config) (left n : ℕ) (s : State)
    → IsRunning m limit k left s
    → IsRunning m limit k left (clocked s n s.alloc_nomore)
unfolding clocked
clocked-IsRunning m limit k left n s r = record {
  valid = clocked-IsValid s n s.alloc_nomore r.valid;
  word = r.word;
  nomore = r.nomore;
  ipfvt = r.ipfvt;
  time_g = r.time_g;
  next = r.next;
  phase = r.phase;
  room = r.room;
  table = r.table;
  enough = r.enough;
  load = r.load;
}

pub printed-IsRunning :
    (m limit : ℕ) (k : Config) (left : ℕ) (rs : List Output) (s : State)
    → IsRunning m limit k left s
    → IsRunning m limit k left (record s { printed = rs })
printed-IsRunning m limit k left rs s r = record {
  valid = printed-IsValid rs s r.valid;
  word = r.word;
  nomore = r.nomore;
  ipfvt = r.ipfvt;
  time_g = r.time_g;
  next = r.next;
  phase = r.phase;
  room = r.room;
  table = r.table;
  enough = r.enough;
  load = r.load;
}

pub clocked-Ran :
    (limit : ℕ) (n : ℕ) (flag : Bool) (s : State) → Ran limit s → Ran limit (clocked s n flag)
unfolding clocked
clocked-Ran limit n flag s r = record {
  valid = clocked-IsValid s n flag r.valid;
  next = r.next;
  phase = r.phase;
  within = r.within;
}

pub clocked-Gobbled :
    (m : ℕ) (s : State) (n : ℕ) (flag : Bool) → Gobbled m s → Gobbled m (clocked s n flag)
unfolding clocked
clocked-Gobbled m s n flag g = record { next = g.next; phase = g.phase; load = g.load }

pub following : (n : ℕ) → pos n +ℤ pos 1 ≡ pos (n + 1)
unfolding ◌+ℤ◌
following n = ground arith

pub phase_index-pos : (n : ℕ) → n < 60000 → phase_index (pos n) ≡ some n
phase_index-pos n h = ground arith

pub Worked-IsRunning :
    (m limit : ℕ) (k : Config) (left q : ℕ) (late : Bool) (s u : State)
    → IsRunning m limit k (suc left) s
    → Worked q late s u
    → IsRunning m limit k left u
Worked-IsRunning m limit k left q late s u r w = elim w.phase [
  | inl (_, same, track, files) ↦ record {
    valid = w.valid;
    word = rw w.config r.word;
    nomore = w.nomore ∙ r.nomore;
    ipfvt = rw w.config r.ipfvt;
    time_g = rw w.config r.time_g;
    next = r.next;
    phase = rw same r.phase;
    room = omega (arith, r.room);
    table = r.table;
    enough = rw w.config r.enough;
    load = rw (track, files) r.load;
  }
  | inr (_, on, gobbles) ↦ record {
    valid = w.valid;
    word = rw w.config r.word;
    nomore = w.nomore ∙ r.nomore;
    ipfvt = rw w.config r.ipfvt;
    time_g = rw w.config r.time_g;
    next = r.next + 1;
    phase = rw (on, r.phase) (following r.next);
    room = omega (arith, r.room);
    table = r.table;
    enough = rw w.config r.enough;
    load = Load-Gobbles m r.next q s u r.enough r.load gobbles;
  }
]
