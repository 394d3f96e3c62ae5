-- ===== src/Valid.antt =====
-- The invariant of the running program, and how a step of the program may change its state.
use memory_management_phase.Base.{
  All, ℕ, zero, suc, ◌<◌, ◌≤◌, ◌^◌, ◌≡◌, ◌≢◌, refl, ap, ◌∙◌, ◌⊎◌, inl, inr, some, List, [], ◌∷◌,
  arith, leb, length, Bool-cases, Option-cases, get_elem?,
}
use memory_management_phase.Base.Int.{ℤ}
use memory_management_phase.Base.Word.{add64}
use memory_management_phase.Machine.State.{Memory, State, Allocation, FileClass, mem_max}
use memory_management_phase.Touch.Frame.{IsRegion, Kept, IsRegion-Kept}
use memory_management_phase.Pattern.Fix.Location.{IsFixed, IsFixed-mono}
use memory_management_phase.Track.Pages.{IsCounted}
use memory_management_phase.Files.Used.{UsedUp}
use memory_management_phase.Files.{get_file_path, find_avail_node, mark}

abbrev pub sizes : List FileClass → List ℕ
sizes [] = []
sizes (c ∷ cs) = c.size ∷ sizes cs

-- The allocation is not at NULL, holds at least a page, and is mapped.
pub record IsAllocation (m : Memory) (a : Allocation) : Type 0 where
  pub nonnull : 0 < a.addr
  pub a_page : 4096 ≤ a.len
  pub region : IsRegion m a.addr a.len

-- Every tracked allocation is mapped and holds at least a page; every location of the fix pattern
-- is mapped; the classes hold pages, and the speed is the number of one; the cap is off or at
-- least a page; the access type is one of the five; the pages that are counted in all are those that
-- are counted as file and as anonymous pages, and these are the pages of the tracked allocations.
pub record IsValid (s : State) : Type 0 where
  pub tracked :
      (p i : ℕ) → i < (s.alloc_track p).list_count → IsAllocation s.mem ((s.alloc_track p).lst i)
  pub fixed : IsFixed s.mem s.fix_head
  pub big : All (λ n. 4096 ≤ n) (sizes s.files)
  pub speed : s.config.speed < length (sizes s.files)
  pub short : length (sizes s.files) < 2 ^ 31
  pub cap : (s.config.max_alloc_per_phase_byte ≡ 0) ⊎ (4096 ≤ s.config.max_alloc_per_phase_byte)
  pub access : s.config.access_type ≢ mem_max
  pub total : s.stats.total_alloc_pages ≡ add64 s.stats.file_cnt s.stats.anon_cnt
  pub counted : IsCounted s.stats s.alloc_track

-- A step leaves the settings, the phase, the two flags and what main has printed alone, undoes no call of the host, and
-- frees no file.
pub record Steps (s t : State) : Type 0 where
  pub config : t.config ≡ s.config
  pub curr : t.curr ≡ s.curr
  pub alloc_track : t.alloc_track ≡ s.alloc_track
  pub in_transition : t.in_transition ≡ s.in_transition
  pub alloc_nomore : t.alloc_nomore ≡ s.alloc_nomore
  pub printed : t.printed ≡ s.printed
  pub used : UsedUp s.files → UsedUp t.files
  pub calls : s.calls ≤ t.calls

pub Steps-refl : (s : State) → Steps s s
Steps-refl s = record {
  config = refl;
  curr = refl;
  alloc_track = refl;
  in_transition = refl;
  alloc_nomore = refl;
  printed = refl;
  used = λ u. u;
  calls = omega arith;
}

pub Steps-trans : {s t u : State} → Steps s t → Steps t u → Steps s u
Steps-trans h k = record {
  config = k.config ∙ h.config;
  curr = k.curr ∙ h.curr;
  alloc_track = k.alloc_track ∙ h.alloc_track;
  in_transition = k.in_transition ∙ h.in_transition;
  alloc_nomore = k.alloc_nomore ∙ h.alloc_nomore;
  printed = k.printed ∙ h.printed;
  used = λ u. k.used (h.used u);
  calls = omega (arith, h.calls, k.calls);
}

-- What a step that allocates leaves.
pub record Moves (s t : State) : Type 0 where
  pub config : t.config ≡ s.config
  pub curr : t.curr ≡ s.curr
  pub in_transition : t.in_transition ≡ s.in_transition
  pub alloc_nomore : t.alloc_nomore ≡ s.alloc_nomore
  pub printed : t.printed ≡ s.printed
  pub used : UsedUp s.files → UsedUp t.files
  pub calls : s.calls ≤ t.calls

pub Moves-trans : {s t u : State} → Moves s t → Moves t u → Moves s u
Moves-trans h k = record {
  config = k.config ∙ h.config;
  curr = k.curr ∙ h.curr;
  in_transition = k.in_transition ∙ h.in_transition;
  alloc_nomore = k.alloc_nomore ∙ h.alloc_nomore;
  printed = k.printed ∙ h.printed;
  used = λ u. k.used (h.used u);
  calls = omega (arith, h.calls, k.calls);
}

pub Steps-Moves : {s t : State} → Steps s t → Moves s t
Steps-Moves h = record {
  config = h.config;
  curr = h.curr;
  in_transition = h.in_transition;
  alloc_nomore = h.alloc_nomore;
  printed = h.printed;
  used = h.used;
  calls = h.calls;
}

pub Steps-Kept : {s t : State} → Kept s t → Steps s t
Steps-Kept k = record {
  config = ap (λ (u : State). u.config) k.rest;
  curr = ap (λ (u : State). u.curr) k.rest;
  alloc_track = ap (λ (u : State). u.alloc_track) k.rest;
  in_transition = ap (λ (u : State). u.in_transition) k.rest;
  alloc_nomore = ap (λ (u : State). u.alloc_nomore) k.rest;
  printed = ap (λ (u : State). u.printed) k.rest;
  used = λ used. rw (ap (λ (u : State). u.files) k.rest) used;
  calls = k.calls;
}

IsAllocation-Kept :
    {s t : State} (a : Allocation) → Kept s t → IsAllocation s.mem a → IsAllocation t.mem a
IsAllocation-Kept a k h = record {
  nonnull = h.nonnull;
  a_page = h.a_page;
  region = IsRegion-Kept a.addr a.len k h.region;
}

-- Accesses keep the invariant, if they keep the locations of the fix pattern mapped.
pub IsValid-Kept : {s t : State} → Kept s t → IsFixed t.mem t.fix_head → IsValid s → IsValid t
IsValid-Kept {s} {t} k f v =
    let same = k.rest in
    let u : State = record s {
      mem = t.mem;
      calls = t.calls;
      fix_head = t.fix_head;
      notes = t.notes;
    } in
    let valid : IsValid u = record {
      tracked = λ p i h.
          IsAllocation-Kept {s = s} {t = u} ((s.alloc_track p).lst i)
            (record { mapping = k.mapping; rest = refl; calls = k.calls }) (v.tracked p i h);
      fixed = f;
      big = v.big;
      speed = v.speed;
      short = v.short;
      cap = v.cap;
      access = v.access;
      total = v.total;
      counted = v.counted;
    } in
    rw same valid

-- Where the list of fixed locations has not changed either.
pub IsFixed-Kept :
    {s t : State}
    → Kept s t
    → t.fix_head ≡ s.fix_head
    → IsFixed s.mem s.fix_head
    → IsFixed t.mem t.fix_head
IsFixed-Kept {s} {t} k e f = rw e (IsFixed-mono s.mem t.mem s.fix_head (λ p h. k.mapping p ∙ h) f)

pub sizes-get_file_path :
    (cs : List FileClass) (len : ℕ) → sizes (get_file_path cs len).classes ≡ sizes cs
unfolding get_file_path
sizes-get_file_path [] len = refl
sizes-get_file_path (c ∷ cs) len = elim (Bool-cases (leb len c.size)) [
  | inr small ↦ rw small (ap (λ t. c.size ∷ t) (sizes-get_file_path cs len))
  | inl large ↦ elim (Option-cases (find_avail_node c.paths)) [
    | inl full ↦ rw (large, full) (ap (λ t. c.size ∷ t) (sizes-get_file_path cs len))
    | inr (j, e) ↦ rw (large, e)
  ]
]

pub sizes-mark : (v : ℤ) (i j : ℕ) (cs : List FileClass) → sizes (mark v i j cs) ≡ sizes cs
unfolding mark
sizes-mark v i j [] = refl
sizes-mark v zero j (c ∷ cs) = refl
sizes-mark v (suc i) j (c ∷ cs) = ap (λ t. c.size ∷ t) (sizes-mark v i j cs)

-- A class whose number is in range has a size, which is at least a page.
pub class-size :
    (cs : List FileClass) (i : ℕ)
    → All (λ n. 4096 ≤ n) (sizes cs)
    → i < length (sizes cs)
    → (c : FileClass) × (get_elem? cs i ≡ some c) × (4096 ≤ c.size)
class-size [] i h k = absurd (omega arith)
class-size (c ∷ cs) zero h k = (c, refl, h.0)
class-size (c ∷ cs) (suc i) h k = class-size cs i h.1 (omega arith)

pub class_at-page :
    (cs : List FileClass) (i : ℕ) (c : FileClass)
    → All (λ n. 4096 ≤ n) (sizes cs)
    → get_elem? cs i ≡ some c
    → 4096 ≤ c.size
class_at-page [] i c h e = cc
class_at-page (d ∷ cs) zero c h e = ground (arith, h.0)
class_at-page (d ∷ cs) (suc i) c h e = class_at-page cs i c h.1 e
