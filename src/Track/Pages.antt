-- ===== src/Track/Pages.antt =====
-- The pages of the allocations in the tracker, of one type, over all phases.
use memory_management_phase.Base.{
  ℕ, zero, suc, ◌+◌, ◌/◌, ◌%◌, ◌^◌, ◌<◌, ◌≡◌, ◌≢◌, refl, ap, Bool, true, false, arith, ◌==◌,
  if◌then◌else◌, Bool-cases, inl, inr,
}
use memory_management_phase.Machine.State.{
  State, MemType, file, anon, type_max, Allocation, AllocList, Stats,
}
use memory_management_phase.Track.{empty_list}
use memory_management_phase.Track.Entries.{Added}

abbrev pub same_type : MemType → MemType → Bool
same_type file file = true
same_type anon anon = true
same_type type_max type_max = true
same_type _ _ = false

-- f 0 + … + f (n - 1)
unfoldable pub sum_below : ℕ → (ℕ → ℕ) → ℕ
sum_below zero f = 0
sum_below (suc n) f = sum_below n f + f n

unfoldable pub entry_pages : MemType → Allocation → ℕ
entry_pages type a = if same_type type a.type then a.len / 4096 else 0

unfoldable pub list_pages : MemType → AllocList → ℕ
list_pages type l = sum_below l.list_count (λ i. entry_pages type (l.lst i))

unfoldable pub tracked_pages : MemType → (ℕ → AllocList) → ℕ
tracked_pages type track = sum_below 60000 (λ p. list_pages type (track p))

-- The two counters of pages are those of the tracked allocations, as words.
pub record IsCounted (stats : Stats) (track : ℕ → AllocList) : Type 0 where
  pub files : stats.file_cnt ≡ tracked_pages file track % 2 ^ 64
  pub anons : stats.anon_cnt ≡ tracked_pages anon track % 2 ^ 64

sum_below-ext :
    (n : ℕ) (f g : ℕ → ℕ) → ((i : ℕ) → i < n → f i ≡ g i) → sum_below n f ≡ sum_below n g
unfolding sum_below
sum_below-ext zero f g h = refl
sum_below-ext (suc n) f g h =
    omega (arith, h n (omega arith), sum_below-ext n f g (λ i lt. h i (omega arith)))

-- Two functions that differ at one index.
sum_below-one :
    (n p d : ℕ) (f g : ℕ → ℕ)
    → p < n
    → ((i : ℕ) → i ≢ p → g i ≡ f i)
    → g p ≡ f p + d
    → sum_below n g ≡ sum_below n f + d
unfolding sum_below
sum_below-one zero p d f g h same more = absurd (omega arith)
sum_below-one (suc n) p d f g h same more = elim (Bool-cases (p == n)) [
  | inl last ↦
      let e : p ≡ n = ground arith in
      let before = sum_below-ext n g f (λ i lt. same i (omega arith)) in
      omega (arith, before, rw e at more)
  | inr earlier ↦
      let lt : p < n = ground arith in
      let here = same n (ground arith) in omega (arith, sum_below-one n p d f g lt same more, here)
]

sum_below-zero : (n : ℕ) (f : ℕ → ℕ) → ((i : ℕ) → f i ≡ 0) → sum_below n f ≡ 0
unfolding sum_below
sum_below-zero zero f h = refl
sum_below-zero (suc n) f h = omega (arith, h n, sum_below-zero n f h)

empty_list-pages : (type : MemType) → list_pages type empty_list ≡ 0
unfolding list_pages sum_below
empty_list-pages type = refl

-- An empty tracker has no pages.
pub tracked_pages-empty : (type : MemType) → tracked_pages type (λ _. empty_list) ≡ 0
unfolding tracked_pages
tracked_pages-empty type =
    sum_below-zero 60000 (λ _. list_pages type empty_list) (λ _. empty_list-pages type)

list_pages-Added :
    (type : MemType) (p : ℕ) (a : Allocation) (s t : State)
    → Added p a s t
    → list_pages type (t.alloc_track p) ≡ list_pages type (s.alloc_track p) + entry_pages type a
unfolding list_pages sum_below
list_pages-Added type p a s t d =
    let n = (s.alloc_track p).list_count in
    let old =
      sum_below-ext n (λ i. entry_pages type ((t.alloc_track p).lst i))
        (λ i. entry_pages type ((s.alloc_track p).lst i))
        (λ i lt. ap (entry_pages type) (d.others i lt)) in
    let last = ap (entry_pages type) d.last in
    let more : (t.alloc_track p).list_count ≡ suc n = omega (arith, d.count) in
    rw more (omega (arith, old, last))

pub tracked_pages-Added :
    (type : MemType) (p : ℕ) (a : Allocation) (s t : State)
    → p < 60000
    → Added p a s t
    → tracked_pages type t.alloc_track ≡ tracked_pages type s.alloc_track + entry_pages type a
unfolding tracked_pages
tracked_pages-Added type p a s t h d =
    sum_below-one 60000 p (entry_pages type a) (λ q. list_pages type (s.alloc_track q))
      (λ q. list_pages type (t.alloc_track q)) h
      (λ q other. ap (list_pages type) (d.phases q other)) (list_pages-Added type p a s t d)

-- The pages of all allocations of files and of anonymous memory.
unfoldable pub all_pages : (ℕ → AllocList) → ℕ
all_pages track = tracked_pages file track + tracked_pages anon track

pub all_pages-Added :
    (type : MemType) (addr len p : ℕ) (s t : State)
    → type ≢ type_max
    → p < 60000
    → Added p (record { addr = addr; len = len; type = type }) s t
    → all_pages t.alloc_track ≡ all_pages s.alloc_track + len / 4096
unfolding all_pages entry_pages
all_pages-Added file addr len p s t h room d =
    omega (arith, tracked_pages-Added file p _ s t room d, tracked_pages-Added anon p _ s t room d)
all_pages-Added anon addr len p s t h room d =
    omega (arith, tracked_pages-Added file p _ s t room d, tracked_pages-Added anon p _ s t room d)
all_pages-Added type_max addr len p s t h room d = absurd (h refl)
