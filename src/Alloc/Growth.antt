-- ===== src/Alloc/Growth.antt =====
-- What mapping memory and counting its pages leave of the invariant.
use memory_management_phase.Base.{
  ◌/◌, ◌<◌, ℕ, ◌^◌, ◌<◌, ◌≡◌, ◌≢◌, refl, ap, Bool, true, false, List, Option, none, some, arith,
  ◌==◌, Bool-cases, inl, inr,
}
use memory_management_phase.Base.Int.{ℤ, pos}
use memory_management_phase.Base.Word.{add64, sub64}
use memory_management_phase.Machine.State.{
  Memory, State, MemType, file, anon, type_max, Allocation, FileClass, Stats,
}
use memory_management_phase.Pattern.Fix.Location.{IsFixed-mono}
use memory_management_phase.Touch.Frame.{is_mapped}
use memory_management_phase.Files.{NodeRef}
use memory_management_phase.Files.Used.{UsedUp, UsedUp-mark}
use memory_management_phase.Track.Entries.{Added}
use memory_management_phase.Alloc.{add_pages, mark_node, left_of}
use memory_management_phase.Alloc.Mapping.{Grows}
use memory_management_phase.Track.Pages.{IsCounted, entry_pages, tracked_pages-Added}
use memory_management_phase.Valid.{IsValid, IsAllocation, Steps, sizes, sizes-mark}

pub IsAllocation-grown :
    (m m' : Memory) (a : Allocation)
    → ((p : ℕ) → is_mapped (m p) ≡ true → is_mapped (m' p) ≡ true)
    → IsAllocation m a
    → IsAllocation m' a
IsAllocation-grown m m' a g h = record {
  nonnull = h.nonnull;
  a_page = h.a_page;
  region = record { fits = h.region.fits; mapped = λ p i j. g p (h.region.mapped p i j) };
}

pub IsValid-Grows : {s t : State} → Grows s t → IsValid s → IsValid t
IsValid-Grows {s} {t} g v =
    let u : State = record s { mem = t.mem; calls = t.calls; files = t.files } in
    let valid : IsValid u = record {
      tracked = λ p i h. IsAllocation-grown s.mem t.mem _ g.grown (v.tracked p i h);
      fixed = IsFixed-mono s.mem t.mem s.fix_head g.grown v.fixed;
      big = rw g.sizes_eq v.big;
      speed = rw g.sizes_eq v.speed;
      short = rw g.sizes_eq v.short;
      cap = v.cap;
      access = v.access;
      total = v.total;
      counted = v.counted;
    } in
    rw g.rest valid

pub Steps-Grows : {s t : State} → Grows s t → Steps s t
Steps-Grows g = record {
  config = ap (λ (u : State). u.config) g.rest;
  curr = ap (λ (u : State). u.curr) g.rest;
  alloc_track = ap (λ (u : State). u.alloc_track) g.rest;
  in_transition = ap (λ (u : State). u.in_transition) g.rest;
  alloc_nomore = ap (λ (u : State). u.alloc_nomore) g.rest;
  printed = ap (λ (u : State). u.printed) g.rest;
  used = g.used;
  calls = g.calls;
}

pub Added-tracked :
    (p : ℕ) (a : Allocation) (s t : State)
    → Added p a s t
    → ((q i : ℕ) → i < (s.alloc_track q).list_count → IsAllocation s.mem ((s.alloc_track q).lst i))
    → IsAllocation s.mem a
    → (q i : ℕ) → i < (t.alloc_track q).list_count
    → IsAllocation s.mem ((t.alloc_track q).lst i)
Added-tracked p a s t d old new q i h = elim (Bool-cases (q == p)) [
  | inr other ↦ let e = d.phases q (ground arith) in rw e (old q i (rw e at h))
  | inl same ↦
      let e : q ≡ p = ground arith in
      let h' : i < (t.alloc_track p).list_count = rw e at h in
      rw e (elim (Bool-cases (i == (s.alloc_track p).list_count)) [
        | inl last ↦ let f : i ≡ (s.alloc_track p).list_count = ground arith in rw (f, d.last) new
        | inr before ↦
            let lt : i < (s.alloc_track p).list_count = ground (arith, d.count) in
            rw (d.others i lt) (old p i lt)
      ])
]

pub sizes-mark_node :
    (o : Option NodeRef) (v : ℤ) (cs : List FileClass) → sizes (mark_node o v cs) ≡ sizes cs
sizes-mark_node none v cs = refl
sizes-mark_node (some r) v cs = sizes-mark v r.class r.index cs

pub UsedUp-mark_node :
    (o : Option NodeRef) (cs : List FileClass) → UsedUp cs → UsedUp (mark_node o (pos 1) cs)
UsedUp-mark_node none cs u = u
UsedUp-mark_node (some r) cs u = UsedUp-mark r.class r.index cs u

pub add_pages-total :
    (type : MemType) (n : ℕ) (st : Stats)
    → type ≢ type_max
    → st.total_alloc_pages ≡ add64 st.file_cnt st.anon_cnt
    → (add_pages type n st).total_alloc_pages
      ≡ add64 (add_pages type n st).file_cnt (add_pages type n st).anon_cnt
unfolding add64
add_pages-total file n st h e = omega arith
add_pages-total anon n st h e = omega arith
add_pages-total type_max n st h e = absurd (h refl)

pub left_of-lt :
    (precise : Bool) (page_cnt cnt : ℕ)
    → 0 < cnt
    → cnt < 2 ^ 64
    → 0 < page_cnt
    → left_of precise page_cnt cnt < cnt
unfolding left_of sub64
left_of-lt true page_cnt cnt h k l = ground arith
left_of-lt false page_cnt cnt h k l = omega arith

-- The counters of pages behind a new allocation.
pub IsCounted-Added :
    (type : MemType) (addr len p : ℕ) (s t : State)
    → p < 60000
    → Added p (record { addr = addr; len = len; type = type }) s t
    → IsCounted s.stats s.alloc_track
    → IsCounted (add_pages type (len / 4096) s.stats) t.alloc_track
unfolding entry_pages add64
IsCounted-Added file addr len p s t h d c =
    let a : Allocation = record { addr = addr; len = len; type = file } in
    record {
      files = omega (arith, c.files, tracked_pages-Added file p a s t h d);
      anons = omega (arith, c.anons, tracked_pages-Added anon p a s t h d);
    }
IsCounted-Added anon addr len p s t h d c =
    let a : Allocation = record { addr = addr; len = len; type = anon } in
    record {
      files = omega (arith, c.files, tracked_pages-Added file p a s t h d);
      anons = omega (arith, c.anons, tracked_pages-Added anon p a s t h d);
    }
IsCounted-Added type_max addr len p s t h d c =
    let a : Allocation = record { addr = addr; len = len; type = type_max } in
    record {
      files = omega (arith, c.files, tracked_pages-Added file p a s t h d);
      anons = omega (arith, c.anons, tracked_pages-Added anon p a s t h d);
    }
