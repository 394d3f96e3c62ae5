-- ===== src/Phase/Spent.antt =====
-- How the loop of trans_rand_alloc spends its count: on pages, if the count is precise, and on
-- allocations if not.
use memory_management_phase.Base.{
  ℕ, ◌+◌, ◌^◌, ◌<◌, ◌≤◌, ◌≡◌, ap, Bool, true, false, arith, ◌⊎◌, inl, inr,
}
use memory_management_phase.Base.Word.{sub64}
use memory_management_phase.Machine.State.{AllocList, State, MemType}
use memory_management_phase.Track.Pages.{all_pages}
use memory_management_phase.Files.Used.{UsedUp}
use memory_management_phase.Alloc.{left_of}
use memory_management_phase.Alloc.Outcome.{Failed, Allocated}

-- The whole count has become allocations: it is at most their pages, and their number if it is not
-- precise.
abbrev pub Whole : Bool → (p cnt : ℕ) → State → State → Type 0
Whole precise p cnt s t =
    (all_pages s.alloc_track + cnt ≤ all_pages t.alloc_track)
    × (precise ≡ false → (t.alloc_track p).list_count ≡ (s.alloc_track p).list_count + cnt)

-- The count cnt has been spent in phase p: there are at most as many allocations more, and the whole
-- count has become allocations, unless a class of files is used up.
pub record Spent (precise : Bool) (p cnt : ℕ) (s t : State) : Type 0 where
  pub grown : all_pages s.alloc_track ≤ all_pages t.alloc_track
  pub few : (t.alloc_track p).list_count ≤ (s.alloc_track p).list_count + cnt
  pub whole : Whole precise p cnt s t ⊎ UsedUp t.files

pub Spent-nothing : (precise : Bool) (p cnt : ℕ) (s : State) → cnt ≡ 0 → Spent precise p cnt s s
Spent-nothing precise p cnt s e = record {
  grown = omega arith;
  few = omega (arith, e);
  whole = inl (omega (arith, e), λ _. omega (arith, e));
}

-- Steps that leave the tracker alone, and free no file.
pub Spent-same :
    (precise : Bool) (p cnt : ℕ) (s s' t t' : State)
    → s'.alloc_track ≡ s.alloc_track
    → t'.alloc_track ≡ t.alloc_track
    → (UsedUp t.files → UsedUp t'.files)
    → Spent precise p cnt s' t
    → Spent precise p cnt s t'
Spent-same precise p cnt s s' t t' e f used x =
    let a = ap all_pages e in
    let b = ap all_pages f in
    let c = ap (λ (l : ℕ → AllocList). (l p).list_count) e in
    let d = ap (λ (l : ℕ → AllocList). (l p).list_count) f in
    record {
      grown = omega (arith, a, b, x.grown);
      few = omega (arith, c, d, x.few);
      whole = elim x.whole [
        | inl (pages, count) ↦ inl (omega (arith, a, b, pages), λ h. omega (arith, c, d, count h))
        | inr used_up ↦ inr (used used_up)
      ];
    }

-- A call of alloc that gives no address, and what is spent behind it.
pub Spent-Failed :
    (precise : Bool) (p n cnt : ℕ) (s t u : State) (r : MemType × ℕ)
    → n ≤ cnt
    → Failed cnt s r t
    → (UsedUp t.files → UsedUp u.files)
    → Spent precise p n t u
    → Spent precise p cnt s u
Spent-Failed precise p n cnt s t u r le f used x =
    let a = ap all_pages f.same in
    let c = ap (λ (l : ℕ → AllocList). (l p).list_count) f.same in
    record {
      grown = omega (arith, a, x.grown);
      few = omega (arith, c, x.few, le);
      whole = inr (used f.used_up);
    }

-- What a count loses by an allocation is at most its pages; if it is not precise, it loses 1.
left_of-pages :
    (precise : Bool) (n cnt : ℕ) → 0 < cnt → cnt < 2 ^ 64 → 0 < n → cnt ≤ left_of precise n cnt + n
unfolding left_of sub64
left_of-pages true n cnt h k some_ = ground arith
left_of-pages false n cnt h k some_ = ground arith

left_of-one : (n cnt : ℕ) → 0 < cnt → cnt < 2 ^ 64 → cnt ≡ left_of false n cnt + 1
unfolding left_of sub64
left_of-one n cnt h k = ground arith

-- An allocation, and what is spent behind it.
pub Spent-more :
    (precise : Bool) (p cnt : ℕ) (s t u : State) (r : MemType × ℕ)
    → 0 < cnt
    → cnt < 2 ^ 64
    → s.config.alloc_precision ≡ precise
    → Allocated p cnt s r t
    → Spent precise p r.1 t u
    → Spent precise p cnt s u
Spent-more precise p cnt s t u r h k e a x =
    let all = left_of-pages s.config.alloc_precision a.pages cnt h k a.a_page in
    record {
      grown = omega (arith, a.grown, x.grown);
      few = omega (arith, a.more, a.less, x.few);
      whole = elim x.whole [
        | inl (pages, count) ↦ inl (
          omega (arith, a.grown, pages, a.left, all),
          λ drawn.
              let left : r.1 ≡ left_of false a.pages cnt = rw (e, drawn) at a.left in
              omega (arith, a.more, count drawn, left, left_of-one a.pages cnt h k),
        )
        | inr used_up ↦ inr used_up
      ];
    }
