-- ===== src/Alloc/Outcome.antt =====
-- What one call of random_allocator_one leaves of the count that it is to spend.
use memory_management_phase.Base.{ℕ, ◌+◌, ◌<◌, ◌≡◌, ◌≢◌, ◌∙◌, ap, ◌⊎◌, inl, inr}
use memory_management_phase.Machine.State.{AllocList, Config, State, MemType, type_max}
use memory_management_phase.Track.Pages.{all_pages}
use memory_management_phase.Alloc.{left_of}
use memory_management_phase.Files.Used.{UsedUp}
use memory_management_phase.Valid.{IsValid, Steps, Moves, Moves-trans, Steps-Moves}

-- Nothing was allocated: a class of files is used up, and *cnt and the tracker are as they were.
pub record Failed (cnt : ℕ) (s : State) (r : MemType × ℕ) (t : State) : Type 0 where
  pub none_ : r.0 ≡ type_max
  pub left : r.1 ≡ cnt
  pub same : t.alloc_track ≡ s.alloc_track
  pub used_up : UsedUp t.files

-- The phase has one allocation more, and *cnt is smaller, by its pages if the count is precise.
pub record Allocated (p cnt : ℕ) (s : State) (r : MemType × ℕ) (t : State) : Type 0 where
  pub some_ : r.0 ≢ type_max
  pub less : r.1 < cnt
  pub more : (t.alloc_track p).list_count ≡ (s.alloc_track p).list_count + 1
  pub pages : ℕ
  pub a_page : 0 < pages
  pub grown : all_pages t.alloc_track ≡ all_pages s.alloc_track + pages
  pub left : r.1 ≡ left_of s.config.alloc_precision pages cnt

-- The outcome of random_allocator_one in phase p.
abbrev pub Outcome : (p cnt : ℕ) → State → MemType × ℕ → State → Type 0
Outcome p cnt s r t = IsValid t × Moves s t × (Failed cnt s r t ⊎ Allocated p cnt s r t)

-- Behind a step that allocates nothing.
pub Outcome-trans :
    (p cnt : ℕ) (s t u : State) (r : MemType × ℕ)
    → Steps s t
    → Outcome p cnt t r u
    → Outcome p cnt s r u
Outcome-trans p cnt s t u r st (v, st', inl f) = (
  v,
  Moves-trans (Steps-Moves st) st',
  inl (record {
    none_ = f.none_;
    left = f.left;
    same = f.same ∙ st.alloc_track;
    used_up = f.used_up;
  }),
)
Outcome-trans p cnt s t u r st (v, st', inr a) = (
  v,
  Moves-trans (Steps-Moves st) st',
  inr (record {
    some_ = a.some_;
    less = a.less;
    more = a.more ∙ ap (λ (f : ℕ → AllocList). (f p).list_count + 1) st.alloc_track;
    pages = a.pages;
    a_page = a.a_page;
    grown = a.grown ∙ ap (λ (f : ℕ → AllocList). all_pages f + a.pages) st.alloc_track;
    left = a.left ∙ ap (λ (c : Config). left_of c.alloc_precision a.pages cnt) st.config;
  }),
)
