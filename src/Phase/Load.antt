-- ===== src/Phase/Load.antt =====
-- The pages that the phases have been loaded with.
use memory_management_phase.Base.{
  ℕ, ◌+◌, ◌*◌, ◌≤◌, ◌≡◌, refl, subst, Bool, true, false, List, arith, ◌⊎◌, inl, inr, if◌then◌else◌,
}
use memory_management_phase.Machine.State.{AllocList, Config, FileClass, State}
use memory_management_phase.Track.Pages.{all_pages}
use memory_management_phase.Files.Used.{UsedUp}
use memory_management_phase.Phase.Spent.{Spent, Spent-same}

-- The count of a transition, the one that was asked for or from 5 to 18, has been spent in phase q.
pub record Gobbles (q : ℕ) (s t : State) : Type 0 where
  pub cnt : ℕ
  pub exact : s.config.alloc_precision ≡ true → cnt ≡ s.config.max_alloc_per_phase
  pub drawn : s.config.alloc_precision ≡ false → (5 ≤ cnt) × (cnt ≤ 18)
  pub spent : Spent s.config.alloc_precision q cnt s t
  pub used : UsedUp s.files → UsedUp t.files

-- Steps that leave the settings and the tracker alone, and free no file.
pub Gobbles-same :
    (q : ℕ) (s s' t t' : State)
    → s'.config ≡ s.config
    → s'.alloc_track ≡ s.alloc_track
    → (UsedUp s.files → UsedUp s'.files)
    → t'.alloc_track ≡ t.alloc_track
    → (UsedUp t.files → UsedUp t'.files)
    → Gobbles q s' t
    → Gobbles q s t'
Gobbles-same q s s' t t' config track before same behind g = record {
  cnt = g.cnt;
  exact = rw config at g.exact;
  drawn = rw config at g.drawn;
  spent =
      Spent-same s.config.alloc_precision q g.cnt s s' t t' track same behind
        (subst (λ (c : Config). Spent c.alloc_precision q g.cnt s' t) config g.spent);
  used = λ u. behind (g.used (before u));
}

-- The count that a transition has at least.
unfoldable pub least : Config → ℕ
least c = if c.alloc_precision then c.max_alloc_per_phase else 5

least-le :
    (precise : Bool) (n cnt : ℕ)
    → (precise ≡ true → cnt ≡ n)
    → (precise ≡ false → (5 ≤ cnt) × (cnt ≤ 18))
    → (if precise then n else 5) ≤ cnt
least-le true n cnt h k = omega (arith, h refl)
least-le false n cnt h k = (k refl).0

Gobbles-least : (q : ℕ) (s t : State) (g : Gobbles q s t) → least s.config ≤ g.cnt
unfolding least
Gobbles-least q s t g =
    least-le s.config.alloc_precision s.config.max_alloc_per_phase g.cnt g.exact g.drawn

-- The tracker has at least m pages for each of n phases, unless a class of files is used up.
abbrev pub Load : (m n : ℕ) → (ℕ → AllocList) → List FileClass → Type 0
Load m n track files = (m * n ≤ all_pages track) ⊎ UsedUp files

pub Load-Gobbles :
    (m n q : ℕ) (s t : State)
    → m ≤ least s.config
    → Load m n s.alloc_track s.files
    → Gobbles q s t
    → Load m (n + 1) t.alloc_track t.files
Load-Gobbles m n q s t le (inr used_up) g = inr (g.used used_up)
Load-Gobbles m n q s t le (inl pages) g = elim g.spent.whole [
  | inr used_up ↦ inr used_up
  | inl (more, _) ↦ inl (omega (arith, pages, more, Gobbles-least q s t g, le))
]
