-- ===== src/Files.antt =====
-- The pool of files of mem_gobbler.c: classes of files of one size, from which a free file is
-- taken. A file_path pointer is the number of the class and the index in its list.
pub mod Best
pub mod Mark
pub mod Used
pub mod Table
use memory_management_phase.Base.{
  ℕ, zero, suc, Option, none, some, List, [], ◌∷◌, true, leb, get_elem?, if◌then◌else◌,
}
use memory_management_phase.Base.Int.{ℤ, pos, is_zero_ℤ}
use memory_management_phase.Machine.State.{FileEntry, FileClass}

pub record NodeRef : Type 0 where
  pub class : ℕ
  pub index : ℕ

-- What get_file_path returns, leaves in *len, and makes of the list of classes.
pub record Found : Type 0 where
  pub node : Option NodeRef
  pub len : ℕ
  pub classes : List FileClass

abbrev pub next_index : Option ℕ → Option ℕ
next_index none = none
next_index (some j) = some (suc j)

unfoldable pub find_avail_node : List FileEntry → Option ℕ
find_avail_node [] = none
find_avail_node (e ∷ es) = if is_zero_ℤ e.alloc then some 0 else next_index (find_avail_node es)

abbrev pub next_class : FileClass → Found → Found
next_class c f = record f {
  node = elim f.node [ none ↦ none | some r ↦ some (record r { class = suc r.class }) ];
  classes = c ∷ f.classes;
}

-- One round of get_file_path at a class that is large enough, with what its list gives.
abbrev pub try_class : FileClass → List FileClass → Option ℕ → Found → Found
try_class c cs none rest = next_class (record c { filled = true }) rest
try_class c cs (some j) rest = record {
  node = some (record { class = 0; index = j });
  len = c.size;
  classes = c ∷ cs;
}

unfoldable pub get_file_path : List FileClass → ℕ → Found
get_file_path [] len = record { node = none; len = len; classes = [] }
get_file_path (c ∷ cs) len =
    let rest = get_file_path cs len in
    if leb len c.size then try_class c cs (find_avail_node c.paths) rest else next_class c rest

-- *node
abbrev pub entry_of : Option FileClass → ℕ → Option FileEntry
entry_of none j = none
entry_of (some c) j = get_elem? c.paths j

unfoldable pub entry_at : List FileClass → NodeRef → Option FileEntry
entry_at cs r = entry_of (get_elem? cs r.class) r.index

-- node->alloc = v
unfoldable pub set_alloc : ℤ → List FileEntry → ℕ → List FileEntry
set_alloc v [] j = []
set_alloc v (e ∷ es) zero = record e { alloc = v } ∷ es
set_alloc v (e ∷ es) (suc j) = e ∷ set_alloc v es j

unfoldable pub mark : ℤ → (class index : ℕ) → List FileClass → List FileClass
mark v i j [] = []
mark v zero j (c ∷ cs) = record c { paths = set_alloc v c.paths j } ∷ cs
mark v (suc i) j (c ∷ cs) = c ∷ mark v i j cs
