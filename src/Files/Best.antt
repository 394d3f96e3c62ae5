-- ===== src/Files/Best.antt =====
-- Which file get_file_path takes.
use memory_management_phase.Base.{
  ℕ, zero, suc, ◌<◌, ◌≤◌, ◌≡◌, refl, subst, inl, inr, true, false, Option, none, some, List, [],
  ◌∷◌, arith, leb, get_elem?, Bool-cases, Option-cases,
}
use memory_management_phase.Base.Int.{is_zero_ℤ}
use memory_management_phase.Machine.State.{FileEntry, FileClass}
use memory_management_phase.Files.{NodeRef, Found, find_avail_node, next_class, get_file_path}

-- No file of the list is free.
abbrev pub AllTaken : List FileEntry → Type 0
AllTaken es = (k : ℕ) (e : FileEntry) → get_elem? es k ≡ some e → is_zero_ℤ e.alloc ≡ false

-- Index j is the first of a free file.
pub record IsFirstFree (es : List FileEntry) (j : ℕ) : Type 0 where
  pub entry : FileEntry
  pub at_index : get_elem? es j ≡ some entry
  pub free : is_zero_ℤ entry.alloc ≡ true
  pub before : (k : ℕ) (e : FileEntry) → k < j → get_elem? es k ≡ some e → is_zero_ℤ e.alloc ≡ false

pub find_avail_node-AllTaken : (es : List FileEntry) → find_avail_node es ≡ none → AllTaken es
unfolding find_avail_node
find_avail_node-AllTaken [] h k e at = cc
find_avail_node-AllTaken (d ∷ es) h zero e at = ground arith
find_avail_node-AllTaken (d ∷ es) h (suc k) e at = find_avail_node-AllTaken es (ground arith) k e at

find_avail_node-IsFirstFree :
    (es : List FileEntry) (j : ℕ) → find_avail_node es ≡ some j → IsFirstFree es j
unfolding find_avail_node
find_avail_node-IsFirstFree [] j h = absurd (ground arith)
find_avail_node-IsFirstFree (d ∷ es) zero h = record {
  entry = d;
  at_index = refl;
  free = ground arith;
  before = λ k e lt at. absurd (omega arith);
}
find_avail_node-IsFirstFree (d ∷ es) (suc j) h =
    let ih = find_avail_node-IsFirstFree es j (ground arith) in
    record {
      entry = ih.entry;
      at_index = ih.at_index;
      free = ih.free;
      before = below ih (ground arith);
    }
  where
    below :
        IsFirstFree es j
        → is_zero_ℤ d.alloc ≡ false
        → (k : ℕ) (e : FileEntry) → k < suc j
        → get_elem? (d ∷ es) k ≡ some e
        → is_zero_ℤ e.alloc ≡ false
    below ih taken zero e lt at = ground arith
    below ih taken (suc k) e lt at = ih.before k e (omega arith) at

-- The file is the first free one of the first class that is large enough and has a free file.
pub record IsBest (cs : List FileClass) (len : ℕ) (r : NodeRef) (found : ℕ) : Type 0 where
  pub class : FileClass
  pub class_at : get_elem? cs r.class ≡ some class
  pub large : len ≤ class.size
  pub size : found ≡ class.size
  pub first : IsFirstFree class.paths r.index
  pub earlier :
      (k : ℕ) (d : FileClass)
      → k < r.class
      → get_elem? cs k ≡ some d
      → len ≤ d.size
      → AllTaken d.paths

IsBest-next :
    (c : FileClass) (cs : List FileClass) (len : ℕ) (r : NodeRef) (found : ℕ)
    → (len ≤ c.size → AllTaken c.paths)
    → IsBest cs len r found
    → IsBest (c ∷ cs) len (record r { class = suc r.class }) found
IsBest-next c cs len r found skipped b = record {
  class = b.class;
  class_at = b.class_at;
  large = b.large;
  size = b.size;
  first = b.first;
  earlier = below;
}
  where
    below :
        (k : ℕ) (d : FileClass)
        → k < suc r.class
        → get_elem? (c ∷ cs) k ≡ some d
        → len ≤ d.size
        → AllTaken d.paths
    below zero d lt at large =
        subst
          (λ (x : Option FileClass). elim x [
            | none ↦ Unit
            | some y ↦ (len ≤ y.size → AllTaken y.paths)
          ])
          at skipped large
    below (suc k) d lt at large = b.earlier k d (omega arith) at large

-- What get_file_path promises of its result.
abbrev pub Promise : List FileClass → ℕ → Option NodeRef → ℕ → Type 0
Promise cs len none found =
    (found ≡ len)
    × ((k : ℕ) (d : FileClass) → get_elem? cs k ≡ some d → len ≤ d.size → AllTaken d.paths)
Promise cs len (some r) found = IsBest cs len r found

Promise-next :
    (c : FileClass) (cs : List FileClass) (len : ℕ) (f : Found)
    → (len ≤ c.size → AllTaken c.paths)
    → Promise cs len f.node f.len
    → Promise (c ∷ cs) len (next_class c f).node (next_class c f).len
Promise-next c cs len f skipped h = go f.node h
  where
    next :
        ((k : ℕ) (d : FileClass) → get_elem? cs k ≡ some d → len ≤ d.size → AllTaken d.paths)
        → (k : ℕ) (d : FileClass) → get_elem? (c ∷ cs) k ≡ some d
        → len ≤ d.size
        → AllTaken d.paths
    next g zero d at large =
        subst
          (λ (x : Option FileClass). elim x [
            | none ↦ Unit
            | some y ↦ (len ≤ y.size → AllTaken y.paths)
          ])
          at skipped large
    next g (suc k) d at large = g k d at large

    go :
        (o : Option NodeRef)
        → Promise cs len o f.len
        → Promise (c ∷ cs) len (next_class c (record f { node = o })).node f.len
    go none g = (g.0, next g.1)
    go (some r) b = IsBest-next c cs len r f.len skipped b

-- If get_file_path returns a file, it is the first free file of the first class that is large enough
-- and has a free one, and the length becomes the size of that class; if it returns none, no class
-- that is large enough has a free file, and the length stays as it is.
pub get_file_path-Promise :
    (cs : List FileClass) (len : ℕ)
    → Promise cs len (get_file_path cs len).node (get_file_path cs len).len
unfolding get_file_path
get_file_path-Promise [] len = (refl, λ k d at. cc)
get_file_path-Promise (c ∷ cs) len = elim (Bool-cases (leb len c.size)) [
  | inr small ↦ rw small (
      Promise-next c cs len (get_file_path cs len) (λ large. absurd (ground arith))
        (get_file_path-Promise cs len))
  | inl large ↦ elim (Option-cases (find_avail_node c.paths)) [
    | inl full ↦
        rw (large, full)
          (Promise-next c cs len (get_file_path cs len) (λ _. find_avail_node-AllTaken c.paths full)
            (get_file_path-Promise cs len))
    | inr (j, e) ↦
        rw (large, e)
          (record {
            class = c;
            class_at = refl;
            large = ground arith;
            size = refl;
            first = find_avail_node-IsFirstFree c.paths j e;
            earlier = λ k d lt at. absurd (omega arith);
          })
  ]
]
