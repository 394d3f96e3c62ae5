-- ===== src/Files/Used.antt =====
-- When no file is found: a class that is large enough has no free file left, and it has none from then
-- on.
use memory_management_phase.Base.{
  ℕ, zero, suc, ◌≤◌, ◌≡◌, Option, none, some, List, [], ◌∷◌, arith, leb, get_elem?, inl, inr, refl,
  Bool-cases, Option-cases,
}
use memory_management_phase.Base.Int.{pos, is_zero_ℤ}
use memory_management_phase.Machine.State.{FileEntry, FileClass}
use memory_management_phase.Files.{
  Found, next_class, find_avail_node, next_index, get_file_path, set_alloc, mark,
}

-- A class has no free file.
pub data UsedUp : List FileClass → Type 0 where
  here : {c : FileClass} {cs : List FileClass} → find_avail_node c.paths ≡ none → UsedUp (c ∷ cs)
  there : {c : FileClass} {cs : List FileClass} → UsedUp cs → UsedUp (c ∷ cs)

UsedUp-tail :
    (c : FileClass) (cs cs' : List FileClass)
    → (UsedUp cs → UsedUp cs')
    → UsedUp (c ∷ cs)
    → UsedUp (c ∷ cs')
UsedUp-tail c cs cs' go (here h) = here h
UsedUp-tail c cs cs' go (there h) = there (go h)

pub UsedUp-get_file_path :
    (cs : List FileClass) (len : ℕ) → UsedUp cs → UsedUp (get_file_path cs len).classes
unfolding get_file_path
UsedUp-get_file_path [] len u = u
UsedUp-get_file_path (c ∷ cs) len u = elim (Bool-cases (leb len c.size)) [
  | inr small ↦ rw small (UsedUp-tail c cs _ (λ h. UsedUp-get_file_path cs len h) u)
  | inl large ↦ elim (Option-cases (find_avail_node c.paths)) [
    | inl full ↦ rw (large, full) (here full)
    | inr (j, e) ↦ rw (large, e) u
  ]
]

find_avail_node-set_alloc :
    (es : List FileEntry) (j : ℕ)
    → find_avail_node es ≡ none
    → find_avail_node (set_alloc (pos 1) es j) ≡ none
unfolding find_avail_node set_alloc
find_avail_node-set_alloc [] j h = h
find_avail_node-set_alloc (e ∷ es) zero h = elim (Bool-cases (is_zero_ℤ e.alloc)) [
  | inl free ↦ ground arith
  | inr used ↦ rw used at h
]
find_avail_node-set_alloc (e ∷ es) (suc j) h = elim (Bool-cases (is_zero_ℤ e.alloc)) [
  | inl free ↦ ground arith
  | inr used ↦
      let left : find_avail_node es ≡ none = next_index-none (find_avail_node es) (rw used at h) in
      rw (used, find_avail_node-set_alloc es j left) refl
]
  where
    next_index-none : (o : Option ℕ) → next_index o ≡ none → o ≡ none
    next_index-none none k = refl
    next_index-none (some i) k = cc

pub UsedUp-mark : (i j : ℕ) (cs : List FileClass) → UsedUp cs → UsedUp (mark (pos 1) i j cs)
unfolding mark
UsedUp-mark i j [] u = u
UsedUp-mark zero j (c ∷ cs) (here h) = here (find_avail_node-set_alloc c.paths j h)
UsedUp-mark zero j (c ∷ cs) (there h) = there h
UsedUp-mark (suc i) j (c ∷ cs) (here h) = here h
UsedUp-mark (suc i) j (c ∷ cs) (there h) = there (UsedUp-mark i j cs h)

next_class-none : (c : FileClass) (f : Found) → (next_class c f).node ≡ none → f.node ≡ none
next_class-none c f h = elim (Option-cases f.node) [
  | inl missing ↦ missing
  | inr (r, e) ↦ let h' = rw e at h in cc
]

-- If no file is found for a length that a class has, a class is used up.
pub get_file_path-none :
    (cs : List FileClass) (len i : ℕ) (c : FileClass)
    → get_elem? cs i ≡ some c
    → len ≤ c.size
    → (get_file_path cs len).node ≡ none
    → UsedUp (get_file_path cs len).classes
unfolding get_file_path
get_file_path-none [] len i c at le h = cc
get_file_path-none (d ∷ cs) len i c at le h = elim (Bool-cases (leb len d.size)) [
  | inl large ↦ elim (Option-cases (find_avail_node d.paths)) [
    | inl full ↦ rw (large, full) (here full)
    | inr (j, e) ↦ let found = rw (large, e) at h in cc
  ]
  | inr small ↦
      let missing = next_class-none d (get_file_path cs len) (rw small at h) in
      rw small (
        there (
          elim i as (λ i. get_elem? (d ∷ cs) i ≡ some c → UsedUp (get_file_path cs len).classes) [
            | zero ↦ λ first. absurd (ground (arith, small, le))
            | suc i ↦ λ later. get_file_path-none cs len i c later le missing
          ]
            at))
]
