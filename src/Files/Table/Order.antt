-- ===== src/Files/Table/Order.antt =====
-- In which order the files of the table are taken.
use memory_management_phase.Base.{
  ℕ, zero, suc, ◌+◌, ◌<◌, ◌≤◌, ◌≡◌, ◌≢◌, ◌⊎◌, refl, ap, ◌∙◌, none, some, List, [], ◌∷◌, arith,
  length, get_elem?, leb, ltb, if◌then◌else◌, false, true, Bool-cases, inl, inr,
}
use memory_management_phase.Base.Int.{pos}
use memory_management_phase.Machine.State.{FileEntry, FileClass}
use memory_management_phase.Files.{find_avail_node, get_file_path, set_alloc, mark}
use memory_management_phase.Files.Table.{path, entries, file_itema, file_lst}
use memory_management_phase.Files.Table.Names.{path_inj}

-- The list with its first k files taken.
unfoldable pub taken : ℕ → List FileEntry → List FileEntry
taken zero es = es
taken (suc k) [] = []
taken (suc k) (e ∷ es) = record e { alloc = pos 1 } ∷ taken k es

length-entries : (n i : ℕ) → length (entries n i) ≡ n
unfolding entries
length-entries zero i = refl
length-entries (suc n) i = omega (arith, length-entries n (i + 1))

get_elem?-entries :
    (n i k : ℕ)
    → k < n
    → get_elem? (entries n i) k ≡ some (record { alloc = pos 0; path = path (i + k) })
unfolding entries
get_elem?-entries zero i k h = absurd (omega arith)
get_elem?-entries (suc n) i zero h =
    ap (λ j. some (record { alloc = pos 0; path = path j })) (zero_right i)
  where
    zero_right : (j : ℕ) → j ≡ j + 0
    zero_right j = omega arith
get_elem?-entries (suc n) i (suc k) h =
    get_elem?-entries n (i + 1) k (omega arith)
    ∙ ap (λ j. some (record { alloc = pos 0; path = path j })) (next i k)
  where
    next : (i k : ℕ) → i + 1 + k ≡ i + suc k
    next i k = omega arith

entries-lt : (n i k : ℕ) (e : FileEntry) → get_elem? (entries n i) k ≡ some e → k < n
unfolding entries
entries-lt zero i k e at = cc
entries-lt (suc n) i zero e at = omega arith
entries-lt (suc n) i (suc k) e at = omega (arith, entries-lt n (i + 1) k e at)

-- The entries of the table of files.h are free, and no two of them have the same path.
pub file_itema-distinct :
    (j k : ℕ) (d e : FileEntry)
    → get_elem? file_itema j ≡ some d
    → get_elem? file_itema k ≡ some e
    → j ≢ k
    → (d.alloc ≡ pos 0) × (e.alloc ≡ pos 0) × (d.path ≢ e.path)
unfolding file_itema
file_itema-distinct j k d e at_j at_k other =
    let h = entries-lt 50000 1 j d at_j in
    let h' = entries-lt 50000 1 k e at_k in
    let first = get_elem?-entries 50000 1 j h in
    let second = get_elem?-entries 50000 1 k h' in
    let d_eq : d ≡ record { alloc = pos 0; path = path (1 + j) } = cc (first, at_j) in
    let e_eq : e ≡ record { alloc = pos 0; path = path (1 + k) } = cc (second, at_k) in
    (
      ap (λ (x : FileEntry). x.alloc) d_eq,
      ap (λ (x : FileEntry). x.alloc) e_eq,
      λ same. other (suc_inj (path_inj (1 + j) (1 + k) (cc (d_eq, e_eq, same)))),
    )
  where
    suc_inj : {a b : ℕ} → 1 + a ≡ 1 + b → a ≡ b
    suc_inj h = omega arith

find_avail_node-taken :
    (k n i : ℕ) → find_avail_node (taken k (entries n i)) ≡ (if ltb k n then some k else none)
unfolding find_avail_node taken entries
find_avail_node-taken zero zero i = refl
find_avail_node-taken zero (suc n) i = ground arith
find_avail_node-taken (suc k) zero i = ground arith
find_avail_node-taken (suc k) (suc n) i = ground (arith, find_avail_node-taken k n (i + 1))

set_alloc-taken :
    (k n i : ℕ) → set_alloc (pos 1) (taken k (entries n i)) k ≡ taken (suc k) (entries n i)
unfolding set_alloc taken entries
set_alloc-taken zero zero i = refl
set_alloc-taken zero (suc n) i = refl
set_alloc-taken (suc k) zero i = refl
set_alloc-taken (suc k) (suc n) i =
    ap (λ t. record { alloc = pos 1; path = path i } ∷ t) (set_alloc-taken k n (i + 1))

-- The table behind k allocations of files.
unfoldable pub after : ℕ → List FileClass
after k = record { size = 4096; paths = taken k file_itema; filled = false } ∷ []

-- For a length of at most a page, get_file_path takes the files of files.h in their order: behind k
-- allocations of files, with k below 50000, it gives the file k and the length 4096, and the mark of
-- this file leaves the table as it is behind k + 1 of them; behind 50000 it gives none. Behind none
-- the table is file_lst.
pub get_file_path-after :
    (k len : ℕ)
    → len ≤ 4096
    → (after 0 ≡ file_lst)
      × (((k < 50000)
            × ((get_file_path (after k) len).node ≡ some (record { class = 0; index = k }))
            × ((get_file_path (after k) len).len ≡ 4096)
            × (mark (pos 1) 0 k (get_file_path (after k) len).classes ≡ after (suc k)))
          ⊎ ((50000 ≤ k) × ((get_file_path (after k) len).node ≡ none)))
unfolding after get_file_path mark file_itema file_lst taken
get_file_path-after k len h =
    let fits : leb len 4096 ≡ true = ground arith in
    (
      empty_mark,
      elim (Bool-cases (ltb k 50000)) [
        | inl some_left ↦
            let found : find_avail_node (taken k (entries 50000 1)) ≡ some k =
              rw (find_avail_node-taken k 50000 1, some_left) refl in
            inl (
              ground arith,
              rw (fits, found) refl,
              rw (fits, found) refl,
              rw (fits, found)
                  (ap (λ es. record { size = 4096; paths = es; filled = false } ∷ [])
                    (set_alloc-taken k 50000 1)),
            )
        | inr exhausted ↦
            let found : find_avail_node (taken k (entries 50000 1)) ≡ none =
              rw (find_avail_node-taken k 50000 1, exhausted) refl in
            inr (ground arith, rw (fits, found) refl)
      ],
    )
  where
    empty_mark : after 0 ≡ file_lst
    empty_mark = refl
