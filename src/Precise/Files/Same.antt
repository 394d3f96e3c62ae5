-- ===== src/Precise/Files/Same.antt =====
-- The loops of file_manager.c find what the recursions of Files find.
use memory_management_phase.Base.{
  ℕ, suc, ◌+◌, ◌<◌, ◌≡◌, refl, ap, ◌∙◌, sym, Option, none, some, List, [], ◌∷◌, ◌++◌, true, leb,
  length, get_elem?, arith, Bool-cases, Option-cases, inl, inr,
}
use memory_management_phase.Base.Int.{is_zero_ℤ}
use memory_management_phase.Machine.State.{FileEntry, FileClass}
use memory_management_phase.Files.{
  Found, next_index, find_avail_node as find_free, next_class, get_file_path,
}
use memory_management_phase.Precise.Files.{
  free_from, find_avail_node, fill, found_at, get_loop, file_mgr_get_file,
}

-- Where the loop stops, in terms of the recursion.
abbrev stop_of : ℕ → ℕ → Option ℕ → ℕ
stop_of j n none = j + n
stop_of j n (some k) = j + k

stop_of-next : (j n : ℕ) (o : Option ℕ) → stop_of (j + 1) n o ≡ stop_of j (suc n) (next_index o)
stop_of-next j n none = omega arith
stop_of-next j n (some k) = omega arith

free_from-eq : (es : List FileEntry) (j : ℕ) → free_from es j ≡ stop_of j (length es) (find_free es)
unfolding free_from find_free
free_from-eq [] j = omega arith
free_from-eq (e ∷ es) j = elim (Bool-cases (is_zero_ℤ e.alloc)) [
  | inl free ↦ rw free (omega arith)
  | inr taken ↦ rw taken (free_from-eq es (j + 1) ∙ stop_of-next j (length es) (find_free es))
]

find_free-lt : (es : List FileEntry) (k : ℕ) → find_free es ≡ some k → k < length es
unfolding find_free
find_free-lt [] k e = cc
find_free-lt (d ∷ es) k e = elim (Bool-cases (is_zero_ℤ d.alloc)) [
  | inl free ↦ ground arith
  | inr taken ↦ elim (Option-cases (find_free es)) [
    | inl none_free ↦ ground arith
    | inr (i, found) ↦ let lt = find_free-lt es i found in ground arith
  ]
]

find_avail_node-eq : (es : List FileEntry) → find_avail_node es ≡ find_free es
unfolding find_avail_node
find_avail_node-eq es = elim (Option-cases (find_free es)) [
  | inl none_free ↦ let e = free_from-eq es 0 in ground arith
  | inr (k, found) ↦ let e = free_from-eq es 0 in let lt = find_free-lt es k found in ground arith
]

-- The array is a part that the loop has passed, and the rest.
abbrev passed : List FileClass → Found → Found
passed [] f = f
passed (c ∷ pre) f = next_class c (passed pre f)

passed-append :
    (pre : List FileClass) (c : FileClass) (f : Found)
    → passed (pre ++ (c ∷ [])) f ≡ passed pre (next_class c f)
passed-append [] c f = refl
passed-append (d ∷ pre) c f = ap (next_class d) (passed-append pre c f)

passed-none :
    (pre suf : List FileClass) (len : ℕ)
    → passed pre (record { node = none; len = len; classes = suf })
      ≡ record { node = none; len = len; classes = pre ++ suf }
passed-none [] suf len = refl
passed-none (d ∷ pre) suf len = ap (next_class d) (passed-none pre suf len)

passed-some :
    (pre suf : List FileClass) (c : FileClass) (j : ℕ)
    → passed pre (found_at suf 0 c j) ≡ found_at (pre ++ suf) (length pre) c j
passed-some [] suf c j = refl
passed-some (d ∷ pre) suf c j = ap (next_class d) (passed-some pre suf c j)

get_elem?-passed :
    (pre suf : List FileClass) (c : FileClass) → get_elem? (pre ++ (c ∷ suf)) (length pre) ≡ some c
get_elem?-passed [] suf c = refl
get_elem?-passed (d ∷ pre) suf c = get_elem?-passed pre suf c

fill-passed :
    (pre suf : List FileClass) (c : FileClass)
    → fill (pre ++ (c ∷ suf)) (length pre) c ≡ pre ++ (record c { filled = true } ∷ suf)
fill-passed [] suf c = refl
fill-passed (d ∷ pre) suf c = ap (λ t. d ∷ t) (fill-passed pre suf c)

append-cons :
    (pre suf : List FileClass) (c : FileClass) → (pre ++ (c ∷ [])) ++ suf ≡ pre ++ (c ∷ suf)
append-cons [] suf c = refl
append-cons (d ∷ pre) suf c = ap (λ t. d ∷ t) (append-cons pre suf c)

length-snoc : (pre : List FileClass) (c : FileClass) → length (pre ++ (c ∷ [])) ≡ length pre + 1
length-snoc [] c = refl
length-snoc (d ∷ pre) c = omega (arith, length-snoc pre c)

-- A round that goes on, with the class as the round leaves it.
onward :
    (pre suf : List FileClass) (c : FileClass) (len : ℕ) (f : Found)
    → ((before : List FileClass)
        → get_loop (length suf) (length before) len (before ++ suf) ≡ passed before f)
    → get_loop (length suf) (length pre + 1) len (pre ++ (c ∷ suf)) ≡ passed pre (next_class c f)
onward pre suf c len f ih =
    let go = ih (pre ++ (c ∷ [])) in
    rw (length-snoc pre c, append-cons pre suf c, passed-append pre c f) at go

get_loop-eq :
    (suf pre : List FileClass) (len : ℕ)
    → get_loop (length suf) (length pre) len (pre ++ suf) ≡ passed pre (get_file_path suf len)
unfolding get_loop get_file_path
get_loop-eq [] pre len = sym (passed-none pre [] len)
get_loop-eq (c ∷ suf) pre len =
    let here = get_elem?-passed pre suf c in
    elim (Bool-cases (leb len c.size)) [
      | inr small ↦
          rw (here, small)
            (onward pre suf c len (get_file_path suf len) (λ before. get_loop-eq suf before len))
      | inl large ↦ elim (Option-cases (find_free c.paths)) [
        | inl full ↦
            let full' = find_avail_node-eq c.paths ∙ full in
            rw (here, large)
              (rw (full, full')
                (rw (fill-passed pre suf c) (
                  onward pre suf (record c { filled = true }) len (get_file_path suf len)
                    (λ before. get_loop-eq suf before len))))
        | inr (j, free) ↦
            let free' = find_avail_node-eq c.paths ∙ free in
            rw (here, large) (rw (free, free') (sym (passed-some pre (c ∷ suf) c j)))
      ]
    ]

-- file_mgr_get_file of file_manager.c gives the file, the length and the classes that get_file_path
-- of mem_gobbler.c gives, for every pool and every length.
pub file_mgr_get_file-eq :
    (cs : List FileClass) (len : ℕ) → file_mgr_get_file cs len ≡ get_file_path cs len
unfolding file_mgr_get_file
file_mgr_get_file-eq cs len = get_loop-eq cs [] len
