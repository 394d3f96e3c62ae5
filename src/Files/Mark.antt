-- ===== src/Files/Mark.antt =====
-- The mark of a file that is in use, and that get_file_path leaves the files as they are.
use memory_management_phase.Base.{
  ℕ, zero, suc, ◌≡◌, ◌≢◌, refl, ap, subst, inl, inr, some, List, [], ◌∷◌, arith, leb, get_elem?,
  Bool-cases, Option-cases,
}
use memory_management_phase.Base.Int.{ℤ, pos, is_zero_ℤ}
use memory_management_phase.Machine.State.{FileEntry, FileClass}
use memory_management_phase.Files.{find_avail_node, get_file_path, set_alloc, mark}
use memory_management_phase.Files.Best.{IsBest, Promise, get_file_path-Promise}

-- The classes without their `filled` flags.
abbrev pub pool : List FileClass → List (ℕ × List FileEntry)
pool [] = []
pool (c ∷ cs) = (c.size, c.paths) ∷ pool cs

-- get_file_path changes no size, no path and no mark: at most the flags of full classes.
pub get_file_path-pool :
    (cs : List FileClass) (len : ℕ) → pool (get_file_path cs len).classes ≡ pool cs
unfolding get_file_path
get_file_path-pool [] len = refl
get_file_path-pool (c ∷ cs) len = elim (Bool-cases (leb len c.size)) [
  | inr small ↦ rw small (ap (λ t. (c.size, c.paths) ∷ t) (get_file_path-pool cs len))
  | inl large ↦ elim (Option-cases (find_avail_node c.paths)) [
    | inl full ↦ rw (large, full) (ap (λ t. (c.size, c.paths) ∷ t) (get_file_path-pool cs len))
    | inr (j, e) ↦ rw (large, e)
  ]
]

get_elem?-set_alloc :
    (v : ℤ) (es : List FileEntry) (j : ℕ) (e : FileEntry)
    → get_elem? (set_alloc v es j) j ≡ some e
    → e.alloc ≡ v
unfolding set_alloc
get_elem?-set_alloc v [] j e h = cc
get_elem?-set_alloc v (d ∷ es) zero e h = ground arith
get_elem?-set_alloc v (d ∷ es) (suc j) e h = get_elem?-set_alloc v es j e h

get_elem?-mark :
    (v : ℤ) (i j : ℕ) (cs : List FileClass) (c : FileClass) (e : FileEntry)
    → get_elem? (mark v i j cs) i ≡ some c
    → get_elem? c.paths j ≡ some e
    → e.alloc ≡ v
unfolding mark
get_elem?-mark v i j [] c e h k = cc
get_elem?-mark v zero j (d ∷ cs) c e h k = get_elem?-set_alloc v d.paths j e (ground arith)
get_elem?-mark v (suc i) j (d ∷ cs) c e h k = get_elem?-mark v i j cs c e h k

not-IsBest-mark :
    (cs : List FileClass) (len i j found : ℕ)
    → ¬ IsBest (mark (pos 1) i j cs) len (record { class = i; index = j }) found
not-IsBest-mark cs len i j found best =
    let one =
      get_elem?-mark (pos 1) i j cs best.class best.first.entry best.class_at best.first.at_index in
    cc (best.first.free, ap is_zero_ℤ one)

-- A file that has been marked is not found again, whatever length is asked for.
pub get_file_path-mark :
    (cs : List FileClass) (len i j : ℕ)
    → (get_file_path (mark (pos 1) i j cs) len).node ≢ some (record { class = i; index = j })
get_file_path-mark cs len i j found =
    let f = get_file_path (mark (pos 1) i j cs) len in
    not-IsBest-mark cs len i j f.len (
      subst (λ o. Promise (mark (pos 1) i j cs) len o f.len) found
        (get_file_path-Promise (mark (pos 1) i j cs) len))
