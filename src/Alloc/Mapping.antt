-- ===== src/Alloc/Mapping.antt =====
-- What alloc maps.
use memory_management_phase.Base.{
  get_elem?, All, ℕ, ◌+◌, ◌<◌, ◌≤◌, ◌≡◌, ◌≢◌, refl, ◌∙◌, subst, true, false, List, Option, none,
  some, String, arith, ◌==◌, Bool-cases, Option-cases, inl, inr, ◌⊎◌,
}
use memory_management_phase.Machine.Host.{Host, IsHost}
use memory_management_phase.Machine.State.{Memory, State, MemType, file, anon, type_max, FileClass}
use memory_management_phase.Machine.Returns
use memory_management_phase.Machine.Returns.{Returns, returns, Ends, done, exits}
use memory_management_phase.Touch.Frame.{is_mapped, IsRegion}
use memory_management_phase.Files.{NodeRef, get_file_path, entry_at}
use memory_management_phase.Alloc.{
  Mapped, cap_len, path_of, map_bytes, held_bytes, map_region, map_type, mmapper, map_node,
  map_anon, map_file, alloc,
}
use memory_management_phase.Alloc.Length.{IsSized, file_size-IsSize}
use memory_management_phase.Valid.{IsValid, IsAllocation, sizes, sizes-get_file_path, class_at-page}
use memory_management_phase.Files.Used.{UsedUp, UsedUp-get_file_path, get_file_path-none}
use memory_management_phase.Files.Best.{IsBest, Promise, get_file_path-Promise}

-- What was mapped still is, the classes have the same sizes, and nothing else of the program's state
-- but memory, files and the count of the host's calls may differ.
pub record Grows (s t : State) : Type 0 where
  pub grown : (p : ℕ) → is_mapped (s.mem p) ≡ true → is_mapped (t.mem p) ≡ true
  pub sizes_eq : sizes t.files ≡ sizes s.files
  pub used : UsedUp s.files → UsedUp t.files
  pub rest : t ≡ record s { mem = t.mem; calls = t.calls; files = t.files }
  pub calls : s.calls ≤ t.calls

pub Grows-trans : {s t u : State} → Grows s t → Grows t u → Grows s u
Grows-trans h k = record {
  grown = λ p m. k.grown p (h.grown p m);
  sizes_eq = k.sizes_eq ∙ h.sizes_eq;
  used = λ u. k.used (h.used u);
  rest = ground (arith, h.rest, k.rest);
  calls = omega (arith, h.calls, k.calls);
}

-- A mapping of the length at the address, which is not NULL.
abbrev pub IsMapping : ℕ → State → ℕ → State → Type 0
IsMapping len s a t = Grows s t × (0 < a) × IsRegion t.mem a len

map_bytes-mapped :
    (content : ℕ → ℕ) (base size : ℕ) (m : Memory) (p : ℕ)
    → (is_mapped (m p) ≡ true → is_mapped (map_bytes content base size m p) ≡ true)
      × (base ≤ p → p < base + size → is_mapped (map_bytes content base size m p) ≡ true)
unfolding map_bytes
map_bytes-mapped content base size m p = (λ h. ground arith, λ h k. ground arith)

asked : State → State
asked s = record s { calls = s.calls + 1 }

Grows-asked : (s : State) → Grows s (asked s)
unfolding asked
Grows-asked s = record {
  grown = λ p h. h;
  sizes_eq = refl;
  used = λ u. u;
  rest = refl;
  calls = omega arith;
}

module _ (host : Host) (std : IsHost host) where
  map_region-IsMapping :
      (content : ℕ → ℕ → ℕ) (path : Option String) (size held : ℕ) (type : MemType) (s : State)
      → ((a : ℕ) → host.mmap s.calls size ≡ some a → size ≤ held)
      → Ends (λ a t. IsMapping size s a t) (map_region host content path size held type s)
  unfolding map_region
  map_region-IsMapping content path size held type s long =
      elim (Option-cases (host.mmap s.calls size)) [
        | inl failed ↦ rw (failed, map_region) exits
        | inr (a, e) ↦
            let bytes = λ (p : ℕ). map_bytes-mapped (content s.calls) a held s.mem p in
            let enough = long a e in
            rw (e, map_region)
              (done (
                record {
                  grown = λ p h. (bytes p).0 h;
                  sizes_eq = refl;
                  used = λ u. u;
                  rest = refl;
                  calls = omega arith;
                },
                std.mmap-pos s.calls size a e,
                record {
                  fits = std.mmap-fits s.calls size a e;
                  mapped = λ p h k. (bytes p).1 h (omega arith);
                },
              ))
      ]

  -- A mapping of a file can be read to its end.
  held_bytes-ge :
      (size n a : ℕ)
      → host.mmap (n + 1) size ≡ some a
      → size ≤ held_bytes (host.ftruncate n) size (host.file_size n)
  unfolding held_bytes
  held_bytes-ge size n a e = elim (Bool-cases (host.ftruncate n)) [
    | inl set ↦ rw set (omega arith)
    | inr kept ↦ let long = std.file_size-ge n size a kept e in rw kept (ground arith)
  ]

  map_type-IsMapping :
      (path : Option String) (size : ℕ) (type : MemType) (s : State)
      → type ≢ type_max
      → Ends (λ a t. IsMapping size s a t) (map_type host path size type s)
  map_type-IsMapping path size anon s h =
      map_region-IsMapping (λ _ _. 0) path size size anon s (λ a e. omega arith)
  map_type-IsMapping path size type_max s h = absurd (h refl)
  map_type-IsMapping none size file s h = exits
  map_type-IsMapping (some path) size file s h = elim (Bool-cases (host.open_path s.calls path)) [
    | inl opened ↦
        let t = asked (asked s) in
        rw opened (
          Returns.mono_Ends
            (map_region-IsMapping host.content (some path) size
              (held_bytes (host.ftruncate (s.calls + 1)) size (host.file_size (s.calls + 1))) file
              (record s { calls = s.calls + 1 + 1 }) (held_bytes-ge size (s.calls + 1)))
            λ a u m. (
              Grows-trans
                  (record {
                    grown = λ p h. h;
                    sizes_eq = refl;
                    used = λ u. u;
                    rest = refl;
                    calls = omega arith;
                  })
                  m.0,
              m.1,
              m.2,
            ))
    | inr missing ↦ rw missing exits
  ]

  mmapper-IsMapping :
      (path : Option String) (size : ℕ) (type : MemType) (s : State)
      → type ≢ type_max
      → Ends (λ a t. IsMapping size s a t) (mmapper host path size type s)
  unfolding mmapper
  mmapper-IsMapping path size type s h =
      Returns.bind_Ends (map_type-IsMapping path size type s h) λ a t m.
        elim (Bool-cases (host.madvise t.calls)) [
          | inl advised ↦ rw advised (
              done (
                Grows-trans m.0 (record {
                  grown = λ p h. h;
                  sizes_eq = refl;
                  used = λ u. u;
                  rest = refl;
                  calls = omega arith;
                }),
                m.1,
                m.2,
              ))
          | inr refused ↦ rw refused exits
        ]

-- What alloc gives: no address, if a class of files is used up, or an allocation of at least a page.
abbrev pub IsAlloc : MemType → State → Mapped → State → Type 0
IsAlloc type s m t =
    Grows s t
    × (((m.addr ≡ 0) × UsedUp t.files)
        ⊎ IsAllocation t.mem (record { addr = m.addr; len = m.len; type = type }))

cap_len-page :
    (max_byte len : ℕ)
    → (max_byte ≡ 0) ⊎ (4096 ≤ max_byte)
    → 4096 ≤ len
    → 4096 ≤ cap_len max_byte len
unfolding cap_len
cap_len-page max_byte len h k = ground arith

Promise-page :
    (cs : List FileClass) (len : ℕ) (r : NodeRef) (found : ℕ)
    → All (λ n. 4096 ≤ n) (sizes cs)
    → IsBest cs len r found
    → 4096 ≤ found
Promise-page cs len r found big best =
    rw best.size (class_at-page cs r.class best.class big best.class_at)

module _ (host : Host) (std : IsHost host) where
  map_node-IsAlloc :
      (type : MemType) (len : ℕ) (ref : Option NodeRef) (path : Option String) (s : State)
      → type ≢ type_max
      → (s.config.max_alloc_per_phase_byte ≡ 0) ⊎ (4096 ≤ s.config.max_alloc_per_phase_byte)
      → 4096 ≤ len
      → Ends (λ m t. IsAlloc type s m t) (map_node host type len ref path s)
  unfolding map_node
  map_node-IsAlloc type len ref path s h cap page =
      let len' = cap_len s.config.max_alloc_per_phase_byte len in
      Returns.bind_Ends (mmapper-IsMapping host std path len' type s h) λ a t m.
        done
          (m.0, inr (record { nonnull = m.1; a_page = cap_len-page _ len cap page; region = m.2 }))

  map_file-IsAlloc :
      (len i : ℕ) (c : FileClass) (s : State)
      → IsValid s
      → get_elem? s.files i ≡ some c
      → len ≤ c.size
      → Ends (λ m t. IsAlloc file s m t) (map_file host file len s)
  map_file-IsAlloc len i c s v at le =
      let f = get_file_path s.files len in
      let t : State = record s { files = f.classes } in
      let begin : Grows s t = record {
        grown = λ p h. h;
        sizes_eq = sizes-get_file_path s.files len;
        used = UsedUp-get_file_path s.files len;
        rest = refl;
        calls = omega arith;
      } in
      elim (Option-cases f.node) [
        | inl missing ↦
            rw missing (done (begin, inl (refl, get_file_path-none s.files len i c at le missing)))
        | inr (r, found) ↦
            let page = Promise-page s.files len r f.len v.big (
              subst (λ o. Promise s.files len o f.len) found (get_file_path-Promise s.files len)) in
            rw found (
              Returns.mono_Ends
                (map_node-IsAlloc file f.len (some r) (path_of (entry_at f.classes r)) t
                  (λ e. ground arith) v.cap page)
                λ m u a. (Grows-trans begin a.0, a.1))
      ]

  map_anon-IsAlloc :
      (len : ℕ) (s : State)
      → IsValid s
      → 4096 ≤ len
      → Ends (λ m t. IsAlloc anon s m t) (map_anon host len s)
  map_anon-IsAlloc len s v page =
      let z : IsSized s.config.speed s = record {
        big = v.big;
        last_lt = v.speed;
        short = v.short;
      } in
      let some_len : (len == 0) ≡ false = ground arith in
      Returns.bind_Ends (Returns.of_Returns (file_size-IsSize s.config.speed 0 s z (omega arith)))
        λ first t (size, stay).
          rw (stay, some_len) (map_node-IsAlloc anon len none none s (λ e. ground arith) v.cap page)

  -- On a host that is as IsHost says and on a valid state, alloc, of file or of anon, for a length
  -- of at least a page that some class of files has, returns or ends the process by exit; when it
  -- returns, it gives no address, and a class of files has no free file left, or a mapping of at
  -- least a page at an address that is not NULL, and what was mapped still is.
  pub alloc-IsAlloc :
      (type : MemType) (len i : ℕ) (c : FileClass) (s : State)
      → type ≢ type_max
      → IsValid s
      → get_elem? s.files i ≡ some c
      → len ≤ c.size
      → 4096 ≤ len
      → Ends (λ m t. IsAlloc type s m t) (alloc host type len s)
  unfolding alloc
  alloc-IsAlloc file len i c s h v at le page = map_file-IsAlloc len i c s v at le
  alloc-IsAlloc anon len i c s h v at le page = map_anon-IsAlloc len s v page
  alloc-IsAlloc type_max len i c s h v at le page = absurd (h refl)
