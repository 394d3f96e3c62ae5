-- ===== src/Alloc/One.antt =====
-- One allocation: random_allocator_one keeps the invariant, and brings its caller's loop nearer to
-- its end.
use memory_management_phase.Base.{
  ap, ℕ, ◌/◌, ◌^◌, ◌<◌, ◌≤◌, ◌≡◌, ◌≢◌, refl, some, true, false, get_elem?, arith, ◌==◌,
  if◌then◌else◌, inl, inr,
}
use memory_management_phase.Base.Int.{ℤ, pos}
use memory_management_phase.Machine.Host.{Host, IsHost, IsFair}
use memory_management_phase.Machine.State.{FileClass, State, MemType, type_max}
use memory_management_phase.Machine.Run.{Cmd, ok, ◌>>=◌}
use memory_management_phase.Machine.Returns
use memory_management_phase.Machine.Returns.{Returns, returns, Ends, done, exits}
use memory_management_phase.Track.{phase_index}
use memory_management_phase.Track.Entries.{Added, add_new_alloc_lem}
use memory_management_phase.Alloc.{
  Mapped, randomize_alloc_len, one_of_len, add_pages, mark_node, alloc, record_alloc,
  random_allocator_one, left_of,
}
use memory_management_phase.Alloc.Ratio.{randomize_alloc_type_lem}
use memory_management_phase.Alloc.Length.{IsSized, IsSize, randomize_alloc_len_lem}
use memory_management_phase.Alloc.Mapping.{alloc-IsAlloc}
use memory_management_phase.Valid.{IsValid, IsAllocation, Steps, Steps-trans, Moves, Steps-Moves}
use memory_management_phase.Track.Phases.{phase_index-lt}
use memory_management_phase.Alloc.Outcome.{Outcome, Outcome-trans}
use memory_management_phase.Track.Pages.{all_pages-Added}
use memory_management_phase.Alloc.Growth.{
  IsCounted-Added, IsValid-Grows, Steps-Grows, Added-tracked, UsedUp-mark_node, sizes-mark_node,
  add_pages-total, left_of-lt,
}

module _ (host : Host) (page : host.page_size ≡ 4096) where
  Added-IsValid :
      (type : MemType) (m : Mapped) (p : ℕ) (s t : State)
      → type ≢ type_max
      → p < 60000
      → IsValid s
      → IsAllocation s.mem (record { addr = m.addr; len = m.len; type = type })
      → Added p (record { addr = m.addr; len = m.len; type = type }) s t
      → let u : State = record t {
        stats = add_pages type (m.len / host.page_size) t.stats;
        files = mark_node m.node (pos 1) t.files;
      } in
        IsValid u × Moves s u
  Added-IsValid type m p s t h room v a d =
      let b : State = record s {
        alloc_track = t.alloc_track;
        stats = add_pages type (m.len / host.page_size) s.stats;
        files = mark_node m.node (pos 1) s.files;
      } in
      let e = sizes-mark_node m.node (pos 1) s.files in
      let valid : IsValid b = record {
        tracked = Added-tracked p _ s t d v.tracked a;
        fixed = v.fixed;
        big = rw e v.big;
        speed = rw e v.speed;
        short = rw e v.short;
        cap = v.cap;
        access = v.access;
        total = add_pages-total type (m.len / host.page_size) s.stats h v.total;
        counted = rw page (IsCounted-Added type m.addr m.len p s t room d v.counted);
      } in
      let steps : Moves s b = record {
        config = refl;
        curr = refl;
        in_transition = refl;
        alloc_nomore = refl;
        printed = refl;
        used = UsedUp-mark_node m.node s.files;
        calls = omega arith;
      } in
      rw d.rest (valid, steps)

  record_alloc-Outcome :
      (type : MemType) (cnt : ℕ) (m : Mapped) (p : ℕ) (s : State)
      → type ≢ type_max
      → 0 < cnt
      → cnt < 2 ^ 64
      → IsValid s
      → IsAllocation s.mem (record { addr = m.addr; len = m.len; type = type })
      → phase_index s.curr ≡ some p
      → Ends (λ r t. Outcome p cnt s r t) (record_alloc host type cnt m s)
  unfolding record_alloc
  record_alloc-Outcome type cnt m p s h k l v a at =
      elim (add_new_alloc_lem m.addr m.len type s p at) [
        | inr (_, full) ↦ rw full exits
        | inl (_, t, e, added) ↦
            let (valid, steps) =
              Added-IsValid type m p s t h (phase_index-lt s.curr p at) v a added in
            let pages : 0 < m.len / host.page_size = rw page (omega (arith, a.a_page)) in
            rw e (
              done (
                valid,
                steps,
                inr (record {
                  some_ = h;
                  less = left_of-lt _ _ cnt k l pages;
                  more = added.count;
                  pages = m.len / host.page_size;
                  a_page = pages;
                  grown = rw page (
                      all_pages-Added type m.addr m.len p s t h (phase_index-lt s.curr p at) added);
                  left =
                      ap
                        (λ (u : State).
                          left_of u.config.alloc_precision (m.len / host.page_size) cnt)
                        added.rest;
                }),
              ))
      ]

counted-IsValid :
    (s t : State) (n c : ℕ)
    → t ≡ record s { type_cnt = n; calls = c }
    → s.calls ≤ c
    → IsValid s
    → IsValid t × Steps s t
counted-IsValid s t n c e le v =
    let u : State = record s { type_cnt = n; calls = c } in
    let valid : IsValid u = record {
      tracked = v.tracked;
      fixed = v.fixed;
      big = v.big;
      speed = v.speed;
      short = v.short;
      cap = v.cap;
      access = v.access;
      total = v.total;
      counted = v.counted;
    } in
    let steps : Steps s u = record {
      config = refl;
      curr = refl;
      alloc_track = refl;
      in_transition = refl;
      alloc_nomore = refl;
      printed = refl;
      used = λ u. u;
      calls = le;
    } in
    rw e (valid, steps)

module _ (host : Host) (std : IsHost host) (fair : IsFair host) (page : host.page_size ≡ 4096) where
  allocated-Outcome :
      (type : MemType) (len cnt p i : ℕ) (c : FileClass) (s : State)
      → type ≢ type_max
      → 0 < cnt
      → cnt < 2 ^ 64
      → 4096 ≤ len
      → get_elem? s.files i ≡ some c
      → len ≤ c.size
      → IsValid s
      → phase_index s.curr ≡ some p
      → Ends
          (λ r t. Outcome p cnt s r t)
          ((alloc host type len >>= λ m.
              if m.addr == 0 then ok (type_max, cnt) else record_alloc host type cnt m)
            s)
  allocated-Outcome type len cnt p i c s h k l big class le v at =
      Returns.bind_Ends (alloc-IsAlloc host std type len i c s h v class le big)
        λ m t (grows, outcome).
          let v' = IsValid-Grows grows v in
          let steps = Steps-Grows grows in
          let at' : phase_index t.curr ≡ some p = rw steps.curr at in
          elim outcome [
            | inl (null, used_up) ↦
                let none_ : (m.addr == 0) ≡ true = ground arith in
                rw none_ (
                  done (
                    v',
                    Steps-Moves steps,
                    inl (record {
                      none_ = refl;
                      left = refl;
                      same = steps.alloc_track;
                      used_up = used_up;
                    }),
                  ))
            | inr a ↦
                let some_ : (m.addr == 0) ≡ false = ground (arith, a.nonnull) in
                rw some_ (
                  Returns.mono_Ends (record_alloc-Outcome host page type cnt m p t h k l v' a at')
                    λ r u o. Outcome-trans p cnt s t u r steps o)
          ]

  -- Behind the draw of any length that a class has.
  pub one_of_len-Outcome :
      (draw : Cmd ℕ)
      → ((u : State)
          → IsSized u.config.speed u
          → Returns (λ len w. IsSize u.config.speed u len w) (draw u))
      → (slice : ℤ) (cnt p : ℕ) (s : State) → 0 < cnt
      → cnt < 2 ^ 64
      → IsValid s
      → phase_index s.curr ≡ some p
      → Ends (λ r t. Outcome p cnt s r t) (one_of_len host draw slice cnt s)
  one_of_len-Outcome draw sized slice cnt p s k l v at =
      Returns.bind_Ends
        (Returns.of_Returns
          (randomize_alloc_type_lem host fair (omega (arith, std.rand_max-ge)) slice s))
        λ type t (kind, same, le).
          let h : type ≢ type_max = ground arith in
          let (v', steps) = counted-IsValid s t _ t.calls same le v in
          let z : IsSized t.config.speed t = record {
            big = v'.big;
            last_lt = v'.speed;
            short = v'.short;
          } in
          Returns.bind_Ends (Returns.of_Returns (sized t z))
            λ len u ((i, c, _, class, size, big), same', le').
              let (v'', steps') = counted-IsValid t u t.type_cnt u.calls same' le' v' in
              let steps'' = Steps-trans steps steps' in
              let files : u.files ≡ t.files = ap (λ (w : State). w.files) same' in
              Returns.mono_Ends
                (allocated-Outcome type len cnt p i c u h k l big (rw files class)
                  (omega (arith, size)) v'' (rw steps''.curr at))
                λ r w o. Outcome-trans p cnt s u w r steps'' o

  -- On a host that is as IsHost says, whose generator is fair, and with pages of 4096 bytes: on a
  -- valid state, in a phase of the table, and with *cnt at least 1 and a word,
  -- random_allocator_one returns or ends the process by exit. When it returns the state is valid,
  -- with the same settings and phase; and it returns type_max, a class of files has no free file
  -- left, and *cnt and the tracker are as they were, or it returns file or anon, the phase has one
  -- allocation more, of at least a page, the tracker has its pages more, and *cnt has become less
  -- by these pages, down to 0, if it is precise, and by 1 if not.
  pub random_allocator_one-Outcome :
      (slice : ℤ) (cnt p : ℕ) (s : State)
      → 0 < cnt
      → cnt < 2 ^ 64
      → IsValid s
      → phase_index s.curr ≡ some p
      → Ends (λ r t. Outcome p cnt s r t) (random_allocator_one host slice cnt s)
  unfolding random_allocator_one
  random_allocator_one-Outcome slice cnt p s k l v at =
      one_of_len-Outcome (randomize_alloc_len host) (randomize_alloc_len_lem host) slice cnt p s k l
        v at
