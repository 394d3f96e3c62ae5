-- ===== src/Precise/Alloc/Transition.antt =====
-- The transition of alloc_manager.c, and the touch of the allocation that it makes.
use memory_management_phase.Base.{ℕ, ◌+◌, ◌/◌, ◌<◌, ◌≤◌, ◌≡◌, refl, ap, ◌⊎◌, inl, inr, some, arith}
use memory_management_phase.Base.Int.{pos, negsuc, ◌+ℤ◌}
use memory_management_phase.Machine.Host.{Host, IsHost, IsFair}
use memory_management_phase.Machine.State.{State, MemType, file, anon, type_max}
use memory_management_phase.Machine.Run.{ok, ◌>>=◌}
use memory_management_phase.Machine.Returns
use memory_management_phase.Machine.Returns.{Returns, Ends, done, exits}
use memory_management_phase.Touch.Frame.{IsRegion-part, offset-eq}
use memory_management_phase.Track.{phase_index, current}
use memory_management_phase.Track.Pages.{all_pages}
use memory_management_phase.Track.Phases.{go_to_nxt_phase-ok}
use memory_management_phase.Alloc
use memory_management_phase.Alloc.Length.{len_within-IsSize}
use memory_management_phase.Alloc.One.{one_of_len-Outcome}
use memory_management_phase.Phase.Holding.{Safe, Kept-Safe}
use memory_management_phase.Phase.Transition.{flagged-IsValid}
use memory_management_phase.Valid.{IsValid, Moves}
use memory_management_phase.Precise.Modules.{Modules, IsModules}
use memory_management_phase.Precise.Alloc.{
  max_limit, randomize_alloc_len, check_type, random_allocator_one, trans_rand_alloc, touch_once_at,
  touch_once_curr,
}
use memory_management_phase.Precise.Alloc.Same.{one_of_len-eq}

-- What one allocation in phase p leaves.
abbrev pub OneMore : ℕ → State → MemType → State → Type 0
OneMore p s type t =
    IsValid t
    × Moves s t
    × ((type ≡ type_max)
        ⊎ (((t.alloc_track p).list_count ≡ (s.alloc_track p).list_count + 1)
            × (all_pages s.alloc_track < all_pages t.alloc_track)))

-- The state behind a transition to phase q: valid, in that phase, with the same settings, and with
-- one allocation more in the phase, of at least a page.
pub record Moved (q : ℕ) (s t : State) : Type 0 where
  pub valid : IsValid t
  pub config : t.config ≡ s.config
  pub curr : t.curr ≡ s.curr +ℤ pos 1
  pub printed : t.printed ≡ s.printed
  pub count : (t.alloc_track q).list_count ≡ (s.alloc_track q).list_count + 1
  pub pages : all_pages s.alloc_track < all_pages t.alloc_track
  pub calls : s.calls ≤ t.calls

module _ (host : Host) (std : IsHost host) (fair : IsFair host) (page : host.page_size ≡ 4096)
    (m : Modules) (law : IsModules m) where
  one-OneMore :
      (p : ℕ) (s : State)
      → IsValid s
      → phase_index s.curr ≡ some p
      → Ends (λ type t. OneMore p s type t) (random_allocator_one host m s)
  one-OneMore p s v at =
      let both : Ends (λ type t. OneMore p s type t)
          ((Alloc.one_of_len host (randomize_alloc_len host) (negsuc 0) 1 >>= λ r. ok r.0) s) =
        Returns.bind_Ends
          (one_of_len-Outcome host std fair page (randomize_alloc_len host)
            (len_within-IsSize host max_limit) (negsuc 0) 1 p s (omega arith) (omega arith) v at)
          λ r t (valid, steps, how). done (
            valid,
            steps,
            elim how [
              | inl f ↦ inl f.none_
              | inr a ↦ inr (a.more, omega (arith, a.grown, a.a_page))
            ],
          ) in
      rw (one_of_len-eq host m law 1 s) at both

  checked :
      (q : ℕ) (s t : State) (type : MemType)
      → OneMore q (record s { curr = s.curr +ℤ pos 1 }) type t
      → Ends (λ w x. (w ≡ pos 0) × Moved q s x) ((check_type host m type >>= λ _. ok (pos 0)) t)
  checked q s t type_max o = exits
  checked q s t file (v, st, inr (more, pages)) = done (
    refl,
    record {
      valid = v;
      config = st.config;
      curr = st.curr;
      printed = st.printed;
      count = more;
      pages = pages;
      calls = st.calls;
    },
  )
  checked q s t anon (v, st, inr (more, pages)) = done (
    refl,
    record {
      valid = v;
      config = st.config;
      curr = st.curr;
      printed = st.printed;
      count = more;
      pages = pages;
      calls = st.calls;
    },
  )
  checked q s t file (v, st, inl e) = absurd (ground arith)
  checked q s t anon (v, st, inl e) = absurd (ground arith)

  pub trans_rand_alloc-Moved :
      (q : ℕ) (s : State)
      → IsValid s
      → phase_index (s.curr +ℤ pos 1) ≡ some q
      → Ends (λ v t. (v ≡ pos 0) × Moved q s t) (trans_rand_alloc host m s)
  unfolding trans_rand_alloc
  trans_rand_alloc-Moved q s v at =
      let u : State = record s { curr = s.curr +ℤ pos 1 } in
      let v' = flagged-IsValid s.in_transition (s.curr +ℤ pos 1) s v in
      rw (go_to_nxt_phase-ok q s at)
        (Returns.bind_Ends (one-OneMore q u v' at) λ type t o. checked q s t type o)

  touch_once_at-Safe :
      (p : ℕ) (s : State)
      → IsValid s
      → 0 < (s.alloc_track p).list_count
      → Returns (λ _ t. Safe s t × (t.alloc_track ≡ s.alloc_track)) (touch_once_at host m p s)
  unfolding touch_once_at
  touch_once_at-Safe p s v some_alloc =
      let a = (s.alloc_track p).lst 0 in
      let al = v.tracked p 0 some_alloc in
      let half = a.len / 2 in
      let part =
        IsRegion-part s.mem a.addr a.len (a.addr + half) half (omega arith) (omega arith)
          al.region in
      rw (touch_once_at, offset-eq a.addr half (omega (arith, al.region.fits, al.a_page)))
        (Returns.mono
          (law.fix-Kept (a.addr + half) half s (omega (arith, al.nonnull))
            (omega (arith, al.a_page)) part v.fixed)
          λ _ t (k, f). (Kept-Safe v k f, ap (λ (x : State). x.alloc_track) k.rest))

  -- With modules that are as IsModules says: on a valid state, in a phase of the table with an
  -- allocation, touch_once_curr returns, in a valid state with the same settings, phase and tracker.
  pub touch_once_curr-Safe :
      (p : ℕ) (s : State)
      → IsValid s
      → phase_index s.curr ≡ some p
      → 0 < (s.alloc_track p).list_count
      → Returns (λ _ t. Safe s t × (t.alloc_track ≡ s.alloc_track)) (touch_once_curr host m s)
  unfolding touch_once_curr current
  touch_once_curr-Safe p s v at some_alloc = rw at (touch_once_at-Safe p s v some_alloc)
