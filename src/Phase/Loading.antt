-- ===== src/Phase/Loading.antt =====
-- The loop of trans_rand_alloc spends its count.
use memory_management_phase.Base.{
  ℕ, zero, suc, ◌-◌, ◌^◌, ◌<◌, ◌≤◌, ◌≡◌, refl, Bool, true, some, arith, ◌==◌, Bool-cases, inl, inr,
}
use memory_management_phase.Base.Int.{ℤ}
use memory_management_phase.Base.Word.{sub64-eq}
use memory_management_phase.Machine.Host.{Host, IsHost, IsFair}
use memory_management_phase.Machine.State.{State, MemType, file, anon, type_max}
use memory_management_phase.Machine.Run.{Cmd, ◌>>◌}
use memory_management_phase.Machine.Returns
use memory_management_phase.Machine.Returns.{Returns, returns, Ends, done, exits}
use memory_management_phase.Track.{phase_index}
use memory_management_phase.Alloc.Outcome.{Allocated, Outcome}
use memory_management_phase.Alloc.One.{random_allocator_one-Outcome}
use memory_management_phase.Phase.Spent.{Spent, Spent-nothing, Spent-same, Spent-Failed, Spent-more}
use memory_management_phase.Phase.{loop_n, after_alloc, next_slice, trans_loop}
use memory_management_phase.Phase.Holding.{loop_n-Safe}
use memory_management_phase.Valid.{IsValid, Moves, Moves-trans, Steps-Moves, Steps-refl}

-- The count n has been spent in phase p.
abbrev pub Loaded : Bool → (p n : ℕ) → State → State → Type 0
Loaded precise p n s t = IsValid t × Moves s t × Spent precise p n s t

module _ (host : Host) (std : IsHost host) (fair : IsFair host) (page : host.page_size ≡ 4096)
    (precise : Bool) where
  -- In the loop, in phase p.
  abbrev Looping : (p : ℕ) → State → Type 0
  Looping p s = IsValid s × (phase_index s.curr ≡ some p) × (s.config.alloc_precision ≡ precise)

  -- The rounds over the last allocation, and the rest of the loop.
  touched-Loaded :
      (i p cnt : ℕ) (r : MemType × ℕ) (next : Cmd (Unit {0})) (s t : State)
      → Looping p s
      → IsValid t
      → Moves s t
      → Allocated p cnt s r t
      → 0 < cnt
      → cnt < 2 ^ 64
      → ((u : State) → Looping p u → Ends (λ _ w. Loaded precise p r.1 u w) (next u))
      → Ends (λ _ w. Loaded precise p cnt s w) ((loop_n host i >> next) t)
  touched-Loaded i p cnt r next s t (_, at, how) v st a pos_cnt word go =
      Returns.bind_Ends (loop_n-Safe host std fair page i p t v (rw st.curr at)) λ _ u (v', st').
        let so_far = Moves-trans st (Steps-Moves st') in
        Returns.mono_Ends (go u (v', rw so_far.curr at, rw so_far.config how)) λ _ w (v'', st'', x).
          (
            v'',
            Moves-trans so_far st'',
            Spent-more precise p cnt s t w r pos_cnt word how a
                (Spent-same precise p r.1 t u w w st'.alloc_track refl (λ z. z) x),
          )

  after_alloc-Loaded :
      (fuel i p cnt : ℕ) (slice : ℤ) (r : MemType × ℕ) (s t : State)
      → ((slice' : ℤ) (cnt' : ℕ) (u : State)
          → cnt' ≤ fuel
          → cnt' < 2 ^ 64
          → Looping p u
          → Ends (λ _ w. Loaded precise p cnt' u w) (trans_loop host fuel i slice' cnt' u))
      → 0 < cnt
      → cnt ≤ suc fuel
      → cnt < 2 ^ 64
      → Looping p s
      → Outcome p cnt s r t
      → Ends
          (λ _ w. Loaded precise p cnt s w)
          (after_alloc host i (trans_loop host fuel i) slice r.0 r.1 t)
  after_alloc-Loaded fuel i p cnt slice (type_max, c) s t go pos_cnt le word (_, at, how)
        (v, st, inl f) =
      let e : c ≡ cnt = f.left in
      let less = sub64-eq c 1 (omega arith) (omega arith) in
      rw less (
        Returns.mono_Ends
          (go slice (c - 1) t (omega arith) (omega arith) (v, rw st.curr at, rw st.config how))
          λ _ w (v', st', x). (
            v',
            Moves-trans st st',
            Spent-Failed precise p (c - 1) cnt s t w (type_max, c) (omega arith) f st'.used x,
          ))
  after_alloc-Loaded fuel i p cnt slice (type_max, c) s t go pos_cnt le word l (v, st, inr a) =
      absurd (a.some_ refl)
  after_alloc-Loaded fuel i p cnt slice (file, c) s t go pos_cnt le word l (v, st, inl f) =
      absurd (ground (arith, f.none_))
  after_alloc-Loaded fuel i p cnt slice (anon, c) s t go pos_cnt le word l (v, st, inl f) =
      absurd (ground (arith, f.none_))
  after_alloc-Loaded fuel i p cnt slice (file, c) s t go pos_cnt le word l (v, st, inr a) =
      touched-Loaded i p cnt (file, c) _ s t l v st a pos_cnt word
        λ u l'. go (next_slice file slice) c u (omega (arith, a.less)) (omega (arith, a.less)) l'
  after_alloc-Loaded fuel i p cnt slice (anon, c) s t go pos_cnt le word l (v, st, inr a) =
      touched-Loaded i p cnt (anon, c) _ s t l v st a pos_cnt word
        λ u l'. go (next_slice anon slice) c u (omega (arith, a.less)) (omega (arith, a.less)) l'

  pub trans_loop-Loaded :
      (fuel i p : ℕ) (slice : ℤ) (cnt : ℕ) (s : State)
      → cnt ≤ fuel
      → cnt < 2 ^ 64
      → Looping p s
      → Ends (λ _ t. Loaded precise p cnt s t) (trans_loop host fuel i slice cnt s)
  unfolding trans_loop
  trans_loop-Loaded zero i p slice cnt s le word (v, at, how) =
      let none_left : (cnt == 0) ≡ true = ground arith in
      rw none_left
        (done (v, Steps-Moves (Steps-refl s), Spent-nothing precise p cnt s (omega arith)))
  trans_loop-Loaded (suc fuel) i p slice cnt s le word (v, at, how) = elim (Bool-cases (cnt == 0)) [
    | inl none_left ↦
        rw none_left
          (done (v, Steps-Moves (Steps-refl s), Spent-nothing precise p cnt s (ground arith)))
    | inr some_left ↦
        let pos_cnt : 0 < cnt = ground arith in
        rw some_left (
          Returns.bind_Ends
            (random_allocator_one-Outcome host std fair page slice cnt p s pos_cnt word v at)
            λ r t o.
              after_alloc-Loaded fuel i p cnt slice r s t
                (λ slice' cnt' u le' word' l. trans_loop-Loaded fuel i p slice' cnt' u le' word' l)
                pos_cnt le word (v, at, how) o)
  ]
