-- ===== src/Phase/Transition.antt =====
-- The transition ends, and keeps the invariant.
use memory_management_phase.Base.{
  ap, ℕ, ◌^◌, ◌<◌, ◌≤◌, ◌≡◌, refl, ◌∙◌, Bool, true, false, some, arith, inl, inr, ◌⊎◌,
}
use memory_management_phase.Base.Int.{ℤ, pos, pos_part, ◌+ℤ◌}
use memory_management_phase.Machine.Host.{Host, IsHost, IsFair}
use memory_management_phase.Machine.State.{Config, State}
use memory_management_phase.Machine.Returns
use memory_management_phase.Machine.Returns.{Returns, returns, Ends, done, exits}
use memory_management_phase.Random.Laws.{called, rand_lim-lt, rand_intr_bounds}
use memory_management_phase.Track.{phase_index}
use memory_management_phase.Track.Phases.{go_to_nxt_phase-ok}
use memory_management_phase.Alloc.{randomize_alloc_count}
use memory_management_phase.Phase.{transition, trans_rand_alloc}
use memory_management_phase.Phase.Spent.{Spent-same}
use memory_management_phase.Phase.Load.{Gobbles, Gobbles-same}
use memory_management_phase.Phase.Loading.{trans_loop-Loaded}
use memory_management_phase.Phase.Holding.{Safe}
use memory_management_phase.Valid.{IsValid, Steps-refl}

-- The count of randomize_alloc_count: the number of pages that was asked for, or from 5 to 18
-- allocations.
pub IsCount : State → ℕ → State → Type 0
IsCount s cnt t =
    (cnt < 2 ^ 64)
    × (s.config.alloc_precision ≡ true → cnt ≡ s.config.max_alloc_per_phase)
    × (s.config.alloc_precision ≡ false → (5 ≤ cnt) × (cnt ≤ 18))
    × ((t ≡ s) ⊎ (t ≡ called s))

pub flagged-IsValid :
    (b : Bool) (c : ℤ) (s : State) → IsValid s → IsValid (record s { in_transition = b; curr = c })
flagged-IsValid b c s v = record {
  tracked = v.tracked;
  fixed = v.fixed;
  big = v.big;
  speed = v.speed;
  short = v.short;
  cap = v.cap;
  access = v.access;
  total = v.total;
  counted = v.counted;
}

called-Safe : (s t : State) → (t ≡ s) ⊎ (t ≡ called s) → IsValid s → Safe s t
called-Safe s t (inl e) v = rw e (v, Steps-refl s)
called-Safe s t (inr e) v = rw e (
  record {
    tracked = v.tracked;
    fixed = v.fixed;
    big = v.big;
    speed = v.speed;
    short = v.short;
    cap = v.cap;
    access = v.access;
    total = v.total;
    counted = v.counted;
  },
  record {
    config = refl;
    curr = refl;
    alloc_track = refl;
    in_transition = refl;
    alloc_nomore = refl;
    printed = refl;
    used = λ u. u;
    calls = omega arith;
  },
)

-- What a transition to phase q leaves: a valid state with the same settings and output, no longer in
-- transition; and the count, the one that was asked for or from 5 to 18, has been spent in phase q.
-- `curr` is the phase that the transition is in.
pub record Transited (q : ℕ) (curr : ℤ) (s t : State) : Type 0 where
  pub valid : IsValid t
  pub config : t.config ≡ s.config
  pub curr_eq : t.curr ≡ curr
  pub in_transition : t.in_transition ≡ false
  pub alloc_nomore : t.alloc_nomore ≡ s.alloc_nomore
  pub printed : t.printed ≡ s.printed
  pub calls : s.calls ≤ t.calls
  pub gobbles : Gobbles q s t

module _ (host : Host) (std : IsHost host) (fair : IsFair host) (page : host.page_size ≡ 4096) where
  randomize_alloc_count-IsCount :
      (b : Bool) (s : State)
      → s.config.alloc_precision ≡ b
      → s.config.max_alloc_per_phase < 2 ^ 64
      → Returns (λ cnt t. IsCount s cnt t) (randomize_alloc_count host b s)
  unfolding randomize_alloc_count IsCount
  randomize_alloc_count-IsCount true s e word =
      returns (word, λ _. refl, λ f. ground arith, inl refl)
  randomize_alloc_count-IsCount false s e word =
      Returns.mono (rand_intr_bounds host s 5 18 (omega arith) (omega arith) (omega arith))
        λ v t (low, high, same). (omega arith, λ f. ground arith, λ _. (low, high), inr same)

  -- Behind the choice of the number of rounds over the last allocation.
  transition-Transited :
      (i q : ℕ) (s : State)
      → IsValid s
      → s.config.max_alloc_per_phase < 2 ^ 64
      → phase_index s.curr ≡ some q
      → Ends (λ v t. (v ≡ pos 0) × Transited q s.curr s t) (transition host i s)
  unfolding transition IsCount
  transition-Transited i q s v word at =
      Returns.bind_Ends
        (Returns.of_Returns (randomize_alloc_count-IsCount s.config.alloc_precision s refl word))
        λ cnt t (bound, exact, drawn, how).
          let (v', st) = called-Safe s t how v in
          let begin : State = record t { in_transition = true; curr = t.curr } in
          Returns.bind_Ends
            (trans_loop-Loaded host std fair page s.config.alloc_precision cnt i q _ cnt begin
              (omega arith) bound
              (
                flagged-IsValid true t.curr t v',
                rw st.curr at,
                ap (λ (c : Config). c.alloc_precision) st.config,
              ))
            λ _ u (v'', st', spent). done (
              refl,
              record {
                valid = flagged-IsValid false u.curr u v'';
                config = st'.config ∙ st.config;
                curr_eq = st'.curr ∙ st.curr;
                in_transition = refl;
                alloc_nomore = st'.alloc_nomore ∙ st.alloc_nomore;
                printed = st'.printed ∙ st.printed;
                calls = omega (arith, st.calls, st'.calls);
                gobbles = record {
                  cnt = cnt;
                  exact = exact;
                  drawn = drawn;
                  spent =
                      Spent-same s.config.alloc_precision q cnt s begin u _ st.alloc_track refl
                        (λ z. z) spent;
                  used = λ z. st'.used (st.used z);
                };
              },
            )

  -- On a host that is as IsHost says, whose generator is fair, and with pages of 4096 bytes: on a
  -- valid state whose next phase is one of the table, with a count of pages that is a word,
  -- trans_rand_alloc returns 0 or ends the process by exit, within the rounds that it is given.
  -- When it returns the state is valid, in the next phase, with the same settings, no longer in
  -- transition, with alloc_nomore and what main has printed as they were, and it has spent its
  -- count, which is max_alloc_per_phase if it is precise, and from 5 to 18 if not: the next phase
  -- has at most as many allocations more; and unless a class of files has no free file left, the
  -- pages of the tracker have grown by at least the count, and the allocations of the phase by
  -- just the count, if it is not precise.
  pub trans_rand_alloc_lem :
      (q : ℕ) (s : State)
      → IsValid s
      → s.config.max_alloc_per_phase < 2 ^ 64
      → phase_index (s.curr +ℤ pos 1) ≡ some q
      → Ends (λ v t. (v ≡ pos 0) × Transited q (s.curr +ℤ pos 1) s t) (trans_rand_alloc host s)
  unfolding trans_rand_alloc
  trans_rand_alloc_lem q s v word at =
      Returns.bind_Ends
        (Returns.of_Returns
          (rand_lim-lt host fair s 3 (omega arith) (omega (arith, std.rand_max-ge))))
        λ i t (_, same).
          let u : State = record (called s) { curr = s.curr +ℤ pos 1 } in
          let v' =
            flagged-IsValid s.in_transition (s.curr +ℤ pos 1) (called s)
              (called-Safe s (called s) (inr refl) v).0 in
          rw same (
            rw (go_to_nxt_phase-ok q (called s) at) (
              Returns.mono_Ends (transition-Transited (pos_part i) q u v' word at) λ z w (zero_, x).
                (
                  zero_,
                  record {
                    valid = x.valid;
                    config = x.config;
                    curr_eq = x.curr_eq;
                    in_transition = x.in_transition;
                    alloc_nomore = x.alloc_nomore;
                    printed = x.printed;
                    calls = omega (arith, x.calls);
                    gobbles = Gobbles-same q s u w w refl refl (λ z. z) refl (λ z. z) x.gobbles;
                  },
                )))
