-- ===== src/Phase.antt =====
-- A job of mem_gobbler.c, which is a phase: the transition, in which memory is allocated, and the
-- holding time, in which it is touched. A time that is held in a double is a number of thousandths
-- of the unit: the readings of the clocks are whole units.
pub mod Holding
pub mod Spent
pub mod Load
pub mod Loading
pub mod Transition
pub mod Timely
pub mod Hold
pub mod Job
use memory_management_phase.Base.{
  ℕ, zero, suc, ◌+◌, ◌-◌, ◌*◌, ◌/◌, ◌%◌, ◌^◌, Bool, true, false, not, List, [], ◌∷◌, ◌==◌, ltb,
  if◌then◌else◌,
}
use memory_management_phase.Base.Int.{ℤ, pos, negsuc, pos_part, ◌+ℤ◌, ◌-ℤ◌, ltb_ℤ, leb_ℤ, is_zero_ℤ}
use memory_management_phase.Base.Word.{add64, sub64}
use memory_management_phase.Machine.Host.{Host}
use memory_management_phase.Machine.State.{State, Granularity, MemType, file, anon, type_max, Stats}
use memory_management_phase.Machine.Run.{Cmd, ok, out_of_fuel, skip, get, modify, ◌>>=◌, ◌>>◌}
use memory_management_phase.Clock.{cputime, wctime}
use memory_management_phase.Random.{rand_lim}
use memory_management_phase.Pattern.{access}
use memory_management_phase.Track.{go_to_nxt_phase, current}
use memory_management_phase.Alloc.{randomize_alloc_count, random_allocator_one, file_ratio}

-- alloc_track[curr].list_count
unfoldable pub list_count : Cmd ℕ
list_count = current (λ p s. ok (s.alloc_track p).list_count s)

-- The slice after an allocation of the type.
abbrev pub next_slice : MemType → ℤ → ℤ
next_slice file slice = slice
next_slice _ slice = slice -ℤ pos 1

-- The for loop of loop_once over `num`, from the sum j on; the entries and the sum are ints.
unfoldable pub sum_and_count : List ℕ → ℕ → ℕ × List ℕ
sum_and_count [] j = (j, [])
sum_and_count (n ∷ ns) j =
    let (j', ns') = sum_and_count ns ((j + n) % 2 ^ 32) in (j', ((n + 1) % 2 ^ 32) ∷ ns')

-- loop_once, with whether end <= 0
unfoldable pub loop_once : Bool → Cmd ℕ
loop_once true s = ok 0 s
loop_once false s = let (j, num) = sum_and_count s.num 0 in ok j (record s { num = num })

abbrev pub count_phase : Stats → Stats
count_phase st = record st { phase_cnt = add64 st.phase_cnt 1 }

module _ (host : Host) where
  unfoldable pub touch_at : (i p : ℕ) → Cmd (Unit {0})
  touch_at i p s =
      let l = s.alloc_track p in
      let a = l.lst i in
      if ltb i l.list_count then access host s.config.access_type a.addr a.len s else ok tt s

  unfoldable pub touch : ℕ → Cmd (Unit {0})
  touch i s = if leb_ℤ (pos 0) s.curr then current (touch_at i) s else ok tt s

  unfoldable pub loop_n : ℕ → Cmd (Unit {0})
  loop_n zero = skip
  loop_n (suc n) = do cnt ← list_count; touch (sub64 cnt 1); loop_n n

  -- One round of trans_rand_alloc behind random_allocator_one; `next` is the rest of the loop.
  abbrev pub after_alloc :
      (i : ℕ) → (next : ℤ → ℕ → Cmd (Unit {0})) → ℤ → MemType → ℕ → Cmd (Unit {0})
  after_alloc i next slice type_max cnt = next slice (sub64 cnt 1)
  after_alloc i next slice file cnt = loop_n i >> next (next_slice file slice) cnt
  after_alloc i next slice anon cnt = loop_n i >> next (next_slice anon slice) cnt

  -- The while loop of trans_rand_alloc, for `fuel` rounds at most.
  unfoldable pub trans_loop : (fuel i : ℕ) → ℤ → ℕ → Cmd (Unit {0})
  trans_loop zero i slice cnt = if cnt == 0 then skip else out_of_fuel
  trans_loop (suc fuel) i slice cnt =
      let round = (do
        r ← random_allocator_one host slice cnt
        after_alloc i (trans_loop fuel i) slice r.0 r.1) in
      if cnt == 0 then skip else round

  -- trans_rand_alloc in the new phase, with i rounds over the last allocation. The count falls in
  -- every round of the loop, so `cnt` rounds are enough.
  unfoldable pub transition : ℕ → Cmd ℤ
  transition i = do
    precise ← get (λ s. s.config.alloc_precision)
    cnt ← randomize_alloc_count host precise
    let slice : ℤ = if precise then negsuc 0 else pos (cnt / file_ratio)
    modify (λ s. record s { in_transition = true })
    trans_loop cnt i slice cnt
    modify (λ s. record s { in_transition = false })
    ok (pos 0)

  -- rand_lim(3) is not negative.
  unfoldable pub trans_rand_alloc : Cmd ℤ
  trans_rand_alloc = do i ← rand_lim host (pos 3); go_to_nxt_phase; transition (pos_part i)

  -- The body of the loop of loop_for before the clock is read: the next index.
  unfoldable pub hold_touch : ℕ → Cmd ℕ
  hold_touch zero = list_count
  hold_touch (suc i) = touch i >> ok i

  -- The loop of loop_for, for `fuel` rounds at most.
  unfoldable pub hold_loop :
      (fuel : ℕ) → Granularity → (exec_time : ℤ) → (now : ℕ) → (run : ℤ) → (i tmp : ℕ) → Cmd ℕ
  hold_loop zero t exec_time now run i tmp = if ltb_ℤ run exec_time then out_of_fuel else ok tmp
  hold_loop (suc fuel) t exec_time now run i tmp =
      let round = (do
        i' ← hold_touch i
        j ← loop_once (leb_ℤ exec_time run)
        now' ← cputime host t
        let run' = run +ℤ (pos (1000 * now') -ℤ pos (1000 * now))
        hold_loop fuel t exec_time now' run' i' ((tmp + j) % 2 ^ 32)) in
      if ltb_ℤ run exec_time then round else ok tmp

  unfoldable pub loop_for : ℤ → Granularity → Cmd ℕ
  loop_for exec_time t = do
    now ← cputime host t
    i ← list_count
    hold_loop host.ticks t exec_time now (pos 0) i 0

  -- Behind the transition.
  unfoldable pub hold : ℤ → Granularity → Cmd ℤ
  hold exec_time t = do
    list_count
    loop_for exec_time t
    modify (λ s. record s { stats = count_phase s.stats })
    ok (pos 1)

  unfoldable pub job : ℤ → Granularity → Cmd ℤ
  job exec_time t = do
    begin ← wctime host t
    now ← wctime host t
    if ltb_ℤ (host.add_double (pos (1000 * begin)) exec_time) (pos (1000 * now))
        then (wctime host t >> ok (pos 1))
        else do
          nomore ← get (λ s. s.alloc_nomore)
          if nomore then hold exec_time t else do
            failed ← trans_rand_alloc
            if is_zero_ℤ failed then hold exec_time t else ok (pos 0)
