-- ===== src/Pattern/Rand/Bounds.antt =====
-- The random pattern stays inside the allocation.
use native.Mathlib.Nat.{add-zero}
use memory_management_phase.Base.{
  ℕ, zero, suc, ◌+◌, ◌-◌, ◌*◌, ◌/◌, ◌<◌, ◌≤◌, ◌≡◌, refl, ap, ◌∙◌, ◌⊎◌, inl, inr, Bool, true, false,
  arith, ltb, leb, ◌==◌, if◌then◌else◌, Bool-cases,
}
use memory_management_phase.Base.Word.{
  add64, sub64, mul64, add64-eq, sub64-eq, mul64-eq, to_long-eq, to_word-eq,
}
use memory_management_phase.Machine.Host.{Host, IsHost, IsFair}
use memory_management_phase.Machine.State.{State}
use memory_management_phase.Machine.Run.{Cmd, skip, ◌>>◌}
use memory_management_phase.Machine.Returns
use memory_management_phase.Machine.Returns.{Returns, returns}
use memory_management_phase.Random.Laws.{called, rand_lim-lt}
use memory_management_phase.Touch.Frame.{
  IsRegion, Touched, Touched-refl, Touched-trans, IsRegion-Kept, IsRegion-part, offset-eq,
}
use memory_management_phase.Pattern.Sweep.Bytes.{Toggles, Toggles-Kept, in_range, pattern_seq_lem}
use memory_management_phase.Pattern.Rand.{
  page_touches, random_touch_page, pages_touch, random_touch, slices_touch, random_touch_n,
  pattern_rand,
}

Toggles-Touched :
    (base len p n : ℕ) (s t : State)
    → base ≤ p
    → p + n ≤ base + len
    → Toggles (in_range p n) 1 s t
    → Touched base len s t
Toggles-Touched base len p n s t h k g = record {
  kept = Toggles-Kept _ 1 s t g;
  outside = λ q o. ground (arith, g.bytes q);
  fixed = ground (arith, g.rest);
}

called-Touched :
    (base len : ℕ) (s t u : State) → t ≡ called s → Touched base len t u → Touched base len s u
called-Touched base len s t u e h = record {
  kept = record {
    mapping = λ p. ground (arith, h.kept.mapping p);
    rest = ground (arith, h.kept.rest);
    calls = ground (arith, h.kept.calls);
  };
  outside = λ q o. ground (arith, h.outside q o);
  fixed = ground (arith, h.fixed);
}

module _ (host : Host) (fair : IsFair host) (std : IsHost host) (page : host.page_size ≡ 4096)
    (base size : ℕ) where
  -- Touches of [addr, addr + len) inside of the region.
  page_touches-Touched :
      (j addr len : ℕ) (s : State)
      → base ≤ addr
      → addr + len ≤ base + size
      → 20 < len
      → len < 32767
      → IsRegion s.mem base size
      → Returns (λ _ t. Touched base size s t) (page_touches host j addr len s)
  unfolding page_touches
  page_touches-Touched zero addr len s h k l m r = returns (Touched-refl base size s)
  page_touches-Touched (suc j) addr len s h k l m r =
      rw (sub64-eq len 20 (omega arith) (omega arith), to_long-eq (len - 20) (omega arith))
        (Returns.bind
          (rand_lim-lt host fair s (len - 20) (omega arith) (omega (arith, std.rand_max-ge)))
          λ v t ((n, e, lt), same).
            let r' : IsRegion t.mem base size = rw same r in
            let part = IsRegion-part t.mem base size (addr + n) 10 (omega arith) (omega arith) r' in
            rw e (
              rw (to_word-eq n (omega arith), offset-eq addr n (omega (arith, r.fits)))
                (Returns.bind (pattern_seq_lem (addr + n) 10 t part) λ _ u g.
                  let touched =
                    Toggles-Touched base size (addr + n) 10 t u (omega arith) (omega arith) g in
                  let before = called-Touched base size s t u same touched in
                  Returns.mono
                    (page_touches-Touched j addr len u h k l m
                      (IsRegion-Kept base size before.kept r))
                    λ _ w after. Touched-trans before after)))

  random_touch_page-Touched :
      (addr len : ℕ) (s : State)
      → base ≤ addr
      → addr + len ≤ base + size
      → 20 < len
      → len < 32767
      → IsRegion s.mem base size
      → Returns (λ _ t. Touched base size s t) (random_touch_page host addr len s)
  unfolding random_touch_page
  random_touch_page-Touched addr len s h k l m r = page_touches-Touched _ addr len s h k l m r

  -- One round of random_touch, on [start, stop) of the allocation.
  round-Touched :
      (end start stop : ℕ) (rest : Cmd (Unit {0})) (s : State)
      → end ≤ size
      → start + 20 < stop
      → stop < start + 32767
      → IsRegion s.mem base size
      → ((t : State) → IsRegion t.mem base size → Returns (λ _ u. Touched base size t u) (rest t))
      → Returns
          (λ _ t. Touched base size s t)
          ((if leb end stop
              then skip
              else (random_touch_page host (base + start) (stop - start) >> rest))
            s)
  round-Touched end start stop rest s h k l r go = elim (Bool-cases (leb end stop)) [
    | inl out ↦ rw out (returns (Touched-refl base size s))
    | inr inside ↦
        let lt : stop < end = ground arith in
        rw inside (
          Returns.bind
            (random_touch_page-Touched (base + start) (stop - start) s (omega arith) (omega arith)
              (omega arith) (omega arith) r)
            λ _ t before.
              Returns.mono (go t (IsRegion-Kept base size before.kept r))
                λ _ u after. Touched-trans before after)
  ]

  -- The pages of [begin, end) from page i on.
  pages_touch-Touched :
      (begin end pages n i : ℕ) (s : State)
      → begin + 1020 < end
      → end ≤ size
      → (pages ≡ 1) ⊎ (pages * 4096 ≤ end - begin)
      → (pages ≡ 1 → end ≤ begin + 8192)
      → i + n ≤ pages
      → IsRegion s.mem base size
      → Returns (λ _ t. Touched base size s t) (pages_touch host base begin end pages n i s)
  unfolding pages_touch
  pages_touch-Touched begin end pages zero i s h k l o m r = returns (Touched-refl base size s)
  pages_touch-Touched begin end pages (suc n) i s h k l o m r = elim (Bool-cases (ltb 1 pages)) [
    | inl many ↦
        let loop : mul64 host.page_size i ≡ 4096 * i =
          rw page (mul64-eq 4096 i (ground (arith, r.fits))) in
        let start : add64 begin (4096 * i) ≡ begin + 4096 * i =
          add64-eq begin (4096 * i) (ground (arith, r.fits)) in
        let stop : add64 host.page_size (begin + 4096 * i) ≡ 4096 + (begin + 4096 * i) =
          rw page (add64-eq 4096 (begin + 4096 * i) (ground (arith, r.fits))) in
        let len : sub64 (4096 + (begin + 4096 * i)) (begin + 4096 * i)
            ≡ 4096 + (begin + 4096 * i) - (begin + 4096 * i) =
          sub64-eq _ _ (omega arith) (ground (arith, r.fits)) in
        let next : add64 i 1 ≡ i + 1 = add64-eq i 1 (ground (arith, r.fits)) in
        let place = offset-eq base (begin + 4096 * i) (ground (arith, r.fits)) in
        rw many (
          rw loop (
            rw start (
              rw stop (
                rw (len, next, place)
                  (round-Touched end (begin + 4096 * i) (4096 + (begin + 4096 * i))
                    (pages_touch host base begin end pages n (i + 1)) s k (omega arith)
                    (omega arith) r
                    λ t r'.
                      pages_touch-Touched begin end pages n (i + 1) t h k l o (omega arith) r')))))
    | inr single ↦
        let one : pages ≡ 1 = ground arith in
        let start : add64 begin 0 ≡ begin =
          add64-eq begin 0 (omega (arith, r.fits)) ∙ add-zero begin in
        let stop = sub64-eq end 1000 (omega arith) (omega (arith, r.fits)) in
        let len = sub64-eq (end - 1000) begin (omega arith) (omega (arith, r.fits)) in
        let next : add64 i 1 ≡ i + 1 = add64-eq i 1 (omega arith) in
        let place = offset-eq base begin (omega (arith, r.fits)) in
        rw single (
          rw (start, stop)
            (rw (len, next, place)
              (round-Touched end begin (end - 1000)
                (pages_touch host base begin end pages n (i + 1)) s k (omega arith)
                (omega (arith, o one)) r
                λ t r'. pages_touch-Touched begin end pages n (i + 1) t h k l o (omega arith) r')))
  ]

  random_touch-Touched :
      (begin end : ℕ) (s : State)
      → begin + 1020 < end
      → end ≤ size
      → IsRegion s.mem base size
      → Returns (λ _ t. Touched base size s t) (random_touch host base begin end s)
  unfolding random_touch
  random_touch-Touched begin end s h k r =
      let len : sub64 end begin ≡ end - begin =
        sub64-eq end begin (omega arith) (omega (arith, r.fits)) in
      let some_len : ((end - begin) == 0) ≡ false = ground arith in
      let n = (end - begin) / 4096 in
      let cut : (end - begin) / host.page_size ≡ n = ap (λ k. (end - begin) / k) page in
      rw (len, cut)
        (rw some_len (elim (Bool-cases (n == 0)) [
          | inl none_whole ↦ rw none_whole (
              pages_touch-Touched begin end 1 1 0 s h k (inl refl) (λ _. ground arith) (omega arith)
                r)
          | inr whole ↦ rw whole (
              pages_touch-Touched begin end n n 0 s h k (inr (omega arith)) (λ e. omega arith)
                (omega arith) r)
        ]))

  slices_touch-Touched :
      (n : ℕ) (which_slice : Bool) (s : State)
      → 4096 ≤ size
      → IsRegion s.mem base size
      → Returns (λ _ t. Touched base size s t) (slices_touch host n which_slice base size s)
  unfolding slices_touch
  slices_touch-Touched zero which_slice s h r = returns (Touched-refl base size s)
  slices_touch-Touched (suc n) true s h r =
      Returns.bind (random_touch-Touched (size / 2) size s (omega arith) (omega arith) r)
        λ _ t before.
          Returns.mono (slices_touch-Touched n false t h (IsRegion-Kept base size before.kept r))
            λ _ u after. Touched-trans before after
  slices_touch-Touched (suc n) false s h r =
      Returns.bind (random_touch-Touched 0 (size / 2) s (omega arith) (omega arith) r) λ _ t before.
        Returns.mono (slices_touch-Touched n true t h (IsRegion-Kept base size before.kept r))
          λ _ u after. Touched-trans before after

  -- On a host with pages of 4096 bytes whose generator is fair, pattern_rand over a mapped
  -- allocation of at least one page returns; it has changed no byte outside of the allocation, no
  -- mapping and no variable of the program.
  pub pattern_rand_lem :
      (s : State)
      → 4096 ≤ size
      → IsRegion s.mem base size
      → Returns (λ _ t. Touched base size s t) (pattern_rand host base size s)
  unfolding pattern_rand random_touch_n
  pattern_rand_lem s h r = slices_touch-Touched _ false s h r
