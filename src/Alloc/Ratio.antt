-- ===== src/Alloc/Ratio.antt =====
-- How many anonymous mappings randomize_alloc_type asks for.
use memory_management_phase.Base.{
  ℕ, zero, suc, ◌+◌, ◌-◌, ◌/◌, ◌%◌, ◌^◌, ◌<◌, ◌≤◌, ◌≡◌, ◌≢◌, refl, true, false, arith, inl, inr,
  ◌⊎◌,
}
use memory_management_phase.Base.Int.{ℤ, pos, negsuc, ltb_ℤ, is_zero_ℤ}
use memory_management_phase.Machine.Host.{Host, IsFair}
use memory_management_phase.Machine.State.{State, MemType, file, anon}
use memory_management_phase.Machine.Run.{Cmd, ok, ◌>>=◌}
use memory_management_phase.Machine.Returns
use memory_management_phase.Machine.Returns.{Returns, returns}
use memory_management_phase.Random.Laws.{rand_lim-lt}
use memory_management_phase.Alloc.{ratio_type, randomize_alloc_type, mem_type}

abbrev pub is_anon : MemType → ℕ
is_anon anon = 1
is_anon _ = 0

ratio_type-anon : (n : ℕ) → (n - 1) / 4 + is_anon (ratio_type n) ≡ (suc n - 1) / 4
unfolding ratio_type
ratio_type-anon n = ground arith

drawn_type :
    (k n : ℕ)
    → k < 2
    → (mem_type (pos k) ≡ file) ⊎ ((mem_type (pos k) ≡ anon) × (pos (suc n) ≢ pos 0))
drawn_type zero n h = inl refl
drawn_type (suc zero) n h = inr (refl, λ e. ground arith)
drawn_type (suc (suc k)) n h = absurd (omega arith)

module _ (host : Host) where
  -- n calls with the same slice, and how many of them give anon.
  pub anons : ℤ → ℕ → Cmd ℕ
  anons slice zero = ok 0
  anons slice (suc n) = do
    a ← anons slice n
    type ← randomize_alloc_type host slice
    ok (a + is_anon type)

  -- Among the first n calls of randomize_alloc_type, at most 2 ^ 31, all with the same negative
  -- slice, exactly (n - 1) / 4 give anon, where n - 1 is 0 for n = 0; each call counts, and
  -- nothing else changes.
  pub randomize_alloc_type_ratio :
      (k n : ℕ) (s : State)
      → n ≤ 2 ^ 31
      → s.type_cnt ≡ 0
      → anons (negsuc k) n s ≡ ok ((n - 1) / 4) (record s { type_cnt = n })
  unfolding anons randomize_alloc_type
  randomize_alloc_type_ratio k zero s m h = ground arith
  randomize_alloc_type_ratio k (suc n) s m h =
      let before = randomize_alloc_type_ratio k n s (omega arith) h in
      let negative : ltb_ℤ (negsuc k) (pos 0) ≡ true = ground arith in
      rw (before, negative) (ground (arith, ratio_type-anon n))

  -- On a host whose generator is fair, with RAND_MAX above 2, randomize_alloc_type returns file or
  -- anon, and with a slice of 0 it returns file. A call counts, and changes nothing else but the
  -- count of the host's calls.
  pub randomize_alloc_type_lem :
      IsFair host
      → 2 < host.rand_max
      → (slice : ℤ) (s : State)
      → Returns
          (λ type t.
            ((type ≡ file) ⊎ ((type ≡ anon) × (slice ≢ pos 0)))
            × (t ≡ record s { type_cnt = (s.type_cnt + 1) % 2 ^ 32; calls = t.calls })
            × (s.calls ≤ t.calls))
          (randomize_alloc_type host slice s)
  unfolding randomize_alloc_type ratio_type
  randomize_alloc_type_lem fair h (negsuc k) s =
      let negative : ltb_ℤ (negsuc k) (pos 0) ≡ true = ground arith in
      rw negative (returns (ground arith, refl, omega arith))
  randomize_alloc_type_lem fair h (pos zero) s = returns (inl refl, refl, omega arith)
  randomize_alloc_type_lem fair h (pos (suc n)) s =
      let up : ltb_ℤ (pos (suc n)) (pos 0) ≡ false = ground arith in
      let some_slice : is_zero_ℤ (pos (suc n)) ≡ false = ground arith in
      rw (up, some_slice)
        (Returns.bind (rand_lim-lt host fair s 2 (omega arith) h)
          λ v t ((k, e, lt), same). rw (e, same) (returns (drawn_type k n lt, refl, omega arith)))
