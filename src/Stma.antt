-- ===== src/Stma.antt =====
-- reset_stma_ltma of mem_gobbler.c: the two lengths that a customised kernel takes through
-- /proc/<pid>/pd_len.
use memory_management_phase.Base.{
  ℕ, ◌*◌, ◌/◌, ◌%◌, ◌^◌, ◌≤◌, ◌<◌, ◌↔◌, ◌≡◌, ◌≢◌, ◌⊎◌, Bool, true, false, not, ◌&&◌, ◌||◌, Option,
  none, some, arith, ◌==◌, if◌then◌else◌,
}
use memory_management_phase.Base.Word.{sub64, mul64}

-- The file: whether the first, the second and the third fopen find it, whether fwrite writes, and what
-- is read back behind the values that were written.
pub record PdLen : Type 0 where
  pub open_rw : Bool
  pub open_wb : Bool
  pub fwrite : Bool
  pub open_rb : Bool
  pub read_back : ℕ → ℕ → ℕ × ℕ

pub data Reset : Type 0 where
  -- the values that the file holds at the end
  set : (stma ltma : ℕ) → Reset
  -- exit(-1), by PR_ERROR or behind perror
  failed : Reset
  -- fread from the NULL that the third fopen gave, which no test follows
  crashed : Reset

-- A test of the last read: data[0] - stma, data[1] - ltma, as unsigned numbers
unfoldable pub check_back : (stma ltma : ℕ) → ℕ × ℕ → Reset
check_back stma ltma (d0, d1) =
    if not (sub64 d0 stma == 0) || not (sub64 d1 ltma == 0) then failed else set stma ltma

-- _reset_stma_ltma
unfoldable pub write_lengths : PdLen → ℕ → ℕ → Reset
write_lengths fd stma ltma =
    if not fd.open_rw
    then failed
    else if not fd.open_wb
    then failed
    else if not fd.fwrite
    then failed
    else if not fd.open_rb
    then crashed
    else check_back stma ltma (fd.read_back stma ltma)

-- The length that is missing is made from the other one.
unfoldable pub fill_lengths : ℕ → ℕ → Option (ℕ × ℕ)
fill_lengths stma ltma =
    if stma == 0 && not (ltma == 0)
    then some (ltma / 2, ltma)
    else if not (stma == 0) && ltma == 0
    then some (stma, mul64 stma 2)
    else if stma == 0 && ltma == 0
    then none
    else some (stma, ltma)

abbrev pub write_filled : PdLen → Option (ℕ × ℕ) → Reset
write_filled fd none = failed
write_filled fd (some (stma, ltma)) =
    if not (stma == 0) && not (ltma == 0) then write_lengths fd stma ltma else failed

unfoldable pub reset_stma_ltma : PdLen → ℕ → ℕ → Reset
reset_stma_ltma fd stma ltma = write_filled fd (fill_lengths stma ltma)

-- When the lengths are set, neither is 0; one that was given is set as it was given; and of one
-- that was 0, the short one is half of the long one, and the long one twice the short one in 64 bits.
-- The file has been opened three times and written, and gave the same words back.
pub reset_stma_ltma-set :
    (fd : PdLen) (stma ltma x y : ℕ)
    → reset_stma_ltma fd stma ltma ≡ set x y
    → (x ≢ 0)
      × (y ≢ 0)
      × ((x ≡ stma) ⊎ ((stma ≡ 0) × (x ≡ ltma / 2)))
      × ((y ≡ ltma) ⊎ ((ltma ≡ 0) × (y ≡ (stma * 2) % 2 ^ 64)))
      × (fd.open_rw ≡ true)
      × (fd.open_wb ≡ true)
      × (fd.fwrite ≡ true)
      × (fd.open_rb ≡ true)
      × (sub64 (fd.read_back x y).0 x ≡ 0)
      × (sub64 (fd.read_back x y).1 y ≡ 0)
unfolding reset_stma_ltma fill_lengths write_lengths check_back mul64
reset_stma_ltma-set fd stma ltma x y e = ground arith

-- If the third fopen finds the file, the routine sets the lengths or ends the process by exit.
pub reset_stma_ltma-returns :
    (fd : PdLen) (stma ltma : ℕ) → fd.open_rb ≡ true → reset_stma_ltma fd stma ltma ≢ crashed
unfolding reset_stma_ltma fill_lengths write_lengths check_back
reset_stma_ltma-returns fd stma ltma e = ground arith

-- The lengths that are refused, of words.
abbrev pub Refused : (stma ltma : ℕ) → Type 0
Refused stma ltma = ((stma ≡ 0) × (ltma ≤ 1)) ⊎ ((stma ≡ 2 ^ 63) × (ltma ≡ 0))

-- For two words, the routine crashes if and only if the lengths are none of 0 and 0, 0 and 1, and
-- 2 ^ 63 and 0, the first two fopen find the file, fwrite writes, and the third fopen fails.
pub reset_stma_ltma-crashed :
    (fd : PdLen) (stma ltma : ℕ)
    → stma < 2 ^ 64
    → ltma < 2 ^ 64
    → (reset_stma_ltma fd stma ltma ≡ crashed) ↔ (
        (¬ Refused stma ltma)
        × (fd.open_rw ≡ true)
        × (fd.open_wb ≡ true)
        × (fd.fwrite ≡ true)
        × (fd.open_rb ≡ false))
unfolding reset_stma_ltma fill_lengths write_lengths check_back mul64
reset_stma_ltma-crashed fd stma ltma h k = (λ e. ground arith, λ e. ground arith)

-- The lengths 0 and 0, 0 and 1, and 2 ^ 63 and 0 are refused, whatever the file does.
pub reset_stma_ltma-failed :
    (fd : PdLen) (stma ltma : ℕ)
    → ((stma ≡ 0) × (ltma ≤ 1)) ⊎ ((stma ≡ 2 ^ 63) × (ltma ≡ 0))
    → reset_stma_ltma fd stma ltma ≡ failed
unfolding reset_stma_ltma fill_lengths mul64
reset_stma_ltma-failed fd stma ltma h = ground arith
