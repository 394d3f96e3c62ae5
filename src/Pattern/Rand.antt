-- ===== src/Pattern/Rand.antt =====
-- The random pattern: the two halves of the allocation in turn, page by page, and short runs of
-- bytes at random places of a page.
pub mod Bounds
use memory_management_phase.Base.{
  ℕ, zero, suc, ◌/◌, Bool, true, false, not, ◌==◌, ltb, leb, if◌then◌else◌,
}
use memory_management_phase.Base.Word.{add64, sub64, mul64, to_long, to_word}
use memory_management_phase.Machine.Host.{Host}
use memory_management_phase.Machine.State.{State}
use memory_management_phase.Machine.Run.{Cmd, skip, get, pr_error, ◌>>=◌, ◌>>◌}
use memory_management_phase.Random.{rand_lim}
use memory_management_phase.Touch.{offset}
use memory_management_phase.Pattern.Sweep.{pattern_seq}

abbrev pub max_att : ℕ
max_att = 50

module _ (host : Host) where
  -- The loop of random_touch_page, with j rounds left.
  unfoldable pub page_touches : (j addr len : ℕ) → Cmd (Unit {0})
  page_touches zero addr len = skip
  page_touches (suc j) addr len = do
    index ← rand_lim host (to_long (sub64 len 20))
    pattern_seq (offset addr (to_word index)) 10
    page_touches j addr len

  unfoldable pub random_touch_page : ℕ → ℕ → Cmd (Unit {0})
  random_touch_page addr len = do
    in_transition ← get (λ s. s.in_transition)
    page_touches (if in_transition then 2 else max_att) addr len

  -- The loop of random_touch at page i, with n rounds left.
  unfoldable pub pages_touch : (addr begin end pages n i : ℕ) → Cmd (Unit {0})
  pages_touch addr begin end pages zero i = skip
  pages_touch addr begin end pages (suc n) i =
      let loop = if ltb 1 pages then mul64 host.page_size i else 0 in
      let start_index = add64 begin loop in
      let end_index = if ltb 1 pages then add64 host.page_size start_index else sub64 end 1000 in
      let touch_len = sub64 end_index start_index in
      let rest =
        random_touch_page (offset addr start_index) touch_len
        >> pages_touch addr begin end pages n (add64 i 1) in
      if leb end end_index then skip else rest

  unfoldable pub random_touch : (addr begin end : ℕ) → Cmd (Unit {0})
  random_touch addr begin end =
      let intr_len = sub64 end begin in
      let pages = intr_len / host.page_size in
      let pages' = if pages == 0 then 1 else pages in
      if intr_len == 0 then pr_error else pages_touch addr begin end pages' pages' 0

  -- The loop of random_touch_n, with n rounds left.
  unfoldable pub slices_touch : (n : ℕ) → (which_slice : Bool) → (addr len : ℕ) → Cmd (Unit {0})
  slices_touch zero which_slice addr len = skip
  slices_touch (suc n) which_slice addr len =
      random_touch addr (if which_slice then len / 2 else 0) (if which_slice then len else len / 2)
      >> slices_touch n (not which_slice) addr len

  unfoldable pub random_touch_n : ℕ → ℕ → Cmd (Unit {0})
  random_touch_n addr len = do
    in_transition ← get (λ s. s.in_transition)
    slices_touch (if in_transition then 2 else 10) false addr len

  unfoldable pub pattern_rand : ℕ → ℕ → Cmd (Unit {0})
  pattern_rand addr len = random_touch_n addr len
