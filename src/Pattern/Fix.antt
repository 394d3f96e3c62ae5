-- ===== src/Pattern/Fix.antt =====
-- The fix pattern: a location is drawn for an allocation when it is first touched, and kept in a
-- list; from then on the pattern touches that location. A pointer to a new node is a pointer to the
-- head of the list.
pub mod Location
use memory_management_phase.Base.{
  ℕ, Bool, true, false, Option, none, some, List, [], ◌∷◌, ◌||◌, ◌==◌, ltb, if◌then◌else◌,
}
use memory_management_phase.Base.Word.{sub64}
use memory_management_phase.Machine.Host.{Host}
use memory_management_phase.Machine.State.{State, FixNode, len_zero, something_wrong, deciding}
use memory_management_phase.Machine.Run.{
  Cmd, ok, exit, one, skip, ask, get, modify, note, when, ◌>>=◌, ◌>>◌,
}
use memory_management_phase.Random.{rand_intr}
use memory_management_phase.Touch.{offset, touch_simple, clear_byte}

unfoldable pub fix_exists : ℕ → List FixNode → Option FixNode
fix_exists addr [] = none
fix_exists addr (node ∷ nxt) = if addr == node.addr then some node else fix_exists addr nxt

-- The new head of the list, with the location 0; false stands for the null pointer.
unfoldable pub fix_alloc_node : Host → ℕ → Cmd Bool
fix_alloc_node host addr = do
  found ← ask host.malloc
  if found
      then (λ s. ok true (record s { fix_head = record { addr = addr; loc = 0 } ∷ s.fix_head }))
      else ok false

-- node->loc = loc, for the node at the head
abbrev pub set_head_loc : ℕ → List FixNode → List FixNode
set_head_loc loc [] = []
set_head_loc loc (node ∷ nxt) = record node { loc = loc } ∷ nxt

-- The location that fix_rand_loc keeps of the number that it draws.
unfoldable pub fix_loc : (len drawn : ℕ) → ℕ
fix_loc len drawn = if ltb len drawn then sub64 len 100 else drawn

-- For the node of `addr` at the head of the list.
unfoldable pub fix_rand_loc : Host → ℕ → ℕ → Cmd (Unit {0})
fix_rand_loc host addr len = do
  when (len == 0) (note len_zero)
  drawn ← rand_intr host 0 (sub64 len 10)
  when (ltb len drawn) (note something_wrong)
  let loc = fix_loc len drawn
  modify (λ s. record s { fix_head = set_head_loc loc s.fix_head })
  note (deciding loc)
  clear_byte (offset addr loc)

unfoldable pub fix_first : Host → ℕ → ℕ → Cmd (Unit {0})
fix_first host addr len = do
  allocated ← fix_alloc_node host addr
  if allocated then fix_rand_loc host addr len else exit one

abbrev pub fix_touch : Host → ℕ → ℕ → Option FixNode → Cmd (Unit {0})
fix_touch host addr len none = fix_first host addr len
fix_touch host addr len (some node) = touch_simple (offset node.addr node.loc)

unfoldable pub pattern_fix : Host → ℕ → ℕ → Cmd (Unit {0})
pattern_fix host addr len =
    if addr == 0 || len == 0
    then skip
    else (get (λ s. fix_exists addr s.fix_head) >>= fix_touch host addr len)
