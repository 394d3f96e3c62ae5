-- ===== src/Precise/Pattern.antt =====
-- pattern_manager.c: the fix pattern, which touches the first byte of an allocation. Its fix_exists,
-- fix_alloc_node and touch_simple are those of mem_gobbler.c.
pub mod First
use memory_management_phase.Base.{ℕ, Bool, Option, none, some, List, ◌||◌, ◌==◌, if◌then◌else◌}
use memory_management_phase.Machine.Host.{Host}
use memory_management_phase.Machine.State.{FixNode}
use memory_management_phase.Machine.Run.{Cmd, pr_error, trap, segmentation, get, ◌>>=◌}
use memory_management_phase.Pattern.Fix
use memory_management_phase.Touch

abbrev pub touch_simple : ℕ → Cmd (Unit {0})
touch_simple = Touch.touch_simple

abbrev pub fix_exists : ℕ → List FixNode → Option FixNode
fix_exists = Fix.fix_exists

abbrev pub fix_alloc_node : Host → ℕ → Cmd Bool
fix_alloc_node = Fix.fix_alloc_node

-- touch_simple(node->addr) behind the search. No test follows the call of fix_alloc_node: where
-- malloc fails, node is NULL, and reading node->addr is a segmentation fault.
abbrev pub fix_touch : Host → ℕ → Option FixNode → Cmd (Unit {0})
fix_touch host addr none = do
  allocated ← fix_alloc_node host addr
  if allocated then touch_simple addr else (λ s. trap segmentation)
fix_touch host addr (some node) = touch_simple node.addr

unfoldable pub pattern_fix : Host → ℕ → ℕ → Cmd (Unit {0})
pattern_fix host addr len =
    if addr == 0 || len == 0
    then pr_error
    else (get (λ s. fix_exists addr s.fix_head) >>= fix_touch host addr)
