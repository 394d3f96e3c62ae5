-- ===== src/Machine/Run.antt =====
-- Commands: what a call does to the state. A command returns, ends the process, traps, or runs out
-- of the rounds that it is followed for.
use memory_management_phase.Base.{ℕ, ◌+◌, Bool, ◌∷◌, length, if◌then◌else◌}
use memory_management_phase.Machine.State.{Note, State}

-- A write or read of unmapped memory, a division by zero, an index outside an array.
pub data Trap : Type 0 where
  segmentation division_by_zero out_of_bounds : Trap

-- exit(-1) of PR_ERROR; exit(1)
pub data Status : Type 0 where
  minus_one one : Status

pub data Run (A : Type 0) : Type 0 where
  ok : A → State → Run A
  exit : Status → State → Run A
  trap : Trap → Run A
  -- in the state in which one round more is wanted
  out_of_fuel : State → Run A

abbrev pub Cmd : Type 0 → Type 0
Cmd A = State → Run A

abbrev pub pure : {A : Type 0} → A → Cmd A
pure = ok

module _ {A B : Type 0} where
  abbrev pub and_then : Run A → (A → Cmd B) → Run B
  and_then (ok a s) k = k a s
  and_then (exit c s) k = exit c s
  and_then (trap t) k = trap t
  and_then (out_of_fuel s) k = out_of_fuel s

  infixl 5 ◌>>=◌ ◌>>◌
  abbrev pub ◌>>=◌ : Cmd A → (A → Cmd B) → Cmd B
  m >>= k = λ s. and_then (m s) k

  abbrev pub ◌>>◌ : Cmd A → Cmd B → Cmd B
  m >> n = m >>= λ _. n

-- PR_ERROR and exit(1)
abbrev pub pr_error : {A : Type 0} → Cmd A
pr_error = exit minus_one

abbrev pub get : {A : Type 0} → (State → A) → Cmd A
get f s = ok (f s) s

abbrev pub modify : (State → State) → Cmd (Unit {0})
modify f s = ok tt (f s)

-- printf of a note
unfoldable pub noted : Note → State → State
noted n s = record s { notes = (length s.printed, n) ∷ s.notes }

abbrev pub note : Note → Cmd (Unit {0})
note n = modify (noted n)

abbrev pub skip : Cmd (Unit {0})
skip = ok tt

abbrev pub when : Bool → Cmd (Unit {0}) → Cmd (Unit {0})
when b m = if b then m else skip

-- A call of the host: its answer depends on the number of the call.
abbrev pub ask : {A : Type 0} → (ℕ → A) → Cmd A
ask f s = ok (f s.calls) (record s { calls = s.calls + 1 })
