-- ===== src/Machine/Returns.antt =====
-- Total correctness of a run: it returns, with a postcondition on the result and the state.
use memory_management_phase.Base.{ℕ, ◌<◌, ◌≡◌, refl, Bool, true, false, if◌then◌else◌}
use memory_management_phase.Machine.State.{State}
use memory_management_phase.Machine.Run.{Run, ok, exit, trap, out_of_fuel, Cmd, Status, and_then}

-- The run returns, and the result and the state are in `P`.
pub data Returns {A : Type 0} (P : A → State → Type 0) : Run A → Type 0 where
  returns : {a : A} {s : State} → P a s → Returns P (ok a s)

-- The run returns in `P`, or ends the process by exit(-1) or exit(1): it neither traps nor runs
-- out of its rounds.
pub data Ends {A : Type 0} (P : A → State → Type 0) : Run A → Type 0 where
  done : {a : A} {s : State} → P a s → Ends P (ok a s)
  exits : {c : Status} {s : State} → Ends P (exit c s)

-- The run returns in `P`, ends the process, or needs more rounds than it is followed for in a state
-- in `Q`: it does not trap.
pub data Stays (Q : State → Type 0) {A : Type 0} (P : A → State → Type 0) : Run A → Type 0 where
  stays : {a : A} {s : State} → P a s → Stays Q P (ok a s)
  leaves : {c : Status} {s : State} → Stays Q P (exit c s)
  unfinished : {s : State} → Q s → Stays Q P (out_of_fuel s)

-- Whatever has been done; and behind n calls of the host.
abbrev pub Anyhow : State → Type 0
Anyhow s = Unit {0}

abbrev pub After : ℕ → State → Type 0
After n s = n < s.calls

abbrev pub Never : State → Type 0
Never s = ⊥

module _ {A : Type 0} {P : A → State → Type 0} where
  pub bind :
      {B : Type 0} {Q : B → State → Type 0} {r : Run A} {k : A → Cmd B}
      → Returns P r
      → ((a : A) (s : State) → P a s → Returns Q (k a s))
      → Returns Q (and_then r k)
  bind (returns p) next = next _ _ p

  pub mono :
      {Q : A → State → Type 0} {r : Run A}
      → Returns P r
      → ((a : A) (s : State) → P a s → Q a s)
      → Returns Q r
  mono (returns p) weaken = returns (weaken _ _ p)

  pub bind_Ends :
      {B : Type 0} {Q : B → State → Type 0} {r : Run A} {k : A → Cmd B}
      → Ends P r
      → ((a : A) (s : State) → P a s → Ends Q (k a s))
      → Ends Q (and_then r k)
  bind_Ends (done p) next = next _ _ p
  bind_Ends exits next = exits

  pub bind_Ends_eq :
      {B : Type 0} {Q : B → State → Type 0} (r : Run A) {k : A → Cmd B}
      → Ends P r
      → ((a : A) (s : State) → r ≡ ok a s → P a s → Ends Q (k a s))
      → Ends Q (and_then r k)
  bind_Ends_eq (ok a s) (done p) next = next a s refl p
  bind_Ends_eq (exit c s) exits next = exits
  bind_Ends_eq (trap _) h next = elim h [ ]
  bind_Ends_eq (out_of_fuel _) h next = elim h [ ]

  pub Ends-else :
      (b : Bool) (x y : Cmd A) (s : State)
      → b ≡ false
      → Ends P (y s)
      → Ends P ((if b then x else y) s)
  Ends-else true x y s e h = cc
  Ends-else false x y s e h = h

  pub mono_Ends :
      {Q : A → State → Type 0} {r : Run A}
      → Ends P r
      → ((a : A) (s : State) → P a s → Q a s)
      → Ends Q r
  mono_Ends (done p) weaken = done (weaken _ _ p)
  mono_Ends exits weaken = exits

  pub of_Returns : {r : Run A} → Returns P r → Ends P r
  of_Returns (returns p) = done p

module _ {Z : State → Type 0} {A : Type 0} {P : A → State → Type 0} where
  pub of_Ends : {r : Run A} → Ends P r → Stays Z P r
  of_Ends (done p) = stays p
  of_Ends exits = leaves

  pub bind_Stays :
      {B : Type 0} {Q : B → State → Type 0} {r : Run A} {k : A → Cmd B}
      → Stays Z P r
      → ((a : A) (s : State) → P a s → Stays Z Q (k a s))
      → Stays Z Q (and_then r k)
  bind_Stays (stays p) next = next _ _ p
  bind_Stays leaves next = leaves
  bind_Stays (unfinished z) next = unfinished z

  pub bind_Stays_eq :
      {B : Type 0} {Q : B → State → Type 0} (r : Run A) {k : A → Cmd B}
      → Stays Z P r
      → ((a : A) (s : State) → r ≡ ok a s → P a s → Stays Z Q (k a s))
      → Stays Z Q (and_then r k)
  bind_Stays_eq (ok a s) (stays p) next = next a s refl p
  bind_Stays_eq (exit c s) leaves next = leaves
  bind_Stays_eq (trap _) h next = elim h [ ]
  bind_Stays_eq (out_of_fuel s) (unfinished z) next = unfinished z

  pub mono_Stays :
      {Q : A → State → Type 0} {r : Run A}
      → Stays Z P r
      → ((a : A) (s : State) → P a s → Q a s)
      → Stays Z Q r
  mono_Stays (stays p) weaken = stays (weaken _ _ p)
  mono_Stays leaves weaken = leaves
  mono_Stays (unfinished z) weaken = unfinished z

  pub Stays-else :
      (b : Bool) (x y : Cmd A) (s : State)
      → b ≡ false
      → Stays Z P (y s)
      → Stays Z P ((if b then x else y) s)
  Stays-else true x y s e h = cc
  Stays-else false x y s e h = h

  pub Stays-then :
      (b : Bool) (x y : Cmd A) (s : State)
      → b ≡ true
      → Stays Z P (x s)
      → Stays Z P ((if b then x else y) s)
  Stays-then true x y s e h = h
  Stays-then false x y s e h = cc

pub to_Ends : {A : Type 0} {P : A → State → Type 0} {r : Run A} → Stays Never P r → Ends P r
to_Ends (stays p) = done p
to_Ends leaves = exits
to_Ends (unfinished z) = absurd z
