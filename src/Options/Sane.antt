-- ===== src/Options/Sane.antt =====
-- What the options leave true of the settings.
use memory_management_phase.Base.{
  All, ℕ, zero, suc, ◌<◌, ◌≤◌, ◌≡◌, ◌≢◌, refl, ◌⊎◌, inl, Bool, List, [], ◌∷◌, String, arith,
}
use memory_management_phase.Base.Word.{mul64}
use memory_management_phase.Machine.State.{Config, mem_max}
use memory_management_phase.Options.{
  Opt, Args, Parsed, ok, minus_one, one, reset_max_alloc_per_phase, initial, apply_option,
  parse_options, mem_pattern, set_pattern, next_options,
}

-- The speed is the number of a class, the cap is off or at least a page, and the access type is one
-- of the five.
pub record IsSane (max : ℕ) (c : Config) : Type 0 where
  pub speed : c.speed < max
  pub cap : (c.max_alloc_per_phase_byte ≡ 0) ⊎ (4096 ≤ c.max_alloc_per_phase_byte)
  pub access : c.access_type ≢ mem_max

-- What holds of the arguments that a round of the loop leaves, if it does not end the process.
abbrev pub Leaves : (Args → Type 0) → Parsed → Type 0
Leaves P (ok a) = P a
Leaves P (minus_one _) = Unit
Leaves P (one _) = Unit

cap_word : (n : ℕ) → (mul64 n 4096 ≡ 0) ⊎ (4096 ≤ mul64 n 4096)
unfolding mul64
cap_word n = ground arith

pub reset_max_alloc_per_phase-IsSane :
    (max n : ℕ) (c : Config) → IsSane max c → IsSane max (reset_max_alloc_per_phase n c)
unfolding reset_max_alloc_per_phase
reset_max_alloc_per_phase-IsSane max n c h = record {
  speed = h.speed;
  cap = cap_word n;
  access = h.access;
}

module _ (max : ℕ) (opens : String → Bool) where
  set_pattern-IsSane :
      (n : ℕ) (a : Args)
      → IsSane max a.config
      → Leaves (λ b. IsSane max b.config) (set_pattern a (mem_pattern n))
  set_pattern-IsSane zero a h = ground arith
  set_pattern-IsSane (suc zero) a h = ground arith
  set_pattern-IsSane (suc (suc zero)) a h = ground arith
  set_pattern-IsSane (suc (suc (suc zero))) a h = ground arith
  set_pattern-IsSane (suc (suc (suc (suc zero)))) a h = ground arith
  set_pattern-IsSane (suc (suc (suc (suc (suc n))))) a h = tt

  apply_option-IsSane :
      (o : Opt) (a : Args)
      → IsSane max a.config
      → Leaves (λ b. IsSane max b.config) (apply_option max opens o a)
  unfolding apply_option
  apply_option-IsSane (Opt.access n) a h = set_pattern-IsSane n a h
  apply_option-IsSane (Opt.max_alloc n) a h = reset_max_alloc_per_phase-IsSane max n a.config h
  apply_option-IsSane (Opt.speed n) a h = record {
    speed = ground (arith, h.speed);
    cap = h.cap;
    access = h.access;
  }
  apply_option-IsSane (Opt.vector path) a h = ground arith
  apply_option-IsSane _ a h = ground arith

  -- What holds before the options and is kept by each of them holds behind them, or one of them has
  -- ended the process.
  pub parse_options-Leaves :
      (Allowed : Opt → Type 0) (P : Args → Type 0)
      → ((o : Opt) (a : Args) → Allowed o → P a → Leaves P (apply_option max opens o a))
      → (os : List Opt) (a : Args) → All Allowed os
      → P a
      → Leaves P (parse_options max opens os a)
  unfolding parse_options
  parse_options-Leaves Allowed P keep [] a hs h = h
  parse_options-Leaves Allowed P keep (o ∷ os) a hs h =
      go (apply_option max opens o a) (keep o a hs.0 h)
        (λ b k. parse_options-Leaves Allowed P keep os b hs.1 k)
    where
      go :
          (r : Parsed)
          → Leaves P r
          → ((b : Args) → P b → Leaves P (parse_options max opens os b))
          → Leaves P (next_options (parse_options max opens os) r)
      go (ok b) k next = next b k
      go (minus_one _) k next = tt
      go (one _) k next = tt

-- Every option.
abbrev pub AnyOption : Opt → Type 0
AnyOption o = Unit {0}

pub All-AnyOption : (os : List Opt) → All AnyOption os
All-AnyOption [] = tt
All-AnyOption (o ∷ os) = (tt, All-AnyOption os)

-- With at least one class of files, the settings that the options leave of the initial ones are
-- sane: the speed is the number of a class, the cap on a phase is off or at least a page, and the
-- access type is one of the five; or an option has ended the process.
pub parse_options-initial :
    (max : ℕ) (opens : String → Bool) (os : List Opt)
    → 0 < max
    → Leaves (λ b. IsSane max b.config) (parse_options max opens os (initial max))
unfolding initial
parse_options-initial max opens os h =
    parse_options-Leaves max opens AnyOption (λ b. IsSane max b.config)
      (λ o a _ k. apply_option-IsSane max opens o a k) os (initial max) (All-AnyOption os)
      (record { speed = omega arith; cap = inl refl; access = λ e. ground arith })
