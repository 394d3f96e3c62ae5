-- ===== src/Main/Process/Ready.antt =====
-- The options leave what the program needs of the settings: a count and a number of phases that are
-- small enough, and no lines without a vector.
use memory_management_phase.Base.{
  ℕ, [], false, All, ◌^◌, ◌<◌, ◌≤◌, ◌≡◌, refl, ℕ, Bool, Option, none, some, List, String, arith,
  ◌==◌, Bool-cases, inl, inr,
}
use memory_management_phase.Machine.State.{MemPattern}
use memory_management_phase.Vector.{locality_vector_init}
use memory_management_phase.Options.{
  Opt, Args, parse_options, initial, apply_option, reset_max_alloc_per_phase, mem_pattern,
  set_pattern,
}
use memory_management_phase.Options.Sane.{Leaves, parse_options-Leaves}
use memory_management_phase.Main.Process.{stream_lines}

-- An option that the table of phases and the words have room for.
abbrev pub IsOption : Opt → Type 0
IsOption (Opt.max_phase n) = n ≤ 60001
IsOption (Opt.max_alloc n) = n < 2 ^ 64
IsOption _ = Unit

pub record IsSmall (lines : List String) (vector : Bool) (max_alloc max_phase : ℕ) : Type 0 where
  pub word : max_alloc < 2 ^ 64
  pub few : max_phase ≤ 60001
  pub no_line : vector ≡ false → lines ≡ []

abbrev pub IsReady : (reads : String → List String) → Args → Type 0
IsReady reads a =
    IsSmall (stream_lines reads a.stream) a.config.vector a.config.max_alloc_per_phase a.max_phase

module _ (reads : String → List String) (max : ℕ) (opens : String → Bool) where
  apply_option-IsReady :
      (o : Opt) (a : Args)
      → IsOption o
      → IsReady reads a
      → Leaves (IsReady reads) (apply_option max opens o a)
  unfolding apply_option reset_max_alloc_per_phase
  apply_option-IsReady (Opt.max_phase n) a o h = record {
    word = h.word;
    few = o;
    no_line = h.no_line;
  }
  apply_option-IsReady (Opt.max_alloc n) a o h = record {
    word = o;
    few = h.few;
    no_line = h.no_line;
  }
  apply_option-IsReady (Opt.access n) a o h = access (mem_pattern n)
    where
      access : (k : Option MemPattern) → Leaves (IsReady reads) (set_pattern a k)
      access none = tt
      access (some k) = h
  apply_option-IsReady (Opt.vector path) a o h =
      elim (Bool-cases (locality_vector_init opens (some path) == 0)) [
        | inl found ↦ rw found (record { word = h.word; few = h.few; no_line = λ e. cc })
        | inr missing ↦ rw missing tt
      ]
  apply_option-IsReady Opt.usage a o h = tt
  apply_option-IsReady (Opt.max_limit n) a o h = h
  apply_option-IsReady (Opt.speed n) a o h = h
  apply_option-IsReady (Opt.alloc_size n) a o h = h
  apply_option-IsReady (Opt.stma n) a o h = h
  apply_option-IsReady (Opt.ltma n) a o h = h
  apply_option-IsReady (Opt.exec_time n) a o h = h
  apply_option-IsReady Opt.quiet a o h = h
  apply_option-IsReady Opt.ipfvt a o h = h

  initial-IsReady : IsReady reads (initial max)
  unfolding initial
  initial-IsReady = record { word = omega arith; few = omega arith; no_line = λ _. refl }

  -- What holds of the settings that the options leave of the initial ones.
  pub parse_options-IsReady :
      (os : List Opt)
      → All IsOption os
      → Leaves (IsReady reads) (parse_options max opens os (initial max))
  parse_options-IsReady os options =
      parse_options-Leaves max opens IsOption (IsReady reads)
        (λ o b allowed h. apply_option-IsReady o b allowed h) os _ options initial-IsReady
