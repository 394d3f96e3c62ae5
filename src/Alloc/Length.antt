-- ===== src/Alloc/Length.antt =====
-- The length that is asked for.
use memory_management_phase.Base.{
  All, ℕ, zero, suc, ◌^◌, ◌<◌, ◌≤◌, ◌≡◌, refl, subst, some, arith, ltb, leb, get_elem?, length,
  Bool-cases, inl, inr,
}
use memory_management_phase.Base.Word.{mul64}
use memory_management_phase.Machine.Host.{Host}
use memory_management_phase.Machine.State.{State, FileClass}
use memory_management_phase.Machine.Returns
use memory_management_phase.Machine.Returns.{Returns, returns}
use memory_management_phase.Random.Laws.{called, rand_intr_bounds}
use memory_management_phase.Alloc.{file_size, draw_len, len_within, randomize_alloc_len}
use memory_management_phase.Valid.{sizes, class-size}

-- The length is the size of a class with a number up to `last`.
abbrev pub IsSize : ℕ → State → ℕ → State → Type 0
IsSize last s v t =
    ((i : ℕ) × (c : FileClass) × (i ≤ last)
      × (get_elem? s.files i ≡ some c)
      × (v ≡ c.size)
      × (4096 ≤ v))
    × (t ≡ record s { calls = t.calls })
    × (s.calls ≤ t.calls)

IsSize-called : (last v : ℕ) (s t : State) → IsSize last (called s) v t → IsSize last s v t
IsSize-called last v s t h = (h.0, h.1, omega (arith, h.2))

-- The classes hold pages, and `last` is the number of one.
pub record IsSized (last : ℕ) (s : State) : Type 0 where
  pub big : All (λ n. 4096 ≤ n) (sizes s.files)
  pub last_lt : last < length (sizes s.files)
  pub short : length (sizes s.files) < 2 ^ 31

IsSized-called : {last : ℕ} (s : State) → IsSized last s → IsSized last (called s)
IsSized-called s h = record { big = h.big; last_lt = h.last_lt; short = h.short }

pub file_size-IsSize :
    (last i : ℕ) (s : State)
    → IsSized last s
    → i ≤ last
    → Returns (λ v t. IsSize last s v t × (t ≡ s)) (file_size i s)
unfolding file_size
file_size-IsSize last i s z k =
    let (c, at, page) = class-size s.files i z.big (omega (arith, z.last_lt)) in
    rw at (returns (((i, c, k, at, refl, page), refl, omega arith), refl))

module _ (host : Host) where
  draw_len-IsSize :
      (max_req l i : ℕ) (s : State)
      → IsSized s.config.speed s
      → i ≤ s.config.speed
      → Returns (λ v t. IsSize s.config.speed s v t) (draw_len host max_req l i s)
  unfolding draw_len
  draw_len-IsSize max_req zero i s z k =
      Returns.mono (file_size-IsSize s.config.speed i s z k) (λ v t h. h.0)
  draw_len-IsSize max_req (suc l) i s z k =
      Returns.bind
        (rand_intr_bounds host s 0 s.config.speed (omega arith) (omega (arith, z.last_lt, z.short))
          (omega (arith, z.last_lt, z.short)))
        λ j t (low, high, same). rw same (
          Returns.bind (file_size-IsSize s.config.speed j (called s) (IsSized-called s z) high)
            λ v u (size, stay). rw stay (elim (Bool-cases (ltb max_req v)) [
              | inl more ↦ rw more (
                  Returns.mono (draw_len-IsSize max_req l j (called s) (IsSized-called s z) high)
                    λ w x h. IsSize-called s.config.speed w s x h)
              | inr enough ↦ rw enough (
                  returns (
                    IsSize-called s.config.speed v s (called s)
                      (subst (λ x. IsSize s.config.speed (called s) v x) stay size)))
            ]))

  -- Whatever the limit is.
  pub len_within-IsSize :
      (max_limit : ℕ) (s : State)
      → IsSized s.config.speed s
      → Returns (λ v t. IsSize s.config.speed s v t) (len_within host max_limit s)
  len_within-IsSize max_limit s z =
      Returns.bind (file_size-IsSize s.config.speed 0 s z (omega arith)) λ v t (size, stay).
        rw stay (elim (Bool-cases (leb (mul64 max_limit 4096) v)) [
          | inl small ↦ rw small (returns (subst (λ x. IsSize s.config.speed s v x) stay size))
          | inr large ↦ rw large (draw_len-IsSize _ 10 0 s z (omega arith))
        ])

  -- If the classes hold pages and the speed is the number of one, randomize_alloc_len returns the
  -- size of a class with a number up to the speed; nothing else changes but the count of the host's
  -- calls.
  pub randomize_alloc_len_lem :
      (s : State)
      → IsSized s.config.speed s
      → Returns (λ v t. IsSize s.config.speed s v t) (randomize_alloc_len host s)
  unfolding randomize_alloc_len
  randomize_alloc_len_lem s z = len_within-IsSize s.config.max_limit s z
