-- ===== src/Pattern/Stride.antt =====
-- stride_get_offset: the length is cut into 1000 pieces, and into half as many as long as the
-- pieces are empty.
use memory_management_phase.Base.{
  ℕ, zero, suc, ◌/◌, ◌^◌, ◌<◌, ◌≤◌, ◌≡◌, refl, ◌⊎◌, ◌↔◌, ltb, Option, none, some, inl, inr, arith,
  Bool-cases, ◌==◌, if◌then◌else◌,
}
use native.Mathlib.Nat.{pow-suc}

abbrev pub stride_cut : ℕ
stride_cut = 1000

-- The do loop, at `piece`; none is the division by a `piece` of 0.
unfoldable pub stride_loop : (fuel len piece : ℕ) → Option ℕ
stride_loop zero len piece = none
stride_loop (suc fuel) len piece =
    let again = stride_loop fuel len (piece / 2) in
    if piece == 0 then none else if len / piece == 0 then again else some (len / piece)

-- Ten halvings take 1000 to 0, so the eleventh round divides by 0.
unfoldable pub stride_get_offset : ℕ → Option ℕ
stride_get_offset len = stride_loop 11 len stride_cut

div-le : (m d : ℕ) → m / d ≤ m
div-le m d = grind arith

stride_loop_first :
    (fuel len : ℕ) → 1000 ≤ len → stride_loop (suc fuel) len 1000 ≡ some (len / 1000)
unfolding stride_loop
stride_loop_first fuel len h = ground arith

-- With 2 ^ fuel above the number of pieces, and a length of at least 1, the loop ends with a
-- stride from 1 to the length.
stride_loop_bounds :
    (fuel len piece : ℕ)
    → 0 < len
    → 0 < piece
    → piece < 2 ^ fuel
    → (d : ℕ) × (stride_loop fuel len piece ≡ some d) × (0 < d) × (d ≤ len)
unfolding stride_loop
stride_loop_bounds zero len piece h j k = absurd (omega arith)
stride_loop_bounds (suc fuel) len piece h j k = elim (Bool-cases (len / piece == 0)) [
  | inl e ↦
      let (d, e', pos_d, le) =
        stride_loop_bounds fuel len (piece / 2) h (ground arith) (omega (arith, pow-suc 2 fuel)) in
      (d, ground arith, pos_d, le)
  | inr e ↦ (len / piece, ground arith, ground arith, div-le len piece)
]

-- For a length of at least 1, stride_get_offset gives a stride from 1 to the length; it is a
-- thousandth of the length, rounded down, unless the length is below 1000.
pub stride_get_offset_bounds :
    (len : ℕ)
    → 0 < len
    → (d : ℕ) × (stride_get_offset len ≡ some d)
      × (0 < d)
      × (d ≤ len)
      × ((len < 1000) ⊎ (d ≡ len / 1000))
unfolding stride_get_offset
stride_get_offset_bounds len h =
    let (d, e, pos_d, le) = stride_loop_bounds 11 len 1000 h (omega arith) (omega arith) in
    (
      d,
      e,
      pos_d,
      le,
      elim (Bool-cases (ltb len 1000)) [
        | inl small ↦ inl (ground arith)
        | inr big ↦ inr (cc (stride_loop_first 10 len (ground arith)))
      ],
    )

-- stride_get_offset divides by zero if and only if the length is 0.
pub stride_get_offset-none : (len : ℕ) → (stride_get_offset len ≡ none) ↔ (len ≡ 0)
unfolding stride_get_offset stride_loop
stride_get_offset-none zero = (λ _. refl, λ _. refl)
stride_get_offset-none (suc n) =
    let (d, e, _, _, _) = stride_get_offset_bounds (suc n) (omega arith) in
    (λ gone. absurd (cc (e, gone)), λ z. absurd (omega arith))
