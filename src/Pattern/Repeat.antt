-- ===== src/Pattern/Repeat.antt =====
-- repeat_get_count: how often the repeat pattern goes over its distance. The double is a number of
-- thousandths here: it is 5 * (1000 - dist) / 1000, and the macro CEIL sees only whether it is whole.
use memory_management_phase.Base.{
  ℕ, ◌+◌, ◌-◌, ◌*◌, ◌/◌, ◌%◌, ◌<◌, ◌≤◌, ◌≡◌, ◌⊎◌, inl, inr, Bool-cases, arith, ltb, leb, ◌==◌,
  if◌then◌else◌,
}

abbrev pub max_dist : ℕ
max_dist = 1000

abbrev pub min_cnt : ℕ
min_cnt = 2

abbrev pub max_cnt : ℕ
max_cnt = 5

-- CEIL of a positive number of thousandths
unfoldable pub ceil : ℕ → ℕ
ceil x = if ltb 0 (x % 1000) then (x + 1000) / 1000 else x / 1000

unfoldable pub repeat_get_count : ℕ → ℕ
repeat_get_count dist =
    if dist == 0
    then 0
    else if leb max_dist dist
    then min_cnt
    else ceil (max_cnt * (max_dist - dist))

-- The pattern repeats from 1 to 5 times over a distance of at least 1: n times, for the least n
-- with 5 * (1000 - dist) ≤ 1000 * n, if the distance is below 1000, and twice from there on.
pub repeat_get_count_bounds :
    (dist : ℕ)
    → 0 < dist
    → let n = repeat_get_count dist in
      (1 ≤ n)
      × (n ≤ 5)
      × (((dist < 1000) × (5 * (1000 - dist) ≤ 1000 * n) × (1000 * n < 5 * (1000 - dist) + 1000))
          ⊎ ((1000 ≤ dist) × (n ≡ 2)))
unfolding repeat_get_count ceil
repeat_get_count_bounds dist h = elim (Bool-cases (leb 1000 dist)) [
  | inl far ↦ (ground arith, ground arith, inr (ground arith))
  | inr near ↦ (ground arith, ground arith, inl (ground arith))
]
