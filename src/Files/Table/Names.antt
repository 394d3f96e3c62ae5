-- ===== src/Files/Table/Names.antt =====
-- The names of the table are those of different files.
use memory_management_phase.Base.{
  All, ℕ, zero, suc, ◌+◌, ◌*◌, ◌-◌, ◌/◌, ◌%◌, ◌<◌, ◌≤◌, ◌≡◌, refl, ap, sym, ◌∙◌, String, List, [],
  ◌∷◌, ◌++◌, arith, ◌==◌, Bool-cases, inl, inr,
}
use memory_management_phase.Files.Table.{digit_char, digits, text, decimal, path}
use Prim.Native.Char.{code}
use Prim.Native.String.{[] as no_text, ◌∷◌ as put_char}
use package.text.Mathlib.TextLemmas.{append_cancel_left, append_cancel_right}

-- The number of a text of digits, behind the number that has been read.
unfoldable read : ℕ → String → ℕ
read n no_text = n
read n (put_char c s) = read (n * 10 + (code c - 48)) s

read_digits : ℕ → List ℕ → ℕ
read_digits n [] = n
read_digits n (d ∷ ds) = read_digits (n * 10 + d) ds

digit_code : (d : ℕ) → d < 10 → code (digit_char d) - 48 ≡ d
digit_code zero h = refl
digit_code (suc zero) h = refl
digit_code (suc (suc zero)) h = refl
digit_code (suc (suc (suc zero))) h = refl
digit_code (suc (suc (suc (suc zero)))) h = refl
digit_code (suc (suc (suc (suc (suc zero))))) h = refl
digit_code (suc (suc (suc (suc (suc (suc zero)))))) h = refl
digit_code (suc (suc (suc (suc (suc (suc (suc zero))))))) h = refl
digit_code (suc (suc (suc (suc (suc (suc (suc (suc zero)))))))) h = refl
digit_code (suc (suc (suc (suc (suc (suc (suc (suc (suc zero))))))))) h = refl
digit_code (suc (suc (suc (suc (suc (suc (suc (suc (suc (suc d)))))))))) h = absurd (omega arith)

read-text : (n : ℕ) (ds : List ℕ) → All (λ d. d < 10) ds → read n (text ds) ≡ read_digits n ds
unfolding read text read_digits
read-text n [] h = refl
read-text n (d ∷ ds) h = rw (read, digit_code d h.0) (read-text (n * 10 + d) ds h.1)

read_digits-last :
    (n d : ℕ) (ds : List ℕ) → read_digits n (ds ++ (d ∷ [])) ≡ read_digits n ds * 10 + d
unfolding read_digits
read_digits-last n d [] = refl
read_digits-last n d (e ∷ ds) = read_digits-last (n * 10 + e) d ds

All-last :
    (d : ℕ) (ds : List ℕ) → All (λ x. x < 10) ds → d < 10 → All (λ x. x < 10) (ds ++ (d ∷ []))
All-last d [] h k = (k, tt)
All-last d (e ∷ ds) h k = (h.0, All-last d ds h.1 k)

digits-All : (fuel n : ℕ) → n ≤ fuel → All (λ d. d < 10) (digits fuel n)
unfolding digits
digits-All zero n h = (omega arith, tt)
digits-All (suc fuel) n h = elim (Bool-cases (n / 10 == 0)) [
  | inl small ↦ rw small (ground arith, tt)
  | inr large ↦ rw large (
      All-last (n % 10) (digits fuel (n / 10)) (digits-All fuel (n / 10) (ground arith))
        (omega arith))
]

read_digits-digits : (fuel n : ℕ) → n ≤ fuel → read_digits 0 (digits fuel n) ≡ n
unfolding digits read_digits
read_digits-digits zero n h = omega arith
read_digits-digits (suc fuel) n h = elim (Bool-cases (n / 10 == 0)) [
  | inl small ↦ rw small (omega arith)
  | inr large ↦
      let higher = read_digits-digits fuel (n / 10) (ground arith) in
      rw (large, read_digits-last 0 (n % 10) (digits fuel (n / 10)), higher) (omega arith)
]

-- The number in a name of the table is read back from its digits.
read-decimal : (n : ℕ) → read 0 (decimal n) ≡ n
unfolding decimal
read-decimal n =
    read-text 0 (digits n n) (digits-All n n (omega arith)) ∙ read_digits-digits n n (omega arith)

-- Different numbers make different paths.
pub path_inj : (i j : ℕ) → path i ≡ path j → i ≡ j
unfolding path
path_inj i j e =
    let same =
      append_cancel_right (decimal i) (decimal j) ".txt"
        (append_cancel_left "/media/test_images/4K_" _ _ e) in
    sym (read-decimal i) ∙ ap (read 0) same ∙ read-decimal j
