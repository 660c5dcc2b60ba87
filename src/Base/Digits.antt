-- ===== src/Base/Digits.antt =====
-- Numbers as `snprintf` prints them with `%u`, and that `std::atoi` reads them back.
use Prim.Native.Nat.{ℕ, zero, suc, ◌+◌, ◌*◌, ◌/◌, ◌%◌, ◌^◌, ◌<◌, ◌≤◌}
use mathlib.Core.Path.{◌≡◌, refl, ap, ◌∙◌}
use mathlib.Core.Bool.{Bool, true, false, ◌&&◌}
use mathlib.Core.List.{List, [], ◌∷◌}
use native.Mathlib.Omega.{arith}
use x_e310_multi_os.Base.Tests.{ltb, ◌==◌, Bool-cases}
use mathlib.Core.Logic.{inl, inr}
use native.Mathlib.Nat.{pow-suc, pow-zero}
use x_e310_multi_os.Base.Lists.{length, is_empty}
use x_e310_multi_os.Base.Int.{pos}
use x_e310_multi_os.Base.Text.{is_digit, is_space, digits_from, atoi}

-- `digits` is the number of digits that there is room for.
unfoldable pub show_before : ℕ → ℕ → List ℕ → List ℕ
show_before zero n out = out
show_before (suc digits) n out = elim (ltb n 10) [
  | true ↦ (48 + n) ∷ out
  | false ↦ show_before digits (n / 10) ((48 + n % 10) ∷ out)
]

-- A number of at most 64 bits has at most twenty digits.
unfoldable pub show : ℕ → List ℕ
unfolding show_before
show n = show_before 20 n []

digits_from-digit :
    (n d : ℕ) (s : List ℕ) → d < 10 → digits_from n ((48 + d) ∷ s) ≡ digits_from (10 * n + d) s
unfolding digits_from is_digit
digits_from-digit n d s h =
    let known : is_digit (48 + d) ≡ true = ground arith in
    rw known (ap (λ m. digits_from m s) (omega arith))

digits_from-show_before :
    (digits n : ℕ) (out : List ℕ)
    → n < 10 ^ digits
    → digits_from 0 (show_before digits n out) ≡ digits_from n out
unfolding show_before
digits_from-show_before zero n out h = ap (λ m. digits_from m out) (omega (arith, pow-zero 10))
digits_from-show_before (suc digits) n out h = elim (Bool-cases (ltb n 10)) [
  | inl last ↦
      rw (last, show_before)
        (digits_from-digit 0 n out (ground arith) ∙ ap (λ m. digits_from m out) (omega arith))
  | inr more ↦
      rw (more, show_before)
        (digits_from-show_before digits (n / 10) ((48 + n % 10) ∷ out)
            (omega (arith, pow-suc 10 digits))
          ∙ digits_from-digit (n / 10) (n % 10) out (omega arith)
          ∙ ap (λ m. digits_from m out) (omega arith))
]

-- What is printed is read back, up to the first byte that is no digit.
pub digits_from-show : (n : ℕ) → n < 10 ^ 20 → digits_from 0 (show n) ≡ n
unfolding show digits_from
digits_from-show n h = digits_from-show_before 20 n [] h

abbrev pub all_digits : List ℕ → Bool
unfolding is_digit
all_digits [] = true
all_digits (c ∷ s) = is_digit c && all_digits s

show_before-all_digits :
    (digits n : ℕ) (out : List ℕ)
    → all_digits out ≡ true
    → all_digits (show_before digits n out) ≡ true
unfolding show_before is_digit
show_before-all_digits zero n out h = h
show_before-all_digits (suc digits) n out h = elim (Bool-cases (ltb n 10)) [
  | inl last ↦ rw (last, show_before) (ground arith)
  | inr more ↦
      let out' = (48 + n % 10) ∷ out in
      let more_digits : all_digits out' ≡ true = ground arith in
      rw (more, show_before) (show_before-all_digits digits (n / 10) out' more_digits)
]

pub show-all_digits : (n : ℕ) → all_digits (show n) ≡ true
unfolding show is_digit
show-all_digits n = show_before-all_digits 20 n [] refl

show_before-length :
    (digits n : ℕ) (out : List ℕ) → length (show_before digits n out) ≤ digits + length out
unfolding show_before
show_before-length zero n out = omega arith
show_before-length (suc digits) n out = elim (Bool-cases (ltb n 10)) [
  | inl last ↦ rw (last, show_before) (omega arith)
  | inr more ↦
      rw (more, show_before)
        (omega (arith, show_before-length digits (n / 10) ((48 + n % 10) ∷ out)))
]

pub show-length : (n : ℕ) → length (show n) ≤ 20
unfolding show
show-length n = show_before-length 20 n []

show_before-some :
    (digits n : ℕ) (out : List ℕ)
    → is_empty out ≡ false
    → is_empty (show_before digits n out) ≡ false
unfolding show_before
show_before-some zero n out h = h
show_before-some (suc digits) n out h = elim (Bool-cases (ltb n 10)) [
  | inl last ↦ rw (last, show_before) refl
  | inr more ↦ rw (more, show_before) (show_before-some digits (n / 10) ((48 + n % 10) ∷ out) refl)
]

pub show-some : (n : ℕ) → is_empty (show n) ≡ false
unfolding show show_before
show-some n = elim (Bool-cases (ltb n 10)) [
  | inl last ↦ rw (last, show_before) refl
  | inr more ↦ rw (more, show_before) (show_before-some 19 (n / 10) ((48 + n % 10) ∷ []) refl)
]

atoi-digits :
    (s : List ℕ) → all_digits s ≡ true → is_empty s ≡ false → atoi s ≡ pos (digits_from 0 s)
unfolding atoi is_space is_digit
atoi-digits [] h e = absurd (cc)
atoi-digits (c ∷ s) h e =
    let no_space : is_space c ≡ false = ground arith in
    let no_minus : (c == 45) ≡ false = ground arith in
    let no_plus : (c == 43) ≡ false = ground arith in rw (no_space, no_minus, no_plus) refl

-- `std::atoi` reads what `%u` printed.
pub atoi-show : (n : ℕ) → n < 10 ^ 20 → atoi (show n) ≡ pos n
atoi-show n h =
    atoi-digits (show n) (show-all_digits n) (show-some n) ∙ ap pos (digits_from-show n h)
