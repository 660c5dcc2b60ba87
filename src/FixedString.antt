-- ===== src/FixedString.antt =====
-- `FixedString` (include/hal/fixed_string.h) as the list of its bytes, and `StaticVector`
-- (include/hal/static_vector.h) as the list of its elements: what does not fit is left out.
pub mod Ops
use x_e310_multi_os.Base.{
  append-nil, zero, suc, ℕ, ◌+◌, ◌-◌, ◌≤◌, min, Bool, true, false, List, [], ◌∷◌, ◌++◌, take, drop,
  length, length-append, length-take, leb, ltb, ◌==◌, ◌||◌, ◌%◌, ◌^◌, Option, none, some,
  if◌then◌else◌, arith, ◌≡◌, take-all, refl,
}

-- The constructor from a view.
unfoldable pub of_view : ℕ → List ℕ → List ℕ
of_view capacity s = take (min (length s) capacity) s

unfoldable pub append : ℕ → List ℕ → List ℕ → List ℕ
append capacity buf s = buf ++ take (min (length s) (capacity - length buf)) s

abbrev pub npos : ℕ
npos = 2 ^ 64 - 1

-- `erase` of `count` bytes at `pos`; the sum of the two is a `size_t` of 64 bits. `none` is for a sum
-- that wraps round to a place inside the string: the copy and the new size then go beyond the array.
unfoldable pub erase : ℕ → ℕ → List ℕ → Option (List ℕ)
erase pos count buf =
    if leb (length buf) pos
    then some buf
    else if count == npos || leb (length buf) ((pos + count) % 2 ^ 64)
    then some (take pos buf)
    else if ltb (pos + count) (2 ^ 64)
    then some (take pos buf ++ drop (pos + count) buf)
    else none

-- `StaticVector::push_back`, whose result says whether there was room.
unfoldable pub push_back {ℓ} : {A : Type ℓ} → ℕ → List A → A → Bool × List A
push_back capacity xs x = if leb capacity (length xs) then (false, xs) else (true, xs ++ (x ∷ []))

pub of_view-bounded : (capacity : ℕ) (s : List ℕ) → length (of_view capacity s) ≤ capacity
unfolding of_view
of_view-bounded capacity s = omega (arith, length-take (min (length s) capacity) s)

pub append-bounded :
    (capacity : ℕ) (buf s : List ℕ)
    → length buf ≤ capacity
    → length (append capacity buf s) ≤ capacity
unfolding append
append-bounded capacity buf s h =
    let n = min (length s) (capacity - length buf) in
    omega (arith, length-append buf (take n s), length-take n s)

take-none : {A : Type 0} (n : ℕ) (s : List A) → n ≡ 0 → take n s ≡ []
take-none zero s e = refl
take-none (suc n) s e = absurd (omega arith)

pub append-full :
    (capacity : ℕ) (buf s : List ℕ) → capacity ≤ length buf → append capacity buf s ≡ buf
unfolding append
append-full capacity buf s h =
    rw (take-none (min (length s) (capacity - length buf)) s (omega arith), append-nil buf) refl

-- What fits is appended whole.
pub append-fits :
    (capacity : ℕ) (buf s : List ℕ)
    → length buf + length s ≤ capacity
    → append capacity buf s ≡ buf ++ s
unfolding append
append-fits capacity buf s h =
    rw (take-all (min (length s) (capacity - length buf)) s (omega arith)) refl

pub push_back-bounded {ℓ} :
    {A : Type ℓ} (capacity : ℕ) (xs : List A) (x : A)
    → length xs ≤ capacity
    → length (push_back capacity xs x).1 ≤ capacity
unfolding push_back
push_back-bounded capacity xs x h = ground (arith, length-append xs (x ∷ []))

pub of_view-fits : (capacity : ℕ) (s : List ℕ) → length s ≤ capacity → of_view capacity s ≡ s
unfolding of_view
of_view-fits capacity s h = take-all (min (length s) capacity) s (omega arith)
