-- ===== src/FixedString/Ops.antt =====
-- The operations that change a `FixedString` (include/hal/fixed_string.h) or a `StaticVector`
-- (include/hal/static_vector.h), and that none of them outgrows its array.
use x_e310_multi_os.Base.{
  ℕ, zero, suc, ◌+◌, ◌-◌, ◌≤◌, min, ◌≡◌, refl, Bool, true, false, List, [], ◌∷◌, ◌++◌, take, drop,
  length, length-append, length-take, length-drop, leb, ltb, before, if◌then◌else◌, arith, ◌==◌,
  ◌||◌, ◌&&◌, ◌^◌, ◌%◌, Option, none, some, Bool-cases, inl, inr,
}
use x_e310_multi_os.FixedString.{npos, of_view, append, erase, of_view-bounded, append-bounded}

-- From a string that ends with a zero byte.
unfoldable pub of_c_str : ℕ → List ℕ → List ℕ
unfolding of_view before
of_c_str capacity s = of_view capacity (before 0 s)

-- `operator+=` of a byte.
unfoldable pub append_char : ℕ → List ℕ → ℕ → List ℕ
append_char capacity buf c = if ltb (length buf) capacity then buf ++ (c ∷ []) else buf

-- A count beyond the end stands for `NPOS`.
unfoldable pub substr : ℕ → ℕ → ℕ → List ℕ → List ℕ
unfolding of_view
substr capacity pos count buf =
    if leb (length buf) pos
    then []
    else of_view capacity (take (min count (length buf - pos)) (drop pos buf))

-- `behind` is what the array holds behind the string.
unfoldable pub set_size : ℕ → ℕ → List ℕ → List ℕ → List ℕ
set_size capacity n behind buf = take (min n capacity) (buf ++ behind)

-- The calls that change a string.
pub data StringOp : Type 0 where
  assign_view assign_c_str append_view : List ℕ → StringOp
  append_byte : ℕ → StringOp
  clear : StringOp
  erase_at : ℕ → ℕ → StringOp
  resize_to : ℕ → List ℕ → StringOp

-- `none` for a call that leaves the array.
unfoldable pub run_string : ℕ → StringOp → List ℕ → Option (List ℕ)
unfolding of_view of_c_str append append_char erase set_size
run_string capacity (assign_view s) buf = some (of_view capacity s)
run_string capacity (assign_c_str s) buf = some (of_c_str capacity s)
run_string capacity (append_view s) buf = some (append capacity buf s)
run_string capacity (append_byte c) buf = some (append_char capacity buf c)
run_string capacity clear buf = some []
run_string capacity (erase_at pos count) buf = erase pos count buf
run_string capacity (resize_to n behind) buf = some (set_size capacity n behind buf)

unfoldable pub run_strings : ℕ → List StringOp → List ℕ → Option (List ℕ)
unfolding run_string
run_strings capacity [] buf = some buf
run_strings capacity (op ∷ ops) buf = elim (run_string capacity op buf) [
  | none ↦ none
  | some s ↦ run_strings capacity ops s
]

-- An `erase` whose sum does not wrap round, and any other call.
abbrev pub stays_in_range : StringOp → Bool
stays_in_range (erase_at pos count) = count == npos || ltb (pos + count) (2 ^ 64)
stays_in_range _ = true

abbrev pub all_in_range : List StringOp → Bool
all_in_range [] = true
all_in_range (op ∷ ops) = stays_in_range op && all_in_range ops

append_char-bounded :
    (capacity : ℕ) (buf : List ℕ) (c : ℕ)
    → length buf ≤ capacity
    → length (append_char capacity buf c) ≤ capacity
unfolding append_char
append_char-bounded capacity buf c h = ground (arith, length-append buf (c ∷ []))

-- A call that returns a string that fits.
abbrev Fits : ℕ → Option (List ℕ) → Type 0
Fits capacity r = (s : List ℕ) × (r ≡ some s) × (length s ≤ capacity)

erase-Fits :
    (capacity pos count : ℕ) (buf : List ℕ)
    → (count == npos || ltb (pos + count) (2 ^ 64)) ≡ true
    → length buf ≤ capacity
    → Fits capacity (erase pos count buf)
unfolding erase
erase-Fits capacity pos count buf inside h =
    let front = take pos buf in
    let front_fits : length front ≤ capacity = omega (arith, h, length-take pos buf) in
    elim (Bool-cases (leb (length buf) pos)) [
      | inl out ↦ (buf, rw out refl, h)
      | inr here ↦ elim (Bool-cases (count == npos || leb (length buf) ((pos + count) % 2 ^ 64))) [
        | inl tail ↦ (front, rw (here, tail) refl, front_fits)
        | inr middle ↦
            let no_wrap : ltb (pos + count) (2 ^ 64) ≡ true = ground arith in
            (
              front ++ drop (pos + count) buf,
              rw (here, middle, no_wrap) refl,
              omega (
                arith,
                h,
                length-take pos buf,
                length-append front (drop (pos + count) buf),
                length-drop (pos + count) buf,
              ),
            )
      ]
    ]

run_string-Fits :
    (capacity : ℕ) (op : StringOp) (buf : List ℕ)
    → stays_in_range op ≡ true
    → length buf ≤ capacity
    → Fits capacity (run_string capacity op buf)
unfolding run_string of_c_str set_size
run_string-Fits capacity (assign_view s) buf inside h =
    (of_view capacity s, refl, of_view-bounded capacity s)
run_string-Fits capacity (assign_c_str s) buf inside h =
    (of_c_str capacity s, refl, of_view-bounded capacity (before 0 s))
run_string-Fits capacity (append_view s) buf inside h =
    (append capacity buf s, refl, append-bounded capacity buf s h)
run_string-Fits capacity (append_byte c) buf inside h =
    (append_char capacity buf c, refl, append_char-bounded capacity buf c h)
run_string-Fits capacity clear buf inside h = ([], refl, omega arith)
run_string-Fits capacity (erase_at pos count) buf inside h =
    erase-Fits capacity pos count buf inside h
run_string-Fits capacity (resize_to n behind) buf inside h = (
  set_size capacity n behind buf,
  refl,
  omega (arith, length-take (min n capacity) (buf ++ behind)),
)

-- Whatever is done to a string, in whatever order, it stays in its array, if no `erase` has a
-- position and a count (other than `NPOS`) whose sum does not fit 64 bits.
pub run_strings-bounded :
    (capacity : ℕ) (ops : List StringOp) (buf : List ℕ)
    → all_in_range ops ≡ true
    → length buf ≤ capacity
    → (s : List ℕ) × (run_strings capacity ops buf ≡ some s) × (length s ≤ capacity)
unfolding run_strings
run_strings-bounded capacity [] buf inside h = (buf, refl, h)
run_strings-bounded capacity (op ∷ ops) buf inside h =
    let (s₁, one, fits) = run_string-Fits capacity op buf (ground arith) h in
    let (s, others, still_fits) = run_strings-bounded capacity ops s₁ (ground arith) fits in
    (s, rw (run_strings, one) others, still_fits)

module _ {ℓ} {A : Type ℓ} where
  -- From a range or an initializer list, and `assign`.
  unfoldable pub of_range : ℕ → List A → List A
  of_range capacity xs = take (min (length xs) capacity) xs

  unfoldable pub pop_back : List A → List A
  pop_back xs = take (length xs - 1) xs

  abbrev pub copies : ℕ → A → List A
  copies zero x = []
  copies (suc n) x = x ∷ copies n x

  -- Elements that come to the vector are copies of `x`.
  unfoldable pub resize : ℕ → ℕ → A → List A → List A
  resize capacity n x xs =
      let size = min n capacity in
      if ltb (length xs) size then xs ++ copies (size - length xs) x else take size xs

  length-copies : (n : ℕ) (x : A) → length (copies n x) ≡ n
  length-copies zero x = refl
  length-copies (suc n) x = omega (arith, length-copies n x)

  -- A vector has the size that it is resized to, or its capacity if that is less.
  length-resize :
      (capacity n : ℕ) (x : A) (xs : List A) → length (resize capacity n x xs) ≡ min n capacity
  unfolding resize
  length-resize capacity n x xs = ground (
    arith,
    length-take (min n capacity) xs,
    length-append xs (copies (min n capacity - length xs) x),
    length-copies (min n capacity - length xs) x,
  )

  -- Elements are compared by `same`.
  unfoldable pub equals : (A → A → Bool) → List A → List A → Bool
  equals same [] [] = true
  equals same (x ∷ xs) (y ∷ ys) = let rest = equals same xs ys in if same x y then rest else false
  equals same _ _ = false
