-- ===== src/Base/Arrays.antt =====
-- A fixed array as the function from index to cell, and the part of it that a ring buffer of
-- `size` cells holds: `n` cells from index `h` on, round the end.
use Prim.Native.Nat.{ℕ, zero, suc, ◌+◌, ◌-◌, ◌%◌, ◌<◌}
use mathlib.Core.Path.{◌≡◌, refl, ap, ap₂, ◌∙◌, sym}
use mathlib.Core.Logic.{◌≢◌}
use mathlib.Core.List.{List, [], ◌∷◌, ◌++◌}
use native.Mathlib.Nat.{mod-add-mod, mod-eq_of_lt, mod-eq-sub-mod, mod-lt, mod-mod, add-zero}
use native.Mathlib.Numerals.{sub-one, add-one}
use native.Mathlib.Decide.{dec_lt}
use native.Mathlib.Omega.{arith}
use x_e310_multi_os.Base.Tests.{◌==◌, if◌then◌else◌}
use x_e310_multi_os.Base.Lists.{length}

next_mod : (size h k : ℕ) → h % size ≡ k % size → (h + 1) % size ≡ (k + 1) % size
next_mod size h k e = sym (mod-add-mod h size 1) ∙ ap (λ x. (x + 1) % size) e ∙ mod-add-mod k size 1

shift : (h j : ℕ) → h + 1 + j ≡ h + suc j
shift h j = omega arith

-- Fewer than `size` steps round the ring do not come back to the start.
step-mod-ne : (size a d : ℕ) → a < size → 0 < d → d < size → a ≢ (a + d) % size
step-mod-ne size a d ha hd hs = elim (dec_lt (a + d) size) [
  | yes p ↦ omega (arith, mod-eq_of_lt p)
  | no p ↦ omega (
    arith,
    mod-eq-sub-mod {n = a + d} {m = size} (omega arith),
    mod-eq_of_lt {n = a + d - size} {m = size} (omega arith),
  )
]

split_sum : (h j n : ℕ) → j < n → h + n ≡ h + j + (n - j)
split_sum h j n lt = omega arith

add-mod-ne : (size h j n : ℕ) → j < n → n < size → (h + n) % size ≢ (h + j) % size
add-mod-ne size h j n jn ns e =
    step-mod-ne size ((h + j) % size) (n - j) (mod-lt (h + j) (omega arith)) (omega arith)
      (omega arith)
      (sym e ∙ ap (λ x. x % size) (split_sum h j n jn) ∙ sym (mod-add-mod (h + j) size (n - j)))

module _ {ℓ} {A : Type ℓ} where
  abbrev pub store : (ℕ → A) → ℕ → A → ℕ → A
  store f i v j = if i == j then v else f j

  pub store_self : (f : ℕ → A) (i : ℕ) (v : A) → store f i v i ≡ v
  store_self f i v = ground arith

  pub store_ne : (f : ℕ → A) (i j : ℕ) (v : A) → i ≢ j → store f i v j ≡ f j
  store_ne f i j v h = ground arith

  abbrev pub window : ℕ → (ℕ → A) → ℕ → ℕ → List A
  window size f h zero = []
  window size f h (suc n) = f (h % size) ∷ window size f (h + 1) n

  pub length-window : (size : ℕ) (f : ℕ → A) (h n : ℕ) → length (window size f h n) ≡ n
  length-window size f h zero = refl
  length-window size f h (suc n) = ap suc (length-window size f (h + 1) n)

  pub window-snoc :
      (size : ℕ) (f : ℕ → A) (h n : ℕ)
      → window size f h (suc n) ≡ window size f h n ++ (f ((h + n) % size) ∷ [])
  window-snoc size f h zero = ap (λ k. f (k % size) ∷ []) (sym (add-zero h))
  window-snoc size f h (suc n) =
      ap (λ r. f (h % size) ∷ r)
        (window-snoc size f (h + 1) n
          ∙ ap (λ k. window size f (h + 1) n ++ (f (k % size) ∷ [])) (shift h n))

  -- The window depends on its start only modulo the size.
  pub window-mod :
      (size : ℕ) (f : ℕ → A) (h k n : ℕ)
      → h % size ≡ k % size
      → window size f h n ≡ window size f k n
  window-mod size f h k zero e = refl
  window-mod size f h k (suc n) e =
      ap₂ (λ i r. f i ∷ r) e (window-mod size f (h + 1) (k + 1) n (next_mod size h k e))

  -- A write to a cell outside the window leaves it as it was.
  pub window-store_ne :
      (size : ℕ) (f : ℕ → A) (i h n : ℕ) (v : A)
      → ((j : ℕ) → j < n → i ≢ (h + j) % size)
      → window size (store f i v) h n ≡ window size f h n
  window-store_ne size f i h zero v out = refl
  window-store_ne size f i h (suc n) v out =
      ap₂ ◌∷◌
        (store_ne f i (h % size) v
          (λ e. out 0 (omega arith) (e ∙ ap (λ k. k % size) (sym (add-zero h)))))
        (window-store_ne size f i (h + 1) n v (λ j lt. rw (shift h j) (out (suc j) (omega arith))))

  -- A write just behind a window that does not fill the ring extends it by the value written.
  pub window-store :
      (size : ℕ) (f : ℕ → A) (h n : ℕ) (v : A)
      → n < size
      → window size (store f ((h + n) % size) v) h (n + 1) ≡ window size f h n ++ (v ∷ [])
  window-store size f h n v lt = rw add-one (
      window-snoc size (store f ((h + n) % size) v) h n
      ∙ ap₂ ◌++◌
          (window-store_ne size f ((h + n) % size) h n v (λ j jn. add-mod-ne size h j n jn lt))
          (ap (λ x. x ∷ []) (store_self f ((h + n) % size) v)))

  -- The front cell of a window, and the window that is left when the start moves past it.
  pub window-front :
      (size : ℕ) (f : ℕ → A) (h n : ℕ) (x : A) (xs : List A)
      → h < size
      → window size f h n ≡ x ∷ xs
      → (0 < n) × (f h ≡ x) × (window size f ((h + 1) % size) (n - 1) ≡ xs)
  window-front size f h zero x xs lt e = cc
  window-front size f h (suc n) x xs lt e = (
    omega arith,
    ap f (sym (mod-eq_of_lt lt)) ∙ cc,
    rw sub-one (window-mod size f ((h + 1) % size) (h + 1) n (mod-mod (h + 1) size) ∙ cc),
  )
