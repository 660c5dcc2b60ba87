-- ===== src/Base/Commas.antt =====
-- Fields that are joined by commas: what stands before the first comma, and after it.
use Prim.Native.Nat.{ℕ}
use mathlib.Core.Path.{◌≡◌, refl}
use mathlib.Core.Bool.{Bool, true, not, ◌&&◌}
use mathlib.Core.List.{List, [], ◌∷◌, ◌++◌}
use mathlib.Core.Option.{none, some}
use native.Mathlib.Omega.{arith}
use x_e310_multi_os.Base.Tests.{◌==◌}
use x_e310_multi_os.Base.Text.{before, after}

-- No byte of the field is a comma.
abbrev pub no_comma : List ℕ → Bool
no_comma [] = true
no_comma (c ∷ s) = not (c == 44) && no_comma s

-- The fields with a comma between any two.
abbrev pub comma_joined : List ℕ → List (List ℕ) → List ℕ
comma_joined f [] = f
comma_joined f (g ∷ fields) = f ++ (44 ∷ comma_joined g fields)

pub before-comma : (f rest : List ℕ) → no_comma f ≡ true → before 44 (f ++ (44 ∷ rest)) ≡ f
unfolding before
before-comma [] rest h = refl
before-comma (c ∷ s) rest h = ground (arith, before-comma s rest)

pub after-comma : (f rest : List ℕ) → no_comma f ≡ true → after 44 (f ++ (44 ∷ rest)) ≡ some rest
unfolding after
after-comma [] rest h = refl
after-comma (c ∷ s) rest h = ground (arith, after-comma s rest)

pub before-all : (f : List ℕ) → no_comma f ≡ true → before 44 f ≡ f
unfolding before
before-all [] h = refl
before-all (c ∷ s) h = ground (arith, before-all s)

pub after-all : (f : List ℕ) → no_comma f ≡ true → after 44 f ≡ none
unfolding after
after-all [] h = refl
after-all (c ∷ s) h = ground (arith, after-all s)
