-- ===== src/Base/Text.antt =====
-- What the source uses of `std::string_view` and the C library on byte strings.
use Prim.Native.Nat.{ℕ, zero, suc, ◌+◌, ◌-◌, ◌*◌}
use mathlib.Core.Bool.{Bool, ◌&&◌, ◌||◌}
use mathlib.Core.List.{List, [], ◌∷◌}
use mathlib.Core.Option.{Option, none, some}
use x_e310_multi_os.Base.Tests.{◌==◌, leb, if◌then◌else◌}
use x_e310_multi_os.Base.Lists.{take, length}
use x_e310_multi_os.Base.Int.{ℤ, pos, negsuc}
use x_e310_multi_os.Base.Bytes.{bytes_eq}

-- `s.substr(0, n) == prefix` for a prefix of n bytes.
unfoldable pub has_prefix : List ℕ → List ℕ → Bool
unfolding bytes_eq
has_prefix prefix s = bytes_eq (take (length prefix) s) prefix

-- What stands before the first `c`, and after it if there is one.
unfoldable pub before : ℕ → List ℕ → List ℕ
before c [] = []
before c (x ∷ s) = if x == c then [] else x ∷ before c s

unfoldable pub after : ℕ → List ℕ → Option (List ℕ)
after c [] = none
after c (x ∷ s) = if x == c then some s else after c s

-- `s.substr(s.find_first_not_of(' '))`, empty if there is nothing else.
unfoldable pub skip_spaces : List ℕ → List ℕ
skip_spaces [] = []
skip_spaces (x ∷ s) = if x == b' ' then skip_spaces s else x ∷ s

-- `std::isspace` in the C locale.
unfoldable pub is_space : ℕ → Bool
is_space c = c == 32 || leb 9 c && leb c 13

unfoldable pub is_digit : ℕ → Bool
is_digit c = leb 48 c && leb c 57

unfoldable pub digits_from : ℕ → List ℕ → ℕ
unfolding is_digit
digits_from n [] = n
digits_from n (c ∷ s) =
    let rest = digits_from (10 * n + (c - 48)) s in if is_digit c then rest else n

abbrev pub negate : ℕ → ℤ
negate zero = pos 0
negate (suc n) = negsuc n

abbrev pub signed : List ℕ → ℤ
signed [] = pos 0
signed (c ∷ s) =
    if c == 45
    then negate (digits_from 0 s)
    else if c == 43
    then pos (digits_from 0 s)
    else pos (digits_from 0 (c ∷ s))

-- `std::atoi`, for a value that an `int` holds; for any other its behaviour is undefined.
unfoldable pub atoi : List ℕ → ℤ
unfolding is_space digits_from
atoi [] = pos 0
atoi (c ∷ s) = let rest = atoi s in if is_space c then rest else signed (c ∷ s)
