-- ===== src/Modem/Text/Hex.antt =====
-- `std::strtoul` and `std::strtoull` in base 16 and in base 0, as src/xe310.cpp reads the codes of a
-- cell.
use x_e310_multi_os.Base.{
  ℕ, ◌+◌, ◌-◌, ◌*◌, min, digits_from, ◌&&◌, ◌||◌, List, [], ◌∷◌, leb, ◌==◌, if◌then◌else◌, is_space,
  Option, none, some,
}
use x_e310_multi_os.Modem.Text.{max_u64, negated_u64}

unfoldable pub hex_digit : ℕ → Option ℕ
hex_digit c =
    if leb 48 c && leb c 57
    then some (c - 48)
    else if leb 65 c && leb c 70
    then some (c - 55)
    else if leb 97 c && leb c 102
    then some (c - 87)
    else none

unfoldable pub hex_from : ℕ → List ℕ → ℕ
unfolding hex_digit
hex_from n [] = n
hex_from n (c ∷ s) = elim (hex_digit c) [ none ↦ n | some d ↦ hex_from (16 * n + d) s ]

-- An "0x" in front is passed over.
abbrev pub hex_value : List ℕ → ℕ
unfolding hex_from
hex_value [] = 0
hex_value (c ∷ []) = hex_from 0 (c ∷ [])
hex_value (c ∷ x ∷ s) =
    if c == 48 && (x == 120 || x == 88) then hex_from 0 s else hex_from 0 (c ∷ x ∷ s)

unfoldable pub octal_from : ℕ → List ℕ → ℕ
octal_from n [] = n
octal_from n (c ∷ s) =
    let rest = octal_from (8 * n + (c - 48)) s in if leb 48 c && leb c 55 then rest else n

-- Base 0: "0x" stands for base 16 and "0" for base 8.
abbrev pub any_value : List ℕ → ℕ
unfolding hex_from octal_from digits_from
any_value [] = 0
any_value (c ∷ []) = digits_from 0 (c ∷ [])
any_value (c ∷ x ∷ s) =
    if c == 48 && (x == 120 || x == 88)
    then hex_from 0 s
    else if c == 48
    then octal_from 0 (x ∷ s)
    else digits_from 0 (c ∷ x ∷ s)

-- A sign may stand in front. Too large a number gives the largest, whatever its sign.
abbrev pub signed_value : (List ℕ → ℕ) → List ℕ → ℕ
signed_value value [] = 0
signed_value value (c ∷ s) =
    if c == 45
    then negated_u64 (value s)
    else if c == 43
    then min (value s) max_u64
    else min (value (c ∷ s)) max_u64

-- 0 if there is no number.
unfoldable pub strtoul_hex : List ℕ → ℕ
unfolding is_space hex_from
strtoul_hex [] = 0
strtoul_hex (c ∷ s) =
    let rest = strtoul_hex s in if is_space c then rest else signed_value hex_value (c ∷ s)

-- Base 0.
unfoldable pub strtoul : List ℕ → ℕ
unfolding is_space hex_from octal_from digits_from
strtoul [] = 0
strtoul (c ∷ s) =
    let rest = strtoul s in if is_space c then rest else signed_value any_value (c ∷ s)
