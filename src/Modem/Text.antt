-- ===== src/Modem/Text.antt =====
-- How src/xe310.cpp takes an answer apart: the tokens between commas, the trimming of each, and the
-- casts of the numbers that `std::atoi` and `std::strtoull` read.
pub mod Fields
pub mod Hex
pub mod Joined
use x_e310_multi_os.Base.{
  ℕ, zero, suc, ◌+◌, ◌-◌, ◌*◌, ◌%◌, ◌^◌, min, ℤ, pos, negsuc, Bool, true, false, ◌&&◌, ◌||◌, List,
  [], ◌∷◌, ◌==◌, ltb, leb, if◌then◌else◌, is_empty, take, length, before, after, skip_spaces,
  is_space, is_digit, digits_from, codes, has_prefix, drop, Option, none, some,
}
use x_e310_multi_os.AtCommand.{line_of, after_line}
use x_e310_multi_os.ModemController.{find_word}
use x_e310_multi_os.Modem.Types.{RadioTech, RegStatus, PsmMode, GnssFixType}

-- The loop `while (!sv.empty() && count < max)`: tokens between commas, each trimmed. A comma at the
-- very end starts no token.
unfoldable pub tokens : (List ℕ → List ℕ) → ℕ → List ℕ → List (List ℕ)
unfolding before after
tokens trim zero s = []
tokens trim (suc max) [] = []
tokens trim (suc max) (c ∷ s) =
    trim (before b',' (c ∷ s))
    ∷ elim (after b',' (c ∷ s)) [ none ↦ [] | some rest ↦ tokens trim max rest ]

-- Field i, if there are as many.
abbrev pub field : ℕ → List (List ℕ) → Option (List ℕ)
field i [] = none
field zero (f ∷ fields) = some f
field (suc i) (f ∷ fields) = field i fields

-- `if (field_count > i) value = read(field);`
abbrev pub read_field {ℓ} : {A : Type ℓ} → (List ℕ → A) → A → Option (List ℕ) → A
read_field read old none = old
read_field read old (some f) = read f

-- The bytes of " \t\"".
abbrev pub is_quote_blank : ℕ → Bool
is_quote_blank c = c == 32 || c == 9 || c == 34

abbrev pub is_tab_blank : ℕ → Bool
is_tab_blank c = c == 32 || c == 9

unfoldable pub strip_left : (ℕ → Bool) → List ℕ → List ℕ
strip_left out [] = []
strip_left out (c ∷ s) = if out c then strip_left out s else c ∷ s

unfoldable pub strip_right : (ℕ → Bool) → List ℕ → List ℕ
strip_right out [] = []
strip_right out (c ∷ s) =
    let rest = strip_right out s in if out c && is_empty rest then [] else c ∷ rest

-- `token.substr(fs, fe - fs + 1)` for the first and the last byte that stay.
unfoldable pub strip : (ℕ → Bool) → List ℕ → List ℕ
unfolding strip_left strip_right
strip out s = strip_right out (strip_left out s)

-- The string in a `char` array that took what fits and a zero byte.
unfoldable pub c_str : ℕ → List ℕ → List ℕ
unfolding before
c_str size s = before 0 (take size s)

abbrev pub last_is : ℕ → List ℕ → Bool
last_is c [] = false
last_is c (x ∷ []) = x == c
last_is c (x ∷ y ∷ s) = last_is c (y ∷ s)

abbrev pub first_is : ℕ → List ℕ → Bool
first_is c [] = false
first_is c (x ∷ s) = x == c

-- `s.substr(1, s.size() - 2)` if quotes stand at both ends.
unfoldable pub strip_quotes : List ℕ → List ℕ
strip_quotes s =
    if ltb 1 (length s) && (first_is 34 s && last_is 34 s)
    then take (length s - 2) (drop 1 s)
    else s

-- `static_cast` to an unsigned type of `modulus` values.
abbrev pub wrap : ℕ → ℤ → ℕ
wrap modulus (pos n) = n % modulus
wrap modulus (negsuc n) = modulus - 1 - n % modulus

abbrev pub reg_status_of : ℕ → RegStatus
reg_status_of n =
    if n == 0
    then RegStatus.not_registered
    else if n == 1
    then RegStatus.registered_home
    else if n == 2
    then RegStatus.searching
    else if n == 3
    then RegStatus.denied
    else if n == 4
    then RegStatus.unknown
    else if n == 5
    then RegStatus.registered_roaming
    else if n == 6
    then RegStatus.sms_only
    else if n == 7
    then RegStatus.sms_only_roaming
    else if n == 8
    then RegStatus.emergency
    else if n == 9
    then RegStatus.csfb_home
    else if n == 10
    then RegStatus.csfb_roaming
    else RegStatus.other n

-- An int8_t as its byte: -1 is 255.
abbrev pub radio_tech_of : ℕ → RadioTech
radio_tech_of n =
    if n == 255
    then RadioTech.unknown
    else if n == 0
    then RadioTech.gsm
    else if n == 6
    then RadioTech.lte
    else if n == 7
    then RadioTech.cat_m1
    else if n == 9
    then RadioTech.nb_iot
    else RadioTech.other n

abbrev pub psm_mode_of : ℕ → PsmMode
psm_mode_of n =
    if n == 0 then PsmMode.disable else if n == 1 then PsmMode.enable else PsmMode.other n

abbrev pub fix_type_of : ℕ → GnssFixType
fix_type_of n =
    if n == 0
    then GnssFixType.invalid
    else if n == 1
    then GnssFixType.invalid_fix
    else if n == 2
    then GnssFixType.fix_2d
    else if n == 3
    then GnssFixType.fix_3d
    else GnssFixType.other n

-- The digits at the front, and what follows them.
unfoldable pub after_digits : List ℕ → List ℕ
unfolding is_digit
after_digits [] = []
after_digits (c ∷ s) = let rest = after_digits s in if is_digit c then rest else c ∷ s

abbrev pub max_u64 : ℕ
max_u64 = 2 ^ 64 - 1

-- `std::strtoull` in base 10 on the digits after the sign: too large a number gives the largest.
unfoldable pub magnitude : List ℕ → ℕ
unfolding digits_from
magnitude s = min (digits_from 0 s) max_u64

abbrev pub starts_digit : List ℕ → Bool
starts_digit [] = false
starts_digit (c ∷ s) = is_digit c

-- The value of a number with a minus sign.
abbrev pub negated_u64 : ℕ → ℕ
negated_u64 n = if leb n max_u64 then (2 ^ 64 - n) % 2 ^ 64 else max_u64

-- The value and what follows it, `none` where there is no number.
abbrev pub unsigned_of : List ℕ → Option (ℕ × List ℕ)
unsigned_of s = if starts_digit s then some (magnitude s, after_digits s) else none

abbrev pub negated_of : List ℕ → Option (ℕ × List ℕ)
unfolding digits_from
negated_of s = if starts_digit s then some (negated_u64 (digits_from 0 s), after_digits s) else none

unfoldable pub strtoull : List ℕ → Option (ℕ × List ℕ)
unfolding is_space magnitude after_digits is_digit digits_from
strtoull [] = none
strtoull (c ∷ s) =
    let rest = strtoull s in
    if is_space c
    then rest
    else if c == 43
    then unsigned_of s
    else if c == 45
    then negated_of s
    else unsigned_of (c ∷ s)

-- The lines of a body that are joined by "\r\n".
unfoldable pub lines_of : ℕ → List ℕ → List (List ℕ)
unfolding line_of after_line
lines_of zero s = []
lines_of (suc fuel) [] = []
lines_of (suc fuel) (c ∷ s) = line_of (c ∷ s) ∷ lines_of fuel (after_line (c ∷ s))

unfoldable pub body_lines : List ℕ → List (List ℕ)
unfolding lines_of
body_lines body = lines_of (length body) body

-- What stands after the first place of a word.
unfoldable pub after_word : List ℕ → List ℕ → Option (List ℕ)
unfolding find_word
after_word word s = elim (find_word word s) [ none ↦ none | some t ↦ some (drop (length word) t) ]

-- What stands before the last `c`, if there is one.
unfoldable pub before_last : ℕ → List ℕ → Option (List ℕ)
before_last c [] = none
before_last c (x ∷ s) = elim (before_last c s) [
  | none ↦ if x == c then some [] else none
  | some t ↦ some (x ∷ t)
]
