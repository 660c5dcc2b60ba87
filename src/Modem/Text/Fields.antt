-- ===== src/Modem/Text/Fields.antt =====
-- What the tokens of src/xe310.cpp are for fields that were joined by commas, and what the trimming
-- leaves of a field in quotes and of a number.
use x_e310_multi_os.Base.{
  show-all_digits, no_comma, comma_joined, before-comma, after-comma, before-all, after-all,
  all_digits, ℕ, zero, suc, ◌≤◌, ◌≡◌, refl, ap, ◌∙◌, Bool, true, false, ◌&&◌, ◌||◌, not, List, [],
  ◌∷◌, ◌++◌, map, length, take-all, is_empty, ◌==◌, before, arith, show, is_digit,
}
use x_e310_multi_os.Modem.Text.{tokens, strip, strip_left, strip_right, is_quote_blank, c_str}

-- No comma, blank, tab, quote or zero byte.
abbrev pub is_plain_byte : ℕ → Bool
is_plain_byte c = not (c == 44 || is_quote_blank c || c == 0)

abbrev pub is_plain : List ℕ → Bool
is_plain [] = true
is_plain (c ∷ s) = is_plain_byte c && is_plain s

-- Fields between which commas can stand.
abbrev pub Joinable : List (List ℕ) → Type 0
Joinable [] = Unit {0}
Joinable (f ∷ fields) = (no_comma f ≡ true) × (is_empty f ≡ false) × Joinable fields

tokens-last :
    (trim : List ℕ → List ℕ) (max : ℕ) (f : List ℕ)
    → no_comma f ≡ true
    → is_empty f ≡ false
    → tokens trim (suc max) f ≡ trim f ∷ []
unfolding tokens
tokens-last trim max [] h e = absurd (cc)
tokens-last trim max (c ∷ s) h e = rw (before-all (c ∷ s) h, after-all (c ∷ s) h) refl

tokens-comma :
    (trim : List ℕ → List ℕ) (max : ℕ) (f rest : List ℕ)
    → no_comma f ≡ true
    → is_empty f ≡ false
    → tokens trim (suc max) (f ++ (44 ∷ rest)) ≡ trim f ∷ tokens trim max rest
unfolding tokens
tokens-comma trim max [] rest h e = absurd (cc)
tokens-comma trim max (c ∷ s) rest h e =
    rw (before-comma (c ∷ s) rest h, after-comma (c ∷ s) rest h) refl

-- Fields that are not empty and hold no comma are found again, each trimmed.
pub tokens-joined :
    (trim : List ℕ → List ℕ) (max : ℕ) (f : List ℕ) (fields : List (List ℕ))
    → Joinable (f ∷ fields)
    → length (f ∷ fields) ≤ max
    → tokens trim max (comma_joined f fields) ≡ map trim (f ∷ fields)
tokens-joined trim zero f fields h le = absurd (omega arith)
tokens-joined trim (suc max) f [] (plain, some_byte, rest) le =
    tokens-last trim max f plain some_byte
tokens-joined trim (suc max) f (g ∷ fields) (plain, some_byte, rest) le =
    tokens-comma trim max f (comma_joined g fields) plain some_byte
    ∙ ap (λ gs. trim f ∷ gs) (tokens-joined trim max g fields rest (omega arith))

pub is_plain-no_comma : (s : List ℕ) → is_plain s ≡ true → no_comma s ≡ true
is_plain-no_comma [] h = refl
is_plain-no_comma (c ∷ s) h = ground (arith, is_plain-no_comma s)

no_comma-append : (f g : List ℕ) → no_comma f ≡ true → no_comma g ≡ true → no_comma (f ++ g) ≡ true
no_comma-append [] g h k = k
no_comma-append (c ∷ s) g h k = ground (arith, no_comma-append s g)

-- A plain text in quotes holds no comma.
pub quoted-no_comma : (s : List ℕ) → is_plain s ≡ true → no_comma (34 ∷ s ++ 34 ∷ []) ≡ true
quoted-no_comma s h = no_comma-append s (34 ∷ []) (is_plain-no_comma s h) refl

strip_right-plain : (s : List ℕ) → is_plain s ≡ true → strip_right is_quote_blank s ≡ s
unfolding strip_right
strip_right-plain [] h = refl
strip_right-plain (c ∷ s) h = ground (arith, strip_right-plain s)

strip_right-quote : (s : List ℕ) → is_plain s ≡ true → strip_right is_quote_blank (s ++ 34 ∷ []) ≡ s
unfolding strip_right
strip_right-quote [] h = refl
strip_right-quote (c ∷ s) h = ground (arith, strip_right-quote s)

pub strip-plain : (s : List ℕ) → is_plain s ≡ true → strip is_quote_blank s ≡ s
unfolding strip strip_left
strip-plain [] h = strip_right-plain [] h
strip-plain (c ∷ s) h =
    let stays : is_quote_blank c ≡ false = ground arith in rw stays (strip_right-plain (c ∷ s) h)

pub strip-quoted : (s : List ℕ) → is_plain s ≡ true → strip is_quote_blank (34 ∷ s ++ 34 ∷ []) ≡ s
unfolding strip strip_left
strip-quoted [] h = strip_right-plain [] h
strip-quoted (c ∷ s) h =
    let stays : is_quote_blank c ≡ false = ground arith in rw stays (strip_right-quote (c ∷ s) h)

before-zero : (s : List ℕ) → is_plain s ≡ true → before 0 s ≡ s
unfolding before
before-zero [] h = refl
before-zero (c ∷ s) h = ground (arith, before-zero s)

pub c_str-plain : (n : ℕ) (s : List ℕ) → is_plain s ≡ true → length s ≤ n → c_str n s ≡ s
unfolding c_str
c_str-plain n s h le = rw (take-all n s le) (before-zero s h)

pub all_digits-is_plain : (s : List ℕ) → all_digits s ≡ true → is_plain s ≡ true
unfolding is_digit
all_digits-is_plain [] h = refl
all_digits-is_plain (c ∷ s) h = ground (arith, all_digits-is_plain s)

-- A printed number holds no comma.
pub show-no_comma : (n : ℕ) → no_comma (show n) ≡ true
show-no_comma n = is_plain-no_comma (show n) (all_digits-is_plain (show n) (show-all_digits n))
