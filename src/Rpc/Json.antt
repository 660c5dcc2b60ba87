-- ===== src/Rpc/Json.antt =====
-- The strings that `json_str` of examples/desktop/rpc_helpers.h writes, read back by the rules of JSON
-- (RFC 8259).
use x_e310_multi_os.Base.{
  ℕ, ◌≡◌, refl, ap, sym, ◌∙◌, Bool, true, false, List, [], ◌∷◌, ◌++◌, append_assoc, ◌==◌, ◌||◌,
  ◌&&◌, not, ltb, if◌then◌else◌, Option, none, some, arith, Bool-cases, inl, inr,
}
use x_e310_multi_os.Rpc.{escape, escaped, json_str}

-- A string and what stands behind it.
abbrev Reading : Type 0
Reading = Option (List ℕ × List ℕ)

unfoldable prefixed : ℕ → Reading → Reading
prefixed c none = none
prefixed c (some (s, rest)) = some (c ∷ s, rest)

-- The byte that JSON's escape of one letter stands for, if there is such an escape. `\u`, which
-- `json_str` never writes, is left out.
unfoldable unescaped : ℕ → Option ℕ
unescaped c =
    if c == 34 || c == 92 || c == b'/'
    then some c
    else if c == b'n'
    then some 10
    else if c == b'r'
    then some 13
    else if c == b't'
    then some 9
    else if c == b'b'
    then some 8
    else if c == b'f'
    then some 12
    else none

-- The inside of a JSON string up to its closing quote, by the rules of JSON: a control byte must not
-- stand in it. `after_backslash` says what came before. Bytes from 128 on are taken as they are.
unfoldable read_inside : (after_backslash : Bool) → List ℕ → Reading
unfolding prefixed unescaped
read_inside _ [] = none
read_inside true (c ∷ s) = elim (unescaped c) [
  | none ↦ none
  | some d ↦ prefixed d (read_inside false s)
]
read_inside false (c ∷ s) = elim (c == 34) [
  | true ↦ some ([], s)
  | false ↦ elim (c == 92) [
    | true ↦ read_inside true s
    | false ↦ elim (ltb c 32) [ true ↦ none | false ↦ prefixed c (read_inside false s) ]
  ]
]

-- A JSON string at the start of a text, and the rest.
unfoldable pub read_json_string : List ℕ → Option (List ℕ × List ℕ)
unfolding read_inside
read_json_string [] = none
read_json_string (c ∷ s) = elim (c == 34) [ true ↦ read_inside false s | false ↦ none ]

-- No control byte but a newline and a carriage return.
abbrev pub is_printable : ℕ → Bool
is_printable c = not (ltb c 32) || c == 10 || c == 13

abbrev pub all_printable : List ℕ → Bool
all_printable [] = true
all_printable (c ∷ s) = is_printable c && all_printable s

abbrev when : Bool → Reading → Reading
when b r = if b then r else none

read_inside-escape :
    (c : ℕ) (s : List ℕ)
    → read_inside false (escape c ++ s) ≡ when (is_printable c) (prefixed c (read_inside false s))
unfolding read_inside unescaped escape
read_inside-escape c s =
    let as_byte : (d : ℕ)
        → c ≡ d
        → prefixed d (read_inside false s) ≡ prefixed c (read_inside false s) =
      λ d e. ap (λ x. prefixed x (read_inside false s)) (sym e) in
    elim (Bool-cases (c == 34)) [
      | inl quote ↦
          let shown : is_printable c ≡ true = ground arith in
          rw (shown, quote) (as_byte 34 (ground arith))
      | inr e₁ ↦ elim (Bool-cases (c == 92)) [
        | inl backslash ↦
            let shown : is_printable c ≡ true = ground arith in
            rw (shown, e₁, backslash) (as_byte 92 (ground arith))
        | inr e₂ ↦ elim (Bool-cases (c == 10)) [
          | inl newline ↦
              let shown : is_printable c ≡ true = ground arith in
              rw (shown, e₁, e₂, newline) (as_byte 10 (ground arith))
          | inr e₃ ↦ elim (Bool-cases (c == 13)) [
            | inl return ↦
                let shown : is_printable c ≡ true = ground arith in
                rw (shown, e₁, e₂, e₃, return) (as_byte 13 (ground arith))
            | inr e₄ ↦ elim (Bool-cases (ltb c 32)) [
              | inl control ↦ rw (e₁, e₂, e₃, e₄, control, read_inside) (rw (e₁, e₂, control) refl)
              | inr shown ↦ rw (e₁, e₂, e₃, e₄, shown, read_inside) (rw (e₁, e₂, shown) refl)
            ]
          ]
        ]
      ]
    ]

prefixed-when :
    (p q : Bool) (c : ℕ) (s rest : List ℕ)
    → when p (prefixed c (when q (some (s, rest)))) ≡ when (p && q) (some (c ∷ s, rest))
unfolding prefixed
prefixed-when true true c s rest = refl
prefixed-when true false c s rest = refl
prefixed-when false q c s rest = refl

read_inside-escaped :
    (s rest : List ℕ)
    → read_inside false (escaped s ++ (34 ∷ rest)) ≡ when (all_printable s) (some (s, rest))
unfolding read_inside escaped prefixed
read_inside-escaped [] rest = refl
read_inside-escaped (c ∷ s) rest =
    ap (read_inside false) (append_assoc (escape c) (escaped s) (34 ∷ rest))
    ∙ read_inside-escape c (escaped s ++ (34 ∷ rest))
    ∙ ap (λ r. when (is_printable c) (prefixed c r)) (read_inside-escaped s rest)
    ∙ prefixed-when (is_printable c) (all_printable s) c s rest

-- A string that `json_str` writes is read back as it was by the rules of JSON, whatever follows, if
-- its only control bytes are newlines and carriage returns: no other byte ends it or changes. With
-- any other control byte what is written is no JSON string.
pub read_json_string-json_str :
    (s rest : List ℕ)
    → read_json_string (json_str s ++ rest) ≡ (if all_printable s then some (s, rest) else none)
unfolding read_json_string json_str
read_json_string-json_str s rest =
    ap (read_inside false) (append_assoc (escaped s) (34 ∷ []) rest) ∙ read_inside-escaped s rest
