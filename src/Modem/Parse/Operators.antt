-- ===== src/Modem/Parse/Operators.antt =====
-- `get_available_operators` of src/xe310.cpp: entries in parentheses whose fields may be quoted.
use x_e310_multi_os.Base.{
  ℕ, zero, suc, if◌then◌else◌, ◌==◌, List, [], ◌∷◌, ◌++◌, drop, length, before, after, skip_spaces,
  atoi, Option, none, some,
}
use x_e310_multi_os.FixedString.{of_view, push_back}
use x_e310_multi_os.Modem.Types.{
  ModemStatus, RadioTech, Operator, modem_short_str, modem_medium_str,
}
use x_e310_multi_os.Modem.Text.{strip, is_quote_blank, c_str, radio_tech_of, wrap}
use x_e310_multi_os.Modem.Parse.Info.{Parsed}

abbrev pub max_operators : ℕ
max_operators = 16

-- The bytes of the field at the front, up to its comma: a quoted part may hold commas.
unfoldable pub raw_field : List ℕ → List ℕ
unfolding before after
raw_field [] = []
raw_field (c ∷ s) =
    if c == 34
    then elim (after 34 s) [ none ↦ c ∷ s | some rest ↦ 34 ∷ before 34 s ++ 34 ∷ before b',' rest ]
    else before b',' (c ∷ s)

-- At most `max` fields.
unfoldable pub operator_fields : ℕ → List ℕ → List (List ℕ)
unfolding skip_spaces raw_field strip c_str
operator_fields zero s = []
operator_fields (suc max) s =
    let t = skip_spaces s in
    let raw = raw_field t in
    let rest = operator_fields max (drop 1 (drop (length raw) t)) in
    elim t [ [] ↦ [] | c ∷ t' ↦ c_str 63 (strip is_quote_blank raw) ∷ rest ]

abbrev pub act_of : List (List ℕ) → RadioTech
unfolding atoi
act_of [] = RadioTech.gsm
act_of (act ∷ _) = radio_tech_of (wrap 256 (atoi act))

unfoldable pub operator_of : List (List ℕ) → Option Operator
unfolding of_view atoi
operator_of (stat ∷ long ∷ short ∷ numeric ∷ rest) = some (record {
  long_name = of_view modem_medium_str long;
  short_name = of_view modem_medium_str short;
  numeric = of_view modem_short_str numeric;
  act = act_of rest;
})
operator_of _ = none

abbrev pub add_operator : List Operator → Option Operator → List Operator
unfolding push_back
add_operator ops none = ops
add_operator ops (some op) = (push_back max_operators ops op).1

-- The loop over the entries; each takes a byte at least, so that the number of bytes is fuel enough.
unfoldable pub operators_of : ℕ → List ℕ → List Operator → List Operator
unfolding before after operator_fields operator_of push_back
operators_of zero body ops = ops
operators_of (suc fuel) body ops = elim (after b'(' body) [
  | none ↦ ops
  | some inside ↦ elim (after b')' inside) [
    | none ↦ ops
    | some rest ↦
        operators_of fuel rest
          (add_operator ops (operator_of (operator_fields 5 (before b')' inside))))
  ]
]

unfoldable pub parse_available_operators : Parsed (List Operator)
unfolding operators_of
parse_available_operators old body = (ModemStatus.ok, operators_of (length body) body [])
