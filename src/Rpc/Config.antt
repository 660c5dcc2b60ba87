-- ===== src/Rpc/Config.antt =====
-- The SET CONFIG parser of examples/desktop/rpc_helpers.h: `key=value` pairs applied to a
-- configuration. A number that `std::stoul` throws at is skipped, as with exceptions enabled; an
-- `unsigned long` has 64 bits.
use x_e310_multi_os.Base.{
  ◌%◌, ◌^◌, ◌-◌, ℕ, zero, suc, Bool, true, false, List, [], ◌∷◌, length, ◌==◌, leb, bytes_eq,
  if◌then◌else◌, codes, before, after, skip_spaces, is_space, is_digit, digits_from, Option, none,
  some,
}
use x_e310_multi_os.FixedString.{of_view}
use x_e310_multi_os.Modem.Types.{modem_medium_str, modem_short_str}
use x_e310_multi_os.Modem.Text.{starts_digit, max_u64}
use x_e310_multi_os.NetworkLte.State.{NetworkLteConfig}
use x_e310_multi_os.Rpc.{radio_tech_from_str, bool_from_str}

abbrev pub in_range : List ℕ → Option ℕ
unfolding digits_from is_digit
in_range s =
    if starts_digit s
    then if leb (digits_from 0 s) max_u64 then some (digits_from 0 s) else none
    else none

abbrev pub negated : Option ℕ → Option ℕ
negated none = none
negated (some n) = some ((2 ^ 64 - n) % 2 ^ 64)

-- `std::stoul` and `std::stoull`; `none` is an exception.
unfoldable pub stoul : List ℕ → Option ℕ
unfolding is_space digits_from is_digit
stoul [] = none
stoul (c ∷ s) =
    let rest = stoul s in
    if is_space c
    then rest
    else if c == b'+'
    then in_range s
    else if c == b'-'
    then negated (in_range s)
    else in_range (c ∷ s)

-- What a value does to the configuration; `none` leaves it alone.
abbrev pub Setter : Type 0
Setter = List ℕ → NetworkLteConfig → Option NetworkLteConfig

abbrev pub number : (ℕ → NetworkLteConfig → NetworkLteConfig) → Setter
unfolding stoul
number set val cfg = elim (stoul val) [ none ↦ none | some n ↦ some (set n cfg) ]

abbrev pub flag : (Bool → NetworkLteConfig → NetworkLteConfig) → Setter
unfolding bool_from_str
flag set val cfg = elim (bool_from_str val) [ none ↦ none | some b ↦ some (set b cfg) ]

abbrev pub text : (List ℕ → NetworkLteConfig → NetworkLteConfig) → Setter
text set val cfg = some (set val cfg)

-- The chain of comparisons with the key.
unfoldable pub fields : List (List ℕ × Setter)
unfolding of_view radio_tech_from_str stoul bool_from_str
fields =
    (codes "cid", number (λ n cfg. record cfg { cid = n % 2 ^ 8 }))
    ∷ (codes "attach_timeout_sec", number (λ n cfg. record cfg { attach_timeout_sec = n % 2 ^ 8 }))
    ∷ (codes "pdp_timeout_sec", number (λ n cfg. record cfg { pdp_timeout_sec = n % 2 ^ 8 }))
    ∷ (
      codes "data_ready_timeout_sec",
      number (λ n cfg. record cfg { data_ready_timeout_sec = n % 2 ^ 8 }),
    )
    ∷ (
      codes "transparent_timeout_sec",
      number (λ n cfg. record cfg { transparent_timeout_sec = n % 2 ^ 16 }),
    )
    ∷ (
      codes "max_network_attempts",
      number (λ n cfg. record cfg { max_network_attempts = n % 2 ^ 8 }),
    )
    ∷ (codes "max_attach_retries", number (λ n cfg. record cfg { max_attach_retries = n % 2 ^ 8 }))
    ∷ (codes "max_pdp_retries", number (λ n cfg. record cfg { max_pdp_retries = n % 2 ^ 8 }))
    ∷ (codes "default_lte_bands", number (λ n cfg. record cfg { default_lte_bands = n }))
    ∷ (
      codes "default_iot_tech",
      text (λ s cfg. record cfg { default_iot_tech = radio_tech_from_str s }),
    )
    ∷ (codes "default_apn", text (λ s cfg. record cfg { default_apn = of_view modem_medium_str s }))
    ∷ (codes "fallback_lte_bands", number (λ n cfg. record cfg { fallback_lte_bands = n }))
    ∷ (
      codes "fallback_iot_tech",
      text (λ s cfg. record cfg { fallback_iot_tech = radio_tech_from_str s }),
    )
    ∷ (
      codes "fallback_apn",
      text (λ s cfg. record cfg { fallback_apn = of_view modem_medium_str s }),
    )
    ∷ (codes "plmn", text (λ s cfg. record cfg { plmn = of_view modem_short_str s }))
    ∷ (codes "fPsmEnable", flag (λ b cfg. record cfg { psm_enable = b }))
    ∷ (codes "fCfunSleep", flag (λ b cfg. record cfg { cfun_sleep = b }))
    ∷ (codes "psm_t3412", number (λ n cfg. record cfg { psm_t3412 = n % 2 ^ 32 }))
    ∷ (codes "psm_t3324", number (λ n cfg. record cfg { psm_t3324 = n % 2 ^ 32 }))
    ∷ (codes "conn_id", number (λ n cfg. record cfg { conn_id = n % 2 ^ 8 }))
    ∷ []

unfoldable pub set_field : List (List ℕ × Setter) → List ℕ → Setter
unfolding bytes_eq
set_field [] key val cfg = none
set_field ((name, set) ∷ others) key val cfg =
    let rest = set_field others key val cfg in if bytes_eq key name then set val cfg else rest

-- `fChanged` goes with the configuration.
unfoldable pub apply_pair : List ℕ → List ℕ → Bool × NetworkLteConfig → Bool × NetworkLteConfig
unfolding set_field fields
apply_pair key val (changed, cfg) = elim (set_field fields key val cfg) [
  | none ↦ (changed, cfg)
  | some cfg' ↦ (true, cfg')
]

-- The loop over the pairs: each takes its `=` at least, so that the number of bytes is fuel enough.
unfoldable pub apply_pairs : ℕ → List ℕ → Bool × NetworkLteConfig → Bool × NetworkLteConfig
unfolding apply_pair skip_spaces before after
apply_pairs zero args r = r
apply_pairs (suc fuel) args r =
    let key_on = skip_spaces args in
    elim (after b'=' key_on) [
      | none ↦ r
      | some val_on ↦
          let r₁ = apply_pair (before b'=' key_on) (before b' ' val_on) r in
          elim (after b' ' val_on) [ none ↦ r₁ | some others ↦ apply_pairs fuel others r₁ ]
    ]

unfoldable pub apply_config_fields : List ℕ → NetworkLteConfig → Bool × NetworkLteConfig
unfolding apply_pairs
apply_config_fields args cfg = apply_pairs (length args) args (false, cfg)
