-- ===== src/Modem/Parse/Info.antt =====
-- The answers of src/xe310.cpp that are a text or a number: identities, versions, clock, SIM.
use x_e310_multi_os.Base.{
  ℕ, ◌==◌, if◌then◌else◌, List, [], ◌∷◌, codes, drop, length, has_prefix, after, atoi, none, some,
}
use x_e310_multi_os.FixedString.{of_view}
use x_e310_multi_os.AtCommand.{at_response_max}
use x_e310_multi_os.Modem.Types.{modem_long_str, ModemStatus, modem_short_str, modem_medium_str}
use x_e310_multi_os.Modem.Configs.{SimStatus, SoftwarePackageVersion}
use x_e310_multi_os.Modem.Text.{strip_quotes, body_lines, wrap}

abbrev pub Parsed : Type 0 → Type 0
Parsed A = A → List ℕ → ModemStatus × A

-- `out = response.body.view()`.
abbrev pub whole_body : ℕ → Parsed (List ℕ)
unfolding of_view
whole_body capacity old body = (ModemStatus.ok, of_view capacity body)

-- The body without its prefix, if it has it.
unfoldable pub unprefixed : List ℕ → List ℕ → List ℕ
unfolding has_prefix
unprefixed prefix body = if has_prefix prefix body then drop (length prefix) body else body

unfoldable pub parse_imei_sv : Parsed (List ℕ)
unfolding of_view
parse_imei_sv = whole_body modem_short_str

unfoldable pub parse_model_id : Parsed (List ℕ)
unfolding of_view unprefixed
parse_model_id old body =
    (ModemStatus.ok, of_view modem_medium_str (unprefixed (codes "#CGMM: ") body))

abbrev pub no_version : SoftwarePackageVersion
no_version = record {
  package_version = [];
  modem_version = [];
  prod_params_version = [];
  app_version = [];
}

-- The lines that there are, in the order of the fields.
unfoldable pub set_version : SoftwarePackageVersion → List (List ℕ) → SoftwarePackageVersion
unfolding of_view
set_version v [] = v
set_version v (a ∷ []) = record v { package_version = of_view modem_long_str a }
set_version v (a ∷ b ∷ []) = record v {
  package_version = of_view modem_long_str a;
  modem_version = of_view modem_long_str b;
}
set_version v (a ∷ b ∷ c ∷ []) = record v {
  package_version = of_view modem_long_str a;
  modem_version = of_view modem_long_str b;
  prod_params_version = of_view modem_long_str c;
}
set_version v (a ∷ b ∷ c ∷ e ∷ _) = record {
  package_version = of_view modem_long_str a;
  modem_version = of_view modem_long_str b;
  prod_params_version = of_view modem_long_str c;
  app_version = of_view modem_long_str e;
}

unfoldable pub parse_sw_package_version : Parsed SoftwarePackageVersion
unfolding set_version body_lines
parse_sw_package_version old body = (ModemStatus.ok, set_version old (body_lines body))

unfoldable pub parse_telit_id : Parsed (List ℕ)
unfolding of_view
parse_telit_id = whole_body modem_medium_str

unfoldable pub parse_identification : Parsed (List ℕ)
unfolding of_view
parse_identification = whole_body modem_long_str

unfoldable pub parse_imei : Parsed (List ℕ)
unfolding of_view
parse_imei = whole_body modem_short_str

unfoldable pub parse_clock : Parsed (List ℕ)
unfolding of_view has_prefix strip_quotes
parse_clock old body = (
  ModemStatus.ok,
  of_view modem_short_str
      (if has_prefix (codes "+CCLK: ") body then strip_quotes (drop 7 body) else body),
)

unfoldable pub parse_iccid : Parsed (List ℕ)
unfolding of_view unprefixed
parse_iccid old body = (ModemStatus.ok, of_view modem_short_str (unprefixed (codes "#CCID: ") body))

unfoldable pub parse_imsi : Parsed (List ℕ)
unfolding of_view
parse_imsi = whole_body modem_short_str

abbrev pub sim_status_of : ℕ → SimStatus
sim_status_of n =
    if n == 0
    then SimStatus.not_inserted
    else if n == 1
    then SimStatus.inserted
    else if n == 2
    then SimStatus.inserted_and_pin_unlocked
    else if n == 3
    then SimStatus.inserted_and_ready
    else SimStatus.other n

unfoldable pub parse_sim_status : Parsed SimStatus
unfolding after atoi
parse_sim_status old body = elim (after b',' body) [
  | none ↦ (ModemStatus.ok, old)
  | some rest ↦ (ModemStatus.ok, sim_status_of (wrap 256 (atoi rest)))
]

-- `send_sim_command` and `send_at_command`.
unfoldable pub parse_answer : Parsed (List ℕ)
unfolding of_view
parse_answer = whole_body at_response_max
