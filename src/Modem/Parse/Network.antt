-- ===== src/Modem/Parse/Network.antt =====
-- The answers of src/xe310.cpp on the network: technology, bands, registration, signal, operator, APN.
use x_e310_multi_os.Base.{
  ℕ, ◌%◌, ◌^◌, if◌then◌else◌, true, ◌==◌, List, [], ◌∷◌, codes, take, is_empty, before, after, atoi,
  Option, none, some,
}
use x_e310_multi_os.FixedString.{of_view}
use x_e310_multi_os.Modem.Types.{
  ModemStatus, RadioTech, RegistrationInfo, SignalQuality, modem_short_str, modem_medium_str,
}
use x_e310_multi_os.Modem.Configs.{BandConfig}
use x_e310_multi_os.Modem.Text.{
  tokens, field, read_field, strip, is_quote_blank, is_tab_blank, c_str, reg_status_of,
  radio_tech_of, wrap, strtoull, body_lines, after_word,
}
use x_e310_multi_os.Modem.Parse.Info.{Parsed}
use x_e310_multi_os.Modem.Parse.Psm.{parameters}

-- `static_cast<unsigned int>(std::strtoul(buf, nullptr, 10))` of at most fifteen bytes.
abbrev pub short_number : List ℕ → ℕ
unfolding strtoull
short_number s = elim (strtoull (take 15 s)) [ none ↦ 0 | some (n, rest) ↦ n % 2 ^ 32 ]

abbrev pub iot_tech_of : ℕ → RadioTech
iot_tech_of n =
    if n == 0 then RadioTech.cat_m1 else if n == 1 then RadioTech.nb_iot else RadioTech.unknown

abbrev pub iot_numbers : List ℕ → ℕ × ℕ
unfolding before after strtoull
iot_numbers params = elim (after b',' params) [
  | none ↦ (0, 0)
  | some rest ↦ (short_number (before b',' params), short_number rest)
]

-- The technology and the priority of GSM.
unfoldable pub parse_iot_tech : Parsed (RadioTech × ℕ)
unfolding before after strtoull
parse_iot_tech old body = elim (after b':' body) [
  | none ↦ (ModemStatus.ok, old)
  | some params ↦ let (nv, gp) = iot_numbers params in (ModemStatus.ok, (iot_tech_of nv, gp % 256))
]

-- A token without blanks, tabs and quotes at its ends, in 31 bytes.
abbrev pub clean_field : List ℕ → List ℕ
clean_field s = c_str 31 (strip is_quote_blank s)

abbrev pub all_read : Option (ℕ × List ℕ) → Option ℕ
all_read none = none
all_read (some (n, rest)) = if is_empty rest then some n else none

-- The whole field is a number.
unfoldable pub parse_u64 : List ℕ → Option ℕ
unfolding strtoull
parse_u64 s = all_read (strtoull s)

abbrev pub five_numbers : Option ℕ → Option ℕ → Option ℕ → Option ℕ → Option ℕ → Option BandConfig
five_numbers (some a) (some b) (some c) (some e) (some f) =
    some
      (record { gsm_mask = a; umts_mask = b; lte_mask = c; tdscdma_mask = e; lte_mask_over_64 = f })
five_numbers _ _ _ _ _ = none

unfoldable pub bands_of : List (List ℕ) → Option BandConfig
unfolding parse_u64
bands_of (a ∷ b ∷ c ∷ e ∷ f ∷ _) =
    five_numbers (parse_u64 a) (parse_u64 b) (parse_u64 c) (parse_u64 e) (parse_u64 f)
bands_of _ = none

abbrev pub read_bands : BandConfig → Option BandConfig → ModemStatus × BandConfig
read_bands old none = (ModemStatus.at_error, old)
read_bands old (some bands) = (ModemStatus.ok, bands)

unfoldable pub parse_bands : Parsed BandConfig
unfolding tokens bands_of after strip c_str
parse_bands = parameters (λ old params. read_bands old (bands_of (tokens clean_field 5 params)))

unfoldable pub set_registration : RegistrationInfo → List (List ℕ) → RegistrationInfo
unfolding atoi of_view
set_registration info (mode ∷ stat ∷ lac ∷ ci ∷ act ∷ _) = record info {
  mode = wrap 256 (atoi mode);
  stat = reg_status_of (wrap 256 (atoi stat));
  lac = of_view modem_short_str lac;
  ci = of_view modem_short_str ci;
  has_location = true;
  act = radio_tech_of (wrap 256 (atoi act));
}
set_registration info (mode ∷ stat ∷ lac ∷ ci ∷ []) = record info {
  mode = wrap 256 (atoi mode);
  stat = reg_status_of (wrap 256 (atoi stat));
  lac = of_view modem_short_str lac;
  ci = of_view modem_short_str ci;
  has_location = true;
}
set_registration info (mode ∷ stat ∷ _) = record info {
  mode = wrap 256 (atoi mode);
  stat = reg_status_of (wrap 256 (atoi stat));
}
set_registration info _ = info

unfoldable pub parse_registration : Parsed RegistrationInfo
unfolding tokens set_registration after strip c_str
parse_registration =
    parameters (λ old params. (ModemStatus.ok, set_registration old (tokens clean_field 8 params)))

abbrev pub signal_field : List ℕ → List ℕ
signal_field s = take 15 (strip is_tab_blank s)

unfoldable pub set_signal : SignalQuality → List (List ℕ) → SignalQuality
unfolding atoi
set_signal sq (rxlev ∷ ber ∷ rscp ∷ ecno ∷ rsrq ∷ rsrp ∷ _) = record {
  rssi = atoi rxlev;
  ber = atoi ber;
  rsrq = atoi rsrq;
  rsrp = atoi rsrp;
}
set_signal sq _ = sq

unfoldable pub parse_signal_quality : Parsed SignalQuality
unfolding tokens set_signal after strip
parse_signal_quality old body = elim (after b':' body) [
  | none ↦ (ModemStatus.ok, old)
  | some params ↦ (ModemStatus.ok, set_signal old (tokens signal_field 6 params))
]

abbrev pub text_field : List ℕ → List ℕ
text_field s = strip is_quote_blank s

unfoldable pub parse_operator : Parsed (List ℕ)
unfolding tokens after strip of_view
parse_operator = parameters (λ old params. (
  ModemStatus.ok,
  read_field (of_view modem_medium_str) old (field 2 (tokens text_field 3 params)),
))

-- The APN of a line, if it is the line of the context.
abbrev pub apn_of_fields : ℕ → List (List ℕ) → Option (List ℕ)
unfolding atoi
apn_of_fields cid (id ∷ kind ∷ apn ∷ _) =
    if wrap 256 (atoi (take 7 id)) == cid then some apn else none
apn_of_fields cid _ = none

unfoldable pub apn_of_line : ℕ → List ℕ → Option (List ℕ)
unfolding after_word tokens strip atoi
apn_of_line cid line = elim (after_word (codes "+CGDCONT:") line) [
  | none ↦ none
  | some params ↦ apn_of_fields cid (tokens text_field 3 params)
]

unfoldable pub apn_of_lines : ℕ → List (List ℕ) → Option (List ℕ)
unfolding apn_of_line
apn_of_lines cid [] = none
apn_of_lines cid (line ∷ lines) = elim (apn_of_line cid line) [
  | none ↦ apn_of_lines cid lines
  | some apn ↦ some apn
]

unfoldable pub parse_apn : ℕ → Parsed (List ℕ)
unfolding apn_of_lines body_lines of_view
parse_apn cid old body = elim (apn_of_lines cid (body_lines body)) [
  | none ↦ (ModemStatus.at_error, old)
  | some apn ↦ (ModemStatus.ok, of_view modem_medium_str apn)
]
