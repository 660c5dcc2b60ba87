-- ===== src/Modem/Parse/Data.antt =====
-- The answers of src/xe310.cpp on contexts, UDP and GNSS.
use x_e310_multi_os.Base.{
  ℕ, zero, suc, Bool, false, List, [], ◌∷◌, ◌++◌, codes, drop, length, before, after, show, atoi,
  skip_spaces, Option, none, some, is_some,
}
use x_e310_multi_os.FixedString.{of_view}
use x_e310_multi_os.ModemController.{find_word}
use x_e310_multi_os.Modem.Types.{ModemStatus, GnssPosition, modem_short_str, modem_ip_str}
use x_e310_multi_os.Modem.Configs.{PdpAddresses}
use x_e310_multi_os.Modem.Text.{tokens, field, read_field, before_last, first_is, fix_type_of, wrap}
use x_e310_multi_os.Modem.Parse.Info.{Parsed}
use x_e310_multi_os.Modem.Parse.Psm.{parameters}

-- The byte two places after the start of "<cid>,".
unfoldable pub parse_pdp_state : ℕ → Parsed Bool
unfolding of_view show find_word
parse_pdp_state cid old body = elim (find_word (of_view 7 (show cid ++ b',' ∷ [])) body) [
  | none ↦ (ModemStatus.ok, false)
  | some found ↦ (ModemStatus.ok, first_is b'1' (drop 2 found))
]

-- What stands between the first and the last quote.
unfoldable pub between_quotes : List ℕ → Option (List ℕ)
unfolding after before_last
between_quotes body = elim (after 34 body) [ none ↦ none | some rest ↦ before_last 34 rest ]

unfoldable pub parse_ip_address : Parsed (List ℕ)
unfolding between_quotes of_view
parse_ip_address old body =
    (ModemStatus.ok, read_field (of_view modem_ip_str) old (between_quotes body))

-- The texts between quotes, pair by pair; each takes a byte at least.
unfoldable pub quoted_texts : ℕ → List ℕ → List (List ℕ)
unfolding before after
quoted_texts zero s = []
quoted_texts (suc fuel) s = elim (after 34 s) [
  | none ↦ []
  | some inside ↦ elim (after 34 inside) [
    | none ↦ []
    | some rest ↦ before 34 inside ∷ quoted_texts fuel rest
  ]
]

abbrev pub address_field : List ℕ → List ℕ
address_field s = of_view modem_ip_str s

unfoldable pub set_addresses : PdpAddresses → List (List ℕ) → PdpAddresses
unfolding of_view
set_addresses a fs = record {
  ip_addr = read_field address_field a.ip_addr (field 1 fs);
  gw_addr = read_field address_field a.gw_addr (field 2 fs);
  dns_primary = read_field address_field a.dns_primary (field 3 fs);
  dns_secondary = read_field address_field a.dns_secondary (field 4 fs);
}

unfoldable pub parse_pdp_info : Parsed PdpAddresses
unfolding quoted_texts set_addresses
parse_pdp_info old body = (ModemStatus.ok, set_addresses old (quoted_texts (length body) body))

abbrev pub udp_max_bytes : ℕ
udp_max_bytes = 1500

abbrev pub payload_of : Option (List ℕ) → List ℕ
unfolding of_view
payload_of none = []
payload_of (some payload) = of_view udp_max_bytes payload

-- What follows the first line end.
unfoldable pub parse_udp_receive : Parsed (List ℕ)
unfolding after of_view
parse_udp_receive old body = (ModemStatus.ok, payload_of (after 10 body))

unfoldable pub parse_udp_status : Parsed ℕ
unfolding after atoi
parse_udp_status old body = elim (after b',' body) [
  | none ↦ (ModemStatus.ok, old)
  | some rest ↦ (ModemStatus.ok, wrap 256 (atoi rest))
]

unfoldable pub parse_gnss_powered : Parsed Bool
unfolding find_word
parse_gnss_powered old body = (ModemStatus.ok, is_some (find_word (codes "1") body))

abbrev pub gnss_field : List ℕ → List ℕ
gnss_field s = of_view modem_short_str (skip_spaces s)

abbrev pub kept : List ℕ → List ℕ
kept s = s

unfoldable pub set_position : GnssPosition → List (List ℕ) → GnssPosition
unfolding atoi
set_position p fs = record {
  utc = read_field kept p.utc (field 0 fs);
  latitude = read_field kept p.latitude (field 1 fs);
  longitude = read_field kept p.longitude (field 2 fs);
  hdop = read_field kept p.hdop (field 3 fs);
  altitude = read_field kept p.altitude (field 4 fs);
  fix = read_field (λ s. fix_type_of (wrap 256 (atoi s))) p.fix (field 5 fs);
  cog = read_field kept p.cog (field 6 fs);
  spkm = read_field kept p.spkm (field 7 fs);
  spkn = read_field kept p.spkn (field 8 fs);
  date = read_field kept p.date (field 9 fs);
  nsat = read_field (λ s. wrap 256 (atoi s)) p.nsat (field 10 fs);
  hepe = read_field kept p.hepe (field 11 fs);
  vepe = read_field kept p.vepe (field 12 fs);
}

unfoldable pub parse_gnss_position : Parsed GnssPosition
unfolding tokens set_position after skip_spaces of_view
parse_gnss_position =
    parameters (λ old params. (ModemStatus.ok, set_position old (tokens gnss_field 13 params)))
