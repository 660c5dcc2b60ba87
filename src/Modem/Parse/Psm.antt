-- ===== src/Modem/Parse/Psm.antt =====
-- The answers of src/xe310.cpp on power saving.
use x_e310_multi_os.Base.{
  ℕ, ◌^◌, if◌then◌else◌, Bool, not, ◌==◌, List, is_empty, after, atoi, skip_spaces, none, some, ℤ,
  pos, negsuc,
}
use x_e310_multi_os.FixedString.{of_view}
use x_e310_multi_os.Modem.Types.{ModemStatus, TelitCpsmsStatus, modem_short_str}
use x_e310_multi_os.Modem.Configs.{CpsmsConfig}
use x_e310_multi_os.Modem.Text.{tokens, field, read_field, strip_quotes, c_str, psm_mode_of, wrap}
use x_e310_multi_os.Modem.Parse.Info.{Parsed}

-- What follows the colon of the body, without which the answer is an error.
abbrev pub parameters : {A : Type 0} → (A → List ℕ → ModemStatus × A) → Parsed A
unfolding after
parameters read_all old body = elim (after b':' body) [
  | none ↦ (ModemStatus.at_error, old)
  | some params ↦ read_all old params
]

abbrev pub psm_field : List ℕ → List ℕ
psm_field s = of_view modem_short_str (skip_spaces s)

abbrev pub quoted_field : List ℕ → List ℕ
quoted_field s = strip_quotes s

unfoldable pub set_psm_fields : CpsmsConfig → List (List ℕ) → CpsmsConfig
unfolding atoi strip_quotes
set_psm_fields cfg fs = record {
  mode = read_field (λ s. psm_mode_of (wrap 256 (atoi s))) cfg.mode (field 0 fs);
  req_periodic_rau = read_field quoted_field cfg.req_periodic_rau (field 1 fs);
  req_gprs_ready_timer = read_field quoted_field cfg.req_gprs_ready_timer (field 2 fs);
  req_periodic_tau = read_field quoted_field cfg.req_periodic_tau (field 3 fs);
  req_active_time = read_field quoted_field cfg.req_active_time (field 4 fs);
}

unfoldable pub parse_psm : Parsed CpsmsConfig
unfolding tokens set_psm_fields after skip_spaces of_view
parse_psm =
    parameters (λ old params. (ModemStatus.ok, set_psm_fields old (tokens psm_field 5 params)))

-- `static_cast<uint32_t>(std::atol(field))`, unless the field is empty.
abbrev pub seconds_of : ℕ → List ℕ → ℕ
unfolding atoi
seconds_of old s = if is_empty s then old else wrap (2 ^ 32) (atoi s)

abbrev pub padded_field : List ℕ → List ℕ
padded_field s = c_str 31 (skip_spaces s)

unfoldable pub set_telit_fields : TelitCpsmsStatus → List (List ℕ) → TelitCpsmsStatus
unfolding atoi
set_telit_fields st fs = record {
  status = read_field (λ s. wrap 256 (atoi s)) st.status (field 0 fs);
  t3324 = read_field (seconds_of st.t3324) st.t3324 (field 1 fs);
  t3412 = read_field (seconds_of st.t3412) st.t3412 (field 2 fs);
  psm_version = read_field (λ s. wrap 256 (atoi s)) st.psm_version (field 3 fs);
  psm_threshold = read_field (λ s. wrap (2 ^ 32) (atoi s)) st.psm_threshold (field 4 fs);
  mode = read_field (λ s. psm_mode_of (wrap 256 (atoi s))) st.mode (field 5 fs);
}

unfoldable pub parse_telit_psm : Parsed TelitCpsmsStatus
unfolding tokens set_telit_fields after skip_spaces c_str
parse_telit_psm =
    parameters (λ old params. (ModemStatus.ok, set_telit_fields old (tokens padded_field 6 params)))

abbrev pub is_nonzero : ℤ → Bool
is_nonzero (pos n) = not (n == 0)
is_nonzero (negsuc n) = Bool.true

unfoldable pub parse_psm_urc : Parsed Bool
unfolding after atoi
parse_psm_urc old body = elim (after b':' body) [
  | none ↦ (ModemStatus.ok, old)
  | some rest ↦ (ModemStatus.ok, is_nonzero (atoi rest))
]
