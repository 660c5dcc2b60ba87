-- ===== src/Rpc/Reports.antt =====
-- The configurations, surveys and counters as JSON: the rest of `to_json` and `config_to_json` of
-- examples/desktop/rpc_helpers.h.
use x_e310_multi_os.Base.{ℕ, List, [], ◌∷◌, ◌++◌, codes, show, Option, none, some, map}
use x_e310_multi_os.Modem.Types.{TelitCpsmsStatus, Operator}
use x_e310_multi_os.Modem.Configs.{
  CpsmsConfig, TelitCpsmsConfig, SurvCell, NetworkSurveyResult, CsurvCell, CsurvResult,
}
use x_e310_multi_os.NetworkLte.State.{NetworkLteConfig, ServerInfo, StateTimers}
use x_e310_multi_os.Rpc.{
  json_str, radio_tech_name, psm_mode_name, server_state_name, cell_type_name,
}
use x_e310_multi_os.Rpc.Structs.{
  member, listed, object, array, printed_in, json_c_str, quoted, truth, show_int,
}

unfoldable pub cpsms_json : CpsmsConfig → List ℕ
unfolding object json_str psm_mode_name
cpsms_json v = object (
    (codes "mode", quoted (psm_mode_name v.mode))
    ∷ (codes "req_periodic_rau", json_str v.req_periodic_rau)
    ∷ (codes "req_gprs_ready_timer", json_str v.req_gprs_ready_timer)
    ∷ (codes "req_periodic_tau", json_str v.req_periodic_tau)
    ∷ (codes "req_active_time", json_str v.req_active_time)
    ∷ [])

abbrev pub is_set : Option ℕ → List ℕ
is_set none = codes "false"
is_set (some n) = codes "true"

-- A field without its flag has the value that it starts with.
abbrev pub value_or : ℕ → Option ℕ → List ℕ
unfolding show
value_or initial none = show initial
value_or initial (some n) = show n

unfoldable pub telit_config_json : TelitCpsmsConfig → List ℕ
unfolding object show psm_mode_name
telit_config_json v = printed_in 512 (
    object (
      (codes "mode", quoted (psm_mode_name v.mode))
      ∷ (codes "fHasPeriodicRau", is_set v.req_periodic_rau)
      ∷ (codes "req_periodic_rau", value_or 0 v.req_periodic_rau)
      ∷ (codes "fHasGprsReadyTimer", is_set v.req_gprs_ready_timer)
      ∷ (codes "req_gprs_ready_timer", value_or 0 v.req_gprs_ready_timer)
      ∷ (codes "fHasPeriodicTau", is_set v.req_periodic_tau)
      ∷ (codes "req_periodic_tau", value_or 0 v.req_periodic_tau)
      ∷ (codes "fHasActiveTime", is_set v.req_active_time)
      ∷ (codes "req_active_time", value_or 0 v.req_active_time)
      ∷ (codes "fHasPsmVersion", is_set v.psm_version)
      ∷ (codes "psm_version", value_or 4 v.psm_version)
      ∷ (codes "fHasPsmThreshold", is_set v.psm_threshold)
      ∷ (codes "psm_threshold", value_or 60 v.psm_threshold)
      ∷ []))

unfoldable pub telit_status_json : TelitCpsmsStatus → List ℕ
unfolding object show psm_mode_name
telit_status_json v = printed_in 256 (
    object (
      (codes "status", show v.status)
      ∷ (codes "t3324", show v.t3324)
      ∷ (codes "t3412", show v.t3412)
      ∷ (codes "psm_version", show v.psm_version)
      ∷ (codes "psm_threshold", show v.psm_threshold)
      ∷ (codes "mode", quoted (psm_mode_name v.mode))
      ∷ []))

-- `one_decimal` prints the bits of a `float` by `%.1f`.
unfoldable pub surv_cell_json : (ℕ → List ℕ) → SurvCell → List ℕ
unfolding object json_c_str show show_int cell_type_name
surv_cell_json one_decimal c = printed_in 512 (
    object (
      (codes "type", quoted (cell_type_name c.type))
      ∷ (codes "arfcn", show_int c.arfcn)
      ∷ (codes "bsic", show_int c.bsic)
      ∷ (codes "rx_lev", show_int c.rx_lev)
      ∷ (codes "ber", show_int c.ber)
      ∷ (codes "mcc", show c.mcc)
      ∷ (codes "mnc", show c.mnc)
      ∷ (codes "lac", show c.lac)
      ∷ (codes "cell_id", show c.cell_id)
      ∷ (codes "cell_stat", json_c_str c.cell_stat)
      ∷ (codes "num_arfcn", show_int c.num_arfcn)
      ∷ (codes "earfcn", show_int c.earfcn)
      ∷ (codes "tac", show c.tac)
      ∷ (codes "phys_cell_id", show c.phys_cell_id)
      ∷ (codes "cell_identity", show c.cell_identity)
      ∷ (codes "rsrp", one_decimal c.rsrp)
      ∷ (codes "rsrq", one_decimal c.rsrq)
      ∷ []))

-- The head of a survey is printed in a buffer of 64 bytes.
unfoldable pub survey_json : (ℕ → List ℕ) → NetworkSurveyResult → List ℕ
unfolding listed surv_cell_json show_int
survey_json one_decimal v =
    printed_in 64 (
      b'{'
      ∷ (listed (
          map member (
            (codes "fHasSummary", truth v.has_summary)
            ∷ (codes "no_arfcn", show_int v.no_arfcn)
            ∷ (codes "no_bcch", show_int v.no_bcch)
            ∷ (codes "cells", codes "[")
            ∷ []))))
    ++ (listed (map (surv_cell_json one_decimal) v.cells) ++ codes "]}")

unfoldable pub server_json : ServerInfo → List ℕ
unfolding object json_c_str show server_state_name
server_json v = printed_in 256 (
    object (
      (codes "conn_id", show v.conn_id)
      ∷ (codes "state", quoted (server_state_name v.state))
      ∷ (codes "protocol", json_c_str v.protocol)
      ∷ (codes "address", json_c_str v.address)
      ∷ (codes "port", show v.port)
      ∷ (codes "has_data", truth v.has_data)
      ∷ []))

unfoldable pub operator_json : Operator → List ℕ
unfolding object json_str radio_tech_name
operator_json op = object (
    (codes "long_name", json_str op.long_name)
    ∷ (codes "short_name", json_str op.short_name)
    ∷ (codes "numeric", json_str op.numeric)
    ∷ (codes "act", quoted (radio_tech_name op.act))
    ∷ [])

unfoldable pub operators_json : List Operator → List ℕ
unfolding array operator_json
operators_json ops = array (map operator_json ops)

unfoldable pub csurv_cell_json : CsurvCell → List ℕ
unfolding object show show_int
csurv_cell_json c = printed_in 256 (
    object (
      (codes "earfcn", show_int c.earfcn)
      ∷ (codes "rx_lev", show_int c.rx_lev)
      ∷ (codes "mcc", show c.mcc)
      ∷ (codes "mnc", show c.mnc)
      ∷ (codes "cell_id", show c.cell_id)
      ∷ (codes "tac", show c.tac)
      ∷ (codes "cell_identity", show c.cell_identity)
      ∷ []))

-- The tail of the result is printed in a buffer of 64 bytes.
unfoldable pub csurv_json : CsurvResult → List ℕ
unfolding listed csurv_cell_json show_int
csurv_json r =
    codes "{\"cells\":["
    ++ (listed (map csurv_cell_json r.cells)
        ++ printed_in 64 (
            codes "],"
            ++ (listed (
                  map member (
                    (codes "fHasSummary", truth r.has_summary)
                    ∷ (codes "no_arfcn", show_int r.no_arfcn)
                    ∷ (codes "no_bcch", show_int r.no_bcch)
                    ∷ []))
                ++ codes "}")))

unfoldable pub timers_json : StateTimers → List ℕ
unfolding object show
timers_json t = printed_in 192 (
    object (
      (codes "network_attaching_ms", show t.network_attaching_ms)
      ∷ (codes "pdp_context_opening_ms", show t.pdp_context_opening_ms)
      ∷ (codes "data_ready_ms", show t.data_ready_ms)
      ∷ (codes "transparent_mode_ms", show t.transparent_mode_ms)
      ∷ (codes "sleep_mode_ms", show t.sleep_mode_ms)
      ∷ (codes "off_mode_ms", show t.off_mode_ms)
      ∷ []))

abbrev pub config_members : NetworkLteConfig → List (List ℕ × List ℕ)
unfolding json_c_str show radio_tech_name
config_members c =
    (codes "cid", show c.cid)
    ∷ (codes "attach_timeout_sec", show c.attach_timeout_sec)
    ∷ (codes "pdp_timeout_sec", show c.pdp_timeout_sec)
    ∷ (codes "data_ready_timeout_sec", show c.data_ready_timeout_sec)
    ∷ (codes "transparent_timeout_sec", show c.transparent_timeout_sec)
    ∷ (codes "max_network_attempts", show c.max_network_attempts)
    ∷ (codes "max_attach_retries", show c.max_attach_retries)
    ∷ (codes "max_pdp_retries", show c.max_pdp_retries)
    ∷ (codes "default_lte_bands", show c.default_lte_bands)
    ∷ (codes "default_iot_tech", quoted (radio_tech_name c.default_iot_tech))
    ∷ (codes "default_apn", json_c_str c.default_apn)
    ∷ (codes "fallback_lte_bands", show c.fallback_lte_bands)
    ∷ (codes "fallback_iot_tech", quoted (radio_tech_name c.fallback_iot_tech))
    ∷ (codes "fallback_apn", json_c_str c.fallback_apn)
    ∷ (codes "plmn", json_c_str c.plmn)
    ∷ (codes "fPsmEnable", truth c.psm_enable)
    ∷ (codes "fCfunSleep", truth c.cfun_sleep)
    ∷ (codes "psm_t3412", show c.psm_t3412)
    ∷ (codes "psm_t3324", show c.psm_t3324)
    ∷ (codes "conn_id", show c.conn_id)
    ∷ []

unfoldable pub config_json : NetworkLteConfig → List ℕ
unfolding object json_c_str show radio_tech_name
config_json c = printed_in 1024 (object (config_members c))
