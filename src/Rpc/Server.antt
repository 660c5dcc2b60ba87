-- ===== src/Rpc/Server.antt =====
-- `RpcServer::handle_request` of examples/desktop/app_rpc_server.cpp: a line of text, and the line
-- that answers it. `state_text` is the callback `get_network_state`.
use x_e310_multi_os.Base.{
  ℕ, List, [], ◌∷◌, length, drop, is_empty, ltb, bytes_eq, has_prefix, before, if◌then◌else◌, codes,
  none, some,
}
use x_e310_multi_os.NetworkLte.State.{NetworkLte}
use x_e310_multi_os.RadioLte.{RequestType}
use x_e310_multi_os.Rpc.Words.{to_upper, rest_of, number_of, named}
use x_e310_multi_os.Rpc.Exchange.{Desktop, Reader}
use x_e310_multi_os.Rpc.Calls.{request_radio_state}
use x_e310_multi_os.Rpc.Arguments.{range_error, is_conn_id}
use x_e310_multi_os.Rpc.Settings.{default_timeout_ms, connect_timeout_ms, set_resource}

-- The resources whose request has no arguments, with the time to wait.
unfoldable pub get_requests : List (List ℕ × (RequestType × ℕ))
get_requests =
    (codes "SCANSURVEY", (RequestType.scan_networks, connect_timeout_ms))
    ∷ (codes "CONFIG", (RequestType.get_config, default_timeout_ms))
    ∷ (codes "MODEMINFO", (RequestType.get_modem_info, default_timeout_ms))
    ∷ (codes "CLOCK", (RequestType.get_clock, default_timeout_ms))
    ∷ (codes "SIMSTATUS", (RequestType.get_sim_status, default_timeout_ms))
    ∷ (codes "RADIOTECH", (RequestType.get_radio_tech, default_timeout_ms))
    ∷ (codes "REGSTATUS", (RequestType.get_reg_status, default_timeout_ms))
    ∷ (codes "REGINFO", (RequestType.get_registration_info, default_timeout_ms))
    ∷ (codes "NETWORKINFO", (RequestType.get_network_info, default_timeout_ms))
    ∷ (codes "SIGNALQUALITY", (RequestType.get_signal_quality, default_timeout_ms))
    ∷ (codes "PSMMODE", (RequestType.get_psm_mode, default_timeout_ms))
    ∷ (codes "CPSMSCONFIG", (RequestType.get_cpsms_config, default_timeout_ms))
    ∷ (codes "TELITCPSMSCONFIG", (RequestType.get_telit_cpsms_config, default_timeout_ms))
    ∷ (codes "TELITCPSMSSTATUS", (RequestType.get_telit_cpsms_status, default_timeout_ms))
    ∷ (codes "SURVEYRESULT", (RequestType.get_network_survey_result, default_timeout_ms))
    ∷ (codes "OPERATORLIST", (RequestType.get_available_operators, default_timeout_ms))
    ∷ (codes "TIMERS", (RequestType.get_timers, default_timeout_ms))
    ∷ (codes "GNSS", (RequestType.get_gnss_position, default_timeout_ms))
    ∷ []

-- What SERVERINFO is asked about: behind the word and any one byte.
unfoldable pub server_info_arg : List ℕ → List ℕ
server_info_arg sub = if ltb 10 (length sub) then drop 11 sub else []

module _ {X : Type 0} (reader : Reader) (turn : ℕ → Desktop X → Desktop X) (own_conn_id : ℕ)
    (state_text : NetworkLte X → List ℕ) where
  abbrev pub answered : RequestType → ℕ → ℕ → Desktop X → List ℕ × Desktop X
  unfolding request_radio_state
  answered type arg0 timeout_ms d =
      let (reply, d₁) = request_radio_state reader turn type arg0 0 timeout_ms d in (reply.1, d₁)

  unfoldable pub get_server_info : List ℕ → Desktop X → List ℕ × Desktop X
  unfolding request_radio_state number_of
  get_server_info arg d =
      if is_empty arg
      then answered RequestType.get_server_info_array 0 default_timeout_ms d
      else elim (number_of arg) [
        | none ↦ (codes "ERROR: invalid conn_id", d)
        | some n ↦
            if is_conn_id n
            then answered RequestType.get_server_info_array n default_timeout_ms d
            else (range_error, d)
      ]

  unfoldable pub get_resource : List ℕ → Desktop X → List ℕ × Desktop X
  unfolding named get_requests request_radio_state get_server_info server_info_arg bytes_eq
      has_prefix
  get_resource sub d = elim (named get_requests sub) [
    | some (type, timeout_ms) ↦ answered type 0 timeout_ms d
    | none ↦
        if bytes_eq sub (codes "STATE")
        then (state_text d.network, d)
        else if has_prefix (codes "SERVERINFO") sub
        then get_server_info (server_info_arg sub) d
        else (codes "ERROR: unknown GET resource", d)
  ]

  abbrev pub usage_error : List ℕ
  usage_error =
      codes
        "ERROR: unknown command - use GET <resource>, SET CONFIG <key>=<value>, SET NETWORKDISCONNECT [conn_id], or SET SERVERCONNECT <conn_id> <protocol> <ip> <port>"

  unfoldable pub handle_request : List ℕ → Desktop X → List ℕ × Desktop X
  unfolding to_upper before rest_of bytes_eq get_resource set_resource
  handle_request request d =
      let cmd = to_upper (before b' ' request) in
      let sub = rest_of request in
      if bytes_eq cmd (codes "GET")
      then get_resource (to_upper sub) d
      else if bytes_eq cmd (codes "SET")
      then set_resource reader turn own_conn_id (before b' ' (to_upper sub)) (rest_of sub) d
      else (usage_error, d)
