-- ===== src/Rpc/Exchange.antt =====
-- How the remote calls ask the network thread: `request_radio_state` and the like of
-- examples/desktop/app_rpc_server.cpp. The other threads run while a call waits: `turn` is what they
-- do to the shared state within a number of milliseconds. A mutex makes every other step one step.
use x_e310_multi_os.Base.{
  ◌-◌, ℕ, Bool, true, false, ◌&&◌, not, List, [], ◌∷◌, ◌++◌, leb, before, if◌then◌else◌, codes,
  Option, none, some, map,
}
use x_e310_multi_os.EventFlags.{Mask, no_flags, matches}
use x_e310_multi_os.MessageChannel.{MessageChannelError}
use x_e310_multi_os.NetworkLte.State.{NetworkLte, NetworkLteConfig, ServerInfo}
use x_e310_multi_os.RadioLte.{
  RequestType, RadioLteChannels, evt_response, evt_action_done, send_request, recv_response,
}
use x_e310_multi_os.RadioLte
use x_e310_multi_os.RadioLte.Values.{Value}
use x_e310_multi_os.Rpc.{radio_tech_name, sim_status_name, reg_status_name, psm_mode_name}
use x_e310_multi_os.Rpc.Structs.{
  quoted, truth, array, registration_json, signal_json, modem_info_json, network_info_json,
  position_msg_json,
}
use x_e310_multi_os.Rpc.Reports.{
  cpsms_json, telit_config_json, telit_status_json, survey_json, operators_json, csurv_json,
  server_json, config_json, timers_json,
}

-- What the threads share: the channels, the state machine, and whether the network thread runs.
pub record Desktop (X : Type 0) : Type 0 where
  pub channels : RadioLteChannels
  pub network : NetworkLte X
  pub network_worker_running : Bool

-- The bytes of the messages as the compiler lays them out, written and read on this side, and
-- `%.1f`. A response is read as what its request asks for; the flag comes first.
pub record Reader : Type 0 where
  pub request_bytes : RequestType → ℕ → ℕ → List ℕ
  pub config_request : NetworkLteConfig → List ℕ
  pub connect_request : ℕ → List ℕ → List ℕ → ℕ → List ℕ
  pub response_size : RequestType → ℕ
  pub response_of : RequestType → List ℕ → Bool × Value
  pub flag_size : ℕ
  pub flag_of : List ℕ → Bool × Bool
  pub action_size : ℕ
  pub action_of : List ℕ → Bool
  pub one_decimal : ℕ → List ℕ

abbrev pub max_server_connections : ℕ
max_server_connections = 5

abbrev pub modem_ack_timeout_ms : ℕ
modem_ack_timeout_ms = 3000

-- The pair of a call: whether it succeeded, and the text to send back.
abbrev pub Reply : Type 0
Reply = Bool × List ℕ

-- The name of the response in the message that it is invalid.
abbrev pub response_name : RequestType → List ℕ
response_name RequestType.get_registration_info = codes "registration_info "
response_name RequestType.get_signal_quality = codes "signal_quality "
response_name RequestType.get_iccid = codes "iccid "
response_name RequestType.get_imsi = codes "imsi "
response_name RequestType.get_clock = codes "clock "
response_name RequestType.get_modem_info = codes "modem_info "
response_name RequestType.get_sim_status = codes "sim_status "
response_name RequestType.get_radio_tech = codes "radio_tech "
response_name RequestType.get_reg_status = codes "reg_status "
response_name RequestType.get_network_info = codes "network_info "
response_name RequestType.get_psm_mode = codes "psm_mode "
response_name RequestType.get_cpsms_config = codes "cpsms_config "
response_name RequestType.get_telit_cpsms_config = codes "telit_cpsms_config "
response_name RequestType.get_telit_cpsms_status = codes "telit_cpsms_status "
response_name RequestType.get_network_survey_result = codes "network_survey_result "
response_name RequestType.get_available_operators = codes "available_operators "
response_name RequestType.get_csurv_result = codes "csurv_result "
response_name RequestType.get_server_info_array = codes "server_info_array "
response_name RequestType.get_config = codes "config "
response_name RequestType.get_timers = codes "timers "
response_name RequestType.get_gnss_position = codes "gnss_position "
response_name _ = []

abbrev pub invalid_response : RequestType → List ℕ
invalid_response type = codes "ERROR: invalid " ++ (response_name type ++ codes "response")

-- The text of a value.
unfoldable pub render : (ℕ → List ℕ) → Value → List ℕ
unfolding registration_json signal_json modem_info_json network_info_json position_msg_json
    cpsms_json telit_config_json telit_status_json survey_json operators_json csurv_json config_json
    timers_json radio_tech_name sim_status_name reg_status_name psm_mode_name before
render one_decimal (Value.flag b) = truth b
render one_decimal (Value.registration v) = registration_json v
render one_decimal (Value.signal v) = signal_json v
render one_decimal (Value.short_string s) = quoted (before 0 s)
render one_decimal (Value.modem_info v) = modem_info_json v
render one_decimal (Value.sim_status v) = quoted (sim_status_name v)
render one_decimal (Value.radio_tech v) = quoted (radio_tech_name v)
render one_decimal (Value.reg_status v) = quoted (reg_status_name v)
render one_decimal (Value.network_info v) = network_info_json v
render one_decimal (Value.psm_mode v) = quoted (psm_mode_name v)
render one_decimal (Value.cpsms_config v) = cpsms_json v
render one_decimal (Value.telit_cpsms_config v) = telit_config_json v
render one_decimal (Value.telit_cpsms_status v) = telit_status_json v
render one_decimal (Value.network_survey v) = survey_json one_decimal v
render one_decimal (Value.operators v) = operators_json v
render one_decimal (Value.csurv v) = csurv_json v
render one_decimal Value.server_array = []
render one_decimal (Value.config v) = config_json v
render one_decimal (Value.timers v) = timers_json v
render one_decimal (Value.position v) = position_msg_json v

-- The pointer of a response is null unless it points to the array.
abbrev pub is_array : Value → Bool
is_array Value.server_array = true
is_array _ = false

-- The server that was asked for, or all of them, read from the machine itself.
unfoldable pub servers_text : ℕ → (ℕ → ServerInfo) → List ℕ
unfolding server_json array
servers_text n servers =
    if leb 1 n && leb n max_server_connections
    then server_json (servers (n - 1))
    else array (map (λ i. server_json (servers i)) (0 ∷ 1 ∷ 2 ∷ 3 ∷ 4 ∷ []))

module _ {X : Type 0} (reader : Reader) (turn : ℕ → Desktop X → Desktop X) where
  -- A send waits for room if the channel is full.
  unfoldable pub submit : List ℕ → ℕ → Desktop X → MessageChannelError × Desktop X
  unfolding send_request
  submit bytes timeout_ms d =
      let full = leb d.channels.modem_tx_q.capacity d.channels.modem_tx_q.count in
      let d₁ = if full then turn timeout_ms d else d in
      let (e, c) = send_request bytes d₁.channels in (e, record d₁ { channels = c })

  -- A wait for an event that was posted returns at once.
  unfoldable pub await : Mask → ℕ → Desktop X → Bool × Desktop X
  unfolding RadioLte.wait matches
  await events timeout_ms d =
      let d₁ = if matches d.channels.modem_evt events then d else turn timeout_ms d in
      let (found, c) = RadioLte.wait events true 0 no_flags d₁.channels in
      (matches found events, record d₁ { channels = c })

  -- The next response, if it has the size.
  unfoldable pub take_response : ℕ → Desktop X → Option (List ℕ) × Desktop X
  unfolding recv_response
  take_response size d =
      let (e, c, bytes) = recv_response size d.channels in (bytes, record d { channels = c })

  -- A request and the wait for its response; `unsent` and `late` are the errors of the two.
  unfoldable pub exchange :
      (unsent late : List ℕ)
      → List ℕ
      → ℕ
      → ℕ
      → (Desktop X → Reply × Desktop X)
      → Desktop X
      → Reply × Desktop X
  exchange unsent late bytes send_ms wait_ms respond d =
      let (e, d₁) = submit bytes send_ms d in
      let (found, d₂) = await evt_response wait_ms d₁ in
      elim e [
        | MessageChannelError.ok ↦ if found then respond d₂ else ((false, late), d₂)
        | _ ↦ ((false, unsent), d₁)
      ]

  unfoldable pub read_value : RequestType → Desktop X → Reply × Desktop X
  read_value type d =
      let (bytes, d₁) = take_response (reader.response_size type) d in
      elim bytes [
        | none ↦ ((false, invalid_response type), d₁)
        | some b ↦
            let (ok, v) = reader.response_of type b in ((ok, render reader.one_decimal v), d₁)
      ]

  unfoldable pub read_servers : ℕ → Desktop X → Reply × Desktop X
  unfolding take_response servers_text
  read_servers n d =
      let type = RequestType.get_server_info_array in
      let (bytes, d₁) = take_response (reader.response_size type) d in
      elim bytes [
        | none ↦ ((false, invalid_response type), d₁)
        | some b ↦
            let (ok, v) = reader.response_of type b in
            if ok && is_array v
            then ((true, servers_text n d₁.network.server_info), d₁)
            else ((false, codes "ERROR: server_info_array unavailable"), d₁)
      ]

  unfoldable pub read_flag : Desktop X → Reply × Desktop X
  unfolding take_response
  read_flag d =
      let (bytes, d₁) = take_response reader.flag_size d in
      elim bytes [
        | none ↦ ((false, codes "ERROR: invalid response"), d₁)
        | some b ↦ let (ok, value) = reader.flag_of b in ((ok && value, truth value), d₁)
      ]

  -- The report at the end of an action.
  unfoldable pub read_completion : Desktop X → Reply × Desktop X
  unfolding take_response
  read_completion d =
      let (bytes, d₁) = take_response reader.action_size d in
      elim bytes [
        | none ↦ ((false, codes "ERROR: invalid completion response"), d₁)
        | some b ↦ let result = reader.action_of b in ((result, truth result), d₁)
      ]

  unfoldable pub wait_blocking_action_complete : ℕ → Desktop X → Reply × Desktop X
  unfolding take_response await read_completion
  wait_blocking_action_complete timeout_ms d =
      let (bytes, d₁) = take_response reader.flag_size d in
      let (found, d₂) = await evt_action_done timeout_ms d₁ in
      elim bytes [
        | none ↦ ((false, codes "ERROR: invalid ACK"), d₁)
        | some b ↦
            let (ok, value) = reader.flag_of b in
            if not (ok && value)
            then ((false, codes "ERROR: request not accepted"), d₁)
            else if found
            then read_completion d₂
            else ((false, codes "ERROR: timeout waiting for completion"), d₂)
      ]
