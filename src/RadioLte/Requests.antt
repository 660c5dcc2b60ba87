-- ===== src/RadioLte/Requests.antt =====
-- `process_radio_requests` of src/i_radio_lte.cpp: what the network thread does with the requests that
-- wait. The bytes of the structs are the compiler's, and enter as a `Layout`.
use x_e310_multi_os.Base.{
  ◌%◌, ℕ, zero, suc, Bool, true, false, ◌&&◌, not, List, [], ◌∷◌, length, ◌==◌, if◌then◌else◌,
  Option, none, some,
}
use x_e310_multi_os.Modem.Types.{no_position}
use x_e310_multi_os.Modem.Interface.{Xe310}
use x_e310_multi_os.NetworkLte.State.{NetworkLte, NetworkLteConfig}
use x_e310_multi_os.NetworkLte.Api.{
  Outcome, network_connect, network_disconnect, server_connect, server_disconnect,
}
use x_e310_multi_os.NetworkLte.Psm.{force_psm}
use x_e310_multi_os.NetworkLte.Modes.{refresh_clock, scan_networks, acquire_gnss_position}
use x_e310_multi_os.RadioLte.{
  RequestType, request_type_of, RadioLteChannels, recv_request_frame, publish_typed_response,
  publish_action_complete,
}
use x_e310_multi_os.RadioLte.Values.{Value, value_of}

-- Sizes and bytes of the messages: a request of the general type has two arguments; a response is a
-- `ModemTypedResponseMsg` with its flag set and a value.
pub record Layout : Type 0 where
  pub tx_msg_size : ℕ
  pub set_config_size : ℕ
  pub server_connect_size : ℕ
  pub tx_args : List ℕ → ℕ × ℕ
  pub config_of : List ℕ → NetworkLteConfig
  pub connect_of : List ℕ → ℕ × List ℕ × List ℕ × ℕ
  pub response : Value → List ℕ
  pub action_complete : RequestType → Bool → List ℕ

-- What a request comes to: a refusal, an answer with the machine after it, or an action that is
-- acknowledged, done, and reported.
pub data Job (X : Type 0) : Type 0 where
  refuse : Job X
  answer : List ℕ → NetworkLte X → Job X
  start : RequestType → (NetworkLte X → Outcome X) → Job X

abbrev pub result_of : {A X : Type 0} → Option (Bool × A × NetworkLte X) → Outcome X
result_of none = none
result_of (some (res, value, s)) = some (res, s)

-- `set_config` and `server_connect` have messages of their own.
unfoldable pub has_own_message : Option RequestType → Bool
has_own_message (some RequestType.set_config) = true
has_own_message (some RequestType.server_connect) = true
has_own_message _ = false

module _ {X : Type 0} (m : Xe310 X) (layout : Layout) (rounds fuel : ℕ) where
  -- The switch on the type of the request.
  unfoldable pub job_of : Option RequestType → List ℕ → NetworkLte X → Job X
  unfolding refresh_clock value_of
  job_of none frame s = refuse
  job_of (some RequestType.get_clock) frame s =
      let s₁ = refresh_clock m s in answer (layout.response (value_of RequestType.get_clock s₁)) s₁
  job_of (some RequestType.scan_networks) frame s =
      let (start_ch, end_ch) = layout.tx_args frame in
      start RequestType.scan_networks (λ s₁. some (scan_networks m start_ch end_ch s₁))
  job_of (some RequestType.set_config) frame s =
      if length frame == layout.set_config_size
      then answer (layout.response (Value.flag true))
          (record s { lte_config = layout.config_of frame })
      else refuse
  job_of (some RequestType.network_connect) frame s =
      start RequestType.network_connect (network_connect m rounds fuel)
  job_of (some RequestType.network_disconnect) frame s =
      start RequestType.network_disconnect (λ s₁. some (network_disconnect m s₁))
  job_of (some RequestType.server_connect) frame s =
      let (conn_id, protocol, ip, port) = layout.connect_of frame in
      if length frame == layout.server_connect_size
      then start RequestType.server_connect
          (λ s₁. some (server_connect m conn_id protocol ip port s₁))
      else refuse
  job_of (some RequestType.server_disconnect) frame s =
      let (conn_id, other) = layout.tx_args frame in
      start RequestType.server_disconnect (λ s₁. some (server_disconnect m (conn_id % 256) s₁))
  job_of (some RequestType.force_psm) frame s =
      start RequestType.force_psm (λ s₁. some (force_psm m s₁))
  job_of (some RequestType.acquire_gnss_position) frame s =
      start RequestType.acquire_gnss_position
        (λ s₁. result_of (acquire_gnss_position m rounds fuel no_position s₁))
  job_of (some type) frame s = answer (layout.response (value_of type s)) s

  -- The checks of the length come first.
  unfoldable pub request_job : List ℕ → NetworkLte X → Job X
  unfolding job_of request_type_of has_own_message
  request_job [] s = refuse
  request_job (byte ∷ bytes) s =
      let type = request_type_of byte in
      if not (has_own_message type) && not (length (byte ∷ bytes) == layout.tx_msg_size)
      then refuse
      else job_of type (byte ∷ bytes) s

  abbrev pub respond : List ℕ → RadioLteChannels → RadioLteChannels
  unfolding publish_typed_response
  respond bytes c = (publish_typed_response bytes c).1

  unfoldable pub do_job :
      Job X → RadioLteChannels → NetworkLte X → Option (RadioLteChannels × NetworkLte X)
  unfolding publish_typed_response publish_action_complete
  do_job refuse c s = some (respond (layout.response (Value.flag false)) c, s)
  do_job (answer bytes s₁) c s = some (respond bytes c, s₁)
  do_job (start type act) c s = elim (act s) [
    | none ↦ none
    | some (res, s₁) ↦ some (
      publish_action_complete (layout.action_complete type res)
          (respond (layout.response (Value.flag true)) c),
      s₁,
    )
  ]

  -- The loop `while (recv_request_frame(frame) == ok)`, on `passes`.
  unfoldable pub process_radio_requests :
      ℕ → RadioLteChannels → NetworkLte X → Option (RadioLteChannels × NetworkLte X)
  unfolding request_job do_job recv_request_frame
  process_radio_requests zero c s = none
  process_radio_requests (suc passes) c s =
      let (e, c₁, frame) = recv_request_frame c in
      elim frame [
        | none ↦ some (c₁, s)
        | some bytes ↦ elim (do_job (request_job bytes s) c₁ s) [
          | none ↦ none
          | some (c₂, s₁) ↦ process_radio_requests passes c₂ s₁
        ]
      ]
