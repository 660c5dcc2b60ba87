-- ===== src/Rpc/Calls.antt =====
-- `request_radio_state` of examples/desktop/app_rpc_server.cpp: a request to the network thread, and
-- the text of its answer.
use x_e310_multi_os.Base.{ℕ, false, List, if◌then◌else◌, codes}
use x_e310_multi_os.RadioLte.{RequestType}
use x_e310_multi_os.Rpc.Exchange.{
  Desktop, Reader, Reply, modem_ack_timeout_ms, exchange, read_value, read_servers, read_flag,
  wait_blocking_action_complete,
}

abbrev pub unsent_error : List ℕ
unsent_error = codes "ERROR: failed to send request"

abbrev pub late_error : List ℕ
late_error = codes "ERROR: timeout waiting response"

abbrev pub not_running_error : List ℕ
not_running_error = codes "ERROR: network worker not running"

module _ {X : Type 0} (reader : Reader) (turn : ℕ → Desktop X → Desktop X) where
  unfoldable pub request_csurv_result : ℕ → Desktop X → Reply × Desktop X
  unfolding exchange read_value
  request_csurv_result timeout_ms =
      exchange reader turn unsent_error late_error
        (reader.request_bytes RequestType.get_csurv_result 0 0) timeout_ms timeout_ms
        (read_value reader turn RequestType.get_csurv_result)

  -- The worker must run. Every request is answered at once, if it is.
  unfoldable pub ask :
      RequestType → ℕ → ℕ → ℕ → (Desktop X → Reply × Desktop X) → Desktop X → Reply × Desktop X
  unfolding exchange
  ask type arg0 arg1 timeout_ms respond d =
      if d.network_worker_running
      then exchange reader turn unsent_error late_error (reader.request_bytes type arg0 arg1)
          timeout_ms modem_ack_timeout_ms respond d
      else ((false, not_running_error), d)

  -- What follows an action that ended: its own result, unless it succeeded.
  unfoldable pub after_action : (Desktop X → Reply × Desktop X) → ℕ → Desktop X → Reply × Desktop X
  unfolding wait_blocking_action_complete
  after_action next timeout_ms d =
      let (reply, d₁) = wait_blocking_action_complete reader turn timeout_ms d in
      if reply.0 then next d₁ else ((false, reply.1), d₁)

  -- The switch on the type of the request, after its response was announced.
  unfoldable pub respond_to : RequestType → ℕ → ℕ → Desktop X → Reply × Desktop X
  unfolding read_value read_servers read_flag wait_blocking_action_complete after_action ask
      request_csurv_result
  respond_to RequestType.scan_networks arg0 timeout_ms =
      after_action (request_csurv_result timeout_ms) timeout_ms
  respond_to RequestType.get_server_info_array arg0 timeout_ms = read_servers reader turn arg0
  respond_to RequestType.set_config arg0 timeout_ms = read_flag reader turn
  respond_to RequestType.network_connect arg0 timeout_ms =
      wait_blocking_action_complete reader turn timeout_ms
  respond_to RequestType.network_disconnect arg0 timeout_ms =
      wait_blocking_action_complete reader turn timeout_ms
  respond_to RequestType.server_connect arg0 timeout_ms =
      wait_blocking_action_complete reader turn timeout_ms
  respond_to RequestType.server_disconnect arg0 timeout_ms =
      wait_blocking_action_complete reader turn timeout_ms
  respond_to RequestType.force_psm arg0 timeout_ms =
      wait_blocking_action_complete reader turn timeout_ms
  respond_to RequestType.acquire_gnss_position arg0 timeout_ms =
      after_action
        (ask RequestType.get_gnss_position 0 0 timeout_ms
          (read_value reader turn RequestType.get_gnss_position))
        timeout_ms
  respond_to type arg0 timeout_ms = read_value reader turn type

  unfoldable pub request_radio_state : RequestType → ℕ → ℕ → ℕ → Desktop X → Reply × Desktop X
  unfolding ask respond_to
  request_radio_state type arg0 arg1 timeout_ms =
      ask type arg0 arg1 timeout_ms (respond_to type arg0 timeout_ms)
