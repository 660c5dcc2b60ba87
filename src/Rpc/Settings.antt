-- ===== src/Rpc/Settings.antt =====
-- The SET resources of `handle_request` of examples/desktop/app_rpc_server.cpp.
use x_e310_multi_os.Base.{
  ℕ, false, ◌||◌, not, List, [], ◌∷◌, ◌++◌, is_empty, bytes_eq, before, if◌then◌else◌, codes, show,
  none, some,
}
use x_e310_multi_os.RadioLte.{RequestType}
use x_e310_multi_os.Rpc.Structs.{object, quoted}
use x_e310_multi_os.Rpc.Config.{apply_config_fields}
use x_e310_multi_os.Rpc.Words.{config_key_from_resource}
use x_e310_multi_os.Rpc.Arguments.{Target, refused, parsed, bad, conn, parse_target, parse_conn_id}
use x_e310_multi_os.Rpc.Exchange.{
  Desktop, Reader, Reply, modem_ack_timeout_ms, exchange, read_flag, wait_blocking_action_complete,
}
use x_e310_multi_os.Rpc.Calls.{request_radio_state, not_running_error}

abbrev pub default_timeout_ms : ℕ
default_timeout_ms = 5000

abbrev pub connect_timeout_ms : ℕ
connect_timeout_ms = 210000

abbrev pub disconnect_timeout_ms : ℕ
disconnect_timeout_ms = 60000

abbrev pub force_psm_timeout_ms : ℕ
force_psm_timeout_ms = 30000

abbrev pub gnss_timeout_ms : ℕ
gnss_timeout_ms = 90000

abbrev pub no_fields_error : List ℕ
no_fields_error = codes "ERROR: no valid fields provided (use key=value pairs)"

module _ {X : Type 0} (reader : Reader) (turn : ℕ → Desktop X → Desktop X) (own_conn_id : ℕ) where
  -- The text of a reply, or what `text` makes of it if the call succeeded.
  abbrev pub unless_failed : (List ℕ → List ℕ) → Reply × Desktop X → List ℕ × Desktop X
  unless_failed text (reply, d) = (if reply.0 then text reply.1 else reply.1, d)

  -- One error for each way to fail.
  abbrev pub failing_with : List ℕ → (Desktop X → Reply × Desktop X) → Desktop X → Reply × Desktop X
  failing_with error respond d =
      let (reply, d₁) = respond d in (if reply.0 then reply else (false, error), d₁)

  -- `apply_config_update`, on the configuration that the machine has at the time.
  unfoldable pub update_config : List ℕ → Desktop X → List ℕ × Desktop X
  unfolding apply_config_fields exchange read_flag request_radio_state
  update_config update d =
      let (changed, cfg) = apply_config_fields update d.network.lte_config in
      let (reply, d₁) =
        exchange reader turn (codes "ERROR: failed to send set_config request")
          (codes "ERROR: timeout waiting set_config response") (reader.config_request cfg) 5000
          modem_ack_timeout_ms (failing_with no_fields_error (read_flag reader turn)) d in
      let (text, d₂) =
        request_radio_state reader turn RequestType.get_config 0 0 default_timeout_ms d₁ in
      if not changed then (no_fields_error, d) else if reply.0 then (text.1, d₂) else (reply.1, d₁)

  -- A call whose text goes into an object.
  abbrev pub reported : RequestType → ℕ → ℕ → (List ℕ → List ℕ) → Desktop X → List ℕ × Desktop X
  unfolding request_radio_state
  reported type arg0 timeout_ms text d =
      unless_failed text (request_radio_state reader turn type arg0 0 timeout_ms d)

  unfoldable pub set_connect : Desktop X → List ℕ × Desktop X
  unfolding request_radio_state object
  set_connect = reported RequestType.network_connect 0 connect_timeout_ms (λ payload. object (
      (codes "resource", quoted (codes "NETWORKCONNECT"))
      ∷ (codes "network_connect", payload)
      ∷ []))

  -- First the server, then the network.
  unfoldable pub disconnect_from : ℕ → Desktop X → List ℕ × Desktop X
  unfolding request_radio_state object show
  disconnect_from id d =
      let (server, d₁) =
        request_radio_state reader turn RequestType.server_disconnect id 0 disconnect_timeout_ms
          d in
      let (network, d₂) =
        request_radio_state reader turn RequestType.network_disconnect 0 0 disconnect_timeout_ms
          d₁ in
      if not server.0 then (server.1, d₁) else if not network.0 then (network.1, d₂) else (
        object (
            (codes "resource", quoted (codes "NETWORKDISCONNECT"))
            ∷ (codes "conn_id", show id)
            ∷ (codes "server_disconnect", server.1)
            ∷ (codes "network_disconnect", network.1)
            ∷ []),
        d₂,
      )

  unfoldable pub set_disconnect : List ℕ → Desktop X → List ℕ × Desktop X
  unfolding parse_conn_id disconnect_from
  set_disconnect args d = elim (parse_conn_id own_conn_id args) [
    | bad error ↦ (error, d)
    | conn id ↦ disconnect_from id d
  ]

  abbrev pub connected_text : Target → List ℕ → List ℕ
  unfolding object show before
  connected_text t payload = object (
      (codes "resource", quoted (codes "SERVERCONNECT"))
      ∷ (codes "conn_id", show t.conn_id)
      ∷ (codes "protocol", quoted (before 0 t.protocol))
      ∷ (codes "ip", quoted (before 0 t.ip))
      ∷ (codes "port", show t.port)
      ∷ (codes "server_connect", codes "true")
      ∷ [])

  unfoldable pub connect_to : Target → Desktop X → List ℕ × Desktop X
  unfolding exchange wait_blocking_action_complete object show before
  connect_to t d =
      if d.network_worker_running
      then unless_failed (connected_text t) (
          exchange reader turn (codes "ERROR: failed to send server_connect request")
            (codes "ERROR: timeout waiting server_connect response")
            (reader.connect_request t.conn_id t.protocol t.ip t.port) connect_timeout_ms
            modem_ack_timeout_ms (wait_blocking_action_complete reader turn connect_timeout_ms) d)
      else (not_running_error, d)

  unfoldable pub set_server : List ℕ → Desktop X → List ℕ × Desktop X
  unfolding parse_target connect_to
  set_server args d = elim (parse_target args) [
    | refused error ↦ (error, d)
    | parsed t ↦ connect_to t d
  ]

  -- The tests on the resource after the network's own, in their order.
  unfoldable pub set_other : List ℕ → List ℕ → Desktop X → List ℕ × Desktop X
  unfolding bytes_eq config_key_from_resource update_config request_radio_state object
  set_other res args d = elim (config_key_from_resource res) [
    | some key ↦
        if is_empty args
        then (codes "ERROR: missing value", d)
        else update_config (key ++ (b'=' ∷ args)) d
    | none ↦
        if bytes_eq res (codes "FORCEPSM")
        then reported RequestType.force_psm 0 force_psm_timeout_ms
            (λ payload.
              object
                ((codes "resource", quoted (codes "FORCEPSM")) ∷ (codes "status", payload) ∷ []))
            d
        else if bytes_eq res (codes "GNSS")
        then reported RequestType.acquire_gnss_position 0 gnss_timeout_ms (λ payload. payload) d
        else (codes "ERROR: unknown SET resource", d)
  ]

  unfoldable pub set_resource : List ℕ → List ℕ → Desktop X → List ℕ × Desktop X
  unfolding bytes_eq set_connect set_disconnect set_server update_config set_other
  set_resource res args d =
      if bytes_eq res (codes "NETWORKCONNECT") || bytes_eq res (codes "CONNECT")
      then set_connect d
      else if bytes_eq res (codes "NETWORKDISCONNECT") || bytes_eq res (codes "DISCONNECT")
      then set_disconnect args d
      else if bytes_eq res (codes "SERVERCONNECT")
      then set_server args d
      else if bytes_eq res (codes "CONFIG")
      then update_config args d
      else set_other res args d
