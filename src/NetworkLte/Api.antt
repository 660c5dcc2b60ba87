-- ===== src/NetworkLte/Api.antt =====
-- The calls of `class NetworkLte` (src/network_lte.cpp) by which a client drives the state machine.
-- A call that runs the machine takes the bounds of `go_to_state` and of `loop`; `none` stands for a
-- call that has not returned within them. `uint8_t conn_id` is from 1 to 5: the source indexes its
-- array by `conn_id - 1` unchecked.
use x_e310_multi_os.Base.{
  ℕ, ◌-◌, Bool, true, false, ◌&&◌, List, ◌==◌, if◌then◌else◌, bytes_eq, codes, store, take, Option,
  none, some,
}
use mathlib.Core.Logic.{ite}
use x_e310_multi_os.Modem.Types.{ModemStatus, modem_short_str, modem_ip_str}
use x_e310_multi_os.Modem.Interface.{Xe310, network_detach, udp_open, udp_close}
use x_e310_multi_os.MessageQueue.{QueueError, QueueMessage, push_to, pop_from, invalid_id}
use x_e310_multi_os.NetworkLte.Types.{
  NetworkLteState, NetworkLteState-discrete, ServerState, connected, disconnected, suspended,
  dns_resolving, connecting, unknown, pending_data, listening, incoming_connection, data_ready,
  sleep_mode, transparent_mode, gnss_fix_mode, modem_fota, done, off_mode, switched_off,
  leave_transparent_mode,
}
use x_e310_multi_os.NetworkLte.State.{NetworkLte, ServerInfo, Queues}
use x_e310_multi_os.NetworkLte.Events.{call_action}
use x_e310_multi_os.NetworkLte.ChangeState.{change_state}
use x_e310_multi_os.NetworkLte.Actions.{execute_actions}
use x_e310_multi_os.NetworkLte.Actions.Calls.{is_ok, run, exec}
use x_e310_multi_os.NetworkLte.Actions.Data.{udp, is_connected}
use x_e310_multi_os.NetworkLte.Loop.{go_to_state}

-- A call that returns whether it succeeded, or has not returned.
abbrev pub Outcome : Type 0 → Type 0
Outcome X = Option (Bool × NetworkLte X)

-- The states from which `network_connect` fails at once.
unfoldable pub cannot_connect : NetworkLteState → Bool
cannot_connect gnss_fix_mode = true
cannot_connect transparent_mode = true
cannot_connect modem_fota = true
cannot_connect done = true
cannot_connect _ = false

-- `static_cast<ServerState>(uint8_t)`, for the values that the enumeration names; the others are
-- compared with none of them.
unfoldable pub server_state_of : ℕ → ServerState
server_state_of n =
    if n == 0
    then disconnected
    else if n == 1
    then connected
    else if n == 2
    then suspended
    else if n == 3
    then pending_data
    else if n == 4
    then listening
    else if n == 5
    then incoming_connection
    else if n == 6
    then dns_resolving
    else if n == 7
    then connecting
    else unknown

unfoldable pub is_asleep : NetworkLteState → Bool
is_asleep sleep_mode = true
is_asleep off_mode = true
is_asleep switched_off = true
is_asleep _ = false

abbrev pub tx_write_to : Option Queues → ℕ → List ℕ → QueueError × Option Queues
tx_write_to none conn_id bytes = (invalid_id, none)
tx_write_to (some q) conn_id bytes =
    let (e, tx) = push_to q.capacity q.tx conn_id bytes in (e, some (record q { tx = tx }))

abbrev pub rx_read_from : Option Queues → ℕ → QueueError × Option Queues × Option QueueMessage
rx_read_from none conn_id = (invalid_id, none, none)
rx_read_from (some q) conn_id =
    let (e, rx, msg) = pop_from q.rx conn_id 0 q.rx in (e, some (record q { rx = rx }), msg)

module _ {X : Type 0} where
  -- Whether a state was reached, for a call of `go_to_state` whose result is not looked at.
  abbrev pub reached : NetworkLteState → Outcome X → Outcome X
  reached target none = none
  reached target (some (result, s)) =
      some (ite (NetworkLteState-discrete s.state target) true false, s)

  abbrev pub asleep : Outcome X → Outcome X
  asleep none = none
  asleep (some (result, s)) = some (is_asleep s.state, s)

  abbrev pub left : Option (NetworkLte X) → Outcome X
  left none = none
  left (some s) = some (ite (NetworkLteState-discrete s.state transparent_mode) false true, s)

  abbrev pub set_server : ℕ → ServerInfo → NetworkLte X → NetworkLte X
  set_server conn_id server s = record s { server_info = store s.server_info (conn_id - 1) server }

  abbrev pub set_server_state : ℕ → ServerState → NetworkLte X → NetworkLte X
  set_server_state conn_id state s =
      set_server conn_id (record (s.server_info (conn_id - 1)) { state = state }) s

module _ {X : Type 0} (m : Xe310 X) where
  unfoldable pub network_connect : ℕ → ℕ → NetworkLte X → Outcome X
  unfolding exec cannot_connect
  network_connect rounds fuel s =
      let s₁ = if s.warm_boot then exec m network_detach s else s in
      let driven = reached data_ready (go_to_state m rounds fuel data_ready s₁) in
      if cannot_connect s.state
      then some (false, s₁)
      else ite (NetworkLteState-discrete s.state data_ready) (some (true, s₁)) driven

  -- It returns true also when the modem did not detach.
  unfoldable pub network_disconnect : NetworkLte X → Bool × NetworkLte X
  unfolding run is_ok
  network_disconnect s =
      let (st, s₁) = run m network_detach s in
      (true, if is_ok st then change_state m NetworkLteState.network_detached s₁ else s₁)

  -- The end of `server_connect`: a UDP socket is opened, another protocol is refused.
  unfoldable pub open_server : ℕ → List ℕ → List ℕ → ℕ → NetworkLte X → Bool × NetworkLte X
  unfolding run is_ok exec
  open_server conn_id protocol ip port s =
      let (st, s₁) = run m (udp_open conn_id ip port) s in
      if bytes_eq protocol udp
      then if is_ok st
        then (
          true,
          set_server conn_id
              (record (s₁.server_info (conn_id - 1)) {
                state = connected;
                protocol = take modem_short_str protocol;
                address = take modem_ip_str ip;
                port = port;
              })
              s₁,
        )
        else (false, exec m (udp_close conn_id) s₁)
      else (false, s)

  -- A suspended socket is closed first.
  unfoldable pub connect_from :
      ServerState → ℕ → List ℕ → List ℕ → ℕ → NetworkLte X → Bool × NetworkLte X
  unfolding run is_ok open_server
  connect_from connected conn_id protocol ip port s = (true, s)
  connect_from suspended conn_id protocol ip port s =
      let (st, s₁) = run m (udp_close conn_id) s in
      if is_ok st
      then open_server conn_id protocol ip port (set_server_state conn_id connected s₁)
      else (false, s₁)
  connect_from dns_resolving conn_id protocol ip port s = (false, s)
  connect_from connecting conn_id protocol ip port s = (false, s)
  connect_from _ conn_id protocol ip port s = open_server conn_id protocol ip port s

  -- Only in data_ready; in sleep_mode it also fails, after another message.
  unfoldable pub server_connect : ℕ → List ℕ → List ℕ → ℕ → NetworkLte X → Bool × NetworkLte X
  unfolding connect_from server_state_of
  server_connect conn_id protocol ip port s =
      let (st, conn_state, x) = m.udp_status conn_id 0 s.modem in
      let state = server_state_of conn_state in
      let asked = set_server_state conn_id state (record s { modem = x }) in
      ite (NetworkLteState-discrete s.state data_ready)
        (connect_from state conn_id protocol ip port asked) (false, s)

  unfoldable pub server_disconnect : ℕ → NetworkLte X → Bool × NetworkLte X
  unfolding run is_ok is_connected
  server_disconnect conn_id s =
      let server = s.server_info (conn_id - 1) in
      let (st, s₁) = run m (udp_close conn_id) s in
      if is_connected server.state && bytes_eq server.protocol udp
      then if is_ok st then (true, set_server_state conn_id disconnected s₁) else (false, s₁)
      else (false, s)

  unfoldable pub enter_sleep : ℕ → ℕ → NetworkLte X → Outcome X
  unfolding is_asleep
  enter_sleep rounds fuel s =
      let driven = asleep (go_to_state m rounds fuel sleep_mode s) in
      if is_asleep s.state then some (true, s) else driven

  unfoldable pub enter_transparent_mode : ℕ → ℕ → NetworkLte X → Outcome X
  enter_transparent_mode rounds fuel s =
      reached transparent_mode (go_to_state m rounds fuel transparent_mode s)

  -- It leaves by the action itself, which turns the notifications on again.
  unfoldable pub leave_transparent : ℕ → NetworkLte X → Outcome X
  unfolding call_action
  leave_transparent fuel s =
      ite (NetworkLteState-discrete s.state transparent_mode)
        (left (execute_actions m fuel (call_action leave_transparent_mode s))) (some (false, s))

  abbrev pub report : ModemStatus → List ℕ → Bool × List ℕ
  report ModemStatus.ok response = (true, response)
  report ModemStatus.timeout response = (false, codes "ERROR: Timeout")
  report ModemStatus.busy response = (false, codes "ERROR: Busy")
  report _ response = (false, codes "ERROR: Failed to send AT command")

  unfoldable pub send_at_command :
      List ℕ → List ℕ → ℕ → NetworkLte X → (Bool × List ℕ) × NetworkLte X
  send_at_command command response timeout_ms s =
      let (st, answer, x) = m.send_at_command command response timeout_ms s.modem in
      ite (NetworkLteState-discrete s.state transparent_mode)
        (report st answer, record s { modem = x })
        ((false, codes "ERROR: Not in transparent mode"), s)

module _ {X : Type 0} where
  unfoldable pub tx_write : ℕ → List ℕ → NetworkLte X → QueueError × NetworkLte X
  tx_write conn_id bytes s =
      let (e, q) = tx_write_to s.message_queue conn_id bytes in (e, record s { message_queue = q })

  unfoldable pub rx_read : ℕ → NetworkLte X → QueueError × NetworkLte X × Option QueueMessage
  rx_read conn_id s =
      let (e, q, msg) = rx_read_from s.message_queue conn_id in
      (e, record s { message_queue = q }, msg)
