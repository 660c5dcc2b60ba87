-- ===== src/NetworkLte/Actions/Data.antt =====
-- The actions of `execute_actions` (src/network_lte.cpp) on the PDP context and on the data queues.
use x_e310_multi_os.Base.{
  ℕ, zero, suc, ◌-◌, Bool, true, false, not, ◌||◌, List, if◌then◌else◌, bytes_eq, codes, length,
  Option, none, some,
}
use x_e310_multi_os.Modem.Interface.{Xe310, activate_pdp, udp_send}
use x_e310_multi_os.MessageQueue.{QueueMessage, pop_next_from, is_invalid_id, Side}
use x_e310_multi_os.NetworkLte.Types.{
  NetworkLteState, ServerState, pdp_context_closed, data_ready, open_pdp_context,
}
use x_e310_multi_os.NetworkLte.State.{NetworkLte, Queues}
use x_e310_multi_os.NetworkLte.Events.{call_action}
use x_e310_multi_os.NetworkLte.ChangeState.{change_state}
use x_e310_multi_os.NetworkLte.Actions.Calls.{is_ok, run, exec}

unfoldable pub is_connected : ServerState → Bool
is_connected ServerState.connected = true
is_connected _ = false

unfoldable pub is_data_ready : NetworkLteState → Bool
is_data_ready data_ready = true
is_data_ready _ = false

abbrev pub udp : List ℕ
udp = codes "UDP"

module _ {X : Type 0} (m : Xe310 X) where
  abbrev pub found_context : Bool → NetworkLte X → NetworkLte X
  found_context false s = call_action open_pdp_context (change_state m pdp_context_closed s)
  found_context true s =
      let (st, ip, x) = m.get_ip_address s.lte_config.cid s.network_info.ip_address s.modem in
      let s₁ = record s { modem = x; network_info = record (s.network_info) { ip_address = ip } } in
      if is_ok st then change_state m data_ready s₁ else s₁

  unfoldable pub query_pdp : NetworkLte X → NetworkLte X
  unfolding is_ok call_action
  query_pdp s =
      let (st, active, x) = m.get_pdp_state s.lte_config.cid false s.modem in
      let s₁ = record s { modem = x } in if is_ok st then found_context active s₁ else s₁

  unfoldable pub open_pdp : NetworkLte X → NetworkLte X
  unfolding is_ok run
  open_pdp s =
      let (st, s₁) = run m (activate_pdp s.lte_config.cid) s in
      if is_ok st then change_state m data_ready s₁ else s₁

  -- One message: dropped unless its connection is connected by UDP.
  unfoldable pub send_message : QueueMessage → NetworkLte X → NetworkLte X
  unfolding is_connected exec
  send_message msg s =
      let server = s.server_info (msg.cid - 1) in
      if is_invalid_id msg.cid
        || not (is_connected server.state)
        || not (bytes_eq server.protocol udp)
      then s
      else exec m (udp_send msg.cid msg.payload) s

  -- The loop on `tx_pop_next`; it ends when that finds no message.
  unfoldable pub send_loop : ℕ → Side → NetworkLte X → Side × NetworkLte X
  send_loop zero tx s = (tx, s)
  send_loop (suc fuel) tx s =
      let (e, tx', msg) = pop_next_from tx 0 tx in
      elim msg [ none ↦ (tx', s) | some msg ↦ send_loop fuel tx' (send_message msg s) ]

  abbrev pub drain : Option Queues → NetworkLte X → NetworkLte X
  drain none s = s
  drain (some q) s =
      let (tx, s') = send_loop (suc (length q.tx.order)) q.tx s in
      record s' { message_queue = some (record q { tx = tx }) }

  -- Outside data_ready the action is ignored.
  unfoldable pub send_queued : NetworkLte X → NetworkLte X
  unfolding is_data_ready
  send_queued s = if is_data_ready s.state then drain s.message_queue s else s

  -- What is read is only logged.
  unfoldable pub read_payload : NetworkLte X → NetworkLte X
  read_payload s =
      let (st, bytes, x) = m.udp_receive s.lte_config.conn_id List.[] s.modem in
      record s { modem = x }
