-- ===== src/NetworkLte/Loop.antt =====
-- `loop` and `go_to_state` of src/network_lte.cpp. A URC, the timer's callback and the tail of an
-- earlier call may each have set the pending event before; the last one is processed.
use x_e310_multi_os.Base.{
  ℕ, zero, suc, Bool, true, false, ◌&&◌, not, List, [], ◌∷◌, ltb, ◌==◌, if◌then◌else◌, is_empty,
  Option, none, some,
}
use mathlib.Core.Logic.{ite}
use x_e310_multi_os.Modem.Types.{ModemStatus, GnssFixType, no_position}
use x_e310_multi_os.Modem.Interface.{Xe310}
use x_e310_multi_os.MessageQueue.{push_to}
use x_e310_multi_os.NetworkLte.Types.{
  NetworkLteState, NetworkLteState-discrete, NetworkLteEvent, ModemAction, psm_enter, psm_exit,
  context_opened, context_closed, network_attached, data_available, gps_available, timeout,
  network_error, attach_error, context_error, at_command_no_response, sleep_mode, data_ready,
  idle_mode, switched_off, off_mode, pdp_context_closed, transparent_mode, gnss_fix_mode,
  modem_fota, done, enter_sleep, leave_transparent_mode, leave_gnss_fix, attach_network,
  check_responsiveness, power_on, turn_on_radio, wake_up, enter_transparent_mode, enter_gnss_fix,
}
use x_e310_multi_os.NetworkLte.State.{NetworkLte, Queues}
use x_e310_multi_os.NetworkLte.Events.{on_event, get_event, call_action}
use x_e310_multi_os.NetworkLte.ChangeState.{change_state, disconnect_servers}
use x_e310_multi_os.NetworkLte.Actions.{execute_actions}
use x_e310_multi_os.NetworkLte.Actions.Calls.{is_ok}
use x_e310_multi_os.NetworkLte.Urc.{handle_urc}

unfoldable pub is_timeout : ModemStatus → Bool
is_timeout ModemStatus.timeout = true
is_timeout _ = false

-- `fix > GnssFixType::invalid_fix`.
unfoldable pub is_fix : GnssFixType → Bool
is_fix GnssFixType.fix_2d = true
is_fix GnssFixType.fix_3d = true
is_fix (GnssFixType.other n) = true
is_fix _ = false

-- The states that keep their state when the network reports a detach.
unfoldable pub is_off : NetworkLteState → Bool
is_off switched_off = true
is_off off_mode = true
is_off sleep_mode = true
is_off _ = false

abbrev pub push_rx : ℕ → List ℕ → Option Queues → Option Queues
push_rx conn bytes none = none
push_rx conn bytes (some q) = some (record q { rx = (push_to q.capacity q.rx conn bytes).1 })

abbrev pub timeout_action : NetworkLteState → ModemAction
timeout_action data_ready = enter_sleep
timeout_action transparent_mode = leave_transparent_mode
timeout_action gnss_fix_mode = leave_gnss_fix
timeout_action _ = attach_network

-- The action that `go_to_state` calls for, if any.
unfoldable pub request : NetworkLteState → NetworkLteState → Option ModemAction
request switched_off data_ready = some power_on
request switched_off transparent_mode = some power_on
request switched_off gnss_fix_mode = some power_on
request switched_off _ = none
request off_mode data_ready = some turn_on_radio
request off_mode transparent_mode = some turn_on_radio
request off_mode gnss_fix_mode = some turn_on_radio
request off_mode _ = none
request sleep_mode data_ready = some wake_up
request sleep_mode transparent_mode = some wake_up
request sleep_mode _ = none
request transparent_mode data_ready = some leave_transparent_mode
request transparent_mode idle_mode = some leave_transparent_mode
request transparent_mode _ = none
request gnss_fix_mode data_ready = some leave_transparent_mode
request gnss_fix_mode idle_mode = some leave_transparent_mode
request gnss_fix_mode _ = none
request _ transparent_mode = some enter_transparent_mode
request _ gnss_fix_mode = some enter_gnss_fix
request _ _ = none

abbrev pub gives_up : NetworkLteState → Bool
gives_up done = true
gives_up modem_fota = true
gives_up _ = false

abbrev pub aborts : NetworkLteEvent → Bool
aborts network_error = true
aborts attach_error = true
aborts context_error = true
aborts _ = false

module _ {X : Type 0} where
  abbrev pub call_requested : Option ModemAction → NetworkLte X → NetworkLte X
  call_requested none s = s
  call_requested (some action) s = call_action action s

  unfoldable pub handle_urcs : List (List ℕ) → NetworkLte X → NetworkLte X
  handle_urcs [] s = s
  handle_urcs (urc ∷ urcs) s = handle_urcs urcs (handle_urc urc s)

module _ {X : Type 0} (m : Xe310 X) where
  -- In transparent mode the UART belongs to another thread.
  unfoldable pub poll : NetworkLte X → NetworkLte X
  poll s =
      let (urcs, x) = m.poll_urc s.modem in
      ite (NetworkLteState-discrete s.state transparent_mode) s
        (handle_urcs urcs (record s { modem = x }))

  unfoldable pub check_last_status : NetworkLte X → NetworkLte X
  unfolding is_timeout
  check_last_status s =
      if is_timeout (m.last_status s.modem) then on_event at_command_no_response s else s

  unfoldable pub receive_data : NetworkLte X → NetworkLte X
  unfolding is_ok
  receive_data s =
      let conn = if ltb 0 s.last_data_conn_id then s.last_data_conn_id else s.lte_config.conn_id in
      let (st, bytes, x) = m.udp_receive conn [] s.modem in
      let s₁ = record s { modem = x } in
      if is_ok st && not (is_empty bytes)
      then record s₁ {
        message_queue = push_rx conn bytes s.message_queue;
        delivered = if s.has_data_callback then (conn, bytes) ∷ s.delivered else s.delivered;
      }
      else s₁

  unfoldable pub receive_fix : NetworkLte X → NetworkLte X
  unfolding is_fix
  receive_fix s =
      let (st, position, x) = m.get_gnss_position no_position s.modem in
      let s₁ = record s { modem = x } in
      if is_fix position.fix
      then call_action leave_gnss_fix (record s₁ { gnss_position = position })
      else s₁

  unfoldable pub handle_timeout : NetworkLte X → NetworkLte X
  handle_timeout s =
      let expired = change_state m done (call_action (timeout_action s.state) s) in
      ite (NetworkLteState-discrete s.state data_ready)
        (if s.lte_config.data_ready_timeout_sec == 0 then s else expired) expired

  -- The switch on the event.
  unfoldable pub process_event : NetworkLteEvent → NetworkLte X → NetworkLte X
  unfolding handle_timeout receive_data receive_fix is_off
  process_event psm_enter s = change_state m sleep_mode s
  process_event psm_exit s =
      ite (NetworkLteState-discrete s.prev_state data_ready) (change_state m data_ready s)
        (change_state m idle_mode s)
  process_event NetworkLteEvent.network_detached s =
      let s₁ = record s { server_info = disconnect_servers s.server_info } in
      if is_off s.state then s₁ else change_state m NetworkLteState.network_detached s₁
  process_event network_attached s = change_state m pdp_context_closed s
  process_event context_closed s =
      change_state m NetworkLteState.network_detached
        (record s { server_info = disconnect_servers s.server_info })
  process_event context_opened s = change_state m data_ready s
  process_event data_available s = receive_data s
  process_event gps_available s = receive_fix s
  process_event timeout s = handle_timeout s
  process_event attach_error s = call_action enter_sleep s
  process_event at_command_no_response s = call_action check_responsiveness s
  process_event _ s = s

  -- What comes before the actions.
  unfoldable pub process : NetworkLte X → NetworkLte X
  unfolding poll check_last_status process_event get_event
  process s = let (event, s₁) = get_event (check_last_status (poll s)) in process_event event s₁

  -- `none` stands for a `check_responsiveness` that used up its fuel.
  unfoldable pub loop : ℕ → NetworkLteState → NetworkLte X → Option (NetworkLte X)
  loop fuel target s =
      let s₁ = process s in
      let acted = execute_actions m fuel s₁ in
      ite (NetworkLteState-discrete s₁.state target)
        (ite (NetworkLteState-discrete target NetworkLteState.none) acted (some s₁)) acted

  -- `rounds` bounds the passes of the while loop, which has no end of its own; `none` stands for a
  -- call that has not returned by then.
  unfoldable pub go_to_state : ℕ → ℕ → NetworkLteState → NetworkLte X → Option (Bool × NetworkLte X)
  unfolding request
  go_to_state zero fuel target s = none
  go_to_state (suc rounds) fuel target s = elim (NetworkLteState-discrete s.state target) [
    | yes here ↦ some (true, s)
    | no away ↦ elim (gives_up s.state) [
      | true ↦ some (false, s)
      | false ↦ elim (loop fuel target (call_requested (request s.state target) s)) [
        | none ↦ none
        | some s' ↦ elim (aborts s'.event) [
          | true ↦ some (false, s')
          | false ↦ go_to_state rounds fuel target s'
        ]
      ]
    ]
  ]
