-- ===== src/NetworkLte/Events.antt =====
-- The event and the action that are pending, each with its trace entry: `on_event`, `get_event`,
-- `call_action`, `get_action` and the `log_` functions of src/network_lte.cpp.
use x_e310_multi_os.Base.{Bool, true, false, if◌then◌else◌}
use x_e310_multi_os.NetworkLte.Types.{
  NetworkLteState, NetworkLteEvent, ModemAction, NetworkTraceKind, network_error, attach_error,
  context_error, at_command_no_response, state_change, event_set, action_set, error,
}
use x_e310_multi_os.NetworkLte.Trace.{push_trace}
use x_e310_multi_os.NetworkLte.State.{NetworkLte}

unfoldable pub is_error_event : NetworkLteEvent → Bool
is_error_event network_error = true
is_error_event attach_error = true
is_error_event context_error = true
is_error_event at_command_no_response = true
is_error_event _ = false

module _ {X : Type 0} where
  unfoldable pub log_state : NetworkLte X → NetworkLte X
  log_state s = record s {
    trace = push_trace s.trace (record {
      kind = state_change;
      previous_state = s.prev_state;
      current_state = s.state;
      event = NetworkLteEvent.none;
      action = ModemAction.none;
    });
  }

  unfoldable pub log_event : NetworkTraceKind → NetworkLteEvent → NetworkLte X → NetworkLte X
  log_event kind event s = record s {
    trace = push_trace s.trace (record {
      kind = kind;
      previous_state = NetworkLteState.none;
      current_state = NetworkLteState.none;
      event = event;
      action = ModemAction.none;
    });
  }

  unfoldable pub log_action : NetworkLte X → NetworkLte X
  log_action s = record s {
    trace = push_trace s.trace (record {
      kind = action_set;
      previous_state = NetworkLteState.none;
      current_state = NetworkLteState.none;
      event = NetworkLteEvent.none;
      action = s.modem_action;
    });
  }

  -- An error event leaves a second trace entry.
  unfoldable pub on_event : NetworkLteEvent → NetworkLte X → NetworkLte X
  unfolding log_event is_error_event
  on_event event s =
      let s' = log_event event_set event (record s { event = event }) in
      if is_error_event event then log_event error event s' else s'

  unfoldable pub get_event : NetworkLte X → NetworkLteEvent × NetworkLte X
  get_event s = (s.event, record s { event = NetworkLteEvent.none })

  unfoldable pub call_action : ModemAction → NetworkLte X → NetworkLte X
  unfolding log_action
  call_action action s = log_action (record s { modem_action = action })

  unfoldable pub get_action : NetworkLte X → ModemAction × NetworkLte X
  get_action s = (s.modem_action, record s { modem_action = ModemAction.none })
