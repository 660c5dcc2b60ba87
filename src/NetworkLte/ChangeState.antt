-- ===== src/NetworkLte/ChangeState.antt =====
-- `change_state` of src/network_lte.cpp: the state timer is stopped and read on leaving a timed
-- state, and started on entering one; entering data_ready refreshes what is known of the network;
-- entering network_detached or pdp_context_closed resets the servers and calls the next action.
pub mod Timed
pub mod Effects
use x_e310_multi_os.Base.{ℕ, ◌+◌, ◌*◌, ◌%◌, ◌^◌, Bool, true, false, [], ltb, if◌then◌else◌, some}
use mathlib.Core.Logic.{ite}
use x_e310_multi_os.Modem.Types.{empty_network_info, empty_psm_status}
use x_e310_multi_os.Modem.Interface.{Xe310}
use x_e310_multi_os.Timer
use x_e310_multi_os.Timer.{Timer}
use x_e310_multi_os.NetworkLte.Types.{
  NetworkLteState, NetworkLteState-discrete, ServerState, attach_network, open_pdp_context,
  network_attaching, pdp_context_closed, pdp_context_opening, data_ready, transparent_mode,
  gnss_fix_mode, sleep_mode, off_mode,
}
use x_e310_multi_os.NetworkLte.State.{
  NetworkLte, StateTimers, ServerInfo, TimerCallback, on_timer_expired, do_nothing,
}
use x_e310_multi_os.NetworkLte.Events.{log_state, call_action}

abbrev pub u32 : ℕ → ℕ
u32 n = n % 2 ^ 32

abbrev pub uint32_max : ℕ
uint32_max = 4294967295

-- `stateTimers_.<state>_ms += elapsed` for the state that is left.
unfoldable pub add_elapsed : NetworkLteState → ℕ → StateTimers → StateTimers
add_elapsed network_attaching ms t = record t {
  network_attaching_ms = u32 (t.network_attaching_ms + ms);
}
add_elapsed pdp_context_opening ms t = record t {
  pdp_context_opening_ms = u32 (t.pdp_context_opening_ms + ms);
}
add_elapsed data_ready ms t = record t { data_ready_ms = u32 (t.data_ready_ms + ms) }
add_elapsed transparent_mode ms t = record t {
  transparent_mode_ms = u32 (t.transparent_mode_ms + ms);
}
add_elapsed gnss_fix_mode ms t = record t { gnss_fix_mode_ms = u32 (t.gnss_fix_mode_ms + ms) }
add_elapsed sleep_mode ms t = record t { sleep_mode_ms = u32 (t.sleep_mode_ms + ms) }
add_elapsed off_mode ms t = record t { off_mode_ms = u32 (t.off_mode_ms + ms) }
add_elapsed _ ms t = t

-- The states on leaving which the timer is read and stopped.
unfoldable pub stops_timer : NetworkLteState → Bool
stops_timer network_attaching = true
stops_timer pdp_context_opening = true
stops_timer data_ready = true
stops_timer transparent_mode = true
stops_timer gnss_fix_mode = true
stops_timer sleep_mode = true
stops_timer off_mode = true
stops_timer _ = false

unfoldable pub disconnect_servers : (ℕ → ServerInfo) → ℕ → ServerInfo
disconnect_servers servers i =
    if ltb i 5 then record (servers i) { state = ServerState.disconnected } else servers i

module _ {X : Type 0} (m : Xe310 X) where
  -- The switch on the state that is left.
  unfoldable pub leave_state : NetworkLteState → NetworkLte X → NetworkLte X
  unfolding add_elapsed stops_timer
  leave_state old s =
      if stops_timer old
      then record s {
        state_timers = add_elapsed old (Timer.elapsed_ms s.st_timer (m.now s.modem)) s.state_timers;
        st_timer = (Timer.stop s.st_timer).1;
      }
      else s

  unfoldable pub start_st_timer : ℕ → TimerCallback → NetworkLte X → NetworkLte X
  start_st_timer timeout_ms cb s = record s {
    st_timer = (Timer.start s.st_timer timeout_ms (some cb) (m.now s.modem)).1;
  }

  -- `data_ready_timeout_sec` 0 stands for no timeout.
  unfoldable pub start_data_ready_timer : NetworkLte X → NetworkLte X
  unfolding start_st_timer
  start_data_ready_timer s =
      if ltb 0 s.lte_config.data_ready_timeout_sec
      then start_st_timer (s.lte_config.data_ready_timeout_sec * 1000) on_timer_expired s
      else start_st_timer uint32_max do_nothing s

  -- Clock, signal quality, operator, APN and PSM status, each kept as it was if its query fails.
  unfoldable pub refresh_network : NetworkLte X → NetworkLte X
  refresh_network s =
      let (st₁, clock, x₁) = m.get_clock s.modem_clock s.modem in
      let (st₂, signal, x₂) = m.get_signal_quality s.signal_quality x₁ in
      let (st₃, operator, x₃) = m.get_operator s.reg_info.operator_name x₂ in
      let (st₄, apn, x₄) = m.get_apn s.lte_config.cid s.reg_info.apn x₃ in
      let (st₅, psm, x₅) = m.get_telit_psm empty_psm_status x₄ in
      record s {
        modem = x₅;
        modem_clock = clock;
        signal_quality = signal;
        reg_info = record (s.reg_info) { operator_name = operator; apn = apn };
      }

  -- The switch on the state that is entered: queries and timer.
  unfoldable pub enter_state : NetworkLteState → NetworkLte X → NetworkLte X
  unfolding start_st_timer start_data_ready_timer refresh_network
  enter_state network_attaching s =
      start_st_timer (s.lte_config.attach_timeout_sec * 1000) on_timer_expired s
  enter_state pdp_context_opening s =
      start_st_timer (s.lte_config.pdp_timeout_sec * 1000) on_timer_expired s
  enter_state data_ready s = start_data_ready_timer (refresh_network s)
  enter_state transparent_mode s =
      start_st_timer (s.lte_config.transparent_timeout_sec * 1000) on_timer_expired s
  enter_state sleep_mode s = start_st_timer uint32_max do_nothing s
  enter_state off_mode s = start_st_timer uint32_max do_nothing s
  enter_state gnss_fix_mode s =
      start_st_timer (s.lte_config.gps_timeout_sec * 1000) on_timer_expired s
  enter_state _ s = s

  -- The last switch: resets, and the action that continues the flow.
  unfoldable pub enter_actions : NetworkLteState → NetworkLte X → NetworkLte X
  unfolding call_action disconnect_servers
  enter_actions NetworkLteState.network_detached s = call_action attach_network (record s {
    network_info = empty_network_info;
    server_info = disconnect_servers s.server_info;
  })
  enter_actions pdp_context_closed s = call_action open_pdp_context (record s {
    network_info = record (s.network_info) { ip_address = [] };
    server_info = disconnect_servers s.server_info;
  })
  enter_actions _ s = s

  unfoldable pub change_state : NetworkLteState → NetworkLte X → NetworkLte X
  unfolding log_state leave_state enter_state enter_actions
  change_state new s = ite (NetworkLteState-discrete new s.state) s (
      enter_actions new (
        enter_state new
          (leave_state s.state (log_state (record s { prev_state = s.state; state = new })))))
