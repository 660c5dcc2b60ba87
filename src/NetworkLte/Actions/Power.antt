-- ===== src/NetworkLte/Actions/Power.antt =====
-- The actions of `execute_actions` (src/network_lte.cpp) that reboot the modem, wait for it, and
-- turn it or its radio on and off.
use x_e310_multi_os.Base.{ℕ, zero, suc, true, false, if◌then◌else◌, Option, none, some}
use mathlib.Core.Logic.{ite}
use x_e310_multi_os.Modem.Interface.{
  Xe310, set_baudrate, set_echo, at_ok, reboot, power_off_radio, shutdown,
}
use x_e310_multi_os.NetworkLte.Types.{
  NetworkLteState-discrete, ModemAction, rebooting, idle_mode, switched_off, off_mode, data_ready,
  query_network_status, setup_radio,
}
use x_e310_multi_os.NetworkLte.State.{NetworkLte}
use x_e310_multi_os.NetworkLte.Events.{call_action}
use x_e310_multi_os.NetworkLte.ChangeState.{change_state}
use x_e310_multi_os.NetworkLte.Actions.Calls.{is_ok, run, exec, check_status_response}

module _ {X : Type 0} (m : Xe310 X) where
  unfoldable pub reboot_modem : NetworkLte X → NetworkLte X
  unfolding run check_status_response call_action
  reboot_modem s =
      let (st, s₁) = run m reboot s in
      let (fine, s₂) = check_status_response st s₁ in
      if fine then call_action ModemAction.power_on (change_state m rebooting s₂) else s₂

  -- The loop has no end of its own: `none` when `fuel` attempts had no answer.
  unfoldable pub check_responsiveness : ℕ → NetworkLte X → Option (NetworkLte X)
  unfolding is_ok run call_action
  check_responsiveness zero s = none
  check_responsiveness (suc fuel) s =
      let (st, s₁) = run m at_ok s in
      let again = check_responsiveness fuel (record s₁ { modem = m.delay_ms 2000 s₁.modem }) in
      if is_ok st
      then some (call_action query_network_status (change_state m idle_mode s₁))
      else again

  unfoldable pub power_on : NetworkLte X → NetworkLte X
  unfolding is_ok run exec call_action
  power_on s =
      let (st, s₁) = run m at_ok (exec m (set_echo false) (exec m (set_baudrate 115200) s)) in
      if is_ok st
      then record (call_action setup_radio
          (change_state m idle_mode (exec m (set_echo false) s₁))) {
            cold_boot = true;
            network_attempts = 0;
          }
      else change_state m switched_off s₁

  unfoldable pub turn_on_radio : NetworkLte X → NetworkLte X
  unfolding call_action
  turn_on_radio s = call_action setup_radio (change_state m idle_mode s)

  -- Without `fCfunSleep` nothing is done.
  unfoldable pub switch_radio_off : NetworkLte X → NetworkLte X
  unfolding exec
  switch_radio_off s =
      if s.lte_config.cfun_sleep
      then change_state m off_mode (exec m shutdown (exec m power_off_radio s))
      else s

  unfoldable pub wake_up : NetworkLte X → NetworkLte X
  unfolding call_action
  wake_up s =
      ite (NetworkLteState-discrete s.prev_state data_ready)
        (call_action query_network_status (change_state m data_ready s))
        (call_action setup_radio (change_state m idle_mode (record s { warm_boot = true })))
