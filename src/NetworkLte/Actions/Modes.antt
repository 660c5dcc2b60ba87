-- ===== src/NetworkLte/Actions/Modes.antt =====
-- The actions of `execute_actions` (src/network_lte.cpp) that enter and leave the transparent mode
-- and the GNSS fix mode.
use x_e310_multi_os.Base.{Bool, true, false, if◌then◌else◌}
use x_e310_multi_os.Modem.Interface.{
  Xe310, disable_all_notifyev, power_off_radio, set_gnss_power, set_gnss_urc,
}
use x_e310_multi_os.NetworkLte.Types.{
  transparent_mode, idle_mode, gnss_fix_mode, query_network_status, ModemAction,
}
use x_e310_multi_os.NetworkLte.State.{NetworkLte}
use x_e310_multi_os.NetworkLte.Events.{call_action}
use x_e310_multi_os.NetworkLte.ChangeState.{change_state}
use x_e310_multi_os.NetworkLte.Actions.Calls.{is_ok, run, exec, enable_urcs, disable_urcs}

module _ {X : Type 0} (m : Xe310 X) where
  -- The state changes first, so that `loop` stops polling.
  unfoldable pub enter_transparent : NetworkLte X → NetworkLte X
  unfolding exec disable_urcs
  enter_transparent s =
      exec m disable_all_notifyev (disable_urcs m (change_state m transparent_mode s))

  unfoldable pub leave_transparent : NetworkLte X → NetworkLte X
  unfolding call_action enable_urcs
  leave_transparent s =
      call_action query_network_status (change_state m idle_mode (enable_urcs m s))

  abbrev pub gnss_on : NetworkLte X → NetworkLte X
  gnss_on s = exec m (set_gnss_urc true) (change_state m gnss_fix_mode s)

  abbrev pub power_gnss : Bool → NetworkLte X → NetworkLte X
  power_gnss true s = gnss_on s
  power_gnss false s =
      let (st, s₁) = run m (set_gnss_power true) s in
      if is_ok st then gnss_on s₁ else call_action ModemAction.leave_gnss_fix s₁

  unfoldable pub enter_gnss : NetworkLte X → NetworkLte X
  unfolding exec run is_ok call_action disable_urcs
  enter_gnss s =
      let s₁ = exec m power_off_radio (disable_urcs m s) in
      let (st, powered, x) = m.is_gnss_powered s₁.modem in
      power_gnss powered (record s₁ { modem = x })

  unfoldable pub leave_gnss : NetworkLte X → NetworkLte X
  unfolding exec call_action
  leave_gnss s =
      call_action query_network_status
        (change_state m idle_mode (exec m (set_gnss_urc false) (exec m (set_gnss_power false) s)))
