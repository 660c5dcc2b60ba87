-- ===== src/NetworkLte/Actions.antt =====
-- `execute_actions` of src/network_lte.cpp: the pending action is taken and carried out. Each case
-- of its switch is a function of a child module. `fuel` bounds the attempts of
-- `check_responsiveness` alone: `none` stands for a modem that has not answered yet.
pub mod Calls
pub mod Power
pub mod Attach
pub mod Attaching
pub mod Waiting
pub mod Data
pub mod Sending
pub mod Modes
use x_e310_multi_os.Base.{ℕ, Option, none, some}
use x_e310_multi_os.Modem.Interface.{Xe310}
use x_e310_multi_os.NetworkLte.Types.{ModemAction}
use x_e310_multi_os.NetworkLte.State.{NetworkLte}
use x_e310_multi_os.NetworkLte.Events.{call_action, get_action}
use x_e310_multi_os.NetworkLte.ChangeState.{change_state}
use x_e310_multi_os.NetworkLte.Types.{switched_off}
use Power.{reboot_modem, check_responsiveness, power_on, turn_on_radio, switch_radio_off, wake_up}
use Attach.{set_radio_up, query_network, attach}
use Data.{query_pdp, open_pdp, send_queued, read_payload}
use Modes.{enter_transparent, leave_transparent, enter_gnss, leave_gnss}

module _ {X : Type 0} (m : Xe310 X) where
  unfoldable pub perform : ℕ → ModemAction → NetworkLte X → Option (NetworkLte X)
  unfolding call_action
  perform fuel ModemAction.none s = some s
  perform fuel ModemAction.reboot s = some (reboot_modem m s)
  perform fuel ModemAction.factory_reset s = some s
  perform fuel ModemAction.check_responsiveness s = check_responsiveness m fuel s
  perform fuel ModemAction.power_on s = some (power_on m s)
  perform fuel ModemAction.power_off s = some (change_state m switched_off s)
  perform fuel ModemAction.turn_on_radio s = some (turn_on_radio m s)
  perform fuel ModemAction.switch_off_radio s = some (switch_radio_off m s)
  perform fuel ModemAction.enter_sleep s = some (call_action ModemAction.switch_off_radio s)
  perform fuel ModemAction.wake_up s = some (wake_up m s)
  perform fuel ModemAction.setup_radio s = some (set_radio_up m s)
  perform fuel ModemAction.query_network_status s = some (query_network m s)
  perform fuel ModemAction.query_pdp_context s = some (query_pdp m s)
  perform fuel ModemAction.attach_network s = some (attach m s)
  perform fuel ModemAction.open_pdp_context s = some (open_pdp m s)
  perform fuel ModemAction.send_data s = some (send_queued m s)
  perform fuel ModemAction.read_data s = some (read_payload m s)
  perform fuel ModemAction.data_complete s = some s
  perform fuel ModemAction.enter_transparent_mode s = some (enter_transparent m s)
  perform fuel ModemAction.leave_transparent_mode s = some (leave_transparent m s)
  perform fuel ModemAction.enter_gnss_fix s = some (enter_gnss m s)
  perform fuel ModemAction.leave_gnss_fix s = some (leave_gnss m s)

  unfoldable pub execute_actions : ℕ → NetworkLte X → Option (NetworkLte X)
  unfolding perform get_action
  execute_actions fuel s = let (action, s₁) = get_action s in perform fuel action s₁
