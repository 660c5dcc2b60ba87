-- ===== src/NetworkLte/Actions/Calls.antt =====
-- Calls of the modem from the actions of src/network_lte.cpp, and `check_status_response`.
use x_e310_multi_os.Base.{Bool, true, false}
use x_e310_multi_os.Modem.Types.{ModemStatus}
use x_e310_multi_os.Modem.Interface.{
  Xe310, Command, set_psm_urc, set_cell_state_urc, set_registration_urc, set_pdp_urc,
  set_plmnsearchexh_notify,
}
use x_e310_multi_os.NetworkLte.Types.{at_command_no_response}
use x_e310_multi_os.NetworkLte.State.{NetworkLte}
use x_e310_multi_os.NetworkLte.Events.{on_event}

unfoldable pub is_ok : ModemStatus → Bool
is_ok ModemStatus.ok = true
is_ok _ = false

module _ {X : Type 0} where
  -- A status other than ok fails; a timeout also raises an event.
  unfoldable pub check_status_response : ModemStatus → NetworkLte X → Bool × NetworkLte X
  unfolding on_event
  check_status_response ModemStatus.ok s = (true, s)
  check_status_response ModemStatus.timeout s = (false, on_event at_command_no_response s)
  check_status_response _ s = (false, s)

module _ {X : Type 0} (m : Xe310 X) where
  -- A call whose status is looked at.
  unfoldable pub run : Command → NetworkLte X → ModemStatus × NetworkLte X
  run c s = let (st, x) = m.run c s.modem in (st, record s { modem = x })

  -- A call whose status is dropped.
  unfoldable pub exec : Command → NetworkLte X → NetworkLte X
  exec c s = record s { modem = (m.run c s.modem).1 }

  -- The five calls that turn the notifications on, and the calls that turn them off.
  unfoldable pub enable_urcs : NetworkLte X → NetworkLte X
  unfolding exec
  enable_urcs s = exec (set_plmnsearchexh_notify true) (
      exec (set_pdp_urc true) (
        exec (set_registration_urc true)
          (exec (set_cell_state_urc true) (exec (set_psm_urc true) s))))

  unfoldable pub disable_urcs : NetworkLte X → NetworkLte X
  unfolding exec
  disable_urcs s = exec (set_pdp_urc false) (
      exec (set_registration_urc false)
        (exec (set_cell_state_urc false) (exec (set_psm_urc false) s)))
