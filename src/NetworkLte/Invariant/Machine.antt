-- ===== src/NetworkLte/Invariant/Machine.antt =====
-- `execute_actions` and `loop` (src/network_lte.cpp) keep the state timer to timed states.
use x_e310_multi_os.Base.{ℕ, ◌≡◌, some, arith}
use x_e310_multi_os.Modem.Interface.{Xe310}
use x_e310_multi_os.NetworkLte.Types.{NetworkLteState, ModemAction, switched_off}
use x_e310_multi_os.NetworkLte.State.{NetworkLte}
use x_e310_multi_os.NetworkLte.Events.{get_action}
use x_e310_multi_os.NetworkLte.ChangeState.Timed.{TimerMatches, change_state-TimerMatches}
use x_e310_multi_os.NetworkLte.Actions.{perform, execute_actions}
use x_e310_multi_os.NetworkLte.Actions.Data.{read_payload}
use x_e310_multi_os.NetworkLte.Loop.{process, loop}
use x_e310_multi_os.NetworkLte.Invariant.Power.{
  call_action-TimerMatches, reboot_modem-TimerMatches, check_responsiveness-TimerMatches,
  power_on-TimerMatches, turn_on_radio-TimerMatches, switch_radio_off-TimerMatches,
  wake_up-TimerMatches,
}
use x_e310_multi_os.NetworkLte.Invariant.Attach.{
  set_radio_up-TimerMatches, query_network-TimerMatches, attach-TimerMatches,
}
use x_e310_multi_os.NetworkLte.Invariant.Data.{
  query_pdp-TimerMatches, open_pdp-TimerMatches, send_queued-TimerMatches,
  enter_transparent-TimerMatches, leave_transparent-TimerMatches, enter_gnss-TimerMatches,
  leave_gnss-TimerMatches,
}
use x_e310_multi_os.NetworkLte.Invariant.Loop.{process-TimerMatches}

module _ {X : Type 0} where
  -- A result that is there is the one the run ended in.
  of_some :
      {t : NetworkLte X} (s : NetworkLte X) → some t ≡ some s → TimerMatches t → TimerMatches s
  of_some s e h = ground arith

module _ {X : Type 0} (m : Xe310 X) where
  read_payload-TimerMatches : (s : NetworkLte X) → TimerMatches s → TimerMatches (read_payload m s)
  unfolding read_payload
  read_payload-TimerMatches s h = ground arith

  perform-TimerMatches :
      (fuel : ℕ) (action : ModemAction) (s s' : NetworkLte X)
      → perform m fuel action s ≡ some s'
      → TimerMatches s
      → TimerMatches s'
  unfolding perform
  perform-TimerMatches fuel ModemAction.none s s' e h = of_some s' e h
  perform-TimerMatches fuel ModemAction.reboot s s' e h =
      of_some s' e (reboot_modem-TimerMatches m s h)
  perform-TimerMatches fuel ModemAction.factory_reset s s' e h = of_some s' e h
  perform-TimerMatches fuel ModemAction.check_responsiveness s s' e h =
      check_responsiveness-TimerMatches m fuel s s' e h
  perform-TimerMatches fuel ModemAction.power_on s s' e h =
      of_some s' e (power_on-TimerMatches m s h)
  perform-TimerMatches fuel ModemAction.power_off s s' e h =
      of_some s' e (change_state-TimerMatches m switched_off s h)
  perform-TimerMatches fuel ModemAction.turn_on_radio s s' e h =
      of_some s' e (turn_on_radio-TimerMatches m s h)
  perform-TimerMatches fuel ModemAction.switch_off_radio s s' e h =
      of_some s' e (switch_radio_off-TimerMatches m s h)
  perform-TimerMatches fuel ModemAction.enter_sleep s s' e h =
      of_some s' e (call_action-TimerMatches ModemAction.switch_off_radio s h)
  perform-TimerMatches fuel ModemAction.wake_up s s' e h = of_some s' e (wake_up-TimerMatches m s h)
  perform-TimerMatches fuel ModemAction.setup_radio s s' e h =
      of_some s' e (set_radio_up-TimerMatches m s h)
  perform-TimerMatches fuel ModemAction.query_network_status s s' e h =
      of_some s' e (query_network-TimerMatches m s h)
  perform-TimerMatches fuel ModemAction.query_pdp_context s s' e h =
      of_some s' e (query_pdp-TimerMatches m s h)
  perform-TimerMatches fuel ModemAction.attach_network s s' e h =
      of_some s' e (attach-TimerMatches m s h)
  perform-TimerMatches fuel ModemAction.open_pdp_context s s' e h =
      of_some s' e (open_pdp-TimerMatches m s h)
  perform-TimerMatches fuel ModemAction.send_data s s' e h =
      of_some s' e (send_queued-TimerMatches m s h)
  perform-TimerMatches fuel ModemAction.read_data s s' e h =
      of_some s' e (read_payload-TimerMatches s h)
  perform-TimerMatches fuel ModemAction.data_complete s s' e h = of_some s' e h
  perform-TimerMatches fuel ModemAction.enter_transparent_mode s s' e h =
      of_some s' e (enter_transparent-TimerMatches m s h)
  perform-TimerMatches fuel ModemAction.leave_transparent_mode s s' e h =
      of_some s' e (leave_transparent-TimerMatches m s h)
  perform-TimerMatches fuel ModemAction.enter_gnss_fix s s' e h =
      of_some s' e (enter_gnss-TimerMatches m s h)
  perform-TimerMatches fuel ModemAction.leave_gnss_fix s s' e h =
      of_some s' e (leave_gnss-TimerMatches m s h)

  execute_actions-TimerMatches :
      (fuel : ℕ) (s s' : NetworkLte X)
      → execute_actions m fuel s ≡ some s'
      → TimerMatches s
      → TimerMatches s'
  unfolding execute_actions get_action
  execute_actions-TimerMatches fuel s s' e h = perform-TimerMatches fuel _ _ s' e h

  -- A pass of the loop keeps the state timer off in every state that has no use of it.
  pub loop-TimerMatches :
      (fuel : ℕ) (target : NetworkLteState) (s s' : NetworkLte X)
      → loop m fuel target s ≡ some s'
      → TimerMatches s
      → TimerMatches s'
  unfolding loop
  loop-TimerMatches fuel target s s' e h = ground (
    arith,
    execute_actions-TimerMatches fuel (process m s) s',
    process-TimerMatches m s h,
    of_some s',
  )
