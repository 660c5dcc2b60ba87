-- ===== src/NetworkLte/Invariant/Power.antt =====
-- The actions on events, power and the radio of `execute_actions` (src/network_lte.cpp) keep the state timer to timed states.
use x_e310_multi_os.Base.{ℕ, zero, suc, ◌≡◌, true, false, some, arith}
use x_e310_multi_os.Modem.Interface.{
  Xe310, reboot, at_ok, set_echo, set_baudrate, shutdown, power_off_radio,
}
use x_e310_multi_os.NetworkLte.Types.{
  NetworkLteEvent, ModemAction, rebooting, idle_mode, switched_off, off_mode, data_ready,
}
use x_e310_multi_os.NetworkLte.State.{NetworkLte}
use x_e310_multi_os.NetworkLte.Events.{call_action, on_event}
use x_e310_multi_os.NetworkLte.ChangeState.Timed.{TimerMatches, change_state-TimerMatches}
use x_e310_multi_os.NetworkLte.Actions.Calls.{run, exec, check_status_response}
use x_e310_multi_os.NetworkLte.Actions.Power.{
  reboot_modem, check_responsiveness, power_on, turn_on_radio, switch_radio_off, wake_up,
}

module _ {X : Type 0} where
  pub call_action-TimerMatches :
      (action : ModemAction) (s : NetworkLte X)
      → TimerMatches s
      → TimerMatches (call_action action s)
  unfolding call_action
  call_action-TimerMatches action s h = h

  pub on_event-TimerMatches :
      (event : NetworkLteEvent) (s : NetworkLte X)
      → TimerMatches s
      → TimerMatches (on_event event s)
  unfolding on_event
  on_event-TimerMatches NetworkLteEvent.none s h = h
  on_event-TimerMatches _ s h = h

module _ {X : Type 0} (m : Xe310 X) where
  pub reboot_modem-TimerMatches :
      (s : NetworkLte X) → TimerMatches s → TimerMatches (reboot_modem m s)
  unfolding reboot_modem
  reboot_modem-TimerMatches s h = ground (
    arith,
    change_state-TimerMatches m rebooting
        (check_status_response (run m reboot s).0 (run m reboot s).1).1,
  )

  pub check_responsiveness-TimerMatches :
      (fuel : ℕ) (s s' : NetworkLte X)
      → check_responsiveness m fuel s ≡ some s'
      → TimerMatches s
      → TimerMatches s'
  unfolding check_responsiveness
  check_responsiveness-TimerMatches zero s s' e h = ground arith
  check_responsiveness-TimerMatches (suc fuel) s s' e h =
      let s₁ = (run m at_ok s).1 in
      ground (
        arith,
        change_state-TimerMatches m idle_mode s₁,
        check_responsiveness-TimerMatches fuel (record s₁ { modem = m.delay_ms 2000 s₁.modem }) s',
      )

  pub power_on-TimerMatches : (s : NetworkLte X) → TimerMatches s → TimerMatches (power_on m s)
  unfolding power_on
  power_on-TimerMatches s h =
      let s₁ = (run m at_ok (exec m (set_echo false) (exec m (set_baudrate 115200) s))).1 in
      ground (
        arith,
        change_state-TimerMatches m switched_off s₁,
        change_state-TimerMatches m idle_mode (exec m (set_echo false) s₁),
      )

  pub turn_on_radio-TimerMatches :
      (s : NetworkLte X) → TimerMatches s → TimerMatches (turn_on_radio m s)
  unfolding turn_on_radio
  turn_on_radio-TimerMatches s h = change_state-TimerMatches m idle_mode s h

  pub switch_radio_off-TimerMatches :
      (s : NetworkLte X) → TimerMatches s → TimerMatches (switch_radio_off m s)
  unfolding switch_radio_off
  switch_radio_off-TimerMatches s h =
      ground
        (arith, change_state-TimerMatches m off_mode (exec m shutdown (exec m power_off_radio s)))

  pub wake_up-TimerMatches : (s : NetworkLte X) → TimerMatches s → TimerMatches (wake_up m s)
  unfolding wake_up
  wake_up-TimerMatches s h = ground (
    arith,
    change_state-TimerMatches m data_ready s,
    change_state-TimerMatches m idle_mode (record s { warm_boot = true }),
  )
