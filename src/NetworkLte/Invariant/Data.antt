-- ===== src/NetworkLte/Invariant/Data.antt =====
-- The actions that move data and change the mode of `execute_actions` (src/network_lte.cpp) keep the state timer to timed states.
use x_e310_multi_os.Base.{
  ℕ, zero, suc, Bool, true, false, Option, none, some, arith, Option-cases, inl, inr, length,
}
use x_e310_multi_os.Modem.Interface.{
  Xe310, power_off_radio, activate_pdp, set_gnss_power, set_gnss_urc,
}
use x_e310_multi_os.NetworkLte.Types.{
  idle_mode, data_ready, transparent_mode, gnss_fix_mode, pdp_context_closed,
}
use x_e310_multi_os.MessageQueue.{QueueMessage, Side, pop_next_from}
use x_e310_multi_os.NetworkLte.State.{NetworkLte, Queues}
use x_e310_multi_os.NetworkLte.Events.{call_action}
use x_e310_multi_os.NetworkLte.ChangeState.Timed.{TimerMatches, change_state-TimerMatches}
use x_e310_multi_os.NetworkLte.Actions.Calls.{run, exec, enable_urcs, disable_urcs}
use x_e310_multi_os.NetworkLte.Actions.Data.{
  query_pdp, open_pdp, found_context, send_message, send_loop, drain, send_queued,
}
use x_e310_multi_os.NetworkLte.Actions.Modes.{
  enter_transparent, leave_transparent, enter_gnss, leave_gnss, power_gnss,
}

module _ {X : Type 0} (m : Xe310 X) where
  found_context-TimerMatches :
      (active : Bool) (s : NetworkLte X) → TimerMatches s → TimerMatches (found_context m active s)
  unfolding call_action
  found_context-TimerMatches false s h = change_state-TimerMatches m pdp_context_closed s h
  found_context-TimerMatches true s h =
      let (st, ip, x) = m.get_ip_address s.lte_config.cid s.network_info.ip_address s.modem in
      ground (
        arith,
        change_state-TimerMatches m data_ready
            (record s { modem = x; network_info = record (s.network_info) { ip_address = ip } }),
      )

  pub query_pdp-TimerMatches : (s : NetworkLte X) → TimerMatches s → TimerMatches (query_pdp m s)
  unfolding query_pdp
  query_pdp-TimerMatches s h =
      let (st, active, x) = m.get_pdp_state s.lte_config.cid false s.modem in
      ground (arith, found_context-TimerMatches active (record s { modem = x }))

  pub open_pdp-TimerMatches : (s : NetworkLte X) → TimerMatches s → TimerMatches (open_pdp m s)
  unfolding open_pdp
  open_pdp-TimerMatches s h =
      ground
        (arith, change_state-TimerMatches m data_ready (run m (activate_pdp s.lte_config.cid) s).1)

  send_message-TimerMatches :
      (msg : QueueMessage) (s : NetworkLte X) → TimerMatches s → TimerMatches (send_message m msg s)
  unfolding send_message
  send_message-TimerMatches msg s h = ground arith

  send_loop-TimerMatches :
      (fuel : ℕ) (tx : Side) (s : NetworkLte X)
      → TimerMatches s
      → TimerMatches (send_loop m fuel tx s).1
  unfolding send_loop
  send_loop-TimerMatches zero tx s h = h
  send_loop-TimerMatches (suc fuel) tx s h = elim (Option-cases (pop_next_from tx 0 tx).2) [
    | inl e ↦ rw (e, send_loop) h
    | inr (msg, e) ↦
        rw (e, send_loop)
          (send_loop-TimerMatches fuel (pop_next_from tx 0 tx).1 (send_message m msg s)
            (send_message-TimerMatches msg s h))
  ]

  drain-TimerMatches :
      (q : Option Queues) (s : NetworkLte X) → TimerMatches s → TimerMatches (drain m q s)
  drain-TimerMatches none s h = h
  drain-TimerMatches (some q) s h = send_loop-TimerMatches (suc (length q.tx.order)) q.tx s h

  pub send_queued-TimerMatches :
      (s : NetworkLte X) → TimerMatches s → TimerMatches (send_queued m s)
  unfolding send_queued
  send_queued-TimerMatches s h = ground (arith, drain-TimerMatches s.message_queue s)

  pub enter_transparent-TimerMatches :
      (s : NetworkLte X) → TimerMatches s → TimerMatches (enter_transparent m s)
  unfolding enter_transparent
  enter_transparent-TimerMatches s h = change_state-TimerMatches m transparent_mode s h

  pub leave_transparent-TimerMatches :
      (s : NetworkLte X) → TimerMatches s → TimerMatches (leave_transparent m s)
  unfolding leave_transparent
  leave_transparent-TimerMatches s h = change_state-TimerMatches m idle_mode (enable_urcs m s) h

  power_gnss-TimerMatches :
      (powered : Bool) (s : NetworkLte X) → TimerMatches s → TimerMatches (power_gnss m powered s)
  unfolding exec run call_action
  power_gnss-TimerMatches true s h = change_state-TimerMatches m gnss_fix_mode s h
  power_gnss-TimerMatches false s h =
      ground (arith, change_state-TimerMatches m gnss_fix_mode (run m (set_gnss_power true) s).1)

  pub enter_gnss-TimerMatches : (s : NetworkLte X) → TimerMatches s → TimerMatches (enter_gnss m s)
  unfolding enter_gnss
  enter_gnss-TimerMatches s h =
      let s₁ = exec m power_off_radio (disable_urcs m s) in
      let (st, powered, x) = m.is_gnss_powered s₁.modem in
      power_gnss-TimerMatches powered (record s₁ { modem = x }) h

  pub leave_gnss-TimerMatches : (s : NetworkLte X) → TimerMatches s → TimerMatches (leave_gnss m s)
  unfolding leave_gnss
  leave_gnss-TimerMatches s h =
      change_state-TimerMatches m idle_mode
        (exec m (set_gnss_urc false) (exec m (set_gnss_power false) s)) h
