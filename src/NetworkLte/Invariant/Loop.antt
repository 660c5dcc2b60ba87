-- ===== src/NetworkLte/Invariant/Loop.antt =====
-- `execute_actions`, `loop` and `go_to_state` (src/network_lte.cpp) keep the state timer to timed
-- states.
use x_e310_multi_os.Base.{
  has_prefix, codes, ◌||◌, after, skip_spaces, drop, ℕ, Bool, true, false, List, [], ◌∷◌, Option,
  none, some, arith, if◌then◌else◌,
}
use x_e310_multi_os.Modem.Interface.{Xe310}
use x_e310_multi_os.NetworkLte.Types.{
  context_rejected, NetworkLteState, NetworkLteEvent, psm_enter, psm_exit, context_opened,
  context_closed, network_attached, data_available, gps_available, timeout, attach_error,
  at_command_no_response, sleep_mode, data_ready, idle_mode, pdp_context_closed, done,
}
use x_e310_multi_os.NetworkLte.State.{NetworkLte}
use x_e310_multi_os.NetworkLte.Events.{call_action, on_event, get_event}
use x_e310_multi_os.NetworkLte.ChangeState.{disconnect_servers}
use x_e310_multi_os.NetworkLte.ChangeState.Timed.{TimerMatches, change_state-TimerMatches}
use x_e310_multi_os.NetworkLte.Urc.{
  handle_urc, handle_cgev, handle_registration, handle_stat, handle_sring,
}
use x_e310_multi_os.NetworkLte.Loop.{
  handle_urcs, poll, check_last_status, receive_data, receive_fix, timeout_action, handle_timeout,
  process_event, process,
}
use x_e310_multi_os.NetworkLte.Invariant.Power.{call_action-TimerMatches}

module _ {X : Type 0} where
  branches-TimerMatches :
      (a b c : Bool) (s₁ s₂ s₃ s : NetworkLte X)
      → TimerMatches s₁
      → TimerMatches s₂
      → TimerMatches s₃
      → TimerMatches s
      → TimerMatches (if a then s₁ else if b then s₂ else if c then s₃ else s)
  branches-TimerMatches true b c s₁ s₂ s₃ s h₁ h₂ h₃ h = h₁
  branches-TimerMatches false true c s₁ s₂ s₃ s h₁ h₂ h₃ h = h₂
  branches-TimerMatches false false true s₁ s₂ s₃ s h₁ h₂ h₃ h = h₃
  branches-TimerMatches false false false s₁ s₂ s₃ s h₁ h₂ h₃ h = h

  handle_stat-TimerMatches :
      (stat : Option ℕ) (s : NetworkLte X) → TimerMatches s → TimerMatches (handle_stat stat s)
  unfolding call_action
  handle_stat-TimerMatches stat s h = ground arith

  handle_registration-TimerMatches :
      (payload : Option (List ℕ)) (s : NetworkLte X)
      → TimerMatches s
      → TimerMatches (handle_registration payload s)
  handle_registration-TimerMatches none s h = h
  handle_registration-TimerMatches (some payload) s h = handle_stat-TimerMatches _ s h

  handle_cgev-TimerMatches :
      (ev : List ℕ) (s : NetworkLte X) → TimerMatches s → TimerMatches (handle_cgev ev s)
  unfolding handle_cgev on_event
  handle_cgev-TimerMatches ev s h =
      branches-TimerMatches (has_prefix (codes "NW_DEACT") ev || has_prefix (codes "ME DEACT") ev)
        (has_prefix (codes "NW_DETACH") ev
          || has_prefix (codes "ME_DETACH") ev
          || has_prefix (codes "ME DETACH") ev)
        (has_prefix (codes "REJECT") ev) (on_event context_closed s)
        (on_event NetworkLteEvent.network_detached s) (on_event context_rejected s) s h h h h

  handle_sring-TimerMatches :
      (body : List ℕ) (s : NetworkLte X) → TimerMatches s → TimerMatches (handle_sring body s)
  unfolding on_event
  handle_sring-TimerMatches [] s h = h
  handle_sring-TimerMatches (c ∷ body) s h = h

  abbrev later_urc : List ℕ → NetworkLte X → NetworkLte X
  later_urc urc s =
      if has_prefix (codes "#PSMURC:") urc
      then on_event psm_enter s
      else if has_prefix (codes "%NOTIFYEV:\"PLMNSEARCHEXH\"") urc
      then on_event NetworkLteEvent.network_detached s
      else if has_prefix (codes "SRING:") urc
      then handle_sring (skip_spaces (drop 6 urc)) s
      else if has_prefix (codes "$GPGSA,") urc
      then on_event gps_available s
      else s

  later_urc-TimerMatches :
      (urc : List ℕ) (s : NetworkLte X) → TimerMatches s → TimerMatches (later_urc urc s)
  unfolding on_event
  later_urc-TimerMatches urc s h =
      branches-TimerMatches (has_prefix (codes "#PSMURC:") urc)
        (has_prefix (codes "%NOTIFYEV:\"PLMNSEARCHEXH\"") urc) (has_prefix (codes "SRING:") urc)
        (on_event psm_enter s) (on_event NetworkLteEvent.network_detached s)
        (handle_sring (skip_spaces (drop 6 urc)) s)
        (if has_prefix (codes "$GPGSA,") urc then on_event gps_available s else s) h h
        (handle_sring-TimerMatches (skip_spaces (drop 6 urc)) s h) (ground arith)

  handle_urc-TimerMatches :
      (urc : List ℕ) (s : NetworkLte X) → TimerMatches s → TimerMatches (handle_urc urc s)
  unfolding handle_urc on_event
  handle_urc-TimerMatches urc s h =
      branches-TimerMatches (has_prefix (codes "+CREG:") urc || has_prefix (codes "+CEREG:") urc)
        (has_prefix (codes "+CGEV:") urc) (has_prefix (codes "%STATEV:") urc)
        (handle_registration (after b':' urc) s) (handle_cgev (skip_spaces (drop 6 urc)) s) s
        (later_urc urc s) (handle_registration-TimerMatches (after b':' urc) s h)
        (handle_cgev-TimerMatches (skip_spaces (drop 6 urc)) s h) h (later_urc-TimerMatches urc s h)

  handle_urcs-TimerMatches :
      (urcs : List (List ℕ)) (s : NetworkLte X) → TimerMatches s → TimerMatches (handle_urcs urcs s)
  unfolding handle_urcs
  handle_urcs-TimerMatches [] s h = h
  handle_urcs-TimerMatches (urc ∷ urcs) s h =
      handle_urcs-TimerMatches urcs (handle_urc urc s) (handle_urc-TimerMatches urc s h)

module _ {X : Type 0} (m : Xe310 X) where
  poll-TimerMatches : (s : NetworkLte X) → TimerMatches s → TimerMatches (poll m s)
  unfolding poll
  poll-TimerMatches s h =
      let (urcs, x) = m.poll_urc s.modem in
      ground (arith, handle_urcs-TimerMatches urcs (record s { modem = x }))

  check_last_status-TimerMatches :
      (s : NetworkLte X) → TimerMatches s → TimerMatches (check_last_status m s)
  unfolding check_last_status on_event
  check_last_status-TimerMatches s h = ground arith

  receive_data-TimerMatches : (s : NetworkLte X) → TimerMatches s → TimerMatches (receive_data m s)
  unfolding receive_data
  receive_data-TimerMatches s h = ground arith

  receive_fix-TimerMatches : (s : NetworkLte X) → TimerMatches s → TimerMatches (receive_fix m s)
  unfolding receive_fix call_action
  receive_fix-TimerMatches s h = ground arith

  handle_timeout-TimerMatches :
      (s : NetworkLte X) → TimerMatches s → TimerMatches (handle_timeout m s)
  unfolding handle_timeout
  handle_timeout-TimerMatches s h = ground (
    arith,
    change_state-TimerMatches m done (call_action (timeout_action s.state) s),
    call_action-TimerMatches (timeout_action s.state) s,
  )

  pub process_event-TimerMatches :
      (event : NetworkLteEvent) (s : NetworkLte X)
      → TimerMatches s
      → TimerMatches (process_event m event s)
  unfolding process_event
  process_event-TimerMatches psm_enter s h = change_state-TimerMatches m sleep_mode s h
  process_event-TimerMatches psm_exit s h =
      ground
        (arith, change_state-TimerMatches m data_ready s, change_state-TimerMatches m idle_mode s)
  process_event-TimerMatches NetworkLteEvent.network_detached s h =
      let s₁ = record s { server_info = disconnect_servers s.server_info } in
      ground (arith, change_state-TimerMatches m NetworkLteState.network_detached s₁)
  process_event-TimerMatches network_attached s h =
      change_state-TimerMatches m pdp_context_closed s h
  process_event-TimerMatches context_closed s h =
      change_state-TimerMatches m NetworkLteState.network_detached _ h
  process_event-TimerMatches context_opened s h = change_state-TimerMatches m data_ready s h
  process_event-TimerMatches data_available s h = receive_data-TimerMatches s h
  process_event-TimerMatches gps_available s h = receive_fix-TimerMatches s h
  process_event-TimerMatches timeout s h = handle_timeout-TimerMatches s h
  process_event-TimerMatches attach_error s h = call_action-TimerMatches _ s h
  process_event-TimerMatches at_command_no_response s h = call_action-TimerMatches _ s h
  process_event-TimerMatches _ s h = h

  pub process-TimerMatches : (s : NetworkLte X) → TimerMatches s → TimerMatches (process m s)
  unfolding process get_event
  process-TimerMatches s h =
      process_event-TimerMatches _ _ (check_last_status-TimerMatches _ (poll-TimerMatches s h))
