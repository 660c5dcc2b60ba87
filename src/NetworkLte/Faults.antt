-- ===== src/NetworkLte/Faults.antt =====
-- What the loss of the network or of the context does to the servers, and what a time-out does
-- (`loop` of src/network_lte.cpp).
use x_e310_multi_os.Base.{
  ℕ, ◌<◌, ◌≡◌, ◌≢◌, ◌⊎◌, refl, sym, if◌then◌else◌, arith, Bool-cases, inl, inr,
}
use x_e310_multi_os.Modem.Interface.{Xe310}
use x_e310_multi_os.NetworkLte.Types.{
  NetworkLteState, NetworkLteEvent, disconnected, context_closed, timeout, done, data_ready,
  switched_off, off_mode, sleep_mode, transparent_mode, gnss_fix_mode, ModemAction, enter_sleep,
  leave_transparent_mode, leave_gnss_fix, attach_network,
}
use x_e310_multi_os.NetworkLte.State.{NetworkLte}
use x_e310_multi_os.NetworkLte.Events.{call_action}
use x_e310_multi_os.NetworkLte.ChangeState.{change_state, disconnect_servers}
use x_e310_multi_os.NetworkLte.ChangeState.Effects.{change_state_lem, next_action}
use x_e310_multi_os.NetworkLte.Loop.{is_off, process_event, handle_timeout, timeout_action}

-- The state that each state goes to when the network is lost.
abbrev pub detached_from : NetworkLteState → NetworkLteState
detached_from switched_off = switched_off
detached_from off_mode = off_mode
detached_from sleep_mode = sleep_mode
detached_from _ = NetworkLteState.network_detached

-- What each state leaves to be done when its time is over.
abbrev pub way_out : NetworkLteState → ModemAction
way_out data_ready = enter_sleep
way_out transparent_mode = leave_transparent_mode
way_out gnss_fix_mode = leave_gnss_fix
way_out _ = attach_network

is_off-detached_from :
    (state : NetworkLteState)
    → (if is_off state then state else NetworkLteState.network_detached) ≡ detached_from state
unfolding is_off
is_off-detached_from switched_off = refl
is_off-detached_from off_mode = refl
is_off-detached_from sleep_mode = refl
is_off-detached_from _ = refl

timeout_action-way_out : (state : NetworkLteState) → timeout_action state ≡ way_out state
timeout_action-way_out data_ready = refl
timeout_action-way_out transparent_mode = refl
timeout_action-way_out gnss_fix_mode = refl
timeout_action-way_out _ = refl

module _ {X : Type 0} (m : Xe310 X) where
  change_state-stays_disconnected :
      (new : NetworkLteState) (s : NetworkLte X) (i : ℕ)
      → (s.server_info i).state ≡ disconnected
      → ((change_state m new s).server_info i).state ≡ disconnected
  unfolding change_state
  change_state-stays_disconnected NetworkLteState.network_attaching s i h = ground arith
  change_state-stays_disconnected _ s i h = ground arith

  detached-state :
      (s : NetworkLte X)
      → (process_event m NetworkLteEvent.network_detached s).state ≡ detached_from s.state
  unfolding process_event
  detached-state s =
      let s₁ = record s { server_info = disconnect_servers s.server_info } in
      let detached = change_state_lem m NetworkLteState.network_detached s₁ in
      rw (sym (is_off-detached_from s.state))
        (elim (Bool-cases (is_off s.state)) [ inl off ↦ rw off refl | inr on ↦ rw on (detached.0) ])

  -- When the network is lost no server counts as connected any more, and the machine is detached,
  -- but for a modem that is switched off, in off mode or asleep, which stays so.
  pub network_detached-disconnects :
      (s : NetworkLte X) (i : ℕ)
      → i < 5
      → let s' = process_event m NetworkLteEvent.network_detached s in
        ((s'.server_info i).state ≡ disconnected) × (s'.state ≡ detached_from s.state)
  unfolding process_event disconnect_servers
  network_detached-disconnects s i lt =
      let s₁ = record s { server_info = disconnect_servers s.server_info } in
      let lost : ((process_event m NetworkLteEvent.network_detached s).server_info i).state
          ≡ disconnected =
        elim (Bool-cases (is_off s.state)) [
          | inl off ↦ ground arith
          | inr on ↦
              ground (arith, change_state-stays_disconnected NetworkLteState.network_detached s₁ i)
        ] in
      (lost, detached-state s)

  -- When the context is lost no server counts as connected any more, and the machine is detached.
  pub context_closed-disconnects :
      (s : NetworkLte X) (i : ℕ)
      → i < 5
      → let s' = process_event m context_closed s in
        ((s'.server_info i).state ≡ disconnected) × (s'.state ≡ NetworkLteState.network_detached)
  unfolding process_event disconnect_servers
  context_closed-disconnects s i lt =
      let s₁ = record s { server_info = disconnect_servers s.server_info } in
      ground (
        arith,
        change_state-stays_disconnected NetworkLteState.network_detached s₁ i,
        change_state_lem m NetworkLteState.network_detached s₁,
      )

  -- A time-out ends the state it was set for: the machine is done, and what is pending then is to
  -- enter sleep after data_ready, to leave transparent mode or the GNSS fix after these, and to
  -- attach after any other state; excepted are done itself and data_ready without a timeout
  -- configured.
  pub timeout-done :
      (s : NetworkLte X)
      → s.state ≢ done
      → (s.state ≢ data_ready) ⊎ (s.lte_config.data_ready_timeout_sec ≢ 0)
      → let s' = process_event m timeout s in
        (s'.state ≡ done) × (s'.prev_state ≡ s.state) × (s'.modem_action ≡ way_out s.state)
  unfolding process_event handle_timeout call_action next_action
  timeout-done s live set =
      rw (sym (timeout_action-way_out s.state))
        (ground (arith, change_state_lem m done (call_action (timeout_action s.state) s)))
