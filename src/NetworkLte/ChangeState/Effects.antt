-- ===== src/NetworkLte/ChangeState/Effects.antt =====
-- What `change_state` of src/network_lte.cpp does beside the timer.
use x_e310_multi_os.Base.{ℕ, ◌<◌, ◌≡◌, ◌≢◌, arith, []}
use mathlib.Core.Logic.{ite}
use x_e310_multi_os.Modem.Interface.{Xe310}
use x_e310_multi_os.NetworkLte.Types.{
  NetworkLteState, NetworkLteState-discrete, ModemAction, disconnected, network_attaching,
  pdp_context_closed, attach_network, open_pdp_context,
}
use x_e310_multi_os.NetworkLte.State.{NetworkLte}
use x_e310_multi_os.NetworkLte.ChangeState.{change_state}

-- The action that a state which is entered calls for, beside the one pending.
unfoldable pub next_action : NetworkLteState → ModemAction → ModemAction
next_action NetworkLteState.network_detached pending = attach_network
next_action pdp_context_closed pending = open_pdp_context
next_action _ pending = pending

module _ {X : Type 0} (m : Xe310 X) where
  -- After a change of state the machine is in the new state, remembers the old one if it is
  -- another, has the action pending that the new state calls for, and keeps its pending event, its
  -- retry counter and its configuration.
  pub change_state_lem :
      (new : NetworkLteState) (s : NetworkLte X)
      → let s' = change_state m new s in
        let same = NetworkLteState-discrete new s.state in
        (s'.state ≡ new)
        × (s'.prev_state ≡ ite same s.prev_state s.state)
        × (s'.modem_action ≡ ite same s.modem_action (next_action new s.modem_action))
        × (s'.event ≡ s.event)
        × (s'.attach_retries ≡ s.attach_retries)
        × (s'.lte_config ≡ s.lte_config)
  unfolding change_state next_action
  change_state_lem network_attaching s = ground arith
  change_state_lem _ s = ground arith

  -- What the actions that change the radio leave alone.
  pub change_state_keeps :
      (new : NetworkLteState) (s : NetworkLte X)
      → let s' = change_state m new s in
        (s'.message_queue ≡ s.message_queue)
        × (s'.delivered ≡ s.delivered)
        × (s'.change_rat ≡ s.change_rat)
        × (s'.change_bands ≡ s.change_bands)
  unfolding change_state
  change_state_keeps network_attaching s = ground arith
  change_state_keeps _ s = ground arith

  -- Entering network_detached or pdp_context_closed from another state leaves all five servers
  -- disconnected and no IP address.
  pub change_state-disconnected :
      (new : NetworkLteState) (s : NetworkLte X) (i : ℕ)
      → new ≢ s.state
      → next_action new ModemAction.none ≢ ModemAction.none
      → i < 5
      → let s' = change_state m new s in
        ((s'.server_info i).state ≡ disconnected) × (s'.network_info.ip_address ≡ [])
  unfolding change_state next_action
  change_state-disconnected network_attaching s i ne act lt = ground arith
  change_state-disconnected _ s i ne act lt = ground arith
