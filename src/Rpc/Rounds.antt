-- ===== src/Rpc/Rounds.antt =====
-- A round of the network thread that is over in time, as the wait of a remote call sees it
-- (examples/desktop/main.cpp).
use x_e310_multi_os.Base.{◌≤◌, ◌+◌, ℕ, ◌≡◌, refl, true, List, leb, arith, some, none, Option}
use x_e310_multi_os.Modem.Interface.{Xe310}
use x_e310_multi_os.NetworkLte.Types.{NetworkLteState}
use x_e310_multi_os.NetworkLte.State.{NetworkLte}
use x_e310_multi_os.NetworkLte.Loop.{loop}
use x_e310_multi_os.RadioLte.{RadioLteChannels}
use x_e310_multi_os.RadioLte.Requests.{Layout, process_radio_requests}
use x_e310_multi_os.Ipc.{
  Sent, NetworkCommand, run_commands, process_pending_commands, network_round,
}
use x_e310_multi_os.Rpc.Exchange.{Desktop}
use x_e310_multi_os.Rpc.Worker.{paused, before_requests, after_requests, round_until, network_turn}

module _ {X : Type 0} (m : Xe310 X) (rounds fuel conn_id : ℕ) where
  commands-first :
      (commands : List NetworkCommand) (s s₁ : NetworkLte X)
      → before_requests m rounds fuel conn_id commands s ≡ some s₁
      → let s₀ = paused m rounds fuel conn_id s in
        (out : Sent) × (s' : NetworkLte X) × (run_commands m rounds fuel conn_id commands s₀
          ≡ some (out, s'))
        × (loop m fuel NetworkLteState.none s' ≡ some s₁)
  unfolding before_requests
  commands-first commands s s₁ h =
      let s₀ = paused m rounds fuel conn_id s in
      go (run_commands m rounds fuel conn_id commands s₀) refl h
    where
      go :
          (r : Option (Sent × NetworkLte X))
          → run_commands m rounds fuel conn_id commands (paused m rounds fuel conn_id s) ≡ r
          → elim r [ none ↦ none | some (out, s') ↦ loop m fuel NetworkLteState.none s' ] ≡ some s₁
          → (out : Sent) × (s' : NetworkLte X) × (run_commands m rounds fuel conn_id commands
                (paused m rounds fuel conn_id s)
              ≡ some (out, s'))
            × (loop m fuel NetworkLteState.none s' ≡ some s₁)
      go none e passed = absurd (cc passed)
      go (some (out, s')) e passed = (out, s', e, passed)

  -- A round in which the requests are handled and that is over in time.
  round_until-over :
      (layout : Layout) (passes : ℕ) (commands : List NetworkCommand) (end : ℕ) (d : Desktop X)
      (out : Sent) (s s' s₁ s₂ : NetworkLte X) (c : RadioLteChannels)
      → run_commands m rounds fuel conn_id commands s ≡ some (out, s')
      → loop m fuel NetworkLteState.none s' ≡ some s₁
      → process_radio_requests m layout rounds fuel passes d.channels s₁ ≡ some (c, s₂)
      → m.now (after_requests m rounds fuel conn_id s₂).modem ≤ end
      → round_until m rounds fuel conn_id layout passes commands end d s
        ≡ record d { channels = c; network = after_requests m rounds fuel conn_id s₂ }
  unfolding round_until network_round process_pending_commands after_requests
  round_until-over layout passes commands end d out s s' s₁ s₂ c ran passed handled in_time =
      let over : leb (m.now (after_requests m rounds fuel conn_id s₂).modem) end ≡ true =
        ground (arith, in_time) in
      rw (round_until, ran, passed, handled, over) refl

  pub network_turn-round :
      (layout : Layout) (passes : ℕ) (commands : List NetworkCommand) (ms : ℕ) (d : Desktop X)
      (s₁ s₂ : NetworkLte X) (c : RadioLteChannels)
      → before_requests m rounds fuel conn_id commands d.network ≡ some s₁
      → process_radio_requests m layout rounds fuel passes d.channels s₁ ≡ some (c, s₂)
      → m.now (after_requests m rounds fuel conn_id s₂).modem ≤ m.now d.network.modem + ms
      → network_turn m rounds fuel conn_id layout passes commands ms d
        ≡ record d { channels = c; network = after_requests m rounds fuel conn_id s₂ }
  unfolding network_turn
  network_turn-round layout passes commands ms d s₁ s₂ c before handled in_time =
      let (out, s', ran, passed) = commands-first commands d.network s₁ before in
      round_until-over layout passes commands (m.now d.network.modem + ms) d out
        (paused m rounds fuel conn_id d.network) s' s₁ s₂ c ran passed handled in_time
