-- ===== src/Rpc/Worker.antt =====
-- The network thread of examples/desktop/main.cpp as a remote call sees it: the call starts to wait
-- as a round of the thread ends, and the next begins ten milliseconds later; one that takes longer
-- than the wait is not over when the wait ends.
use x_e310_multi_os.Base.{ℕ, suc, ◌+◌, List, [], leb, if◌then◌else◌, Option, none, some}
use x_e310_multi_os.Modem.Interface.{Xe310}
use x_e310_multi_os.NetworkLte.Types.{NetworkLteState}
use x_e310_multi_os.NetworkLte.State.{NetworkLte}
use x_e310_multi_os.NetworkLte.Loop.{loop}
use x_e310_multi_os.RadioLte.Requests.{Layout}
use x_e310_multi_os.Rpc.Exchange.{Desktop}
use x_e310_multi_os.Ipc.{
  IpcServers, NetworkCommand, rx_waiting, forward_rx, run_commands, network_round,
}

module _ {X : Type 0} (m : Xe310 X) (rounds fuel conn_id : ℕ) where
  -- The pause between two rounds.
  unfoldable pub paused : NetworkLte X → NetworkLte X
  paused s = record s { modem = m.delay_ms 10 s.modem }

  -- What the thread does ahead of the requests: the pause, the commands of the sockets, and a pass of
  -- the machine.
  unfoldable pub before_requests : List NetworkCommand → NetworkLte X → Option (NetworkLte X)
  unfolding run_commands loop paused
  before_requests commands s = elim (run_commands m rounds fuel conn_id commands (paused s)) [
    | none ↦ none
    | some (out, s₁) ↦ loop m fuel NetworkLteState.none s₁
  ]

  -- What it does behind them: the RX queue is drained.
  unfoldable pub after_requests : NetworkLte X → NetworkLte X
  unfolding forward_rx
  after_requests s = (forward_rx (suc (rx_waiting s.message_queue)) conn_id s).1

  -- A round from the state `s`, with the commands that are queued by then, if it is over by `end`.
  unfoldable pub round_until :
      Layout → ℕ → List NetworkCommand → ℕ → Desktop X → NetworkLte X → Desktop X
  unfolding network_round
  round_until layout passes commands end d s =
      let servers : IpcServers X = record { network = s; command_queue = commands; sent = [] } in
      elim (network_round m rounds fuel conn_id layout passes [] (d.channels, servers)) [
        | none ↦ d
        | some (c, a) ↦
            if leb (m.now a.network.modem) end
            then record d { channels = c; network = a.network }
            else d
      ]

  -- The round that runs during a wait.
  unfoldable pub network_turn : Layout → ℕ → List NetworkCommand → ℕ → Desktop X → Desktop X
  unfolding round_until paused
  network_turn layout passes commands timeout_ms d =
      round_until layout passes commands (m.now d.network.modem + timeout_ms) d (paused d.network)
