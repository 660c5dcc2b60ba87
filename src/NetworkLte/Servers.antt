-- ===== src/NetworkLte/Servers.antt =====
-- What the server calls of src/network_lte.cpp promise.
use x_e310_multi_os.Base.{ℕ, ◌-◌, ◌≡◌, refl, true, List, arith}
use x_e310_multi_os.Modem.Interface.{Xe310, udp_close}
use x_e310_multi_os.NetworkLte.Types.{ServerState, connected, suspended, data_ready}
use x_e310_multi_os.NetworkLte.State.{NetworkLte}
use x_e310_multi_os.NetworkLte.Actions.Calls.{run, exec}
use x_e310_multi_os.NetworkLte.Api.{
  server_connect, connect_from, open_server, server_state_of, set_server_state,
}

module _ {X : Type 0} (m : Xe310 X) where
  open_server-connected :
      (conn_id : ℕ) (protocol ip : List ℕ) (port : ℕ) (s : NetworkLte X)
      → (open_server m conn_id protocol ip port s).0 ≡ true
      → let s' = (open_server m conn_id protocol ip port s).1 in
        ((s'.server_info (conn_id - 1)).state ≡ connected) × (s'.state ≡ s.state)
  unfolding open_server run exec
  open_server-connected conn_id protocol ip port s h = ground arith

  connect_from-connected :
      (state : ServerState) (conn_id : ℕ) (protocol ip : List ℕ) (port : ℕ) (s : NetworkLte X)
      → (s.server_info (conn_id - 1)).state ≡ state
      → (connect_from m state conn_id protocol ip port s).0 ≡ true
      → let s' = (connect_from m state conn_id protocol ip port s).1 in
        ((s'.server_info (conn_id - 1)).state ≡ connected) × (s'.state ≡ s.state)
  unfolding connect_from run
  connect_from-connected connected conn_id protocol ip port s e h = (e, refl)
  connect_from-connected suspended conn_id protocol ip port s e h = ground (
    arith,
    open_server-connected conn_id protocol ip port
        (set_server_state conn_id connected (run m (udp_close conn_id) s).1),
  )
  connect_from-connected _ conn_id protocol ip port s e h =
      ground (arith, open_server-connected conn_id protocol ip port s)

  -- A `server_connect` that returns true was called in data_ready, which it does not leave, and the
  -- server counts as connected.
  pub server_connect-connected :
      (conn_id : ℕ) (protocol ip : List ℕ) (port : ℕ) (s : NetworkLte X)
      → (server_connect m conn_id protocol ip port s).0 ≡ true
      → let s' = (server_connect m conn_id protocol ip port s).1 in
        ((s'.server_info (conn_id - 1)).state ≡ connected)
        × (s.state ≡ data_ready)
        × (s'.state ≡ data_ready)
  unfolding server_connect
  server_connect-connected conn_id protocol ip port s h =
      let (st, conn_state, x) = m.udp_status conn_id 0 s.modem in
      let state = server_state_of conn_state in
      let asked = set_server_state conn_id state (record s { modem = x }) in
      ground (arith, connect_from-connected state conn_id protocol ip port asked)
