-- ===== src/NetworkLte/Invariant/Attach.antt =====
-- The actions that attach of `execute_actions` (src/network_lte.cpp) keep the state timer to timed states.
use x_e310_multi_os.Base.{ℕ, ◌≡◌, List, arith}
use x_e310_multi_os.Modem.Types.{RadioTech, RegStatus}
use x_e310_multi_os.Modem.Interface.{Xe310, power_off_radio}
use x_e310_multi_os.NetworkLte.Types.{NetworkLteState, idle_mode, network_attaching}
use x_e310_multi_os.NetworkLte.State.{NetworkLte}
use x_e310_multi_os.NetworkLte.Events.{call_action}
use x_e310_multi_os.NetworkLte.ChangeState.Timed.{TimerMatches, change_state-TimerMatches}
use x_e310_multi_os.NetworkLte.Actions.Calls.{exec, check_status_response}
use x_e310_multi_os.NetworkLte.Actions.Attach.{
  set_radio_up, apply_bands, apply_rat, reapply_config, query_network, dispatch_stat, attach,
  attach_with, prepare_apn, check_rat, check_bands,
}

-- What the invariant looks at.
module _ {X : Type 0} where
  abbrev Same : NetworkLte X → NetworkLte X → Type 0
  Same s t = (t.state ≡ s.state) × (t.st_timer ≡ s.st_timer)

module _ {X : Type 0} (m : Xe310 X) where
  apply_bands-Same : (s : NetworkLte X) → Same s (apply_bands m s).1
  unfolding apply_bands
  apply_bands-Same s = ground arith

  apply_rat-Same : (s : NetworkLte X) → Same s (apply_rat m s).1
  unfolding apply_rat
  apply_rat-Same s = ground arith

  reapply_config-Same : (s : NetworkLte X) → Same s (reapply_config m s)
  unfolding reapply_config
  reapply_config-Same s = ground arith

  pub set_radio_up-TimerMatches :
      (s : NetworkLte X) → TimerMatches s → TimerMatches (set_radio_up m s)
  unfolding set_radio_up
  set_radio_up-TimerMatches s h = ground (
    arith,
    apply_bands-Same s,
    apply_rat-Same (apply_bands m s).1,
    reapply_config-Same s,
    change_state-TimerMatches m idle_mode s,
    change_state-TimerMatches m idle_mode (reapply_config m s),
  )

  dispatch_stat-TimerMatches :
      (stat : RegStatus) (s : NetworkLte X) → TimerMatches s → TimerMatches (dispatch_stat m stat s)
  unfolding call_action
  dispatch_stat-TimerMatches RegStatus.denied s h =
      change_state-TimerMatches m NetworkLteState.network_detached s h
  dispatch_stat-TimerMatches RegStatus.not_registered s h =
      change_state-TimerMatches m NetworkLteState.network_detached s h
  dispatch_stat-TimerMatches RegStatus.searching s h =
      change_state-TimerMatches m NetworkLteState.network_detached s h
  dispatch_stat-TimerMatches RegStatus.unknown s h =
      change_state-TimerMatches m NetworkLteState.network_detached s h
  dispatch_stat-TimerMatches RegStatus.registered_home s h = h
  dispatch_stat-TimerMatches _ s h = h

  pub query_network-TimerMatches :
      (s : NetworkLte X) → TimerMatches s → TimerMatches (query_network m s)
  unfolding query_network
  query_network-TimerMatches s h =
      let (st, info, x) = m.get_registration_status s.reg_info RadioTech.cat_m1 s.modem in
      let s₁ = (check_status_response st (record s { modem = x; reg_info = info })).1 in
      ground (arith, dispatch_stat-TimerMatches s₁.reg_info.stat s₁)

  prepare_apn-Same : (apn : List ℕ) (s : NetworkLte X) → Same s (prepare_apn m apn s)
  unfolding prepare_apn
  prepare_apn-Same apn s = ground arith

  check_rat-Same : (tech : RadioTech) (s : NetworkLte X) → Same s (check_rat m tech s)
  unfolding check_rat
  check_rat-Same tech s = ground arith

  check_bands-Same : (bands : ℕ) (s : NetworkLte X) → Same s (check_bands m bands s)
  unfolding check_bands
  check_bands-Same bands s = ground arith

  attach_with-TimerMatches :
      (apn : List ℕ) (tech : RadioTech) (bands : ℕ) (s : NetworkLte X)
      → TimerMatches s
      → TimerMatches (attach_with m apn tech bands s)
  unfolding attach_with
  attach_with-TimerMatches apn tech bands s h =
      let s₁ = prepare_apn m apn s in
      let s₂ = check_rat m tech s₁ in
      ground (
        arith,
        prepare_apn-Same apn s,
        check_rat-Same tech s₁,
        check_bands-Same bands s₂,
        change_state-TimerMatches m network_attaching (check_bands m bands s₂),
      )

  pub attach-TimerMatches : (s : NetworkLte X) → TimerMatches s → TimerMatches (attach m s)
  unfolding attach
  attach-TimerMatches s h =
      let s₀ = exec m power_off_radio s in
      let c = s.lte_config in
      ground (
        arith,
        attach_with-TimerMatches c.default_apn c.default_iot_tech c.default_lte_bands s₀,
        attach_with-TimerMatches c.fallback_apn c.fallback_iot_tech c.fallback_lte_bands s₀,
      )
