-- ===== src/NetworkLte/Actions/Attach.antt =====
-- The actions of `execute_actions` (src/network_lte.cpp) that set the radio up, ask for the
-- registration and attach to the network.
use x_e310_multi_os.Base.{
  ℕ, ◌+◌, ◌%◌, Bool, true, false, not, ◌||◌, ◌&&◌, List, ltb, ◌==◌, if◌then◌else◌, bytes_eq,
}
use mathlib.Core.Logic.{ite}
use x_e310_multi_os.Modem.Types.{RadioTech, RadioTech-discrete, RegStatus}
use x_e310_multi_os.Modem.Interface.{
  Xe310, set_lte_bands, set_iot_tech, disable_telit_psm, set_telit_psm, power_off_radio,
  power_radio, set_apn,
}
use x_e310_multi_os.NetworkLte.Types.{
  NetworkLteState, ModemAction, idle_mode, network_attaching, query_network_status,
  query_pdp_context, setup_radio, attach_error,
}
use x_e310_multi_os.NetworkLte.State.{NetworkLte}
use x_e310_multi_os.NetworkLte.Events.{on_event, call_action}
use x_e310_multi_os.NetworkLte.ChangeState.{change_state}
use x_e310_multi_os.NetworkLte.Actions.Calls.{is_ok, run, exec, enable_urcs, check_status_response}

module _ {X : Type 0} (m : Xe310 X) where
  -- The bands are the default ones before the first retry, else the fallback ones; whether the
  -- modem took them.
  unfoldable pub apply_bands : NetworkLte X → Bool × NetworkLte X
  unfolding run is_ok
  apply_bands s =
      let bands =
        if s.attach_retries == 0
        then s.lte_config.default_lte_bands
        else s.lte_config.fallback_lte_bands in
      let (st, s₁) = run m (set_lte_bands bands) (record s { change_bands = false }) in
      if s.change_bands then (is_ok st, s₁) else (false, s)

  unfoldable pub apply_rat : NetworkLte X → Bool × NetworkLte X
  unfolding run is_ok
  apply_rat s =
      let tech =
        if s.attach_retries == 0
        then s.lte_config.default_iot_tech
        else s.lte_config.fallback_iot_tech in
      let (st, s₁) = run m (set_iot_tech tech) (record s { change_rat = false }) in
      if s.change_rat then (is_ok st, s₁) else (false, s)

  unfoldable pub reapply_config : NetworkLte X → NetworkLte X
  unfolding exec enable_urcs
  reapply_config s =
      let s₀ = record s { warm_boot = false; cold_boot = false } in
      enable_urcs m (
        if s.lte_config.psm_enable
        then exec m (set_telit_psm s.lte_config.psm_t3412 s.lte_config.psm_t3324) s₀
        else exec m disable_telit_psm s₀)

  -- The block under `if (false)` is left out.
  unfoldable pub set_radio_up : NetworkLte X → NetworkLte X
  unfolding call_action
  set_radio_up s =
      let (new_bands, s₁) = apply_bands s in
      let (new_rat, s₂) = apply_rat s₁ in
      let applied = if new_bands || new_rat then call_action ModemAction.reboot s₂ else s₂ in
      let booted = if s.warm_boot || s.cold_boot then reapply_config s else s in
      if s.change_bands || s.change_rat
      then applied
      else call_action query_network_status (change_state m idle_mode booted)

  abbrev pub dispatch_stat : RegStatus → NetworkLte X → NetworkLte X
  dispatch_stat RegStatus.denied s = change_state m NetworkLteState.network_detached s
  dispatch_stat RegStatus.not_registered s = change_state m NetworkLteState.network_detached s
  dispatch_stat RegStatus.searching s = change_state m NetworkLteState.network_detached s
  dispatch_stat RegStatus.registered_home s = call_action query_pdp_context s
  dispatch_stat RegStatus.registered_roaming s = call_action query_pdp_context s
  dispatch_stat RegStatus.unknown s = change_state m NetworkLteState.network_detached s
  dispatch_stat _ s = s

  unfoldable pub query_network : NetworkLte X → NetworkLte X
  unfolding call_action check_status_response
  query_network s =
      let (st, info, x) = m.get_registration_status s.reg_info RadioTech.cat_m1 s.modem in
      let (fine, s₁) = check_status_response st (record s { modem = x; reg_info = info }) in
      if fine then dispatch_stat s₁.reg_info.stat s₁ else s₁

  -- The modem's APN is made to be `apn`, if it can be read.
  unfoldable pub prepare_apn : List ℕ → NetworkLte X → NetworkLte X
  unfolding is_ok exec
  prepare_apn apn s =
      let (st, current, x) = m.get_apn s.lte_config.cid s.reg_info.apn s.modem in
      let s₁ = record s { modem = x; reg_info = record (s.reg_info) { apn = current } } in
      if is_ok st && not (bytes_eq current apn)
      then exec m (set_apn s.lte_config.cid apn) s₁
      else s₁

  -- `current_tech` is not initialised; it is read only after a query that succeeded.
  unfoldable pub check_rat : RadioTech → NetworkLte X → NetworkLte X
  unfolding is_ok
  check_rat tech s =
      let (st, current, x) = m.get_iot_tech RadioTech.unknown s.modem in
      let s₁ = record s { modem = x } in
      if is_ok st
      then ite (RadioTech-discrete current tech) s₁ (record s₁ { change_rat = true })
      else s₁

  unfoldable pub check_bands : ℕ → NetworkLte X → NetworkLte X
  unfolding is_ok
  check_bands bands s =
      let (st, current, x) = m.get_lte_bands 0 s.modem in
      let s₁ = record s { modem = x } in
      if is_ok st && not (current == bands) then record s₁ { change_bands = true } else s₁

  abbrev pub count_retry : NetworkLte X → NetworkLte X
  count_retry s = record s { attach_retries = (s.attach_retries + 1) % 256 }

  -- One branch of the action, for the default or the fallback configuration. Where the technology
  -- or the bands have to change first, the retry is not counted.
  unfoldable pub attach_with : List ℕ → RadioTech → ℕ → NetworkLte X → NetworkLte X
  unfolding call_action exec
  attach_with apn tech bands s =
      let s₁ = check_bands bands (check_rat tech (prepare_apn apn s)) in
      if s₁.change_rat || s₁.change_bands
      then call_action setup_radio s₁
      else count_retry (exec m power_radio (change_state m network_attaching s₁))

  unfoldable pub attach : NetworkLte X → NetworkLte X
  unfolding on_event exec
  attach s =
      let s₀ = exec m power_off_radio s in
      let c = s.lte_config in
      if s.attach_retries == 0
      then attach_with c.default_apn c.default_iot_tech c.default_lte_bands s₀
      else if ltb s.attach_retries c.max_attach_retries
      then attach_with c.fallback_apn c.fallback_iot_tech c.fallback_lte_bands s₀
      else count_retry (on_event attach_error s₀)
