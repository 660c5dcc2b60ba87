-- ===== src/NetworkLte/Psm.antt =====
-- `force_psm` of src/network_lte.cpp: one operator after another is tried until one grants PSM.
pub mod Search
pub mod Resume
use x_e310_multi_os.Base.{ℕ, Bool, true, false, ◌&&◌, List, [], ◌∷◌, ◌==◌, if◌then◌else◌}
use mathlib.Core.Logic.{ite}
use x_e310_multi_os.Modem.Types.{
  ModemStatus, RadioTech, RegStatus, PsmMode, Operator, TelitCpsmsStatus, empty_registration,
  empty_psm_status,
}
use x_e310_multi_os.Modem.Interface.{
  Xe310, set_psm_urc, set_cell_state_urc, set_registration_urc, set_pdp_urc, disable_all_notifyev,
  set_operator_manual,
}
use x_e310_multi_os.Timer
use x_e310_multi_os.NetworkLte.Types.{NetworkLteState-discrete, data_ready, idle_mode}
use x_e310_multi_os.NetworkLte.State.{NetworkLte}
use x_e310_multi_os.NetworkLte.ChangeState.{change_state, start_data_ready_timer}
use x_e310_multi_os.NetworkLte.Actions.Calls.{exec, enable_urcs, disable_urcs, is_ok}

abbrev pub is_home_or_roaming : RegStatus → Bool
is_home_or_roaming RegStatus.registered_home = true
is_home_or_roaming RegStatus.registered_roaming = true
is_home_or_roaming _ = false

abbrev pub is_disabled : PsmMode → Bool
is_disabled PsmMode.disable = true
is_disabled _ = false

-- The network granted PSM, with the timers that were asked for or with others.
unfoldable pub grants_psm : ModemStatus → TelitCpsmsStatus → Bool
unfolding is_ok
grants_psm status psm =
    if is_ok status
    then if is_disabled psm.mode
      then false
      else if psm.t3412 == 0 && psm.t3324 == 0
      then false
      else true
    else false

module _ {X : Type 0} (m : Xe310 X) where
  -- Registering with an operator, and whether it grants PSM.
  unfoldable pub try_operator : Operator → NetworkLte X → Bool × NetworkLte X
  unfolding exec grants_psm
  try_operator op s =
      let s₁ = exec m (set_operator_manual op.numeric op.act) s in
      let (st, info, x) = m.get_registration_status empty_registration RadioTech.unknown s₁.modem in
      let (status, psm, x') = m.get_telit_psm empty_psm_status x in
      if is_home_or_roaming info.stat
      then (grants_psm status psm, record s₁ { modem = x' })
      else (false, record s₁ { modem = x })

  -- The loop, which stops at the first operator that grants it.
  unfoldable pub try_operators : List Operator → NetworkLte X → Bool × NetworkLte X
  unfolding try_operator
  try_operators [] s = (false, s)
  try_operators (op ∷ ops) s =
      let (granted, s₁) = try_operator op s in
      elim granted [ true ↦ (true, s₁) | false ↦ try_operators ops s₁ ]

  -- The notifications are off and the timer is stopped while the operators are tried.
  unfoldable pub search_psm : NetworkLte X → Bool × NetworkLte X
  unfolding exec disable_urcs try_operators
  search_psm s =
      let s₁ = record s { st_timer = (Timer.stop s.st_timer).1 } in
      let s₂ = exec m disable_all_notifyev (disable_urcs m s₁) in
      let (status, ops, x) = m.get_available_operators [] s₂.modem in
      try_operators ops (record s₂ { modem = x })

  -- The timer of data_ready is started, whatever the state is.
  unfoldable pub resume : Bool → NetworkLte X → NetworkLte X
  unfolding enable_urcs start_data_ready_timer
  resume granted s =
      enable_urcs m
        (start_data_ready_timer m (change_state m (if granted then data_ready else idle_mode) s))

  unfoldable pub force_psm : NetworkLte X → Bool × NetworkLte X
  unfolding search_psm resume
  force_psm s =
      let (granted, s₁) = search_psm s in
      ite (NetworkLteState-discrete s.state data_ready) (granted, resume granted s₁) (false, s)
