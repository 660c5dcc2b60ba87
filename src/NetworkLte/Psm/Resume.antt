-- ===== src/NetworkLte/Psm/Resume.antt =====
-- The state and the timer that `force_psm` of src/network_lte.cpp ends with.
use mathlib.Core.Logic.{if_pos}
use x_e310_multi_os.Base.{
  ℕ, Bool, true, false, List, [], ap, ◌≡◌, ◌∙◌, if◌then◌else◌, Option, arith,
}
use x_e310_multi_os.Modem.Types.{ModemStatus, Operator}
use x_e310_multi_os.Modem.Interface.{Xe310, disable_all_notifyev}
use x_e310_multi_os.Timer
use x_e310_multi_os.Timer.{Timer}
use x_e310_multi_os.NetworkLte.Types.{NetworkLteState-discrete, data_ready, idle_mode}
use x_e310_multi_os.NetworkLte.State.{NetworkLte, TimerCallback}
use x_e310_multi_os.NetworkLte.ChangeState.{change_state, start_data_ready_timer, start_st_timer}
use x_e310_multi_os.NetworkLte.ChangeState.Effects.{change_state_lem}
use x_e310_multi_os.NetworkLte.Actions.Calls.{exec, enable_urcs, disable_urcs}
use x_e310_multi_os.NetworkLte.Psm.{search_psm, resume, force_psm}
use x_e310_multi_os.NetworkLte.Psm.Search.{Search, try_operators-Search}

start-running :
    (t : Timer TimerCallback) (ms : ℕ) (cb : Option TimerCallback) (now : ℕ)
    → (Timer.start t ms cb now).1.running ≡ true
unfolding Timer.start
start-running t ms cb now = ground arith

module _ {X : Type 0} (m : Xe310 X) where
  start_data_ready_timer-running :
      (s : NetworkLte X)
      → ((start_data_ready_timer m s).st_timer.running ≡ true)
        × ((start_data_ready_timer m s).state ≡ s.state)
  unfolding start_data_ready_timer start_st_timer Timer.start
  start_data_ready_timer-running s = ground arith

  resume-running :
      (granted : Bool) (s : NetworkLte X)
      → ((resume m granted s).state ≡ (if granted then data_ready else idle_mode))
        × ((resume m granted s).st_timer.running ≡ true)
  unfolding resume enable_urcs exec
  resume-running granted s =
      let s₁ = change_state m (if granted then data_ready else idle_mode) s in
      let started = start_data_ready_timer-running s₁ in
      (started.1 ∙ (change_state_lem m (if granted then data_ready else idle_mode) s).0, started.0)

  -- The machine when the operators are asked for, and the answer.
  abbrev pub before_search : NetworkLte X → NetworkLte X
  unfolding exec disable_urcs
  before_search s =
      exec m disable_all_notifyev
        (disable_urcs m (record s { st_timer = (Timer.stop s.st_timer).1 }))

  abbrev pub operators_of : NetworkLte X → ModemStatus × (List Operator) × X
  unfolding exec disable_urcs
  operators_of s = m.get_available_operators [] (before_search s).modem

  -- From data_ready, the operators that the modem lists are tried one after another, each from
  -- where the one before left the modem, up to the first at which the modem is registered, at home
  -- or roaming, and answers with status ok that PSM is on with a timer that is not 0. `force_psm`
  -- succeeds if there is one and ends in data_ready; otherwise it fails and ends in idle_mode. The
  -- state timer runs in both.
  pub force_psm-running :
      (s : NetworkLte X)
      → s.state ≡ data_ready
      → (granted : Bool) × Search m
          (operators_of s).1
          (record (before_search s) { modem = (operators_of s).2 })
          granted
        × ((force_psm m s).0 ≡ granted)
        × ((force_psm m s).1.state ≡ (if granted then data_ready else idle_mode))
        × ((force_psm m s).1.st_timer.running ≡ true)
  unfolding force_psm search_psm
  force_psm-running s here =
      let found = search_psm m s in
      let tried : Bool × NetworkLte X = (found.0, resume m found.0 found.1) in
      let refused : Bool × NetworkLte X = (false, s) in
      let taken = if_pos (NetworkLteState-discrete s.state data_ready) here tried refused in
      (
        found.0,
        try_operators-Search m (operators_of s).1
            (record (before_search s) { modem = (operators_of s).2 }),
        ap (λ (p : Bool × NetworkLte X). p.0) taken,
        ap (λ (p : Bool × NetworkLte X). p.1.state) taken ∙ (resume-running found.0 found.1).0,
        ap (λ (p : Bool × NetworkLte X). p.1.st_timer.running) taken
            ∙ (resume-running found.0 found.1).1,
      )
