-- ===== src/NetworkLte/ChangeState/Timed.antt =====
-- The state timer under `change_state` of src/network_lte.cpp: it runs only in a timed state, and
-- a timed state is entered with its own deadline and callback.
use x_e310_multi_os.Base.{
  ℕ, ◌+◌, ◌*◌, ◌≡◌, ◌≢◌, ◌⊎◌, true, false, ltb, if◌then◌else◌, Option, none, some, arith,
}
use x_e310_multi_os.Modem.Interface.{Xe310}
use x_e310_multi_os.Timer
use x_e310_multi_os.Timer.{Timer}
use x_e310_multi_os.NetworkLte.Types.{
  NetworkLteState, network_attaching, pdp_context_opening, data_ready, transparent_mode,
  gnss_fix_mode, sleep_mode, off_mode,
}
use x_e310_multi_os.NetworkLte.State.{
  NetworkLte, NetworkLteConfig, TimerCallback, on_timer_expired, do_nothing,
}
use x_e310_multi_os.NetworkLte.ChangeState.{change_state, stops_timer, uint32_max}

-- What the timer of a state is set to: its timeout in milliseconds, and what it does then.
unfoldable pub timer_of : NetworkLteConfig → NetworkLteState → Option (ℕ × TimerCallback)
timer_of c network_attaching = some (c.attach_timeout_sec * 1000, on_timer_expired)
timer_of c pdp_context_opening = some (c.pdp_timeout_sec * 1000, on_timer_expired)
timer_of c transparent_mode = some (c.transparent_timeout_sec * 1000, on_timer_expired)
timer_of c gnss_fix_mode = some (c.gps_timeout_sec * 1000, on_timer_expired)
timer_of c data_ready =
    if ltb 0 c.data_ready_timeout_sec
    then some (c.data_ready_timeout_sec * 1000, on_timer_expired)
    else some (uint32_max, do_nothing)
timer_of c sleep_mode = some (uint32_max, do_nothing)
timer_of c off_mode = some (uint32_max, do_nothing)
timer_of c _ = none

module _ {X : Type 0} where
  -- The timer does not run in a state on leaving which it is not stopped.
  abbrev pub TimerMatches : NetworkLte X → Type 0
  TimerMatches s = (s.st_timer.running ≡ false) ⊎ (stops_timer s.state ≡ true)

module _ {X : Type 0} (m : Xe310 X) where
  -- Changing the state keeps the timer to timed states.
  pub change_state-TimerMatches :
      (new : NetworkLteState) (s : NetworkLte X)
      → TimerMatches s
      → TimerMatches (change_state m new s)
  unfolding change_state Timer.start Timer.stop
  change_state-TimerMatches network_attaching s h = ground arith
  change_state-TimerMatches _ s h = ground arith

  -- A timed state that is entered from another one has its own deadline from then on.
  pub change_state-armed :
      (new : NetworkLteState) (s : NetworkLte X) (ms : ℕ) (cb : TimerCallback)
      → TimerMatches s
      → new ≢ s.state
      → timer_of s.lte_config new ≡ some (ms, cb)
      → let s' = change_state m new s in
        (s'.st_timer.running ≡ true)
        × (s'.st_timer.callback ≡ some cb)
        × (s'.st_timer.deadline ≡ m.now s'.modem + ms)
  unfolding change_state Timer.start Timer.stop timer_of
  change_state-armed network_attaching s ms cb h ne e = ground arith
  change_state-armed _ s ms cb h ne e = ground arith
