-- ===== src/NetworkLte/Modes.antt =====
-- The calls of src/network_lte.cpp that drive the machine into a mode of its own and out again, and
-- the timer for the application.
use x_e310_multi_os.Base.{
  ◌-◌, ℕ, zero, suc, ◌/◌, ◌^◌, Bool, true, false, List, atoi, take, Option, none, some,
}
use mathlib.Core.Logic.{ite}
use x_e310_multi_os.FixedString.{of_view}
use x_e310_multi_os.Modem.Types.{GnssPosition, modem_short_str, modem_ip_str}
use x_e310_multi_os.Modem.Text.{wrap}
use x_e310_multi_os.Modem.Interface.{Xe310}
use x_e310_multi_os.Timer
use x_e310_multi_os.Timer.{Timer, TimerError}
use x_e310_multi_os.NetworkLte.Types.{
  NetworkLteState, NetworkLteState-discrete, ServerState, gnss_fix_mode, modem_fota, setup_mode,
  idle_mode, transparent_mode,
}
use x_e310_multi_os.NetworkLte.State.{NetworkLte, TimerCallback, on_timer_expired}
use x_e310_multi_os.NetworkLte.Loop.{loop, go_to_state, is_fix}
use x_e310_multi_os.NetworkLte.Actions.Calls.{is_ok}
use x_e310_multi_os.NetworkLte.Api.{Outcome, set_server}

-- What is said of the state that a call left the machine in.
abbrev pub judged : {X : Type 0} → (NetworkLte X → Outcome X) → Outcome X → Outcome X
judged judge none = none
judged judge (some (result, s)) = judge s

module _ {X : Type 0} where
  unfoldable pub new_connection : ℕ → List ℕ → List ℕ → List ℕ → NetworkLte X → NetworkLte X
  unfolding of_view atoi
  new_connection conn_id protocol ip port s =
      set_server conn_id
        (record (s.server_info (conn_id - 1)) {
          state = ServerState.disconnected;
          protocol = of_view modem_short_str protocol;
          address = of_view modem_ip_str ip;
          port = wrap (2 ^ 16) (atoi (take 7 port));
        })
        s

module _ {X : Type 0} (m : Xe310 X) where
  -- `while (state_ == gnss_fix_mode) loop();` with `passes` left.
  unfoldable pub await_fix : ℕ → ℕ → NetworkLte X → Option (NetworkLte X)
  await_fix zero fuel s = none
  await_fix (suc passes) fuel s = elim (NetworkLteState-discrete s.state gnss_fix_mode) [
    | no away ↦ some s
    | yes here ↦ elim (loop m fuel NetworkLteState.none s) [
      | none ↦ none
      | some s' ↦ await_fix passes fuel s'
    ]
  ]

  -- The position that is kept counts if it is a fix.
  abbrev pub take_fix :
      Option (NetworkLte X) → GnssPosition → Option (Bool × GnssPosition × NetworkLte X)
  unfolding is_fix
  take_fix none old = none
  take_fix (some s) old = elim (is_fix s.gnss_position.fix) [
    | true ↦ some (true, s.gnss_position, s)
    | false ↦ some (false, old, s)
  ]

  abbrev pub fix_from :
      ℕ → ℕ → GnssPosition → Outcome X → Option (Bool × GnssPosition × NetworkLte X)
  unfolding await_fix is_fix
  fix_from passes fuel old none = none
  fix_from passes fuel old (some (result, s)) =
      ite (NetworkLteState-discrete s.state gnss_fix_mode) (take_fix (await_fix passes fuel s) old)
        (some (false, old, s))

  -- The out parameter is written only on success.
  unfoldable pub acquire_gnss_position :
      ℕ → ℕ → GnssPosition → NetworkLte X → Option (Bool × GnssPosition × NetworkLte X)
  unfolding await_fix is_fix
  acquire_gnss_position rounds fuel old s =
      fix_from rounds fuel old (go_to_state m rounds fuel gnss_fix_mode s)

  -- The update itself is not implemented in the source.
  unfoldable pub update_modem : ℕ → ℕ → NetworkLte X → Outcome X
  update_modem rounds fuel s =
      judged
        (λ s₁.
          ite (NetworkLteState-discrete s₁.state modem_fota)
            (judged (λ s₂. some (true, s₂))
              (go_to_state m rounds fuel setup_mode (record s₁ { cold_boot = true })))
            (some (false, s₁)))
        (go_to_state m rounds fuel modem_fota s)

  unfoldable pub exit_transparent_mode : ℕ → ℕ → NetworkLte X → Outcome X
  exit_transparent_mode rounds fuel s =
      ite (NetworkLteState-discrete s.state transparent_mode)
        (judged
          (λ s₁. some (ite (NetworkLteState-discrete s₁.state transparent_mode) false true, s₁))
          (go_to_state m rounds fuel idle_mode s))
        (some (false, s))

module _ {X : Type 0} (m : Xe310 X) where
  unfoldable pub refresh_clock : NetworkLte X → NetworkLte X
  refresh_clock s =
      let (status, clock, x) = m.get_clock s.modem_clock s.modem in
      record s { modem = x; modem_clock = clock }

  unfoldable pub scan_networks : ℕ → ℕ → NetworkLte X → Bool × NetworkLte X
  unfolding is_ok
  scan_networks start_ch end_ch s =
      let (status, result, x) = m.scan_networks start_ch end_ch s.csurv_result s.modem in
      (is_ok status, record s { modem = x; csurv_result = result })

-- `timer_` may be missing.

abbrev pub on_timer :
    (Timer TimerCallback → TimerError × Timer TimerCallback)
    → Option (Timer TimerCallback)
    → TimerError × Option (Timer TimerCallback)
on_timer act none = (TimerError.not_running, none)
on_timer act (some t) = let (e, t') = act t in (e, some t')

unfoldable pub start_timer :
    ℕ → ℕ → Option (Timer TimerCallback) → TimerError × Option (Timer TimerCallback)
start_timer timeout_ms now = on_timer (λ t. Timer.start t timeout_ms (some on_timer_expired) now)

unfoldable pub stop_timer : Option (Timer TimerCallback) → TimerError × Option (Timer TimerCallback)
stop_timer = on_timer Timer.stop

unfoldable pub reset_timer :
    ℕ → ℕ → Option (Timer TimerCallback) → TimerError × Option (Timer TimerCallback)
reset_timer timeout_ms now = on_timer (λ t. Timer.reset t timeout_ms now)

unfoldable pub is_timer_running : Option (Timer TimerCallback) → Bool
is_timer_running none = false
is_timer_running (some t) = t.running

unfoldable pub timer_elapsed_seconds : Option (Timer TimerCallback) → ℕ → ℕ
timer_elapsed_seconds none now = 0
timer_elapsed_seconds (some t) now = Timer.elapsed_ms t now / 1000
