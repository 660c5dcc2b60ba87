-- ===== src/Timer/Laws.antt =====
-- What the timer of posix_timer.cpp promises.
use x_e310_multi_os.Base.{ℕ, ◌+◌, ◌≡◌, true, false, Option, none, some, arith, ltb, if◌then◌else◌}
use x_e310_multi_os.Timer.{
  ok, already_running, not_running, Timer, start, stop, reset, elapsed_ms, expire,
}

module _ {C : Type 0} where
  -- Starting a timer that does not run is accepted. Its callback fires when the timeout has passed
  -- and not before, and it runs until then.
  pub start-expire :
      (t : Timer C) (timeout_ms : ℕ) (cb : C) (now later : ℕ)
      → t.running ≡ false
      → let (e, t') = start t timeout_ms (some cb) now in
        let (t'', fired) = expire t' later in
        (e ≡ ok)
        × (t'.running ≡ true)
        × (fired ≡ (if ltb later (now + timeout_ms) then none else some cb))
        × (t''.running ≡ ltb later (now + timeout_ms))
  unfolding start expire
  start-expire t timeout_ms cb now later r = ground arith

  -- Starting a timer that runs is refused and changes nothing: the first deadline stays.
  pub start_running :
      (t : Timer C) (timeout_ms : ℕ) (cb : Option C) (now : ℕ)
      → t.running ≡ true
      → start t timeout_ms cb now ≡ (already_running, t)
  unfolding start
  start_running t timeout_ms cb now r = ground arith

  -- A timer that fired does not fire again, whatever the clock shows.
  pub expire_once :
      (t : Timer C) (now later : ℕ) {cb : C}
      → (expire t now).1 ≡ some cb
      → expire (expire t now).0 later ≡ ((expire t now).0, none)
  unfolding expire
  expire_once t now later e = ground arith

  -- Stopping succeeds exactly on a running timer; afterwards nothing fires, and stopping again is
  -- refused.
  pub stop-expire :
      (t : Timer C) (now : ℕ)
      → let (e, t') = stop t in
        (e ≡ (if t.running then ok else not_running))
        × (expire t' now ≡ (t', none))
        × (stop t' ≡ (not_running, t'))
  unfolding stop expire
  stop-expire t now = ground arith

  -- Resetting a running timer moves its deadline and its start, and keeps its callback.
  pub reset-expire :
      (t : Timer C) (timeout_ms now later : ℕ)
      → t.running ≡ true
      → let (e, t') = reset t timeout_ms now in
        (e ≡ ok)
        × ((expire t' later).1 ≡ (if ltb later (now + timeout_ms) then none else t.callback))
        × (elapsed_ms t' now ≡ 0)
  unfolding reset expire elapsed_ms
  reset-expire t timeout_ms now later r = ground arith
