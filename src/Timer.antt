-- ===== src/Timer.antt =====
-- The one-shot timer of include/hal/timer_interface.h as src/hal/posix_timer.cpp implements it
-- (win32_timer.cpp has the same bodies). The clock's reading `now` is in milliseconds. The callback
-- is a value that says what it does; `expire` is the way of the timer's thread, `run`, when the
-- deadline passes. The mutex makes each of these atomic.
pub mod Laws
use x_e310_multi_os.Base.{
  ℕ, ◌+◌, ◌-◌, ◌%◌, ◌^◌, Bool, true, false, ◌&&◌, leb, if◌then◌else◌, Option, none, some,
}

pub data TimerError : Type 0 where
  ok already_running not_running : TimerError

-- `started` is `none` as long as `start_` is the epoch.
pub record Timer (C : Type 0) : Type 0 where
  pub callback : Option C
  pub running : Bool
  pub cancelled : Bool
  pub started : Option ℕ
  pub deadline : ℕ

abbrev pub since : Option ℕ → ℕ → ℕ
since none now = 0
since (some s) now = (now - s) % 2 ^ 32

module _ {C : Type 0} where
  abbrev pub arm : Timer C → ℕ → ℕ → Timer C
  arm t timeout_ms now = record t {
    running = true;
    cancelled = false;
    started = some now;
    deadline = now + timeout_ms;
  }

  unfoldable pub start : Timer C → ℕ → Option C → ℕ → TimerError × Timer C
  start t timeout_ms cb now =
      if t.running
      then (already_running, t)
      else (ok, arm (record t { callback = cb }) timeout_ms now)

  unfoldable pub stop : Timer C → TimerError × Timer C
  stop t =
      if t.running then (ok, record t { running = false; cancelled = true }) else (not_running, t)

  abbrev pub reset_stopped : Timer C → Option C → ℕ → ℕ → TimerError × Timer C
  reset_stopped t none timeout_ms now = (not_running, t)
  reset_stopped t (some cb) timeout_ms now = (ok, arm t timeout_ms now)

  unfoldable pub reset : Timer C → ℕ → ℕ → TimerError × Timer C
  reset t timeout_ms now =
      if t.running
      then (ok, record t { started = some now; deadline = now + timeout_ms })
      else reset_stopped t t.callback timeout_ms now

  unfoldable pub elapsed_ms : Timer C → ℕ → ℕ
  elapsed_ms t now = since t.started now

  -- The thread waits until the deadline; it calls back once, when the timer is no longer running.
  unfoldable pub expire : Timer C → ℕ → Timer C × Option C
  expire t now =
      if t.running && leb t.deadline now
      then (record t { running = false }, t.callback)
      else (t, none)
