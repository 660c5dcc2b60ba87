-- ===== src/ModemController/Retry.antt =====
-- `send_raw` of src/modem_controller.cpp: a command that timed out is sent again. The controller
-- goes with the number of times that the I/O mutex was asked for; `guard` says which of these
-- attempts got it within its 5 s.
use x_e310_multi_os.Base.{
  ℕ, zero, suc, ◌-◌, ◌≡◌, Bool, true, false, List, Option, none, some, is_some, is_empty,
}
use x_e310_multi_os.Modem.Types.{ModemStatus}
use x_e310_multi_os.AtCommand.{AtCommand, AtResponse, new_command}
use x_e310_multi_os.ModemController.Port.{Uart, UartError}
use x_e310_multi_os.ModemController.{ModemController, send_command}
use x_e310_multi_os.ModemController.Returns.{send_command-returns}

abbrev pub max_at_retries : ℕ
max_at_retries = 3

pub false-ne-true : false ≡ true → ⊥
false-ne-true h = cc

-- The value of a computation that is known to return.
abbrev pub from_some {ℓ} : {A : Type ℓ} → (o : Option A) → is_some o ≡ true → A
from_some none h = absurd (false-ne-true h)
from_some (some a) h = a

pub record Shared (U : Type 0) : Type 0 where
  pub controller : ModemController U
  pub lock_requests : ℕ

abbrev pub timed_out : ModemStatus → Bool
timed_out ModemStatus.timeout = true
timed_out _ = false

-- What a UART has promised: a read that succeeds gives at least a byte.
abbrev pub Gives : {U : Type 0} → Uart U → Type 0
Gives {U} uart =
    (n ms : ℕ) (v : U) → (uart.read n ms v).0 ≡ UartError.ok → is_empty (uart.read n ms v).1 ≡ false

module _ {U : Type 0} (uart : Uart U) (gives : Gives uart) (guard : ℕ → Bool) where
  -- `send_command`, whose first pass ends its loop.
  unfoldable pub send_once : AtCommand → AtResponse → Shared U → ModemStatus × AtResponse × Shared U
  unfolding send_command
  send_once cmd r d =
      let (status, r₁, c) =
        from_some (send_command uart 1 (guard d.lock_requests) cmd r d.controller)
          (send_command-returns uart 0 (guard d.lock_requests) cmd r d.controller gives) in
      (status, r₁, record { controller = c; lock_requests = suc d.lock_requests })

  -- The loop `while (attempt < MAX_AT_RETRIES && status == timeout)` with `n` attempts left.
  unfoldable pub retry_loop :
      ℕ → AtCommand → ModemStatus × AtResponse × Shared U → ModemStatus × AtResponse × Shared U
  unfolding send_once
  retry_loop zero cmd sent = sent
  retry_loop (suc n) cmd (ModemStatus.timeout, r, d) = retry_loop n cmd (send_once cmd r d)
  retry_loop (suc n) cmd (status, r, d) = (status, r, d)

  unfoldable pub send_raw :
      List ℕ → AtResponse → ℕ → Bool → Shared U → ModemStatus × AtResponse × Shared U
  unfolding send_once retry_loop new_command
  send_raw command r timeout_ms again d =
      let cmd = new_command command timeout_ms in
      let sent = send_once cmd r d in
      elim again [ true ↦ retry_loop (max_at_retries - 1) cmd sent | false ↦ sent ]

  -- One attempt after another: the first gives up the line to the second, and so on.
  abbrev pub first_attempt :
      List ℕ → AtResponse → ℕ → Shared U → ModemStatus × AtResponse × Shared U
  unfolding send_once new_command
  first_attempt command r timeout_ms d = send_once (new_command command timeout_ms) r d

  abbrev pub next_attempt :
      List ℕ → ℕ → ModemStatus × AtResponse × Shared U → ModemStatus × AtResponse × Shared U
  unfolding send_once new_command
  next_attempt command timeout_ms (status, r, d) = send_once (new_command command timeout_ms) r d
