-- ===== src/ModemController/Prompt.antt =====
-- `send_binary` and `send_with_prompt` of src/modem_controller.cpp: bytes sent as they are, and a
-- command that waits for the modem's `>` before its payload.
use x_e310_multi_os.Base.{ℕ, Bool, true, false, List, after, none, some}
use x_e310_multi_os.AtCommand.{AtStatus, AtResponse, parse_response}
use x_e310_multi_os.Modem.Types.{ModemStatus}
use x_e310_multi_os.ModemController.{ModemController, read_max, opened, full_command}
use x_e310_multi_os.ModemController.Port.{Uart, UartError}

-- The status of a single answer.
abbrev pub answered : AtStatus → ModemStatus
answered AtStatus.ok = ModemStatus.ok
answered _ = ModemStatus.at_error

module _ {U : Type 0} (uart : Uart U) where
  -- The reads of `send_binary` and of the last step of `send_with_prompt`.
  unfoldable pub read_once :
      ℕ → AtResponse → U → ModemController U → ModemStatus × AtResponse × ModemController U
  read_once timeout_ms r u c =
      let (err, bytes, u₁) = uart.read read_max timeout_ms u in
      let c₁ = record c { uart = some u₁ } in
      let r₁ = parse_response bytes in
      elim err [
        | UartError.timeout ↦ (ModemStatus.timeout, r, c₁)
        | UartError.ok ↦ (answered r₁.status, r₁, c₁)
        | _ ↦ (ModemStatus.uart_error, r, c₁)
      ]

  unfoldable pub send_binary :
      Bool
      → List ℕ
      → AtResponse
      → ℕ
      → ModemController U
      → ModemStatus × AtResponse × ModemController U
  send_binary false bytes r timeout_ms c = (ModemStatus.busy, r, c)
  send_binary true bytes r timeout_ms c = elim (opened uart c.uart) [
    | none ↦ (ModemStatus.not_connected, r, c)
    | some u ↦
        let (err, u₁) = uart.write bytes u in
        elim err [
          | UartError.ok ↦ read_once timeout_ms r u₁ c
          | _ ↦ (ModemStatus.uart_error, r, record c { uart = some u₁ })
        ]
  ]

  -- The prompt has come: the payload goes out.
  unfoldable pub send_payload :
      List ℕ → AtResponse → ℕ → U → ModemController U → ModemStatus × AtResponse × ModemController U
  send_payload bytes r timeout_ms u c =
      let (err, u₁) = uart.write bytes u in
      elim err [
        | UartError.ok ↦ read_once timeout_ms r u₁ c
        | _ ↦ (ModemStatus.uart_error, r, record c { uart = some u₁ })
      ]

  unfoldable pub await_prompt :
      List ℕ → AtResponse → ℕ → U → ModemController U → ModemStatus × AtResponse × ModemController U
  await_prompt bytes r timeout_ms u c =
      let (err, prompt, u₁) = uart.read read_max timeout_ms u in
      let c₁ = record c { uart = some u₁ } in
      elim err [
        | UartError.timeout ↦ (ModemStatus.timeout, r, c₁)
        | UartError.ok ↦ elim (after b'>' prompt) [
          | none ↦ (ModemStatus.at_error, r, c₁)
          | some rest ↦ send_payload bytes r timeout_ms u₁ c₁
        ]
        | _ ↦ (ModemStatus.uart_error, r, c₁)
      ]

  unfoldable pub send_with_prompt :
      Bool
      → List ℕ
      → List ℕ
      → AtResponse
      → ℕ
      → ModemController U
      → ModemStatus × AtResponse × ModemController U
  send_with_prompt false command bytes r timeout_ms c = (ModemStatus.busy, r, c)
  send_with_prompt true command bytes r timeout_ms c = elim (opened uart c.uart) [
    | none ↦ (ModemStatus.not_connected, r, c)
    | some u ↦
        let (err, u₁) = uart.write (full_command command) u in
        elim err [
          | UartError.ok ↦ await_prompt bytes r timeout_ms u₁ c
          | _ ↦ (ModemStatus.uart_error, r, record c { uart = some u₁ })
        ]
  ]
