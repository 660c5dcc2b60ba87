-- ===== src/ModemController.antt =====
-- `ModemController` (include/hal/modem_controller.h, src/modem_controller.cpp): AT commands over a
-- UART. `locked` says whether the guard got the I/O mutex within its 5 s; a function that lost the
-- wait does nothing. `response` is the caller's, written only where the code writes it.
pub mod Port
pub mod Urcs
pub mod Prompt
pub mod Poll
pub mod Send
pub mod Returns
pub mod Retry
use x_e310_multi_os.Base.{
  ℕ, zero, suc, ◌-◌, min, Bool, true, false, not, ◌&&◌, List, [], ◌∷◌, ◌++◌, take, drop, length,
  is_empty, ltb, leb, ◌==◌, if◌then◌else◌, codes, has_prefix, before, after, Option, none, some,
}
use x_e310_multi_os.FixedString.{of_view, append, push_back}
use x_e310_multi_os.AtCommand.{
  AtStatus, AtResponse, AtCommand, parse_response, crlf, after_line, at_cmd_max, at_response_max,
}
use x_e310_multi_os.Timer.{Timer, start, stop, elapsed_ms}
use x_e310_multi_os.Modem.Types.{ModemStatus}
use Port.{Uart, UartError, UartConfig}

abbrev pub urc_rx_buffer_max : ℕ
urc_rx_buffer_max = 1024

-- `sizeof(buffer) - 1`.
abbrev pub read_max : ℕ
read_max = 511

pub record ModemController (U : Type 0) : Type 0 where
  pub urc_rx_buffer : List ℕ
  pub uart : Option U
  pub cmd_timer : Timer (Unit {0})

-- The command as it is written to the line.
unfoldable pub full_command : List ℕ → List ℕ
full_command command = take (min (length command) at_cmd_max) command ++ crlf

-- `view.find(word)`: what stands from the first place of the word on.
unfoldable pub find_word : List ℕ → List ℕ → Option (List ℕ)
unfolding has_prefix
find_word word [] = if is_empty word then some [] else none
find_word word (c ∷ s) =
    let rest = find_word word s in if has_prefix word (c ∷ s) then some (c ∷ s) else rest

abbrev pub search_term : AtStatus → List ℕ
search_term AtStatus.ok = codes "OK"
search_term AtStatus.error = codes "ERROR"
search_term _ = codes "BUSY"

abbrev pub rest_of_answer : Option (List ℕ) → List ℕ
rest_of_answer none = []
rest_of_answer (some s) = after_line s

-- What came after the status line goes to the URC buffer.
unfoldable pub keep_urcs : AtStatus → List ℕ → List ℕ → List ℕ
unfolding find_word after_line append
keep_urcs status acc urcs =
    append urc_rx_buffer_max urcs (rest_of_answer (find_word (search_term status) acc))

-- The status that ends the wait, if the answer's does.
unfoldable pub settled : AtStatus → Option ModemStatus
settled AtStatus.ok = some ModemStatus.ok
settled AtStatus.error = some ModemStatus.at_error
settled AtStatus.busy = some ModemStatus.at_error
settled AtStatus.timeout = none

module _ {U : Type 0} (uart : Uart U) where
  -- The UART, if there is one and it is open.
  abbrev pub opened : Option U → Option U
  opened none = none
  opened (some u) = if uart.is_open u then some u else none

  unfoldable pub connect :
      Bool → List ℕ → UartConfig → ModemController U → ModemStatus × ModemController U
  connect false port config c = (ModemStatus.busy, c)
  connect true port config c = elim c.uart [
    | none ↦ (ModemStatus.uart_error, c)
    | some u ↦
        let (err, u') = uart.open_port port config u in
        elim err [
          | UartError.ok ↦ (ModemStatus.ok, record c { uart = some u' })
          | _ ↦ (ModemStatus.uart_error, record c { uart = some u' })
        ]
  ]

  unfoldable pub disconnect : Bool → ModemController U → ModemController U
  disconnect false c = c
  disconnect true c = elim (opened c.uart) [
    | none ↦ c
    | some u ↦ record c { uart = some (uart.close u) }
  ]

  unfoldable pub is_connected : Bool → ModemController U → Bool
  is_connected false c = false
  is_connected true c = elim (opened c.uart) [ none ↦ false | some u ↦ true ]

  -- A pass of the loop after its read; `again` is the next pass.
  unfoldable pub take_read :
      (List ℕ
        → AtResponse
        → U
        → ModemController U
        → Option (ModemStatus × AtResponse × ModemController U))
      → List ℕ
      → AtResponse
      → ModemController U
      → UartError
      → List ℕ
      → U
      → Option (ModemStatus × AtResponse × ModemController U)
  take_read again acc r c UartError.ok bytes u =
      let acc₁ = append at_response_max acc bytes in
      let r₁ = parse_response acc₁ in
      if is_empty bytes then again acc r u c else elim (settled r₁.status) [
        | some status ↦ some (
          status,
          r₁,
          record c { uart = some u; urc_rx_buffer = keep_urcs r₁.status acc₁ c.urc_rx_buffer },
        )
        | none ↦ again acc₁ r₁ u c
      ]
  take_read again acc r c UartError.timeout bytes u =
      some (ModemStatus.timeout, r, record c { uart = some u })
  take_read again acc r c _ bytes u = some (ModemStatus.uart_error, r, record c { uart = some u })

  -- The loop that waits for the answer. `none` stands for a loop that has not ended after `fuel`
  -- passes.
  unfoldable pub read_answer :
      ℕ
      → ℕ
      → List ℕ
      → AtResponse
      → U
      → ModemController U
      → Option (ModemStatus × AtResponse × ModemController U)
  read_answer zero total_ms acc r u c = none
  read_answer (suc fuel) total_ms acc r u c =
      let elapsed = elapsed_ms c.cmd_timer (uart.now u) in
      let (err, bytes, u₁) = uart.read read_max (total_ms - elapsed) u in
      if leb total_ms elapsed
      then some (ModemStatus.timeout, r, record c { uart = some u })
      else take_read (read_answer fuel total_ms) acc r c err bytes u₁

  unfoldable pub send_command :
      ℕ
      → Bool
      → AtCommand
      → AtResponse
      → ModemController U
      → Option (ModemStatus × AtResponse × ModemController U)
  send_command fuel false cmd r c = some (ModemStatus.busy, r, c)
  send_command fuel true cmd r c = elim (opened c.uart) [
    | none ↦ some (ModemStatus.not_connected, r, c)
    | some u ↦
        let (err, u₁) = uart.write (full_command cmd.command) u in
        let timer = (start (stop c.cmd_timer).1 cmd.timeout_ms none (uart.now u₁)).1 in
        elim err [
          | UartError.ok ↦
              read_answer fuel cmd.timeout_ms [] r u₁
                (record c { uart = some u₁; cmd_timer = timer })
          | _ ↦ some (ModemStatus.uart_error, r, record c { uart = some u₁ })
        ]
  ]
