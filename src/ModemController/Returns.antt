-- ===== src/ModemController/Returns.antt =====
-- `send_command` of src/modem_controller.cpp returns.
use x_e310_multi_os.Base.{
  take, min, Option-cases, is_some, inl, inr, Bool-cases, ◌-◌, ◌≤◌, none, ℕ, zero, suc, ◌-◌, ◌≤◌,
  ◌≡◌, refl, Bool, true, false, List, [], ◌∷◌, length, is_empty, leb, arith, Option, some,
}
use x_e310_multi_os.FixedString.{append}
use x_e310_multi_os.Timer.{elapsed_ms, start, stop}
use x_e310_multi_os.Modem.Types.{ModemStatus}
use x_e310_multi_os.AtCommand.{AtCommand, AtResponse, at_response_max}
use x_e310_multi_os.ModemController.Port.{Uart, UartError}
use x_e310_multi_os.ModemController.{
  ModemController, read_answer, take_read, send_command, opened, full_command, read_max,
}
use x_e310_multi_os.ModemController.Send.{settled-parse}

-- What follows a write.
written-returns :
    {A : Type 0} (err : UartError) (read : Option A) (failed : A)
    → is_some read ≡ true
    → is_some (elim err as (λ e. Option A) [ UartError.ok ↦ read | _ ↦ some failed ]) ≡ true
written-returns UartError.ok read failed h = h
written-returns _ read failed h = refl

some_take : (n : ℕ) (xs : List ℕ) → 1 ≤ n → is_empty xs ≡ false → is_empty (take n xs) ≡ false
some_take zero xs le h = absurd (omega arith)
some_take (suc n) [] le h = h
some_take (suc n) (x ∷ xs) le h = refl

append-some :
    (bytes : List ℕ) → is_empty bytes ≡ false → is_empty (append at_response_max [] bytes) ≡ false
unfolding append
append-some [] h = ground arith
append-some (b ∷ bytes) h = some_take (min (suc (length bytes)) 2048) (b ∷ bytes) (omega arith) refl

module _ {U : Type 0} (uart : Uart U) where
  take_read-returns :
      (again : List ℕ
        → AtResponse
        → U
        → ModemController U
        → Option (ModemStatus × AtResponse × ModemController U))
      (r : AtResponse) (c : ModemController U) (err : UartError) (bytes : List ℕ) (u : U)
      → (err ≡ UartError.ok → is_empty bytes ≡ false)
      → is_some (take_read uart again [] r c err bytes u) ≡ true
  unfolding take_read
  take_read-returns again r c UartError.ok bytes u gives =
      rw
        (
          gives refl,
          settled-parse (append at_response_max [] bytes) (append-some bytes (gives refl)),
        )
        refl
  take_read-returns again r c UartError.timeout bytes u gives = refl
  take_read-returns again r c _ bytes u gives = refl

  read_answer-returns :
      (fuel total_ms : ℕ) (r : AtResponse) (u : U) (c : ModemController U)
      → ((n ms : ℕ) (v : U)
          → (uart.read n ms v).0 ≡ UartError.ok
          → is_empty (uart.read n ms v).1 ≡ false)
      → is_some (read_answer uart (suc fuel) total_ms [] r u c) ≡ true
  unfolding read_answer
  read_answer-returns fuel total_ms r u c gives =
      let elapsed = elapsed_ms c.cmd_timer (uart.now u) in
      let res = uart.read read_max (total_ms - elapsed) u in
      elim (Bool-cases (leb total_ms elapsed)) [
        | inl late ↦ rw late refl
        | inr early ↦ rw early (
            take_read-returns (read_answer uart fuel total_ms) r c res.0 res.1 res.2
              (gives read_max (total_ms - elapsed) u))
      ]

  -- `send_command` returns: a line whose successful reads give at least a byte, as
  -- src/hal/posix_uart.cpp promises, ends its loop in the first pass, whatever else it does.
  pub send_command-returns :
      (fuel : ℕ) (locked : Bool) (cmd : AtCommand) (r : AtResponse) (c : ModemController U)
      → ((n ms : ℕ) (v : U)
          → (uart.read n ms v).0 ≡ UartError.ok
          → is_empty (uart.read n ms v).1 ≡ false)
      → is_some (send_command uart (suc fuel) locked cmd r c) ≡ true
  unfolding send_command
  send_command-returns fuel false cmd r c gives = refl
  send_command-returns fuel true cmd r c gives = elim (Option-cases (opened uart c.uart)) [
    | inl down ↦ rw (is_some, send_command, down) refl
    | inr (u, up) ↦
        let res = uart.write (full_command cmd.command) u in
        let timer = (start (stop c.cmd_timer).1 cmd.timeout_ms none (uart.now res.1)).1 in
        rw (is_some, send_command, up)
          (written-returns res.0 _ _ (
            read_answer-returns fuel cmd.timeout_ms r res.1
              (record c { uart = some (res.1); cmd_timer = timer }) gives))
  ]
