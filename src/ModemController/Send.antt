-- ===== src/ModemController/Send.antt =====
-- `send_command` of src/modem_controller.cpp: when its loop ends, and with what.
use x_e310_multi_os.Base.{
  ◌-◌, ◌≤◌, ℕ, zero, suc, ◌-◌, ◌≤◌, ◌<◌, ◌≡◌, refl, ap, ◌∙◌, Bool, true, false, List, [], ◌∷◌, ◌++◌,
  length, length-append, is_empty, leb, if◌then◌else◌, arith, bytes_eq, codes, Option, some,
}
use x_e310_multi_os.FixedString.{append-fits}
use x_e310_multi_os.Timer.{elapsed_ms}
use x_e310_multi_os.Modem.Types.{ModemStatus}
use x_e310_multi_os.AtCommand.{
  AtStatus, AtResponse, new_response, is_error_line, add_line, take_line, take_lines,
  parse_response, line_of, after_line, at_response_max,
}
use x_e310_multi_os.AtCommand.Frames.{all_no_cr, frame}
use x_e310_multi_os.AtCommand.Answers.{all_payload, joined, parse_response-answer}
use x_e310_multi_os.ModemController.Port.{Uart, UartError}
use x_e310_multi_os.ModemController.{
  ModemController, settled, keep_urcs, read_answer, take_read, read_max,
}
use x_e310_multi_os.ModemController.Prompt.{answered}

abbrev is_timeout : AtStatus → Bool
is_timeout AtStatus.timeout = true
is_timeout _ = false

one_of-answers :
    (a b c d : Bool) (r s : AtResponse)
    → is_timeout r.status ≡ false
    → is_timeout s.status ≡ false
    → is_timeout
        (if a
          then r
          else if b
          then record r { status = AtStatus.ok }
          else if c
          then record r { status = AtStatus.error }
          else if d
          then record r { status = AtStatus.busy }
          else s).status
      ≡ false
one_of-answers true b c d r s h k = h
one_of-answers false true c d r s h k = refl
one_of-answers false false true d r s h k = refl
one_of-answers false false false true r s h k = refl
one_of-answers false false false false r s h k = k

take_line-answers :
    (line : List ℕ) (r : AtResponse)
    → is_timeout r.status ≡ false
    → is_timeout (take_line line r).status ≡ false
unfolding take_line
take_line-answers line r h =
    one_of-answers (is_empty line) (bytes_eq line (codes "OK")) (is_error_line line)
      (bytes_eq line (codes "BUSY")) r (record r { body = add_line r.body line }) h h

take_lines-answers :
    (fuel : ℕ) (raw : List ℕ) (r : AtResponse)
    → is_timeout r.status ≡ false
    → is_timeout (take_lines fuel raw r).status ≡ false
unfolding take_lines
take_lines-answers zero raw r h = h
take_lines-answers (suc fuel) [] r h = h
take_lines-answers (suc fuel) (c ∷ s) r h =
    take_lines-answers fuel (after_line (c ∷ s)) (take_line (line_of (c ∷ s)) r)
      (take_line-answers (line_of (c ∷ s)) r h)

settled-answers : (s : AtStatus) → is_timeout s ≡ false → settled s ≡ some (answered s)
unfolding settled
settled-answers AtStatus.timeout h = ground arith
settled-answers _ h = refl

-- Whatever bytes are there, their status ends the wait.
pub settled-parse :
    (raw : List ℕ)
    → is_empty raw ≡ false
    → settled (parse_response raw).status ≡ some (answered (parse_response raw).status)
unfolding parse_response
settled-parse [] h = ground arith
settled-parse (c ∷ s) h =
    settled-answers (take_lines (length (c ∷ s)) (c ∷ s) new_response).status
      (take_lines-answers (length (c ∷ s)) (c ∷ s) new_response refl)

frame_init :
    (lines : List (List ℕ)) (line : List ℕ)
    → length (frame lines) ≤ length (frame (lines ++ (line ∷ [])))
frame_init [] line = omega arith
frame_init (l ∷ lines) line = omega (
  arith,
  frame_init lines line,
  length-append l (13 ∷ 10 ∷ frame lines),
  length-append l (13 ∷ 10 ∷ frame (lines ++ (line ∷ []))),
)

frame_any : (lines : List (List ℕ)) → is_empty (frame (lines ++ (codes "OK" ∷ []))) ≡ false
frame_any [] = refl
frame_any ([] ∷ lines) = refl
frame_any ((c ∷ s) ∷ lines) = refl

module _ {U : Type 0} (uart : Uart U) where
  take_read-settles :
      (again : List ℕ
        → AtResponse
        → U
        → ModemController U
        → Option (ModemStatus × AtResponse × ModemController U))
      (r : AtResponse) (c : ModemController U) (bytes : List ℕ) (u : U)
      → is_empty bytes ≡ false
      → length bytes ≤ at_response_max
      → take_read uart again [] r c UartError.ok bytes u
        ≡ some (
          answered (parse_response bytes).status,
          parse_response bytes,
          record c {
            uart = some u;
            urc_rx_buffer = keep_urcs (parse_response bytes).status bytes c.urc_rx_buffer;
          },
        )
  unfolding take_read
  take_read-settles again r c bytes u any fits =
      let whole = append-fits at_response_max [] bytes (omega arith) in
      rw (any, ap (λ a. settled (parse_response a).status) whole ∙ settled-parse bytes any)
        (ap
          (λ a. some (
            answered (parse_response bytes).status,
            parse_response a,
            record c {
              uart = some u;
              urc_rx_buffer = keep_urcs (parse_response a).status a c.urc_rx_buffer;
            },
          ))
          whole)

  -- The first bytes that come end the loop, be they a whole answer or the start of one: the result
  -- is what these bytes alone say, `at_error` where they hold no status line at all.
  pub read_answer-first :
      (fuel total_ms : ℕ) (r : AtResponse) (u u' : U) (bytes : List ℕ) (c : ModemController U)
      → elapsed_ms c.cmd_timer (uart.now u) < total_ms
      → uart.read read_max (total_ms - elapsed_ms c.cmd_timer (uart.now u)) u
        ≡ (UartError.ok, bytes, u')
      → is_empty bytes ≡ false
      → length bytes ≤ at_response_max
      → read_answer uart (suc fuel) total_ms [] r u c
        ≡ some (
          answered (parse_response bytes).status,
          parse_response bytes,
          record c {
            uart = some u';
            urc_rx_buffer = keep_urcs (parse_response bytes).status bytes c.urc_rx_buffer;
          },
        )
  unfolding read_answer
  read_answer-first fuel total_ms r u u' bytes c early read any fits =
      let late : leb total_ms (elapsed_ms c.cmd_timer (uart.now u)) ≡ false = ground arith in
      rw late (
        ap (λ p. take_read uart (read_answer uart fuel total_ms) [] r c p.0 p.1 p.2) read
        ∙ take_read-settles (read_answer uart fuel total_ms) r c bytes u' any fits)

  -- An answer that comes in one read is handed over as it was sent: information lines that say
  -- something, are no status words and hold no carriage return, then "OK", 511 bytes of them at
  -- most, give `ok` and the information lines.
  pub read_answer-whole :
      (fuel total_ms : ℕ) (r : AtResponse) (u u' : U) (lines : List (List ℕ))
      (c : ModemController U)
      → elapsed_ms c.cmd_timer (uart.now u) < total_ms
      → uart.read read_max (total_ms - elapsed_ms c.cmd_timer (uart.now u)) u
        ≡ (UartError.ok, frame (lines ++ (codes "OK" ∷ [])), u')
      → all_payload lines ≡ true
      → all_no_cr lines ≡ true
      → length (frame (lines ++ (codes "OK" ∷ []))) ≤ read_max
      → (c' : ModemController U) × (read_answer uart (suc fuel) total_ms [] r u c
          ≡ some (ModemStatus.ok, record { status = AtStatus.ok; body = joined [] lines }, c'))
  read_answer-whole fuel total_ms r u u' lines c early read payload clean fits =
      let shorter = frame_init lines (codes "OK") in
      let answer = frame (lines ++ (codes "OK" ∷ [])) in
      let parsed = parse_response-answer lines payload clean (omega (arith, shorter)) in
      (
        record c {
          uart = some u';
          urc_rx_buffer = keep_urcs (parse_response answer).status answer c.urc_rx_buffer;
        },
        read_answer-first fuel total_ms r u u' answer c early read (frame_any lines) (omega arith)
            ∙ ap
                (λ p. some (
                  answered p.status,
                  p,
                  record c {
                    uart = some u';
                    urc_rx_buffer = keep_urcs (parse_response answer).status answer c.urc_rx_buffer;
                  },
                ))
                parsed,
      )
