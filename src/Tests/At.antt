-- ===== src/Tests/At.antt =====
-- AT answers and the controller at concrete inputs, over a line that delivers one read.
use x_e310_multi_os.Base.{
  ℕ, zero, suc, arith, ◌≡◌, ◌++◌, refl, true, List, [], ◌∷◌, codes, some, take, is_some,
}
use x_e310_multi_os.Timer.{elapsed_ms}
use x_e310_multi_os.AtCommand.{AtStatus, AtCommand, new_response, parse_response}
use x_e310_multi_os.AtCommand.Frames.{frame}
use x_e310_multi_os.AtCommand.Answers.{joined, parse_response-answer}
use x_e310_multi_os.ModemController.Port.{Uart}
use x_e310_multi_os.ModemController.{ModemController, keep_urcs, read_answer, send_command}
use x_e310_multi_os.ModemController.Urcs.{max_urc_lines, poll_urc}
use x_e310_multi_os.ModemController.Prompt.{answered}
use x_e310_multi_os.ModemController.Poll.{wanted, poll_urc-lines, poll_urc-stuck}
use x_e310_multi_os.ModemController.Send.{read_answer-first}
use x_e310_multi_os.ModemController.Returns.{send_command-returns}
use x_e310_multi_os.AtCommand.{is_error_line}
use x_e310_multi_os.Tests.Fixtures.{line_with, controller}

parse_response-answer_example :
    parse_response (frame ((codes "+CSQ: 20,0" ∷ []) ++ (codes "OK" ∷ [])))
    ≡ record { status = AtStatus.ok; body = joined [] (codes "+CSQ: 20,0" ∷ []) }
unfolding is_error_line
parse_response-answer_example =
    parse_response-answer (codes "+CSQ: 20,0" ∷ []) refl refl (omega arith)

-- The end of the line that waits, a line that nobody wants, and the start of a third.
abbrev late_bytes : List ℕ
late_bytes = 13 ∷ 10 ∷ codes "noise" ++ (10 ∷ codes "SRI")

abbrev urc_lines : List (List ℕ)
urc_lines = (codes "+CEREG: 1,1" ++ (13 ∷ [])) ∷ codes "noise" ∷ []

poll_urc-lines_example : poll_urc (line_with late_bytes) true 50 controller ≡ (
  take max_urc_lines (wanted urc_lines),
  record controller { uart = some 105; urc_rx_buffer = codes "SRI" },
)
poll_urc-lines_example =
    poll_urc-lines (line_with late_bytes) 50 controller 100 105 late_bytes urc_lines (codes "SRI")
      refl refl refl refl (omega arith) refl refl

abbrev repeated : ℕ → List ℕ
repeated zero = []
repeated (suc n) = 65 ∷ repeated n

abbrev full_controller : ModemController ℕ
full_controller = record controller { urc_rx_buffer = repeated 1024 }

poll_urc-stuck_example :
    ((poll_urc (line_with late_bytes) true 50 full_controller).0 ≡ [])
    × ((poll_urc (line_with late_bytes) true 50 full_controller).1.urc_rx_buffer
        ≡ full_controller.urc_rx_buffer)
poll_urc-stuck_example = poll_urc-stuck (line_with late_bytes) 50 full_controller refl refl

-- The start of an answer, without its status.
abbrev half_answer : List ℕ
half_answer = codes "+CSQ: 2"

read_answer-first_example :
    read_answer (line_with half_answer) 3 1000 [] new_response 100 controller
    ≡ some (
      answered (parse_response half_answer).status,
      parse_response half_answer,
      record controller {
        uart = some 105;
        urc_rx_buffer =
            keep_urcs (parse_response half_answer).status half_answer controller.urc_rx_buffer;
      },
    )
unfolding elapsed_ms
read_answer-first_example =
    read_answer-first (line_with half_answer) 2 1000 new_response 100 105 half_answer controller
      (omega arith) refl refl (omega arith)

abbrev answer_lines : List (List ℕ)
answer_lines = codes "+CSQ: 20,0" ∷ []

abbrev whole_line : Uart ℕ
whole_line = line_with (frame (answer_lines ++ (codes "OK" ∷ [])))

abbrev csq : AtCommand
csq = record { command = codes "AT+CSQ"; timeout_ms = 1000 }

send_command-returns_example :
    is_some (send_command whole_line 1 true csq new_response controller) ≡ true
send_command-returns_example =
    send_command-returns whole_line 0 true csq new_response controller (λ n ms v e. refl)
