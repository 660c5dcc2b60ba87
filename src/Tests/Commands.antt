-- ===== src/Tests/Commands.antt =====
-- The commands of the modem at concrete inputs, over a line that delivers one read.
use x_e310_multi_os.Base.{
  Bool, ℕ, ◌+◌, ◌≡◌, ◌≢◌, ◌++◌, refl, true, List, [], ◌∷◌, codes, arith, inl, digits_from,
}
use x_e310_multi_os.AtCommand.{crlf}
use x_e310_multi_os.ModemController.{full_command}
use x_e310_multi_os.ModemController.Retry
use x_e310_multi_os.ModemController.Retry.{Gives}
use x_e310_multi_os.ModemController.Port.{Uart, UartError}
use x_e310_multi_os.Modem.Types.{ModemStatus, empty_registration}
use x_e310_multi_os.Modem.Text.{reg_status_of, radio_tech_of}
use x_e310_multi_os.Modem.Interface.{Command}
use x_e310_multi_os.Modem.Lines.{at_line}
use x_e310_multi_os.Modem.Lines.Fits.{full_command-at_line}
use x_e310_multi_os.Modem.Device.{Device, run}
use x_e310_multi_os.Modem.Device.Status.{run-last_status}
use x_e310_multi_os.Modem.Parse.Network.{parse_registration}
use x_e310_multi_os.Modem.Parse.Registration.{registration_answer, parse_registration-answer}
use x_e310_multi_os.Modem.Driver.{driver}
use x_e310_multi_os.NetworkLte.Types.{transparent_mode, query_pdp_context}
use x_e310_multi_os.NetworkLte.State.{NetworkLte}
use x_e310_multi_os.NetworkLte.Events.{call_action}
use x_e310_multi_os.NetworkLte.Urc.{trim, is_uint}
use x_e310_multi_os.NetworkLte.Loop.{poll}
use x_e310_multi_os.NetworkLte.Wire.{polled, poll-registered}
use x_e310_multi_os.Tests.Fixtures.{line_with, device, machine}

-- A line that says nothing but the start of an answer.
abbrev half : List ℕ
half = codes "+CSQ: 2"

abbrev half_gives : Gives (line_with half)
half_gives n ms u e = refl

abbrev free : ℕ → Bool
free n = true

-- A line on which no byte comes: each attempt times out.
abbrev silent : Uart ℕ
silent = record (line_with []) { read = λ size ms u. (UartError.timeout, [], u + ms) }

abbrev silent_gives : Gives silent
silent_gives n ms u e = absurd (cc)

run-last_status_example :
    (run (line_with half) half_gives free (λ ms u. u + ms) Command.reboot device).1.last_status
    ≡ (run (line_with half) half_gives free (λ ms u. u + ms) Command.reboot device).0
run-last_status_example =
    run-last_status (line_with half) half_gives free (λ ms u. u + ms) Command.reboot device

full_command-at_line_example : full_command (codes "AT+CFUN=1") ≡ codes "AT+CFUN=1" ++ crlf
unfolding at_line
full_command-at_line_example =
    full_command-at_line Command.power_radio (codes "AT+CFUN=1") 15000 refl

parse_registration-answer_example :
    parse_registration empty_registration (registration_answer 2 5 (codes "1A2B") (codes "01C3") 7)
    ≡ (
      ModemStatus.ok,
      record empty_registration {
        mode = 2;
        stat = reg_status_of 5;
        lac = codes "1A2B";
        ci = codes "01C3";
        has_location = true;
        act = radio_tech_of 7;
      },
    )
parse_registration-answer_example =
    parse_registration-answer 2 5 (codes "1A2B") (codes "01C3") 7 empty_registration (omega arith)
      (omega arith) (omega arith) refl refl (omega arith) (omega arith)

-- The registration report that arrives in two pieces: its start waits in the buffer.
abbrev report_end : List ℕ
report_end = codes ",\"1A2B\"" ++ (13 ∷ 10 ∷ codes "SRI")

abbrev report_gives : Gives (line_with report_end)
report_gives n ms u e = refl

abbrev attached : NetworkLte (Device ℕ)
attached = record (machine device) { attach_retries = 2 }

is_idle : attached.state ≢ transparent_mode
is_idle e = cc

poll-registered_example :
    poll (driver (line_with report_end) report_gives free (λ ms u. u + ms)) attached
    ≡ record (call_action query_pdp_context attached) {
      attach_retries = 0;
      modem = polled 105 (codes "SRI") device;
    }
unfolding trim is_uint digits_from
poll-registered_example =
    poll-registered (line_with report_end) report_gives free (λ ms u. u + ms) attached 100 105
      report_end (codes "1") (codes "1") (codes "\"1A2B\"" ∷ []) (codes "SRI") refl refl refl refl
      refl (omega arith) (omega arith) refl refl (refl, refl, (refl, refl, (refl, refl, tt)))
      (omega arith) refl refl (omega arith) (inl refl) is_idle
