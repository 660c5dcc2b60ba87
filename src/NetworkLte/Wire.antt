-- ===== src/NetworkLte/Wire.antt =====
-- The state machine over the real controller: what the serial line delivers reaches `handle_urc`
-- line by line (loop of src/network_lte.cpp, xE310::poll_urc, ModemController::poll_urc).
use mathlib.Core.Logic.{if_neg}
use x_e310_multi_os.Base.{
  ℕ, suc, ◌+◌, ◌≤◌, ◌≡◌, ◌≢◌, ◌⊎◌, refl, ap, ◌∙◌, Bool, true, false, List, [], ◌∷◌, ◌++◌, take,
  length, is_empty, arith, codes, some, comma_joined, has_prefix,
}
use x_e310_multi_os.FixedString.{of_view, of_view-fits}
use x_e310_multi_os.ModemController.Port.{Uart, UartError}
use x_e310_multi_os.ModemController.{opened, read_max, urc_rx_buffer_max}
use x_e310_multi_os.ModemController.Urcs.{urc_line_max, max_urc_lines, strip_cr, has_any_prefix}
use x_e310_multi_os.ModemController.Poll.{wire, all_no_lf, no_lf, wanted, poll_urc-lines}
use x_e310_multi_os.ModemController.Retry.{Gives}
use x_e310_multi_os.Modem.Device.{Device, poll_urcs}
use x_e310_multi_os.Modem.Driver.{driver}
use x_e310_multi_os.NetworkLte.Types.{NetworkLteState-discrete, transparent_mode, query_pdp_context}
use x_e310_multi_os.NetworkLte.State.{NetworkLte}
use x_e310_multi_os.NetworkLte.Events.{call_action}
use x_e310_multi_os.NetworkLte.Urc.{is_uint, number}
use x_e310_multi_os.NetworkLte.Loop.{poll, handle_urcs}
use x_e310_multi_os.NetworkLte.Fields.{Clean, handle_urc-registered}

-- The modem after a poll: the line went on, and the start of the next line waits.
abbrev pub polled : {U : Type 0} → U → List ℕ → Device U → Device U
polled u tail d = record d {
  shared = record {
    controller = record d.shared.controller { uart = some u; urc_rx_buffer = tail };
    lock_requests = suc d.shared.lock_requests;
  };
}

module _ {U : Type 0} (uart : Uart U) (gives : Gives uart) (guard : ℕ → Bool) where
  poll_urcs-lines :
      (d : Device U) (u u' : U) (bytes : List ℕ) (lines : List (List ℕ)) (tail : List ℕ)
      → guard d.shared.lock_requests ≡ true
      → opened uart d.shared.controller.uart ≡ some u
      → uart.read read_max 10 u ≡ (UartError.ok, bytes, u')
      → is_empty bytes ≡ false
      → d.shared.controller.urc_rx_buffer ++ bytes ≡ wire lines tail
      → length d.shared.controller.urc_rx_buffer + length bytes ≤ urc_rx_buffer_max
      → all_no_lf lines ≡ true
      → no_lf tail ≡ true
      → poll_urcs uart gives guard d ≡ (take max_urc_lines (wanted lines), polled u' tail d)
  unfolding poll_urcs
  poll_urcs-lines d u u' bytes lines tail locked up got some_bytes split fits h k =
      rw
        (
          locked,
          poll_urc-lines uart 10 d.shared.controller u u' bytes lines tail up got some_bytes split
              fits h k,
        )
        refl

strip_cr-append : (s : List ℕ) → strip_cr (s ++ 13 ∷ []) ≡ s
unfolding strip_cr
strip_cr-append [] = refl
strip_cr-append (c ∷ []) = refl
strip_cr-append (c ∷ d ∷ s) = ap (λ r. c ∷ r) (strip_cr-append (d ∷ s))

-- A registration report is a line that a poll gives out.
wanted-report :
    (s : List ℕ)
    → 8 + length s ≤ urc_line_max
    → wanted ((codes "+CEREG: " ++ s ++ 13 ∷ []) ∷ []) ≡ (codes "+CEREG: " ++ s) ∷ []
unfolding has_any_prefix has_prefix
wanted-report s h =
    let line = codes "+CEREG: " ++ s in
    let text : of_view urc_line_max (strip_cr (line ++ 13 ∷ [])) ≡ line =
      ap (of_view urc_line_max) (strip_cr-append line)
      ∙ of_view-fits urc_line_max line (omega arith) in
    rw text refl

module _ {U : Type 0} (uart : Uart U) (gives : Gives uart) (guard : ℕ → Bool)
    (delay : ℕ → U → U) where
  -- Outside transparent mode, what the line delivers is handled line by line.
  poll-lines :
      (s : NetworkLte (Device U)) (u u' : U) (bytes : List ℕ) (lines : List (List ℕ))
      (tail : List ℕ)
      → guard s.modem.shared.lock_requests ≡ true
      → opened uart s.modem.shared.controller.uart ≡ some u
      → uart.read read_max 10 u ≡ (UartError.ok, bytes, u')
      → is_empty bytes ≡ false
      → s.modem.shared.controller.urc_rx_buffer ++ bytes ≡ wire lines tail
      → length s.modem.shared.controller.urc_rx_buffer + length bytes ≤ urc_rx_buffer_max
      → all_no_lf lines ≡ true
      → no_lf tail ≡ true
      → s.state ≢ transparent_mode
      → poll (driver uart gives guard delay) s
        ≡ handle_urcs
            (take max_urc_lines (wanted lines))
            (record s { modem = polled u' tail s.modem })
  unfolding poll driver
  poll-lines s u u' bytes lines tail locked up got some_bytes split fits h k normal =
      if_neg (NetworkLteState-discrete s.state transparent_mode) normal _ _
      ∙ ap (λ r. handle_urcs r.0 (record s { modem = r.1 }))
          (poll_urcs-lines uart gives guard s.modem u u' bytes lines tail locked up got some_bytes
            split fits h k)

  -- A registration report that arrives whole sets the machine going.
  pub poll-registered :
      (s : NetworkLte (Device U)) (u u' : U) (bytes n stat : List ℕ) (fields : List (List ℕ))
      (tail : List ℕ)
      → guard s.modem.shared.lock_requests ≡ true
      → opened uart s.modem.shared.controller.uart ≡ some u
      → uart.read read_max 10 u ≡ (UartError.ok, bytes, u')
      → is_empty bytes ≡ false
      → s.modem.shared.controller.urc_rx_buffer ++ bytes
        ≡ wire ((codes "+CEREG: " ++ comma_joined n (stat ∷ fields) ++ 13 ∷ []) ∷ []) tail
      → length s.modem.shared.controller.urc_rx_buffer + length bytes ≤ urc_rx_buffer_max
      → 8 + length (comma_joined n (stat ∷ fields)) ≤ urc_line_max
      → no_lf (comma_joined n (stat ∷ fields) ++ 13 ∷ []) ≡ true
      → no_lf tail ≡ true
      → Clean (n ∷ stat ∷ fields)
      → length fields ≤ 6
      → is_uint n ≡ true
      → is_uint stat ≡ true
      → number n ≤ 5
      → (number stat ≡ 1) ⊎ (number stat ≡ 5)
      → s.state ≢ transparent_mode
      → poll (driver uart gives guard delay) s ≡ record (call_action query_pdp_context s) {
        attach_retries = 0;
        modem = polled u' tail s.modem;
      }
  unfolding call_action handle_urcs
  poll-registered s u u' bytes n stat fields tail locked up got some_bytes split fits short h k
        clean few un us small reg normal =
      let report = comma_joined n (stat ∷ fields) in
      let lines = (codes "+CEREG: " ++ report ++ 13 ∷ []) ∷ [] in
      let s₁ = record s { modem = polled u' tail s.modem } in
      let text : all_no_lf lines ≡ true = ground arith in
      poll-lines s u u' bytes lines tail locked up got some_bytes split fits text k normal
      ∙ ap (λ w. handle_urcs (take max_urc_lines w) s₁) (wanted-report report short)
      ∙ handle_urc-registered n stat fields s₁ clean few un us small reg
