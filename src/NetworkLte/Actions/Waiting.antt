-- ===== src/NetworkLte/Actions/Waiting.antt =====
-- `check_responsiveness` of src/network_lte.cpp returns when the modem answers.
use x_e310_multi_os.Base.{ℕ, zero, suc, ◌≡◌, ◌<◌, true, false, some, arith}
use x_e310_multi_os.Modem.Interface.{Xe310, at_ok}
use x_e310_multi_os.NetworkLte.Types.{idle_mode, query_network_status}
use x_e310_multi_os.NetworkLte.State.{NetworkLte}
use x_e310_multi_os.NetworkLte.Events.{call_action}
use x_e310_multi_os.NetworkLte.ChangeState.{change_state}
use x_e310_multi_os.NetworkLte.Actions.Calls.{is_ok}
use x_e310_multi_os.NetworkLte.Actions.Power.{check_responsiveness}

module _ {X : Type 0} (m : Xe310 X) where
  -- The modem after n attempts that had no answer.
  unfoldable pub after_attempts : ℕ → X → X
  after_attempts zero x = x
  after_attempts (suc n) x = after_attempts n (m.delay_ms 2000 (m.run at_ok x).1)

  -- The modem answers attempt n (from 0), and none before it.
  abbrev pub AnswersAt : ℕ → X → Type 0
  AnswersAt zero x = is_ok (m.run at_ok x).0 ≡ true
  AnswersAt (suc n) x =
      (is_ok (m.run at_ok x).0 ≡ false) × AnswersAt n (m.delay_ms 2000 (m.run at_ok x).1)

  -- With fuel for the attempt that is answered, the loop returns: the machine is idle then, and asks
  -- for the network status.
  pub check_responsiveness_returns :
      (n fuel : ℕ) (s : NetworkLte X)
      → n < fuel
      → AnswersAt n s.modem
      → check_responsiveness m fuel s
        ≡ some (
            call_action query_network_status (
              change_state m idle_mode
                (record s { modem = (m.run at_ok (after_attempts n s.modem)).1 })))
  unfolding check_responsiveness after_attempts
  check_responsiveness_returns n zero s lt ans = absurd (omega arith)
  check_responsiveness_returns zero (suc fuel) s lt ans = rw ans
  check_responsiveness_returns (suc n) (suc fuel) s lt ans = rw ans.0 (
      check_responsiveness_returns n fuel
        (record s { modem = m.delay_ms 2000 (m.run at_ok s.modem).1 }) (omega arith) ans.1)
