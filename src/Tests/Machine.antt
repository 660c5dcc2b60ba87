-- ===== src/Tests/Machine.antt =====
-- The LTE state machine at concrete inputs.
use x_e310_multi_os.Base.{
  ℕ, ◌+◌, ◌≡◌, refl, Bool, true, false, [], codes, Option, none, some, arith, inl, length, ◌<◌,
}
use mathlib.Core.Logic.{ite}
use x_e310_multi_os.MessageQueue.{Side, no_messages, push_to, is_invalid_id}
use x_e310_multi_os.MessageQueue.Fifo
use x_e310_multi_os.MessageQueue.Refine.{Holds, push_refines, no_messages-Holds}
use x_e310_multi_os.NetworkLte.Types.{
  NetworkLteState, NetworkLteState-discrete, NetworkLteEvent, data_ready, idle_mode,
  network_attaching, disconnected, timeout, done, query_network_status,
}
use x_e310_multi_os.NetworkLte.State.{NetworkLte, on_timer_expired}
use x_e310_multi_os.NetworkLte.Events.{call_action}
use x_e310_multi_os.NetworkLte.ChangeState.{change_state}
use x_e310_multi_os.NetworkLte.ChangeState.Timed.{TimerMatches, change_state-armed, timer_of}
use x_e310_multi_os.NetworkLte.ChangeState.Effects.{
  change_state_lem, change_state-disconnected, next_action,
}
use x_e310_multi_os.NetworkLte.Actions.Data.{send_loop}
use x_e310_multi_os.NetworkLte.Actions.Sending.{send_all, send_loop_lem}
use x_e310_multi_os.NetworkLte.Actions.Power.{check_responsiveness}
use x_e310_multi_os.NetworkLte.Actions.Waiting.{after_attempts, check_responsiveness_returns}
use x_e310_multi_os.NetworkLte.Loop.{loop, process, handle_urcs, go_to_state, process_event}
use x_e310_multi_os.NetworkLte.Invariant.Machine.{loop-TimerMatches}
use x_e310_multi_os.NetworkLte.Invariant.Target.{go_to_state-TimerMatches, go_to_state-reaches}
use x_e310_multi_os.NetworkLte.Actions.{execute_actions}
use x_e310_multi_os.NetworkLte.Faults.{
  detached_from, way_out, network_detached-disconnects, timeout-done,
}
use x_e310_multi_os.NetworkLte.Actions.Calls.{is_ok}
use x_e310_multi_os.Modem.Interface.{at_ok}
use x_e310_multi_os.Tests.Fixtures.{ok_modem, idle, opened}

abbrev unwrap : {A : Type 0} → A → Option A → A
unwrap a none = a
unwrap a (some b) = b

-- The machine goes from its open context to data_ready in one pass.
abbrev driven : Bool × NetworkLte ℕ
driven = unwrap (false, opened) (go_to_state ok_modem 2 1 data_ready opened)

driven-some : go_to_state ok_modem 2 1 data_ready opened ≡ some driven
unfolding go_to_state loop NetworkLteState-discrete execute_actions process handle_urcs change_state
driven-some = refl

driven_true : go_to_state ok_modem 2 1 data_ready opened ≡ some (true, driven.1)
unfolding go_to_state loop NetworkLteState-discrete execute_actions process handle_urcs change_state
driven_true = refl

go_to_state-TimerMatches_example : TimerMatches driven.1
go_to_state-TimerMatches_example =
    go_to_state-TimerMatches ok_modem 2 1 data_ready opened driven driven-some (inl refl)

go_to_state-reaches_example : driven.1.state ≡ data_ready
go_to_state-reaches_example =
    go_to_state-reaches ok_modem 2 1 data_ready opened driven.1 driven_true

abbrev looped : NetworkLte ℕ
looped = unwrap opened (loop ok_modem 1 data_ready opened)

looped-some : loop ok_modem 1 data_ready opened ≡ some looped
unfolding loop NetworkLteState-discrete execute_actions process handle_urcs change_state
looped-some = refl

loop-TimerMatches_example : TimerMatches looped
loop-TimerMatches_example =
    loop-TimerMatches ok_modem 1 data_ready opened looped looped-some (inl refl)

change_state_lem_example :
    let s' = change_state ok_modem NetworkLteState.network_detached opened in
    let same = NetworkLteState-discrete NetworkLteState.network_detached opened.state in
    (s'.state ≡ NetworkLteState.network_detached)
    × (s'.prev_state ≡ ite same opened.prev_state opened.state)
    × (s'.modem_action
        ≡ ite same opened.modem_action
            (next_action NetworkLteState.network_detached opened.modem_action))
    × (s'.event ≡ opened.event)
    × (s'.attach_retries ≡ opened.attach_retries)
    × (s'.lte_config ≡ opened.lte_config)
change_state_lem_example = change_state_lem ok_modem NetworkLteState.network_detached opened

change_state-armed_example :
    let s' = change_state ok_modem network_attaching idle in
    (s'.st_timer.running ≡ true)
    × (s'.st_timer.callback ≡ some on_timer_expired)
    × (s'.st_timer.deadline ≡ s'.modem + 120000)
unfolding timer_of
change_state-armed_example =
    change_state-armed ok_modem network_attaching idle 120000 on_timer_expired (inl refl)
      (ground arith) refl

change_state-disconnected_example :
    let s' = change_state ok_modem NetworkLteState.network_detached idle in
    ((s'.server_info 2).state ≡ disconnected) × (s'.network_info.ip_address ≡ [])
unfolding next_action
change_state-disconnected_example =
    change_state-disconnected ok_modem NetworkLteState.network_detached idle 2 (ground arith)
      (ground arith) (omega arith)

abbrev one_to_send : Side
one_to_send = (push_to 5 no_messages 1 (codes "hello")).1

abbrev one_waiting : Fifo.Fifo
one_waiting = (Fifo.put 5 [] 1 (codes "hello")).1

one_to_send-Holds : Holds 5 one_waiting one_to_send
one_to_send-Holds = (push_refines 5 1 (codes "hello") (no_messages-Holds 5)).1

one_waiting-short : length one_waiting < 6
unfolding Fifo.put is_invalid_id
one_waiting-short = omega arith

send_loop_lem_example :
    ((send_loop ok_modem 6 one_to_send driven.1).1 ≡ send_all ok_modem one_waiting driven.1)
    × Holds 5 [] (send_loop ok_modem 6 one_to_send driven.1).0
send_loop_lem_example =
    send_loop_lem ok_modem 5 6 one_waiting one_to_send driven.1 one_to_send-Holds one_waiting-short

check_responsiveness_returns_example :
    check_responsiveness ok_modem 1 idle
    ≡ some (
        call_action query_network_status (
          change_state ok_modem idle_mode (record idle {
            modem = (ok_modem.run at_ok (after_attempts ok_modem 0 idle.modem)).1;
          })))
unfolding is_ok
check_responsiveness_returns_example =
    check_responsiveness_returns ok_modem 0 1 idle (omega arith) refl

network_detached-disconnects_example :
    let s' = process_event ok_modem NetworkLteEvent.network_detached driven.1 in
    ((s'.server_info 0).state ≡ disconnected) × (s'.state ≡ detached_from driven.1.state)
network_detached-disconnects_example =
    network_detached-disconnects ok_modem driven.1 0 (omega arith)

abbrev attaching : NetworkLte ℕ
attaching = record idle { state = network_attaching }

timeout-done_example :
    let s' = process_event ok_modem timeout attaching in
    (s'.state ≡ done)
    × (s'.prev_state ≡ attaching.state)
    × (s'.modem_action ≡ way_out attaching.state)
timeout-done_example = timeout-done ok_modem attaching (ground arith) (inl (ground arith))

abbrev ready : NetworkLte ℕ
ready = record idle { state = data_ready }
