-- ===== src/Ipc.antt =====
-- The commands of the sockets of the desktop application: `IpcServers` of
-- examples/desktop/app_ipc_servers.cpp, and the round of the network thread of
-- examples/desktop/main.cpp. A command is queued by a socket's thread and run by the network thread.
pub mod Datagrams
use x_e310_multi_os.Base.{
  ℕ, zero, suc, Bool, true, false, List, [], ◌∷◌, ◌++◌, length, is_empty, before, codes, show,
  if◌then◌else◌, Option, none, some,
}
use mathlib.Core.Logic.{ite}
use x_e310_multi_os.FixedString.{append}
use x_e310_multi_os.AtCommand.{at_response_max, crlf}
use x_e310_multi_os.Modem.Types.{no_position}
use x_e310_multi_os.Modem.Interface.{Xe310}
use x_e310_multi_os.MessageQueue.{QueueError, max_msg_data}
use x_e310_multi_os.NetworkLte.Types.{NetworkLteState, NetworkLteState-discrete, ModemAction}
use x_e310_multi_os.NetworkLte.State.{NetworkLte, Queues}
use x_e310_multi_os.NetworkLte.Events.{call_action}
use x_e310_multi_os.NetworkLte.Loop.{loop}
use x_e310_multi_os.NetworkLte.Modes.{acquire_gnss_position}
use x_e310_multi_os.NetworkLte.Api
use x_e310_multi_os.NetworkLte.Api.{tx_write, rx_read, enter_transparent_mode, send_at_command}
use x_e310_multi_os.RadioLte.{RadioLteChannels}
use x_e310_multi_os.RadioLte.Requests.{Layout, process_radio_requests}
use x_e310_multi_os.Rpc.{state_name}
use x_e310_multi_os.Rpc.Structs.{quoted, position_json}

-- Who gets a text: the client of a socket, or the thread that waits for the end of its command.
pub data Client : Type 0 where
  data_socket coap_socket at_socket caller : Client

-- The closures that are queued.
pub data NetworkCommand : Type 0 where
  send_datagram : Client → List ℕ → NetworkCommand
  send_line : List ℕ → NetworkCommand
  acquire_gnss enter_transparent leave_transparent report_state : NetworkCommand

abbrev pub Sent : Type 0
Sent = List (Client × List ℕ)

pub record IpcServers (X : Type 0) : Type 0 where
  pub network : NetworkLte X
  pub command_queue : List NetworkCommand
  pub sent : Sent

unfoldable pub enqueue_network_command : {X : Type 0} → NetworkCommand → IpcServers X → IpcServers X
enqueue_network_command command servers = record servers {
  command_queue = servers.command_queue ++ (command ∷ []);
}

abbrev pub queue_error_code : QueueError → ℕ
queue_error_code QueueError.ok = 0
queue_error_code QueueError.full = 1
queue_error_code QueueError.empty = 2
queue_error_code QueueError.timeout = 3
queue_error_code QueueError.invalid_id = 4

unfoldable pub not_ready_text : NetworkLteState → List ℕ
unfolding state_name
not_ready_text state = codes "ERROR: network not ready, state=" ++ state_name state

-- What the client of the AT socket reads: an `OK` is put behind the answer.
unfoldable pub at_answer : Bool × List ℕ → List ℕ
unfolding append before
at_answer (false, response) = before 0 response
at_answer (true, response) =
    let line = if is_empty response then response else append at_response_max response crlf in
    before 0 (append at_response_max line (codes "OK\r\n"))

abbrev pub rx_waiting : Option Queues → ℕ
rx_waiting none = 0
rx_waiting (some q) = length q.rx.order

abbrev pub whole_array : ℕ → List ℕ → List ℕ
whole_array zero s = []
whole_array (suc n) [] = 0 ∷ whole_array n []
whole_array (suc n) (c ∷ s) = c ∷ whole_array n s

module _ {X : Type 0} where
  -- A message that was queued is sent by the next pass of the machine.
  abbrev pub written : Client → QueueError × NetworkLte X → Sent × NetworkLte X
  unfolding call_action show
  written client (QueueError.ok, s) = ([], call_action ModemAction.send_data s)
  written client (e, s) =
      ((client, codes "ERROR: tx_write failed, code=" ++ show (queue_error_code e)) ∷ [], s)

  unfoldable pub write_datagram : ℕ → Client → List ℕ → NetworkLte X → Sent × NetworkLte X
  unfolding tx_write call_action show not_ready_text
  write_datagram conn_id client bytes s =
      ite (NetworkLteState-discrete s.state NetworkLteState.data_ready)
        (written client (tx_write conn_id bytes s)) ((client, not_ready_text s.state) ∷ [], s)

  -- The loop over the RX queue of a connection. The whole array of a message is sent, of which the
  -- bytes behind the payload are 0.
  unfoldable pub forward_rx : ℕ → ℕ → NetworkLte X → Sent × NetworkLte X
  unfolding rx_read
  forward_rx zero conn_id s = ([], s)
  forward_rx (suc fuel) conn_id s =
      let (e, s₁, msg) = rx_read conn_id s in
      let (others, s₂) = forward_rx fuel conn_id s₁ in
      elim msg [
        | none ↦ ([], s₁)
        | some m ↦ ((data_socket, whole_array max_msg_data m.payload) ∷ others, s₂)
      ]

module _ {X : Type 0} (m : Xe310 X) (rounds fuel conn_id : ℕ) where
  -- `none` stands for a command that has not returned within the bounds.
  abbrev pub silently : Option (Bool × NetworkLte X) → Option (Sent × NetworkLte X)
  silently none = none
  silently (some (result, s)) = some ([], s)

  unfoldable pub run_command : NetworkCommand → NetworkLte X → Option (Sent × NetworkLte X)
  unfolding write_datagram send_at_command at_answer acquire_gnss_position position_json
      enter_transparent_mode Api.leave_transparent state_name
  run_command (send_datagram client bytes) s = some (write_datagram conn_id client bytes s)
  run_command (send_line line) s =
      let (answer, s₁) = send_at_command m line [] 210000 s in
      some ((at_socket, at_answer answer) ∷ [], s₁)
  run_command acquire_gnss s = elim (acquire_gnss_position m rounds fuel no_position s) [
    | none ↦ none
    | some (ok, position, s₁) ↦
        let text =
          if ok then position_json position else codes "ERROR: failed to acquire GNSS fix" in
        some ((caller, text) ∷ [], s₁)
  ]
  run_command enter_transparent s = silently (enter_transparent_mode m rounds fuel s)
  run_command leave_transparent s = silently (Api.leave_transparent m fuel s)
  run_command report_state s = some ((caller, quoted (state_name s.state)) ∷ [], s)

  -- A command whose result a thread waits for: without a network thread it is run at once.
  unfoldable pub run_network_command_sync :
      Bool → NetworkCommand → IpcServers X → Option (IpcServers X)
  unfolding enqueue_network_command run_command
  run_network_command_sync network_worker_running command servers =
      let done = run_command command servers.network in
      if network_worker_running then some (enqueue_network_command command servers) else elim done [
        | none ↦ none
        | some (out, s) ↦ some (record servers { network = s; sent = servers.sent ++ out })
      ]

  unfoldable pub run_commands : List NetworkCommand → NetworkLte X → Option (Sent × NetworkLte X)
  unfolding run_command
  run_commands [] s = some ([], s)
  run_commands (command ∷ commands) s = elim (run_command command s) [
    | none ↦ none
    | some (out, s₁) ↦ elim (run_commands commands s₁) [
      | none ↦ none
      | some (outs, s₂) ↦ some (out ++ outs, s₂)
    ]
  ]

  -- The queue is taken whole; `arriving` are the commands that come while these run.
  unfoldable pub process_pending_commands :
      List NetworkCommand → IpcServers X → Option (IpcServers X)
  unfolding run_commands
  process_pending_commands arriving servers =
      elim (run_commands servers.command_queue servers.network) [
        | none ↦ none
        | some (out, s) ↦
            some
              (record servers { network = s; command_queue = arriving; sent = servers.sent ++ out })
      ]

  -- A round of the network thread, under the network mutex.
  unfoldable pub network_round :
      Layout
      → ℕ
      → List NetworkCommand
      → RadioLteChannels × IpcServers X
      → Option (RadioLteChannels × IpcServers X)
  unfolding process_pending_commands loop process_radio_requests forward_rx
  network_round layout passes arriving (channels, servers) =
      elim (process_pending_commands arriving servers) [
        | none ↦ none
        | some a ↦ elim (loop m fuel NetworkLteState.none a.network) [
          | none ↦ none
          | some s ↦ elim (process_radio_requests m layout rounds fuel passes channels s) [
            | none ↦ none
            | some (c, s₁) ↦
                let (out, s₂) = forward_rx (suc (rx_waiting s₁.message_queue)) conn_id s₁ in
                some (c, record a { network = s₂; sent = a.sent ++ out })
          ]
        ]
      ]
