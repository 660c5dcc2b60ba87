-- ===== src/Tests/Ipc.antt =====
-- The commands of the sockets at concrete inputs: two datagrams, with and without a network.
use x_e310_multi_os.Base.{
  ℕ, ◌≡◌, ◌≢◌, ◌++◌, refl, List, [], ◌∷◌, is_empty, codes, some, arith, if◌then◌else◌,
}
use x_e310_multi_os.MessageQueue.{no_messages, is_invalid_id}
use x_e310_multi_os.MessageQueue.Refine.{no_messages-Holds}
use x_e310_multi_os.NetworkLte.Types.{NetworkLteState, ModemAction}
use x_e310_multi_os.NetworkLte.State.{NetworkLte}
use x_e310_multi_os.Ipc.{
  data_socket, coap_socket, NetworkCommand, report_state, IpcServers, process_pending_commands,
}
use x_e310_multi_os.Ipc.Datagrams.{
  Datagram, Ready, commands_of, messages_of, refusals, process_pending_commands-Ready,
  process_pending_commands-refused,
}
use x_e310_multi_os.Tests.Fixtures.{ok_modem, idle}

abbrev two_datagrams : List Datagram
two_datagrams = (data_socket, codes "hello") ∷ (coap_socket, codes "world") ∷ []

abbrev online : NetworkLte ℕ
online = record idle {
  state = NetworkLteState.data_ready;
  message_queue = some (record { capacity = 16; tx = no_messages; rx = no_messages });
}

abbrev waiting_on : NetworkLte ℕ → IpcServers ℕ
waiting_on s = record { network = s; command_queue = commands_of two_datagrams; sent = [] }

abbrev meanwhile : List NetworkCommand
meanwhile = report_state ∷ []

online-Ready : Ready 16 [] online
online-Ready = record {
  state = refl;
  queues = record { capacity = 16; tx = no_messages; rx = no_messages };
  queued = refl;
  size = refl;
  tx = no_messages-Holds 16;
}

process_pending_commands-Ready_example :
    (s' : NetworkLte ℕ) × (process_pending_commands ok_modem 0 0 1 meanwhile (waiting_on online)
      ≡ some (record (waiting_on online) { network = s'; command_queue = meanwhile }))
    × (s'.modem_action
        ≡ (if is_empty two_datagrams then online.modem_action else ModemAction.send_data))
    × Ready 16 ([] ++ messages_of 1 two_datagrams) s'
unfolding is_invalid_id
process_pending_commands-Ready_example =
    process_pending_commands-Ready ok_modem 0 0 1 16 two_datagrams [] meanwhile (waiting_on online)
      refl refl online-Ready (omega arith)

idle_no_data : idle.state ≢ NetworkLteState.data_ready
idle_no_data h = cc

process_pending_commands-refused_example :
    process_pending_commands ok_modem 0 0 1 meanwhile (waiting_on idle)
    ≡ some (record (waiting_on idle) {
      command_queue = meanwhile;
      sent = [] ++ refusals NetworkLteState.idle_mode two_datagrams;
    })
process_pending_commands-refused_example =
    process_pending_commands-refused ok_modem 0 0 1 two_datagrams meanwhile (waiting_on idle) refl
      idle_no_data
