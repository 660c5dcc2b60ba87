-- ===== src/Ipc/Datagrams.antt =====
-- What becomes of the datagrams that the sockets deliver (examples/desktop/app_ipc_servers.cpp), with
-- the TX queue of src/network_lte.cpp.
use x_e310_multi_os.Base.{
  ℕ, ◌+◌, ◌≤◌, ◌≡◌, ◌≢◌, refl, ap, sym, ◌∙◌, false, List, [], ◌∷◌, ◌++◌, map, length, length-append,
  append_assoc, append-nil, codes, is_empty, leb, if◌then◌else◌, some, arith, Bool-cases, inl, inr,
}
use x_e310_multi_os.Modem.Interface.{Xe310}
use x_e310_multi_os.MessageQueue.{QueueError, new_message, is_invalid_id, push_to}
use x_e310_multi_os.MessageQueue.Fifo.{Fifo, put}
use x_e310_multi_os.MessageQueue.Refine.{Holds, push_refines}
use x_e310_multi_os.NetworkLte.Types.{NetworkLteState, NetworkLteState-discrete, ModemAction}
use x_e310_multi_os.NetworkLte.State.{NetworkLte, Queues}
use x_e310_multi_os.NetworkLte.Events.{call_action}
use x_e310_multi_os.NetworkLte.Api.{tx_write}
use x_e310_multi_os.Rpc.{state_name}
use x_e310_multi_os.Ipc.{
  Client, Sent, NetworkCommand, send_datagram, not_ready_text, write_datagram, run_command,
  run_commands, IpcServers, process_pending_commands,
}

-- A datagram and the client that it came from.
abbrev pub Datagram : Type 0
Datagram = Client × List ℕ

abbrev pub commands_of : List Datagram → List NetworkCommand
commands_of = map (λ d. send_datagram d.0 d.1)

abbrev pub messages_of : ℕ → List Datagram → Fifo
messages_of conn_id = map (λ d. new_message conn_id d.1)

-- What each client is told of a state that is not data_ready.
abbrev pub refusal : NetworkLteState → List ℕ
refusal NetworkLteState.none = codes "ERROR: network not ready, state=none"
refusal NetworkLteState.rebooting = codes "ERROR: network not ready, state=rebooting"
refusal NetworkLteState.switched_off = codes "ERROR: network not ready, state=switched_off"
refusal NetworkLteState.off_mode = codes "ERROR: network not ready, state=off_mode"
refusal NetworkLteState.sleep_mode = codes "ERROR: network not ready, state=sleep_mode"
refusal NetworkLteState.setup_mode = codes "ERROR: network not ready, state=setup_mode"
refusal NetworkLteState.idle_mode = codes "ERROR: network not ready, state=idle_mode"
refusal NetworkLteState.network_detached = codes "ERROR: network not ready, state=network_detached"
refusal NetworkLteState.network_attaching =
    codes "ERROR: network not ready, state=network_attaching"
refusal NetworkLteState.pdp_context_closed =
    codes "ERROR: network not ready, state=pdp_context_closed"
refusal NetworkLteState.pdp_context_opening =
    codes "ERROR: network not ready, state=pdp_context_opening"
refusal NetworkLteState.data_ready = codes "ERROR: network not ready, state=data_ready"
refusal NetworkLteState.transparent_mode = codes "ERROR: network not ready, state=transparent_mode"
refusal NetworkLteState.modem_fota = codes "ERROR: network not ready, state=modem_fota"
refusal NetworkLteState.done = codes "ERROR: network not ready, state=done"
refusal NetworkLteState.gnss_fix_mode = codes "ERROR: network not ready, state=unknown"

abbrev pub refusals : NetworkLteState → List Datagram → Sent
refusals state = map (λ d. (d.0, refusal state))

not_ready_text-refusal : (state : NetworkLteState) → not_ready_text state ≡ refusal state
unfolding not_ready_text state_name
not_ready_text-refusal NetworkLteState.none = refl
not_ready_text-refusal NetworkLteState.rebooting = refl
not_ready_text-refusal NetworkLteState.switched_off = refl
not_ready_text-refusal NetworkLteState.off_mode = refl
not_ready_text-refusal NetworkLteState.sleep_mode = refl
not_ready_text-refusal NetworkLteState.setup_mode = refl
not_ready_text-refusal NetworkLteState.idle_mode = refl
not_ready_text-refusal NetworkLteState.network_detached = refl
not_ready_text-refusal NetworkLteState.network_attaching = refl
not_ready_text-refusal NetworkLteState.pdp_context_closed = refl
not_ready_text-refusal NetworkLteState.pdp_context_opening = refl
not_ready_text-refusal NetworkLteState.data_ready = refl
not_ready_text-refusal NetworkLteState.transparent_mode = refl
not_ready_text-refusal NetworkLteState.modem_fota = refl
not_ready_text-refusal NetworkLteState.done = refl
not_ready_text-refusal NetworkLteState.gnss_fix_mode = refl

-- The machine is ready for data and its TX queue is this list.
pub record Ready {X : Type 0} (capacity : ℕ) (q : Fifo) (s : NetworkLte X) : Type 0 where
  pub state : s.state ≡ NetworkLteState.data_ready
  pub queues : Queues
  pub queued : s.message_queue ≡ some queues
  pub size : queues.capacity ≡ capacity
  pub tx : Holds capacity q queues.tx

module _ {X : Type 0} where
  write_datagram-Ready :
      (capacity conn_id : ℕ) (client : Client) (bytes : List ℕ) (q : Fifo) (s : NetworkLte X)
      → is_invalid_id conn_id ≡ false
      → Ready capacity q s
      → length q + 1 ≤ capacity
      → (s' : NetworkLte X) × (write_datagram conn_id client bytes s ≡ ([], s'))
        × (s'.modem_action ≡ ModemAction.send_data)
        × Ready capacity (q ++ (new_message conn_id bytes ∷ [])) s'
  unfolding write_datagram tx_write put call_action NetworkLteState-discrete
  write_datagram-Ready capacity conn_id client bytes q s valid r room =
      let ready = r.state in
      let has_room : leb capacity (length q) ≡ false = ground (arith, room) in
      let push = push_to capacity r.queues.tx conn_id bytes in
      let accepted : put capacity q conn_id bytes
          ≡ (QueueError.ok, q ++ (new_message conn_id bytes ∷ [])) =
        rw (valid, has_room) refl in
      let (same, holds) = push_refines capacity conn_id bytes r.tx in
      let taken : push.0 ≡ QueueError.ok = rw (same, accepted) refl in
      let pushed : push ≡ (QueueError.ok, push.1) = ap (λ e. (e, push.1)) taken in
      (
        call_action ModemAction.send_data
            (record s { message_queue = some (record r.queues { tx = push.1 }) }),
        rw (r.state, r.queued, r.size, pushed) refl,
        refl,
        record {
          state = r.state;
          queues = record r.queues { tx = push.1 };
          queued = refl;
          size = r.size;
          tx = rw (sym (ap (λ x. x.1) accepted)) holds;
        },
      )

  write_datagram-refused :
      (conn_id : ℕ) (client : Client) (bytes : List ℕ) (s : NetworkLte X)
      → s.state ≢ NetworkLteState.data_ready
      → write_datagram conn_id client bytes s ≡ ((client, refusal s.state) ∷ [], s)
  unfolding write_datagram
  write_datagram-refused conn_id client bytes s other =
      rw (sym (not_ready_text-refusal s.state)) (ground arith)

module _ {X : Type 0} (m : Xe310 X) (rounds fuel conn_id : ℕ) where
  run_commands-first :
      (command : NetworkCommand) (commands : List NetworkCommand) (s s₁ s₂ : NetworkLte X)
      (out outs : Sent)
      → run_command m rounds fuel conn_id command s ≡ some (out, s₁)
      → run_commands m rounds fuel conn_id commands s₁ ≡ some (outs, s₂)
      → run_commands m rounds fuel conn_id (command ∷ commands) s ≡ some (out ++ outs, s₂)
  unfolding run_commands
  run_commands-first command commands s s₁ s₂ out outs first others =
      rw (run_commands, first, others) refl

  run_commands-Ready :
      (capacity : ℕ) (datagrams : List Datagram) (q : Fifo) (s : NetworkLte X)
      → is_invalid_id conn_id ≡ false
      → Ready capacity q s
      → length q + length datagrams ≤ capacity
      → (s' : NetworkLte X) × (run_commands m rounds fuel conn_id (commands_of datagrams) s
          ≡ some ([], s'))
        × (s'.modem_action ≡ (if is_empty datagrams then s.modem_action else ModemAction.send_data))
        × Ready capacity (q ++ messages_of conn_id datagrams) s'
  unfolding run_commands run_command
  run_commands-Ready capacity [] q s valid r room = (s, refl, refl, rw (append-nil q) r)
  run_commands-Ready capacity ((client, bytes) ∷ datagrams) q s valid r room =
      let msg = new_message conn_id bytes in
      let (s₁, written, action, r₁) =
        write_datagram-Ready capacity conn_id client bytes q s valid r (omega (arith, room)) in
      let (s₂, run, later, r₂) =
        run_commands-Ready capacity datagrams (q ++ (msg ∷ [])) s₁ valid r₁
          (omega (arith, room, length-append q (msg ∷ []))) in
      (
        s₂,
        run_commands-first (send_datagram client bytes) (commands_of datagrams) s s₁ s₂ [] []
            (ap some written) run,
        elim (Bool-cases (is_empty datagrams)) [
          | inl none_left ↦ later ∙ rw none_left action
          | inr others ↦ later ∙ rw others refl
        ],
        rw (sym (append_assoc q (msg ∷ []) (messages_of conn_id datagrams))) r₂,
      )

  -- Datagrams that wait when the machine is in data_ready, on a connection that there is and with
  -- room for them all, are put into the TX queue in the order in which they came, behind what is
  -- there; if there are any, their sending is pending; the machine stays in data_ready, no client is
  -- told of an error, and only what came meanwhile waits.
  pub process_pending_commands-Ready :
      (capacity : ℕ) (datagrams : List Datagram) (q : Fifo) (arriving : List NetworkCommand)
      (servers : IpcServers X)
      → is_invalid_id conn_id ≡ false
      → servers.command_queue ≡ commands_of datagrams
      → Ready capacity q servers.network
      → length q + length datagrams ≤ capacity
      → (s' : NetworkLte X) × (process_pending_commands m rounds fuel conn_id arriving servers
          ≡ some (record servers { network = s'; command_queue = arriving }))
        × (s'.modem_action
            ≡ (if is_empty datagrams then servers.network.modem_action else ModemAction.send_data))
        × Ready capacity (q ++ messages_of conn_id datagrams) s'
  unfolding process_pending_commands
  process_pending_commands-Ready capacity datagrams q arriving servers valid queue r room =
      let (s', run, action, r') =
        run_commands-Ready capacity datagrams q servers.network valid r room in
      (s', rw (process_pending_commands, queue, run, append-nil servers.sent) refl, action, r')

  run_commands-refused :
      (datagrams : List Datagram) (s : NetworkLte X)
      → s.state ≢ NetworkLteState.data_ready
      → run_commands m rounds fuel conn_id (commands_of datagrams) s
        ≡ some (refusals s.state datagrams, s)
  unfolding run_commands run_command
  run_commands-refused [] s other = refl
  run_commands-refused ((client, bytes) ∷ datagrams) s other =
      run_commands-first (send_datagram client bytes) (commands_of datagrams) s s s
        ((client, refusal s.state) ∷ []) (refusals s.state datagrams)
        (ap some (write_datagram-refused conn_id client bytes s other))
        (run_commands-refused datagrams s other)

  -- Datagrams that wait when the machine is in any other state are dropped: the client of each gets
  -- an error in the order in which they came, with the name that `to_str` has for the state, which is
  -- `unknown` in gnss_fix_mode and the state's own name in every other; the machine is left as it
  -- was.
  pub process_pending_commands-refused :
      (datagrams : List Datagram) (arriving : List NetworkCommand) (servers : IpcServers X)
      → servers.command_queue ≡ commands_of datagrams
      → servers.network.state ≢ NetworkLteState.data_ready
      → process_pending_commands m rounds fuel conn_id arriving servers
        ≡ some (record servers {
          command_queue = arriving;
          sent = servers.sent ++ refusals servers.network.state datagrams;
        })
  unfolding process_pending_commands
  process_pending_commands-refused datagrams arriving servers queue other =
      let run = run_commands-refused datagrams servers.network other in
      rw (process_pending_commands, queue, run) refl
