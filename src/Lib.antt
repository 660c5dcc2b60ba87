-- ===== src/Lib.antt =====
-- The xE310 modem library: the platform layer's queues, channels and timers, the AT command layer
-- and commands, the LTE state machine and the request channels. Paths are from the repository's
-- root; the sources are those of src/ and include/.
--
-- The parts and how they interact. `NetworkLte` (src/network_lte.cpp) is a state machine that is
-- driven by `loop` and `go_to_state`. It speaks to the modem through `class xE310`
-- (include/modem/xe310.h), times its states with a one-shot timer, hands messages over by a
-- message queue and keeps a trace of what it did. `xE310` speaks AT commands through
-- `ModemController` (src/modem_controller.cpp), which reads answers with
-- `AtCommand::parse_response` (src/at_command.cpp) and collects the lines the modem sends unasked,
-- which come back to `NetworkLte` by `poll_urc`. Other threads send their requests through
-- `RadioLteChannels`; `process_radio_requests` (src/i_radio_lte.cpp) handles them on the network
-- thread and answers.
--
-- Which file models what.
--   Base, Base/*                 tests on native numbers, lists, rings, byte strings, `std::atoi`
--   MessageQueue                 src/hal/posix_message_queue.cpp; one side (TX or RX) is a `Side`
--   MessageQueue/Fifo, Refine    the queue it stands for: one list, oldest message first
--   MessageChannel, /Fifo, /Refine   src/hal/posix_message_channel.cpp and its queue of frames
--   Timer, Timer/Laws            src/hal/posix_timer.cpp
--   FixedString, /Ops            include/hal/fixed_string.h and static_vector.h
--   AtCommand, /Frames, /Answers src/at_command.cpp
--   ModemController, /*          src/modem_controller.cpp; the serial line is the record `Uart`
--   ModemController/Prompt, Urcs, Retry   `send_binary` and `send_with_prompt`; `poll_urc`; the
--                                repeated attempts of `send_raw`
--   Modem/Types, Configs, Interface   include/modem/xe310.h: its structs, and the methods that
--                                src/network_lte.cpp calls as the record `Xe310`
--   Modem/Print, Lines, Lines/*  src/xe310.cpp: the command lines as the methods print them, and
--                                that they fit into the buffer `cmd`
--   Modem/Text, Text/*, Parse/*  src/xe310.cpp: how the methods read an answer, a parser for each
--   Modem/Device, Device/Status  src/xe310.cpp: `send_raw`, and a line sent and its answer parsed
--   Modem/Driver                 src/xe310.cpp: the methods, from these parts
--   EventFlags, EventFlags/Laws  src/hal/posix_event_flags.cpp; a word of flags is a function from
--                                bit positions
--   NetworkLte/*                 src/network_lte.cpp: State (the members), Trace (the trace ring),
--                                Events (`on_event`, `call_action` and the like), ChangeState,
--                                Actions/* (a function for each case of `execute_actions`), Urc
--                                (`handle_urc`), Loop (`loop`, `go_to_state`), Api (the calls of
--                                the application), Psm (`force_psm`), Modes (`update_modem`,
--                                `acquire_gnss_position`, the application's timer and the like),
--                                Wire (the machine over a serial line)
--   RadioLte                     include/modem/i_radio_lte.h: `RadioLteChannels`
--   RadioLte/Requests, Drain, Answers   src/i_radio_lte.cpp
--   NetworkLte/Invariant/*       what each of these steps keeps
--   NetworkLte/Faults, Fields, Servers   events, registration lines, server calls
--   NetworkLte/Psm/Search, Resume   what `force_psm` looks for, and where it ends
--   RadioLte/Values              src/i_radio_lte.cpp: the value that a response carries
--   Rpc                          examples/desktop/rpc_helpers.h: names and JSON strings, and its
--                                children Structs and Reports: the structs as JSON, Fits: their
--                                lengths, Config, Pairs: SET CONFIG, Json: strings read back
--   Rpc/Words, Arguments, Settings, Server, Targets, Letters   examples/desktop/app_rpc_server.cpp:
--                                `handle_request`, what SET SERVERCONNECT accepts, and GET
--   Rpc/Exchange, Calls, Worker  examples/desktop/app_rpc_server.cpp: `request_radio_state`, and the
--                                round of the network thread of examples/desktop/main.cpp (that of
--                                Ipc) that runs while a call waits
--   Ipc, Ipc/Datagrams           examples/desktop/app_ipc_servers.cpp: the commands of the sockets, and
--                                the round of the network thread of examples/desktop/main.cpp
--   Rpc/Questions, Steps, Rounds, Asked   a remote call from its request to its answer
--   Tests/*                      the theorems at concrete inputs
--
-- How the code is read. A mutex makes each call of a queue, a channel, the timer and the trace one
-- step; a call that waits on a condition gets the state it wakes up in as an argument, `woken`. The
-- state machine is a record and each member function a function on it. The modem is a value of an
-- unknown type `X` on which the operations of `Xe310` act: nothing is assumed of them. A clock is a
-- number of milliseconds. The bytes of a `FixedString` are a list; an `erase` that would leave the
-- array gives `none`. Strings of JSON are read back by a reader of this library, which follows the
-- rules of JSON but has no `\u`.
--
-- What the platform or the compiler fixes enters as a parameter: the serial line, a record `Uart`
-- whose law `Gives` says that a successful read yields a byte at least; which attempts of
-- `send_raw` get the lock; the byte layout of the messages of the request channels, a record
-- `Layout` on the network thread and `Reader` on the thread that asks, and `log_bytes`; a float is
-- its 32 bits, `Floats` has `std::strtof` and its cast to `int`, and `%.1f` is `one_decimal`. A
-- remote call that waits, for room or for an event, gets the shared state that the other threads
-- leave after that time from a function `turn`, such as `network_turn`: one round, if it is over by
-- then.
--
-- Bounds and fuel. `check_responsiveness`, the while loop of `go_to_state`, the read loop of
-- `send_command`, the loop of `process_radio_requests` and the wait for a fix in
-- `acquire_gnss_position` have no bound of their own; they run on fuel (`passes`, `rounds`) and give
-- `none` when it is used up, so that a theorem about a result holds for every amount. The loops over
-- the lines of a buffer run on its length, of which each pass takes a byte at least. The loop over
-- the TX queue runs on one more than the number of its messages, and so does the loop over the
-- requests when none of them drives the machine to a state.
--
-- Not modelled: the tables of the log lines; `power_on` and `power_off`, whose bodies are empty;
-- responses that wait for room in a channel; the UART drivers and the win32 and Zephyr platforms;
-- logging; of the applications under examples the sockets, the set-up and the threads that only log.
-- The decimal numbers of the remote calls are those that an `int` holds. An `unsigned long` has 64
-- bits. The timer's callback enters by `on_event timeout`: threads that write a member at the same
-- time are not modelled.
pub mod Base
pub mod MessageQueue
pub mod MessageChannel
pub mod Timer
pub mod FixedString
pub mod EventFlags
pub mod AtCommand
pub mod Modem
pub mod ModemController
pub mod NetworkLte
pub mod RadioLte
pub mod Rpc
pub mod Ipc
pub mod Tests
