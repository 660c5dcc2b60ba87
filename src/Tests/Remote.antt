-- ===== src/Tests/Remote.antt =====
-- Remote calls at concrete inputs: a question that is answered, one that comes after a late answer,
-- and a line in small letters.
use x_e310_multi_os.Base.{
  ℕ, zero, suc, ◌≡◌, refl, ◌==◌, Bool, true, false, List, [], ◌∷◌, codes, before, arith,
  if◌then◌else◌,
}
use x_e310_multi_os.EventFlags.{flag, no_flags}
use x_e310_multi_os.MessageChannel.{new_channel, put_frame}
use x_e310_multi_os.MessageChannel.Refine.{Holds, new_channel-Holds, put_frame-Holds}
use x_e310_multi_os.NetworkLte.Types.{NetworkLteState, NetworkLteEvent}
use x_e310_multi_os.RadioLte.{RequestType, request_type_of}
use x_e310_multi_os.RadioLte.Values.{Value}
use x_e310_multi_os.RadioLte.Requests.{Layout}
use x_e310_multi_os.Rpc.Exchange.{Desktop, Reader, render}
use x_e310_multi_os.Rpc.Calls.{request_radio_state}
use x_e310_multi_os.Rpc.Worker.{network_turn}
use x_e310_multi_os.Rpc.Questions.{Agrees}
use x_e310_multi_os.Rpc.Asked.{request_radio_state-late}
use x_e310_multi_os.NetworkLte.State.{NetworkLte}
use x_e310_multi_os.Rpc.Words.{to_upper}
use x_e310_multi_os.Rpc.Server.{handle_request}
use x_e310_multi_os.Rpc.Letters.{handle_request-to_upper}
use x_e310_multi_os.Tests.Fixtures.{ok_modem, config, idle}

-- A message that is cut or padded to a size.
abbrev sized : ℕ → List ℕ → List ℕ
sized zero s = []
sized (suc n) [] = 0 ∷ sized n []
sized (suc n) (c ∷ s) = c ∷ sized n s

abbrev answer_bytes : Value → List ℕ
answer_bytes (Value.short_string s) = 1 ∷ sized 17 s
answer_bytes _ = sized 18 (1 ∷ [])

abbrev layout : Layout
layout = record {
  tx_msg_size = 12;
  set_config_size = 220;
  server_connect_size = 128;
  tx_args = λ frame. (0, 0);
  config_of = λ frame. config;
  connect_of = λ frame. (1, codes "UDP", codes "10.0.0.2", 7);
  response = answer_bytes;
  action_complete = λ type res. 17 ∷ (if res then 1 else 0) ∷ [];
}

abbrev read_answer : RequestType → List ℕ → Bool × Value
read_answer type [] = (false, Value.flag false)
read_answer type (ok ∷ s) = (ok == 1, Value.short_string s)

abbrev reader : Reader
reader = record {
  request_bytes = λ type a b. sized 12 (4 ∷ []);
  config_request = λ c. sized 220 [];
  connect_request = λ id protocol ip port. sized 128 [];
  response_size = λ type. 18;
  response_of = read_answer;
  flag_size = 2;
  flag_of = λ bytes. (true, true);
  action_size = 2;
  action_of = λ bytes. true;
  one_decimal = λ x. [];
}

abbrev quiet : Desktop ℕ
unfolding new_channel
quiet = record {
  channels = record {
    modem_tx_q = new_channel 8;
    modem_rx_q = new_channel 8;
    modem_log_q = new_channel 16;
    modem_evt = no_flags;
    state_msg = record { state = NetworkLteState.none; event = NetworkLteEvent.none };
  };
  network = idle;
  network_worker_running = true;
}

empty-Holds : Holds 8 [] (new_channel 8)
unfolding new_channel
empty-Holds = new_channel-Holds 8

abbrev turn : ℕ → Desktop ℕ → Desktop ℕ
unfolding network_turn
turn = network_turn ok_modem 0 0 1 layout 2 []

-- A round that has nothing else to do polls the modem, ten milliseconds after the pause.
abbrev polled : NetworkLte ℕ
polled = record idle { modem = 1020 }

-- The answer to an earlier call, with an older clock.
abbrev late : Value
late = Value.short_string (codes "24/12/31,23:59:59")

abbrev overtaken : Desktop ℕ
unfolding new_channel
overtaken = record quiet {
  channels = record {
    modem_tx_q = new_channel 8;
    modem_rx_q = put_frame (new_channel 8) (answer_bytes late);
    modem_log_q = new_channel 16;
    modem_evt = flag 1;
    state_msg = record { state = NetworkLteState.none; event = NetworkLteEvent.none };
  };
}

late-Agrees : Agrees layout reader RequestType.get_clock late
unfolding request_type_of
late-Agrees = record {
  first = 4;
  others = 0 ∷ 0 ∷ 0 ∷ 0 ∷ 0 ∷ 0 ∷ 0 ∷ 0 ∷ 0 ∷ 0 ∷ 0 ∷ [];
  request = refl;
  named = refl;
  request_size = refl;
  request_fits = omega arith;
  response_size = refl;
  response_fits = omega arith;
  read_back = refl;
}

one_answer : Holds 8 (answer_bytes late ∷ []) overtaken.channels.modem_rx_q
unfolding overtaken new_channel
one_answer = put_frame-Holds (answer_bytes late) empty-Holds (omega arith)

request_radio_state-late_example :
    (d' : Desktop ℕ) × (request_radio_state reader turn RequestType.get_clock 0 0 1000 overtaken
      ≡ ((true, render reader.one_decimal late), d'))
    × Holds 8 (reader.request_bytes RequestType.get_clock 0 0 ∷ []) d'.channels.modem_tx_q
    × (d'.network ≡ overtaken.network)
unfolding overtaken
request_radio_state-late_example =
    request_radio_state-late layout reader turn RequestType.get_clock late 1000 overtaken refl
      late-Agrees refl empty-Holds one_answer refl

abbrev idle_text : NetworkLte ℕ → List ℕ
idle_text s = codes "\"idle_mode\""

handle_request-to_upper_example :
    handle_request reader turn 1 idle_text (to_upper (codes "get Clock")) quiet
    ≡ handle_request reader turn 1 idle_text (codes "get Clock") quiet
unfolding to_upper before
handle_request-to_upper_example =
    handle_request-to_upper reader turn 1 idle_text (codes "get Clock") quiet refl
