-- ===== src/Tests/Radio.antt =====
-- Requests, event flags and power saving at concrete inputs.
use x_e310_multi_os.Base.{
  ℕ, ◌+◌, ◌≡◌, ◌++◌, refl, Bool, true, ltb, List, [], ◌∷◌, codes, some, arith, if◌then◌else◌,
}
use x_e310_multi_os.EventFlags.{no_flags}
use x_e310_multi_os.MessageChannel.{new_channel, put_frame}
use x_e310_multi_os.MessageChannel.Refine.{Holds, new_channel-Holds, put_frame-Holds}
use x_e310_multi_os.NetworkLte.Types.{
  NetworkLteState, NetworkLteState-discrete, NetworkLteEvent, data_ready, idle_mode,
}
use x_e310_multi_os.NetworkLte.State.{NetworkLte}
use x_e310_multi_os.NetworkLte.Psm.{force_psm}
use x_e310_multi_os.Modem.Types.{
  ModemStatus, RadioTech, RegStatus, PsmMode, Operator, RegistrationInfo, empty_registration,
  empty_psm_status,
}
use x_e310_multi_os.Modem.Interface.{Xe310}
use x_e310_multi_os.NetworkLte.Psm.Search.{Search}
use x_e310_multi_os.NetworkLte.Psm.Resume.{before_search, operators_of, force_psm-running}
use x_e310_multi_os.RadioLte.{
  RequestType, RadioLteChannels, request_type_of, publish_typed_response, publish_action_complete,
}
use x_e310_multi_os.RadioLte.Values.{Value}
use x_e310_multi_os.RadioLte.Requests.{Layout, Job, start, do_job, process_radio_requests}
use x_e310_multi_os.RadioLte.Drain.{process_radio_requests-drains}
use x_e310_multi_os.RadioLte.Answers.{replies_of, do_job-answers}
use x_e310_multi_os.Tests.Fixtures.{ok_modem, config, idle}

-- A modem that finds two operators, is registered at home with whatever operator is chosen, and
-- reports a timer of PSM from the second question on.
abbrev home : RegistrationInfo
home = record empty_registration { stat = RegStatus.registered_home }

abbrev offered : RadioTech → Operator
offered act = record { long_name = []; short_name = []; numeric = codes "26201"; act = act }

abbrev power_saver : Xe310 ℕ
power_saver = record ok_modem {
  get_available_operators =
      λ old x. (ModemStatus.ok, offered RadioTech.cat_m1 ∷ offered RadioTech.nb_iot ∷ [], x + 10);
  get_registration_status = λ old tech x. (ModemStatus.ok, home, x + 10);
  get_telit_psm = λ old x. (
    ModemStatus.ok,
    record empty_psm_status { mode = PsmMode.enable; t3412 = if ltb x 1100 then 0 else 3600 },
    x + 10,
  );
}

abbrev ready : NetworkLte ℕ
ready = record idle { state = data_ready }

-- The second operator grants it.
force_psm-second : (force_psm power_saver ready).0 ≡ true
unfolding force_psm NetworkLteState-discrete
force_psm-second = refl

force_psm-running_example :
    (granted : Bool) × Search power_saver
      (operators_of power_saver ready).1
      (record (before_search power_saver ready) { modem = (operators_of power_saver ready).2 })
      granted
    × ((force_psm power_saver ready).0 ≡ granted)
    × ((force_psm power_saver ready).1.state ≡ (if granted then data_ready else idle_mode))
    × ((force_psm power_saver ready).1.st_timer.running ≡ true)
force_psm-running_example = force_psm-running power_saver ready refl

abbrev answer_byte : Value → ℕ
answer_byte (Value.flag true) = 1
answer_byte _ = 0

abbrev layout : Layout
layout = record {
  tx_msg_size = 12;
  set_config_size = 220;
  server_connect_size = 128;
  tx_args = λ frame. (0, 0);
  config_of = λ frame. config;
  connect_of = λ frame. (1, codes "UDP", codes "10.0.0.2", 7);
  response = λ v. 1 ∷ answer_byte v ∷ [];
  action_complete = λ type res. 17 ∷ (if res then 1 else 0) ∷ [];
}

-- A request for the signal quality.
abbrev request : List ℕ
request = 1 ∷ 0 ∷ 0 ∷ 0 ∷ 0 ∷ 0 ∷ 0 ∷ 0 ∷ 0 ∷ 0 ∷ 0 ∷ 0 ∷ []

abbrev channels : RadioLteChannels
unfolding new_channel
channels = record {
  modem_tx_q = put_frame (new_channel 8) request;
  modem_rx_q = new_channel 8;
  modem_log_q = new_channel 16;
  modem_evt = no_flags;
  state_msg = record { state = NetworkLteState.none; event = NetworkLteEvent.none };
}

empty-Holds : Holds 8 [] (new_channel 8)
unfolding new_channel
empty-Holds = new_channel-Holds 8

one_request : Holds 8 (request ∷ []) channels.modem_tx_q
unfolding new_channel
one_request = put_frame-Holds request empty-Holds (omega arith)

process_radio_requests-drains_example :
    (r : RadioLteChannels × NetworkLte ℕ) × (process_radio_requests ok_modem layout 0 0 2 channels
        idle
      ≡ some r)
    × Holds 8 [] r.0.modem_tx_q
unfolding request_type_of
process_radio_requests-drains_example =
    process_radio_requests-drains ok_modem layout 0 0 8 2 (request ∷ []) channels idle one_request
      refl (omega arith)

-- A job that succeeds at once.
abbrev scan : Job ℕ
scan = start RequestType.scan_networks (λ s. some (true, s))

abbrev after_scan : RadioLteChannels × NetworkLte ℕ
after_scan =
    (publish_action_complete (17 ∷ 1 ∷ []) (publish_typed_response (1 ∷ 1 ∷ []) channels).1, idle)

scan_done : do_job ok_modem layout 0 0 scan channels idle ≡ some after_scan
unfolding do_job
scan_done = refl

do_job-answers_example :
    Holds 8 ([] ++ replies_of layout scan idle) after_scan.0.modem_rx_q
    × (after_scan.0.modem_evt 1 ≡ true)
unfolding new_channel
do_job-answers_example =
    do_job-answers ok_modem layout 0 0 8 [] scan channels idle after_scan scan_done empty-Holds
      (omega arith) (omega arith)
