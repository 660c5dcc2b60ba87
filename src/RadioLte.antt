-- ===== src/RadioLte.antt =====
-- The request channels between the application's threads and the network thread:
-- `RadioLteChannels` and the messages of include/modem/i_radio_lte.h. A message is its bytes.
pub mod Values
pub mod Requests
pub mod Drain
pub mod Answers
use x_e310_multi_os.Base.{
  ℕ, zero, suc, Bool, true, false, List, [], ◌∷◌, length, ◌==◌, if◌then◌else◌, Option, none, some,
}
use x_e310_multi_os.FixedString.{of_view}
use x_e310_multi_os.MessageChannel
use x_e310_multi_os.MessageChannel.{Channel, MessageChannelError, new_channel}
use x_e310_multi_os.EventFlags
use x_e310_multi_os.EventFlags.{Mask, no_flags, flag}
use x_e310_multi_os.Modem.Types.{GnssPosition, GnssFixType, modem_long_str}
use x_e310_multi_os.NetworkLte.Types.{NetworkLteState, NetworkLteEvent}

-- `MODEM_EVT_REQUEST` and the others, by the position of their bit.
abbrev pub evt_request : Mask
evt_request = flag 0

abbrev pub evt_response : Mask
evt_response = flag 1

abbrev pub evt_state : Mask
evt_state = flag 2

abbrev pub evt_log : Mask
evt_log = flag 3

abbrev pub evt_action_done : Mask
evt_action_done = flag 4

pub data RequestType : Type 0 where
  get_registration_info get_signal_quality get_iccid get_imsi get_clock get_modem_info : RequestType
  get_sim_status get_radio_tech get_reg_status get_network_info get_psm_mode : RequestType
  get_cpsms_config get_telit_cpsms_config get_telit_cpsms_status : RequestType
  get_network_survey_result get_available_operators get_csurv_result scan_networks : RequestType
  get_server_info_array get_config set_config network_connect network_disconnect : RequestType
  server_connect server_disconnect force_psm get_timers get_gnss_position : RequestType
  acquire_gnss_position : RequestType

-- The enumeration in the order of its values.
abbrev pub request_types : List RequestType
request_types =
    get_registration_info ∷ get_signal_quality ∷ get_iccid ∷ get_imsi ∷ get_clock ∷ get_modem_info
    ∷ get_sim_status ∷ get_radio_tech ∷ get_reg_status ∷ get_network_info ∷ get_psm_mode
    ∷ get_cpsms_config ∷ get_telit_cpsms_config ∷ get_telit_cpsms_status ∷ get_network_survey_result
    ∷ get_available_operators ∷ get_csurv_result ∷ scan_networks ∷ get_server_info_array
    ∷ get_config ∷ set_config ∷ network_connect ∷ network_disconnect ∷ server_connect
    ∷ server_disconnect ∷ force_psm ∷ get_timers ∷ get_gnss_position ∷ acquire_gnss_position ∷ []

abbrev pub type_at : ℕ → List RequestType → Option RequestType
type_at n [] = none
type_at zero (t ∷ ts) = some t
type_at (suc n) (t ∷ ts) = type_at n ts

-- A byte read as the enumeration; `none` is a value without a name.
unfoldable pub request_type_of : ℕ → Option RequestType
request_type_of byte = type_at byte request_types

pub record GnssPositionMsg : Type 0 where
  pub utc : List ℕ
  pub latitude : List ℕ
  pub longitude : List ℕ
  pub hdop : List ℕ
  pub altitude : List ℕ
  pub fix : GnssFixType
  pub cog : List ℕ
  pub spkm : List ℕ
  pub spkn : List ℕ
  pub date : List ℕ
  pub nsat : ℕ
  pub hepe : List ℕ
  pub vepe : List ℕ

unfoldable pub to_gnss_position_msg : GnssPosition → GnssPositionMsg
unfolding of_view
to_gnss_position_msg p = record {
  utc = of_view 16 p.utc;
  latitude = of_view 16 p.latitude;
  longitude = of_view 16 p.longitude;
  hdop = of_view 16 p.hdop;
  altitude = of_view 16 p.altitude;
  fix = p.fix;
  cog = of_view 16 p.cog;
  spkm = of_view 16 p.spkm;
  spkn = of_view 16 p.spkn;
  date = of_view 16 p.date;
  nsat = p.nsat;
  hepe = of_view 16 p.hepe;
  vepe = of_view 16 p.vepe;
}

pub record ModemStateMsg : Type 0 where
  pub state : NetworkLteState
  pub event : NetworkLteEvent

pub record RadioLteChannels : Type 0 where
  pub modem_tx_q : Channel
  pub modem_rx_q : Channel
  pub modem_log_q : Channel
  pub modem_evt : Mask
  pub state_msg : ModemStateMsg

-- The depths of the three queues are 8, 8 and 16.
unfoldable pub new_channels : RadioLteChannels
unfolding new_channel
new_channels = record {
  modem_tx_q = new_channel 8;
  modem_rx_q = new_channel 8;
  modem_log_q = new_channel 16;
  modem_evt = no_flags;
  state_msg = record { state = NetworkLteState.none; event = NetworkLteEvent.none };
}

-- `send_message` without a wait.
unfoldable pub send_message : List ℕ → Channel → MessageChannelError × Channel
send_message bytes q = MessageChannel.send q (some bytes) (length bytes) 0 q

-- An event is posted for what was sent.
abbrev pub posted : Mask → MessageChannelError → Mask → Mask
posted evt MessageChannelError.ok word = EventFlags.set evt word
posted evt _ word = word

-- `send_request_message`, for any request.
unfoldable pub send_request : List ℕ → RadioLteChannels → MessageChannelError × RadioLteChannels
unfolding send_message EventFlags.set
send_request bytes c =
    let (e, q) = send_message bytes c.modem_tx_q in
    (e, record c { modem_tx_q = q; modem_evt = posted evt_request e c.modem_evt })

unfoldable pub recv_request_frame :
    RadioLteChannels → MessageChannelError × RadioLteChannels × Option (List ℕ)
recv_request_frame c =
    let (e, q, frame) = MessageChannel.receive c.modem_tx_q 0 c.modem_tx_q in
    (e, record c { modem_tx_q = q }, frame)

unfoldable pub publish_typed_response :
    List ℕ → RadioLteChannels → MessageChannelError × RadioLteChannels
unfolding send_message EventFlags.set
publish_typed_response bytes c =
    let (e, q) = send_message bytes c.modem_rx_q in
    (e, record c { modem_rx_q = q; modem_evt = posted evt_response e c.modem_evt })

-- A message is taken if it has the size of its type; a frame of another size is lost.
abbrev pub of_size :
    ℕ
    → MessageChannelError × Channel × Option (List ℕ)
    → MessageChannelError × Channel × Option (List ℕ)
of_size size (e, q, none) = (e, q, none)
of_size size (e, q, some bytes) =
    if length bytes == size then (e, q, some bytes) else (MessageChannelError.invalid_size, q, none)

-- `receive_message` without a wait.
unfoldable pub receive_message : ℕ → Channel → MessageChannelError × Channel × Option (List ℕ)
receive_message size q = of_size size (MessageChannel.receive q 0 q)

unfoldable pub recv_response :
    ℕ → RadioLteChannels → MessageChannelError × RadioLteChannels × Option (List ℕ)
unfolding receive_message
recv_response size c =
    let (e, q, bytes) = receive_message size c.modem_rx_q in (e, record c { modem_rx_q = q }, bytes)

unfoldable pub publish_action_complete : List ℕ → RadioLteChannels → RadioLteChannels
unfolding send_message EventFlags.set
publish_action_complete bytes c =
    let (e, q) = send_message bytes c.modem_rx_q in
    record c { modem_rx_q = q; modem_evt = posted evt_action_done e c.modem_evt }

unfoldable pub publish_state :
    NetworkLteState → NetworkLteEvent → RadioLteChannels → RadioLteChannels
unfolding EventFlags.set
publish_state state event c = record c {
  state_msg = record { state = state; event = event };
  modem_evt = EventFlags.set evt_state c.modem_evt;
}

-- `log_bytes` gives the bytes of the `ModemLogMsg` of a text.
unfoldable pub publish_log :
    (List ℕ → List ℕ) → List ℕ → RadioLteChannels → MessageChannelError × RadioLteChannels
unfolding send_message EventFlags.set of_view
publish_log log_bytes line c =
    let (e, q) = send_message (log_bytes (of_view modem_long_str line)) c.modem_log_q in
    (e, record c { modem_log_q = q; modem_evt = posted evt_log e c.modem_evt })

unfoldable pub wait : Mask → Bool → ℕ → Mask → RadioLteChannels → Mask × RadioLteChannels
unfolding EventFlags.wait
wait events reset timeout_ms woken c =
    let (found, word) = EventFlags.wait events reset timeout_ms c.modem_evt woken in
    (found, record c { modem_evt = word })

unfoldable pub clear : Mask → RadioLteChannels → RadioLteChannels
unfolding EventFlags.clear
clear events c = record c { modem_evt = EventFlags.clear events c.modem_evt }

unfoldable pub recv_log :
    ℕ → RadioLteChannels → MessageChannelError × RadioLteChannels × Option (List ℕ)
unfolding receive_message
recv_log size c =
    let (e, q, bytes) = receive_message size c.modem_log_q in
    (e, record c { modem_log_q = q }, bytes)
