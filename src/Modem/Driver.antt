-- ===== src/Modem/Driver.antt =====
-- The commands of src/xe310.cpp that read an answer, and the whole class as the interface that the
-- state machine takes.
use x_e310_multi_os.Base.{
  ◌==◌, ◌&&◌, if◌then◌else◌, ℕ, Bool, false, List, [], ◌∷◌, ◌++◌, codes, show, before, length,
}
use x_e310_multi_os.FixedString.{of_view}
use x_e310_multi_os.ModemController.Port.{Uart}
use x_e310_multi_os.ModemController.Retry.{Gives}
use x_e310_multi_os.Modem.Types.{
  ModemStatus, RadioTech, RegistrationInfo, SignalQuality, TelitCpsmsStatus, Operator, GnssPosition,
}
use x_e310_multi_os.Modem.Configs.{
  SimStatus, SoftwarePackageVersion, CpsmsConfig, BandConfig, PdpAddresses, CsurvResult,
  NetworkSurveyResult,
}
use x_e310_multi_os.Modem.Interface.{Xe310}
use x_e310_multi_os.Modem.Lines.{Line}
use x_e310_multi_os.Modem.Device.{Device, exchange, query, run, poll_urcs, delay_ms, now}
use x_e310_multi_os.Modem.Parse.Info
use x_e310_multi_os.Modem.Parse.Psm
use x_e310_multi_os.Modem.Parse.Network
use x_e310_multi_os.Modem.Parse.Operators
use x_e310_multi_os.Modem.Parse.Data
use x_e310_multi_os.Modem.Parse.Survey
use x_e310_multi_os.Modem.Parse.NetworkSurvey

abbrev pub ask : List ℕ → Line
ask text = (text, 5000)

-- A command with a number at its end, printed into `size` bytes.
abbrev pub ask_for : ℕ → List ℕ → ℕ → Line
unfolding of_view show
ask_for size text n = ask (of_view size (text ++ show n))

-- GSM has its own command.
abbrev pub registration_query : RadioTech → Line
registration_query RadioTech.gsm = ask (codes "AT+CREG?")
registration_query _ = ask (codes "AT+CEREG?")

unfoldable pub receive_query : ℕ → ℕ → Line
unfolding of_view show
receive_query conn_id max_bytes =
    ask (of_view 63 (codes "AT#SRECV=" ++ show conn_id ++ b',' ∷ show max_bytes))

-- Both bounds 0 stand for all channels.
unfoldable pub survey_query : ℕ → ℕ → Line
unfolding of_view show
survey_query start_ch end_ch =
    if start_ch == 0 && end_ch == 0
    then (codes "AT#CSURV", 120000)
    else (of_view 63 (codes "AT#CSURV=" ++ show start_ch ++ b',' ∷ show end_ch), 120000)

-- The same for `network_survey`.
unfoldable pub network_survey_query : ℕ → ℕ → Line
unfolding of_view show
network_survey_query start_ch end_ch =
    if start_ch == 0 && end_ch == 0
    then (codes "AT#CSURVC", 120000)
    else (of_view 63 (codes "AT#CSURVC=" ++ show start_ch ++ b',' ∷ show end_ch), 120000)

unfoldable pub sim_query : List ℕ → Line
unfolding of_view show before
sim_query command = ask (
    of_view 255
      (codes "AT+CSIM=" ++ show (length command) ++ codes ",\"" ++ before 0 command ++ 34 ∷ []))

module _ {U : Type 0} (uart : Uart U) (gives : Gives uart) (guard : ℕ → Bool) where
  abbrev pub Query : Type 0 → Type 0
  Query A = A → Device U → ModemStatus × A × Device U

  unfoldable pub request_imei_sv : Query (List ℕ)
  request_imei_sv = query uart gives guard (ask (codes "AT+IMEISV")) Info.parse_imei_sv

  unfoldable pub request_model_id : Query (List ℕ)
  request_model_id = query uart gives guard (ask (codes "AT#CGMM")) Info.parse_model_id

  unfoldable pub request_sw_package_version : Query SoftwarePackageVersion
  request_sw_package_version =
      query uart gives guard (ask (codes "AT#SWPKGV")) Info.parse_sw_package_version

  unfoldable pub request_telit_id : Query (List ℕ)
  request_telit_id = query uart gives guard (ask (codes "AT#TID")) Info.parse_telit_id

  unfoldable pub request_identification : Query (List ℕ)
  request_identification = query uart gives guard (ask (codes "ATI")) Info.parse_identification

  unfoldable pub get_imei : Query (List ℕ)
  get_imei = query uart gives guard (ask (codes "AT+CGSN")) Info.parse_imei

  unfoldable pub get_clock : Query (List ℕ)
  get_clock = query uart gives guard (ask (codes "AT+CCLK?")) Info.parse_clock

  unfoldable pub read_iccid : Query (List ℕ)
  read_iccid = query uart gives guard (ask (codes "AT#CCID")) Info.parse_iccid

  unfoldable pub read_imsi : Query (List ℕ)
  read_imsi = query uart gives guard (ask (codes "AT+CIMI")) Info.parse_imsi

  unfoldable pub query_sim_status : Query SimStatus
  query_sim_status = query uart gives guard (ask (codes "AT#QSS?")) Info.parse_sim_status

  unfoldable pub send_sim_command : List ℕ → Query (List ℕ)
  send_sim_command command = query uart gives guard (sim_query command) Info.parse_answer

  unfoldable pub get_psm : Query CpsmsConfig
  get_psm = query uart gives guard (ask (codes "AT+CPSMS?")) Psm.parse_psm

  unfoldable pub get_telit_psm : Query TelitCpsmsStatus
  get_telit_psm = query uart gives guard (ask (codes "AT#CPSMS?")) Psm.parse_telit_psm

  unfoldable pub get_psm_urc : Query Bool
  get_psm_urc = query uart gives guard (ask (codes "AT#PSMURC?")) Psm.parse_psm_urc

  unfoldable pub get_iot_tech : Query (RadioTech × ℕ)
  get_iot_tech = query uart gives guard (ask (codes "AT#WS46?")) Network.parse_iot_tech

  unfoldable pub get_bands : Query BandConfig
  get_bands = query uart gives guard (ask (codes "AT#BND?")) Network.parse_bands

  unfoldable pub get_registration_status : RadioTech → Query RegistrationInfo
  get_registration_status tech =
      query uart gives guard (registration_query tech) Network.parse_registration

  unfoldable pub get_signal_quality : Query SignalQuality
  get_signal_quality = query uart gives guard (ask (codes "AT+CESQ")) Network.parse_signal_quality

  unfoldable pub get_operator : Query (List ℕ)
  get_operator = query uart gives guard (ask (codes "AT+COPS?")) Network.parse_operator

  unfoldable pub get_available_operators : Query (List Operator)
  get_available_operators =
      query uart gives guard (codes "AT+COPS=?", 210000) Operators.parse_available_operators

  -- The numeric output format is set first; a refusal ends the scan.
  unfoldable pub scan_networks : ℕ → ℕ → Query CsurvResult
  scan_networks start_ch end_ch old d =
      let (status, d₁) = exchange uart gives guard (ask (codes "AT#CSURVF=2")) d in
      elim status [
        | ModemStatus.ok ↦
            query uart gives guard (survey_query start_ch end_ch) Survey.parse_survey old d₁
        | refused ↦ (refused, old, d₁)
      ]

  unfoldable pub network_survey : NetworkSurvey.Floats → ℕ → ℕ → Query NetworkSurveyResult
  network_survey floats start_ch end_ch =
      query uart gives guard (network_survey_query start_ch end_ch)
        (NetworkSurvey.parse_network_survey floats)

  unfoldable pub get_apn : ℕ → Query (List ℕ)
  get_apn cid = query uart gives guard (ask (codes "AT+CGDCONT?")) (Network.parse_apn cid)

  unfoldable pub get_pdp_state : ℕ → Query Bool
  get_pdp_state cid = query uart gives guard (ask (codes "AT#SGACT?")) (Data.parse_pdp_state cid)

  unfoldable pub get_ip_address : ℕ → Query (List ℕ)
  get_ip_address cid =
      query uart gives guard (ask_for 31 (codes "AT+CGPADDR=") cid) Data.parse_ip_address

  unfoldable pub get_pdp_info : ℕ → Query PdpAddresses
  get_pdp_info cid =
      query uart gives guard (ask_for 31 (codes "AT+CGCONTRDP=") cid) Data.parse_pdp_info

  unfoldable pub udp_receive : ℕ → ℕ → Query (List ℕ)
  udp_receive conn_id max_bytes =
      query uart gives guard (receive_query conn_id max_bytes) Data.parse_udp_receive

  unfoldable pub udp_status : ℕ → Query ℕ
  udp_status conn_id =
      query uart gives guard (ask_for 31 (codes "AT#SS=") conn_id) Data.parse_udp_status

  unfoldable pub send_at_command : List ℕ → ℕ → Query (List ℕ)
  send_at_command command timeout_ms =
      query uart gives guard (command, timeout_ms) Info.parse_answer

  -- The out parameter is set to false first.
  unfoldable pub is_gnss_powered : Device U → ModemStatus × Bool × Device U
  is_gnss_powered = query uart gives guard (ask (codes "AT$GPSP?")) Data.parse_gnss_powered false

  unfoldable pub get_gnss_position : Query GnssPosition
  get_gnss_position = query uart gives guard (ask (codes "AT$GPSACP")) Data.parse_gnss_position

module _ {U : Type 0} (uart : Uart U) (gives : Gives uart) (guard : ℕ → Bool)
    (delay : ℕ → U → U) where
  -- The class as the state machine sees it: of the bands it reads the LTE mask, of the technology
  -- not the priority, and it receives with the default maximum.
  unfoldable pub driver : Xe310 (Device U)
  driver = record {
    now = now uart;
    delay_ms = delay_ms delay;
    last_status = λ d. d.last_status;
    poll_urc = poll_urcs uart gives guard;
    run = run uart gives guard delay;
    get_clock = get_clock uart gives guard;
    get_signal_quality = get_signal_quality uart gives guard;
    get_operator = get_operator uart gives guard;
    get_apn = get_apn uart gives guard;
    get_telit_psm = get_telit_psm uart gives guard;
    get_registration_status = λ old tech. get_registration_status uart gives guard tech old;
    get_iot_tech = λ old d.
        let (status, (tech, priority), d₁) = get_iot_tech uart gives guard (old, 0) d in
        (status, tech, d₁);
    get_lte_bands = λ old d.
        let (status, bands, d₁) =
          get_bands uart gives guard
            (record {
              gsm_mask = 0;
              umts_mask = 0;
              lte_mask = old;
              tdscdma_mask = 0;
              lte_mask_over_64 = 0;
            })
            d in
        (status, bands.lte_mask, d₁);
    get_pdp_state = get_pdp_state uart gives guard;
    get_ip_address = get_ip_address uart gives guard;
    udp_status = udp_status uart gives guard;
    udp_receive = λ conn_id. udp_receive uart gives guard conn_id 1500;
    is_gnss_powered = is_gnss_powered uart gives guard;
    get_gnss_position = get_gnss_position uart gives guard;
    get_available_operators = get_available_operators uart gives guard;
    scan_networks = λ start_ch end_ch. scan_networks uart gives guard start_ch end_ch;
    send_at_command =
        λ command old timeout_ms. send_at_command uart gives guard command timeout_ms old;
  }
