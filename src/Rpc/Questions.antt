-- ===== src/Rpc/Questions.antt =====
-- What the network thread does with a question of a remote call (src/i_radio_lte.cpp), and what both
-- sides agree on.
use x_e310_multi_os.Base.{
  ◌≤◌, ℕ, suc, ◌≡◌, refl, ap, ◌∙◌, Bool, true, false, List, [], ◌∷◌, length, ◌==◌, ==_iff, some,
  arith,
}
use x_e310_multi_os.MessageChannel.{message_channel_max_data}
use x_e310_multi_os.MessageChannel.Refine.{Holds}
use x_e310_multi_os.Modem.Interface.{Xe310}
use x_e310_multi_os.NetworkLte.State.{NetworkLte}
use x_e310_multi_os.NetworkLte.Modes.{refresh_clock}
use x_e310_multi_os.RadioLte.{
  RequestType, request_type_of, RadioLteChannels, recv_request_frame, publish_typed_response,
}
use x_e310_multi_os.RadioLte.Values.{Value, value_of}
use x_e310_multi_os.RadioLte.Requests.{
  Layout, answer, job_of, request_job, do_job, process_radio_requests, has_own_message,
}
use x_e310_multi_os.RadioLte.Drain.{recv-empty, recv-front}
use x_e310_multi_os.RadioLte.Answers.{publish_typed_response-sent}
use x_e310_multi_os.Rpc.Exchange.{Desktop, Reader}

-- The requests that ask for a value that an accessor gives.
abbrev pub is_question : RequestType → Bool
is_question RequestType.scan_networks = false
is_question RequestType.get_server_info_array = false
is_question RequestType.set_config = false
is_question RequestType.network_connect = false
is_question RequestType.network_disconnect = false
is_question RequestType.server_connect = false
is_question RequestType.server_disconnect = false
is_question RequestType.force_psm = false
is_question RequestType.acquire_gnss_position = false
is_question _ = true

-- The machine when the value is read: the clock is asked for first.
abbrev pub asked : {X : Type 0} → Xe310 X → RequestType → NetworkLte X → NetworkLte X
unfolding refresh_clock
asked m RequestType.get_clock s = refresh_clock m s
asked m _ s = s

-- Both sides agree on the bytes of a request and of the response to it, which fit a frame.
pub record Agrees (layout : Layout) (reader : Reader) (type : RequestType) (value : Value)
    : Type 0 where
  pub first : ℕ
  pub others : List ℕ
  pub request : reader.request_bytes type 0 0 ≡ first ∷ others
  pub named : request_type_of first ≡ some type
  pub request_size : length (first ∷ others) ≡ layout.tx_msg_size
  pub request_fits : layout.tx_msg_size ≤ message_channel_max_data
  pub response_size : length (layout.response value) ≡ reader.response_size type
  pub response_fits : reader.response_size type ≤ message_channel_max_data
  pub read_back : reader.response_of type (layout.response value) ≡ (true, value)

-- No request and no response is under way.
pub record Quiet {X : Type 0} (d : Desktop X) : Type 0 where
  pub requests : Holds 8 [] d.channels.modem_tx_q
  pub responses : Holds 8 [] d.channels.modem_rx_q
  pub silent : d.channels.modem_evt 1 ≡ false
  pub running : d.network_worker_running ≡ true

job_of-question :
    {X : Type 0} (m : Xe310 X) (layout : Layout) (rounds fuel : ℕ) (type : RequestType)
    (frame : List ℕ) (s : NetworkLte X)
    → is_question type ≡ true
    → job_of m layout rounds fuel (some type) frame s
      ≡ answer (layout.response (value_of type (asked m type s))) (asked m type s)
unfolding job_of
job_of-question m layout rounds fuel RequestType.scan_networks frame s h = cc
job_of-question m layout rounds fuel RequestType.get_server_info_array frame s h = cc
job_of-question m layout rounds fuel RequestType.set_config frame s h = cc
job_of-question m layout rounds fuel RequestType.network_connect frame s h = cc
job_of-question m layout rounds fuel RequestType.network_disconnect frame s h = cc
job_of-question m layout rounds fuel RequestType.server_connect frame s h = cc
job_of-question m layout rounds fuel RequestType.server_disconnect frame s h = cc
job_of-question m layout rounds fuel RequestType.force_psm frame s h = cc
job_of-question m layout rounds fuel RequestType.acquire_gnss_position frame s h = cc
job_of-question m layout rounds fuel RequestType.get_clock frame s h = refl
job_of-question m layout rounds fuel _ frame s h = refl

has_own-question :
    (type : RequestType) → is_question type ≡ true → has_own_message (some type) ≡ false
unfolding has_own_message
has_own-question RequestType.set_config h = cc
has_own-question RequestType.server_connect h = cc
has_own-question _ h = refl

module _ {X : Type 0} (m : Xe310 X) (layout : Layout) (rounds fuel : ℕ) (reader : Reader)
    (type : RequestType) (question : is_question type ≡ true) where
  request_job-question :
      (s : NetworkLte X) (frame : List ℕ)
      → Agrees layout reader type (value_of type (asked m type s))
      → reader.request_bytes type 0 0 ≡ frame
      → request_job m layout rounds fuel frame s
        ≡ answer (layout.response (value_of type (asked m type s))) (asked m type s)
  unfolding request_job
  request_job-question s [] a e = absurd (cc (e, a.request))
  request_job-question s (byte ∷ bytes) a e =
      let whole : byte ∷ bytes ≡ a.first ∷ a.others = cc (e, a.request) in
      let same : byte ≡ a.first = cc whole in
      let named : request_type_of byte ≡ some type = rw same a.named in
      let sized : (length (byte ∷ bytes) == layout.tx_msg_size) ≡ true =
        (==_iff _ _).1 (ap length whole ∙ a.request_size) in
      rw (named, has_own-question type question, sized)
        (job_of-question m layout rounds fuel type (byte ∷ bytes) s question)

  -- One pass handles the request, and the next finds none.
  pub serve :
      (passes : ℕ) (frame : List ℕ) (c : RadioLteChannels) (s : NetworkLte X)
      → Agrees layout reader type (value_of type (asked m type s))
      → reader.request_bytes type 0 0 ≡ frame
      → Holds 8 (frame ∷ []) c.modem_tx_q
      → Holds 8 [] c.modem_rx_q
      → let bytes = layout.response (value_of type (asked m type s)) in
        (c' : RadioLteChannels) × (process_radio_requests m layout rounds fuel
            (suc (suc passes))
            c
            s
          ≡ some (c', asked m type s))
        × Holds 8 [] c'.modem_tx_q
        × Holds 8 (bytes ∷ []) c'.modem_rx_q
        × (c'.modem_evt 1 ≡ true)
  unfolding process_radio_requests do_job publish_typed_response
  serve passes frame c s a e h r =
      let bytes = layout.response (value_of type (asked m type s)) in
      let got = recv-front 8 frame [] c h in
      let c₁ = (recv_request_frame c).1 in
      let kept : c₁.modem_rx_q ≡ c.modem_rx_q = unfold recv_request_frame in refl in
      let r₁ : Holds 8 [] c₁.modem_rx_q = rw kept r in
      let sent =
        publish_typed_response-sent 8 [] bytes c₁ r₁ (omega arith)
          (omega (arith, a.response_size, a.response_fits)) in
      let c₂ = (publish_typed_response bytes c₁).1 in
      let none_left = recv-empty 8 c₂ (got.1) in
      (
        c₂,
        rw
            (
              process_radio_requests,
              got.0,
              request_job-question s frame a e,
              process_radio_requests,
              none_left.0,
              none_left.1,
            )
            refl,
        got.1,
        sent.0,
        sent.1,
      )
