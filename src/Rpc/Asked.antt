-- ===== src/Rpc/Asked.antt =====
-- A question of a remote call and its answer, from the call over the channels and the network thread
-- and back (examples/desktop/app_rpc_server.cpp, src/i_radio_lte.cpp).
use x_e310_multi_os.Base.{◌≤◌, ℕ, ◌≡◌, refl, ap, ◌∙◌, true, [], ◌∷◌, length, arith}
use x_e310_multi_os.MessageChannel.{message_channel_max_data}
use x_e310_multi_os.MessageChannel.Refine.{Holds}
use x_e310_multi_os.NetworkLte.State.{NetworkLte}
use x_e310_multi_os.RadioLte.{RequestType}
use x_e310_multi_os.RadioLte.Values.{Value}
use x_e310_multi_os.RadioLte.Requests.{Layout}
use x_e310_multi_os.Rpc.Exchange.{Desktop, Reader, modem_ack_timeout_ms, render, read_value}
use x_e310_multi_os.Rpc.Calls.{respond_to, request_radio_state}
use x_e310_multi_os.Rpc.Questions.{is_question, Agrees}
use x_e310_multi_os.Rpc.Steps.{submit_sent, await_ready, read_value-first, ask-answers}

pub respond_to-question :
    {X : Type 0} (reader : Reader) (turn : ℕ → Desktop X → Desktop X) (type : RequestType)
    (timeout_ms : ℕ) (d : Desktop X)
    → is_question type ≡ true
    → respond_to reader turn type 0 timeout_ms d ≡ read_value reader turn type d
unfolding respond_to
respond_to-question reader turn RequestType.scan_networks timeout_ms d h = cc
respond_to-question reader turn RequestType.get_server_info_array timeout_ms d h = cc
respond_to-question reader turn RequestType.set_config timeout_ms d h = cc
respond_to-question reader turn RequestType.network_connect timeout_ms d h = cc
respond_to-question reader turn RequestType.network_disconnect timeout_ms d h = cc
respond_to-question reader turn RequestType.server_connect timeout_ms d h = cc
respond_to-question reader turn RequestType.server_disconnect timeout_ms d h = cc
respond_to-question reader turn RequestType.force_psm timeout_ms d h = cc
respond_to-question reader turn RequestType.acquire_gnss_position timeout_ms d h = cc
respond_to-question reader turn _ timeout_ms d h = refl

module _ {X : Type 0} (layout : Layout) (reader : Reader) (turn : ℕ → Desktop X → Desktop X)
    (type : RequestType) where
  -- A response that came too late for its own call, with its event posted, is taken for the answer
  -- to the next call that asks a question, if no request waits and the network thread runs, and if
  -- its bytes are those that both sides agree on for some value of the type that the next call asks
  -- for, the size included: that call gives this value, whatever the machine has by then and
  -- whatever the other threads do, and its own request is still waiting when it returns.
  pub request_radio_state-late :
      (old : Value) (timeout_ms : ℕ) (d : Desktop X)
      → is_question type ≡ true
      → Agrees layout reader type old
      → d.network_worker_running ≡ true
      → Holds 8 [] d.channels.modem_tx_q
      → Holds 8 (layout.response old ∷ []) d.channels.modem_rx_q
      → d.channels.modem_evt 1 ≡ true
      → (d' : Desktop X) × (request_radio_state reader turn type 0 0 timeout_ms d
          ≡ ((true, render reader.one_decimal old), d'))
        × Holds 8 (reader.request_bytes type 0 0 ∷ []) d'.channels.modem_tx_q
        × (d'.network ≡ d.network)
  unfolding request_radio_state
  request_radio_state-late old timeout_ms d question a running h r posted =
      let frame = reader.request_bytes type 0 0 in
      let fits : length frame ≤ message_channel_max_data =
        omega (arith, ap length a.request, a.request_size, a.request_fits) in
      let (d₁, sent, requests, kept, kept_evt, same, still) =
        submit_sent reader turn frame timeout_ms d h fits in
      let (evt, found, taken) =
        await_ready reader turn modem_ack_timeout_ms d₁ (kept_evt ∙ posted) in
      let d₂ = record d₁ { channels = record d₁.channels { modem_evt = evt } } in
      let (rest, reply, empty_now, no_requests, same_evt) =
        read_value-first reader turn type (layout.response old) old d₂ (rw kept r) a.response_size
          a.read_back in
      (
        record d₂ { channels = rest },
        ask-answers reader turn type timeout_ms (respond_to reader turn type 0 timeout_ms) d d₁ d₂
            (record d₂ { channels = rest }) (true, render reader.one_decimal old) running sent found
            (respond_to-question reader turn type timeout_ms d₂ question ∙ reply),
        rw no_requests requests,
        same,
      )
