-- ===== src/Rpc/Steps.antt =====
-- The steps of a call over the channels: the send, the wait and the read of
-- examples/desktop/app_rpc_server.cpp.
use x_e310_multi_os.Base.{
  ◌≤◌, ℕ, zero, suc, ◌≡◌, refl, ap, sym, ◌∙◌, true, false, ◌&&◌, List, [], ◌∷◌, length, ltb, ◌==◌,
  ==_iff, if◌then◌else◌, some, arith, Bool-cases, inl, inr,
}
use x_e310_multi_os.EventFlags.{Mask, any_bit, matches, flag, no_flags, set, take_flags}
use x_e310_multi_os.EventFlags
use x_e310_multi_os.MessageChannel.{
  MessageChannelError, message_channel_max_data, put_frame, receive, get_frame,
}
use x_e310_multi_os.MessageChannel.Refine.{Holds, full_lem, empty_lem, get_frame-Holds}
use x_e310_multi_os.RadioLte.{
  RequestType, RadioLteChannels, evt_request, evt_response, send_request, recv_response,
  receive_message,
}
use x_e310_multi_os.RadioLte.Values.{Value}
use x_e310_multi_os.RadioLte.Answers.{send_message-Holds}
use x_e310_multi_os.Rpc.Exchange.{
  Desktop, Reader, Reply, modem_ack_timeout_ms, render, submit, await, take_response, exchange,
  read_value,
}
use x_e310_multi_os.Rpc.Calls.{unsent_error, late_error, not_running_error, ask}

any_bit-flag : (n k : ℕ) (w : Mask) → any_bit n (λ i. w i && flag k i) ≡ (ltb k n && w k)
unfolding any_bit
any_bit-flag zero k w = ground arith
any_bit-flag (suc n) k w = elim (Bool-cases (n == k)) [
  | inl same ↦
      let e : n ≡ k = (==_iff n k).0 same in rw (any_bit-flag n k w, same, ap w e) (ground arith)
  | inr other ↦ rw (any_bit-flag n k w, other) (ground arith)
]

matches-response : (w : Mask) → matches w evt_response ≡ w 1
unfolding matches
matches-response w = any_bit-flag 32 1 w

-- A wait that finds the event of a response takes it away.
wait-posted :
    (w : Mask)
    → w 1 ≡ true
    → EventFlags.wait evt_response true 0 w no_flags ≡ take_flags evt_response true w
unfolding EventFlags.wait
wait-posted w h = rw (matches-response w, h) refl

module _ {X : Type 0} (reader : Reader) (turn : ℕ → Desktop X → Desktop X) where
  -- With no request under way the request is sent at once.
  pub submit_sent :
      (bytes : List ℕ) (ms : ℕ) (d : Desktop X)
      → Holds 8 [] d.channels.modem_tx_q
      → length bytes ≤ message_channel_max_data
      → (d₁ : Desktop X) × (submit reader turn bytes ms d ≡ (MessageChannelError.ok, d₁))
        × Holds 8 (bytes ∷ []) d₁.channels.modem_tx_q
        × (d₁.channels.modem_rx_q ≡ d.channels.modem_rx_q)
        × (d₁.channels.modem_evt 1 ≡ d.channels.modem_evt 1)
        × (d₁.network ≡ d.network)
        × (d₁.network_worker_running ≡ d.network_worker_running)
  unfolding submit send_request set
  submit_sent bytes ms d h fits =
      let sent = send_message-Holds 8 [] bytes d.channels.modem_tx_q h (omega arith) fits in
      let d₁ = record d {
        channels = record d.channels {
          modem_tx_q = put_frame d.channels.modem_tx_q bytes;
          modem_evt = set evt_request d.channels.modem_evt;
        };
      } in
      (d₁, rw (full_lem h, sent.0) refl, sent.1, refl, ground arith, refl, refl)

  -- A response that comes while the call waits ends the wait, and its event is taken away.
  pub await-posted :
      (ms : ℕ) (d d₁ : Desktop X)
      → d.channels.modem_evt 1 ≡ false
      → turn ms d ≡ d₁
      → d₁.channels.modem_evt 1 ≡ true
      → (evt : Mask) × (await reader turn evt_response ms d
          ≡ (true, record d₁ { channels = record d₁.channels { modem_evt = evt } }))
        × (evt 1 ≡ false)
  unfolding await take_flags
  await-posted ms d d₁ no_event turned posted = (
    (take_flags evt_response true d₁.channels.modem_evt).1,
    rw (matches-response d.channels.modem_evt, no_event, turned)
        (rw (wait-posted d₁.channels.modem_evt posted)
          (ap (λ found. (found, left)) (matches-response matched ∙ rw posted refl))),
    rw posted refl,
  )
    where
      matched : Mask
      matched i = d₁.channels.modem_evt i && flag 1 i

      left : Desktop X
      left = record d₁ {
        channels = record d₁.channels {
          modem_evt = (take_flags evt_response true d₁.channels.modem_evt).1;
        };
      }

  -- A response that was announced before is there at once.
  pub await_ready :
      (ms : ℕ) (d : Desktop X)
      → d.channels.modem_evt 1 ≡ true
      → (evt : Mask) × (await reader turn evt_response ms d
          ≡ (true, record d { channels = record d.channels { modem_evt = evt } }))
        × (evt 1 ≡ false)
  unfolding await take_flags
  await_ready ms d posted = (
    (take_flags evt_response true d.channels.modem_evt).1,
    rw (matches-response d.channels.modem_evt, posted)
        (rw (wait-posted d.channels.modem_evt posted)
          (ap (λ found. (found, left)) (matches-response matched ∙ rw posted refl))),
    rw posted refl,
  )
    where
      matched : Mask
      matched i = d.channels.modem_evt i && flag 1 i

      left : Desktop X
      left = record d {
        channels = record d.channels {
          modem_evt = (take_flags evt_response true d.channels.modem_evt).1;
        };
      }

  take_response-first :
      (bytes : List ℕ) (d : Desktop X)
      → Holds 8 (bytes ∷ []) d.channels.modem_rx_q
      → take_response reader turn (length bytes) d ≡ (
        some bytes,
        record d {
          channels = record d.channels { modem_rx_q = (get_frame d.channels.modem_rx_q).1 };
        },
      )
  unfolding take_response receive_message recv_response receive
  take_response-first bytes d h =
      let front : d.channels.modem_rx_q.buffer d.channels.modem_rx_q.head ≡ bytes =
        cc ((get_frame-Holds bytes [] h).0) in
      rw (take_response, empty_lem h, front, (==_iff (length bytes) (length bytes)).1 refl) refl

  pub read_value-first :
      (type : RequestType) (bytes : List ℕ) (v : Value) (d : Desktop X)
      → Holds 8 (bytes ∷ []) d.channels.modem_rx_q
      → length bytes ≡ reader.response_size type
      → reader.response_of type bytes ≡ (true, v)
      → (rest : RadioLteChannels) × (read_value reader turn type d
          ≡ ((true, render reader.one_decimal v), record d { channels = rest }))
        × Holds 8 [] rest.modem_rx_q
        × (rest.modem_tx_q ≡ d.channels.modem_tx_q)
        × (rest.modem_evt ≡ d.channels.modem_evt)
  unfolding read_value
  read_value-first type bytes v d h size decoded =
      let got = get_frame-Holds bytes [] h in
      let taken = take_response-first bytes d h in
      (
        record d.channels { modem_rx_q = (get_frame d.channels.modem_rx_q).1 },
        rw (read_value, sym size, taken, decoded, sym size, taken) refl,
        got.1,
        refl,
        refl,
      )

module _ {X : Type 0} (reader : Reader) (turn : ℕ → Desktop X → Desktop X) where
  -- The steps of an exchange that goes well.
  exchange-answers :
      (unsent late bytes : List ℕ) (send_ms wait_ms : ℕ) (respond : Desktop X → Reply × Desktop X)
      (d d₁ d₂ d₃ : Desktop X) (reply : Reply)
      → submit reader turn bytes send_ms d ≡ (MessageChannelError.ok, d₁)
      → await reader turn evt_response wait_ms d₁ ≡ (true, d₂)
      → respond d₂ ≡ (reply, d₃)
      → exchange reader turn unsent late bytes send_ms wait_ms respond d ≡ (reply, d₃)
  unfolding exchange
  exchange-answers unsent late bytes send_ms wait_ms respond d d₁ d₂ d₃ reply sent found responded =
      rw (exchange, sent, sent, found, responded) refl

  pub ask-answers :
      (type : RequestType) (timeout_ms : ℕ) (respond : Desktop X → Reply × Desktop X)
      (d d₁ d₂ d₃ : Desktop X) (reply : Reply)
      → d.network_worker_running ≡ true
      → submit reader turn (reader.request_bytes type 0 0) timeout_ms d
        ≡ (MessageChannelError.ok, d₁)
      → await reader turn evt_response modem_ack_timeout_ms d₁ ≡ (true, d₂)
      → respond d₂ ≡ (reply, d₃)
      → ask reader turn type 0 0 timeout_ms respond d ≡ (reply, d₃)
  unfolding ask
  ask-answers type timeout_ms respond d d₁ d₂ d₃ reply running sent found responded =
      let frame = reader.request_bytes type 0 0 in
      let asking =
        exchange reader turn unsent_error late_error frame timeout_ms modem_ack_timeout_ms respond
          d in
      ap (λ b. if b then asking else ((false, not_running_error), d)) running
      ∙ exchange-answers unsent_error late_error frame timeout_ms modem_ack_timeout_ms respond d d₁
          d₂ d₃ reply sent found responded
