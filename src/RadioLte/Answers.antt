-- ===== src/RadioLte/Answers.antt =====
-- What the other threads find after a request (src/i_radio_lte.cpp, include/modem/i_radio_lte.h).
use x_e310_multi_os.Base.{
  sym, ℕ, ◌+◌, ◌≤◌, ◌<◌, ◌≡◌, refl, ◌∙◌, Bool, true, false, List, [], ◌∷◌, ◌++◌, append_assoc,
  length, length-append, leb, ltb, Option, none, some, take-all, arith,
}
use x_e310_multi_os.EventFlags.{set}
use x_e310_multi_os.MessageChannel.{
  Channel, MessageChannelError, send, bad_size, put_frame, message_channel_max_data,
}
use x_e310_multi_os.MessageChannel.Fifo.{Fifo}
use x_e310_multi_os.MessageChannel.Refine.{Holds, full_lem, put_frame-Holds, count_lem}
use x_e310_multi_os.Modem.Interface.{Xe310}
use x_e310_multi_os.NetworkLte.State.{NetworkLte}
use x_e310_multi_os.RadioLte.{
  RequestType, RadioLteChannels, publish_typed_response, publish_action_complete, send_message,
}
use x_e310_multi_os.RadioLte.Values.{Value}
use x_e310_multi_os.RadioLte.Requests.{Layout, Job, refuse, answer, start, do_job}

-- A message that fits a frame is sent, if there is room.
pub send_message-Holds :
    (capacity : ℕ) (q : Fifo) (bytes : List ℕ) (ch : Channel)
    → Holds capacity q ch
    → length q < capacity
    → length bytes ≤ message_channel_max_data
    → (send_message bytes ch ≡ (MessageChannelError.ok, put_frame ch bytes))
      × Holds capacity (q ++ (bytes ∷ [])) (put_frame ch bytes)
unfolding send_message send bad_size
send_message-Holds capacity q bytes ch h room fits =
    let small : ltb message_channel_max_data (length bytes) ≡ false = ground arith in
    let space : leb ch.capacity ch.count ≡ false = full_lem h ∙ ground arith in
    (
      rw (small, space, take-all (length bytes) bytes (omega arith)) refl,
      put_frame-Holds bytes h (omega (arith, count_lem h)),
    )

pub publish_typed_response-sent :
    (capacity : ℕ) (q : Fifo) (bytes : List ℕ) (c : RadioLteChannels)
    → Holds capacity q c.modem_rx_q
    → length q < capacity
    → length bytes ≤ message_channel_max_data
    → Holds capacity (q ++ (bytes ∷ [])) (publish_typed_response bytes c).1.modem_rx_q
      × ((publish_typed_response bytes c).1.modem_evt 1 ≡ true)
unfolding publish_typed_response set
publish_typed_response-sent capacity q bytes c h room fits =
    let sent = send_message-Holds capacity q bytes c.modem_rx_q h room fits in
    rw (sent.0) (sent.1, ground arith)

publish_action_complete-sent :
    (capacity : ℕ) (q : Fifo) (bytes : List ℕ) (c : RadioLteChannels)
    → Holds capacity q c.modem_rx_q
    → length q < capacity
    → length bytes ≤ message_channel_max_data
    → c.modem_evt 1 ≡ true
    → Holds capacity (q ++ (bytes ∷ [])) (publish_action_complete bytes c).modem_rx_q
      × ((publish_action_complete bytes c).modem_evt 1 ≡ true)
unfolding publish_action_complete set
publish_action_complete-sent capacity q bytes c h room fits posted =
    let sent = send_message-Holds capacity q bytes c.modem_rx_q h room fits in
    rw (sent.0) (sent.1, ground arith)

-- The replies to a job, in their order.
abbrev pub action_replies :
    {X : Type 0} → Layout → RequestType → Option (Bool × NetworkLte X) → Fifo
action_replies layout type none = layout.response (Value.flag true) ∷ []
action_replies layout type (some (res, s)) =
    layout.response (Value.flag true) ∷ layout.action_complete type res ∷ []

abbrev pub replies_of : {X : Type 0} → Layout → Job X → NetworkLte X → Fifo
replies_of layout refuse s = layout.response (Value.flag false) ∷ []
replies_of layout (answer bytes s₁) s = bytes ∷ []
replies_of layout (start type act) s = action_replies layout type (act s)

abbrev pub AllFit : Fifo → Type 0
AllFit [] = Unit {0}
AllFit (f ∷ fs) = (length f ≤ message_channel_max_data) × AllFit fs

module _ {X : Type 0} (m : Xe310 X) (layout : Layout) (rounds fuel : ℕ) where
  start-answers :
      (capacity : ℕ) (q : Fifo) (type : RequestType)
      (act : NetworkLte X → Option (Bool × NetworkLte X)) (c : RadioLteChannels) (s : NetworkLte X)
      (r : RadioLteChannels × NetworkLte X) (ended : Option (Bool × NetworkLte X))
      → act s ≡ ended
      → do_job m layout rounds fuel (start type act) c s ≡ some r
      → Holds capacity q c.modem_rx_q
      → AllFit (action_replies layout type ended)
      → length q + length (action_replies layout type ended) ≤ capacity
      → Holds capacity (q ++ action_replies layout type ended) r.0.modem_rx_q
        × (r.0.modem_evt 1 ≡ true)
  unfolding do_job
  start-answers capacity q type act c s r none e done h fits room =
      let nothing : do_job m layout rounds fuel (start type act) c s ≡ none = rw (e, do_job) refl in
      absurd (cc (nothing, done))
  start-answers capacity q type act c s r (some (res, s₁)) e done h (fits, (fits', last)) room =
      let ack = layout.response (Value.flag true) in
      let end = layout.action_complete type res in
      let c₁ = (publish_typed_response ack c).1 in
      let ended : do_job m layout rounds fuel (start type act) c s
          ≡ some (publish_action_complete end c₁, s₁) =
        rw (e, do_job) refl in
      let same : r ≡ (publish_action_complete end c₁, s₁) = cc (ended, done) in
      let first = publish_typed_response-sent capacity q ack c h (omega arith) fits in
      let second =
        publish_action_complete-sent capacity (q ++ (ack ∷ [])) end c₁ first.0
          (omega (arith, length-append q (ack ∷ []))) fits' first.1 in
      rw (same, sym (append_assoc q (ack ∷ []) (end ∷ []))) second

  -- A request that is handled is answered: the replies to it stand at the end of the responses, in
  -- their order, and the event of a response is posted, if each reply fits a frame and there is room
  -- for them.
  pub do_job-answers :
      (capacity : ℕ) (q : Fifo) (job : Job X) (c : RadioLteChannels) (s : NetworkLte X)
      (r : RadioLteChannels × NetworkLte X)
      → do_job m layout rounds fuel job c s ≡ some r
      → Holds capacity q c.modem_rx_q
      → AllFit (replies_of layout job s)
      → length q + length (replies_of layout job s) ≤ capacity
      → Holds capacity (q ++ replies_of layout job s) r.0.modem_rx_q × (r.0.modem_evt 1 ≡ true)
  unfolding do_job
  do_job-answers capacity q refuse c s r done h (fits, last) room =
      let same : r ≡ ((publish_typed_response (layout.response (Value.flag false)) c).1, s) =
        cc done in
      rw same (
        publish_typed_response-sent capacity q (layout.response (Value.flag false)) c h
          (omega arith) fits)
  do_job-answers capacity q (answer bytes s₁) c s r done h (fits, last) room =
      let same : r ≡ ((publish_typed_response bytes c).1, s₁) = cc done in
      rw same (publish_typed_response-sent capacity q bytes c h (omega arith) fits)
  do_job-answers capacity q (start type act) c s r done h fits room =
      start-answers capacity q type act c s r (act s) refl done h fits room
