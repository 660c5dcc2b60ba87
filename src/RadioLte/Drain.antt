-- ===== src/RadioLte/Drain.antt =====
-- What `process_radio_requests` of src/i_radio_lte.cpp leaves of the requests that wait.
use x_e310_multi_os.Base.{
  ◌&&◌, not, ◌<◌, ℕ, zero, suc, ◌≡◌, refl, Bool, true, false, List, [], ◌∷◌, length, ◌==◌,
  if◌then◌else◌, Option, none, some, is_some, arith, Option-cases, inl, inr,
}
use x_e310_multi_os.MessageChannel.{receive}
use x_e310_multi_os.MessageChannel.Fifo.{Fifo}
use x_e310_multi_os.MessageChannel.Refine.{Holds, empty_lem, get_frame-Holds}
use x_e310_multi_os.Modem.Interface.{Xe310}
use x_e310_multi_os.NetworkLte.State.{NetworkLte}
use x_e310_multi_os.RadioLte.{
  RequestType, request_type_of, RadioLteChannels, recv_request_frame, publish_typed_response,
  publish_action_complete,
}
use x_e310_multi_os.RadioLte.Values.{Value}
use x_e310_multi_os.RadioLte.Requests.{
  Layout, Job, refuse, answer, start, job_of, request_job, do_job, process_radio_requests,
  has_own_message,
}

-- The requests that do not drive the machine to a state: all but `network_connect` and
-- `acquire_gnss_position`.
abbrev pub is_prompt_type : Option RequestType → Bool
is_prompt_type (some RequestType.network_connect) = false
is_prompt_type (some RequestType.acquire_gnss_position) = false
is_prompt_type _ = true

abbrev pub is_prompt : List ℕ → Bool
unfolding request_type_of
is_prompt [] = true
is_prompt (byte ∷ bytes) = is_prompt_type (request_type_of byte)

abbrev pub all_prompt : Fifo → Bool
unfolding request_type_of
all_prompt [] = true
all_prompt (f ∷ q) = if is_prompt f then all_prompt q else false

-- The job is done at once.
abbrev Returns : {X : Type 0} → Job X → Type 0
Returns refuse = Unit {0}
Returns (answer bytes s) = Unit {0}
Returns {X} (start type act) = (s : NetworkLte X) → is_some (act s) ≡ true

module _ {X : Type 0} (m : Xe310 X) (layout : Layout) (rounds fuel : ℕ) where
  guarded-Returns : (ok : Bool) (job : Job X) → Returns job → Returns (if ok then job else refuse)
  guarded-Returns true job h = h
  guarded-Returns false job h = tt

  unless-Returns : (bad : Bool) (job : Job X) → Returns job → Returns (if bad then refuse else job)
  unless-Returns true job h = tt
  unless-Returns false job h = h

  job_of-Returns :
      (type : Option RequestType) (frame : List ℕ) (s : NetworkLte X)
      → is_prompt_type type ≡ true
      → Returns (job_of m layout rounds fuel type frame s)
  unfolding job_of
  job_of-Returns none frame s h = tt
  job_of-Returns (some RequestType.get_clock) frame s h = tt
  job_of-Returns (some RequestType.scan_networks) frame s h = λ s₁. refl
  job_of-Returns (some RequestType.set_config) frame s h =
      guarded-Returns (length frame == layout.set_config_size) (answer _ _) tt
  job_of-Returns (some RequestType.network_connect) frame s h = absurd (cc)
  job_of-Returns (some RequestType.network_disconnect) frame s h = λ s₁. refl
  job_of-Returns (some RequestType.server_connect) frame s h =
      guarded-Returns (length frame == layout.server_connect_size) (start _ _) (λ s₁. refl)
  job_of-Returns (some RequestType.server_disconnect) frame s h = λ s₁. refl
  job_of-Returns (some RequestType.force_psm) frame s h = λ s₁. refl
  job_of-Returns (some RequestType.acquire_gnss_position) frame s h = absurd (cc)
  job_of-Returns (some _) frame s h = tt

  -- A prompt job is done, and takes nothing from the requests.
  do_job-Returns :
      (job : Job X) (c : RadioLteChannels) (s : NetworkLte X)
      → Returns job
      → (r : RadioLteChannels × NetworkLte X) × (do_job m layout rounds fuel job c s ≡ some r)
        × (r.0.modem_tx_q ≡ c.modem_tx_q)
  unfolding do_job publish_typed_response publish_action_complete
  do_job-Returns refuse c s h = (_, refl, refl)
  do_job-Returns (answer bytes s₁) c s h = (_, refl, refl)
  do_job-Returns (start type act) c s h = elim (Option-cases (act s)) [
    | inl never ↦ absurd (cc (h s, never))
    | inr (r, done) ↦
        let acknowledged = (publish_typed_response (layout.response (Value.flag true)) c).1 in
        (
          (publish_action_complete (layout.action_complete type r.0) acknowledged, r.1),
          rw (done, do_job) refl,
          refl,
        )
  ]

  request_job-Returns :
      (frame : List ℕ) (s : NetworkLte X)
      → is_prompt frame ≡ true
      → Returns (request_job m layout rounds fuel frame s)
  unfolding request_job request_type_of
  request_job-Returns [] s h = tt
  request_job-Returns (byte ∷ bytes) s h =
      let type = request_type_of byte in
      unless-Returns
        (not (has_own_message type) && not (length (byte ∷ bytes) == layout.tx_msg_size))
        (job_of m layout rounds fuel type (byte ∷ bytes) s) (job_of-Returns type (byte ∷ bytes) s h)

pub recv-empty :
    (capacity : ℕ) (c : RadioLteChannels)
    → Holds capacity [] c.modem_tx_q
    → ((recv_request_frame c).2 ≡ none) × ((recv_request_frame c).1 ≡ c)
unfolding recv_request_frame receive
recv-empty capacity c h = rw (empty_lem h) (refl, refl)

pub recv-front :
    (capacity : ℕ) (f : List ℕ) (q : Fifo) (c : RadioLteChannels)
    → Holds capacity (f ∷ q) c.modem_tx_q
    → ((recv_request_frame c).2 ≡ some f) × Holds capacity q (recv_request_frame c).1.modem_tx_q
unfolding recv_request_frame receive
recv-front capacity f q c h = rw (empty_lem h) (get_frame-Holds f q h)

module _ {X : Type 0} (m : Xe310 X) (layout : Layout) (rounds fuel : ℕ) where
  -- Requests that do not drive the machine to a state are all handled, in one call, whatever they
  -- are: with passes for one more than there are, the call returns and no request waits any more.
  pub process_radio_requests-drains :
      (capacity passes : ℕ) (q : Fifo) (c : RadioLteChannels) (s : NetworkLte X)
      → Holds capacity q c.modem_tx_q
      → all_prompt q ≡ true
      → length q < passes
      → (r : RadioLteChannels × NetworkLte X) × (process_radio_requests m layout rounds fuel passes
            c s
          ≡ some r)
        × Holds capacity [] r.0.modem_tx_q
  unfolding process_radio_requests
  process_radio_requests-drains capacity zero q c s h p lt = absurd (omega arith)
  process_radio_requests-drains capacity (suc passes) [] c s h p lt =
      let got = recv-empty capacity c h in
      ((c, s), rw (process_radio_requests, got.0, got.1) refl, h)
  process_radio_requests-drains capacity (suc passes) (f ∷ q) c s h p lt =
      let got = recv-front capacity f q c h in
      let c₁ = (recv_request_frame c).1 in
      let job = request_job m layout rounds fuel f s in
      let (r, done, kept) =
        do_job-Returns m layout rounds fuel job c₁ s
          (request_job-Returns m layout rounds fuel f s (ground arith)) in
      let rest : Holds capacity q r.0.modem_tx_q = rw kept (got.1) in
      let (last, ends, drained) =
        process_radio_requests-drains capacity passes q r.0 r.1 rest (ground arith) (omega arith) in
      (last, rw (process_radio_requests, got.0, done) ends, drained)
