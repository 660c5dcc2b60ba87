-- ===== src/NetworkLte/Actions/Attaching.antt =====
-- The attach flow of src/network_lte.cpp: which retry counts, and when the machine gives up.
use x_e310_multi_os.Base.{ℕ, ◌+◌, ◌%◌, ◌≡◌, ◌≢◌, ◌≤◌, ◌<◌, ◌⊎◌, ◌∙◌, true, false, ◌||◌, List, arith}
use x_e310_multi_os.Modem.Types.{RadioTech}
use x_e310_multi_os.Modem.Interface.{Xe310, power_off_radio}
use x_e310_multi_os.NetworkLte.Types.{network_attaching, setup_radio, attach_error}
use x_e310_multi_os.NetworkLte.State.{NetworkLte}
use x_e310_multi_os.NetworkLte.ChangeState.Effects.{change_state_lem, change_state_keeps}
use x_e310_multi_os.NetworkLte.Actions.Calls.{exec}
use x_e310_multi_os.NetworkLte.Actions.Attach.{
  attach, attach_with, prepare_apn, check_rat, check_bands,
}

module _ {X : Type 0} where
  abbrev Kept : NetworkLte X → NetworkLte X → Type 0
  Kept s t = (t.state ≡ s.state) × (t.attach_retries ≡ s.attach_retries) × (t.event ≡ s.event)

  Kept-trans : (s t u : NetworkLte X) → Kept t u → Kept s t → Kept s u
  Kept-trans s t u h k = (h.0 ∙ k.0, h.1 ∙ k.1, h.2 ∙ k.2)

module _ {X : Type 0} (m : Xe310 X) where
  -- The queries before an attach leave the state, the pending event and the counter alone.
  prepare_apn-Kept : (apn : List ℕ) (s : NetworkLte X) → Kept s (prepare_apn m apn s)
  unfolding prepare_apn
  prepare_apn-Kept apn s = ground arith

  check_rat-Kept : (tech : RadioTech) (s : NetworkLte X) → Kept s (check_rat m tech s)
  unfolding check_rat
  check_rat-Kept tech s = ground arith

  check_bands-Kept : (bands : ℕ) (s : NetworkLte X) → Kept s (check_bands m bands s)
  unfolding check_bands
  check_bands-Kept bands s = ground arith

  prepared-Kept :
      (apn : List ℕ) (tech : RadioTech) (bands : ℕ) (s : NetworkLte X)
      → Kept s (check_bands m bands (check_rat m tech (prepare_apn m apn s)))
  prepared-Kept apn tech bands s =
      let s₁ = prepare_apn m apn s in
      let s₂ = check_rat m tech s₁ in
      Kept-trans s s₂ (check_bands m bands s₂) (check_bands-Kept bands s₂)
        (Kept-trans s s₁ s₂ (check_rat-Kept tech s₁) (prepare_apn-Kept apn s))

  attach_with_cases :
      (apn : List ℕ) (tech : RadioTech) (bands : ℕ) (s : NetworkLte X)
      → let s' = attach_with m apn tech bands s in
        (s'.event ≡ s.event)
        × (((s'.modem_action ≡ setup_radio)
              × (s'.state ≡ s.state)
              × (s'.attach_retries ≡ s.attach_retries)
              × ((s'.change_rat || s'.change_bands) ≡ true))
            ⊎ ((s'.state ≡ network_attaching)
                × (s'.attach_retries ≡ (s.attach_retries + 1) % 256)
                × ((s'.change_rat || s'.change_bands) ≡ false)))
  unfolding attach_with
  attach_with_cases apn tech bands s =
      let p = check_bands m bands (check_rat m tech (prepare_apn m apn s)) in
      ground (
        arith,
        prepared-Kept apn tech bands s,
        change_state_lem m network_attaching p,
        change_state_keeps m network_attaching p,
      )

  -- While retries are left, an attach either asks for a new radio setup first, which counts no
  -- retry, or counts one and waits for the network; the pending event stays.
  pub attach_cases :
      (s : NetworkLte X)
      → (s.attach_retries ≡ 0) ⊎ (s.attach_retries < s.lte_config.max_attach_retries)
      → let s' = attach m s in
        (s'.event ≡ s.event)
        × (((s'.modem_action ≡ setup_radio)
              × (s'.state ≡ s.state)
              × (s'.attach_retries ≡ s.attach_retries)
              × ((s'.change_rat || s'.change_bands) ≡ true))
            ⊎ ((s'.state ≡ network_attaching)
                × (s'.attach_retries ≡ (s.attach_retries + 1) % 256)
                × ((s'.change_rat || s'.change_bands) ≡ false)))
  unfolding attach exec
  attach_cases s h =
      let s₀ = exec m power_off_radio s in
      let c = s.lte_config in
      ground (
        arith,
        attach_with_cases c.default_apn c.default_iot_tech c.default_lte_bands s₀,
        attach_with_cases c.fallback_apn c.fallback_iot_tech c.fallback_lte_bands s₀,
      )

  -- When the retries are used up, the attach only turns the radio off, raises attach_error and
  -- counts on, so that the uint8_t counter comes back to 0 in the end.
  pub attach_gives_up :
      (s : NetworkLte X)
      → s.attach_retries ≢ 0
      → s.lte_config.max_attach_retries ≤ s.attach_retries
      → let s' = attach m s in
        (s'.event ≡ attach_error)
        × (s'.state ≡ s.state)
        × (s'.modem_action ≡ s.modem_action)
        × (s'.modem ≡ (m.run power_off_radio s.modem).1)
        × (s'.attach_retries ≡ (s.attach_retries + 1) % 256)
  unfolding attach
  attach_gives_up s ne le = ground arith
