-- ===== src/NetworkLte/Psm/Search.antt =====
-- When `force_psm` of src/network_lte.cpp takes an operator: the search as a relation.
use x_e310_multi_os.Base.{
  ◌≡◌, ◌≢◌, ◌⊎◌, ◌↔◌, inl, inr, refl, Bool, true, false, List, [], ◌∷◌, ◌==◌, ==_iff, arith,
  Bool-cases,
}
use x_e310_multi_os.Modem.Types.{
  ModemStatus, RadioTech, RegStatus, PsmMode, Operator, TelitCpsmsStatus, empty_registration,
  empty_psm_status, RegistrationInfo,
}
use x_e310_multi_os.Modem.Interface.{Xe310, set_operator_manual}
use x_e310_multi_os.NetworkLte.State.{NetworkLte}
use x_e310_multi_os.NetworkLte.Actions.Calls.{exec, is_ok}
use x_e310_multi_os.NetworkLte.Psm.{
  is_home_or_roaming, is_disabled, grants_psm, try_operator, try_operators,
}

-- The status of PSM says that it is granted: the mode is on and one of the timers is set.
abbrev pub Granted : ModemStatus → TelitCpsmsStatus → Type 0
Granted status psm =
    (status ≡ ModemStatus.ok) × (psm.mode ≢ PsmMode.disable) × ((psm.t3412 ≢ 0) ⊎ (psm.t3324 ≢ 0))

abbrev pub IsRegistered : RegStatus → Type 0
IsRegistered stat = (stat ≡ RegStatus.registered_home) ⊎ (stat ≡ RegStatus.registered_roaming)

unregistered :
    (stat : RegStatus)
    → (stat ≢ RegStatus.registered_home)
    → (stat ≢ RegStatus.registered_roaming)
    → ¬ IsRegistered stat
unregistered stat home roaming = λ h. elim h [ inl e ↦ home e | inr e ↦ roaming e ]

is_home_or_roaming-IsRegistered :
    (stat : RegStatus) → (is_home_or_roaming stat ≡ true) ↔ IsRegistered stat
is_home_or_roaming-IsRegistered RegStatus.registered_home = (λ h. inl refl, λ h. refl)
is_home_or_roaming-IsRegistered RegStatus.registered_roaming = (λ h. inr refl, λ h. refl)
is_home_or_roaming-IsRegistered stat =
    (λ h. absurd (cc), λ h. absurd (unregistered stat (λ e. cc) (λ e. cc) h))

is_ok_iff : (status : ModemStatus) → (is_ok status ≡ true) ↔ (status ≡ ModemStatus.ok)
unfolding is_ok
is_ok_iff ModemStatus.ok = (λ h. refl, λ h. refl)
is_ok_iff status = (λ h. absurd (cc), λ h. absurd (cc))

is_disabled_iff : (mode : PsmMode) → (is_disabled mode ≡ true) ↔ (mode ≡ PsmMode.disable)
is_disabled_iff PsmMode.disable = (λ h. refl, λ h. refl)
is_disabled_iff mode = (λ h. absurd (cc), λ h. absurd (cc))

granting :
    (status : ModemStatus) (psm : TelitCpsmsStatus)
    → (is_ok status ≡ true) ↔ (status ≡ ModemStatus.ok)
    → (is_disabled psm.mode ≡ true) ↔ (psm.mode ≡ PsmMode.disable)
    → ((psm.t3412 == 0) ≡ true) ↔ (psm.t3412 ≡ 0)
    → ((psm.t3324 == 0) ≡ true) ↔ (psm.t3324 ≡ 0)
    → (grants_psm status psm ≡ true) ↔ Granted status psm
unfolding grants_psm
granting status psm ok off zero_t3412 zero_t3324 = grind arith

grants_psm-Granted :
    (status : ModemStatus) (psm : TelitCpsmsStatus)
    → (grants_psm status psm ≡ true) ↔ Granted status psm
unfolding grants_psm
grants_psm-Granted status psm =
    granting status psm (is_ok_iff status) (is_disabled_iff psm.mode) (==_iff psm.t3412 0)
      (==_iff psm.t3324 0)

module _ {X : Type 0} (m : Xe310 X) where
  -- The modem once the operator is chosen, and what it says then.
  abbrev pub chosen : Operator → NetworkLte X → X
  unfolding exec
  chosen op s = (exec m (set_operator_manual op.numeric op.act) s).modem

  abbrev pub registration_of : Operator → NetworkLte X → ModemStatus × RegistrationInfo × X
  unfolding exec
  registration_of op s =
      m.get_registration_status empty_registration RadioTech.unknown (chosen op s)

  abbrev pub psm_of : Operator → NetworkLte X → ModemStatus × TelitCpsmsStatus × X
  unfolding exec
  psm_of op s = m.get_telit_psm empty_psm_status (registration_of op s).2

  -- The operator takes the modem, and grants it PSM.
  abbrev pub Grants : Operator → NetworkLte X → Type 0
  unfolding exec
  Grants op s = IsRegistered (registration_of op s).1.stat × Granted (psm_of op s).0 (psm_of op s).1

  -- One operator after another, each where the one before left the modem, up to the first that
  -- grants PSM.
  pub data Search : List Operator → NetworkLte X → Bool → Type 0 where
    nobody : {s : NetworkLte X} → Search [] s false
    found :
        {op : Operator} {ops : List Operator} {s : NetworkLte X}
        → Grants op s
        → Search (op ∷ ops) s true
    goes_on :
        {op : Operator} {ops : List Operator} {s : NetworkLte X} {granted : Bool}
        → ¬ Grants op s
        → Search ops (try_operator m op s).1 granted
        → Search (op ∷ ops) s granted

  try_operator-Grants :
      (op : Operator) (s : NetworkLte X) → ((try_operator m op s).0 ≡ true) ↔ Grants op s
  unfolding try_operator exec
  try_operator-Grants op s =
      let stat = (registration_of op s).1.stat in
      let home = is_home_or_roaming-IsRegistered stat in
      let psm = grants_psm-Granted (psm_of op s).0 (psm_of op s).1 in
      elim (Bool-cases (is_home_or_roaming stat)) [
        | inl takes ↦ rw takes (λ h. (home.0 takes, psm.0 h), λ g. psm.1 g.1)
        | inr not_so ↦ rw not_so (λ h. absurd (cc h), λ g. absurd (cc (not_so, home.1 g.0)))
      ]

  pub try_operators-Search :
      (ops : List Operator) (s : NetworkLte X) → Search ops s (try_operators m ops s).0
  unfolding try_operators
  try_operators-Search [] s = nobody
  try_operators-Search (op ∷ ops) s = elim (Bool-cases (try_operator m op s).0) [
    | inl takes ↦ rw (try_operators, takes) (found ((try_operator-Grants op s).0 takes))
    | inr not_so ↦
        rw (try_operators, not_so)
          (goes_on (λ g. absurd (cc (not_so, (try_operator-Grants op s).1 g)))
            (try_operators-Search ops (try_operator m op s).1))
  ]
