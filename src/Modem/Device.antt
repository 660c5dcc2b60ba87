-- ===== src/Modem/Device.antt =====
-- `class xE310` (src/xe310.cpp) over its controller: every command goes through `send_raw`, which
-- keeps the status in `last_status_`, but for `udp_send`, which the source hands to the controller
-- itself. `delay` is `delay_ms` of include/hal/timer_factory.h on the clock of the line.
pub mod Status
use x_e310_multi_os.Base.{
  ℕ, suc, ◌≡◌, refl, Bool, true, false, List, [], ◌∷◌, ◌++◌, length, codes, show, Option, none,
  some,
}
use x_e310_multi_os.FixedString.{of_view}
use x_e310_multi_os.AtCommand.{AtResponse, new_response}
use x_e310_multi_os.ModemController.Prompt
use x_e310_multi_os.ModemController.{ModemController}
use x_e310_multi_os.ModemController.Urcs.{poll_urc}
use x_e310_multi_os.ModemController.Port.{Uart}
use x_e310_multi_os.ModemController.Retry
use x_e310_multi_os.ModemController.Retry.{Shared, Gives}
use x_e310_multi_os.Modem.Types.{ModemStatus}
use x_e310_multi_os.Modem.Interface.{Command}
use x_e310_multi_os.Modem.Print.{comma, scan_tables, table_selectors}
use x_e310_multi_os.Modem.Lines.{Line, at_line}

pub record Device (U : Type 0) : Type 0 where
  pub shared : Shared U
  pub last_status : ModemStatus

module _ {U : Type 0} (uart : Uart U) (gives : Gives uart) (guard : ℕ → Bool) where
  unfoldable pub send_raw : List ℕ → ℕ → Device U → ModemStatus × AtResponse × Device U
  send_raw command timeout_ms d =
      let (status, r, shared) =
        Retry.send_raw uart gives guard command new_response timeout_ms true d.shared in
      (status, r, record d { shared = shared; last_status = status })

  -- A command that only sends a line.
  unfoldable pub exchange : Line → Device U → ModemStatus × Device U
  unfolding send_raw
  exchange (text, timeout_ms) d = let (status, r, d₁) = send_raw text timeout_ms d in (status, d₁)

  -- Lines one after another, up to the first that is refused.
  unfoldable pub send_all : List (List ℕ) → Device U → ModemStatus × Device U
  unfolding exchange
  send_all [] d = (ModemStatus.ok, d)
  send_all (text ∷ texts) d =
      let (status, d₁) = exchange (text, 5000) d in
      elim status [ ModemStatus.ok ↦ send_all texts d₁ | refused ↦ (refused, d₁) ]

  unfoldable pub shutdown : Device U → ModemStatus × Device U
  unfolding exchange
  shutdown d =
      let (status, d₁) = exchange (codes "AT+CFUN=4", 15000) d in
      exchange (codes "AT+CFUN=11", 15000) d₁

  unfoldable pub udp_send : ℕ → List ℕ → Device U → ModemStatus × Device U
  unfolding of_view show
  udp_send conn_id bytes d =
      let text = of_view 63 (codes "AT#SSENDEXT=" ++ show conn_id ++ comma (show (length bytes))) in
      let (status, r, c) =
        Prompt.send_with_prompt uart (guard d.shared.lock_requests) text bytes new_response 5000
          d.shared.controller in
      (
        status,
        record d { shared = record { controller = c; lock_requests = suc d.shared.lock_requests } },
      )

  unfoldable pub set_gnss_power : Bool → Device U → ModemStatus × Device U
  unfolding exchange
  set_gnss_power true d = exchange (codes "AT$GPSP=1", 5000) d
  set_gnss_power false d =
      let (status, d₁) = exchange (codes "AT$GPSP=0", 5000) d in
      let (radio, d₂) = exchange (codes "AT+CFUN=1", 15000) d₁ in
      (status, record d₂ { last_status = status })

  -- A command whose answer is read: the out parameter, an `A`, is written only if the modem said ok.
  unfoldable pub query :
      {A : Type 0}
      → Line
      → (A → List ℕ → ModemStatus × A)
      → A
      → Device U
      → ModemStatus × A × Device U
  unfolding send_raw
  query (text, timeout_ms) parse old d =
      let (status, r, d₁) = send_raw text timeout_ms d in
      elim status [
        | ModemStatus.ok ↦ let (parsed, new) = parse old r.body in (parsed, new, d₁)
        | refused ↦ (refused, old, d₁)
      ]

  unfoldable pub poll_urcs : Device U → List (List ℕ) × Device U
  poll_urcs d =
      let (urcs, c) = poll_urc uart (guard d.shared.lock_requests) 10 d.shared.controller in
      (
        urcs,
        record d { shared = record { controller = c; lock_requests = suc d.shared.lock_requests } },
      )

-- The line's clock goes on by the wait.
unfoldable pub delay_ms : {U : Type 0} → (ℕ → U → U) → ℕ → Device U → Device U
delay_ms delay ms d = elim d.shared.controller.uart [
  | none ↦ d
  | some u ↦ record d {
    shared = record d.shared {
      controller = record d.shared.controller { uart = some (delay ms u) };
    };
  }
]

module _ {U : Type 0} (uart : Uart U) (gives : Gives uart) (guard : ℕ → Bool)
    (delay : ℕ → U → U) where
  unfoldable pub reboot : Device U → ModemStatus × Device U
  unfolding exchange delay_ms
  reboot d =
      let (status, d₁) = exchange uart gives guard (codes "AT#REBOOT", 5000) d in
      (status, delay_ms delay 2000 d₁)

  -- The commands that do more than send a line; `set_iot_tech` comes here with a technology that
  -- the modem has not.
  unfoldable pub special : Command → Device U → ModemStatus × Device U
  unfolding shutdown reboot udp_send set_gnss_power send_all
  special Command.shutdown d = shutdown uart gives guard d
  special Command.reboot d = reboot d
  special (Command.udp_send conn_id bytes) d = udp_send uart gives guard conn_id bytes d
  special (Command.set_gnss_power enable) d = set_gnss_power uart gives guard enable d
  special Command.set_scan_tables d = send_all uart gives guard scan_tables d
  special Command.select_tables d = send_all uart gives guard table_selectors d
  special _ d = (ModemStatus.invalid_param, d)

  abbrev pub dispatch : Option Line → Command → Device U → ModemStatus × Device U
  unfolding exchange special
  dispatch (some line) c d = exchange uart gives guard line d
  dispatch none c d = special c d

  unfoldable pub run : Command → Device U → ModemStatus × Device U
  unfolding exchange special at_line
  run c d = dispatch (at_line c) c d

-- The clock that the machine sees, 0 without a line.
unfoldable pub now : {U : Type 0} → Uart U → Device U → ℕ
now uart d = elim d.shared.controller.uart [ none ↦ 0 | some u ↦ uart.now u ]
