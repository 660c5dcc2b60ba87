-- ===== src/Modem/Device/Status.antt =====
-- `last_status_` of src/xe310.cpp after a command, and what a refused query leaves behind.
use x_e310_multi_os.Base.{
  codes, ◌∙◌, ℕ, ◌≡◌, ◌≢◌, refl, Bool, true, false, List, [], ◌∷◌, if◌then◌else◌, arith, is_empty,
}
use x_e310_multi_os.ModemController.Port.{Uart}
use x_e310_multi_os.ModemController.Retry.{Gives}
use x_e310_multi_os.Modem.Types.{ModemStatus, RadioTech}
use x_e310_multi_os.Modem.Interface.{Command}
use x_e310_multi_os.Modem.Print.{scan_tables, table_selectors}
use x_e310_multi_os.Modem.Lines.{Line, at_line}
use x_e310_multi_os.Modem.Device.{
  Device, send_raw, exchange, send_all, shutdown, reboot, udp_send, set_gnss_power, special, run,
  query, delay_ms,
}

-- The commands whose status does not go through `send_raw`.
abbrev pub keeps_last : Command → Bool
keeps_last (Command.udp_send conn_id bytes) = true
keeps_last (Command.set_iot_tech RadioTech.cat_m1) = false
keeps_last (Command.set_iot_tech RadioTech.nb_iot) = false
keeps_last (Command.set_iot_tech _) = true
keeps_last _ = false

delay_ms-last :
    {U : Type 0} (delay : ℕ → U → U) (ms : ℕ) (d : Device U)
    → (delay_ms delay ms d).last_status ≡ d.last_status
unfolding delay_ms
delay_ms-last delay ms d = ground arith

module _ {U : Type 0} (uart : Uart U) (gives : Gives uart) (guard : ℕ → Bool) where
  exchange-last :
      (line : Line) (d : Device U)
      → (exchange uart gives guard line d).1.last_status ≡ (exchange uart gives guard line d).0
  unfolding exchange send_raw
  exchange-last line d = refl

  -- What a line sent decides about the rest.
  abbrev chained : List (List ℕ) → ModemStatus × Device U → ModemStatus × Device U
  chained texts sent = elim sent.0 [
    | ModemStatus.ok ↦ send_all uart gives guard texts sent.1
    | refused ↦ (refused, sent.1)
  ]

  chained-last :
      (texts : List (List ℕ)) (status : ModemStatus) (d : Device U)
      → d.last_status ≡ status
      → ((e : Device U)
          → e.last_status ≡ ModemStatus.ok
          → (send_all uart gives guard texts e).1.last_status
            ≡ (send_all uart gives guard texts e).0)
      → (chained texts (status, d)).1.last_status ≡ (chained texts (status, d)).0
  chained-last texts ModemStatus.ok d last rest = rest d last
  chained-last texts _ d last rest = last

  send_all-last :
      (texts : List (List ℕ)) (d : Device U)
      → d.last_status ≡ ModemStatus.ok
      → (send_all uart gives guard texts d).1.last_status ≡ (send_all uart gives guard texts d).0
  unfolding send_all
  send_all-last [] d ok = ok
  send_all-last (text ∷ texts) d ok =
      let sent = exchange uart gives guard (text, 5000) d in
      chained-last texts sent.0 sent.1 (exchange-last (text, 5000) d) (send_all-last texts)

  send_all-last_some :
      (texts : List (List ℕ)) (d : Device U)
      → is_empty texts ≡ false
      → (send_all uart gives guard texts d).1.last_status ≡ (send_all uart gives guard texts d).0
  unfolding send_all
  send_all-last_some [] d h = absurd (cc)
  send_all-last_some (text ∷ texts) d h =
      let sent = exchange uart gives guard (text, 5000) d in
      chained-last texts sent.0 sent.1 (exchange-last (text, 5000) d) (send_all-last texts)

  set_gnss_power-last :
      (enable : Bool) (d : Device U)
      → (set_gnss_power uart gives guard enable d).1.last_status
        ≡ (set_gnss_power uart gives guard enable d).0
  unfolding set_gnss_power
  set_gnss_power-last true d = exchange-last _ d
  set_gnss_power-last false d = refl

  -- A query that the modem or the line refused returns that status, and leaves the parameter.
  pub query-refused :
      {A : Type 0} (line : Line) (parse : A → List ℕ → ModemStatus × A) (old : A) (d : Device U)
      → (query uart gives guard line parse old d).2.last_status ≢ ModemStatus.ok
      → ((query uart gives guard line parse old d).0
          ≡ (query uart gives guard line parse old d).2.last_status)
        × ((query uart gives guard line parse old d).1 ≡ old)
  unfolding query send_raw
  query-refused line parse old d refused = ground arith

module _ {U : Type 0} (uart : Uart U) (gives : Gives uart) (guard : ℕ → Bool)
    (delay : ℕ → U → U) where
  -- A command leaves its status in `last_status_`, except that `udp_send` and the choice of a
  -- technology that the modem has not leave there what was there.
  pub run-last_status :
      (c : Command) (d : Device U)
      → (run uart gives guard delay c d).1.last_status
        ≡ (if keeps_last c then d.last_status else (run uart gives guard delay c d).0)
  unfolding run at_line special shutdown reboot udp_send
  run-last_status (Command.udp_send conn_id bytes) d = refl
  run-last_status (Command.set_iot_tech RadioTech.cat_m1) d = exchange-last uart gives guard _ d
  run-last_status (Command.set_iot_tech RadioTech.nb_iot) d = exchange-last uart gives guard _ d
  run-last_status (Command.set_iot_tech _) d = refl
  run-last_status Command.shutdown d =
      exchange-last uart gives guard (codes "AT+CFUN=11", 15000)
        (exchange uart gives guard (codes "AT+CFUN=4", 15000) d).1
  run-last_status Command.reboot d =
      let sent = exchange uart gives guard (codes "AT#REBOOT", 5000) d in
      delay_ms-last delay 2000 sent.1 ∙ exchange-last uart gives guard (codes "AT#REBOOT", 5000) d
  run-last_status (Command.set_gnss_power enable) d = set_gnss_power-last uart gives guard enable d
  run-last_status Command.set_scan_tables d = send_all-last_some uart gives guard scan_tables d refl
  run-last_status Command.select_tables d =
      send_all-last_some uart gives guard table_selectors d refl
  run-last_status _ d = exchange-last uart gives guard _ d
