-- ===== src/Modem/Lines/Fits.antt =====
-- The lines of src/xe310.cpp fit the buffer of the controller: nothing is cut off before they are
-- written.
use x_e310_multi_os.Base.{
  ℕ, ◌≤◌, ◌≡◌, ap, List, [], ◌∷◌, ◌++◌, length, take-all, true, false, arith, Bool, Option, none,
  some, codes, min,
}
use mathlib.Core.Path.{subst}
use x_e310_multi_os.FixedString.{of_view-bounded}
use x_e310_multi_os.AtCommand.{at_cmd_max, crlf}
use x_e310_multi_os.ModemController.{full_command}
use x_e310_multi_os.Modem.Types.{RadioTech}
use x_e310_multi_os.Modem.Print.{psm_text, telit_psm_text, bands_text, udp_open_text}
use x_e310_multi_os.Modem.Interface.{Command}
use x_e310_multi_os.Modem.Lines.{
  Line, group_lines, switched, at_line, first_of, setup_line, sim_line, psm_line, psm_urc_line,
  power_line, iot_tech_line, bands_line, urc_line, attach_line, operator_line, apn_line,
  context_line, udp_line, udp_close_line, gnss_line,
}

abbrev pub Fits : Option Line → Type 0
Fits none = Unit {0}
Fits (some (text, ms)) = length text ≤ at_cmd_max

switched-Fits :
    (enable : Bool) (on off : List ℕ)
    → length on ≤ at_cmd_max
    → length off ≤ at_cmd_max
    → Fits (switched enable on off)
switched-Fits true on off h k = h
switched-Fits false on off h k = k

setup_line-Fits : (c : Command) → Fits (setup_line c)
unfolding setup_line
setup_line-Fits (Command.set_baudrate n) = omega (arith, of_view-bounded)
setup_line-Fits (Command.set_echo enable) =
    switched-Fits enable (codes "ATE1") (codes "ATE0") (omega arith) (omega arith)
setup_line-Fits Command.at_ok = omega arith
setup_line-Fits _ = tt

sim_line-Fits : (c : Command) → Fits (sim_line c)
unfolding sim_line
sim_line-Fits (Command.set_sim_detection mode) = omega (arith, of_view-bounded)
sim_line-Fits _ = tt

psm_line-Fits : (c : Command) → Fits (psm_line c)
unfolding psm_line psm_text telit_psm_text
psm_line-Fits (Command.set_psm cfg) = omega (arith, of_view-bounded)
psm_line-Fits Command.disable_psm = omega arith
psm_line-Fits (Command.set_telit_config cfg) = omega (arith, of_view-bounded)
psm_line-Fits (Command.set_telit_psm t3412 t3324) = omega (arith, of_view-bounded)
psm_line-Fits _ = tt

psm_urc_line-Fits : (c : Command) → Fits (psm_urc_line c)
unfolding psm_urc_line
psm_urc_line-Fits Command.disable_telit_psm = omega arith
psm_urc_line-Fits (Command.set_psm_urc enable) =
    switched-Fits enable (codes "AT#PSMURC=1") (codes "AT#PSMURC=0") (omega arith) (omega arith)
psm_urc_line-Fits _ = tt

power_line-Fits : (c : Command) → Fits (power_line c)
unfolding power_line
power_line-Fits Command.power_radio = omega arith
power_line-Fits Command.power_off_radio = omega arith
power_line-Fits _ = tt

iot_tech_line-Fits : (c : Command) → Fits (iot_tech_line c)
unfolding iot_tech_line
iot_tech_line-Fits (Command.set_iot_tech RadioTech.cat_m1) = omega (arith, of_view-bounded)
iot_tech_line-Fits (Command.set_iot_tech RadioTech.nb_iot) = omega (arith, of_view-bounded)
iot_tech_line-Fits (Command.set_iot_tech _) = tt
iot_tech_line-Fits _ = tt

bands_line-Fits : (c : Command) → Fits (bands_line c)
unfolding bands_line bands_text
bands_line-Fits (Command.set_bands bands) = omega (arith, of_view-bounded)
bands_line-Fits (Command.set_lte_bands mask) = omega (arith, of_view-bounded)
bands_line-Fits _ = tt

urc_line-Fits : (c : Command) → Fits (urc_line c)
unfolding urc_line
urc_line-Fits (Command.set_cell_state_urc enable) =
    switched-Fits enable (codes "AT%STATEV=1") (codes "AT%STATEV=0") (omega arith) (omega arith)
urc_line-Fits (Command.set_registration_urc enable) =
    switched-Fits enable (codes "AT+CEREG=4") (codes "AT+CEREG=0") (omega arith) (omega arith)
urc_line-Fits (Command.delete_mru_list rat) = omega (arith, of_view-bounded)
urc_line-Fits _ = tt

attach_line-Fits : (c : Command) → Fits (attach_line c)
unfolding attach_line
attach_line-Fits Command.network_attach = omega arith
attach_line-Fits Command.network_detach = omega arith
attach_line-Fits _ = tt

operator_line-Fits : (c : Command) → Fits (operator_line c)
unfolding operator_line
operator_line-Fits (Command.set_radio_tech tech) = omega (arith, of_view-bounded)
operator_line-Fits (Command.set_operator_manual [] tech) = omega arith
operator_line-Fits (Command.set_operator_manual (b ∷ oper) tech) = omega (arith, of_view-bounded)
operator_line-Fits Command.set_operator_auto = omega arith
operator_line-Fits _ = tt

apn_line-Fits : (c : Command) → Fits (apn_line c)
unfolding apn_line
apn_line-Fits (Command.set_apn cid apn) = omega (arith, of_view-bounded)
apn_line-Fits _ = tt

context_line-Fits : (c : Command) → Fits (context_line c)
unfolding context_line
context_line-Fits (Command.set_pdp_urc enable) =
    switched-Fits enable (codes "AT+CGEREP=1") (codes "AT+CGEREP=0") (omega arith) (omega arith)
context_line-Fits Command.disable_all_notifyev = omega arith
context_line-Fits (Command.set_plmnsearchexh_notify enable) =
    switched-Fits enable (codes "AT%NOTIFYEV=\"PLMNSEARCHEXH\",1")
      (codes "AT%NOTIFYEV=\"PLMNSEARCHEXH\",0") (omega arith) (omega arith)
context_line-Fits (Command.activate_pdp cid) = omega (arith, of_view-bounded)
context_line-Fits (Command.deactivate_pdp cid) = omega (arith, of_view-bounded)
context_line-Fits _ = tt

udp_line-Fits : (c : Command) → Fits (udp_line c)
unfolding udp_line udp_open_text
udp_line-Fits (Command.udp_open conn_id host port) = omega (arith, of_view-bounded)
udp_line-Fits (Command.udp_listen conn_id port cid) = omega (arith, of_view-bounded)
udp_line-Fits _ = tt

udp_close_line-Fits : (c : Command) → Fits (udp_close_line c)
unfolding udp_close_line
udp_close_line-Fits (Command.udp_close conn_id) = omega (arith, of_view-bounded)
udp_close_line-Fits _ = tt

gnss_line-Fits : (c : Command) → Fits (gnss_line c)
unfolding gnss_line
gnss_line-Fits (Command.set_gnss_urc enable) =
    switched-Fits enable (codes "AT$GNSSNMEA=1,4") (codes "AT$GNSSNMEA=0,0") (omega arith)
      (omega arith)
gnss_line-Fits _ = tt

abbrev AllFit : List (Option Line) → Type 0
AllFit [] = Unit {0}
AllFit (o ∷ lines) = Fits o × AllFit lines

first_of-Fits : (lines : List (Option Line)) → AllFit lines → Fits (first_of lines)
first_of-Fits [] h = tt
first_of-Fits (none ∷ lines) (h, k) = first_of-Fits lines k
first_of-Fits (some line ∷ lines) (h, k) = h

at_line-Fits : (c : Command) → Fits (at_line c)
unfolding at_line
at_line-Fits c = first_of-Fits (group_lines c) (
    search (
      setup_line-Fits, sim_line-Fits, psm_line-Fits, psm_urc_line-Fits, power_line-Fits,
      iot_tech_line-Fits, bands_line-Fits, urc_line-Fits, attach_line-Fits, operator_line-Fits,
      apn_line-Fits, context_line-Fits, udp_line-Fits, udp_close_line-Fits, gnss_line-Fits,
    ))

-- Every line of a command goes out whole, with its line end: none is cut off.
pub full_command-at_line :
    (c : Command) (text : List ℕ) (ms : ℕ)
    → at_line c ≡ some (text, ms)
    → full_command text ≡ text ++ crlf
unfolding full_command
full_command-at_line c text ms h =
    let fits : Fits (some (text, ms)) = subst (λ line. Fits line) h (at_line-Fits c) in
    ap (λ t. t ++ crlf) (take-all (min (length text) at_cmd_max) text (omega arith))
