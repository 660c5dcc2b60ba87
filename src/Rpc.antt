-- ===== src/Rpc.antt =====
-- The texts of examples/desktop/rpc_helpers.h: the names of the enumerations and the strings of the
-- JSON answers of the desktop application's remote calls.
pub mod Json
pub mod Structs
pub mod Reports
pub mod Words
pub mod Exchange
pub mod Calls
pub mod Arguments
pub mod Settings
pub mod Fits
pub mod Targets
pub mod Server
pub mod Worker
pub mod Rounds
pub mod Questions
pub mod Steps
pub mod Asked
pub mod Config
pub mod Pairs
pub mod Letters
use x_e310_multi_os.Base.{
  ℕ, Bool, true, false, List, [], ◌∷◌, ◌++◌, ◌==◌, ◌||◌, bytes_eq, if◌then◌else◌, codes, Option,
  none, some,
}
use x_e310_multi_os.Modem.Types.{RadioTech, RegStatus, PsmMode, GnssFixType}
use x_e310_multi_os.Modem.Configs.{SimStatus, SurvCellType}
use x_e310_multi_os.NetworkLte.Types.{NetworkLteState, ServerState}

unfoldable pub state_name : NetworkLteState → List ℕ
state_name NetworkLteState.none = codes "none"
state_name NetworkLteState.rebooting = codes "rebooting"
state_name NetworkLteState.switched_off = codes "switched_off"
state_name NetworkLteState.off_mode = codes "off_mode"
state_name NetworkLteState.sleep_mode = codes "sleep_mode"
state_name NetworkLteState.setup_mode = codes "setup_mode"
state_name NetworkLteState.idle_mode = codes "idle_mode"
state_name NetworkLteState.network_detached = codes "network_detached"
state_name NetworkLteState.network_attaching = codes "network_attaching"
state_name NetworkLteState.pdp_context_closed = codes "pdp_context_closed"
state_name NetworkLteState.pdp_context_opening = codes "pdp_context_opening"
state_name NetworkLteState.data_ready = codes "data_ready"
state_name NetworkLteState.transparent_mode = codes "transparent_mode"
state_name NetworkLteState.modem_fota = codes "modem_fota"
state_name NetworkLteState.done = codes "done"
state_name NetworkLteState.gnss_fix_mode = codes "unknown"

unfoldable pub radio_tech_name : RadioTech → List ℕ
radio_tech_name RadioTech.gsm = codes "gsm"
radio_tech_name RadioTech.lte = codes "lte"
radio_tech_name RadioTech.cat_m1 = codes "cat_m1"
radio_tech_name RadioTech.nb_iot = codes "nb_iot"
radio_tech_name _ = codes "unknown"

unfoldable pub fix_type_name : GnssFixType → List ℕ
fix_type_name GnssFixType.invalid = codes "invalid"
fix_type_name GnssFixType.invalid_fix = codes "invalid_fix"
fix_type_name GnssFixType.fix_2d = codes "fix_2d"
fix_type_name GnssFixType.fix_3d = codes "fix_3d"
fix_type_name _ = codes "unknown"

unfoldable pub sim_status_name : SimStatus → List ℕ
sim_status_name SimStatus.not_inserted = codes "not_inserted"
sim_status_name SimStatus.inserted = codes "inserted"
sim_status_name SimStatus.inserted_and_pin_unlocked = codes "inserted_and_pin_unlocked"
sim_status_name SimStatus.inserted_and_ready = codes "inserted_and_ready"
sim_status_name _ = codes "unknown"

unfoldable pub reg_status_name : RegStatus → List ℕ
reg_status_name RegStatus.not_registered = codes "not_registered"
reg_status_name RegStatus.registered_home = codes "registered_home"
reg_status_name RegStatus.searching = codes "searching"
reg_status_name RegStatus.denied = codes "denied"
reg_status_name RegStatus.unknown = codes "unknown"
reg_status_name RegStatus.registered_roaming = codes "registered_roaming"
reg_status_name RegStatus.sms_only = codes "sms_only"
reg_status_name RegStatus.sms_only_roaming = codes "sms_only_roaming"
reg_status_name RegStatus.emergency = codes "emergency"
reg_status_name RegStatus.csfb_home = codes "csfb_home"
reg_status_name RegStatus.csfb_roaming = codes "csfb_roaming"
reg_status_name _ = codes "unknown"

unfoldable pub psm_mode_name : PsmMode → List ℕ
psm_mode_name PsmMode.enable = codes "enable"
psm_mode_name _ = codes "disable"

unfoldable pub server_state_name : ServerState → List ℕ
server_state_name ServerState.disconnected = codes "disconnected"
server_state_name ServerState.connected = codes "connected"
server_state_name _ = codes "unknown"

unfoldable pub cell_type_name : SurvCellType → List ℕ
cell_type_name SurvCellType.cell_2g_bcch = codes "2g_bcch"
cell_type_name SurvCellType.cell_2g_non_bcch = codes "2g_non_bcch"
cell_type_name SurvCellType.cell_4g = codes "4g"

-- A name that is none of these is `cat_m1`.
unfoldable pub radio_tech_from_str : List ℕ → RadioTech
unfolding bytes_eq
radio_tech_from_str s =
    if bytes_eq s (codes "gsm")
    then RadioTech.gsm
    else if bytes_eq s (codes "lte")
    then RadioTech.lte
    else if bytes_eq s (codes "cat_m1")
    then RadioTech.cat_m1
    else if bytes_eq s (codes "nb_iot")
    then RadioTech.nb_iot
    else RadioTech.cat_m1

abbrev pub is_one_of : List (List ℕ) → List ℕ → Bool
unfolding bytes_eq
is_one_of [] s = false
is_one_of (word ∷ words) s = bytes_eq s word || is_one_of words s

-- The Boolean that the text names, if it names one.
unfoldable pub bool_from_str : List ℕ → Option Bool
unfolding bytes_eq
bool_from_str s =
    if is_one_of (codes "1" ∷ codes "true" ∷ codes "TRUE" ∷ codes "on" ∷ codes "ON" ∷ []) s
    then some true
    else if is_one_of (codes "0" ∷ codes "false" ∷ codes "FALSE" ∷ codes "off" ∷ codes "OFF" ∷ []) s
    then some false
    else none

-- 34 is `"`, 92 is `\`; a newline is `\n` and a carriage return `\r`.
unfoldable pub escape : ℕ → List ℕ
escape c =
    if c == 34
    then 92 ∷ 34 ∷ []
    else if c == 92
    then 92 ∷ 92 ∷ []
    else if c == 10
    then 92 ∷ b'n' ∷ []
    else if c == 13
    then 92 ∷ b'r' ∷ []
    else c ∷ []

unfoldable pub escaped : List ℕ → List ℕ
unfolding escape
escaped [] = []
escaped (c ∷ s) = escape c ++ escaped s

unfoldable pub json_str : List ℕ → List ℕ
unfolding escaped
json_str s = 34 ∷ (escaped s ++ (34 ∷ []))
