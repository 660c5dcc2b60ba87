-- ===== src/Rpc/Structs.antt =====
-- The structs as JSON objects: `to_json` and `config_to_json` of examples/desktop/rpc_helpers.h. What
-- `snprintf` prints is cut at its buffer, and a `%s` ends at a zero byte.
use x_e310_multi_os.Base.{
  ◌-◌, ◌+◌, ℕ, ℤ, pos, negsuc, Bool, List, [], ◌∷◌, ◌++◌, take, ◌==◌, leb, before, if◌then◌else◌,
  codes, show, map,
}
use x_e310_multi_os.Modem.Types.{RegistrationInfo, NetworkInfo, SignalQuality, GnssPosition}
use x_e310_multi_os.Modem.Configs.{SoftwarePackageVersion, ModemInfo}
use x_e310_multi_os.RadioLte.{GnssPositionMsg}
use x_e310_multi_os.Rpc.{json_str, radio_tech_name, fix_type_name, reg_status_name}

-- A member of an object: its key and the text of its value.
abbrev pub Member : Type 0
Member = List ℕ × List ℕ

abbrev pub member : Member → List ℕ
member (key, value) = 34 ∷ (key ++ (34 ∷ b':' ∷ value))

-- Texts with a comma between them.
unfoldable pub listed : List (List ℕ) → List ℕ
listed [] = []
listed (s ∷ []) = s
listed (s ∷ t ∷ ss) = s ++ (b',' ∷ listed (t ∷ ss))

unfoldable pub object : List Member → List ℕ
unfolding listed
object ms = b'{' ∷ (listed (map member ms) ++ (b'}' ∷ []))

unfoldable pub array : List (List ℕ) → List ℕ
unfolding listed
array ss = b'[' ∷ (listed ss ++ (b']' ∷ []))

-- What a buffer of n bytes takes.
abbrev pub printed_in : ℕ → List ℕ → List ℕ
printed_in n s = take (n - 1) s

-- `json_str(…).c_str()` under `%s`.
unfoldable pub json_c_str : List ℕ → List ℕ
unfolding json_str before
json_c_str s = before 0 (json_str s)

abbrev pub quoted : List ℕ → List ℕ
quoted s = 34 ∷ (s ++ (34 ∷ []))

abbrev pub truth : Bool → List ℕ
truth b = if b then codes "true" else codes "false"

-- `%d`.
unfoldable pub show_int : ℤ → List ℕ
unfolding show
show_int (pos n) = show n
show_int (negsuc n) = b'-' ∷ show (n + 1)

unfoldable pub version_json : SoftwarePackageVersion → List ℕ
unfolding object json_str
version_json v = object (
    (codes "package_version", json_str v.package_version)
    ∷ (codes "modem_version", json_str v.modem_version)
    ∷ (codes "prod_params_version", json_str v.prod_params_version)
    ∷ (codes "app_version", json_str v.app_version)
    ∷ [])

unfoldable pub modem_info_json : ModemInfo → List ℕ
unfolding object json_str version_json
modem_info_json v = object (
    (codes "imei", json_str v.imei)
    ∷ (codes "imei_sv", json_str v.imei_sv)
    ∷ (codes "iccid", json_str v.iccid)
    ∷ (codes "imsi", json_str v.imsi)
    ∷ (codes "model_id", json_str v.model_id)
    ∷ (codes "telit_id", json_str v.telit_id)
    ∷ (codes "identification", json_str v.identification)
    ∷ (codes "sw_package_version", version_json v.sw_package_version)
    ∷ [])

unfoldable pub registration_json : RegistrationInfo → List ℕ
unfolding object json_c_str show reg_status_name radio_tech_name
registration_json v = printed_in 512 (
    object (
      (codes "mode", show v.mode)
      ∷ (codes "stat", quoted (reg_status_name v.stat))
      ∷ (codes "lac", json_c_str v.lac)
      ∷ (codes "ci", json_c_str v.ci)
      ∷ (codes "act", quoted (radio_tech_name v.act))
      ∷ (codes "fHasLocation", truth v.has_location)
      ∷ (codes "operator_name", json_c_str v.operator_name)
      ∷ (codes "apn", json_c_str v.apn)
      ∷ (codes "cause_type", show v.cause_type)
      ∷ (codes "reject_cause", show v.reject_cause)
      ∷ (codes "fHasReject", truth v.has_reject)
      ∷ (codes "active_time", json_c_str v.active_time)
      ∷ (codes "periodic_tau", json_c_str v.periodic_tau)
      ∷ (codes "fHasPsm", truth v.has_psm)
      ∷ []))

unfoldable pub network_info_json : NetworkInfo → List ℕ
unfolding object json_str
network_info_json v = object (
    (codes "context_state", quoted (if v.context_active then codes "active" else codes "inactive"))
    ∷ (codes "ip_address", json_str v.ip_address)
    ∷ [])

-- `rsrp_dbm`.
unfoldable pub rsrp_dbm : ℤ → ℤ
rsrp_dbm (pos n) =
    if n == 255 then negsuc 998 else if leb 140 n then pos (n - 140) else negsuc (139 - n)
rsrp_dbm (negsuc n) = negsuc (n + 140)

unfoldable pub signal_json : SignalQuality → List ℕ
unfolding object show_int rsrp_dbm
signal_json v = printed_in 128 (
    object (
      (codes "rssi", show_int v.rssi)
      ∷ (codes "ber", show_int v.ber)
      ∷ (codes "rsrq", show_int v.rsrq)
      ∷ (codes "rsrp", show_int v.rsrp)
      ∷ (codes "rsrp_dbm", show_int (rsrp_dbm v.rsrp))
      ∷ []))

unfoldable pub position_json : GnssPosition → List ℕ
unfolding object json_str show fix_type_name
position_json v = object (
    (codes "utc", json_str v.utc)
    ∷ (codes "latitude", json_str v.latitude)
    ∷ (codes "longitude", json_str v.longitude)
    ∷ (codes "hdop", json_str v.hdop)
    ∷ (codes "altitude", json_str v.altitude)
    ∷ (codes "fix", quoted (fix_type_name v.fix))
    ∷ (codes "cog", json_str v.cog)
    ∷ (codes "spkm", json_str v.spkm)
    ∷ (codes "spkn", json_str v.spkn)
    ∷ (codes "date", json_str v.date)
    ∷ (codes "nsat", show v.nsat)
    ∷ (codes "hepe", json_str v.hepe)
    ∷ (codes "vepe", json_str v.vepe)
    ∷ [])

unfoldable pub position_msg_json : GnssPositionMsg → List ℕ
unfolding object json_str show fix_type_name
position_msg_json v = object (
    (codes "utc", json_str v.utc)
    ∷ (codes "latitude", json_str v.latitude)
    ∷ (codes "longitude", json_str v.longitude)
    ∷ (codes "hdop", json_str v.hdop)
    ∷ (codes "altitude", json_str v.altitude)
    ∷ (codes "fix", quoted (fix_type_name v.fix))
    ∷ (codes "cog", json_str v.cog)
    ∷ (codes "spkm", json_str v.spkm)
    ∷ (codes "spkn", json_str v.spkn)
    ∷ (codes "date", json_str v.date)
    ∷ (codes "nsat", show v.nsat)
    ∷ (codes "hepe", json_str v.hepe)
    ∷ (codes "vepe", json_str v.vepe)
    ∷ [])
