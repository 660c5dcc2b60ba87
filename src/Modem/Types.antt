-- ===== src/Modem/Types.antt =====
-- The enumerations and structs of include/modem/xe310.h and include/hal/modem_controller.h. An
-- enumeration that the code casts a number to also has the values that have no name, `other`.
use native.Mathlib.Decide.{ℕ_discrete}
use x_e310_multi_os.Base.{ℕ, ℤ, pos, Bool, false, List, []}

pub data ModemStatus : Type 0 where
  ok busy uart_error not_connected at_error timeout invalid_param : ModemStatus

pub data RadioTech : Type 0 where
  unknown gsm lte cat_m1 nb_iot : RadioTech
  other : ℕ → RadioTech

pub RadioTech-discrete : Discrete RadioTech
RadioTech-discrete = hlevel (ℕ_discrete)

pub data RegStatus : Type 0 where
  not_registered registered_home searching denied unknown registered_roaming sms_only : RegStatus
  sms_only_roaming emergency csfb_home csfb_roaming : RegStatus
  other : ℕ → RegStatus

pub data PsmMode : Type 0 where
  disable enable : PsmMode
  other : ℕ → PsmMode

pub data GnssFixType : Type 0 where
  invalid invalid_fix fix_2d fix_3d : GnssFixType
  other : ℕ → GnssFixType

abbrev pub modem_short_str : ℕ
modem_short_str = 32

abbrev pub modem_medium_str : ℕ
modem_medium_str = 64

abbrev pub modem_long_str : ℕ
modem_long_str = 128

abbrev pub modem_ip_str : ℕ
modem_ip_str = 48

pub record RegistrationInfo : Type 0 where
  pub lac : List ℕ
  pub ci : List ℕ
  pub operator_name : List ℕ
  pub apn : List ℕ
  pub mode : ℕ
  pub stat : RegStatus
  pub act : RadioTech
  pub has_location : Bool
  pub ip_address : List ℕ
  pub active_time : List ℕ
  pub periodic_tau : List ℕ
  pub has_psm : Bool
  pub cause_type : ℕ
  pub reject_cause : ℕ
  pub has_reject : Bool

abbrev pub empty_registration : RegistrationInfo
empty_registration = record {
  lac = [];
  ci = [];
  operator_name = [];
  apn = [];
  mode = 0;
  stat = RegStatus.not_registered;
  act = RadioTech.gsm;
  has_location = false;
  ip_address = [];
  active_time = [];
  periodic_tau = [];
  has_psm = false;
  cause_type = 0;
  reject_cause = 0;
  has_reject = false;
}

pub record NetworkInfo : Type 0 where
  pub context_active : Bool
  pub ip_address : List ℕ

abbrev pub empty_network_info : NetworkInfo
empty_network_info = record { context_active = false; ip_address = [] }

pub record SignalQuality : Type 0 where
  pub rssi : ℤ
  pub ber : ℤ
  pub rsrq : ℤ
  pub rsrp : ℤ

abbrev pub unknown_signal : SignalQuality
unknown_signal = record { rssi = pos 99; ber = pos 99; rsrq = pos 255; rsrp = pos 255 }

pub record TelitCpsmsStatus : Type 0 where
  pub status : ℕ
  pub t3324 : ℕ
  pub t3412 : ℕ
  pub psm_version : ℕ
  pub psm_threshold : ℕ
  pub mode : PsmMode

abbrev pub empty_psm_status : TelitCpsmsStatus
empty_psm_status = record {
  status = 0;
  t3324 = 0;
  t3412 = 0;
  psm_version = 0;
  psm_threshold = 0;
  mode = PsmMode.disable;
}

pub record Operator : Type 0 where
  pub long_name : List ℕ
  pub short_name : List ℕ
  pub numeric : List ℕ
  pub act : RadioTech

pub record GnssPosition : Type 0 where
  pub utc : List ℕ
  pub latitude : List ℕ
  pub longitude : List ℕ
  pub hdop : List ℕ
  pub altitude : List ℕ
  pub fix : GnssFixType
  pub cog : List ℕ
  pub spkm : List ℕ
  pub spkn : List ℕ
  pub date : List ℕ
  pub nsat : ℕ
  pub hepe : List ℕ
  pub vepe : List ℕ

abbrev pub no_position : GnssPosition
no_position = record {
  utc = [];
  latitude = [];
  longitude = [];
  hdop = [];
  altitude = [];
  fix = GnssFixType.invalid;
  cog = [];
  spkm = [];
  spkn = [];
  date = [];
  nsat = 0;
  hepe = [];
  vepe = [];
}
