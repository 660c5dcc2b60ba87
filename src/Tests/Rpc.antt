-- ===== src/Tests/Rpc.antt =====
-- The texts of the remote calls at concrete inputs.
use x_e310_multi_os.Base.{
  ◌≡◌, refl, ◌++◌, List, [], ◌∷◌, ℕ, codes, true, false, some, none, if◌then◌else◌, arith,
}
use x_e310_multi_os.Rpc.{json_str}
use x_e310_multi_os.Rpc.Json.{all_printable, read_json_string, read_json_string-json_str}
use x_e310_multi_os.Rpc.Config.{apply_config_fields}
use x_e310_multi_os.Rpc.Pairs.{Pair, printed, applied, apply_config_fields-printed}
use x_e310_multi_os.Rpc.Arguments.{Target, parse_target, parsed}
use x_e310_multi_os.Rpc.Targets.{IsTarget, target_text, parse_target-IsTarget, parse_target-text}
use x_e310_multi_os.Rpc.Structs.{object}
use x_e310_multi_os.Rpc.Reports.{config_members, config_json}
use x_e310_multi_os.Rpc.Fits.{FitsFields, config_json-whole}
use x_e310_multi_os.Tests.Fixtures.{config}

-- Two quotes, a backslash and a line end.
abbrev quoted : List ℕ
quoted = 34 ∷ 92 ∷ 34 ∷ 13 ∷ 10 ∷ []

json_str_run : json_str quoted ≡ codes "\"\\\"\\\\\\\"\\r\\n\""
unfolding json_str
json_str_run = refl

read_json_string-json_str_example :
    read_json_string (json_str quoted ++ codes ",")
    ≡ (if all_printable quoted then some (quoted, codes ",") else none)
read_json_string-json_str_example = read_json_string-json_str quoted (codes ",")

-- A name with a typing error and a number out of range change nothing.
abbrev three_pairs : List Pair
three_pairs =
    (codes "conn_id", codes "4")
    ∷ (codes "con_id", codes "5")
    ∷ (codes "cid", codes "99999999999999999999")
    ∷ []

apply_config_fields_run :
    apply_config_fields (printed three_pairs) config ≡ (true, record config { conn_id = 4 })
unfolding apply_config_fields
apply_config_fields_run = refl

apply_config_fields-printed_example :
    apply_config_fields (printed three_pairs) config ≡ applied three_pairs (false, config)
apply_config_fields-printed_example = apply_config_fields-printed three_pairs config refl

abbrev target : Target
target = record { conn_id = 2; protocol = codes "UDP"; ip = codes "10.0.0.2"; port = 7000 }

target_read : parse_target (codes "2 UDP 10.0.0.2 7000 ") ≡ parsed target
unfolding parse_target
target_read = refl

parse_target-IsTarget_example : IsTarget target
parse_target-IsTarget_example =
    parse_target-IsTarget (codes "2 UDP 10.0.0.2 7000 ") target target_read

target-IsTarget : IsTarget target
target-IsTarget = record {
  conn_id_from = omega arith;
  conn_id_to = omega arith;
  port_from = omega arith;
  port_to = omega arith;
  protocol_fits = omega arith;
  ip_fits = omega arith;
}

parse_target-text_example : parse_target (target_text target) ≡ parsed target
parse_target-text_example = parse_target-text target target-IsTarget refl refl

config-FitsFields : FitsFields config
config-FitsFields = record {
  default_apn = omega arith;
  fallback_apn = omega arith;
  plmn = omega arith;
}

config_json-whole_example : config_json config ≡ object (config_members config)
config_json-whole_example = config_json-whole config config-FitsFields
