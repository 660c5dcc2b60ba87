-- ===== src/Rpc/Fits.antt =====
-- The configuration as JSON is never cut by its buffer (`config_to_json` of
-- examples/desktop/rpc_helpers.h).
use x_e310_multi_os.Base.{
  ◌+◌, ◌*◌, ◌≤◌, ℕ, ◌≡◌, Bool, true, false, List, [], ◌∷◌, length, length-append, take-all, before,
  show, show-length, arith, map,
}
use x_e310_multi_os.Modem.Types.{RadioTech, modem_short_str, modem_medium_str}
use x_e310_multi_os.NetworkLte.State.{NetworkLteConfig}
use x_e310_multi_os.Rpc.{escape, escaped, json_str, radio_tech_name}
use x_e310_multi_os.Rpc.Structs.{Member, member, listed, object, json_c_str, quoted, truth}
use x_e310_multi_os.Rpc.Reports.{config_members, config_json}

-- The bytes of the members, and three more for each: two quotes and a colon.
abbrev pub member_bytes : List Member → ℕ
member_bytes [] = 0
member_bytes ((key, value) ∷ ms) = length key + length value + 4 + member_bytes ms

length-listed : (ms : List Member) → length (listed (map member ms)) ≤ member_bytes ms
unfolding listed
length-listed [] = omega arith
length-listed ((key, value) ∷ []) = omega (arith, length-append key (34 ∷ b':' ∷ value))
length-listed ((key, value) ∷ (m ∷ ms)) = omega (
  arith,
  length-append key (34 ∷ b':' ∷ value),
  length-append (member (key, value)) (b',' ∷ listed (map member (m ∷ ms))),
  length-listed (m ∷ ms),
)

pub length-object : (ms : List Member) → length (object ms) ≤ member_bytes ms + 2
unfolding object
length-object ms =
    omega (arith, length-append (listed (map member ms)) (b'}' ∷ []), length-listed ms)

length-escape : (c : ℕ) → length (escape c) ≤ 2
unfolding escape
length-escape c = ground arith

length-escaped : (s : List ℕ) → length (escaped s) ≤ 2 * length s
unfolding escaped
length-escaped [] = omega arith
length-escaped (c ∷ s) =
    omega (arith, length-append (escape c) (escaped s), length-escape c, length-escaped s)

length-before : (d : ℕ) (s : List ℕ) → length (before d s) ≤ length s
unfolding before
length-before d [] = omega arith
length-before d (c ∷ s) = ground (arith, length-before d s)

length-json_c_str : (s : List ℕ) → length (json_c_str s) ≤ 2 * length s + 2
unfolding json_c_str json_str
length-json_c_str s =
    omega
      (arith, length-before 0 (json_str s), length-append (escaped s) (34 ∷ []), length-escaped s)

length-tech : (t : RadioTech) → length (radio_tech_name t) ≤ 7
unfolding radio_tech_name
length-tech RadioTech.gsm = omega arith
length-tech _ = omega arith

length-truth : (b : Bool) → length (truth b) ≤ 5
length-truth true = omega arith
length-truth false = omega arith

-- The texts of a configuration fit their fields.
pub record FitsFields (c : NetworkLteConfig) : Type 0 where
  pub default_apn : length c.default_apn ≤ modem_medium_str
  pub fallback_apn : length c.fallback_apn ≤ modem_medium_str
  pub plmn : length c.plmn ≤ modem_short_str

length-quoted : (s : List ℕ) → length (quoted s) ≡ length s + 2
length-quoted s = omega (arith, length-append s (34 ∷ []))

config_bytes : (c : NetworkLteConfig) → FitsFields c → member_bytes (config_members c) + 2 ≤ 1023
unfolding json_c_str show radio_tech_name
config_bytes c h = omega (
  arith,
  show-length c.cid,
  show-length c.attach_timeout_sec,
  show-length c.pdp_timeout_sec,
  show-length c.data_ready_timeout_sec,
  show-length c.transparent_timeout_sec,
  show-length c.max_network_attempts,
  show-length c.max_attach_retries,
  show-length c.max_pdp_retries,
  show-length c.default_lte_bands,
  length-quoted (radio_tech_name c.default_iot_tech),
  length-tech c.default_iot_tech,
  length-json_c_str c.default_apn,
  show-length c.fallback_lte_bands,
  length-quoted (radio_tech_name c.fallback_iot_tech),
  length-tech c.fallback_iot_tech,
  length-json_c_str c.fallback_apn,
  length-json_c_str c.plmn,
  length-truth c.psm_enable,
  length-truth c.cfun_sleep,
  show-length c.psm_t3412,
  show-length c.psm_t3324,
  show-length c.conn_id,
  h.default_apn,
  h.fallback_apn,
  h.plmn,
)

-- The text of a configuration whose strings fit their fields is the whole object: its 1024 bytes are
-- enough even if every byte of a string is escaped.
pub config_json-whole :
    (c : NetworkLteConfig) → FitsFields c → config_json c ≡ object (config_members c)
unfolding config_json
config_json-whole c h =
    take-all 1023 (object (config_members c))
      (omega (arith, length-object (config_members c), config_bytes c h))
