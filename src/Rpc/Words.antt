-- ===== src/Rpc/Words.antt =====
-- The words of a line of text: the helpers of examples/desktop/app_rpc_server.cpp. `std::toupper` is
-- that of the C locale.
use x_e310_multi_os.Base.{
  ◌-◌, ◌+◌, ◌*◌, ℕ, ◌&&◌, ◌||◌, List, [], ◌∷◌, leb, ◌==◌, is_digit, bytes_eq, after, if◌then◌else◌,
  codes, Option, none, some, map,
}

unfoldable pub upper : ℕ → ℕ
upper c = if leb b'a' c && leb c b'z' then c - 32 else c

unfoldable pub to_upper : List ℕ → List ℕ
unfolding upper
to_upper s = map upper s

-- What stands behind the first space.
unfoldable pub rest_of : List ℕ → List ℕ
unfolding after
rest_of s = elim (after b' ' s) [ none ↦ [] | some rest ↦ rest ]

-- The loops over the digits of a number, for a value that an `int` holds; for any other their
-- behaviour is undefined.
unfoldable pub decimal_from : ℕ → List ℕ → Option ℕ
unfolding is_digit
decimal_from n [] = some n
decimal_from n (c ∷ s) =
    let rest = decimal_from (n * 10 + (c - 48)) s in if is_digit c then rest else none

unfoldable pub number_of : List ℕ → Option ℕ
unfolding decimal_from
number_of s = decimal_from 0 s

-- Letters count in either case, and `_` and `-` not at all.
unfoldable pub normalize_token : List ℕ → List ℕ
unfolding upper
normalize_token [] = []
normalize_token (c ∷ s) =
    let rest = normalize_token s in if c == b'_' || c == b'-' then rest else upper c ∷ rest

unfoldable pub config_keys : List (List ℕ × List ℕ)
config_keys =
    (codes "CID", codes "cid")
    ∷ (codes "ATTACHTIMEOUTSEC", codes "attach_timeout_sec")
    ∷ (codes "PDPTIMEOUTSEC", codes "pdp_timeout_sec")
    ∷ (codes "DATAREADYTIMEOUTSEC", codes "data_ready_timeout_sec")
    ∷ (codes "TRANSPARENTTIMEOUTSEC", codes "transparent_timeout_sec")
    ∷ (codes "MAXNETWORKATTEMPTS", codes "max_network_attempts")
    ∷ (codes "MAXATTACHRETRIES", codes "max_attach_retries")
    ∷ (codes "MAXPDPRETRIES", codes "max_pdp_retries")
    ∷ (codes "DEFAULTLTEBANDS", codes "default_lte_bands")
    ∷ (codes "DEFAULTIOTTECH", codes "default_iot_tech")
    ∷ (codes "DEFAULTAPN", codes "default_apn")
    ∷ (codes "FALLBACKLTEBANDS", codes "fallback_lte_bands")
    ∷ (codes "FALLBACKIOTTECH", codes "fallback_iot_tech")
    ∷ (codes "FALLBACKAPN", codes "fallback_apn")
    ∷ (codes "PLMN", codes "plmn")
    ∷ (codes "FPSMENABLE", codes "fPsmEnable")
    ∷ (codes "PSMENABLE", codes "fPsmEnable")
    ∷ (codes "FCFUNSLEEP", codes "fCfunSleep")
    ∷ (codes "CFUNSLEEP", codes "fCfunSleep")
    ∷ (codes "PSMT3412", codes "psm_t3412")
    ∷ (codes "PSMT3324", codes "psm_t3324")
    ∷ (codes "CONNID", codes "conn_id")
    ∷ []

-- What a name stands for in a table.
unfoldable pub named {ℓ} : {A : Type ℓ} → List (List ℕ × A) → List ℕ → Option A
unfolding bytes_eq
named [] name = none
named ((word, value) ∷ others) name =
    let rest = named others name in if bytes_eq name word then some value else rest

-- `none` is the empty key.
unfoldable pub config_key_from_resource : List ℕ → Option (List ℕ)
unfolding named config_keys normalize_token
config_key_from_resource resource = named config_keys (normalize_token resource)
