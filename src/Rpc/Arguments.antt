-- ===== src/Rpc/Arguments.antt =====
-- The arguments of SET SERVERCONNECT and SET NETWORKDISCONNECT, read by `handle_request` of
-- examples/desktop/app_rpc_server.cpp.
use x_e310_multi_os.Base.{
  ℕ, Bool, ◌&&◌, List, is_empty, leb, before, if◌then◌else◌, codes, Option, none, some,
}
use x_e310_multi_os.FixedString.{of_view}
use x_e310_multi_os.Modem.Types.{modem_short_str, modem_medium_str}
use x_e310_multi_os.Rpc.Words.{rest_of, number_of}
use x_e310_multi_os.Rpc.Exchange.{max_server_connections}

abbrev pub range_error : List ℕ
range_error = codes "ERROR: conn_id out of range (1-5)"

abbrev pub is_conn_id : ℕ → Bool
is_conn_id n = leb 1 n && leb n max_server_connections

-- What SERVERCONNECT asks for.
pub record Target : Type 0 where
  pub conn_id : ℕ
  pub protocol : List ℕ
  pub ip : List ℕ
  pub port : ℕ

-- A target, or the error to send back.
pub data Parsed : Type 0 where
  refused : List ℕ → Parsed
  parsed : Target → Parsed

unfoldable pub port_read : ℕ → List ℕ → List ℕ → Option ℕ → Parsed
unfolding of_view before
port_read id protocol ip none = refused (codes "ERROR: invalid port")
port_read id protocol ip (some port) =
    if leb 1 port && leb port 65535
    then parsed (record {
      conn_id = id;
      protocol = of_view modem_short_str (before 0 protocol);
      ip = of_view modem_medium_str (before 0 ip);
      port = port;
    })
    else refused (codes "ERROR: invalid port")

unfoldable pub parse_port : ℕ → List ℕ → List ℕ → List ℕ → Parsed
unfolding port_read number_of
parse_port id protocol ip word =
    if is_empty word
    then refused (codes "ERROR: missing port")
    else port_read id protocol ip (number_of word)

-- The words behind the id: each must be there.
unfoldable pub parse_endpoint : ℕ → List ℕ → Parsed
unfolding rest_of before parse_port
parse_endpoint id s =
    let protocol = before b' ' s in
    let ip = before b' ' (rest_of s) in
    if is_empty protocol
    then refused (codes "ERROR: missing protocol")
    else if is_empty ip
    then refused (codes "ERROR: missing ip/dns")
    else parse_port id protocol ip (before b' ' (rest_of (rest_of s)))

unfoldable pub id_read : List ℕ → Option ℕ → Parsed
unfolding parse_endpoint
id_read rest none = refused (codes "ERROR: invalid conn_id (1-5)")
id_read rest (some id) =
    if is_conn_id id then parse_endpoint id rest else refused (codes "ERROR: invalid conn_id (1-5)")

unfoldable pub parse_target : List ℕ → Parsed
unfolding rest_of before number_of id_read
parse_target args =
    if is_empty (before b' ' args)
    then refused (codes "ERROR: missing conn_id")
    else id_read (rest_of args) (number_of (before b' ' args))

-- The connection to disconnect, or the error to send back; the context's if none is named.
pub data ConnId : Type 0 where
  bad : List ℕ → ConnId
  conn : ℕ → ConnId

unfoldable pub parse_conn_id : ℕ → List ℕ → ConnId
unfolding number_of
parse_conn_id own args = if is_empty args then conn own else elim (number_of args) [
  | none ↦ bad (codes "ERROR: invalid conn_id")
  | some n ↦ if is_conn_id n then conn n else bad range_error
]
