-- ===== src/Rpc/Targets.antt =====
-- The arguments of SET SERVERCONNECT (examples/desktop/app_rpc_server.cpp): what they may ask for, and
-- how a target is written.
use x_e310_multi_os.Base.{
  ◌+◌, ◌*◌, ◌-◌, ◌<◌, ◌≤◌, ◌^◌, ℕ, ◌≡◌, refl, ap, ◌∙◌, Bool, true, false, ◌&&◌, not, List, [], ◌∷◌,
  ◌++◌, length, is_empty, leb, is_digit, digits_from, digits_from-show, all_digits, show-all_digits,
  show-some, before, show, Option, none, some, arith,
}
use x_e310_multi_os.FixedString.{of_view-bounded, of_view-fits}
use x_e310_multi_os.Modem.Types.{modem_short_str, modem_medium_str}
use x_e310_multi_os.Rpc.Pairs.{lacks, before-lacks, after-lacks}
use x_e310_multi_os.Rpc.Words.{rest_of, number_of, decimal_from}
use x_e310_multi_os.Rpc.Arguments.{
  Target, parsed, is_conn_id, port_read, parse_port, parse_endpoint, id_read, parse_target,
}

-- What the modem is ever asked to connect to.
pub record IsTarget (t : Target) : Type 0 where
  pub conn_id_from : 1 ≤ t.conn_id
  pub conn_id_to : t.conn_id ≤ 5
  pub port_from : 1 ≤ t.port
  pub port_to : t.port ≤ 65535
  pub protocol_fits : length t.protocol ≤ modem_short_str
  pub ip_fits : length t.ip ≤ modem_medium_str

decimal_from-digits :
    (n : ℕ) (s : List ℕ) → all_digits s ≡ true → decimal_from n s ≡ some (digits_from n s)
unfolding decimal_from digits_from is_digit
decimal_from-digits n [] h = refl
decimal_from-digits n (c ∷ s) h =
    let first : is_digit c ≡ true = ground arith in
    let next : n * 10 + (c - 48) ≡ 10 * n + (c - 48) = omega arith in
    rw (first, next) (decimal_from-digits (10 * n + (c - 48)) s (ground arith))

number_of-show : (n : ℕ) → n < 10 ^ 20 → number_of (show n) ≡ some n
unfolding number_of
number_of-show n h =
    decimal_from-digits 0 (show n) (show-all_digits n) ∙ ap some (digits_from-show n h)

digits-lack-space : (s : List ℕ) → all_digits s ≡ true → lacks b' ' s ≡ true
unfolding is_digit
digits-lack-space [] h = refl
digits-lack-space (c ∷ s) h = ground (arith, digits-lack-space s)

port_read-IsTarget :
    (id : ℕ) (protocol ip : List ℕ) (n : Option ℕ) (t : Target)
    → is_conn_id id ≡ true
    → port_read id protocol ip n ≡ parsed t
    → IsTarget t
unfolding port_read
port_read-IsTarget id protocol ip none t good h = cc
port_read-IsTarget id protocol ip (some port) t good h = ground (
  arith,
  of_view-bounded modem_short_str (before 0 protocol),
  of_view-bounded modem_medium_str (before 0 ip),
)

parse_endpoint-IsTarget :
    (id : ℕ) (s : List ℕ) (t : Target)
    → is_conn_id id ≡ true
    → parse_endpoint id s ≡ parsed t
    → IsTarget t
unfolding parse_endpoint parse_port
parse_endpoint-IsTarget id s t good h = ground (
  arith,
  port_read-IsTarget id (before b' ' s) (before b' ' (rest_of s))
      (number_of (before b' ' (rest_of (rest_of s)))) t,
)

id_read-IsTarget :
    (rest : List ℕ) (n : Option ℕ) (t : Target) → id_read rest n ≡ parsed t → IsTarget t
unfolding id_read
id_read-IsTarget rest none t h = cc
id_read-IsTarget rest (some id) t h = ground (arith, parse_endpoint-IsTarget id rest t)

-- Whatever the arguments are: a target that is accepted has a connection of 1 to 5, a port of 1 to
-- 65535, and a protocol and an address that fit their fields.
pub parse_target-IsTarget : (args : List ℕ) (t : Target) → parse_target args ≡ parsed t → IsTarget t
unfolding parse_target
parse_target-IsTarget args t h =
    ground (arith, id_read-IsTarget (rest_of args) (number_of (before b' ' args)) t)

-- A word of the line: it has a byte, and no space or zero byte.
abbrev pub is_word : List ℕ → Bool
is_word s = not (is_empty s) && lacks b' ' s && lacks 0 s

-- A target as SERVERCONNECT takes it.
abbrev pub target_text : Target → List ℕ
unfolding show
target_text t = show t.conn_id ++ (b' ' ∷ (t.protocol ++ (b' ' ∷ (t.ip ++ (b' ' ∷ show t.port)))))

before-all : (d : ℕ) (s : List ℕ) → lacks d s ≡ true → before d s ≡ s
unfolding before
before-all d [] h = refl
before-all d (c ∷ s) h = ground (arith, before-all d s)

rest_of-lacks : (s rest : List ℕ) → lacks b' ' s ≡ true → rest_of (s ++ (b' ' ∷ rest)) ≡ rest
unfolding rest_of
rest_of-lacks s rest h = rw (rest_of, after-lacks b' ' s rest h) refl

parse_port-show :
    (id : ℕ) (protocol ip : List ℕ) (port : ℕ)
    → (leb 1 port && leb port 65535) ≡ true
    → lacks 0 protocol ≡ true
    → lacks 0 ip ≡ true
    → length protocol ≤ modem_short_str
    → length ip ≤ modem_medium_str
    → parse_port id protocol ip (show port)
      ≡ parsed (record { conn_id = id; protocol = protocol; ip = ip; port = port })
unfolding parse_port port_read
parse_port-show id protocol ip port in_range p i fits fits' =
    rw
      (
        show-some port,
        number_of-show port (ground arith),
        in_range,
        before-all 0 protocol p,
        before-all 0 ip i,
        of_view-fits modem_short_str protocol fits,
        of_view-fits modem_medium_str ip fits',
      )
      refl

parse_endpoint-text :
    (id : ℕ) (protocol ip : List ℕ) (port : ℕ)
    → (leb 1 port && leb port 65535) ≡ true
    → is_word protocol ≡ true
    → is_word ip ≡ true
    → length protocol ≤ modem_short_str
    → length ip ≤ modem_medium_str
    → parse_endpoint id (protocol ++ (b' ' ∷ (ip ++ (b' ' ∷ show port))))
      ≡ parsed (record { conn_id = id; protocol = protocol; ip = ip; port = port })
unfolding parse_endpoint
parse_endpoint-text id protocol ip port in_range p i fits fits' =
    let end = ip ++ (b' ' ∷ show port) in
    let p₁ : lacks b' ' protocol ≡ true = ground arith in
    let i₁ : lacks b' ' ip ≡ true = ground arith in
    let some_protocol : is_empty protocol ≡ false = ground arith in
    let some_ip : is_empty ip ≡ false = ground arith in
    rw
      (
        before-lacks b' ' protocol end p₁,
        rest_of-lacks protocol end p₁,
        before-lacks b' ' ip (show port) i₁,
        rest_of-lacks ip (show port) i₁,
        before-all b' ' (show port) (digits-lack-space (show port) (show-all_digits port)),
        some_protocol,
        some_ip,
      )
      (parse_port-show id protocol ip port in_range (ground arith) (ground arith) fits fits')

-- A target that is written down is read as it was, when it is one that may be asked for and its
-- protocol and its address are words.
pub parse_target-text :
    (t : Target)
    → IsTarget t
    → is_word t.protocol ≡ true
    → is_word t.ip ≡ true
    → parse_target (target_text t) ≡ parsed t
unfolding parse_target id_read target_text
parse_target-text t h p i =
    let tail = t.protocol ++ (b' ' ∷ (t.ip ++ (b' ' ∷ show t.port))) in
    let id = show t.conn_id in
    let digits = digits-lack-space id (show-all_digits t.conn_id) in
    let good : is_conn_id t.conn_id ≡ true = ground (arith, h.conn_id_from, h.conn_id_to) in
    let in_range : (leb 1 t.port && leb t.port 65535) ≡ true =
      ground (arith, h.port_from, h.port_to) in
    rw
      (
        before-lacks b' ' id tail digits,
        rest_of-lacks id tail digits,
        show-some t.conn_id,
        number_of-show t.conn_id (omega (arith, h.conn_id_to)),
        good,
      )
      (parse_endpoint-text t.conn_id t.protocol t.ip t.port in_range p i h.protocol_fits h.ip_fits)
