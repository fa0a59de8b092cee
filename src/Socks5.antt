-- ===== src/Socks5.antt =====
-- internal/sender/socks5/socks5.go, over an explicit connection. The children prove which inputs the
-- handshake accepts and what it answers.
pub mod Reply
pub mod Request
pub mod Handshake
pub mod Sound
pub mod Refuse
use aztunnel.Common.{
  ℕ, ◌+◌, ◌-◌, ◌*◌, ◌/◌, ◌%◌, ◌^◌, Bool, true, false, ◌||◌, Option, none, some, List, [], ◌∷◌, ◌++◌,
  length, take, drop, leb, ltb, ◌==◌, if◌then◌else◌, not, ◌&&◌, zero, suc,
}
use aztunnel.Common.Text.{Bytes, codes, contains, bytes_eq, decimal}
use aztunnel.GoError.{Err, leaf, eof, unexpected_eof, text}

abbrev pub version5 : ℕ
version5 = 0x05

abbrev pub auth_none : ℕ
auth_none = 0x00

abbrev pub auth_no_acceptable : ℕ
auth_no_acceptable = 0xFF

abbrev pub cmd_connect : ℕ
cmd_connect = 0x01

abbrev pub addr_ipv4 : ℕ
addr_ipv4 = 0x01

abbrev pub addr_domain : ℕ
addr_domain = 0x03

abbrev pub addr_ipv6 : ℕ
addr_ipv6 = 0x04

-- The REP bytes.
abbrev pub rep_success : ℕ
rep_success = 0x00

abbrev pub rep_general_failure : ℕ
rep_general_failure = 0x01

abbrev pub rep_network_unreachable : ℕ
rep_network_unreachable = 0x03

abbrev pub rep_host_unreachable : ℕ
rep_host_unreachable = 0x04

abbrev pub rep_connection_refused : ℕ
rep_connection_refused = 0x05

abbrev pub rep_command_not_supported : ℕ
rep_command_not_supported = 0x07

abbrev pub rep_address_not_supported : ℕ
rep_address_not_supported = 0x08

-- The client's connection: the bytes that it will still deliver before EOF, those written to it,
-- and how many writes succeed before it breaks.
pub record Conn : Type 0 where
  pub input : Bytes
  pub output : Bytes
  pub writes_left : ℕ

-- The errors of `Handshake`.
pub data Failure : Type 0 where
  read_auth_header : Err → Failure
  unsupported_version : ℕ → Failure
  no_methods : Failure
  read_auth_methods : Err → Failure
  no_no_auth : Failure
  write_auth_reply : Failure
  read_request_header : Err → Failure
  unsupported_request_version : ℕ → Failure
  unsupported_command : ℕ → Failure
  read_ipv4 read_ipv6 read_domain_length read_domain : Err → Failure
  unsupported_address : ℕ → Failure
  read_port : Err → Failure

pub data Result {ℓ} (A : Type ℓ) : Type ℓ where
  ok : A → Result A
  err : Failure → Result A

abbrev pub M : Type 0 → Type 0
M A = Conn → Result A × Conn

abbrev pub after {ℓ} :
    {A B : Type ℓ} → Result A → Conn → (A → Conn → Result B × Conn) → Result B × Conn
after (ok a) c k = k a c
after (err e) c k = (err e, c)

infixl 5 ◌>>=◌ ◌>>◌
abbrev pub ◌>>=◌ : {A B : Type 0} → M A → (A → M B) → M B
◌>>=◌ m k c = after (m c).0 (m c).1 k

abbrev pub ◌>>◌ : {B : Type 0} → M (Unit {0}) → M B → M B
m >> k = m >>= λ _. k

abbrev pub pure : {A : Type 0} → A → M A
pure a c = (ok a, c)

abbrev pub fail : {A : Type 0} → Failure → M A
fail e c = (err e, c)

-- The error of `io.ReadFull` when the input ends before the buffer is full.
abbrev pub short_read : Bytes → Err
short_read [] = leaf eof
short_read (_ ∷ _) = leaf unexpected_eof

-- `io.ReadFull(conn, buf)` with a buffer of `n` bytes, and the error wrapped by `why`.
unfoldable pub read_full : ℕ → (Err → Failure) → M Bytes
read_full n why c =
    if leb n (length c.input)
    then (ok (take n c.input), record c { input = drop n c.input })
    else (err (why (short_read c.input)), record c { input = [] })

abbrev put : ℕ → Bytes → Conn → Bool × Conn
put zero bs c = (false, c)
put (suc k) bs c = (true, record c { output = c.output ++ bs; writes_left = k })

-- `conn.Write(bs)`: whether it succeeded.
unfoldable pub write : Bytes → M Bool
write bs c = let (done, c') = put c.writes_left bs c in (ok done, c')

abbrev pub guard : Bool → Failure → M (Unit {0})
guard true e = pure tt
guard false e = fail e

-- `buf[i]`, within the buffers that `read_full` fills.
abbrev pub at : ℕ → Bytes → ℕ
at i [] = 0
at zero (b ∷ bs) = b
at (suc i) (b ∷ bs) = at i bs

-- `uint16(port)`, big-endian.
abbrev pub be16 : ℕ → Bytes
be16 p = (p / 256 % 256) ∷ (p % 256) ∷ []

-- `net.TCPAddr`
pub record TcpAddr : Type 0 where
  pub ip : Bytes
  pub port : ℕ

-- `v4InV6Prefix` of package net
abbrev pub v4_in_v6 : Bytes
v4_in_v6 = 0 ∷ 0 ∷ 0 ∷ 0 ∷ 0 ∷ 0 ∷ 0 ∷ 0 ∷ 0 ∷ 0 ∷ 255 ∷ 255 ∷ []

-- `net.IP.To4`
unfoldable pub to4 : Bytes → Option Bytes
to4 ip =
    if length ip == 4
    then some ip
    else if length ip == 16 && bytes_eq (take 12 ip) v4_in_v6
    then some (drop 12 ip)
    else none

-- `net.IP.To16` where `To4` has failed.
abbrev to16 : Bytes → Bytes
to16 ip = if length ip == 16 then ip else []

abbrev typed_addr : Option Bytes → Bytes → Bytes
typed_addr (some ip4) ip = addr_ipv4 ∷ ip4
typed_addr none ip = addr_ipv6 ∷ to16 ip

-- The bytes of `SendReply`.
unfoldable pub reply : ℕ → Option TcpAddr → Bytes
unfolding to4
reply rep none = version5 ∷ rep ∷ 0x00 ∷ addr_ipv4 ∷ 0 ∷ 0 ∷ 0 ∷ 0 ∷ be16 0
reply rep (some a) = version5 ∷ rep ∷ 0x00 ∷ (typed_addr (to4 a.ip) a.ip ++ be16 a.port)

unfoldable pub send_reply : ℕ → Option TcpAddr → M Bool
send_reply rep bind = write (reply rep bind)

-- `net.JoinHostPort`
unfoldable pub join_host_port : Bytes → Bytes → Bytes
join_host_port host port =
    if contains b':' host then b'[' ∷ (host ++ b']' ∷ b':' ∷ port) else host ++ b':' ∷ port

-- The choice of an auth method.
unfoldable pub choose_auth : Bool → M (Unit {0})
choose_auth false = write (version5 ∷ auth_no_acceptable ∷ []) >>= λ _. fail no_no_auth
choose_auth true = do done ← write (version5 ∷ auth_none ∷ []); guard done write_auth_reply

unfoldable pub negotiate : M (Unit {0})
negotiate = do
  header ← read_full 2 read_auth_header
  guard (at 0 header == version5) (unsupported_version (at 0 header))
  guard (not (at 1 header == 0)) no_methods
  methods ← read_full (at 1 header) read_auth_methods
  choose_auth (contains auth_none methods)

-- `net.IP.String` is the argument `ip_string`: the text form of 4 or of 16 bytes.
module _ (ip_string : Bytes → Bytes) where
  -- The `switch` over the address type.
  unfoldable pub read_host : ℕ → M Bytes
  read_host atyp =
      if atyp == addr_ipv4
      then (read_full 4 read_ipv4 >>= λ addr. pure (ip_string addr))
      else if atyp == addr_ipv6
      then (read_full 16 read_ipv6 >>= λ addr. pure (ip_string addr))
      else if atyp == addr_domain
      then (read_full 1 read_domain_length >>= λ len. read_full (at 0 len) read_domain)
      else (send_reply rep_address_not_supported none >>= λ _. fail (unsupported_address atyp))

  -- The answer to a command other than CONNECT.
  unfoldable pub check_command : ℕ → M (Unit {0})
  check_command cmd =
      if cmd == cmd_connect
      then pure tt
      else (send_reply rep_command_not_supported none >>= λ _. fail (unsupported_command cmd))

  unfoldable pub read_request : M Bytes
  unfolding read_host check_command
  read_request = do
    header ← read_full 4 read_request_header
    guard (at 0 header == version5) (unsupported_request_version (at 0 header))
    check_command (at 1 header)
    host ← read_host (at 3 header)
    port ← read_full 2 read_port
    pure (join_host_port host (decimal (at 0 port * 256 + at 1 port)))

  unfoldable pub handshake : M Bytes
  handshake = negotiate >> read_request
