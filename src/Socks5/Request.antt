-- ===== src/Socks5/Request.antt =====
-- What a client may send (RFC 1928), and what internal/sender/socks5/socks5.go makes of it.
use aztunnel.Common.{
  ℕ, ◌+◌, ◌*◌, true, ◌∷◌, ◌++◌, ◌≡◌, arith, length, take-append_self, drop-append_self,
  length-append, take-append-drop, length-take,
}
use aztunnel.Common.Text.{Bytes, contains, decimal}
use aztunnel.GoError.{Err}
use aztunnel.Socks5.{
  Conn, Failure, ok, read_full, join_host_port, version5, cmd_connect, auth_none, addr_ipv4,
  addr_ipv6, addr_domain,
}

pub data Address : Type 0 where
  ipv4 ipv6 domain : Bytes → Address

pub record Request : Type 0 where
  pub methods : Bytes
  pub reserved : ℕ
  pub address : Address
  pub port_hi : ℕ
  pub port_lo : ℕ

abbrev pub IsSized : Address → Type 0
IsSized (ipv4 a) = length a ≡ 4
IsSized (ipv6 a) = length a ≡ 16
IsSized (domain a) = Unit {0}

-- The client offers "no authentication", and the address has its length.
pub record IsValid (r : Request) : Type 0 where
  pub offers_none : contains auth_none r.methods ≡ true
  pub sized : IsSized r.address

abbrev pub encode_address : Address → Bytes
encode_address (ipv4 a) = addr_ipv4 ∷ a
encode_address (ipv6 a) = addr_ipv6 ∷ a
encode_address (domain a) = addr_domain ∷ length a ∷ a

-- The greeting, and the request proper, each with what follows it.
abbrev pub encode_greeting : Request → Bytes → Bytes
encode_greeting r rest = version5 ∷ length r.methods ∷ (r.methods ++ rest)

abbrev pub encode_request : Request → Bytes → Bytes
encode_request r rest =
    version5 ∷ cmd_connect ∷ r.reserved ∷ (encode_address r.address ++ r.port_hi ∷ r.port_lo ∷ rest)

abbrev pub host_of : (Bytes → Bytes) → Address → Bytes
host_of ip_string (ipv4 a) = ip_string a
host_of ip_string (ipv6 a) = ip_string a
host_of ip_string (domain a) = a

-- The target that the request names.
abbrev pub target_of : (Bytes → Bytes) → Request → Bytes
target_of ip_string r =
    join_host_port (host_of ip_string r.address) (decimal (r.port_hi * 256 + r.port_lo))

-- Reading a field that is there.
pub read_full-append :
    (n : ℕ) (why : Err → Failure) (bs rest out : Bytes) (k : ℕ)
    → length bs ≡ n
    → read_full n why (record { input = bs ++ rest; output = out; writes_left = k })
      ≡ (ok bs, record { input = rest; output = out; writes_left = k })
unfolding read_full
read_full-append n why bs rest out k h =
    rw (← h, take-append_self bs rest, drop-append_self bs rest)
      (ground (arith, length-append bs rest))

-- Reading is exact: what was read stood in front of the input that is left.
pub read_full-ok :
    (n : ℕ) (why : Err → Failure) (c : Conn) {bs : Bytes} {c' : Conn}
    → read_full n why c ≡ (ok bs, c')
    → (c.input ≡ bs ++ c'.input)
      × (length bs ≡ n)
      × (c'.output ≡ c.output)
      × (c'.writes_left ≡ c.writes_left)
unfolding read_full
read_full-ok n why c h = ground (arith, take-append-drop n c.input, length-take n c.input)
