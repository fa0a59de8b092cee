-- ===== src/Examples/Handshakes.antt =====
-- Runs of the SOCKS5 server of internal/sender/socks5.
use aztunnel.Common.{
  ℕ, ◌+◌, suc, ◌≤◌, Bool, true, false, Option, none, some, List, [], ◌∷◌, ◌++◌, ◌≡◌, refl, ◌⊎◌, inl,
  inr, length, arith,
}
use aztunnel.Common.Text.{Bytes, codes, decimal}
use aztunnel.Socks5.{
  Conn, Failure, ok, err, unsupported_command, handshake, reply, rep_success, version5, auth_none,
  to4, TcpAddr, read_request, negotiate,
}
use aztunnel.Socks5.Request.{Request, domain, IsValid, encode_greeting, encode_request, target_of}
use aztunnel.Socks5.Handshake.{handshake-encode}
use aztunnel.Socks5.Sound.{handshake-ok}
use aztunnel.Socks5.Refuse.{handshake-err, answer}

-- A text form of an address that serves the example.
abbrev pub ip_string : Bytes → Bytes
ip_string bs = codes "address"

-- CONNECT to "a:80".
abbrev pub to_a : Request
to_a = record {
  methods = 0 ∷ [];
  reserved = 0;
  address = domain (codes "a");
  port_hi = 0;
  port_lo = 80;
}

pub to_a-IsValid : IsValid to_a
unfolding aztunnel.Common.Text.contains
to_a-IsValid = record { offers_none = refl; sized = tt }

abbrev pub client : Conn
client = record {
  input = encode_greeting to_a (encode_request to_a (codes "hello"));
  output = [];
  writes_left = 2;
}

abbrev pub client_behind : Conn
client_behind = record {
  input = codes "hello";
  output = version5 ∷ auth_none ∷ [];
  writes_left = 1;
}

handshake-encode_example : handshake ip_string client ≡ (ok (codes "a:80"), client_behind)
unfolding aztunnel.Common.Text.decimal aztunnel.Socks5.join_host_port aztunnel.Common.Text.contains
handshake-encode_example = handshake-encode ip_string to_a (codes "hello") [] 1 to_a-IsValid

pub client-accepted : handshake ip_string client ≡ (ok (codes "a:80"), client_behind)
unfolding handshake negotiate aztunnel.Socks5.read_full aztunnel.Socks5.choose_auth
    aztunnel.Common.Text.contains aztunnel.Socks5.write read_request aztunnel.Socks5.join_host_port
    decimal
client-accepted = refl

handshake-ok_example :
    (r : Request) × IsValid r
    × (client.input ≡ encode_greeting r (encode_request r client_behind.input))
    × (codes "a:80" ≡ target_of ip_string r)
    × (client_behind.output ≡ client.output ++ version5 ∷ auth_none ∷ [])
handshake-ok_example = handshake-ok ip_string client client-accepted

-- A client that asks for BIND.
abbrev pub binder : Conn
binder = record { input = 5 ∷ 1 ∷ 0 ∷ 5 ∷ 2 ∷ 0 ∷ 1 ∷ []; output = []; writes_left = 3 }

abbrev pub binder_behind : Conn
binder_behind = record {
  input = [];
  output = 5 ∷ 0 ∷ 5 ∷ 7 ∷ 0 ∷ 1 ∷ 0 ∷ 0 ∷ 0 ∷ 0 ∷ 0 ∷ 0 ∷ [];
  writes_left = 1;
}

pub binder-refused : handshake ip_string binder ≡ (err (unsupported_command 2), binder_behind)
unfolding handshake negotiate aztunnel.Socks5.read_full aztunnel.Socks5.choose_auth
    aztunnel.Common.Text.contains aztunnel.Socks5.write read_request aztunnel.Socks5.join_host_port
    decimal aztunnel.Socks5.check_command aztunnel.Socks5.send_reply aztunnel.Socks5.reply
binder-refused = refl

handshake-err_example : binder_behind.output ≡ binder.output ++ answer (unsupported_command 2)
handshake-err_example = handshake-err ip_string binder binder-refused (omega arith)
