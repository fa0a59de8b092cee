-- ===== src/Socks5/Reply.antt =====
-- The replies of internal/sender/socks5/socks5.go, read back as a client reads them.
use aztunnel.Common.{
  ℕ, ◌+◌, ◌*◌, ◌/◌, ◌%◌, ◌<◌, Option, none, some, [], ◌∷◌, ◌++◌, ◌≡◌, ◌⊎◌, inl, inr, append_assoc,
  arith, length, take, drop, leb, ◌==◌, if◌then◌else◌, take-append_self, drop-append_self,
  length-append, length-drop, Bool-cases,
}
use aztunnel.Common.Text.{Bytes, bytes_eq}
use aztunnel.Socks5.{TcpAddr, addr_ipv4, v4_in_v6, addr_ipv6, version5, to4, reply}

-- What a client learns from a reply (RFC 1928, section 6): the REP byte, the bound address and
-- port, and the bytes behind the reply.
pub record Parsed : Type 0 where
  pub rep : ℕ
  pub addr : Bytes
  pub port : ℕ
  pub rest : Bytes

abbrev parse_port : ℕ → Bytes → Bytes → Option Parsed
parse_port rep addr (hi ∷ lo ∷ rest) =
    some (record { rep = rep; addr = addr; port = hi * 256 + lo; rest = rest })
parse_port rep addr _ = none

abbrev addr_size : ℕ → Option ℕ
addr_size atyp = if atyp == addr_ipv4 then some 4 else if atyp == addr_ipv6 then some 16 else none

abbrev parse_addr : ℕ → Option ℕ → Bytes → Option Parsed
parse_addr rep none bs = none
parse_addr rep (some n) bs =
    if leb n (length bs) then parse_port rep (take n bs) (drop n bs) else none

unfoldable pub parse_reply : Bytes → Option Parsed
parse_reply (ver ∷ rep ∷ rsv ∷ atyp ∷ bs) =
    if ver == version5 then parse_addr rep (addr_size atyp) bs else none
parse_reply _ = none

-- The address that `SendReply` puts on the wire: an IPv4 address in its short form.
abbrev pub short_form : Option Bytes → Bytes → Bytes
short_form (some ip4) ip = ip4
short_form none ip = ip

parse_tail :
    (rep p : ℕ) (ip rest : Bytes)
    → parse_addr rep (some (length ip)) (ip ++ (p / 256 % 256) ∷ (p % 256) ∷ rest)
      ≡ some (record { rep = rep; addr = ip; port = (p / 256 % 256) * 256 + p % 256; rest = rest })
parse_tail rep p ip rest =
    let tail : Bytes = (p / 256 % 256) ∷ (p % 256) ∷ rest in
    rw (take-append_self ip tail, drop-append_self ip tail) (ground (arith, length-append ip tail))

parse_sized :
    (n rep p : ℕ) (ip rest : Bytes)
    → length ip ≡ n
    → p < 65536
    → parse_addr rep (some n) (ip ++ (p / 256 % 256) ∷ (p % 256) ∷ rest)
      ≡ some (record { rep = rep; addr = ip; port = p; rest = rest })
parse_sized n rep p ip rest h l = rw (← h) (ground (arith, parse_tail rep p ip rest))

to16_self : (ip : Bytes) → length ip ≡ 16 → (if length ip == 16 then ip else []) ≡ ip
to16_self ip h = ground arith

to4-cases :
    (ip : Bytes)
    → (length ip ≡ 4) ⊎ (length ip ≡ 16)
    → ((ip4 : Bytes) × (to4 ip ≡ some ip4) × (length ip4 ≡ 4))
      ⊎ ((to4 ip ≡ none) × (length ip ≡ 16))
unfolding to4
to4-cases ip (inl h) = inl (ip, ground arith, h)
to4-cases ip (inr h) = elim (Bool-cases (bytes_eq (take 12 ip) v4_in_v6)) [
  | inl m ↦ inl (drop 12 ip, ground arith, omega (arith, length-drop 12 ip))
  | inr m ↦ inr (ground arith, h)
]

-- A reply for a bound address of 4 or 16 bytes is read back by the client as the same REP byte,
-- the same address (an IPv4-mapped one in its 4 bytes) and the port, and it ends where it should.
pub parse_reply-reply :
    (rep : ℕ) (a : TcpAddr) (rest : Bytes)
    → (length a.ip ≡ 4) ⊎ (length a.ip ≡ 16)
    → a.port < 65536
    → parse_reply (reply rep (some a) ++ rest)
      ≡ some (record { rep = rep; addr = short_form (to4 a.ip) a.ip; port = a.port; rest = rest })
unfolding parse_reply reply
parse_reply-reply rep a rest h p = elim (to4-cases a.ip h) [
  | inl (ip4, e, l) ↦
      rw (e, reply, parse_reply, append_assoc ip4) (parse_sized 4 rep a.port ip4 rest l p)
  | inr (e, l) ↦
      rw (e, reply, parse_reply, to16_self a.ip l, append_assoc a.ip)
        (parse_sized 16 rep a.port a.ip rest l p)
]

-- Without a bound address, the client reads the zero IPv4 address and port 0.
pub parse_reply-none :
    (rep : ℕ) (rest : Bytes)
    → parse_reply (reply rep none ++ rest)
      ≡ some (record { rep = rep; addr = 0 ∷ 0 ∷ 0 ∷ 0 ∷ []; port = 0; rest = rest })
unfolding parse_reply reply
parse_reply-none rep rest = ground arith
