-- ===== src/Socks5/Handshake.antt =====
-- `Handshake` of internal/sender/socks5/socks5.go accepts exactly the well-formed requests.
use aztunnel.Common.{ℕ, suc, ◌+◌, ◌*◌, true, [], ◌∷◌, ◌++◌, ◌≡◌, refl, arith, length}
use aztunnel.Common.Text.{Bytes, contains, decimal}
use aztunnel.Socks5.{
  ok, join_host_port, version5, cmd_connect, auth_none, choose_auth, negotiate, read_request,
  handshake, write, read_auth_header, read_auth_methods, read_request_header, read_ipv4, read_ipv6,
  read_domain_length, read_domain, read_port,
}
use aztunnel.Socks5.Request.{
  Request, Address, ipv4, ipv6, domain, IsSized, IsValid, encode_address, encode_greeting,
  encode_request, host_of, target_of, read_full-append,
}

length_pos : (b : ℕ) (s : Bytes) → contains b s ≡ true → (length s ≡ 0) → ⊥
unfolding contains
length_pos b [] h e = cc
length_pos b (c ∷ s) h e = omega arith

negotiate-encode :
    (r : Request) (rest out : Bytes) (k : ℕ)
    → contains auth_none r.methods ≡ true
    → negotiate (record { input = encode_greeting r rest; output = out; writes_left = suc k })
      ≡ (ok tt, record { input = rest; output = out ++ version5 ∷ auth_none ∷ []; writes_left = k })
unfolding negotiate choose_auth write
negotiate-encode r rest out k h = ground (
  arith,
  length_pos auth_none r.methods h,
  read_full-append 2 read_auth_header (version5 ∷ length r.methods ∷ []) (r.methods ++ rest) out
      (suc k) refl,
  read_full-append (length r.methods) read_auth_methods r.methods rest out (suc k) refl,
)

module _ (ip_string : Bytes → Bytes) where
  read_request-address :
      (a : Address) (rsv hi lo : ℕ) (rest out : Bytes) (k : ℕ)
      → IsSized a
      → read_request ip_string (record {
        input = version5 ∷ cmd_connect ∷ rsv ∷ (encode_address a ++ hi ∷ lo ∷ rest);
        output = out;
        writes_left = k;
      })
        ≡ (
          ok (join_host_port (host_of ip_string a) (decimal (hi * 256 + lo))),
          record { input = rest; output = out; writes_left = k },
        )
  unfolding read_request
  read_request-address (ipv4 a) rsv hi lo rest out k h = rw (
    read_full-append 4 read_request_header (5 ∷ 1 ∷ rsv ∷ 1 ∷ []) (a ++ hi ∷ lo ∷ rest) out k refl,
    read_full-append 4 read_ipv4 a (hi ∷ lo ∷ rest) out k h,
    read_full-append 2 read_port (hi ∷ lo ∷ []) rest out k refl,
  )
  read_request-address (ipv6 a) rsv hi lo rest out k h = rw (
    read_full-append 4 read_request_header (5 ∷ 1 ∷ rsv ∷ 4 ∷ []) (a ++ hi ∷ lo ∷ rest) out k refl,
    read_full-append 16 read_ipv6 a (hi ∷ lo ∷ rest) out k h,
    read_full-append 2 read_port (hi ∷ lo ∷ []) rest out k refl,
  )
  read_request-address (domain a) rsv hi lo rest out k h = rw (
    read_full-append 4 read_request_header (5 ∷ 1 ∷ rsv ∷ 3 ∷ []) (length a ∷ (a ++ hi ∷ lo ∷ rest))
        out k refl,
    read_full-append 1 read_domain_length (length a ∷ []) (a ++ hi ∷ lo ∷ rest) out k refl,
    read_full-append (length a) read_domain a (hi ∷ lo ∷ rest) out k refl,
    read_full-append 2 read_port (hi ∷ lo ∷ []) rest out k refl,
  )

  -- On a connection that takes a write, a client that offers "no authentication" and sends a
  -- well-formed CONNECT request is accepted:
  -- the handshake returns the target that the request names, answers 05 00, and leaves what the
  -- client sent behind the request unread.
  pub handshake-encode :
      (r : Request) (rest out : Bytes) (k : ℕ)
      → IsValid r
      → handshake ip_string (record {
        input = encode_greeting r (encode_request r rest);
        output = out;
        writes_left = suc k;
      })
        ≡ (
          ok (target_of ip_string r),
          record { input = rest; output = out ++ version5 ∷ auth_none ∷ []; writes_left = k },
        )
  unfolding handshake
  handshake-encode r rest out k v =
      rw (negotiate-encode r (encode_request r rest) out k v.offers_none) (
        read_request-address r.address r.reserved r.port_hi r.port_lo rest
          (out ++ version5 ∷ auth_none ∷ []) k v.sized)
