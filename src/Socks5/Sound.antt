-- ===== src/Socks5/Sound.antt =====
-- What a successful `Handshake` of internal/sender/socks5/socks5.go has read and written.
use aztunnel.Common.{
  ℕ, suc, ◌+◌, ◌*◌, Bool, true, false, [], ◌∷◌, ◌++◌, ◌≡◌, refl, sym, ◌∙◌, ◌⊎◌, inl, inr, arith,
  length, Bool-cases, ◌==◌,
}
use aztunnel.Common.Text.{Bytes, contains, decimal}
use aztunnel.Socks5.{
  Conn, Failure, Result, ok, err, read_full, join_host_port, version5, cmd_connect, auth_none,
  addr_ipv4, addr_ipv6, negotiate, read_request, handshake, write, at, choose_auth, read_host,
  read_auth_header, read_auth_methods, read_request_header, read_ipv4, read_ipv6,
  read_domain_length, read_domain, read_port,
}
use aztunnel.Socks5.Request.{
  Request, Address, ipv4, ipv6, domain, IsSized, IsValid, encode_address, encode_greeting,
  encode_request, host_of, target_of, read_full-ok,
}

-- A read has succeeded, or it has not.
abbrev pub Reads : Result Bytes × Conn → Type 0
Reads m =
    ((bs : Bytes) × (c : Conn) × (m ≡ (ok bs, c))) ⊎ ((e : Failure) × (c : Conn) × (m ≡ (err e, c)))

pub reads : (m : Result Bytes × Conn) → Reads m
reads (ok bs, c) = inl (bs, c, refl)
reads (err e, c) = inr (e, c, refl)

pub negotiated :
    (m : Result (Unit {0}) × Conn)
    → ((c : Conn) × (m ≡ (ok tt, c))) ⊎ ((e : Failure) × (c : Conn) × (m ≡ (err e, c)))
negotiated (ok u, c) = inl (c, refl)
negotiated (err e, c) = inr (e, c, refl)

one_byte : (bs : Bytes) → length bs ≡ 1 → bs ≡ at 0 bs ∷ []
one_byte (a ∷ []) h = refl
one_byte [] h = absurd (omega arith)
one_byte (a ∷ b ∷ bs) h = absurd (omega arith)

two_bytes : (bs : Bytes) → length bs ≡ 2 → bs ≡ at 0 bs ∷ at 1 bs ∷ []
two_bytes (a ∷ b ∷ []) h = refl
two_bytes [] h = absurd (omega arith)
two_bytes (a ∷ []) h = absurd (omega arith)
two_bytes (a ∷ b ∷ c ∷ bs) h = absurd (omega arith)

four_bytes : (bs : Bytes) → length bs ≡ 4 → bs ≡ at 0 bs ∷ at 1 bs ∷ at 2 bs ∷ at 3 bs ∷ []
four_bytes (a ∷ b ∷ c ∷ d ∷ []) h = refl
four_bytes [] h = absurd (omega arith)
four_bytes (a ∷ []) h = absurd (omega arith)
four_bytes (a ∷ b ∷ []) h = absurd (omega arith)
four_bytes (a ∷ b ∷ c ∷ []) h = absurd (omega arith)
four_bytes (a ∷ b ∷ c ∷ d ∷ e ∷ bs) h = absurd (omega arith)

choose_auth-ok :
    (b : Bool) (c : Conn) {c' : Conn}
    → choose_auth b c ≡ (ok tt, c')
    → (b ≡ true)
      × (c'.input ≡ c.input)
      × (c'.output ≡ c.output ++ version5 ∷ auth_none ∷ [])
      × (c.writes_left ≡ suc c'.writes_left)
unfolding choose_auth write
choose_auth-ok b c h = ground arith

-- The two reads of `negotiate`, put in.
negotiate_version :
    (c : Conn) (hd : Bytes) {c1 c' : Conn}
    → read_full 2 read_auth_header c ≡ (ok hd, c1)
    → negotiate c ≡ (ok tt, c')
    → at 0 hd ≡ version5
unfolding negotiate
negotiate_version c hd q h = ground arith

pub negotiate_chooses :
    (c : Conn) (hd ms : Bytes) {c1 c2 : Conn}
    → read_full 2 read_auth_header c ≡ (ok hd, c1)
    → at 0 hd == version5 ≡ true
    → at 1 hd == 0 ≡ false
    → read_full (at 1 hd) read_auth_methods c1 ≡ (ok ms, c2)
    → negotiate c ≡ choose_auth (contains auth_none ms) c2
unfolding negotiate
negotiate_chooses c hd ms q v z q2 = rw (q, negotiate, v, z, q2)

negotiate_tail :
    (c : Conn) (hd ms : Bytes) {c1 c2 c' : Conn}
    → read_full 2 read_auth_header c ≡ (ok hd, c1)
    → read_full (at 1 hd) read_auth_methods c1 ≡ (ok ms, c2)
    → negotiate c ≡ (ok tt, c')
    → choose_auth (contains auth_none ms) c2 ≡ (ok tt, c')
unfolding negotiate
negotiate_tail c hd ms q q2 h = elim (Bool-cases (at 0 hd == version5)) [
  | inl v ↦ elim (Bool-cases (at 1 hd == 0)) [
    | inl z ↦ absurd (ground arith)
    | inr z ↦ sym (negotiate_chooses c hd ms q v z q2) ∙ h
  ]
  | inr v ↦ absurd (ground arith)
]

pub negotiate-ok :
    (c : Conn) {c' : Conn}
    → negotiate c ≡ (ok tt, c')
    → (methods : Bytes) × (contains auth_none methods ≡ true)
      × (c.input ≡ version5 ∷ length methods ∷ (methods ++ c'.input))
      × (c'.output ≡ c.output ++ version5 ∷ auth_none ∷ [])
      × (c.writes_left ≡ suc c'.writes_left)
unfolding negotiate write
negotiate-ok c {c'} h = elim (reads (read_full 2 read_auth_header c)) [
  | inr (e, c1, q) ↦ absurd (ground arith)
  | inl (hd, c1, q) ↦ elim (reads (read_full (at 1 hd) read_auth_methods c1)) [
    | inr (e, c2, q2) ↦ absurd (ground arith)
    | inl (ms, c2, q2) ↦
        let first = read_full-ok 2 read_auth_header c q in
        let second = read_full-ok (at 1 hd) read_auth_methods c1 q2 in
        let chosen =
          choose_auth-ok (contains auth_none ms) c2 {c' = c'} (negotiate_tail c hd ms q q2 h) in
        (
          ms,
          chosen.0,
          ground (arith, first, second, two_bytes hd first.1, chosen, negotiate_version c hd q h),
          ground (arith, first, second, chosen),
          ground (arith, first, second, chosen),
        )
  ]
]

-- The request proper, once its header is read.
module _ (ip_string : Bytes → Bytes) where
  abbrev IsRequest : Bytes → Bytes → Bytes → Type 0
  IsRequest input rest target =
      (rsv : ℕ) × (a : Address) × (hi : ℕ) × (lo : ℕ) × IsSized a
      × (input ≡ version5 ∷ cmd_connect ∷ rsv ∷ (encode_address a ++ hi ∷ lo ∷ rest))
      × (target ≡ join_host_port (host_of ip_string a) (decimal (hi * 256 + lo)))

  pub read_host-ok :
      (atyp : ℕ) (c : Conn) {host : Bytes} {c' : Conn}
      → read_host ip_string atyp c ≡ (ok host, c')
      → (a : Address) × IsSized a
        × (atyp ∷ c.input ≡ encode_address a ++ c'.input)
        × (host ≡ host_of ip_string a)
        × (c'.output ≡ c.output)
  unfolding read_host
  read_host-ok atyp c {host} {c'} h = elim (Bool-cases (atyp == addr_ipv4)) [
    | inl v4 ↦ elim (reads (read_full 4 read_ipv4 c)) [
      | inr (e, c1, q) ↦ absurd (ground arith)
      | inl (bs, c1, q) ↦
          let read = read_full-ok 4 read_ipv4 c q in
          (ipv4 bs, ground arith, ground (arith, read), ground arith, ground (arith, read))
    ]
    | inr n4 ↦ elim (Bool-cases (atyp == addr_ipv6)) [
      | inl v6 ↦ elim (reads (read_full 16 read_ipv6 c)) [
        | inr (e, c1, q) ↦ absurd (ground arith)
        | inl (bs, c1, q) ↦
            let read = read_full-ok 16 read_ipv6 c q in
            (ipv6 bs, ground arith, ground (arith, read), ground arith, ground (arith, read))
      ]
      | inr n6 ↦ elim (reads (read_full 1 read_domain_length c)) [
        | inr (e, c1, q) ↦ absurd (ground arith)
        | inl (len, c1, q) ↦ elim (reads (read_full (at 0 len) read_domain c1)) [
          | inr (e, c2, q2) ↦ absurd (ground arith)
          | inl (bs, c2, q2) ↦
              let one = read_full-ok 1 read_domain_length c q in
              let read = read_full-ok (at 0 len) read_domain c1 q2 in
              (
                domain bs,
                tt,
                ground (arith, one, read, one_byte len one.1),
                ground arith,
                ground (arith, one, read),
              )
        ]
      ]
    ]
  ]

  read_request-ok :
      (c : Conn) {t : Bytes} {c' : Conn}
      → read_request ip_string c ≡ (ok t, c')
      → IsRequest c.input c'.input t × (c'.output ≡ c.output)
  unfolding read_request
  read_request-ok c {t} {c'} h = elim (reads (read_full 4 read_request_header c)) [
    | inr (e, c1, q) ↦ absurd (ground arith)
    | inl (hd, c1, q) ↦ elim (Bool-cases (at 0 hd == version5)) [
      | inr v ↦ absurd (ground arith)
      | inl v ↦ elim (Bool-cases (at 1 hd == cmd_connect)) [
        | inr m ↦ absurd (ground arith)
        | inl m ↦ elim (reads (read_host ip_string (at 3 hd) c1)) [
          | inr (e, c2, q2) ↦ absurd (ground arith)
          | inl (host, c2, q2) ↦ elim (reads (read_full 2 read_port c2)) [
            | inr (e, c3, q3) ↦ absurd (ground arith)
            | inl (pt, c3, q3) ↦
                let r1 = read_full-ok 4 read_request_header c q in
                let r3 = read_full-ok 2 read_port c2 q3 in
                let (a, sized, enc, names, same) = read_host-ok (at 3 hd) c1 q2 in
                (
                  (
                    at 2 hd,
                    a,
                    at 0 pt,
                    at 1 pt,
                    sized,
                    ground (arith, r1, r3, enc, four_bytes hd r1.1, two_bytes pt r3.1),
                    ground (arith, names),
                  ),
                  ground (arith, r1, r3, same),
                )
          ]
        ]
      ]
    ]
  ]

  -- If the handshake succeeds, the client has offered "no authentication" and sent a well-formed
  -- CONNECT request, the target is the one that the request names, exactly the bytes of the
  -- greeting and the request have been read, and exactly 05 00 has been written.
  pub handshake-ok :
      (c : Conn) {t : Bytes} {c' : Conn}
      → handshake ip_string c ≡ (ok t, c')
      → (r : Request) × IsValid r
        × (c.input ≡ encode_greeting r (encode_request r c'.input))
        × (t ≡ target_of ip_string r)
        × (c'.output ≡ c.output ++ version5 ∷ auth_none ∷ [])
  unfolding handshake
  handshake-ok c {t} {c'} h = elim (negotiated (negotiate c)) [
    | inr (e, c1, q) ↦ absurd (ground arith)
    | inl (c1, q) ↦
        let (ms, offers, greeting, answered, spent) = negotiate-ok c q in
        let asked : read_request ip_string c1 ≡ (ok t, c') = rw (q, handshake) at h in
        let ((rsv, a, hi, lo, sized, input, target), same) = read_request-ok c1 asked in
        (
          record { methods = ms; reserved = rsv; address = a; port_hi = hi; port_lo = lo },
          record { offers_none = offers; sized = sized },
          ground (arith, greeting, input),
          target,
          ground (arith, answered, same),
        )
  ]
