-- ===== src/Socks5/Refuse.antt =====
-- What a failed `Handshake` of internal/sender/socks5/socks5.go has answered.
use aztunnel.Common.{
  ℕ, ◌≤◌, Bool, true, false, none, [], ◌∷◌, ◌++◌, ◌≡◌, sym, ◌∙◌, inl, inr, append-nil, append_assoc,
  arith, Bool-cases, ◌==◌,
}
use aztunnel.Common.Text.{Bytes, contains}
use aztunnel.GoError.{Err}
use aztunnel.Socks5.{
  Conn, short_read, Failure, ok, err, read_full, version5, auth_none, negotiate, choose_auth,
  read_request, handshake, write, reply, send_reply, at, read_host, read_auth_header,
  read_auth_methods, no_no_auth, read_request_header, unsupported_request_version,
  unsupported_command, read_ipv4, read_ipv6, read_domain_length, read_domain, unsupported_address,
  read_port, auth_no_acceptable, rep_command_not_supported, rep_address_not_supported, addr_ipv4,
  addr_ipv6, addr_domain, cmd_connect,
}
use aztunnel.Socks5.Sound.{reads, negotiated, read_host-ok, negotiate-ok, negotiate_chooses}

-- The answer to the greeting, and the answer to the request.
abbrev pub greeting_answer : Failure → Bytes
greeting_answer no_no_auth = version5 ∷ auth_no_acceptable ∷ []
greeting_answer _ = []

abbrev pub request_answer : Failure → Bytes
request_answer (unsupported_command cmd) = reply rep_command_not_supported none
request_answer (unsupported_address atyp) = reply rep_address_not_supported none
request_answer _ = []

-- The failures behind the answer 05 00.
abbrev pub is_late : Failure → Bool
is_late (read_request_header e) = true
is_late (unsupported_request_version v) = true
is_late (unsupported_command cmd) = true
is_late (read_ipv4 e) = true
is_late (read_ipv6 e) = true
is_late (read_domain_length e) = true
is_late (read_domain e) = true
is_late (unsupported_address atyp) = true
is_late (read_port e) = true
is_late _ = false

-- All that was written for a failed handshake.
abbrev pub answer : Failure → Bytes
answer f = elim (is_late f) [
  | true ↦ version5 ∷ auth_none ∷ request_answer f
  | false ↦ greeting_answer f
]

read_full-err :
    (n : ℕ) (why : Err → Failure) (c : Conn) {f : Failure} {c' : Conn}
    → read_full n why c ≡ (err f, c')
    → (f ≡ why (short_read c.input)) × (c'.output ≡ c.output) × (c'.writes_left ≡ c.writes_left)
unfolding read_full
read_full-err n why c h = ground arith

read_full_kept :
    (n : ℕ) (why : Err → Failure) (c : Conn) {bs : Bytes} {c' : Conn}
    → read_full n why c ≡ (ok bs, c')
    → (c'.output ≡ c.output) × (c'.writes_left ≡ c.writes_left)
unfolding read_full
read_full_kept n why c h = ground arith

choose_auth-err :
    (b : Bool) (c : Conn) {f : Failure} {c' : Conn}
    → choose_auth b c ≡ (err f, c')
    → 1 ≤ c.writes_left
    → (f ≡ no_no_auth) × (c'.output ≡ c.output ++ greeting_answer f)
unfolding choose_auth write
choose_auth-err b c h w = ground arith

negotiate-err :
    (c : Conn) {f : Failure} {c' : Conn}
    → negotiate c ≡ (err f, c')
    → 1 ≤ c.writes_left
    → (is_late f ≡ false) × (c'.output ≡ c.output ++ greeting_answer f)
unfolding negotiate
negotiate-err c h w = elim (reads (read_full 2 read_auth_header c)) [
  | inr (e, c1, q) ↦ ground (arith, read_full-err 2 read_auth_header c q, append-nil c.output)
  | inl (hd, c1, q) ↦
      let kept = read_full_kept 2 read_auth_header c q in
      elim (Bool-cases (at 0 hd == version5)) [
        | inr v ↦ ground (arith, kept, append-nil c.output)
        | inl v ↦ elim (Bool-cases (at 1 hd == 0)) [
          | inl z ↦ ground (arith, kept, append-nil c.output)
          | inr z ↦ elim (reads (read_full (at 1 hd) read_auth_methods c1)) [
            | inr (e, c2, q2) ↦
                ground (
                  arith,
                  kept,
                  read_full-err (at 1 hd) read_auth_methods c1 q2,
                  append-nil c.output,
                )
            | inl (ms, c2, q2) ↦
                let chosen = sym (negotiate_chooses c hd ms q v z q2) ∙ h in
                ground (
                  arith,
                  kept,
                  read_full_kept (at 1 hd) read_auth_methods c1 q2,
                  choose_auth-err (contains auth_none ms) c2 chosen,
                )
          ]
        ]
      ]
]

module _ (ip_string : Bytes → Bytes) where
  read_host-err :
      (atyp : ℕ) (c : Conn) {f : Failure} {c' : Conn}
      → read_host ip_string atyp c ≡ (err f, c')
      → 1 ≤ c.writes_left
      → (is_late f ≡ true) × (c'.output ≡ c.output ++ request_answer f)
  unfolding read_host send_reply write
  read_host-err atyp c h w = elim (Bool-cases (atyp == addr_ipv4)) [
    | inl v4 ↦ elim (reads (read_full 4 read_ipv4 c)) [
      | inr (e, c1, q) ↦ ground (arith, read_full-err 4 read_ipv4 c q, append-nil c.output)
      | inl (bs, c1, q) ↦ absurd (ground arith)
    ]
    | inr n4 ↦ elim (Bool-cases (atyp == addr_ipv6)) [
      | inl v6 ↦ elim (reads (read_full 16 read_ipv6 c)) [
        | inr (e, c1, q) ↦ ground (arith, read_full-err 16 read_ipv6 c q, append-nil c.output)
        | inl (bs, c1, q) ↦ absurd (ground arith)
      ]
      | inr n6 ↦ elim (Bool-cases (atyp == addr_domain)) [
        | inr other ↦ ground arith
        | inl v3 ↦ elim (reads (read_full 1 read_domain_length c)) [
          | inr (e, c1, q) ↦
              ground (arith, read_full-err 1 read_domain_length c q, append-nil c.output)
          | inl (len, c1, q) ↦
              let kept = read_full_kept 1 read_domain_length c q in
              elim (reads (read_full (at 0 len) read_domain c1)) [
                | inr (e, c2, q2) ↦
                    ground
                      (arith, kept, read_full-err (at 0 len) read_domain c1 q2, append-nil c.output)
                | inl (bs, c2, q2) ↦ absurd (ground arith)
              ]
        ]
      ]
    ]
  ]

  read_host_kept :
      (atyp : ℕ) (c : Conn) {bs : Bytes} {c' : Conn}
      → read_host ip_string atyp c ≡ (ok bs, c')
      → c'.output ≡ c.output
  read_host_kept atyp c h = (read_host-ok ip_string atyp c h).4

  read_request-err :
      (c : Conn) {f : Failure} {c' : Conn}
      → read_request ip_string c ≡ (err f, c')
      → 1 ≤ c.writes_left
      → (is_late f ≡ true) × (c'.output ≡ c.output ++ request_answer f)
  unfolding read_request send_reply write
  read_request-err c h w = elim (reads (read_full 4 read_request_header c)) [
    | inr (e, c1, q) ↦ ground (arith, read_full-err 4 read_request_header c q, append-nil c.output)
    | inl (hd, c1, q) ↦
        let kept = read_full_kept 4 read_request_header c q in
        elim (Bool-cases (at 0 hd == version5)) [
          | inr v ↦ ground (arith, kept, append-nil c.output)
          | inl v ↦ elim (Bool-cases (at 1 hd == cmd_connect)) [
            | inr m ↦ ground (arith, kept)
            | inl m ↦ elim (reads (read_host ip_string (at 3 hd) c1)) [
              | inr (e, c2, q2) ↦ ground (arith, kept, read_host-err (at 3 hd) c1 q2)
              | inl (host, c2, q2) ↦ elim (reads (read_full 2 read_port c2)) [
                | inl (pt, c3, q3) ↦ absurd (ground arith)
                | inr (e, c3, q3) ↦ ground (
                  arith,
                  kept,
                  read_host_kept (at 3 hd) c1 q2,
                  read_full-err 2 read_port c2 q3,
                  append-nil c.output,
                )
              ]
            ]
          ]
        ]
  ]

  -- On a connection that takes two writes, a failed handshake has written the answer that its
  -- error calls for and nothing else: at most the method selection and one reply.
  pub handshake-err :
      (c : Conn) {f : Failure} {c' : Conn}
      → handshake ip_string c ≡ (err f, c')
      → 2 ≤ c.writes_left
      → c'.output ≡ c.output ++ answer f
  unfolding handshake
  handshake-err c {f} {c'} h w = elim (negotiated (negotiate c)) [
    | inr (e, c1, q) ↦ ground (arith, negotiate-err c q)
    | inl (c1, q) ↦
        let asked : read_request ip_string c1 ≡ (err f, c') = rw (q, handshake) at h in
        let (ms, offers, greeting, answered, spent) = negotiate-ok c q in
        ground (
          arith,
          answered,
          spent,
          read_request-err c1 asked,
          append_assoc c.output (version5 ∷ auth_none ∷ []) (request_answer f),
        )
  ]
