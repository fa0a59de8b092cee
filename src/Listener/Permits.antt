-- ===== src/Listener/Permits.antt =====
-- What `isAllowed` of internal/listener/listener.go permits, in the terms of its doc comment.
use mathlib.Core.List.{Memᴰ}
use aztunnel.Common.{
  true, none, some, List, [], ◌∷◌, ◌++◌, ◌≡◌, refl, sym, ◌∙◌, ap, subst, ◌||◌, ◌⊎◌, ◌↔◌, inl, inr,
  arith, Bool-cases, Option-cases,
}
use aztunnel.Common.Text.{
  Bytes, Lacks, bytes_eq, bytes_eq_refl, eq_of_bytes_eq, cut_last-some, cut_last-append,
}
use aztunnel.Listener.HostPort.{split_host_port, split_allow_entry, split_allow_entry-cut_last}
use aztunnel.Listener.Allow.{
  Cidr, Resolver, star, part_allows, entry_allows, any_allows, is_allowed,
}

-- An entry permits a host and a port: it is `*`; or it is `CIDR:port` or `CIDR:*` and the address of
-- the host lies in the CIDR; or it is the very text `host:port`, or `host:*`.
pub data Permits (net : Resolver) (host port entry : Bytes) : Type 0 where
  anything : entry ≡ star → Permits net host port entry
  network :
      (a_host a_port ip : Bytes) (cidr : Cidr)
      → entry ≡ a_host ++ b':' ∷ a_port
      → Lacks b':' a_port
      → (a_port ≡ star) ⊎ (a_port ≡ port)
      → net.parse_cidr a_host ≡ some cidr
      → net.parse_ip host ≡ some ip
      → net.includes cidr ip ≡ true
      → Permits net host port entry
  literal :
      (a_port : Bytes)
      → entry ≡ host ++ b':' ∷ a_port
      → Lacks b':' a_port
      → (a_port ≡ star) ⊎ (a_port ≡ port)
      → net.parse_cidr host ≡ none
      → Permits net host port entry

split-some :
    (entry l r : Bytes)
    → split_allow_entry entry ≡ some (l, r)
    → (entry ≡ l ++ b':' ∷ r) × Lacks b':' r
split-some entry l r e = cut_last-some b':' entry l r (sym (split_allow_entry-cut_last entry) ∙ e)

split-append : (l r : Bytes) → Lacks b':' r → split_allow_entry (l ++ b':' ∷ r) ≡ some (l, r)
split-append l r h = split_allow_entry-cut_last (l ++ b':' ∷ r) ∙ cut_last-append b':' l r h

port_matches :
    (p port : Bytes) → (bytes_eq p star || bytes_eq p port) ≡ true → (p ≡ star) ⊎ (p ≡ port)
port_matches p port h = elim (Bool-cases (bytes_eq p star)) [
  | inl s ↦ inl (eq_of_bytes_eq p star s)
  | inr n ↦ inr (eq_of_bytes_eq p port (ground arith))
]

of_parts :
    (net : Resolver) (host port entry a_host a_port : Bytes)
    → entry ≡ a_host ++ b':' ∷ a_port
    → Lacks b':' a_port
    → part_allows net host port (net.parse_ip host) (some (a_host, a_port)) ≡ true
    → Permits net host port entry
of_parts net host port entry a_host a_port whole lack h =
    elim (Bool-cases (bytes_eq a_port star || bytes_eq a_port port)) [
      | inr n ↦ absurd (ground arith)
      | inl p ↦
          let matches = port_matches a_port port p in
          elim (Option-cases (net.parse_cidr a_host)) [
            | inl no_cidr ↦
                let same : host ≡ a_host = eq_of_bytes_eq host a_host (ground arith) in
                literal a_port (rw same whole) lack matches (rw same no_cidr)
            | inr (cidr, c) ↦ elim (Option-cases (net.parse_ip host)) [
              | inl no_ip ↦ absurd (ground arith)
              | inr (ip, i) ↦ network a_host a_port ip cidr whole lack matches c i (ground arith)
            ]
          ]
    ]

Permits-of_entry :
    (net : Resolver) (host port entry : Bytes)
    → entry_allows net host port (net.parse_ip host) entry ≡ true
    → Permits net host port entry
unfolding entry_allows
Permits-of_entry net host port entry h = elim (Bool-cases (bytes_eq entry star)) [
  | inl s ↦ anything (eq_of_bytes_eq entry star s)
  | inr ns ↦ elim (Option-cases (split_allow_entry entry)) [
    | inl bad ↦ absurd (ground arith)
    | inr ((a_host, a_port), e) ↦
        let (whole, lack) = split-some entry a_host a_port e in
        of_parts net host port entry a_host a_port whole lack (rw (ns, entry_allows, e) at h)
  ]
]

port_test : (p port : Bytes) → (p ≡ star) ⊎ (p ≡ port) → (bytes_eq p star || bytes_eq p port) ≡ true
port_test p port (inl e) = rw (e, bytes_eq_refl star)
port_test p port (inr e) = rw (e, bytes_eq_refl port) (ground arith)

entry-of_Permits :
    (net : Resolver) (host port entry : Bytes)
    → Permits net host port entry
    → entry_allows net host port (net.parse_ip host) entry ≡ true
unfolding entry_allows
entry-of_Permits net host port entry (anything e) =
    ground (arith, ap (λ x. bytes_eq x star) e, bytes_eq_refl star)
entry-of_Permits net host port entry (network a_host a_port ip cidr e lack p c i inc) =
    ground
      (arith, ap split_allow_entry e ∙ split-append a_host a_port lack, port_test a_port port p)
entry-of_Permits net host port entry (literal a_port e lack p c) = ground (
  arith,
  ap split_allow_entry e ∙ split-append host a_port lack,
  port_test a_port port p,
  bytes_eq_refl host,
)

any-of_Permits :
    (net : Resolver) (host port : Bytes) (entries : List Bytes) (entry : Bytes)
    → Memᴰ entry entries
    → Permits net host port entry
    → any_allows net host port (net.parse_ip host) entries ≡ true
unfolding any_allows
any-of_Permits net host port [] entry m p = elim m [ ]
any-of_Permits net host port (e ∷ es) entry (Memᴰ.head h) p =
    ground (arith, entry-of_Permits net host port e (subst (Permits net host port) h p))
any-of_Permits net host port (e ∷ es) entry (Memᴰ.tail m) p =
    ground (arith, any-of_Permits net host port es entry m p)

Permits-of_any :
    (net : Resolver) (host port : Bytes) (entries : List Bytes)
    → any_allows net host port (net.parse_ip host) entries ≡ true
    → (entry : Bytes) × Memᴰ entry entries × Permits net host port entry
unfolding any_allows
Permits-of_any net host port [] h = cc
Permits-of_any net host port (e ∷ es) h =
    elim (Bool-cases (entry_allows net host port (net.parse_ip host) e)) [
      | inl yea ↦ (e, Memᴰ.head refl, Permits-of_entry net host port e yea)
      | inr nay ↦
          let (entry, m, p) = Permits-of_any net host port es (ground arith) in
          (entry, Memᴰ.tail m, p)
    ]

-- A target is allowed exactly when it splits into a host and a port and some entry of the list
-- permits these.
pub is_allowed_iff :
    (net : Resolver) (target : Bytes) (entries : List Bytes)
    → (is_allowed net target entries ≡ true) ↔ (
        (host : Bytes) × (port : Bytes) × (split_host_port target ≡ some (host, port))
        × ((entry : Bytes) × Memᴰ entry entries × Permits net host port entry))
unfolding is_allowed
is_allowed_iff net target entries = (there, back)
  where
    there :
        is_allowed net target entries ≡ true
        → (host : Bytes) × (port : Bytes) × (split_host_port target ≡ some (host, port))
          × ((entry : Bytes) × Memᴰ entry entries × Permits net host port entry)
    there h = elim (Option-cases (split_host_port target)) [
      | inl bad ↦ absurd (ground arith)
      | inr ((host, port), e) ↦
          (host, port, e, Permits-of_any net host port entries (rw (e, is_allowed) at h))
    ]

    back :
        (host : Bytes) × (port : Bytes) × (split_host_port target ≡ some (host, port))
          × ((entry : Bytes) × Memᴰ entry entries × Permits net host port entry)
        → is_allowed net target entries ≡ true
    back (host, port, e, (entry, m, p)) =
        rw (e, is_allowed) (any-of_Permits net host port entries entry m p)
