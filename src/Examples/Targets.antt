-- ===== src/Examples/Targets.antt =====
-- Runs of the allowlist and of the classification of dial errors in internal/listener.
use mathlib.Core.List.{Memᴰ}
use aztunnel.Common.{true, false, none, some, [], ◌∷◌, ◌≡◌, refl, ◌↔◌, arith}
use aztunnel.Common.Text.{Bytes, codes, bytes_eq, cut, cut_last, contains}
use aztunnel.Listener.Allow.{Resolver, is_allowed, any_allows, entry_allows}
use aztunnel.Listener.HostPort.{split_host_port, split_allow_entry, split_host_port-join_host_port}
use aztunnel.Listener.Permits.{Permits, is_allowed_iff}
use aztunnel.Socks5.{join_host_port}

-- A package net that knows no address and no network.
abbrev pub names_only : Resolver
names_only = record {
  parse_ip = λ host. none;
  parse_cidr = λ entry. none;
  includes = λ cidr ip. false;
}

is_allowed_iff_example :
    (is_allowed names_only (codes "db:5432") (codes "web:*" ∷ codes "db:5432" ∷ []) ≡ true) ↔ (
      (host : Bytes) × (port : Bytes) × (split_host_port (codes "db:5432") ≡ some (host, port))
      × ((entry : Bytes) × Memᴰ entry (codes "web:*" ∷ codes "db:5432" ∷ [])
          × Permits names_only host port entry))
is_allowed_iff_example =
    is_allowed_iff names_only (codes "db:5432") (codes "web:*" ∷ codes "db:5432" ∷ [])

-- The brackets of an IPv6 address are dropped from the target and kept in the entry.
brackets_refused : is_allowed names_only (codes "[::1]:80") (codes "[::1]:80" ∷ []) ≡ false
unfolding is_allowed split_host_port split_allow_entry any_allows entry_allows cut_last cut contains
    bytes_eq
brackets_refused = refl

no_brackets_allowed : is_allowed names_only (codes "[::1]:80") (codes "::1:80" ∷ []) ≡ true
unfolding is_allowed split_host_port split_allow_entry any_allows entry_allows cut_last cut contains
    bytes_eq
no_brackets_allowed = refl

split_host_port-join_host_port_example :
    split_host_port (join_host_port (codes "::1") (codes "22")) ≡ some (codes "::1", codes "22")
split_host_port-join_host_port_example =
    split_host_port-join_host_port (codes "::1") (codes "22") (ground arith) (ground arith)
      (ground arith) (ground arith) (ground arith)
