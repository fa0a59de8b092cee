-- ===== src/Listener/Allow.antt =====
-- internal/listener/listener.go: `isAllowed`. The functions of package net on addresses are what a
-- `Resolver` holds.
use aztunnel.Common.{Bool, true, false, Option, none, some, List, [], ◌∷◌, ◌||◌, if◌then◌else◌}
use aztunnel.Common.Text.{Bytes, codes, bytes_eq}
use aztunnel.Listener.HostPort.{split_host_port, split_allow_entry}

-- `net.IPNet`
pub record Cidr : Type 0 where
  pub ip : Bytes
  pub mask : Bytes

-- `net.ParseIP`, `net.ParseCIDR` and `(*net.IPNet).Contains`; `none` is nil, or an error.
pub record Resolver : Type 0 where
  pub parse_ip : Bytes → Option Bytes
  pub parse_cidr : Bytes → Option Cidr
  pub includes : Cidr → Bytes → Bool

abbrev pub star : Bytes
star = codes "*"

-- `targetIP != nil && cidr.Contains(targetIP)`
abbrev pub in_cidr : Resolver → Cidr → Option Bytes → Bool
in_cidr net cidr none = false
in_cidr net cidr (some ip) = net.includes cidr ip

-- `if _, cidr, err := net.ParseCIDR(aHost); err == nil { … } else if host == aHost { … }`
abbrev pub host_allowed : Resolver → Bytes → Option Bytes → Bytes → Option Cidr → Bool
host_allowed net host ip a_host (some cidr) = in_cidr net cidr ip
host_allowed net host ip a_host none = bytes_eq host a_host

-- The body of the loop behind `splitAllowEntry`; `none` is its error.
abbrev pub part_allows : Resolver → Bytes → Bytes → Option Bytes → Option (Bytes × Bytes) → Bool
part_allows net host port ip none = false
part_allows net host port ip (some (a_host, a_port)) =
    if bytes_eq a_port star || bytes_eq a_port port
    then host_allowed net host ip a_host (net.parse_cidr a_host)
    else false

-- One entry.
unfoldable pub entry_allows : Resolver → Bytes → Bytes → Option Bytes → Bytes → Bool
entry_allows net host port ip entry =
    if bytes_eq entry star then true else part_allows net host port ip (split_allow_entry entry)

-- `for _, entry := range allowList`
unfoldable pub any_allows : Resolver → Bytes → Bytes → Option Bytes → List Bytes → Bool
any_allows net host port ip [] = false
any_allows net host port ip (entry ∷ entries) =
    let rest = any_allows net host port ip entries in
    if entry_allows net host port ip entry then true else rest

abbrev split_allowed : Resolver → List Bytes → Option (Bytes × Bytes) → Bool
split_allowed net entries none = false
split_allowed net entries (some (host, port)) = any_allows net host port (net.parse_ip host) entries

-- `isAllowed`
unfoldable pub is_allowed : Resolver → Bytes → List Bytes → Bool
is_allowed net target entries = split_allowed net entries (split_host_port target)
