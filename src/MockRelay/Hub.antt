-- ===== src/MockRelay/Hub.antt =====
-- mockrelay/server/server.go: `hub` and `entityState`. Each operation runs under the hub's mutex, and
-- is one function on the state. A control session and a pending rendezvous are pointers: numbers.
use aztunnel.Common.{
  ℕ, zero, suc, ◌-◌, ◌%◌, Bool, true, false, not, ◌&&◌, Option, none, some, List, [], ◌∷◌, ◌++◌,
  ◌==◌, ltb, leb, if◌then◌else◌, length, get_at,
}
use aztunnel.Common.Text.{Bytes}
use aztunnel.Common.Assoc.{lookup, insert, erase}

-- `entityState`
pub record EntityState : Type 0 where
  pub controls : List ℕ
  pub next_idx : ℕ
  pub pending : List (Bytes × ℕ)
  pub inflight : ℕ

-- `hub.entities`
abbrev pub Hub : Type 0
Hub = List (Bytes × EntityState)

abbrev pub fresh : EntityState
fresh = record { controls = []; next_idx = 0; pending = []; inflight = 0 }

abbrev or_fresh : Option EntityState → EntityState
or_fresh none = fresh
or_fresh (some e) = e

-- `hub.entity`, whose caller changes the state it is given and so leaves it in the map.
unfoldable pub entity : Bytes → Hub → EntityState
entity name h = or_fresh (lookup name h)

abbrev pub prepend : Option ℕ → List ℕ → List ℕ
prepend none cs = []
prepend (some c) cs = c ∷ cs

-- The `for` loop of `snapshotControls`, with the index into the slice. `none` of `get_at` would be a
-- panic; the index is below the length.
unfoldable pub collect : List ℕ → (idx n left : ℕ) → List ℕ
collect cs idx n zero = []
collect cs idx n (suc left) = prepend (get_at (idx % n) cs) (collect cs (suc idx) n left)

abbrev snapshot_of : Option EntityState → Bytes → Hub → List ℕ × Hub
snapshot_of none name h = ([], h)
snapshot_of (some e) name h =
    let n = length e.controls in
    if n == 0 then ([], h) else (
      collect e.controls e.next_idx n n,
      insert name (record e { next_idx = suc e.next_idx % n }) h,
    )

-- `snapshotControls`
unfoldable pub snapshot_controls : Bytes → Hub → List ℕ × Hub
snapshot_controls name h = snapshot_of (lookup name h) name h

-- `addControl`
unfoldable pub add_control : Bytes → ℕ → Hub → Hub
unfolding entity
add_control name c h =
    let e = entity name h in insert name (record e { controls = e.controls ++ (c ∷ []) }) h

-- The loop of `removeControl`.
unfoldable pub without : ℕ → List ℕ → List ℕ
without c [] = []
without c (x ∷ xs) = let rest = without c xs in if not (x == c) then x ∷ rest else rest

-- `removeControl`
unfoldable pub remove_control : Bytes → ℕ → Hub → Hub
unfolding without
remove_control name c h = elim (lookup name h) [
  | none ↦ h
  | some e ↦ insert name (record e { controls = without c e.controls }) h
]

-- `addPending`
unfoldable pub add_pending : Bytes → Bytes → ℕ → Hub → Hub
unfolding entity
add_pending name id p h =
    let e = entity name h in insert name (record e { pending = insert id p e.pending }) h

abbrev take_from : Option ℕ → Bytes → Bytes → EntityState → Hub → Option ℕ × Hub
take_from none name id e h = (none, h)
take_from (some p) name id e h = (some p, insert name (record e { pending = erase id e.pending }) h)

-- `takePending`
unfoldable pub take_pending : Bytes → Bytes → Hub → Option ℕ × Hub
take_pending name id h = elim (lookup name h) [
  | none ↦ (none, h)
  | some e ↦ take_from (lookup id e.pending) name id e h
]

-- `removePending`
unfoldable pub remove_pending : Bytes → Bytes → Hub → Hub
remove_pending name id h = elim (lookup name h) [
  | none ↦ h
  | some e ↦ insert name (record e { pending = erase id e.pending }) h
]

-- `tryReserve`; a `max` of 0 is no limit. Also a refused call leaves the entity in the map.
unfoldable pub try_reserve : Bytes → ℕ → Hub → Bool × Hub
unfolding entity
try_reserve name max h =
    let e = entity name h in
    if ltb 0 max && leb max e.inflight
    then (false, insert name e h)
    else (true, insert name (record e { inflight = suc e.inflight }) h)

abbrev released : EntityState → Bytes → Hub → Hub
released e name h =
    if ltb 0 e.inflight then insert name (record e { inflight = e.inflight - 1 }) h else h

-- `release`
unfoldable pub release : Bytes → Hub → Hub
release name h = elim (lookup name h) [ none ↦ h | some e ↦ released e name h ]
