-- ===== src/MockRelay/Traffic.antt =====
-- mockrelay/server/server.go: any sequence of calls on the hub, each one under its mutex. The calls of
-- different connections interleave freely.
use aztunnel.Common.{
  ℕ, suc, ◌≡◌, refl, ◌&&◌, none, some, List, [], ◌∷◌, arith, ltb, leb, ◌-◌, ◌%◌, ◌==◌, ◌++◌, length,
  if◌then◌else◌, Option-cases, inl, inr,
}
use aztunnel.Common.Text.{Bytes, bytes_eq, eq_of_bytes_eq}
use aztunnel.Common.Assoc.{lookup, insert, erase, lookup-insert}
use aztunnel.MockRelay.Hub.{
  EntityState, Hub, entity, snapshot_controls, add_control, remove_control, add_pending,
  take_pending, remove_pending, try_reserve, release, without,
}

pub data Call : Type 0 where
  snapshot : Bytes → Call
  add_listener : Bytes → ℕ → Call
  remove_listener : Bytes → ℕ → Call
  add_waiting : Bytes → Bytes → ℕ → Call
  take_waiting : Bytes → Bytes → Call
  remove_waiting : Bytes → Bytes → Call
  reserve : Bytes → Call
  free : Bytes → Call

-- The hub after a call, with the server's `MaxConnections`.
unfoldable pub after_call : ℕ → Call → Hub → Hub
after_call max (snapshot e) h = (snapshot_controls e h).1
after_call max (add_listener e c) h = add_control e c h
after_call max (remove_listener e c) h = remove_control e c h
after_call max (add_waiting e id p) h = add_pending e id p h
after_call max (take_waiting e id) h = (take_pending e id h).1
after_call max (remove_waiting e id) h = remove_pending e id h
after_call max (reserve e) h = (try_reserve e max h).1
after_call max (free e) h = release e h

unfoldable pub after_calls : ℕ → List Call → Hub → Hub
after_calls max [] h = h
after_calls max (c ∷ cs) h = after_calls max cs (after_call max c h)

-- The entity that a call names.
abbrev pub target : Call → Bytes
target (snapshot e) = e
target (add_listener e c) = e
target (remove_listener e c) = e
target (add_waiting e id p) = e
target (take_waiting e id) = e
target (remove_waiting e id) = e
target (reserve e) = e
target (free e) = e

-- What a call does, told of one entity alone: the specification of the hub's map.
abbrev pub alone : ℕ → Call → EntityState → EntityState
alone max (snapshot e) s =
    if length s.controls == 0 then s else record s { next_idx = suc s.next_idx % length s.controls }
alone max (add_listener e c) s = record s { controls = s.controls ++ (c ∷ []) }
alone max (remove_listener e c) s = record s { controls = without c s.controls }
alone max (add_waiting e id p) s = record s { pending = insert id p s.pending }
alone max (take_waiting e id) s = elim (lookup id s.pending) [
  | none ↦ s
  | some p ↦ record s { pending = erase id s.pending }
]
alone max (remove_waiting e id) s = record s { pending = erase id s.pending }
alone max (reserve e) s =
    if ltb 0 max && leb max s.inflight then s else record s { inflight = suc s.inflight }
alone max (free e) s = if ltb 0 s.inflight then record s { inflight = s.inflight - 1 } else s

entity-insert :
    (name e : Bytes) (s : EntityState) (h : Hub)
    → entity name (insert e s h) ≡ (if bytes_eq e name then s else entity name h)
unfolding entity
entity-insert name e s h = ground (arith, lookup-insert name e s h)

abbrev Refines : ℕ → Bytes → Call → Hub → Type 0
Refines max name c h =
    entity name (after_call max c h)
    ≡ (if bytes_eq (target c) name then alone max c (entity name h) else entity name h)

without_nil : (c : ℕ) → without c [] ≡ []
unfolding without
without_nil c = refl

after_snapshot : (max : ℕ) (name e : Bytes) (h : Hub) → Refines max name (snapshot e) h
unfolding after_call snapshot_controls entity
after_snapshot max name e h = elim (Option-cases (lookup e h)) [
  | inl none_there ↦ ground (arith, none_there, eq_of_bytes_eq e name)
  | inr (s, there) ↦ ground (
    arith,
    there,
    eq_of_bytes_eq e name,
    lookup-insert name e (record s { next_idx = suc s.next_idx % length s.controls }) h,
  )
]

after_add_listener :
    (max : ℕ) (name e : Bytes) (c : ℕ) (h : Hub) → Refines max name (add_listener e c) h
unfolding after_call add_control
after_add_listener max name e c h = ground (
  arith,
  eq_of_bytes_eq e name,
  entity-insert name e (record (entity e h) { controls = (entity e h).controls ++ (c ∷ []) }) h,
)

after_remove_listener :
    (max : ℕ) (name e : Bytes) (c : ℕ) (h : Hub) → Refines max name (remove_listener e c) h
unfolding after_call remove_control entity
after_remove_listener max name e c h = elim (Option-cases (lookup e h)) [
  | inl none_there ↦ ground (arith, none_there, eq_of_bytes_eq e name, without_nil c)
  | inr (s, there) ↦ ground (
    arith,
    there,
    eq_of_bytes_eq e name,
    lookup-insert name e (record s { controls = without c s.controls }) h,
  )
]

after_add_waiting :
    (max : ℕ) (name e id : Bytes) (p : ℕ) (h : Hub) → Refines max name (add_waiting e id p) h
unfolding after_call add_pending
after_add_waiting max name e id p h = ground (
  arith,
  eq_of_bytes_eq e name,
  entity-insert name e (record (entity e h) { pending = insert id p (entity e h).pending }) h,
)

after_take_waiting :
    (max : ℕ) (name e id : Bytes) (h : Hub) → Refines max name (take_waiting e id) h
unfolding after_call take_pending entity lookup
after_take_waiting max name e id h = elim (Option-cases (lookup e h)) [
  | inl none_there ↦ ground (arith, none_there, eq_of_bytes_eq e name)
  | inr (s, there) ↦ ground (
    arith,
    there,
    eq_of_bytes_eq e name,
    lookup-insert name e (record s { pending = erase id s.pending }) h,
  )
]

after_remove_waiting :
    (max : ℕ) (name e id : Bytes) (h : Hub) → Refines max name (remove_waiting e id) h
unfolding after_call remove_pending entity erase
after_remove_waiting max name e id h = elim (Option-cases (lookup e h)) [
  | inl none_there ↦ ground (arith, none_there, eq_of_bytes_eq e name)
  | inr (s, there) ↦ ground (
    arith,
    there,
    eq_of_bytes_eq e name,
    lookup-insert name e (record s { pending = erase id s.pending }) h,
  )
]

after_reserve : (max : ℕ) (name e : Bytes) (h : Hub) → Refines max name (reserve e) h
unfolding after_call try_reserve
after_reserve max name e h = ground (
  arith,
  eq_of_bytes_eq e name,
  entity-insert name e (entity e h) h,
  entity-insert name e (record (entity e h) { inflight = suc (entity e h).inflight }) h,
)

after_free : (max : ℕ) (name e : Bytes) (h : Hub) → Refines max name (free e) h
unfolding after_call release entity
after_free max name e h = elim (Option-cases (lookup e h)) [
  | inl none_there ↦ ground (arith, none_there, eq_of_bytes_eq e name)
  | inr (s, there) ↦ ground (
    arith,
    there,
    eq_of_bytes_eq e name,
    lookup-insert name e (record s { inflight = s.inflight - 1 }) h,
  )
]

pub after_call-alone : (max : ℕ) (name : Bytes) (c : Call) (h : Hub) → Refines max name c h
after_call-alone max name (snapshot e) h = after_snapshot max name e h
after_call-alone max name (add_listener e c) h = after_add_listener max name e c h
after_call-alone max name (remove_listener e c) h = after_remove_listener max name e c h
after_call-alone max name (add_waiting e id p) h = after_add_waiting max name e id p h
after_call-alone max name (take_waiting e id) h = after_take_waiting max name e id h
after_call-alone max name (remove_waiting e id) h = after_remove_waiting max name e id h
after_call-alone max name (reserve e) h = after_reserve max name e h
after_call-alone max name (free e) h = after_free max name e h
