-- ===== src/MockRelay/Slots.antt =====
-- mockrelay/server/server.go: what holds of every sequence of hub calls: the entities do not disturb one
-- another, the cap on concurrent rendezvous, and who gets a pending rendezvous.
use aztunnel.Common.{
  ℕ, ◌+◌, ◌≤◌, ◌<◌, ◌≡◌, refl, Bool, Option, none, some, List, [], ◌∷◌, arith, if◌then◌else◌, ◌&&◌,
  Option-cases, inl, inr,
}
use aztunnel.Common.Text.{Bytes, bytes_eq, eq_of_bytes_eq}
use aztunnel.Common.Assoc.{lookup, lookup-insert, lookup-erase}
use aztunnel.MockRelay.Hub.{EntityState, Hub, entity, take_pending}
use aztunnel.MockRelay.Traffic.{
  Call, add_waiting, take_waiting, remove_waiting, after_call, after_calls, target, alone,
  after_call-alone,
}

-- The calls that name the entity, in their order.
unfoldable pub only : Bytes → List Call → List Call
only name [] = []
only name (c ∷ cs) = let rest = only name cs in if bytes_eq (target c) name then c ∷ rest else rest

unfoldable pub all_alone : ℕ → List Call → EntityState → EntityState
all_alone max [] s = s
all_alone max (c ∷ cs) s = all_alone max cs (alone max c s)

-- After any calls on the hub, an entity's state is what the calls that name it, and no others, make of its
-- state before: entities share the map and its mutex, and nothing else.
pub after_calls-all_alone :
    (max : ℕ) (name : Bytes) (cs : List Call) (h : Hub)
    → entity name (after_calls max cs h) ≡ all_alone max (only name cs) (entity name h)
unfolding after_calls only all_alone
after_calls-all_alone max name [] h = refl
after_calls-all_alone max name (c ∷ cs) h =
    ground
      (arith, after_calls-all_alone max name cs (after_call max c h), after_call-alone max name c h)

abbrev pub slots : Bytes → Hub → ℕ
slots name h = (entity name h).inflight

alone_slots :
    (max : ℕ) (c : Call) (s : EntityState)
    → 0 < max
    → s.inflight ≤ max
    → (alone max c s).inflight ≤ max
alone_slots max c s pos h = ground (arith, pos, h)

after_call_slots :
    (max : ℕ) (name : Bytes) (c : Call) (h : Hub)
    → 0 < max
    → slots name h ≤ max
    → slots name (after_call max c h) ≤ max
after_call_slots max name c h pos le =
    ground (arith, after_call-alone max name c h, alone_slots max c (entity name h) pos le)

-- With a cap, no sequence of calls brings an entity above it.
pub after_calls_slots :
    (max : ℕ) (name : Bytes) (cs : List Call) (h : Hub)
    → 0 < max
    → slots name h ≤ max
    → slots name (after_calls max cs h) ≤ max
unfolding after_calls
after_calls_slots max name [] h pos le = le
after_calls_slots max name (c ∷ cs) h pos le =
    after_calls_slots max name cs (after_call max c h) pos (after_call_slots max name c h pos le)

abbrev pub waiting : Bytes → Bytes → Hub → Option ℕ
waiting name id h = lookup id (entity name h).pending

abbrev pub one_if : Bool → ℕ
one_if b = if b then 1 else 0

abbrev pub one_if_some : Option ℕ → ℕ
one_if_some none = 0
one_if_some (some p) = 1

-- Whether the call registers a rendezvous under the id, and whether it hands one out.
abbrev pub registers : Bytes → Bytes → Call → ℕ
registers name id (add_waiting e i p) = one_if (bytes_eq e name && bytes_eq i id)
registers name id _ = 0

abbrev pub hands_out : Bytes → Bytes → Call → Hub → ℕ
hands_out name id (take_waiting e i) h =
    if bytes_eq e name && bytes_eq i id then one_if_some (take_pending e i h).0 else 0
hands_out name id _ h = 0

unfoldable pub registered : Bytes → Bytes → List Call → ℕ
registered name id [] = 0
registered name id (c ∷ cs) = registers name id c + registered name id cs

unfoldable pub handed_out : ℕ → Bytes → Bytes → List Call → Hub → ℕ
handed_out max name id [] h = 0
handed_out max name id (c ∷ cs) h =
    hands_out name id c h + handed_out max name id cs (after_call max c h)

take_pending-waiting : (e i : Bytes) (h : Hub) → (take_pending e i h).0 ≡ waiting e i h
unfolding take_pending entity lookup
take_pending-waiting e i h = elim (Option-cases (lookup e h)) [
  | inl none_there ↦ ground (arith, none_there)
  | inr (s, there) ↦ elim (Option-cases (lookup i s.pending)) [
    | inl absent ↦ ground (arith, there, absent)
    | inr (p, present) ↦ ground (arith, there, present)
  ]
]

after_call_waiting :
    (max : ℕ) (name id : Bytes) (c : Call) (h : Hub)
    → hands_out name id c h + one_if_some (waiting name id (after_call max c h))
      ≤ registers name id c + one_if_some (waiting name id h)
after_call_waiting max name id (add_waiting e i p) h =
    let s = entity name h in
    ground (
      arith,
      after_call-alone max name (add_waiting e i p) h,
      lookup-insert id i p s.pending,
      eq_of_bytes_eq i id,
      eq_of_bytes_eq e name,
    )
after_call_waiting max name id (take_waiting e i) h =
    let s = entity name h in
    ground (
      arith,
      after_call-alone max name (take_waiting e i) h,
      take_pending-waiting e i h,
      lookup-erase id i s.pending,
      eq_of_bytes_eq i id,
      eq_of_bytes_eq e name,
    )
after_call_waiting max name id (remove_waiting e i) h =
    let s = entity name h in
    ground (
      arith,
      after_call-alone max name (remove_waiting e i) h,
      lookup-erase id i s.pending,
      eq_of_bytes_eq i id,
    )
after_call_waiting max name id c h = ground (arith, after_call-alone max name c h)

-- However the calls of connects and accepts interleave, a rendezvous id is handed out at most as often as it
-- was registered, the pending entry that may be there at the start included.
pub handed_out-registered :
    (max : ℕ) (name id : Bytes) (cs : List Call) (h : Hub)
    → handed_out max name id cs h + one_if_some (waiting name id (after_calls max cs h))
      ≤ registered name id cs + one_if_some (waiting name id h)
unfolding handed_out registered after_calls
handed_out-registered max name id [] h = omega arith
handed_out-registered max name id (c ∷ cs) h = omega (
  arith,
  after_call_waiting max name id c h,
  handed_out-registered max name id cs (after_call max c h),
)
