-- ===== src/MockRelay/Rendezvous.antt =====
-- mockrelay/server/rendezvous.go: `pendingRendezvous`, `handleConnect` and `handleAccept`. One connect and
-- any number of accepts that present its id run at the same time; a handler is a program counter, at the
-- place where it blocks, and a step is what it does from there to the next such place. What the outside
-- answers (a timer, the client, the hub's other users, the websocket library) is the event of the step.
use aztunnel.Common.{
  ℕ, suc, Bool, true, false, not, ◌&&◌, Option, none, some, List, [], ◌∷◌, ◌++◌, ◌==◌, ltb, leb,
  ◌-◌, if◌then◌else◌, get_at, set_at,
}

-- The channels of `pendingRendezvous` count how often they were closed: Go panics at the second time.
-- `claim` and `abort` run in `once`; `listener_ws` is the accept whose connection was claimed.
pub record PendingRendezvous : Type 0 where
  pub once : Bool
  pub listener_ws : Option ℕ
  pub ready : ℕ
  pub paired : ℕ
  pub bridge_done : ℕ
  pub sender_took : ℕ

-- `claim`
unfoldable pub claim : ℕ → PendingRendezvous → Bool × PendingRendezvous
claim ws p =
    if p.once
    then (false, p)
    else (true, record p { once = true; listener_ws = some ws; ready = suc p.ready })

-- `abort`
unfoldable pub abort : PendingRendezvous → PendingRendezvous
abort p = if p.once then p else record p { once = true; ready = suc p.ready }

-- A deferred call of `handleConnect`: `listenerWS.CloseNow`, `close(bridgeDone)`, `removePending`, `release`.
pub data Deferred : Type 0 where
  close_listener : ℕ → Deferred
  signal_done remove_entry release_slot : Deferred

-- `writing n` has `n` listeners of the snapshot left, `refusing` sleeps before its status is written,
-- `unwinding` runs the deferred calls.
pub data ConnectAt : Type 0 where
  entering authorizing checking reserving minting matching looking_up : ConnectAt
  writing : ℕ → ConnectAt
  awaiting_paired responding upgrading awaiting_ready : ConnectAt
  bridging : ℕ → ConnectAt
  refusing : ℕ → ConnectAt
  unwinding returned : ConnectAt

-- `closing` is in the close handshake, `holding` waits until the bridge is over.
pub data AcceptAt : Type 0 where
  arriving unknown_id answering accepting closing holding left : AcceptAt

pub data Ws : Type 0 where
  absent open_ws closed_ws : Ws

pub record Accept : Type 0 where
  pub at : AcceptAt
  pub ws : Ws
  pub answers : List ℕ

-- `waiting` is whether the hub has the entry, `slots` the entity's count of reservations, `deferred` the
-- connect's stack of deferred calls; `others` of the reservations belong to other connects. `sender_ws` and `answers` are the sender's connection and the statuses
-- written to it.
pub record Rendezvous : Type 0 where
  pub pending : PendingRendezvous
  pub waiting : Bool
  pub slots : ℕ
  pub others : ℕ
  pub deferred : List Deferred
  pub connect : ConnectAt
  pub sender_ws : Ws
  pub answers : List ℕ
  pub accepts : List Accept

-- `yes` and `no` answer a check: of the token, of the random id with the address, of the write of
-- an accept frame, of the upgrade of a connection; `reserve max` is the check of the cap. `go` ends a sleep
-- or a wait, `gone` is the end of the request's context, `deadline` that of `waitCtx` alone. `found n` is the
-- length of the snapshot.
pub data ConnectEvent : Type 0 where
  go gone deadline yes no : ConnectEvent
  reserve found : ℕ → ConnectEvent

abbrev goto : ConnectAt → Rendezvous → Option Rendezvous
goto at r = some (record r { connect = at })

-- `return`
abbrev leave : Rendezvous → Option Rendezvous
leave r = goto unwinding r

-- `http.Error` and `return`
abbrev refuse : ℕ → Rendezvous → Option Rendezvous
refuse status r = leave (record r { answers = r.answers ++ (status ∷ []) })

-- `closeWithErr` and `return`
abbrev hang_up : Rendezvous → Option Rendezvous
hang_up r = leave (record r { sender_ws = closed_ws })

abbrev defer_call : Deferred → Rendezvous → Rendezvous
defer_call d r = record r { deferred = d ∷ r.deferred }

abbrev shut : Option Accept → ℕ → List Accept → List Accept
shut none i accepts = accepts
shut (some a) i accepts = set_at i (record a { ws = closed_ws }) accepts

-- `listenerWS.CloseNow()`
abbrev pub close_ws : ℕ → List Accept → List Accept
close_ws i accepts = shut (get_at i accepts) i accepts

unfoldable pub run_deferred : Deferred → Rendezvous → Rendezvous
run_deferred (close_listener i) r = record r { accepts = close_ws i r.accepts }
run_deferred signal_done r = record r {
  pending = record r.pending { bridge_done = suc r.pending.bridge_done };
}
run_deferred remove_entry r = record r { waiting = false }
run_deferred release_slot r = record r { slots = r.slots - 1 }

abbrev is_none : Option ℕ → Bool
is_none none = true
is_none (some i) = false

-- `addPending` and the two calls deferred behind it.
abbrev register : Rendezvous → Rendezvous
register r = defer_call signal_done (defer_call remove_entry (record r { waiting = true }))

abbrev take_over : Option ℕ → Rendezvous → Option Rendezvous
take_over none r = hang_up r
take_over (some i) r = goto (bridging i) (
    defer_call (close_listener i)
      (record r { pending = record r.pending { sender_took = suc r.pending.sender_took } }))

-- A step of `handleConnect`; `none` where the handler does not wait for the event.
unfoldable pub connect_step : ConnectEvent → ConnectAt → Rendezvous → Option Rendezvous
unfolding run_deferred
connect_step go entering r = goto authorizing r
connect_step gone entering r = leave r
connect_step go authorizing r = goto checking r
connect_step gone authorizing r = leave r
connect_step yes checking r = goto reserving r
connect_step no checking r = goto (refusing 401) r
connect_step (reserve max) reserving r =
    if ltb 0 max && leb max r.slots
    then goto (refusing 503) r
    else goto minting (defer_call release_slot (record r { slots = suc r.slots }))
connect_step yes minting r = goto matching r
connect_step no minting r = goto (refusing 500) r
connect_step go matching r = goto looking_up r
connect_step gone matching r = leave r
connect_step (found n) looking_up r =
    if n == 0 then goto (refusing 404) r else goto (writing n) (register r)
connect_step yes (writing (suc n)) r = goto awaiting_paired r
connect_step no (writing (suc n)) r = if n == 0 then goto (refusing 503) r else goto (writing n) r
connect_step deadline awaiting_paired r = goto (refusing 504) r
connect_step gone awaiting_paired r = leave r
connect_step go awaiting_paired r = if ltb 0 r.pending.paired then goto responding r else none
connect_step deadline responding r = refuse 504 r
connect_step gone responding r = leave r
connect_step go responding r =
    if ltb 0 r.pending.ready && is_none r.pending.listener_ws
    then refuse 503 r
    else goto upgrading r
connect_step no upgrading r = leave r
connect_step yes upgrading r =
    goto awaiting_ready (record r { sender_ws = open_ws; answers = r.answers ++ (101 ∷ []) })
connect_step deadline awaiting_ready r = hang_up r
connect_step gone awaiting_ready r = hang_up r
connect_step go awaiting_ready r =
    if ltb 0 r.pending.ready then take_over r.pending.listener_ws r else none
connect_step go (bridging i) r =
    leave (record r { sender_ws = closed_ws; accepts = close_ws i r.accepts })
connect_step go (refusing status) r = refuse status r
connect_step gone (refusing status) r = refuse status r
connect_step go unwinding r = elim r.deferred [
  | [] ↦ goto returned r
  | d ∷ ds ↦ some (run_deferred d (record r { deferred = ds }))
]
connect_step e at r = none

-- `upgraded code` has the close code that the fault injection armed, 0 for none.
pub data AcceptEvent : Type 0 where
  slept cancelled failed over : AcceptEvent
  upgraded : ℕ → AcceptEvent

-- What the handler is left with, its own state and the shared one.
abbrev then_at : Accept → Rendezvous → Option (Accept × Rendezvous)
then_at a r = some (a, r)

abbrev aborted : Rendezvous → Rendezvous
aborted r = record r { pending = abort r.pending }

-- Behind the upgrade: the armed fault, the claim, and the refusal of a second one.
unfoldable pub after_upgrade : ℕ → ℕ → Accept → Rendezvous → Option (Accept × Rendezvous)
unfolding claim abort
after_upgrade i code a r =
    let up = record a { ws = open_ws; answers = a.answers ++ (101 ∷ []) } in
    let (won, p) = claim i r.pending in
    if not (code == 0)
    then then_at (record up { at = closing }) (aborted r)
    else (if won
        then then_at (record up { at = holding }) (record r { pending = p })
        else then_at (record up { at = closing }) r)

-- The deferred guard of `handleAccept`.
abbrev let_go : Accept → Rendezvous → Option (Accept × Rendezvous)
let_go a r =
    if ltb 0 r.pending.sender_took
    then then_at (record a { at = left }) r
    else then_at (record a { at = left; ws = closed_ws }) r

-- A step of the `i`-th `handleAccept`.
unfoldable pub accept_step :
    AcceptEvent → ℕ → AcceptAt → Accept → Rendezvous → Option (Accept × Rendezvous)
unfolding after_upgrade abort
accept_step slept i arriving a r =
    if r.waiting
    then then_at (record a { at = answering })
        (record r { waiting = false; pending = record r.pending { paired = suc r.pending.paired } })
    else then_at (record a { at = unknown_id }) r
accept_step cancelled i arriving a r = then_at (record a { at = left }) r
accept_step slept i unknown_id a r =
    then_at (record a { at = left; answers = a.answers ++ (404 ∷ []) }) r
accept_step cancelled i unknown_id a r =
    then_at (record a { at = left; answers = a.answers ++ (404 ∷ []) }) r
accept_step slept i answering a r = then_at (record a { at = accepting }) r
accept_step cancelled i answering a r = then_at (record a { at = left }) (aborted r)
accept_step failed i accepting a r = then_at (record a { at = left }) (aborted r)
accept_step (upgraded code) i accepting a r = after_upgrade i code a r
accept_step over i closing a r = then_at (record a { at = left; ws = closed_ws }) r
accept_step over i holding a r = if ltb 0 r.pending.bridge_done then let_go a r else none
accept_step cancelled i holding a r = let_go a r
accept_step e i at a r = none

-- A step of the whole: the connect, one of its accepts, or another connect of the entity that takes
-- a slot or gives one back.
pub data Event : Type 0 where
  sender : ConnectEvent → Event
  listener : ℕ → AcceptEvent → Event
  other_reserves : ℕ → Event
  other_releases : Event

abbrev pub put_back : ℕ → Option (Accept × Rendezvous) → Option Rendezvous
put_back i none = none
put_back i (some (a, r)) = some (record r { accepts = set_at i a r.accepts })

abbrev pub handle : AcceptEvent → ℕ → Option Accept → Rendezvous → Option Rendezvous
handle e i none r = none
handle e i (some a) r = put_back i (accept_step e i a.at a r)

unfoldable pub step : Event → Rendezvous → Option Rendezvous
step (sender e) r = connect_step e r.connect r
step (listener i e) r = handle e i (get_at i r.accepts) r
step (other_reserves max) r =
    if ltb 0 max && leb max r.slots
    then none
    else some (record r { slots = suc r.slots; others = suc r.others })
step other_releases r =
    if ltb 0 r.others then some (record r { slots = r.slots - 1; others = r.others - 1 }) else none

abbrev pub bind {ℓ κ} : {A : Type ℓ} {B : Type κ} → Option A → (A → Option B) → Option B
bind none f = none
bind (some a) f = f a

unfoldable pub steps : List Event → Rendezvous → Option Rendezvous
steps [] r = some r
steps (e ∷ es) r = bind (step e r) (steps es)
