-- ===== src/MockRelay/Endings.antt =====
-- mockrelay/server/rendezvous.go: how many steps the handlers of a rendezvous take.
use aztunnel.Common.{
  ℕ, zero, suc, ◌+◌, ◌≤◌, ◌≡◌, refl, Option, none, some, List, [], ◌∷◌, arith, total, total-set_at,
  get_at, length, Option-cases, inl, inr, ◌⊎◌, subst, ◌*◌,
}
use aztunnel.MockRelay.Rendezvous.{
  Deferred, close_listener, signal_done, remove_entry, release_slot, run_deferred, ConnectAt,
  entering, authorizing, checking, reserving, minting, matching, looking_up, writing,
  awaiting_paired, responding, upgrading, awaiting_ready, bridging, refusing, unwinding, returned,
  AcceptAt, arriving, answering, accepting, left, closed_ws, Accept, Rendezvous, ConnectEvent,
  found, go, connect_step, AcceptEvent, claim, abort, after_upgrade, accept_step, Event, sender,
  listener, other_reserves, other_releases, step, steps, put_back, close_ws,
}
use aztunnel.MockRelay.Handover.{begin}
use aztunnel.MockRelay.Pairing.{OnSome, OnShared, OnSome-map, OnSome-bind}

-- How many steps a handler has left at most, the listeners of a snapshot not yet taken aside.
unfoldable pub connect_left : ConnectAt → ℕ
connect_left entering = 20
connect_left authorizing = 19
connect_left checking = 18
connect_left reserving = 17
connect_left minting = 14
connect_left matching = 13
connect_left looking_up = 12
connect_left (writing n) = 8 + n
connect_left awaiting_paired = 8
connect_left responding = 7
connect_left upgrading = 6
connect_left awaiting_ready = 5
connect_left (bridging i) = 3
connect_left (refusing status) = 2
connect_left unwinding = 1
connect_left returned = 0

abbrev pub accept_left : Accept → ℕ
accept_left a = elim a.at [ arriving ↦ 4 | answering ↦ 3 | accepting ↦ 2 | left ↦ 0 | _ ↦ 1 ]

abbrev pub steps_left : Rendezvous → ℕ
steps_left r = connect_left r.connect + length r.deferred + total accept_left r.accepts

-- Whether the event is a step of a handler, and the listeners that it adds.
abbrev is_step : Event → ℕ
is_step (sender e) = 1
is_step (listener i e) = 1
is_step _ = 0

abbrev listeners_of : ConnectEvent → ℕ
listeners_of (found n) = n
listeners_of _ = 0

abbrev listeners : Event → ℕ
listeners (sender e) = listeners_of e
listeners _ = 0

total-close_ws :
    (j : ℕ) (xs : List Accept) → total accept_left (close_ws j xs) ≡ total accept_left xs
total-close_ws j xs = elim (Option-cases (get_at j xs)) [
  | inl none_there ↦ ground (arith, none_there)
  | inr (a, there) ↦
      ground (arith, there, total-set_at accept_left j a (record a { ws = closed_ws }) xs there)
]

List-cases :
    (ds : List Deferred) → (ds ≡ []) ⊎ ((d : Deferred) × (ds' : List Deferred) × (ds ≡ d ∷ ds'))
List-cases [] = inl refl
List-cases (d ∷ ds) = inr (d, ds, refl)

run_deferred_left : (d : Deferred) (r : Rendezvous) → steps_left (run_deferred d r) ≡ steps_left r
unfolding run_deferred
run_deferred_left (close_listener i) r = ground (arith, total-close_ws i r.accepts)
run_deferred_left signal_done r = refl
run_deferred_left remove_entry r = refl
run_deferred_left release_slot r = refl

connect_step_left :
    (e : ConnectEvent) (at : ConnectAt) (r : Rendezvous)
    → r.connect ≡ at
    → OnSome (λ r'. suc (steps_left r') ≤ steps_left r + listeners_of e) (connect_step e at r)
unfolding connect_step connect_left
connect_step_left go (bridging i) r here = ground (arith, here, total-close_ws i r.accepts)
connect_step_left go unwinding r here = elim (List-cases r.deferred) [
  | inl empty ↦ ground (arith, here, empty)
  | inr (d, ds, due) ↦ rw (due) (omega (arith, run_deferred_left d (record r { deferred = ds })))
]
connect_step_left e at r here = ground arith

-- A step of an accept that has the state `a` before.
abbrev Shortens : Accept → Rendezvous → Accept → Rendezvous → Type 0
Shortens a r b r' =
    (r'.accepts ≡ r.accepts)
    × (r'.connect ≡ r.connect)
    × (r'.deferred ≡ r.deferred)
    × (suc (accept_left b) ≤ accept_left a)

accept_step_left :
    (e : AcceptEvent) (i : ℕ) (at : AcceptAt) (a : Accept) (r : Rendezvous)
    → a.at ≡ at
    → OnShared (Shortens a r) (accept_step e i at a r)
unfolding accept_step after_upgrade claim abort
accept_step_left e i at a r here = ground (arith, here)

put_back_left :
    (i : ℕ) (a : Accept) (o : Option (Accept × Rendezvous)) (r : Rendezvous)
    → get_at i r.accepts ≡ some a
    → OnShared (Shortens a r) o
    → OnSome (λ r'. suc (steps_left r') ≤ steps_left r) (put_back i o)
put_back_left i a none r there p = tt
put_back_left i a (some (b, r')) r there p =
    ground (arith, there, p, total-set_at accept_left i a b r.accepts there)

step_left :
    (e : Event) (r : Rendezvous)
    → OnSome (λ r'. is_step e + steps_left r' ≤ steps_left r + listeners e) (step e r)
unfolding step
step_left (sender e) r =
    OnSome-map (λ r'. suc (steps_left r') ≤ steps_left r + listeners_of e)
      (λ r'. 1 + steps_left r' ≤ steps_left r + listeners_of e) (connect_step e r.connect r)
      (λ r' shorter. omega (arith, shorter)) (connect_step_left e r.connect r refl)
step_left (listener i e) r = elim (Option-cases (get_at i r.accepts)) [
  | inl none_there ↦ rw (none_there) tt
  | inr (a, there) ↦ rw (there) (
      OnSome-map (λ r'. suc (steps_left r') ≤ steps_left r)
        (λ r'. 1 + steps_left r' ≤ steps_left r + 0) (put_back i (accept_step e i a.at a r))
        (λ r' shorter. omega (arith, shorter))
        (put_back_left i a (accept_step e i a.at a r) r there (accept_step_left e i a.at a r refl)))
]
step_left (other_reserves max) r = ground arith
step_left other_releases r = ground arith

-- The steps of handlers among the events, and the listeners that their snapshots have.
unfoldable pub work : List Event → ℕ
work [] = 0
work (e ∷ es) = is_step e + work es

unfoldable pub all_listeners : List Event → ℕ
all_listeners [] = 0
all_listeners (e ∷ es) = listeners e + all_listeners es

work-OnSome :
    (es : List Event) (r : Rendezvous)
    → OnSome (λ r'. work es + steps_left r' ≤ steps_left r + all_listeners es) (steps es r)
unfolding steps work all_listeners
work-OnSome [] r = omega arith
work-OnSome (e ∷ es) r =
    OnSome-bind (λ r'. is_step e + steps_left r' ≤ steps_left r + listeners e)
      (λ r'. work (e ∷ es) + steps_left r' ≤ steps_left r + all_listeners (e ∷ es)) (step e r)
      (steps es) (step_left e r)
      (λ s shorter.
        OnSome-map (λ r'. work es + steps_left r' ≤ steps_left s + all_listeners es)
          (λ r'. work (e ∷ es) + steps_left r' ≤ steps_left r + all_listeners (e ∷ es)) (steps es s)
          (λ r' later. omega (arith, shorter, later)) (work-OnSome es s))

begin_left : (others n : ℕ) → steps_left (begin others n) ≡ 20 + 4 * n
unfolding begin connect_left
begin_left others zero = refl
begin_left others (suc n) = omega (arith, begin_left others n)

-- In any interleaving with `n` accepts, the connect and the accepts together
-- take at most 20 + 4 n steps, and one more for each listener of the snapshot.
pub steps-work :
    (es : List Event) (others n : ℕ) (r : Rendezvous)
    → steps es (begin others n) ≡ some r
    → work es ≤ 20 + 4 * n + all_listeners es
steps-work es others n r run =
    let bound =
      subst
        (OnSome (λ r'. work es + steps_left r' ≤ steps_left (begin others n) + all_listeners es))
        run (work-OnSome es (begin others n)) in
    omega (arith, bound, begin_left others n)
