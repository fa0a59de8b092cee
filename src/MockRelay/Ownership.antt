-- ===== src/MockRelay/Ownership.antt =====
-- mockrelay/server/rendezvous.go: who closes the listener's connection, followed for one accept.
use aztunnel.Common.{
  ℕ, zero, suc, ◌+◌, ◌≤◌, ◌≡◌, refl, Bool, true, false, Option, none, some, List, [], ◌∷◌, arith,
  total, get_at, set_at, ◌==◌, if◌then◌else◌, ◌⊎◌, ==_iff, Option-cases, Bool-cases, inl, inr, ◌&&◌,
  ltb,
}
use aztunnel.MockRelay.Rendezvous.{
  claim, abort, Deferred, close_listener, signal_done, remove_entry, release_slot, run_deferred,
  ConnectAt, go, awaiting_ready, bridging, unwinding, AcceptAt, arriving, unknown_id, answering,
  accepting, closing, holding, left, Ws, open_ws, closed_ws, Accept, Rendezvous, ConnectEvent,
  connect_step, AcceptEvent, after_upgrade, accept_step, Event, sender, listener, other_reserves,
  other_releases, step, put_back, handle, close_ws,
}
use aztunnel.MockRelay.Pairing.{bit, OnSome, OnShared}

abbrev pub is_this : ℕ → Option ℕ → Bool
is_this i none = false
is_this i (some j) = j == i

abbrev closes : ℕ → Deferred → ℕ
closes i (close_listener j) = bit (j == i)
closes i _ = 0

abbrev is_closing : AcceptAt → ℕ
is_closing closing = 1
is_closing _ = 0

abbrev is_holding : AcceptAt → ℕ
is_holding holding = 1
is_holding _ = 0

abbrev is_left : AcceptAt → ℕ
is_left left = 1
is_left _ = 0

abbrev is_open : Ws → ℕ
is_open open_ws = 1
is_open _ = 0

abbrev is_closed : Ws → ℕ
is_closed closed_ws = 1
is_closed _ = 0

-- Whether the connect took over the connection of the `i`-th accept.
abbrev owner : ℕ → Rendezvous → ℕ
owner i r = bit (ltb 0 r.pending.sender_took && is_this i r.pending.listener_ws)

abbrev unanswered : AcceptAt → ℕ
unanswered arriving = 1
unanswered unknown_id = 1
unanswered answering = 1
unanswered accepting = 1
unanswered _ = 0

-- The `i`-th accept with its own state `a`: an open connection has somebody who will close it.
pub record Owned (i : ℕ) (a : Accept) (r : Rendezvous) : Type 0 where
  pub kept : is_open a.ws ≤ is_closing a.at + is_holding a.at + owner i r
  pub taken : owner i r ≤ is_closed a.ws + total (closes i) r.deferred
  pub claimed : bit (is_this i r.pending.listener_ws) ≤ is_holding a.at + is_left a.at
  pub held : is_holding a.at ≤ bit (is_this i r.pending.listener_ws)
  pub silent : (unanswered a.at ≡ 0) ⊎ (a.answers ≡ [])
  pub upgraded_first : (is_this i r.pending.listener_ws ≡ false) ⊎ (a.answers ≡ 101 ∷ [])
  pub once_set :
      (r.pending.once ≡ true)
      ⊎ ((r.pending.listener_ws ≡ none) × (r.pending.sender_took ≡ 0) × (r.pending.ready ≡ 0))

abbrev OnAccept : ℕ → Option Accept → Rendezvous → Type 0
OnAccept i none r = Unit
OnAccept i (some a) r = Owned i a r

-- The `i`-th accept, if there is one, is owned.
abbrev pub Follows : ℕ → Rendezvous → Type 0
Follows i r = OnAccept i (get_at i r.accepts) r

abbrev pub shut_ws : Option Accept → Option Accept
shut_ws none = none
shut_ws (some a) = some (record a { ws = closed_ws })

abbrev pub replaced : Accept → Option Accept → Option Accept
replaced b none = none
replaced b (some a) = some b

-- An element of a list after any is replaced.
pub get_at-set_at_if :
    (i j : ℕ) (b : Accept) (xs : List Accept)
    → get_at i (set_at j b xs) ≡ (if j == i then replaced b (get_at i xs) else get_at i xs)
get_at-set_at_if i j b [] = ground arith
get_at-set_at_if zero zero b (x ∷ xs) = ground arith
get_at-set_at_if zero (suc j) b (x ∷ xs) = ground arith
get_at-set_at_if (suc i) zero b (x ∷ xs) = ground arith
get_at-set_at_if (suc i) (suc j) b (x ∷ xs) = ground (arith, get_at-set_at_if i j b xs)

pub get_at-close_ws :
    (i j : ℕ) (xs : List Accept)
    → get_at i (close_ws j xs) ≡ (if j == i then shut_ws (get_at i xs) else get_at i xs)
get_at-close_ws i j xs = elim (Option-cases (get_at j xs)) [
  | inl none_there ↦ ground (arith, none_there)
  | inr (a, there) ↦ ground (arith, there, get_at-set_at_if i j (record a { ws = closed_ws }) xs)
]

-- The connect closes the connection that it took over, and may do so twice.
close_ws-Follows :
    (i j : ℕ) (ds : List Deferred) (at : ConnectAt) (ws : Ws) (r : Rendezvous)
    → (r.deferred ≡ close_listener j ∷ ds) ⊎ (r.deferred ≡ ds)
    → Follows i r
    → Follows i
        (record r { deferred = ds; connect = at; sender_ws = ws; accepts = close_ws j r.accepts })
close_ws-Follows i j ds at ws r due o = elim (Option-cases (get_at i r.accepts)) [
  | inl none_there ↦ ground (arith, none_there, get_at-close_ws i j r.accepts)
  | inr (a, there) ↦ ground (arith, there, get_at-close_ws i j r.accepts, due)
]

pop-Follows :
    (i : ℕ) (d : Deferred) (ds : List Deferred) (r : Rendezvous)
    → r.deferred ≡ d ∷ ds
    → Follows i r
    → Follows i (run_deferred d (record r { deferred = ds }))
unfolding run_deferred
pop-Follows i (close_listener j) ds r due o =
    close_ws-Follows i j ds r.connect r.sender_ws r (inl due) o
pop-Follows i signal_done ds r due o = ground arith
pop-Follows i remove_entry ds r due o = ground arith
pop-Follows i release_slot ds r due o = ground arith

List-cases :
    (ds : List Deferred) → (ds ≡ []) ⊎ ((d : Deferred) × (ds' : List Deferred) × (ds ≡ d ∷ ds'))
List-cases [] = inl refl
List-cases (d ∷ ds) = inr (d, ds, refl)

-- The fact about one accept of the list.
pub Follows-Owned :
    (i : ℕ) (a : Accept) (r : Rendezvous) → get_at i r.accepts ≡ some a → Follows i r → Owned i a r
Follows-Owned i a r there f = ground (arith, there, f)

-- A step that leaves the pending rendezvous and the accepts, and drops no deferred close.
abbrev Same : ℕ → Rendezvous → Rendezvous → Type 0
Same i r r' =
    (r'.pending ≡ r.pending)
    × (r'.accepts ≡ r.accepts)
    × (total (closes i) r.deferred ≤ total (closes i) r'.deferred)

Owned-Same : (i : ℕ) (a : Accept) (r r' : Rendezvous) → Same i r r' → Owned i a r → Owned i a r'
Owned-Same i a r r' (p, accepts, d) o = ground (arith, p, d)

OnSome-Same :
    (i : ℕ) (r : Rendezvous) (o : Option Rendezvous)
    → Follows i r
    → OnSome (Same i r) o
    → OnSome (Follows i) o
OnSome-Same i r none f same = tt
OnSome-Same i r (some r') f same = elim (Option-cases (get_at i r.accepts)) [
  | inl none_there ↦ ground (arith, none_there, same)
  | inr (a, there) ↦
      let owned : Owned i a r = Follows-Owned i a r there f in
      let owned' : Owned i a r' = Owned-Same i a r r' same owned in
      ground (arith, there, same, owned')
]

connect_step-Follows :
    (e : ConnectEvent) (i : ℕ) (at : ConnectAt) (r : Rendezvous)
    → Follows i r
    → OnSome (Follows i) (connect_step e at r)
unfolding connect_step
connect_step-Follows go i (bridging j) r o =
    close_ws-Follows i j r.deferred unwinding closed_ws r (inr refl) o
connect_step-Follows go i unwinding r o = elim (List-cases r.deferred) [
  | inl empty ↦ ground (arith, empty)
  | inr (d, ds, due) ↦ rw (due) (pop-Follows i d ds r due o)
]
connect_step-Follows go i awaiting_ready r o = ground arith
connect_step-Follows e i at r o = OnSome-Same i r (connect_step e at r) o (ground arith)

-- The accept `j` has the state `b`, which is that of `i` when they are the same.
abbrev Beside : (i j : ℕ) → Option Accept → Accept → Rendezvous → Type 0
Beside i j o b r = if j == i then Owned i b r else OnAccept i o r

accept_step-Beside :
    (e : AcceptEvent) (i j : ℕ) (at : AcceptAt) (b : Accept) (r : Rendezvous)
    → b.at ≡ at
    → Beside i j (get_at i r.accepts) b r
    → OnShared
        (λ b' r'. (r'.accepts ≡ r.accepts) × Beside i j (get_at i r.accepts) b' r')
        (accept_step e j at b r)
unfolding accept_step after_upgrade claim abort
accept_step-Beside e i j at b r here o = elim (Bool-cases (j == i)) [
  | inl same ↦ ground (arith, same)
  | inr other ↦ elim (Option-cases (get_at i r.accepts)) [
    | inl none_there ↦ ground (arith, other, none_there)
    | inr (a, there) ↦ ground (arith, other, there)
  ]
]

put_back-Follows :
    (i j : ℕ) (o : Option (Accept × Rendezvous)) (r : Rendezvous)
    → OnShared (λ b r'. (r'.accepts ≡ r.accepts) × Beside i j (get_at i r.accepts) b r') o
    → OnSome (Follows i) (put_back j o)
put_back-Follows i j none r p = tt
put_back-Follows i j (some (b, r')) r p = ground (arith, p, get_at-set_at_if i j b r'.accepts)

handle-Follows :
    (e : AcceptEvent) (i j : ℕ) (r : Rendezvous)
    → Follows i r
    → OnSome (Follows i) (handle e j (get_at j r.accepts) r)
handle-Follows e i j r o = elim (Option-cases (get_at j r.accepts)) [
  | inl none_there ↦ rw (none_there) tt
  | inr (b, there) ↦
      let beside : Beside i j (get_at i r.accepts) b r = ground (arith, there, ==_iff j i) in
      rw (there) (
        put_back-Follows i j (accept_step e j b.at b r) r
          (accept_step-Beside e i j b.at b r refl beside))
]

pub step-Follows :
    (i : ℕ) (e : Event) (r : Rendezvous) → Follows i r → OnSome (Follows i) (step e r)
unfolding step
step-Follows i (sender e) r o = connect_step-Follows e i r.connect r o
step-Follows i (listener j e) r o = handle-Follows e i j r o
step-Follows i (other_reserves max) r o = ground arith
step-Follows i other_releases r o = ground arith
