-- ===== src/MockRelay/Pairing.antt =====
-- mockrelay/server/rendezvous.go: what every run of a connect and its accepts keeps, in counts.
use aztunnel.Common.{
  length, ◌⊎◌, ℕ, ◌+◌, ◌≤◌, ◌≡◌, refl, Bool, true, false, Option, none, some, List, [], ◌∷◌, arith,
  total, get_at,
}
use aztunnel.MockRelay.Rendezvous.{
  claim, abort, Deferred, signal_done, remove_entry, release_slot, run_deferred, ConnectAt,
  entering, authorizing, checking, reserving, minting, matching, looking_up, writing,
  awaiting_paired, responding, upgrading, awaiting_ready, bridging, unwinding, returned, AcceptAt,
  Ws, open_ws, Accept, Rendezvous, ConnectEvent, connect_step, AcceptEvent, after_upgrade,
  accept_step, Event, sender, listener, other_reserves, other_releases, step, steps, put_back,
  handle, bind,
}

abbrev pub bit : Bool → ℕ
bit true = 1
bit false = 0

abbrev releases : Deferred → ℕ
releases release_slot = 1
releases _ = 0

abbrev pub signals : Deferred → ℕ
signals signal_done = 1
signals _ = 0

abbrev removes : Deferred → ℕ
removes remove_entry = 1
removes _ = 0

-- How often the connect can still reserve, register and take over from a place.
abbrev before_reserve : ConnectAt → ℕ
before_reserve entering = 1
before_reserve authorizing = 1
before_reserve checking = 1
before_reserve reserving = 1
before_reserve _ = 0

abbrev before_register : ConnectAt → ℕ
before_register minting = 1
before_register matching = 1
before_register looking_up = 1
before_register at = before_reserve at

abbrev before_take : ConnectAt → ℕ
before_take (writing n) = 1
before_take awaiting_paired = 1
before_take responding = 1
before_take upgrading = 1
before_take awaiting_ready = 1
before_take at = before_register at

-- Whether the place is one at which no status has been written yet.
abbrev unanswered : ConnectAt → ℕ
unanswered awaiting_ready = 0
unanswered (bridging i) = 0
unanswered unwinding = 0
unanswered returned = 0
unanswered _ = 1

abbrev is_returned : ConnectAt → ℕ
is_returned returned = 1
is_returned _ = 0

abbrev uses_sender : ConnectAt → ℕ
uses_sender awaiting_ready = 1
uses_sender (bridging i) = 1
uses_sender _ = 0

abbrev is_open : Ws → ℕ
is_open open_ws = 1
is_open _ = 0

-- The connection that is bridged is the one that was claimed, and the sender has its 101.
abbrev Bridged : ConnectAt → Rendezvous → Type 0
Bridged (bridging i) r =
    (r.pending.listener_ws ≡ some i)
    × (r.pending.once ≡ true)
    × (r.sender_ws ≡ open_ws)
    × (r.answers ≡ 101 ∷ [])
Bridged awaiting_ready r = (r.sender_ws ≡ open_ws) × (r.answers ≡ 101 ∷ [])
Bridged unwinding r = Unit
Bridged returned r = Unit
Bridged _ r = r.answers ≡ []

pub record Counts (r : Rendezvous) : Type 0 where
  pub slots_held : r.slots ≡ r.others + total releases r.deferred
  pub reserve_once : before_reserve r.connect + total releases r.deferred ≤ 1
  pub done_once : before_register r.connect + total signals r.deferred + r.pending.bridge_done ≤ 1
  pub entry_removed : bit r.waiting ≤ total removes r.deferred
  pub paired_once : before_register r.connect + bit r.waiting + r.pending.paired ≤ 1
  pub took_once : before_take r.connect + r.pending.sender_took ≤ 1
  pub ready_once : r.pending.ready ≡ bit r.pending.once
  pub returned_done : (is_returned r.connect ≡ 0) ⊎ (r.deferred ≡ [])
  pub sender_closed : is_open r.sender_ws ≤ uses_sender r.connect
  pub answered_once : unanswered r.connect + length r.answers ≤ 1
  pub claim_once : (r.pending.once ≡ true) ⊎ (r.pending.listener_ws ≡ none)
  pub bridged : Bridged r.connect r

abbrev pub OnSome {ℓ} : (Rendezvous → Type ℓ) → Option Rendezvous → Type ℓ
OnSome P none = Unit
OnSome P (some r) = P r

connect_step-Counts :
    (e : ConnectEvent) (at : ConnectAt) (r : Rendezvous)
    → Counts r
    → r.connect ≡ at
    → OnSome Counts (connect_step e at r)
unfolding connect_step run_deferred
connect_step-Counts e at r c here = ground arith

pub OnSome-map {ℓ κ} :
    (P : Rendezvous → Type ℓ) (Q : Rendezvous → Type κ) (o : Option Rendezvous)
    → ((r : Rendezvous) → P r → Q r)
    → OnSome P o
    → OnSome Q o
OnSome-map P Q none f p = tt
OnSome-map P Q (some r) f p = f r p

abbrev pub OnShared {ℓ} : (Accept → Rendezvous → Type ℓ) → Option (Accept × Rendezvous) → Type ℓ
OnShared P none = Unit
OnShared P (some (a, r)) = P a r

accept_step-Counts :
    (e : AcceptEvent) (i : ℕ) (at : AcceptAt) (a : Accept) (r : Rendezvous)
    → Counts r
    → OnShared (λ b. Counts) (accept_step e i at a r)
unfolding accept_step after_upgrade claim abort
accept_step-Counts e i at a r c = ground arith

put_back-Counts :
    (i : ℕ) (o : Option (Accept × Rendezvous))
    → OnShared (λ b. Counts) o
    → OnSome Counts (put_back i o)
put_back-Counts i none c = c
put_back-Counts i (some (a, r)) c = ground arith

handle-Counts :
    (e : AcceptEvent) (i : ℕ) (o : Option Accept) (r : Rendezvous)
    → Counts r
    → OnSome Counts (handle e i o r)
handle-Counts e i none r c = tt
handle-Counts e i (some a) r c =
    put_back-Counts i (accept_step e i a.at a r) (accept_step-Counts e i a.at a r c)

pub step-Counts : (e : Event) (r : Rendezvous) → Counts r → OnSome Counts (step e r)
unfolding step
step-Counts (sender e) r c = connect_step-Counts e r.connect r c refl
step-Counts (listener i e) r c = handle-Counts e i (get_at i r.accepts) r c
step-Counts (other_reserves max) r c = ground arith
step-Counts other_releases r c = ground arith

pub OnSome-bind {ℓ κ} :
    (P : Rendezvous → Type ℓ) (Q : Rendezvous → Type κ) (o : Option Rendezvous)
    (f : Rendezvous → Option Rendezvous)
    → OnSome P o
    → ((r : Rendezvous) → P r → OnSome Q (f r))
    → OnSome Q (bind o f)
OnSome-bind P Q none f p keep = tt
OnSome-bind P Q (some r) f p keep = keep r p

module _ {ℓ} (P : Rendezvous → Type ℓ) where
  -- What every step keeps holds at the end of every run.
  pub steps_keep :
      ((e : Event) (r : Rendezvous) → P r → OnSome P (step e r))
      → (es : List Event) (r : Rendezvous) → P r
      → OnSome P (steps es r)
  unfolding steps
  steps_keep keep [] r p = p
  steps_keep keep (e ∷ es) r p =
      OnSome-bind P P (step e r) (steps es) (keep e r p) (steps_keep keep es)
