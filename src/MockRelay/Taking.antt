-- ===== src/MockRelay/Taking.antt =====
-- mockrelay/server/rendezvous.go: which accepts found the pending entry in the hub, read off the schedule.
use aztunnel.Common.{
  ℕ, ◌+◌, ◌≤◌, ◌≡◌, refl, Bool, true, false, Option, none, some, List, [], ◌∷◌, ◌++◌, arith, total,
  get_at, set_at, append-nil, length, length-append, total-append, ◌==◌, ==_iff, if◌then◌else◌, ◌⊎◌,
  inl, inr, Option-cases, Bool-cases, ap,
}
use aztunnel.MockRelay.Rendezvous.{
  claim, abort, Deferred, close_listener, signal_done, remove_entry, release_slot, run_deferred,
  ConnectAt, go, bridging, unwinding, AcceptAt, arriving, answering, accepting, Accept, Rendezvous,
  ConnectEvent, connect_step, AcceptEvent, slept, after_upgrade, accept_step, Event, sender,
  listener, other_reserves, other_releases, step, steps, put_back, close_ws, bind,
}
use aztunnel.MockRelay.Pairing.{bit, OnSome, OnShared}
use aztunnel.MockRelay.Ownership.{is_this, get_at-close_ws, get_at-set_at_if}

-- Whether an accept looks up its entry and the hub has it.
abbrev finds : AcceptEvent → AcceptAt → (waiting : Bool) → Bool
finds slept arriving waiting = waiting
finds e at waiting = false

abbrev found_by : ℕ → AcceptEvent → Option Accept → (waiting : Bool) → List ℕ
found_by j e none waiting = []
found_by j e (some a) waiting = if finds e a.at waiting then j ∷ [] else []

abbrev pub takes : Event → Rendezvous → List ℕ
takes (listener j e) r = found_by j e (get_at j r.accepts) r.waiting
takes e r = []

abbrev then_takers : List ℕ → Option Rendezvous → (Rendezvous → List ℕ) → List ℕ
then_takers ts none later = ts
then_takers ts (some r) later = later r

-- The accepts that found the entry in a run, in order, behind those before.
unfoldable pub takers : List ℕ → List Event → Rendezvous → List ℕ
takers ts [] r = ts
takers ts (e ∷ es) r = then_takers ts (step e r) (takers (ts ++ takes e r) es)

-- An accept behind its lookup and before its upgrade.
abbrev enters_at : AcceptAt → ℕ
enters_at answering = 1
enters_at accepting = 1
enters_at _ = 0

abbrev enters : Option Accept → ℕ
enters none = 0
enters (some a) = enters_at a.at

abbrev is : ℕ → ℕ → ℕ
is i j = bit (j == i)

-- One taker for each pairing; the accept `i` is one of them if it answers, or if its connection is claimed.
pub record Taken (i : ℕ) (ts : List ℕ) (r : Rendezvous) : Type 0 where
  pub all_paired : length ts ≡ r.pending.paired
  pub entered : enters (get_at i r.accepts) ≤ total (is i) ts
  pub claimed : bit (is_this i r.pending.listener_ws) ≤ total (is i) ts

enters-close_ws :
    (i j : ℕ) (xs : List Accept) → enters (get_at i (close_ws j xs)) ≡ enters (get_at i xs)
enters-close_ws i j xs = elim (Option-cases (get_at i xs)) [
  | inl none_there ↦ ground (arith, none_there, get_at-close_ws i j xs)
  | inr (a, there) ↦ ground (arith, there, get_at-close_ws i j xs)
]

-- The connect leaves all of this alone.
abbrev Leaves : ℕ → Rendezvous → Rendezvous → Type 0
Leaves i r r' =
    (r'.pending.paired ≡ r.pending.paired)
    × (r'.pending.listener_ws ≡ r.pending.listener_ws)
    × (enters (get_at i r'.accepts) ≡ enters (get_at i r.accepts))

List-cases :
    (ds : List Deferred) → (ds ≡ []) ⊎ ((d : Deferred) × (ds' : List Deferred) × (ds ≡ d ∷ ds'))
List-cases [] = inl refl
List-cases (d ∷ ds) = inr (d, ds, refl)

run_deferred-Leaves :
    (i : ℕ) (d : Deferred) (ds : List Deferred) (r : Rendezvous)
    → Leaves i r (run_deferred d (record r { deferred = ds }))
unfolding run_deferred
run_deferred-Leaves i (close_listener j) ds r = (refl, refl, enters-close_ws i j r.accepts)
run_deferred-Leaves i signal_done ds r = (refl, refl, refl)
run_deferred-Leaves i remove_entry ds r = (refl, refl, refl)
run_deferred-Leaves i release_slot ds r = (refl, refl, refl)

connect_step-Leaves :
    (e : ConnectEvent) (i : ℕ) (at : ConnectAt) (r : Rendezvous)
    → OnSome (Leaves i r) (connect_step e at r)
unfolding connect_step
connect_step-Leaves go i (bridging j) r = (refl, refl, enters-close_ws i j r.accepts)
connect_step-Leaves go i unwinding r = elim (List-cases r.deferred) [
  | inl empty ↦ ground (arith, empty)
  | inr (d, ds, due) ↦ rw (due) (run_deferred-Leaves i d ds r)
]
connect_step-Leaves e i at r = ground arith

-- What a step of the accept `j` with the state `b` may do.
abbrev Enters : ℕ → Bool → Accept → Rendezvous → Accept → Rendezvous → Type 0
Enters j found b r b' r' =
    (r'.accepts ≡ r.accepts)
    × (r'.pending.paired ≡ r.pending.paired + bit found)
    × (enters_at b'.at ≤ enters_at b.at + bit found)
    × ((r'.pending.listener_ws ≡ r.pending.listener_ws)
        ⊎ ((r'.pending.listener_ws ≡ some j) × (enters_at b.at ≡ 1)))

accept_step-Enters :
    (e : AcceptEvent) (j : ℕ) (at : AcceptAt) (b : Accept) (r : Rendezvous)
    → b.at ≡ at
    → OnShared (Enters j (finds e at r.waiting) b r) (accept_step e j at b r)
unfolding accept_step after_upgrade claim abort
accept_step-Enters e j at b r here = ground (arith, here)

Leaves-Taken :
    (i : ℕ) (ts : List ℕ) (r r' : Rendezvous) → Taken i ts r → Leaves i r r' → Taken i (ts ++ []) r'
Leaves-Taken i ts r r' t (p, l, a) = record {
  all_paired = ground (arith, t.all_paired, p, append-nil ts);
  entered = ground (arith, t.entered, a, append-nil ts);
  claimed = ground (arith, t.claimed, l, append-nil ts);
}

-- The accept `i` behind a step of the accept `j`.
enters-set_at :
    (i j : ℕ) (b b' : Accept) (xs : List Accept)
    → get_at j xs ≡ some b
    → (((j == i) ≡ true)
        × (enters (get_at i (set_at j b' xs)) ≡ enters_at b'.at)
        × (enters (get_at i xs) ≡ enters_at b.at))
      ⊎ (((j == i) ≡ false) × (enters (get_at i (set_at j b' xs)) ≡ enters (get_at i xs)))
enters-set_at i j b b' xs there = elim (Bool-cases (j == i)) [
  | inl same ↦
      let here : get_at i xs ≡ some b = ground (arith, same, there, ==_iff j i) in
      inl (same, ground (arith, same, here, get_at-set_at_if i j b' xs), ground (arith, here))
  | inr other ↦ inr (other, ground (arith, other, get_at-set_at_if i j b' xs))
]

Enters-Taken :
    (i j : ℕ) (found : Bool) (ts : List ℕ) (b b' : Accept) (r r' : Rendezvous)
    → get_at j r.accepts ≡ some b
    → Taken i ts r
    → Enters j found b r b' r'
    → Taken i
        (ts ++ (if found then j ∷ [] else []))
        (record r' { accepts = set_at j b' r'.accepts })
Enters-Taken i j true ts b b' r r' there t (same, p, n, l) =
    let moved = enters-set_at i j b b' r.accepts there in
    let counted = total-append (is i) ts (j ∷ []) in
    record {
      all_paired = ground (arith, t.all_paired, p, length-append ts (j ∷ []));
      entered = ground (arith, t.entered, same, n, moved, counted);
      claimed = ground (arith, t.claimed, t.entered, l, moved, counted);
    }
Enters-Taken i j false ts b b' r r' there t (same, p, n, l) =
    let moved = enters-set_at i j b b' r.accepts there in
    let nothing = append-nil ts in
    record {
      all_paired = ground (arith, t.all_paired, p, nothing);
      entered = ground (arith, t.entered, same, n, moved, nothing);
      claimed = ground (arith, t.claimed, t.entered, l, moved, nothing);
    }

put_back-Taken :
    (i j : ℕ) (found : Bool) (ts : List ℕ) (b : Accept) (r : Rendezvous)
    (o : Option (Accept × Rendezvous))
    → get_at j r.accepts ≡ some b
    → Taken i ts r
    → OnShared (Enters j found b r) o
    → OnSome (Taken i (ts ++ (if found then j ∷ [] else []))) (put_back j o)
put_back-Taken i j found ts b r none there t n = tt
put_back-Taken i j found ts b r (some (b', r')) there t n =
    Enters-Taken i j found ts b b' r r' there t n

connect-Taken :
    (i : ℕ) (ts : List ℕ) (r : Rendezvous) (o : Option Rendezvous)
    → Taken i ts r
    → OnSome (Leaves i r) o
    → OnSome (Taken i (ts ++ [])) o
connect-Taken i ts r none t l = tt
connect-Taken i ts r (some r') t l = Leaves-Taken i ts r r' t l

step-Taken :
    (i : ℕ) (ts : List ℕ) (e : Event) (r : Rendezvous)
    → Taken i ts r
    → OnSome (Taken i (ts ++ takes e r)) (step e r)
unfolding step
step-Taken i ts (sender e) r t =
    connect-Taken i ts r (connect_step e r.connect r) t (connect_step-Leaves e i r.connect r)
step-Taken i ts (listener j e) r t = elim (Option-cases (get_at j r.accepts)) [
  | inl none_there ↦ rw (none_there) tt
  | inr (b, there) ↦ rw (there) (
      put_back-Taken i j (finds e b.at r.waiting) ts b r (accept_step e j b.at b r) there t
        (accept_step-Enters e j b.at b r refl))
]
step-Taken i ts (other_reserves max) r t =
    connect-Taken i ts r (step (other_reserves max) r) t (ground arith)
step-Taken i ts other_releases r t = connect-Taken i ts r (step other_releases r) t (ground arith)

bind-Taken :
    (i : ℕ) (ts ts' : List ℕ) (o : Option Rendezvous) (later : Rendezvous → List ℕ)
    (f : Rendezvous → Option Rendezvous)
    → OnSome (Taken i ts') o
    → ((r : Rendezvous) → Taken i ts' r → OnSome (Taken i (later r)) (f r))
    → OnSome (Taken i (then_takers ts o later)) (bind o f)
bind-Taken i ts ts' none later f t keep = tt
bind-Taken i ts ts' (some r) later f t keep = keep r t

pub steps-Taken :
    (i : ℕ) (es : List Event) (ts : List ℕ) (r : Rendezvous)
    → Taken i ts r
    → OnSome (Taken i (takers ts es r)) (steps es r)
unfolding steps takers
steps-Taken i [] ts r t = t
steps-Taken i (e ∷ es) ts r t =
    bind-Taken i ts (ts ++ takes e r) (step e r) (takers (ts ++ takes e r) es) (steps es)
      (step-Taken i ts e r t) (steps-Taken i es (ts ++ takes e r))

-- If the connection of `i` is claimed and at most one accept was paired, `i` is the only taker.
pub only_taker :
    (i : ℕ) (ts : List ℕ) (r : Rendezvous)
    → Taken i ts r
    → r.pending.listener_ws ≡ some i
    → r.pending.paired ≤ 1
    → ts ≡ i ∷ []
only_taker i [] r t here once = absurd (ground (arith, here, t.claimed, ==_iff i i))
only_taker i (j ∷ []) r t here once =
    ap (λ k. k ∷ []) (ground (arith, here, t.claimed, ==_iff i i, ==_iff j i))
only_taker i (j ∷ k ∷ ts) r t here once = absurd (ground (arith, t.all_paired, once))

total-is : (i : ℕ) (ts : List ℕ) → total (is i) ts ≤ length ts
total-is i [] = omega arith
total-is i (j ∷ ts) = elim (Bool-cases (j == i)) [
  | inl same ↦ ground (arith, same, total-is i ts)
  | inr other ↦ ground (arith, other, total-is i ts)
]

-- A claimed connection is one of a pairing.
pub claimed_paired :
    (i : ℕ) (ts : List ℕ) (r : Rendezvous)
    → Taken i ts r
    → bit (is_this i r.pending.listener_ws) ≤ r.pending.paired
claimed_paired i ts r t = omega (arith, t.claimed, t.all_paired, total-is i ts)
