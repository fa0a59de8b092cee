-- ===== src/Metrics/Connections.antt =====
-- internal/metrics/metrics.go: `ConnectionOpened` and `ConnectionTracker.Done`, the accounts of `TrackedBridge`. The
-- collectors are those of a library: a gauge and counters with labels, which are functions of the label here. The
-- connections open and end in any order.
use aztunnel.Common.{
  ℕ, ◌+◌, ◌-◌, ◌≡◌, Bool, ◌&&◌, Option, none, some, List, [], ◌∷◌, ◌++◌, arith, if◌then◌else◌,
  get_at, set_at, total, total-append, total-set_at, Option-cases, inl, inr,
}
use aztunnel.Common.Text.{Bytes, bytes_eq}

-- The labels of a connection, its target behind the cardinality guard.
pub record Label : Type 0 where
  pub role : Bytes
  pub target : Bytes

unfoldable pub same_label : Label → Label → Bool
same_label a b = bytes_eq a.role b.role && bytes_eq a.target b.target

-- `activeConnections`, `connectionsTotal` by its status, and `bytesTotal` by its direction.
pub record Collectors : Type 0 where
  pub active : Label → ℕ
  pub success : Label → ℕ
  pub error : Label → ℕ
  pub to_relay : Label → ℕ
  pub from_relay : Label → ℕ

-- A tracker, and what `Done` was called with, if it was. `failed` is whether the error is not nil.
pub record Finished : Type 0 where
  pub sent : ℕ
  pub received : ℕ
  pub failed : Bool

pub record Tracker : Type 0 where
  pub label : Label
  pub finished : Option Finished

pub record Registry : Type 0 where
  pub collectors : Collectors
  pub trackers : List Tracker

abbrev pub bump : (Label → ℕ) → Label → ℕ → Label → ℕ
bump f l n k = if same_label l k then f k + n else f k

-- `ConnectionOpened`
unfoldable pub connection_opened : Label → Registry → Registry
connection_opened l r = record {
  collectors = record r.collectors { active = bump r.collectors.active l 1 };
  trackers = r.trackers ++ (record { label = l; finished = none } ∷ []);
}

-- The counters that `Done` adds to. The gauge goes down by one.
unfoldable pub counted : Label → Finished → Collectors → Collectors
counted l d c = record {
  active = λ k. if same_label l k then c.active k - 1 else c.active k;
  success = if d.failed then c.success else bump c.success l 1;
  error = if d.failed then bump c.error l 1 else c.error;
  to_relay = bump c.to_relay l d.sent;
  from_relay = bump c.from_relay l d.received;
}

abbrev finish : ℕ → Finished → Option Tracker → Registry → Registry
finish i d none r = r
finish i d (some t) r = elim t.finished [
  | some before ↦ r
  | none ↦ record {
    collectors = counted t.label d r.collectors;
    trackers = set_at i (record t { finished = some d }) r.trackers;
  }
]

-- `Done` of the `i`-th connection, which `TrackedBridge` calls once.
unfoldable pub done : ℕ → Finished → Registry → Registry
unfolding counted
done i d r = finish i d (get_at i r.trackers) r

pub data Event : Type 0 where
  opens : Label → Event
  ends : ℕ → Finished → Event

unfoldable pub account : Event → Registry → Registry
account (opens l) r = connection_opened l r
account (ends i d) r = done i d r

unfoldable pub accounts : List Event → Registry → Registry
accounts [] r = r
accounts (e ∷ es) r = accounts es (account e r)

unfoldable pub no_connections : Registry
no_connections = record {
  collectors = record {
    active = λ l. 0;
    success = λ l. 0;
    error = λ l. 0;
    to_relay = λ l. 0;
    from_relay = λ l. 0;
  };
  trackers = [];
}

-- What a tracker adds to each collector of a label.
abbrev open_one : Label → Tracker → ℕ
open_one k t = if same_label t.label k then elim t.finished [ none ↦ 1 | some d ↦ 0 ] else 0

abbrev ended_one : (Finished → ℕ) → Label → Tracker → ℕ
ended_one f k t = if same_label t.label k then elim t.finished [ none ↦ 0 | some d ↦ f d ] else 0

abbrev succeeded : Finished → ℕ
succeeded d = if d.failed then 0 else 1

abbrev failing : Finished → ℕ
failing d = if d.failed then 1 else 0

abbrev sent_bytes : Finished → ℕ
sent_bytes d = d.sent

abbrev received_bytes : Finished → ℕ
received_bytes d = d.received

pub record Balanced (k : Label) (r : Registry) : Type 0 where
  pub gauge : r.collectors.active k ≡ total (open_one k) r.trackers
  pub successes : r.collectors.success k ≡ total (ended_one succeeded k) r.trackers
  pub errors : r.collectors.error k ≡ total (ended_one failing k) r.trackers
  pub bytes_sent : r.collectors.to_relay k ≡ total (ended_one sent_bytes k) r.trackers
  pub bytes_received : r.collectors.from_relay k ≡ total (ended_one received_bytes k) r.trackers

opened-Balanced : (k l : Label) (r : Registry) → Balanced k r → Balanced k (connection_opened l r)
unfolding connection_opened
opened-Balanced k l r b =
    let t : List Tracker = record { label = l; finished = none } ∷ [] in
    ground (
      arith,
      b.gauge,
      b.successes,
      b.errors,
      b.bytes_sent,
      b.bytes_received,
      total-append (open_one k) r.trackers t,
      total-append (ended_one succeeded k) r.trackers t,
      total-append (ended_one failing k) r.trackers t,
      total-append (ended_one sent_bytes k) r.trackers t,
      total-append (ended_one received_bytes k) r.trackers t,
    )

done-Balanced :
    (k : Label) (i : ℕ) (d : Finished) (r : Registry) → Balanced k r → Balanced k (done i d r)
unfolding done
done-Balanced k i d r b = elim (Option-cases (get_at i r.trackers)) [
  | inl none_there ↦ rw (none_there) b
  | inr (t, there) ↦ elim (Option-cases t.finished) [
    | inr (before, twice) ↦ rw (there, twice) b
    | inl running ↦
        let t' = record t { finished = some d } in
        ground (
          arith,
          there,
          running,
          b.gauge,
          b.successes,
          b.errors,
          b.bytes_sent,
          b.bytes_received,
          total-set_at (open_one k) i t t' r.trackers there,
          total-set_at (ended_one succeeded k) i t t' r.trackers there,
          total-set_at (ended_one failing k) i t t' r.trackers there,
          total-set_at (ended_one sent_bytes k) i t t' r.trackers there,
          total-set_at (ended_one received_bytes k) i t t' r.trackers there,
        )
  ]
]

account-Balanced : (k : Label) (e : Event) (r : Registry) → Balanced k r → Balanced k (account e r)
unfolding account
account-Balanced k (opens l) r b = opened-Balanced k l r b
account-Balanced k (ends i d) r b = done-Balanced k i d r b

kept : (k : Label) (es : List Event) (r : Registry) → Balanced k r → Balanced k (accounts es r)
unfolding accounts
kept k [] r b = b
kept k (e ∷ es) r b = kept k es (account e r) (account-Balanced k e r b)

-- However connections open and end, the gauge of a label is the number of its connections that are open, and its
-- counters are the successes, the errors and the bytes of those that ended, each counted once.
pub accounts-Balanced : (k : Label) (es : List Event) → Balanced k (accounts es no_connections)
unfolding no_connections
accounts-Balanced k es = kept k es no_connections (ground arith)
