-- ===== src/MockRelay/Flow.antt =====
-- mockrelay/server/bridge_ws.go: the byte budget of one direction of the mock's bridge, and the order of its
-- messages.
use aztunnel.Common.{
  ℕ, ◌+◌, ◌≤◌, ◌≡◌, refl, Bool, true, false, Option, none, some, List, [], ◌∷◌, ◌++◌, arith, total,
  ◌⊎◌, inl, inr, total-append, append_assoc, append-nil, ap, ◌∙◌,
}
use aztunnel.GoError.{Err}
use aztunnel.MockRelay.Pipeline.{
  Message, QueuedFrame, Reader, reading, acquiring, queueing, read_done, Writer, receiving,
  sleeping, sending, write_done, Pipe, start, PipeEvent, read_message, enqueue, reader_step,
  writer_step, pipe_step, pipe_run, or_writer, or_else,
}

abbrev weight_of : QueuedFrame → ℕ
weight_of f = f.weight

-- The weight that a goroutine holds, and the messages that it has in hand.
abbrev reader_weight : Reader → ℕ
reader_weight (queueing f) = f.weight
reader_weight _ = 0

abbrev writer_weight : Writer → ℕ
writer_weight (sleeping f) = f.weight
writer_weight (sending f) = f.weight
writer_weight _ = 0

abbrev pub reader_hand : Reader → List Message
reader_hand reading = []
reader_hand (acquiring m) = m ∷ []
reader_hand (queueing f) = f.frame ∷ []
reader_hand (read_done e dropped) = dropped

abbrev pub writer_hand : Writer → List Message
writer_hand receiving = []
writer_hand (sleeping f) = f.frame ∷ []
writer_hand (sending f) = f.frame ∷ []
writer_hand (write_done e dropped) = dropped

unfoldable pub frames : List QueuedFrame → List Message
frames [] = []
frames (f ∷ fs) = f.frame ∷ frames fs

pub record Budgeted (budget : ℕ) (p : Pipe) : Type 0 where
  pub accounted : p.held ≡ reader_weight p.reader + total weight_of p.queue + writer_weight p.writer
  pub bounded : p.held ≤ budget

abbrev OnPipe {ℓ} : (Pipe → Type ℓ) → Option Pipe → Type ℓ
OnPipe P none = Unit
OnPipe P (some p) = P p

reader_step-Budgeted :
    (budget delay : ℕ) (e : PipeEvent) (r : Reader) (p : Pipe)
    → p.reader ≡ r
    → Budgeted budget p
    → OnPipe (Budgeted budget) (reader_step budget delay e r p)
unfolding reader_step
reader_step-Budgeted budget delay e (queueing f) p here b =
    ground (arith, here, b.accounted, b.bounded, total-append weight_of p.queue (f ∷ []))
reader_step-Budgeted budget delay e r p here b = ground (arith, here, b.accounted, b.bounded)

List-cases :
    (q : List QueuedFrame) → (q ≡ []) ⊎ ((f : QueuedFrame) × (fs : List QueuedFrame) × (q ≡ f ∷ fs))
List-cases [] = inl refl
List-cases (f ∷ fs) = inr (f, fs, refl)

writer_step-Budgeted :
    (budget : ℕ) (e : PipeEvent) (w : Writer) (p : Pipe)
    → p.writer ≡ w
    → Budgeted budget p
    → OnPipe (Budgeted budget) (writer_step e w p)
unfolding writer_step
writer_step-Budgeted budget e receiving p here b = elim (List-cases p.queue) [
  | inl empty ↦ ground (arith, here, empty, b.accounted, b.bounded)
  | inr (f, fs, front) ↦ ground (arith, here, front, b.accounted, b.bounded)
]
writer_step-Budgeted budget e w p here b = ground (arith, here, b.accounted, b.bounded)

frames-append : (xs ys : List QueuedFrame) → frames (xs ++ ys) ≡ frames xs ++ frames ys
unfolding frames
frames-append [] ys = refl
frames-append (x ∷ xs) ys = ap (◌∷◌ x.frame) (frames-append xs ys)

-- The messages that were read are those written, the writer's, those of the queue and the reader's.
abbrev pub InOrder : Pipe → Type 0
InOrder p =
    p.taken ≡ ((p.written ++ writer_hand p.writer) ++ frames p.queue) ++ reader_hand p.reader

reader_step-InOrder :
    (budget delay : ℕ) (e : PipeEvent) (r : Reader) (p : Pipe)
    → p.reader ≡ r
    → InOrder p
    → OnPipe InOrder (reader_step budget delay e r p)
unfolding reader_step frames
reader_step-InOrder budget delay (read_message m) reading p here o =
    let sent = (p.written ++ writer_hand p.writer) ++ frames p.queue in
    ap (λ ms. ms ++ (m ∷ [])) (o ∙ ap (λ r. sent ++ reader_hand r) here ∙ append-nil sent)
reader_step-InOrder budget delay enqueue (queueing f) p here o =
    let sent = p.written ++ writer_hand p.writer in
    ground (
      arith,
      here,
      o,
      frames-append p.queue (f ∷ []),
      append_assoc sent (frames p.queue) (f.frame ∷ []),
      append-nil (sent ++ frames (p.queue ++ (f ∷ []))),
    )
reader_step-InOrder budget delay e r p here o = ground (arith, here, o)

writer_step-InOrder :
    (e : PipeEvent) (w : Writer) (p : Pipe)
    → p.writer ≡ w
    → InOrder p
    → OnPipe InOrder (writer_step e w p)
unfolding writer_step frames
writer_step-InOrder e receiving p here o = elim (List-cases p.queue) [
  | inl empty ↦ ground (arith, here, empty, o)
  | inr (f, fs, front) ↦ ground (
    arith,
    here,
    front,
    o,
    append_assoc p.written (f.frame ∷ []) (frames fs),
    append-nil p.written,
  )
]
writer_step-InOrder e (sending f) p here o =
    ground (arith, here, o, append-nil (p.written ++ (f.frame ∷ [])))
writer_step-InOrder e w p here o = ground (arith, here, o)

abbrev pub is_done : Reader → Bool
is_done (read_done e dropped) = true
is_done _ = false

-- A writer that ended without an error found the queue closed and empty.
abbrev Drained : Writer → Pipe → Type 0
Drained (write_done none dropped) p = (p.queue ≡ []) × (dropped ≡ []) × (is_done p.reader ≡ true)
Drained _ p = Unit

pub record Ended (p : Pipe) : Type 0 where
  pub closed_by_reader : (p.closed ≡ false) ⊎ (is_done p.reader ≡ true)
  pub drained : Drained p.writer p

reader_step-Ended :
    (budget delay : ℕ) (e : PipeEvent) (r : Reader) (p : Pipe)
    → p.reader ≡ r
    → Ended p
    → OnPipe Ended (reader_step budget delay e r p)
unfolding reader_step
reader_step-Ended budget delay e r p here d = ground (arith, here, d.closed_by_reader, d.drained)

writer_step-Ended :
    (e : PipeEvent) (w : Writer) (p : Pipe)
    → p.writer ≡ w
    → Ended p
    → OnPipe Ended (writer_step e w p)
unfolding writer_step
writer_step-Ended e receiving p here d = elim (List-cases p.queue) [
  | inl empty ↦ ground (arith, here, empty, d.closed_by_reader, d.drained)
  | inr (f, fs, front) ↦ ground (arith, here, front, d.closed_by_reader, d.drained)
]
writer_step-Ended e w p here d = ground (arith, here, d.closed_by_reader, d.drained)

-- What both goroutines keep holds after every run.
module _ {ℓ} (P : Pipe → Type ℓ) (budget delay : ℕ)
    (reader_keeps : (e : PipeEvent) (r : Reader) (p : Pipe)
      → p.reader ≡ r
      → P p
      → OnPipe P (reader_step budget delay e r p))
    (writer_keeps : (e : PipeEvent) (w : Writer) (p : Pipe)
      → p.writer ≡ w
      → P p
      → OnPipe P (writer_step e w p)) where
  either :
      (o : Option Pipe) (e : PipeEvent) (p : Pipe)
      → OnPipe P o
      → OnPipe P (writer_step e p.writer p)
      → OnPipe P (or_writer o e p)
  either (some q) e p kept other = kept
  either none e p kept other = other

  pipe_step_keeps : (e : PipeEvent) (p : Pipe) → P p → OnPipe P (pipe_step budget delay e p)
  unfolding pipe_step
  pipe_step_keeps e p k =
      either (reader_step budget delay e p.reader p) e p (reader_keeps e p.reader p refl k)
        (writer_keeps e p.writer p refl k)

  kept_or_same : (o : Option Pipe) (p : Pipe) → P p → OnPipe P o → P (or_else o p)
  kept_or_same none p k o = k
  kept_or_same (some q) p k o = o

  pipe_run_keeps : (es : List PipeEvent) (p : Pipe) → P p → P (pipe_run budget delay es p)
  unfolding pipe_run
  pipe_run_keeps [] p k = k
  pipe_run_keeps (e ∷ es) p k =
      pipe_run_keeps es (or_else (pipe_step budget delay e p) p)
        (kept_or_same (pipe_step budget delay e p) p k (pipe_step_keeps e p k))

-- One event, the form in which two copies share a run.
pub pipe_round-Budgeted :
    (budget delay : ℕ) (e : PipeEvent) (p : Pipe)
    → Budgeted budget p
    → Budgeted budget (or_else (pipe_step budget delay e p) p)
unfolding pipe_run
pipe_round-Budgeted budget delay e p k =
    pipe_run_keeps (Budgeted budget) budget delay (reader_step-Budgeted budget delay)
      (writer_step-Budgeted budget) (e ∷ []) p k

pub pipe_round-InOrder :
    (budget delay : ℕ) (e : PipeEvent) (p : Pipe)
    → InOrder p
    → InOrder (or_else (pipe_step budget delay e p) p)
unfolding pipe_run
pipe_round-InOrder budget delay e p k =
    pipe_run_keeps InOrder budget delay (reader_step-InOrder budget delay) writer_step-InOrder
      (e ∷ []) p k

all_written :
    (p : Pipe) (e : Err) (dropped : List Message) (budget : ℕ)
    → p.reader ≡ read_done e []
    → p.writer ≡ write_done none dropped
    → Ended p
    → InOrder p
    → Budgeted budget p
    → (p.written ≡ p.taken) × (p.held ≡ 0)
unfolding frames
all_written p e dropped budget read wrote d o b =
    ground (arith, read, wrote, d.drained, o, b.accounted, append-nil p.written)

pipe_run-Ended : (budget delay : ℕ) (es : List PipeEvent) → Ended (pipe_run budget delay es start)
pipe_run-Ended budget delay es =
    pipe_run_keeps Ended budget delay (reader_step-Ended budget delay) writer_step-Ended es start
      (ground arith)

-- Whatever the sockets, the timers and the contexts do, the weights that are out are those of the frames in hand and
-- in the queue, each released once, and the sum never exceeds the budget.
pub pipe_run-Budgeted :
    (budget delay : ℕ) (es : List PipeEvent) → Budgeted budget (pipe_run budget delay es start)
pipe_run-Budgeted budget delay es =
    pipe_run_keeps (Budgeted budget) budget delay (reader_step-Budgeted budget delay)
      (writer_step-Budgeted budget) es start (ground arith)

-- At every moment, the messages read from the source are, in order and with their boundaries and types, those written
-- to the destination, then the writer's, those of the queue, and the reader's: none is merged, cut or overtaken.
pub pipe_run-InOrder :
    (budget delay : ℕ) (es : List PipeEvent) → InOrder (pipe_run budget delay es start)
unfolding frames
pipe_run-InOrder budget delay es =
    pipe_run_keeps InOrder budget delay (reader_step-InOrder budget delay) writer_step-InOrder es
      start refl

-- When the reader ended with no message in hand and the writer without an error, everything that was read is written,
-- and no weight is out.
pub pipe_run-drained :
    (budget delay : ℕ) (es : List PipeEvent) (e : Err) (dropped : List Message)
    → (pipe_run budget delay es start).reader ≡ read_done e []
    → (pipe_run budget delay es start).writer ≡ write_done none dropped
    → ((pipe_run budget delay es start).written ≡ (pipe_run budget delay es start).taken)
      × ((pipe_run budget delay es start).held ≡ 0)
pipe_run-drained budget delay es e dropped read wrote =
    all_written (pipe_run budget delay es start) e dropped budget read wrote
      (pipe_run-Ended budget delay es) (pipe_run-InOrder budget delay es)
      (pipe_run-Budgeted budget delay es)
