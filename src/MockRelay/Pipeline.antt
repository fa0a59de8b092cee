-- ===== src/MockRelay/Pipeline.antt =====
-- mockrelay/server/bridge_ws.go: one direction of the mock's bridge. The reader and the writer of
-- `pipelinedCopy` share a queue and a weighted semaphore; what the sockets, the timers and the contexts do is in
-- the event.
use aztunnel.Common.{
  ℕ, ◌+◌, ◌-◌, ◌*◌, Bool, true, false, ◌&&◌, ◌||◌, if◌then◌else◌, ltb, leb, ◌==◌, Option, none,
  some, List, [], ◌∷◌, ◌++◌, length,
}
use aztunnel.Common.Text.{Bytes}
use aztunnel.GoError.{Err, is, is_canceled, is_eof, find_layer, as_close_error}

abbrev pub bridge_pipeline_depth : ℕ
bridge_pipeline_depth = 1024

abbrev pub bridge_byte_budget : ℕ
bridge_byte_budget = 12 * 1024 * 1024

-- `websocket.MessageType`
pub data MessageType : Type 0 where
  text_message binary_message : MessageType

pub record Message : Type 0 where
  pub typ : MessageType
  pub data_bytes : Bytes

-- `queuedFrame`
pub record QueuedFrame : Type 0 where
  pub frame : Message
  pub arrive_by : ℕ
  pub weight : ℕ

-- `bridgeFrameWeight`, with the budget, which is a variable of the package.
unfoldable pub bridge_frame_weight : (budget n : ℕ) → ℕ
bridge_frame_weight budget n = if ltb budget n then budget else n

-- The reader reads, waits for capacity with a message in hand, or for room in the queue. A goroutine
-- that ends has the message that it drops.
pub data Reader : Type 0 where
  reading : Reader
  acquiring : Message → Reader
  queueing : QueuedFrame → Reader
  read_done : Err → List Message → Reader

-- The writer waits for a frame, sleeps until the frame's time, or writes it.
pub data Writer : Type 0 where
  receiving : Writer
  sleeping : QueuedFrame → Writer
  sending : QueuedFrame → Writer
  write_done : Option Err → List Message → Writer

-- `held` is the weight that the semaphore has given out, `closed` that the queue is closed, `canceled_copy` that
-- `copyCtx` is over. `taken` and `written` are the messages read from the source and written to the destination.
pub record Pipe : Type 0 where
  pub reader : Reader
  pub writer : Writer
  pub queue : List QueuedFrame
  pub closed : Bool
  pub held : ℕ
  pub canceled_copy : Bool
  pub taken : List Message
  pub written : List Message

abbrev pub start : Pipe
start = record {
  reader = reading;
  writer = receiving;
  queue = [];
  closed = false;
  held = 0;
  canceled_copy = false;
  taken = [];
  written = [];
}

-- `read_fails` also stands for a read or a wait that the context ends, with the context's error. `at_time` is the
-- clock.
pub data PipeEvent : Type 0 where
  read_message : Message → PipeEvent
  read_fails : Err → PipeEvent
  acquire : (at_time : ℕ) → PipeEvent
  enqueue dequeue wake : PipeEvent
  sleep_fails : Err → PipeEvent
  write_returns : Option Err → PipeEvent

-- The reader has returned its error, and `pipelinedCopy` closes the queue.
abbrev end_reader : Err → List Message → Pipe → Option Pipe
end_reader e dropped p = some (record p { reader = read_done e dropped; closed = true })

-- The writer's goroutine cancels `copyCtx` when it is over.
abbrev end_writer : Option Err → List Message → Pipe → Option Pipe
end_writer e dropped p = some (record p { writer = write_done e dropped; canceled_copy = true })

-- `runPipelinedReader`
unfoldable pub reader_step : (budget delay : ℕ) → PipeEvent → Reader → Pipe → Option Pipe
unfolding bridge_frame_weight
reader_step budget delay (read_message m) reading p =
    some (record p { reader = acquiring m; taken = p.taken ++ (m ∷ []) })
reader_step budget delay (read_fails e) reading p = end_reader e [] p
reader_step budget delay (acquire now) (acquiring m) p =
    let w = bridge_frame_weight budget (length m.data_bytes) in
    if leb (p.held + w) budget
    then some (record p {
      reader = queueing (record { frame = m; arrive_by = now + delay; weight = w });
      held = p.held + w;
    })
    else none
reader_step budget delay (read_fails e) (acquiring m) p = end_reader e (m ∷ []) p
reader_step budget delay enqueue (queueing f) p =
    if ltb (length p.queue) bridge_pipeline_depth
    then some (record p { reader = reading; queue = p.queue ++ (f ∷ []) })
    else none
reader_step budget delay (read_fails e) (queueing f) p =
    end_reader e (f.frame ∷ []) (record p { held = p.held - f.weight })
reader_step budget delay e r p = none

abbrev after_write : Option Err → QueuedFrame → Pipe → Option Pipe
after_write (some e) f p =
    end_writer (some e) (f.frame ∷ []) (record p { held = p.held - f.weight })
after_write none f p = some (record p {
  writer = receiving;
  held = p.held - f.weight;
  written = p.written ++ (f.frame ∷ []);
})

abbrev take_frame : List QueuedFrame → Pipe → Option Pipe
take_frame [] p = if p.closed then end_writer none [] p else none
take_frame (f ∷ fs) p = some (record p { writer = sleeping f; queue = fs })

-- `runPipelinedWriter` and `writePipelinedFrame`
unfoldable pub writer_step : PipeEvent → Writer → Pipe → Option Pipe
writer_step dequeue receiving p = take_frame p.queue p
writer_step wake (sleeping f) p = some (record p { writer = sending f })
writer_step (sleep_fails e) (sleeping f) p =
    end_writer (some e) (f.frame ∷ []) (record p { held = p.held - f.weight })
writer_step (write_returns e) (sending f) p = after_write e f p
writer_step e w p = none

abbrev pub or_writer : Option Pipe → PipeEvent → Pipe → Option Pipe
or_writer (some q) e p = some q
or_writer none e p = writer_step e p.writer p

-- A step of either goroutine; the two wait for different events.
unfoldable pub pipe_step : (budget delay : ℕ) → PipeEvent → Pipe → Option Pipe
pipe_step budget delay e p = or_writer (reader_step budget delay e p.reader p) e p

abbrev pub or_else : Option Pipe → Pipe → Pipe
or_else none p = p
or_else (some q) p = q

-- A run; an event that nobody waits for is passed over.
unfoldable pub pipe_run : (budget delay : ℕ) → List PipeEvent → Pipe → Pipe
pipe_run budget delay [] p = p
pipe_run budget delay (e ∷ es) p = pipe_run budget delay es (or_else (pipe_step budget delay e p) p)

-- What `pipelinedCopy` returns: `drained` has the writer's result, none where the drain timer fired first.
-- `live` is whether the context of the caller is still live. `runPipelinedReader` never returns nil.
unfoldable pub copy_result :
    (read_err : Err) → (live : Bool) → (drained : Option (Option Err)) → Err
copy_result read_err live none = read_err
copy_result read_err live (some none) = read_err
copy_result read_err live (some (some write_err)) =
    if is is_canceled read_err && live then write_err else read_err

abbrev is_normal : Option ℕ → Bool
is_normal none = false
is_normal (some code) = code == 1000 || code == 1001

-- `foldCloseErr`
unfoldable pub fold_close_err : Option Err → Option Err
fold_close_err none = none
fold_close_err (some e) =
    if is is_eof e || is is_canceled e
    then none
    else if is_normal (find_layer as_close_error e)
    then none
    else some e
