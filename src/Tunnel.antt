-- ===== src/Tunnel.antt =====
-- What the connection handlers of internal/listener and internal/sender do to the world, in order:
-- calls of the WebSocket and of the local connection, of internal/metrics and of the logger. Of a
-- log record the level and the message are kept, without its attributes.
use aztunnel.Common.{
  arith, ◌+◌, ◌≡◌, refl, ◌⊎◌, inl, inr, ℕ, suc, Bool, true, false, List, [], ◌∷◌, ◌++◌, ltb,
  if◌then◌else◌,
}
use aztunnel.Common.Text.{Bytes}
use aztunnel.GoError.{Err}
use aztunnel.Metrics.{Reason}

pub data Level : Type 0 where
  debug info warn : Level

pub data Role : Type 0 where
  listener sender : Role

-- send: a text message on the WebSocket. dial_target: the listener's dial. dial_relay: the sender's
-- rendezvous dial. send_local: bytes to the local client. bridge: `TrackedBridge` with its target.
pub data Effect : Type 0 where
  send : Bytes → Effect
  send_local : Bytes → Effect
  dial_target : Bytes → Effect
  dial_relay : ℕ → Effect
  observe_dial : Role → Effect
  count_error : Role → Reason → Effect
  keep_alive : ℕ → Effect
  read_deadline : ℕ → Effect
  clear_deadline : Effect
  bridge : Role → Bytes → Effect
  close_target close_relay : Effect
  log : Level → Bytes → Effect

-- The result of a read.
pub data Read : Type 0 where
  got : Bytes → Read
  failed : Err → Read

-- A call of a `*Metrics` that may be nil.
abbrev pub measured : Bool → Effect → List Effect → List Effect
measured true e es = e ∷ es
measured false e es = es

-- `relay.SetTCPKeepAlive` on a TCP connection.
abbrev pub set_keep_alive : ℕ → List Effect → List Effect
set_keep_alive d es = if ltb 0 d then keep_alive d ∷ es else es

-- Of a list of effects: those for which the test holds, counted.
abbrev pub count_if : (Effect → Bool) → List Effect → ℕ
count_if test [] = 0
count_if test (e ∷ es) = let rest = count_if test es in if test e then suc rest else rest

abbrev pub is_send : Effect → Bool
is_send (send bs) = true
is_send _ = false

abbrev pub is_bridge : Effect → Bool
is_bridge (bridge r t) = true
is_bridge _ = false

abbrev pub is_count_error : Effect → Bool
is_count_error (count_error r why) = true
is_count_error _ = false

abbrev pub is_dial : Effect → Bool
is_dial (dial_target t) = true
is_dial (dial_relay d) = true
is_dial _ = false

-- The targets that a list of effects dials.
abbrev pub dialled : List Effect → List Bytes
dialled [] = []
dialled (dial_target t ∷ es) = t ∷ dialled es
dialled (_ ∷ es) = dialled es

pub Read-cases : (r : Read) → ((e : Err) × (r ≡ failed e)) ⊎ ((bs : Bytes) × (r ≡ got bs))
Read-cases (failed e) = inl (e, refl)
Read-cases (got bs) = inr (bs, refl)

pub count_if-append :
    (test : Effect → Bool) (xs ys : List Effect)
    → count_if test (xs ++ ys) ≡ count_if test xs + count_if test ys
count_if-append test [] ys = omega arith
count_if-append test (x ∷ xs) ys = ground (arith, count_if-append test xs ys)
