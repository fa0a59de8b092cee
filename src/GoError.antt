-- ===== src/GoError.antt =====
-- Go's `error` values, as far as the program inspects them: a chain of layers joined by `Unwrap`,
-- with the `errors.Is` and `errors.As` of the standard library. `nil` is `none`. The sentinels are
-- those of internal/bridgecause/causes.go, and `rejected` is the `connectRejected` of
-- internal/sender/portforward.go.
use aztunnel.Common.{ℕ, Bool, true, false, ◌||◌, Option, none, some}
use aztunnel.Common.Text.{Bytes}

-- `CausePeerClose`, `CauseLocalClose` and so on.
pub data Cause : Type 0 where
  peer_close local_close user_cancel renew_failure control_error timeout unknown : Cause

-- The `syscall.Errno` values that the program tests for.
pub data Errno : Type 0 where
  econnrefused ehostunreach enetunreach other_errno : Errno

pub record ConnectRejected : Type 0 where
  pub message : Bytes
  pub code : Bytes
  pub listener_id : Bytes

-- One link of a chain. The flag of `dns_error` is its `IsTimeout`; that of `net_error` is what its
-- `Timeout()` returns (`*net.OpError`, `*net.AddrError` and the like).
pub data Layer : Type 0 where
  canceled deadline_exceeded eof unexpected_eof : Layer
  close_error : ℕ → Layer
  dns_error : Bool → Layer
  net_error : Bool → Layer
  errno : Errno → Layer
  cause : Cause → Layer
  rejected : ConnectRejected → Layer
  text : Bytes → Layer

pub data Err : Type 0 where
  leaf : Layer → Err
  wrap : Layer → Err → Err

-- `errors.Is(err, target)`, with the target given as a test on one layer.
unfoldable pub is : (Layer → Bool) → Err → Bool
is test (leaf l) = test l
is test (wrap l e) = test l || is test e

-- `errors.As(err, &target)`: what the first layer of the wanted type holds.
unfoldable pub find_layer {ℓ} : {A : Type ℓ} → (Layer → Option A) → Err → Option A
find_layer view (leaf l) = view l
find_layer view (wrap l e) =
    let rest = find_layer view e in elim (view l) [ none ↦ rest | some a ↦ some a ]

abbrev pub is_canceled : Layer → Bool
is_canceled canceled = true
is_canceled _ = false

abbrev pub is_deadline : Layer → Bool
is_deadline deadline_exceeded = true
is_deadline _ = false

abbrev pub is_eof : Layer → Bool
is_eof eof = true
is_eof _ = false

abbrev pub is_unexpected_eof : Layer → Bool
is_unexpected_eof unexpected_eof = true
is_unexpected_eof _ = false

abbrev same_cause : Cause → Cause → Bool
same_cause peer_close peer_close = true
same_cause local_close local_close = true
same_cause user_cancel user_cancel = true
same_cause renew_failure renew_failure = true
same_cause control_error control_error = true
same_cause timeout timeout = true
same_cause unknown unknown = true
same_cause _ _ = false

abbrev pub is_cause : Cause → Layer → Bool
is_cause c (cause d) = same_cause c d
is_cause c _ = false

abbrev same_errno : Errno → Errno → Bool
same_errno econnrefused econnrefused = true
same_errno ehostunreach ehostunreach = true
same_errno enetunreach enetunreach = true
same_errno other_errno other_errno = true
same_errno _ _ = false

abbrev pub is_errno : Errno → Layer → Bool
is_errno c (errno d) = same_errno c d
is_errno c _ = false

-- The layers that satisfy `net.Error`, with their `Timeout()`. `context.DeadlineExceeded` is one,
-- and so is `syscall.Errno`, which is no timeout for the values above.
abbrev pub as_net_error : Layer → Option Bool
as_net_error deadline_exceeded = some true
as_net_error (dns_error is_timeout) = some is_timeout
as_net_error (net_error is_timeout) = some is_timeout
as_net_error (errno _) = some false
as_net_error _ = none

abbrev pub as_dns_error : Layer → Option Bool
as_dns_error (dns_error is_timeout) = some is_timeout
as_dns_error _ = none

abbrev pub as_close_error : Layer → Option ℕ
as_close_error (close_error code) = some code
as_close_error _ = none

abbrev pub as_rejected : Layer → Option ConnectRejected
as_rejected (rejected r) = some r
as_rejected _ = none

-- `errors.Is(err, context.Canceled) || errors.Is(err, context.DeadlineExceeded)`
abbrev pub is_context_end : Err → Bool
is_context_end e = is is_canceled e || is is_deadline e

-- `errors.As(err, &netErr) && netErr.Timeout()`
unfoldable pub is_net_timeout : Err → Bool
is_net_timeout e = elim (find_layer as_net_error e) [ none ↦ false | some t ↦ t ]
