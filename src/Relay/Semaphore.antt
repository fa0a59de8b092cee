-- ===== src/Relay/Semaphore.antt =====
-- internal/relay/net.go: `connSemaphore`, a buffered channel whose values are the permits held.
use aztunnel.Common.{
  ℤ, pos, negsuc, ℕ, zero, suc, ◌-◌, Bool, true, false, not, ◌&&◌, Option, none, some, ltb,
  if◌then◌else◌,
}

-- `ch`: nil, or the capacity of the channel and how many values it holds.
pub record ConnSemaphore : Type 0 where
  pub capacity : Option ℕ
  pub held : ℕ

-- `newConnSemaphore`
unfoldable pub new_conn_semaphore : ℤ → ConnSemaphore
new_conn_semaphore (pos zero) = record { capacity = none; held = 0 }
new_conn_semaphore (pos (suc n)) = record { capacity = some (suc n); held = 0 }
new_conn_semaphore (negsuc n) = record { capacity = none; held = 0 }

-- `tryAcquire`. Where the context is done and there is room, the `select` takes either case:
-- `prefers_send` is its choice.
unfoldable pub try_acquire : (ctx_done prefers_send : Bool) → ConnSemaphore → Bool × ConnSemaphore
try_acquire ctx_done prefers_send s = elim s.capacity [
  | none ↦ (true, s)
  | some n ↦
      if ltb s.held n && not (ctx_done && not prefers_send)
      then (true, record s { held = suc s.held })
      else (false, s)
]

-- `release`, by a holder of a permit.
unfoldable pub release : ConnSemaphore → ConnSemaphore
release s = elim s.capacity [ none ↦ s | some n ↦ record s { held = s.held - 1 } ]
