-- ===== src/Sender/Accepting.antt =====
-- internal/sender/portforward.go and socks5proxy.go: the accept loops of `PortForward` and `SOCKS5Proxy`, which are
-- the same but for the handler. What `Accept` returns, and whether the context is over by then, is in the list; a
-- handler runs beside the loop and closes its connection when it returns.
use aztunnel.Common.{ℕ, zero, suc, ◌*◌, ◌≡◌, refl, Option, none, some, List, [], ◌∷◌, ap}
use aztunnel.GoError.{Err}

-- A connection by its number, or the error, with that of the context if it is over.
pub data AcceptResult : Type 0 where
  accepted : ℕ → AcceptResult
  not_accepted : Err → Option Err → AcceptResult

pub data AcceptEffect : Type 0 where
  serve : ℕ → AcceptEffect
  warn_accept : Err → AcceptEffect

-- The end of the loop; `waiting` while it waits for the next connection.
pub data LoopEnd : Type 0 where
  waiting : LoopEnd
  ended : Err → LoopEnd

abbrev ahead : AcceptEffect → List AcceptEffect × LoopEnd → List AcceptEffect × LoopEnd
ahead e (es, end) = (e ∷ es, end)

unfoldable pub accept_loop : List AcceptResult → List AcceptEffect × LoopEnd
accept_loop [] = ([], waiting)
accept_loop (accepted c ∷ rs) = ahead (serve c) (accept_loop rs)
accept_loop (not_accepted e (some over) ∷ rs) = ([], ended over)
accept_loop (not_accepted e none ∷ rs) = ahead (warn_accept e) (accept_loop rs)

-- How the listening starts.
pub data Started : Type 0 where
  listening : Started
  listen_failed : Err → Started

-- `PortForward` and `SOCKS5Proxy` behind their defaults.
unfoldable pub serve_local : Started → List AcceptResult → List AcceptEffect × LoopEnd
unfolding accept_loop
serve_local (listen_failed e) rs = ([], ended e)
serve_local listening rs = accept_loop rs

abbrev pub default_keep_alive : ℕ
default_keep_alive = 30 * 1000000000

-- The `TCPKeepAlive` of both configurations; zero stands for the default.
unfoldable pub keep_alive : ℕ → ℕ
keep_alive zero = default_keep_alive
keep_alive (suc d) = suc d

-- The connections that were accepted before the context was over.
unfoldable pub connections : List AcceptResult → List ℕ
connections [] = []
connections (accepted c ∷ rs) = c ∷ connections rs
connections (not_accepted e (some over) ∷ rs) = []
connections (not_accepted e none ∷ rs) = connections rs

unfoldable pub served : List AcceptEffect → List ℕ
served [] = []
served (serve c ∷ es) = c ∷ served es
served (warn_accept e ∷ es) = served es

-- Every accepted connection is handed to a handler, in its order, and an error of `Accept` while the context
-- is live loses none of those that come behind it.
pub served-accept_loop : (rs : List AcceptResult) → served (accept_loop rs).0 ≡ connections rs
unfolding accept_loop served connections
served-accept_loop [] = refl
served-accept_loop (accepted c ∷ rs) = ap (◌∷◌ c) (served-accept_loop rs)
served-accept_loop (not_accepted e (some over) ∷ rs) = refl
served-accept_loop (not_accepted e none ∷ rs) = served-accept_loop rs
