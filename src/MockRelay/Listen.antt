-- ===== src/MockRelay/Listen.antt =====
-- mockrelay/server: `handleListen` and `writeAccept` of control.go, and the armed faults of options.go. What the
-- sleeps, the upgrade and the reads come to is in the world of a call; the watchdog of an idle listener closes the
-- connection, so that to the handler it is a read that fails.
use aztunnel.Common.{
  ℕ, Bool, true, false, not, ◌&&◌, ◌||◌, if◌then◌else◌, leb, ◌==◌, Option, none, some, List, [],
  ◌∷◌, ◌++◌, ◌*◌,
}
use aztunnel.GoError.{Err}

-- `faults`: a close code, 0 when it is disarmed, and two flags.
pub record Faults : Type 0 where
  pub close_code_on_accept : ℕ
  pub close_control_on_renew : Bool
  pub reject_control_dial : Bool

abbrev pub no_faults : Faults
no_faults = record {
  close_code_on_accept = 0;
  close_control_on_renew = false;
  reject_control_dial = false;
}

-- A message on the control channel as the handler tells them apart.
pub data Incoming : Type 0 where
  not_json renew_token other_message : Incoming

-- `reads` are the messages that come before the read that fails.
pub record ListenWorld : Type 0 where
  pub slept_entry : Bool
  pub slept_auth : Bool
  pub authorized : Bool
  pub slept_response : Bool
  pub upgraded : Bool
  pub reads : List Incoming

pub data ListenEffect : Type 0 where
  status : ℕ → ListenEffect
  read_limit : ℕ → ListenEffect
  add_session remove_session close_now notify : ListenEffect
  close_with : ℕ → ListenEffect

abbrev pub control_read_limit : ℕ
control_read_limit = 64 * 1024

abbrev ahead : List ListenEffect → List ListenEffect × Faults → List ListenEffect × Faults
ahead es (more, f) = (es ++ more, f)

-- The read loop, with the effects of the calls deferred before it behind it.
unfoldable pub read_loop : List Incoming → Faults → List ListenEffect × Faults
read_loop [] f = ([], f)
read_loop (renew_token ∷ reads) f =
    let rest = read_loop reads f in
    if f.close_control_on_renew
    then (notify ∷ close_with 1001 ∷ [], record f { close_control_on_renew = false })
    else ahead (notify ∷ []) rest
read_loop (not_json ∷ reads) f = ahead (notify ∷ []) (read_loop reads f)
read_loop (other_message ∷ reads) f = ahead (notify ∷ []) (read_loop reads f)

abbrev behind : List ListenEffect → List ListenEffect × Faults → List ListenEffect × Faults
behind es (before, f) = (before ++ es, f)

-- `handleListen`
unfoldable pub handle_listen : ListenWorld → Faults → List ListenEffect × Faults
unfolding read_loop
handle_listen w f =
    if not w.slept_entry || not w.slept_auth
    then ([], f)
    else if not w.authorized
    then (status 401 ∷ [], f)
    else if f.reject_control_dial
    then (status 503 ∷ [], record f { reject_control_dial = false })
    else if not w.slept_response || not w.upgraded
    then ([], f)
    else ahead (status 101 ∷ read_limit control_read_limit ∷ add_session ∷ [])
        (behind (remove_session ∷ close_now ∷ []) (read_loop w.reads f))

-- What a listener's session does with an accept frame, `writeAccept`: the transit leg, and the write, which is bounded
-- by 5 seconds.
pub data Written : Type 0 where
  sent : Written
  canceled_first : Written
  failed_write : Err → Written

unfoldable pub write_accept : (slept : Bool) → (write : Option Err) → Written
write_accept slept write =
    if not slept then canceled_first else elim write [ none ↦ sent | some e ↦ failed_write e ]

-- `isSendableCloseCode`
unfoldable pub is_sendable_close_code : ℕ → Bool
is_sendable_close_code code =
    if code == 1004 || code == 1005 || code == 1006 || code == 1015
    then false
    else if leb 1000 code && leb code 1014
    then true
    else leb 3000 code && leb code 4999

-- The options of `NewServerForTesting`. `with_nil` is a nil option.
pub data ServerOption : Type 0 where
  with_close_control_on_renew with_reject_control_dial with_nil : ServerOption
  with_close_code_on_accept : ℕ → ServerOption

unfoldable pub apply_option : ServerOption → Faults → Option Faults
unfolding is_sendable_close_code
apply_option with_close_control_on_renew f = some (record f { close_control_on_renew = true })
apply_option with_reject_control_dial f = some (record f { reject_control_dial = true })
apply_option with_nil f = none
apply_option (with_close_code_on_accept code) f =
    if is_sendable_close_code code then some (record f { close_code_on_accept = code }) else none

abbrev next_options : Option Faults → (Faults → Option Faults) → Option Faults
next_options none k = none
next_options (some f) k = k f

-- The loop of `NewServerForTesting`; `none` is an error.
unfoldable pub apply_options : List ServerOption → Faults → Option Faults
apply_options [] f = some f
apply_options (o ∷ os) f = next_options (apply_option o f) (apply_options os)
