-- ===== src/MockRelay/Sessions.antt =====
-- mockrelay/server: the sessions of control.go and the faults of options.go over many calls.
use aztunnel.Common.{
  ℕ, ◌+◌, ◌≤◌, ◌≡◌, Bool, true, false, if◌then◌else◌, ◌==◌, some, List, [], ◌∷◌, arith, total,
  total-append, ◌⊎◌, inl, inr, Option-cases,
}
use aztunnel.MockRelay.Listen.{
  Faults, Incoming, not_json, renew_token, other_message, ListenWorld, ListenEffect, status,
  add_session, remove_session, close_now, close_with, read_loop, handle_listen,
  is_sendable_close_code, ServerOption, with_close_control_on_renew, with_reject_control_dial,
  with_nil, with_close_code_on_accept, apply_option, apply_options,
}

abbrev pub adds : ListenEffect → ℕ
adds add_session = 1
adds _ = 0

abbrev pub removes : ListenEffect → ℕ
removes remove_session = 1
removes _ = 0

abbrev pub upgrades : ListenEffect → ℕ
upgrades (status code) = if code == 101 then 1 else 0
upgrades _ = 0

abbrev pub closes_now : ListenEffect → ℕ
closes_now close_now = 1
closes_now _ = 0

abbrev pub statuses : ListenEffect → ℕ
statuses (status code) = 1
statuses _ = 0

abbrev pub fault_closes : ListenEffect → ℕ
fault_closes (close_with code) = 1
fault_closes _ = 0

abbrev pub rejects : ListenEffect → ℕ
rejects (status code) = if code == 503 then 1 else 0
rejects _ = 0

abbrev pub bit : Bool → ℕ
bit true = 1
bit false = 0

-- The loop touches neither the hub nor the other faults, and closes at most once, for the armed fault.
pub record Quiet (f : Faults) (es : List ListenEffect) (f' : Faults) : Type 0 where
  pub no_adds : total adds es ≡ 0
  pub no_removes : total removes es ≡ 0
  pub no_upgrades : total upgrades es ≡ 0
  pub no_closes_now : total closes_now es ≡ 0
  pub no_rejects : total rejects es ≡ 0
  pub no_statuses : total statuses es ≡ 0
  pub one_close :
      total fault_closes es + bit f'.close_control_on_renew ≡ bit f.close_control_on_renew
  pub reject_kept : f'.reject_control_dial ≡ f.reject_control_dial

read_loop-Quiet :
    (reads : List Incoming) (f : Faults) → Quiet f (read_loop reads f).0 (read_loop reads f).1
unfolding read_loop
read_loop-Quiet [] f = ground arith
read_loop-Quiet (renew_token ∷ reads) f = ground (arith, read_loop-Quiet reads f)
read_loop-Quiet (not_json ∷ reads) f = ground (arith, read_loop-Quiet reads f)
read_loop-Quiet (other_message ∷ reads) f = ground (arith, read_loop-Quiet reads f)

-- A listener's request, on every path: it is answered at most once; the session is in the hub exactly where it
-- was upgraded, and is taken out again; the upgraded connection is closed at the end; and an armed fault that fires
-- is disarmed.
pub handle_listen_session :
    (w : ListenWorld) (f : Faults)
    → (total statuses (handle_listen w f).0 ≤ 1)
      × (total adds (handle_listen w f).0 ≡ total upgrades (handle_listen w f).0)
      × (total removes (handle_listen w f).0 ≡ total upgrades (handle_listen w f).0)
      × (total closes_now (handle_listen w f).0 ≡ total upgrades (handle_listen w f).0)
      × (total rejects (handle_listen w f).0 + bit (handle_listen w f).1.reject_control_dial
          ≡ bit f.reject_control_dial)
      × (total fault_closes (handle_listen w f).0 + bit (handle_listen w f).1.close_control_on_renew
          ≡ bit f.close_control_on_renew)
unfolding handle_listen
handle_listen_session w f =
    let q = read_loop-Quiet w.reads f in
    let es = (read_loop w.reads f).0 in
    let deferred = remove_session ∷ close_now ∷ [] in
    ground (
      arith,
      q.no_adds,
      q.no_removes,
      q.no_upgrades,
      q.no_closes_now,
      q.no_statuses,
      q.no_rejects,
      q.one_close,
      q.reject_kept,
      total-append adds es deferred,
      total-append removes es deferred,
      total-append upgrades es deferred,
      total-append closes_now es deferred,
      total-append statuses es deferred,
      total-append rejects es deferred,
      total-append fault_closes es deferred,
    )

-- The close code is disarmed or one that may stand in a close frame.
abbrev pub IsSendable : Faults → Type 0
IsSendable f = (f.close_code_on_accept ≡ 0) ⊎ (is_sendable_close_code f.close_code_on_accept ≡ true)

apply_option-IsSendable :
    (o : ServerOption) (f f' : Faults) → IsSendable f → apply_option o f ≡ some f' → IsSendable f'
unfolding apply_option
apply_option-IsSendable with_close_control_on_renew f f' s h = ground arith
apply_option-IsSendable with_reject_control_dial f f' s h = ground arith
apply_option-IsSendable with_nil f f' s h = absurd (ground arith)
apply_option-IsSendable (with_close_code_on_accept code) f f' s h = ground arith

-- A test server that is constructed with options emits no close code but one that may stand in a close frame.
pub apply_options-IsSendable :
    (os : List ServerOption) (f f' : Faults)
    → IsSendable f
    → apply_options os f ≡ some f'
    → IsSendable f'
unfolding apply_options
apply_options-IsSendable [] f f' s h = ground arith
apply_options-IsSendable (o ∷ os) f f' s h = elim (Option-cases (apply_option o f)) [
  | inl refused ↦ absurd (ground (arith, refused, h))
  | inr (g, applied) ↦
      apply_options-IsSendable os g f' (apply_option-IsSendable o f g s applied)
        (ground (arith, applied, h))
]
