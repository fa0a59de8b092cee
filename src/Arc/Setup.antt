-- ===== src/Arc/Setup.antt =====
-- cmd/aztunnel/arc_connect.go and arc_port_forward.go: how the commands come to their credentials, and which of the
-- connections explains that it waits. The answers of the API are arguments, since the set-up changes them.
use aztunnel.Common.{
  ℕ, zero, suc, ◌≡◌, refl, Bool, true, false, ◌||◌, ◌==◌, Option, none, some, List, [], ◌∷◌, arith,
  total,
}
use aztunnel.Arc.Client.{RelayInfo, ArcError, arm_error, ArcResult, ok, failed}

-- `isHybridConnectivitySetupErr`
unfoldable pub is_setup_error : ArcError → Bool
is_setup_error (arm_error status body) = status == 404 || status == 412
is_setup_error _ = false

-- What a command ends its set-up with: `explain` is `setupRan` of the one and `explainOnFirstDial` of the other.
pub data Setup : Type 0 where
  ready : (explain : Bool) → Option RelayInfo → Setup
  stopped : ArcError → Setup

abbrev retried : Bool → ArcResult RelayInfo → Setup
retried explain (ok info) = ready explain (some info)
retried explain (failed e) = stopped e

abbrev then_ensure : Bool → Option ArcError → Setup → Setup
then_ensure explain (some e) next = stopped e
then_ensure explain none next = next

-- `ArcConnectCmd.Run` up to its dial: the first answer, the end of the set-up, and the second answer.
unfoldable pub connect_setup :
    (first : ArcResult RelayInfo)
    → (ensured : Option ArcError) → (second : ArcResult RelayInfo) → Setup
unfolding is_setup_error
connect_setup (ok info) ensured second = ready false (some info)
connect_setup (failed e) ensured second =
    then_ensure (is_setup_error e) ensured (retried (is_setup_error e) second)

-- The same of `ArcPortForwardCmd.Run` up to its listening; each connection asks for credentials of its own.
unfoldable pub port_forward_setup :
    (first : ArcResult RelayInfo) → (ensured : Option ArcError) → Setup
unfolding is_setup_error
port_forward_setup (ok info) ensured = ready false none
port_forward_setup (failed e) ensured =
    then_ensure (is_setup_error e) ensured (ready (is_setup_error e) none)

-- `consumeExplainOnFirstDial`: the flag as it was, and what is left of it.
unfoldable pub consume_explain_on_first_dial : Bool → Bool × Bool
consume_explain_on_first_dial flag = (flag, false)

-- The `ExplainSetup` of so many connections, in the order in which they reach the flag.
unfoldable pub explanations : ℕ → Bool → List Bool
unfolding consume_explain_on_first_dial
explanations zero flag = []
explanations (suc n) flag =
    let (explain, left) = consume_explain_on_first_dial flag in explain ∷ explanations n left

abbrev pub bit : Bool → ℕ
bit true = 1
bit false = 0

quiet_rest : (n : ℕ) → total bit (explanations n false) ≡ 0
unfolding explanations consume_explain_on_first_dial
quiet_rest zero = refl
quiet_rest (suc n) = omega (arith, quiet_rest n)

-- However many connections come, at most one explains the set-up, and one does where the set-up ran.
pub explanations_once : (n : ℕ) (flag : Bool) → total bit (explanations (suc n) flag) ≡ bit flag
unfolding explanations consume_explain_on_first_dial
explanations_once n flag = omega (arith, quiet_rest n)
