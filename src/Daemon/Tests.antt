-- ===== src/Daemon/Tests.antt =====
-- Runs of the daemon's gates, and examples of what is proved of them.
use telecode.Base.{◌≤◌, ◌<◌, String, none, some, List, [], ◌∷◌, ◌≡◌, refl, All}
use telecode.Protocol.Json.{Json, json_text, object, field, empty}
use telecode.Protocol.Status.{SessionStatus}
use telecode.Protocol.Frames.{PermissionRequest}
use telecode.Daemon.Policy.{PermissionMode, AdoptedGateDecision, adopted_gate_decision}
use telecode.Daemon.Gates.{Decision, permission_resolved, auto_approved, SessionRecord}
use telecode.Daemon.Gates.Settle.{GateOp, tool_requested, permission_timeout, decision_arrived, run}
use telecode.Daemon.Gates.Kept.{gates}
use telecode.Daemon.Gates.Allowed.{IsWarranted, run-IsWarranted}
use telecode.Daemon.Gates.Accounts.{settled_or_pending, requests}
use telecode.Daemon.Gates.Once.{HasOpened, run_accounts}

-- A local mode that never prompts is left to the local session, but for a question.
bypass_defers : adopted_gate_decision "Bash" (some "bypassPermissions") ≡ AdoptedGateDecision.defer
unfolding adopted_gate_decision
bypass_defers = refl

question_gates :
    adopted_gate_decision "AskUserQuestion" (some "bypassPermissions") ≡ AdoptedGateDecision.gate
unfolding adopted_gate_decision
question_gates = refl

abbrev held : List (String × SessionRecord)
held =
    (
      "s1",
      record {
        status = SessionStatus.running;
        transcript = [];
        permission_mode = PermissionMode.default;
      },
    )
    ∷ []

abbrev request : String → String → PermissionRequest
request id tool = record {
  request_id = id;
  tool_name = tool;
  input = empty;
  diff_stat = none;
  ts = some 7;
}

abbrev allow_payload : Json
allow_payload =
    object (field "requestId" (json_text "r1") (field "behavior" (json_text "allow") empty))

-- A read runs by itself; the command waits, is allowed, and its timer then finds nothing.
abbrev log : List GateOp
log =
    permission_timeout "r1"
    ∷ decision_arrived (some "s1") allow_payload
    ∷ tool_requested (some "s1") (request "r1" "Bash")
    ∷ tool_requested (some "s1") (request "r0" "Read")
    ∷ []

log_runs :
    (run held log).resolved
    ≡ permission_resolved "r1" (Decision.allow none)
      ∷ auto_approved (some "s1") (request "r0" "Read") (Decision.allow none)
      ∷ []
unfolding run
log_runs = refl

run-IsWarranted_example : All (IsWarranted held log) (run held log).resolved
run-IsWarranted_example = run-IsWarranted held log

run_accounts_example :
    let g = gates (run held log) in
    (settled_or_pending "r1" g ≤ requests "r1" log)
    × (HasOpened "r1" held log → 0 < settled_or_pending "r1" g)
run_accounts_example = run_accounts "r1" held log
