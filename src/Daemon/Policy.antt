-- ===== src/Daemon/Policy.antt =====
-- packages/daemon/src/permission-policy.ts and adopt/adopted-gate-decision.ts: which tools run
-- without the operator.
use telecode.Base.{
  String, Bool, false, Option, none, some, List, [], ◌∷◌, any, if◌then◌else◌, ◌==◌, string_eq,
}

-- `permissionModeSchema` of packages/protocol/src/session.ts.
pub data PermissionMode : Type 0 where
  default plan accept_edits bypass_permissions : PermissionMode

unfoldable pub permission_mode_of_text : String → Option PermissionMode
permission_mode_of_text s =
    if s == "default"
    then some default
    else if s == "plan"
    then some plan
    else if s == "acceptEdits"
    then some accept_edits
    else if s == "bypassPermissions"
    then some bypass_permissions
    else none

pub data ToolClass : Type 0 where
  allow ask : ToolClass

abbrev has : String → List String → Bool
has s names = any (λ n. n == s) names

abbrev pub auto_approved_tools : List String
auto_approved_tools = "Read" ∷ "Glob" ∷ "Grep" ∷ "NotebookRead" ∷ "TodoWrite" ∷ []

abbrev pub edit_tools : List String
edit_tools = "Write" ∷ "Edit" ∷ "MultiEdit" ∷ "NotebookEdit" ∷ []

abbrev class_in_mode : String → PermissionMode → ToolClass
class_in_mode tool bypass_permissions = if tool == "AskUserQuestion" then ask else allow
class_in_mode tool accept_edits = if has tool edit_tools then allow else ask
class_in_mode tool _ = ask

unfoldable pub classify_tool : String → PermissionMode → ToolClass
classify_tool tool mode = if has tool auto_approved_tools then allow else class_in_mode tool mode

pub data AdoptedGateDecision : Type 0 where
  defer allow gate : AdoptedGateDecision

abbrev pub non_gating_modes : List String
non_gating_modes = "bypassPermissions" ∷ "auto" ∷ "dontAsk" ∷ []

abbrev is_non_gating : Option String → Bool
is_non_gating none = false
is_non_gating (some m) = has m non_gating_modes

-- An absent or unknown mode is the default one.
abbrev parsed_mode : Option PermissionMode → PermissionMode
parsed_mode none = default
parsed_mode (some m) = m

abbrev raw_mode : Option String → Option PermissionMode
raw_mode none = none
raw_mode (some m) = permission_mode_of_text m

unfoldable pub adopted_gate_decision : String → Option String → AdoptedGateDecision
unfolding classify_tool permission_mode_of_text
adopted_gate_decision tool raw =
    if tool == "AskUserQuestion"
    then AdoptedGateDecision.gate
    else if is_non_gating raw
    then AdoptedGateDecision.defer
    else elim (classify_tool tool (parsed_mode (raw_mode raw))) [
      | ToolClass.allow ↦ AdoptedGateDecision.allow
      | ToolClass.ask ↦ AdoptedGateDecision.gate
    ]
