-- ===== src/Daemon/Gates/Effects.antt =====
-- packages/daemon/src/daemon.ts: what each operation does to the pending gates and their resolvers.
use telecode.Base.{
  String, Bool, true, false, not, Option, none, some, List, [], ◌∷◌, ◌++◌, map, filter, ◌≡◌, ◌∙◌,
  refl, sym, subst, inl, inr, ap, string_eq, Option-cases,
}
use telecode.Base.Dict.{get, set, delete}
use telecode.Protocol.Json.{Json, Fields}
use telecode.Protocol.Frames.{AnswerItem, PermissionRequest, Question}
use telecode.Protocol.History.{Verdict}
use telecode.Protocol.Status.{SessionStatus}
use telecode.Protocol.Replies.{
  OperatorDecision, ControlAction, permission_decision_payload, question_answer_payload,
  control_payload,
}
use telecode.Daemon.Policy.{PermissionMode, ToolClass, classify_tool}
use telecode.Daemon.Gates.{
  Decision, permission_resolved, question_resolved, auto_approved, Daemon, auto_approve_by_policy,
  open_gate, mode_of, request_permission, request_question_answer,
}
use telecode.Daemon.Gates.Settle.{
  GateOp, tool_requested, question_raised, permission_timeout, question_timeout, decision_arrived,
  answer_arrived, control_arrived, stopping, permission_timed_out, question_timed_out,
  decision_received, answer_received, is_owned_by, stop_turn, handle_control, control_received,
  stop, to_permission_decision, run_op, timeout_message, verdict_of,
}
use telecode.Daemon.Gates.Kept.{
  gates, gates-set_status, gates-record_entry, gates-settle_permission_entry,
  gates-settle_question_entry, policy_allows, Gates,
}

-- The operator's reply allows the request, with the edited input if any.
abbrev pub Allows : String → Option Fields → GateOp → Type 0
Allows r u (decision_arrived session payload) =
    permission_decision_payload payload ≡ some (r, OperatorDecision.allow u)
Allows r u _ = ⊥

-- The decision is a denial, or the operator's.
abbrev pub IsBacked : GateOp → String → Decision → Type 0
IsBacked op r (Decision.allow u) = Allows r u op
IsBacked op r (Decision.deny message) = Unit

-- From the gates `g` an operation leads to the gates `h`, where the sessions have the modes `m`.
pub data Effect (op : GateOp) (m : Option String → PermissionMode) (g h : Gates) : Type 0 where
  idle : h ≡ g → Effect op m g h
  approved :
      (request : PermissionRequest) (s : Option String)
      → op ≡ tool_requested s request
      → classify_tool request.tool_name (m s) ≡ ToolClass.allow
      → h ≡ record g { resolved = auto_approved s request (Decision.allow none) ∷ g.resolved }
      → Effect op m g h
  permission_opened :
      (request : PermissionRequest) (s : Option String)
      → op ≡ tool_requested s request
      → h ≡ record g { permissions = set request.request_id s g.permissions }
      → Effect op m g h
  question_opened :
      (asked : Question) (s : Option String)
      → op ≡ question_raised s asked
      → h ≡ record g { questions = set asked.request_id s g.questions }
      → Effect op m g h
  permission_settled :
      (r : String) (s : Option String) (decision : Decision)
      → get r g.permissions ≡ some s
      → IsBacked op r decision
      → h ≡ record g {
        permissions = delete r g.permissions;
        resolved = permission_resolved r decision ∷ g.resolved;
      }
      → Effect op m g h
  question_settled :
      (r : String) (s : Option String) (given : Option (List AnswerItem))
      → get r g.questions ≡ some s
      → h ≡ record g {
        questions = delete r g.questions;
        resolved = question_resolved r given ∷ g.resolved;
      }
      → Effect op m g h
  released :
      (p : String × Option String → Bool) (message : String)
      → h ≡ record {
        permissions = filter (λ k. not (p k)) g.permissions;
        questions = filter (λ k. not (p k)) g.questions;
        resolved =
            map (λ k. question_resolved k.0 none) (filter p g.questions)
            ++ (map (λ k. permission_resolved k.0 (Decision.deny message)) (filter p g.permissions)
                ++ g.resolved);
      }
      → Effect op m g h

request_permission-Effect :
    (session : Option String) (r : PermissionRequest) (d : Daemon)
    → Effect
        (tool_requested session r)
        (λ s. mode_of s d.session_records)
        (gates d)
        (gates (request_permission session r d))
unfolding request_permission open_gate
request_permission-Effect session r d = elim (Option-cases (auto_approve_by_policy session r d)) [
  | inl n ↦
      rw (n, request_permission)
        (permission_opened r session refl (
          ap (λ (g : Gates). record g { permissions = set r.request_id session g.permissions })
            (gates-set_status session SessionStatus.awaiting_input _
              ∙ gates-record_entry session _ d)))
  | inr (decision, e) ↦
      let (runs, allows) = policy_allows session r decision d e in
      rw (e, allows, request_permission) (approved r session refl runs refl)
]

module _ (op : GateOp) (m : Option String → PermissionMode) (d : Daemon) where
  request_question_answer-Effect :
      (session : Option String) (q : Question)
      → op ≡ question_raised session q
      → Effect op m (gates d) (gates (request_question_answer session q d))
  unfolding request_question_answer
  request_question_answer-Effect session q o = question_opened q session o (
      ap (λ (g : Gates). record g { questions = set q.request_id session g.questions })
        (gates-set_status session SessionStatus.awaiting_input _ ∙ gates-record_entry session _ d))

  permission_timed_out-Effect :
      (r : String) → Effect op m (gates d) (gates (permission_timed_out r d))
  unfolding permission_timed_out
  permission_timed_out-Effect r = elim (Option-cases (get r d.pending_permissions)) [
    | inl n ↦ rw (n, permission_timed_out) (idle refl)
    | inr (session, e) ↦
        rw (e, permission_timed_out)
          (permission_settled r session (Decision.deny timeout_message) e tt (
            ap
              (λ (g : Gates). record g {
                resolved = permission_resolved r (Decision.deny timeout_message) ∷ g.resolved;
              })
              (gates-settle_permission_entry session r Verdict.deny _)))
  ]

  question_timed_out-Effect : (r : String) → Effect op m (gates d) (gates (question_timed_out r d))
  unfolding question_timed_out
  question_timed_out-Effect r = elim (Option-cases (get r d.pending_questions)) [
    | inl n ↦ rw (n, question_timed_out) (idle refl)
    | inr (session, e) ↦
        rw (e, question_timed_out)
          (question_settled r session none e (
            ap (λ (g : Gates). record g { resolved = question_resolved r none ∷ g.resolved })
              (gates-settle_question_entry session r none _)))
  ]

  answer_received-Effect :
      (session : Option String) (payload : Json)
      → Effect op m (gates d) (gates (answer_received session payload d))
  unfolding answer_received
  answer_received-Effect session payload = elim (Option-cases (question_answer_payload payload)) [
    | inl n ↦ rw (n, answer_received) (idle refl)
    | inr ((r, given), e) ↦ elim (Option-cases (get r d.pending_questions)) [
      | inl n ↦ rw (e, n, answer_received) (idle refl)
      | inr (owner, o) ↦
          rw (e, o, answer_received)
            (question_settled r owner (some given) o (
              ap
                (λ (g : Gates). record g {
                  resolved = question_resolved r (some given) ∷ g.resolved;
                })
                (gates-settle_question_entry session r (some given) _)))
    ]
  ]

  stop_turn-Effect :
      (session reason : String) → Effect op m (gates d) (gates (stop_turn session reason d))
  unfolding stop_turn
  stop_turn-Effect session reason = released (is_owned_by session) reason refl

  stop-Effect : Effect op m (gates d) (gates (stop d))
  unfolding stop
  stop-Effect =
      released (λ k. true) "daemon stopping"
        (rw
          (
            filter_all d.pending_permissions,
            filter_all d.pending_questions,
            filter_none d.pending_permissions,
            filter_none d.pending_questions,
          )
          refl)
    where
      filter_all : (m : List (String × Option String)) → filter (λ k. true) m ≡ m
      filter_all [] = refl
      filter_all (k ∷ m) = ap (◌∷◌ k) (filter_all m)

      filter_none : (m : List (String × Option String)) → filter (λ k. not true) m ≡ []
      filter_none [] = refl
      filter_none (k ∷ m) = filter_none m

handle_control-Effect :
    (op : GateOp) (m : Option String → PermissionMode) (session : Option String)
    (action : ControlAction) (in_flight : Bool) (d : Daemon)
    → Effect op m (gates d) (gates (handle_control session action in_flight d))
unfolding handle_control
handle_control-Effect op m none action in_flight d = idle refl
handle_control-Effect op m (some session) ControlAction.interrupt in_flight d =
    stop_turn-Effect op m d session "interrupted by operator"
handle_control-Effect op m (some session) ControlAction.end true d =
    stop_turn-Effect op m (record d { ended_sessions = session ∷ d.ended_sessions }) session
      "session ended by operator"
handle_control-Effect op m (some session) ControlAction.end false d =
    let marked = record d { ended_sessions = session ∷ d.ended_sessions } in
    let stopped = stop_turn session "session ended by operator" marked in
    subst (λ g. Effect op m (gates d) g)
      (sym (gates-set_status (some session) SessionStatus.done stopped))
      (stop_turn-Effect op m marked session "session ended by operator")

control_received-Effect :
    (op : GateOp) (m : Option String → PermissionMode) (session : Option String) (payload : Json)
    (in_flight : Bool) (d : Daemon)
    → Effect op m (gates d) (gates (control_received session payload in_flight d))
unfolding control_received
control_received-Effect op m session payload in_flight d =
    elim (Option-cases (control_payload payload)) [
      | inl n ↦ rw (n, control_received) (idle refl)
      | inr (action, e) ↦
          rw (e, control_received) (handle_control-Effect op m session action in_flight d)
    ]

decision_received-Effect :
    (m : Option String → PermissionMode) (session : Option String) (payload : Json) (d : Daemon)
    → Effect
        (decision_arrived session payload)
        m
        (gates d)
        (gates (decision_received session payload d))
unfolding decision_received to_permission_decision
decision_received-Effect m session payload d =
    elim (Option-cases (permission_decision_payload payload)) [
      | inl n ↦ rw (n, decision_received) (idle refl)
      | inr ((r, decision), e) ↦ elim (Option-cases (get r d.pending_permissions)) [
        | inl n ↦ rw (e, n, decision_received) (idle refl)
        | inr (owner, o) ↦
            rw (e, o, decision_received)
              (permission_settled r owner (to_permission_decision decision) o (backed r decision e)
                (ap
                  (λ (g : Gates). record g {
                    resolved = permission_resolved r (to_permission_decision decision) ∷ g.resolved;
                  })
                  (gates-settle_permission_entry session r (verdict_of decision) _)))
      ]
    ]
  where
    backed :
        (r : String) (decision : OperatorDecision)
        → permission_decision_payload payload ≡ some (r, decision)
        → IsBacked (decision_arrived session payload) r (to_permission_decision decision)
    backed r (OperatorDecision.allow u) e = e
    backed r (OperatorDecision.deny (some m)) e = tt
    backed r (OperatorDecision.deny none) e = tt

-- Every operation has such an effect.
pub run_op-Effect :
    (op : GateOp) (d : Daemon)
    → Effect op (λ s. mode_of s d.session_records) (gates d) (gates (run_op op d))
unfolding run_op
run_op-Effect (tool_requested session r) d = request_permission-Effect session r d
run_op-Effect (question_raised session q) d = request_question_answer-Effect _ _ d session q refl
run_op-Effect (permission_timeout r) d = permission_timed_out-Effect _ _ d r
run_op-Effect (question_timeout r) d = question_timed_out-Effect _ _ d r
run_op-Effect (decision_arrived session payload) d = decision_received-Effect _ session payload d
run_op-Effect (answer_arrived session payload) d = answer_received-Effect _ _ d session payload
run_op-Effect (control_arrived session payload in_flight) d =
    control_received-Effect _ _ session payload in_flight d
run_op-Effect stopping d = stop-Effect _ _ d
