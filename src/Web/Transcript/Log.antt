-- ===== src/Web/Transcript/Log.antt =====
-- The operations of the view as one data type, and the view that a log of them leads to.
use telecode.Base.{ℕ, String, List, [], ◌∷◌}
use telecode.Protocol.Envelope.{Envelope}
use telecode.Protocol.Frames.{AnswerItem}
use telecode.Web.Transcript.{SessionState, initial_session_state, starting_state}
use telecode.Web.Transcript.Fold.{apply_envelope}
use telecode.Web.Transcript.Actions.{
  Behavior, append_user_message, mark_deciding, mark_answering, mark_handover_submitting,
  link_handover_child,
}

pub data ViewOp : Type 0 where
  launching : ViewOp
  received : (now : ℕ) → Envelope → ViewOp
  said : (now : ℕ) (prompt : String) → ViewOp
  decided : (request : String) → Behavior → ViewOp
  answered : (request : String) → List AnswerItem → ViewOp
  took_over : (request reply : String) → ViewOp
  chained : (child : String) → ViewOp

unfoldable pub run_op : ViewOp → SessionState → SessionState
unfolding apply_envelope append_user_message mark_deciding mark_answering mark_handover_submitting
    link_handover_child
run_op launching s = starting_state
run_op (received now e) s = apply_envelope now e s
run_op (said now prompt) s = append_user_message now prompt s
run_op (decided request behavior) s = mark_deciding request behavior s
run_op (answered request given) s = mark_answering request given s
run_op (took_over request reply) s = mark_handover_submitting request reply s
run_op (chained child) s = link_handover_child child s

-- The log has the last operation first.
unfoldable pub run : List ViewOp → SessionState
unfolding run_op
run [] = initial_session_state
run (op ∷ log) = run_op op (run log)
