-- ===== src/Protocol/Message.antt =====
-- packages/protocol/src/envelope.ts: MESSAGE_TYPES, with `.` spelt `_`.
pub data MessageType : Type 0 where
  hello hello_ack : MessageType
  link_ping link_pong : MessageType
  echo echo_reply : MessageType
  session_launch session_started session_ended : MessageType
  session_adopted session_chained : MessageType
  agent_message agent_tool_use agent_permission_request agent_question agent_notice : MessageType
  agent_handover : MessageType
  adopt_config adopt_state : MessageType
  repo_branches repo_branches_state : MessageType
  workspace_reap workspace_reap_state : MessageType
  session_branch_switch session_branch_state : MessageType
  session_push session_push_state : MessageType
  permission_decision question_answer handover_answer user_message : MessageType
  session_resume_new session_status session_control session_subscribe session_history : MessageType
  session_key session_meta session_changes session_title : MessageType
  device_presence viewer_presence session_reconcile relay_error : MessageType
