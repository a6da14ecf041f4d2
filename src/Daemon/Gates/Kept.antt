-- ===== src/Daemon/Gates/Kept.antt =====
-- packages/daemon/src/daemon.ts: the writes of a session's record leave the gates alone.
use telecode.Base.{
  String, Option, none, some, List, ◌≡◌, refl, sym, inl, inr, Option-cases, string_eq,
}
use mathlib.Core.Option.{some-injective}
use telecode.Base.Dict.{get}
use telecode.Protocol.Status.{SessionStatus}
use telecode.Protocol.Frames.{AnswerItem, PermissionRequest}
use telecode.Protocol.History.{HistoryEntry, Verdict}
use telecode.Daemon.Policy.{ToolClass, classify_tool}
use telecode.Daemon.Gates.{
  Decision, Resolution, Daemon, record_entry, set_status, in_transcript, settle_permission_entry,
  settle_question_entry, auto_approve_by_policy, mode_of,
}

-- The pending gates and the resolver calls.
pub record Gates : Type 0 where
  pub permissions : List (String × Option String)
  pub questions : List (String × Option String)
  pub resolved : List Resolution

abbrev pub gates : Daemon → Gates
gates d = record {
  permissions = d.pending_permissions;
  questions = d.pending_questions;
  resolved = d.resolved;
}

pub gates-set_status :
    (session : Option String) (status : SessionStatus) (d : Daemon)
    → gates (set_status session status d) ≡ gates d
unfolding set_status
gates-set_status none status d = refl
gates-set_status (some id) status d = refl

pub gates-record_entry :
    (session : Option String) (e : HistoryEntry) (d : Daemon)
    → gates (record_entry session e d) ≡ gates d
unfolding record_entry
gates-record_entry none e d = refl
gates-record_entry (some id) e d = refl

pub gates-in_transcript :
    (id : String) (f : List HistoryEntry → List HistoryEntry) (d : Daemon)
    → gates (in_transcript id f d) ≡ gates d
gates-in_transcript id f d = elim (Option-cases (get id d.session_records)) [
  | inl e ↦ rw (e, in_transcript) refl
  | inr (rec, e) ↦ rw (e, in_transcript) refl
]

pub gates-settle_permission_entry :
    (session : Option String) (r : String) (v : Verdict) (d : Daemon)
    → gates (settle_permission_entry session r v d) ≡ gates d
unfolding settle_permission_entry set_status
gates-settle_permission_entry none r v d = refl
gates-settle_permission_entry (some id) r v d = gates-in_transcript id _ d

pub gates-settle_question_entry :
    (session : Option String) (r : String) (given : Option (List AnswerItem)) (d : Daemon)
    → gates (settle_question_entry session r given d) ≡ gates d
unfolding settle_question_entry set_status
gates-settle_question_entry none r given d = refl
gates-settle_question_entry (some id) r given d = gates-in_transcript id _ d

-- What the policy approves is a tool that it classifies so in the session's mode.
pub policy_allows :
    (session : Option String) (r : PermissionRequest) (decision : Decision) (d : Daemon)
    → auto_approve_by_policy session r d ≡ some decision
    → (classify_tool r.tool_name (mode_of session d.session_records) ≡ ToolClass.allow)
      × (decision ≡ Decision.allow none)
unfolding auto_approve_by_policy
policy_allows session r decision d h =
    by_class (classify_tool r.tool_name (mode_of session d.session_records)) refl
  where
    by_class :
        (c : ToolClass)
        → classify_tool r.tool_name (mode_of session d.session_records) ≡ c
        → (classify_tool r.tool_name (mode_of session d.session_records) ≡ ToolClass.allow)
          × (decision ≡ Decision.allow none)
    by_class ToolClass.allow e = (e, sym (some-injective _ _ (rw (e, auto_approve_by_policy) at h)))
    by_class ToolClass.ask e =
        let gated : none ≡ some decision = rw (e, auto_approve_by_policy) at h in absurd cc
