-- ===== src/System/Backfill.antt =====
-- packages/daemon/src/daemon.ts and apps/web/src/lib/session.ts: what a view shows of the record
-- that it is backfilled with.
use telecode.Base.{
  ℕ, suc, ◌<◌, String, false, ◌&&◌, none, some, List, [], ◌∷◌, length, ltb, ◌≡◌, ◌∙◌, refl, ap, inl,
  inr, arith, In, ◌==◌, nat_eq, string_eq, ==-self,
}
use telecode.Base.Dict.{get, get-set}
use telecode.Protocol.Message.{MessageType}
use telecode.Protocol.Envelope.{Envelope}
use telecode.Protocol.Status.{SessionStatus}
use telecode.Protocol.History.{
  History, HistoryEntry, RecordedPermission, RecordedQuestion, history_payload,
}
use telecode.Daemon.Gates.{
  SessionRecord, Daemon, history_payload_for, set_status, in_transcript, record_for,
}
use telecode.Web.Transcript.{
  TranscriptEntry, SessionState, wire, PermissionEntry, QuestionEntry, AnswerState, map_history,
  map_history_entry, recorded_decision,
}
use telecode.Web.Transcript.Fold.{
  fold_delivered, fold_history, confirmed_base, apply_envelope, apply_envelope_typed,
}

-- An entry of the record is the view's, under some key.
pub map_history-permission :
    (i : ℕ) (p : RecordedPermission) (es : List HistoryEntry)
    → In (HistoryEntry.permission p) es
    → (x : PermissionEntry) × In (TranscriptEntry.permission x) (map_history i es)
      × (x.request_id ≡ p.request_id)
      × (x.decision ≡ recorded_decision p.decision)
unfolding map_history map_history_entry
map_history-permission i p [] m = absurd m
map_history-permission i p (e ∷ es) (inl q) = rw (← q) (_, inl refl, refl, refl)
map_history-permission i p (e ∷ es) (inr m) =
    let (x, k, r, d) = map_history-permission (suc i) p es m in (x, inr k, r, d)

pub map_history-question :
    (i : ℕ) (q : RecordedQuestion) (es : List HistoryEntry)
    → In (HistoryEntry.question q) es
    → q.answers ≡ none
    → (x : QuestionEntry) × In (TranscriptEntry.question x) (map_history i es)
      × (x.request_id ≡ q.request_id)
      × (x.answer ≡ AnswerState.pending)
unfolding map_history map_history_entry
map_history-question i q [] m n = absurd m
map_history-question i q (e ∷ es) (inl p) n = rw (← p) (_, inl refl, refl, rw n refl)
map_history-question i q (e ∷ es) (inr m) n =
    let (x, k, r, d) = map_history-question (suc i) q es m n in (x, inr k, r, d)

-- A frame with a record that has entries replaces the view's entries and status by the record's.
pub backfilled :
    (now : ℕ) (e : Envelope) (h : History) (s : SessionState)
    → e.type ≡ MessageType.session_history
    → history_payload e.payload ≡ some h
    → 0 < length h.entries
    → ((apply_envelope now e s).entries ≡ map_history 0 h.entries)
      × ((apply_envelope now e s).status ≡ wire h.status)
unfolding fold_delivered fold_history
backfilled now e h s k p n = rw (apply_envelope_typed MessageType.session_history now e s k) (
    let filled : (length h.entries == 0
          && ltb 0 (length (confirmed_base MessageType.session_history s).entries))
        ≡ false =
      ground (arith, n) in
    rw (p, filled, fold_history) (refl, refl))

-- What a daemon sends of a session that it holds.
pub history_of_held :
    (id : String) (d : Daemon) (rec : SessionRecord)
    → get id d.session_records ≡ some rec
    → history_payload_for (some id) d ≡ record { status = rec.status; entries = rec.transcript }
unfolding history_payload_for
history_of_held id d rec h = rw (h, history_payload_for) refl

pub In-length : {A : Type 0} (a : A) (xs : List A) → In a xs → 0 < length xs
In-length a [] m = absurd m
In-length a (x ∷ xs) m = omega arith

pub get-set_status :
    (id : String) (status : SessionStatus) (d : Daemon) (rec : SessionRecord)
    → get id d.session_records ≡ some rec
    → get id (set_status (some id) status d).session_records ≡ some (record rec { status = status })
unfolding set_status record_for
get-set_status id status d rec h =
    let held : record_for id d ≡ rec = rw (h, record_for) refl in
    get-set id id (record (record_for id d) { status = status }) d.session_records
    ∙ rw (==-self id) (ap (λ (r : SessionRecord). some (record r { status = status })) held)

pub get-in_transcript :
    (id : String) (f : List HistoryEntry → List HistoryEntry) (d : Daemon) (rec : SessionRecord)
    → get id d.session_records ≡ some rec
    → get id (in_transcript id f d).session_records
      ≡ some (record rec { transcript = f rec.transcript })
get-in_transcript id f d rec h =
    rw (h, in_transcript)
      (get-set id id (record rec { transcript = f rec.transcript }) d.session_records
        ∙ rw (==-self id) refl)
