-- ===== src/Protocol/Payload.antt =====
-- The payload schemas of packages/protocol/src/session.ts and envelope.ts that the relay parses.
use telecode.Base.{
  ℕ, String, Bool, ◌&&◌, Option, none, some, List, [], ◌∷◌, if◌then◌else◌, leb, ◌==◌, string_eq,
}
use telecode.Base.Text.{units}
use telecode.Protocol.Status.{EndStatus, end_status_of_text}
use telecode.Protocol.Json.{
  Json, Items, Fields, json_text, array, object, natural, field, item, exhausted, empty, prop,
}

infixl 10 ◌>>=◌
abbrev pub ◌>>=◌ : {A B : Type 0} → Option A → (A → Option B) → Option B
none >>= f = none
some a >>= f = f a

-- `z.string().min(1).max(max)`.
unfoldable pub text_within : ℕ → Json → Option String
unfolding units
text_within max (json_text s) = if leb 1 (units s) && leb (units s) max then some s else none
text_within max _ = none

abbrev pub nonempty_text : Json → Option String
nonempty_text (json_text s) = if leb 1 (units s) then some s else none
nonempty_text _ = none

abbrev pub fields_of : Json → Option Fields
fields_of (object fields) = some fields
fields_of _ = none

-- `.optional()`: absent, or present and of the schema.
abbrev pub optional : {A : Type 0} → (Json → Option A) → Option Json → Option (Option A)
optional p none = some none
optional p (some v) = p v >>= λ a. some (some a)

pub data Role : Type 0 where
  daemon browser : Role

unfoldable pub role_of : Json → Option Role
role_of (json_text s) =
    if s == "daemon" then some daemon else if s == "browser" then some browser else none
role_of _ = none

unfoldable pub hello_payload : Json → Option (Role × Option String)
unfolding prop role_of units
hello_payload j = do
  fields ← fields_of j
  role ← prop "role" fields >>= role_of
  token ← optional nonempty_text (prop "token" fields)
  some (role, token)

unfoldable pub texts_of : Items → Option (List String)
unfolding units
texts_of exhausted = some []
texts_of (item j rest) = do s ← nonempty_text j; ss ← texts_of rest; some (s ∷ ss)

unfoldable pub ids_of : Json → Option (List String)
unfolding texts_of
ids_of (array items) = texts_of items
ids_of _ = none

-- `sessionReconcilePayloadSchema`: the held session ids.
unfoldable pub reconcile_payload : Json → Option (List String)
unfolding prop ids_of
reconcile_payload j = do fields ← fields_of j; prop "heldSessionIds" fields >>= ids_of

pub record Adopted : Type 0 where
  pub client_ref : String
  pub title : Option String
  pub cwd : Option String

unfoldable pub adopted_of : Fields → Option Adopted
unfolding prop text_within
adopted_of fields = do
  client_ref ← prop "clientRef" fields >>= text_within 256
  title ← optional (text_within 512) (prop "title" fields)
  cwd ← optional (text_within 1024) (prop "cwd" fields)
  some (record { client_ref = client_ref; title = title; cwd = cwd })

unfoldable pub adopted_payload : Json → Option Adopted
unfolding adopted_of
adopted_payload j = do fields ← fields_of j; adopted_of fields

unfoldable pub uuid_text : (String → Bool) → Json → Option String
uuid_text is_uuid (json_text s) = if is_uuid s then some s else none
uuid_text is_uuid _ = none

-- `sessionChainedPayloadSchema`: the adoption's fields and the parent session.
unfoldable pub chained_payload : (String → Bool) → Json → Option (Adopted × String)
unfolding adopted_of uuid_text prop
chained_payload is_uuid j = do
  fields ← fields_of j
  adopted ← adopted_of fields
  parent ← prop "parentSessionId" fields >>= uuid_text is_uuid
  some (adopted, parent)

unfoldable pub any_text : Json → Option String
any_text (json_text s) = some s
any_text _ = none

unfoldable pub ended_status_of : Json → Option EndStatus
unfolding end_status_of_text
ended_status_of (json_text s) = end_status_of_text s
ended_status_of _ = none

unfoldable pub ended_payload : Json → Option EndStatus
unfolding ended_status_of prop any_text
ended_payload j = do
  fields ← fields_of j
  status ← prop "status" fields >>= ended_status_of
  error ← optional any_text (prop "error" fields)
  some status

abbrev pub natural_of : Json → Option ℕ
natural_of (natural n) = some n
natural_of _ = none

-- The statuses that a daemon may report.
pub data Reported : Type 0 where
  running waiting_local : Reported

unfoldable pub reported_of : Json → Option Reported
reported_of (json_text s) =
    if s == "running"
    then some running
    else if s == "waiting_local"
    then some waiting_local
    else none
reported_of _ = none

unfoldable pub status_payload : Json → Option Reported
unfolding prop reported_of
status_payload j = do
  fields ← fields_of j
  status ← prop "status" fields >>= reported_of
  ts ← optional natural_of (prop "ts" fields)
  some status

unfoldable pub one_of : List String → Json → Option String
one_of [] j = none
one_of (s ∷ ss) (json_text t) = if s == t then some t else one_of ss (json_text t)
one_of (s ∷ ss) _ = none

-- One key of a parsed object: dropped where absent, kept where valid.
unfoldable pub kept :
    {A : Type 0} → String → (Json → Option A) → Fields → Option Fields → Option Fields
unfolding prop
kept key p fields rest = elim (prop key fields) [
  | none ↦ rest
  | some v ↦ p v >>= λ _. rest >>= λ fs. some (field key v fs)
]

-- `sessionMetaPayloadSchema`: what `parsed.data` keeps.
unfoldable pub meta_payload : Json → Option Json
unfolding kept text_within one_of
meta_payload j = do
  fields ← fields_of j
  data_fields ← kept "title" (text_within 512) fields (
      kept "titleSource" (one_of ("derived" ∷ "user" ∷ [])) fields (
        kept "cwd" (text_within 1024) fields (
          kept "repo" (text_within 512) fields (
            kept "branch" (text_within 256) fields (
              kept "model" (text_within 128) fields (
                kept "permissionMode"
                  (one_of ("default" ∷ "plan" ∷ "acceptEdits" ∷ "bypassPermissions" ∷ [])) fields
                  (kept "ts" natural_of fields (some empty))))))))
  some (object data_fields)
