-- ===== src/Web/Rows.antt =====
-- apps/web/src/lib/session-groups.ts: the dashboard's rows, their merge and their groups.
use Prim.Native.Char.{code}
use Prim.Native.String.{String}
use telecode.Base.{
  ℕ, Bool, not, ◌||◌, Option, none, some, List, [], ◌∷◌, map, filter, is_some, or_else,
  if◌then◌else◌, ◌==◌, nat_eq, string_eq, last,
}
use telecode.Base.Dict.{get, set}
use telecode.Protocol.Status.{SessionStatus, SessionOrigin}
use telecode.Protocol.Prompt.{is_injected_prompt}
use telecode.Web.Transcript.{TranscriptEntry, SessionState, ViewStatus, wire, idle, user}

pub record SessionRow : Type 0 where
  pub id : String
  pub title : Option String
  pub status : ViewStatus
  pub device_id : Option String
  pub device_name : Option String
  pub origin : SessionOrigin
  pub is_continuation : Bool
  pub parent_session_id : Option String
  pub repo : Option String
  pub cwd : Option String
  pub created_at : ℕ
  pub last_activity_at : ℕ

pub record RegistrySessionRow : Type 0 where
  pub id : String
  pub title : Option String
  pub status : SessionStatus
  pub device_id : String
  pub origin : SessionOrigin
  pub parent_session_id : Option String
  pub created_at : ℕ
  pub updated_at : ℕ

-- What the rows read of a `SessionMetaPayload`.
pub record SessionMeta : Type 0 where
  pub title : Option String
  pub repo : Option String
  pub cwd : Option String

-- `a ?? b`.
infixr 30 ◌or◌
abbrev ◌or◌ {ℓ} : {A : Type ℓ} → Option A → Option A → Option A
some a or o = some a
none or o = o

-- `m?.field`.
abbrev then_get {ℓ} : {A B : Type ℓ} → Option A → (A → Option B) → Option B
then_get none f = none
then_get (some a) f = f a

-- A candidate is skipped where it is absent, empty or injected.
unfoldable pub pick_display_title : List (Option String) → Option String
unfolding is_injected_prompt
pick_display_title [] = none
pick_display_title (none ∷ candidates) = pick_display_title candidates
pick_display_title (some c ∷ candidates) =
    let rest = pick_display_title candidates in
    if (c == "") || is_injected_prompt c then rest else some c

-- `firstRealPromptText` of packages/protocol/src/prompt.ts.
unfoldable pub first_real_prompt_text : List TranscriptEntry → Option String
unfolding is_injected_prompt
first_real_prompt_text [] = none
first_real_prompt_text (user e ∷ entries) =
    let rest = first_real_prompt_text entries in
    if is_injected_prompt e.text then rest else some e.text
first_real_prompt_text (_ ∷ entries) = first_real_prompt_text entries

-- `path.split(/[\\/]+/)`: the characters up to a separator, and the segments after it.
segments_of : String → List String
segments_of String.[] = String.[] ∷ []
segments_of (String.◌∷◌ c s) =
    let rest = segments_of s in
    if (code c == 47) || (code c == 92) then String.[] ∷ rest else on_first (String.◌∷◌ c) rest
  where
    on_first : (String → String) → List String → List String
    on_first f [] = []
    on_first f (x ∷ xs) = f x ∷ xs

-- A run of separators leaves empty segments here and not there; the filter drops both.
unfoldable pub repo_tag_of : Option String → Option String
unfolding segments_of
repo_tag_of none = none
repo_tag_of (some path) = last (filter (λ part. not (part == "")) (segments_of path))

unfoldable pub session_repo_tag : SessionRow → Option String
unfolding repo_tag_of
session_repo_tag row = repo_tag_of (row.repo or row.cwd)

unfoldable pub row_from_registry :
    RegistrySessionRow → (String → Option String) → Option SessionMeta → Option String → SessionRow
unfolding pick_display_title
row_from_registry session device_name_of meta title_override = record {
  id = session.id;
  title = title_override or pick_display_title (then_get meta (λ m. m.title) ∷ session.title ∷ []);
  status = wire session.status;
  device_id = some session.device_id;
  device_name = device_name_of session.device_id;
  origin = session.origin;
  is_continuation = is_some session.parent_session_id;
  parent_session_id = session.parent_session_id;
  repo = then_get meta (λ m. m.repo);
  cwd = then_get meta (λ m. m.cwd);
  created_at = session.created_at;
  last_activity_at = session.updated_at;
}

-- The page's inputs; `now` is the injected clock, or the present time where there is none.
pub record Sources : Type 0 where
  pub registry : List RegistrySessionRow
  pub live : List (String × SessionState)
  pub metas : List (String × SessionMeta)
  pub title_overrides : List (String × String)
  pub device_name_of : String → Option String
  pub device_id_of : String → Option String
  pub now : ℕ

-- A device id is truthy where it is not empty.
abbrev name_of_device : (String → Option String) → Option String → Option String
name_of_device f none = none
name_of_device f (some d) = if d == "" then none else f d

abbrev merged_status : ViewStatus → Option SessionRow → ViewStatus
merged_status idle none = wire SessionStatus.starting
merged_status idle (some row) = row.status
merged_status (wire s) existing = wire s

unfoldable pub merge_live_row : Sources → String → SessionState → Option SessionRow → SessionRow
unfolding pick_display_title first_real_prompt_text get
merge_live_row input id state existing =
    let meta = get id input.metas in
    let parent = then_get existing (λ r. r.parent_session_id) or state.parent_session_id in
    let device = then_get existing (λ r. r.device_id) or input.device_id_of id in
    record {
      id = id;
      title =
          get id input.title_overrides
          or pick_display_title (then_get meta (λ m. m.title) ∷ [])
          or then_get existing (λ r. r.title)
          or first_real_prompt_text state.entries;
      status = merged_status state.status existing;
      device_id = device;
      device_name =
          then_get existing (λ r. r.device_name) or name_of_device input.device_name_of device;
      origin = or_else (then_get existing (λ r. some r.origin)) SessionOrigin.launched;
      is_continuation = is_some parent;
      parent_session_id = parent;
      repo = then_get meta (λ m. m.repo) or then_get existing (λ r. r.repo);
      cwd = then_get meta (λ m. m.cwd) or then_get existing (λ r. r.cwd);
      created_at = or_else (then_get existing (λ r. some r.created_at)) input.now;
      last_activity_at = or_else (then_get existing (λ r. some r.last_activity_at)) input.now;
    }

add_registry :
    Sources → List RegistrySessionRow → List (String × SessionRow) → List (String × SessionRow)
unfolding row_from_registry get set
add_registry input [] by_id = by_id
add_registry input (s ∷ rest) by_id = add_registry input rest (
    set s.id
      (row_from_registry s input.device_name_of (get s.id input.metas)
        (get s.id input.title_overrides))
      by_id)

add_live :
    Sources → List (String × SessionState) → List (String × SessionRow) → List (String × SessionRow)
unfolding merge_live_row get set
add_live input [] by_id = by_id
add_live input ((id, state) ∷ rest) by_id =
    add_live input rest (set id (merge_live_row input id state (get id by_id)) by_id)

unfoldable pub build_session_rows : Sources → List SessionRow
unfolding add_registry add_live
build_session_rows input =
    map (λ kv. kv.1) (add_live input input.live (add_registry input input.registry []))
