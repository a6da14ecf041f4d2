-- ===== src/Web/Groups.antt =====
-- apps/web/src/lib/session-groups.ts: the dashboard's three groups and its tallies.
pub mod Partition
use telecode.Base.{ℕ, suc, Bool, true, false, List, [], ◌∷◌, filter, leb}
use telecode.Base.Sorting.{sort_by}
use telecode.Protocol.Status.{SessionStatus}
use telecode.Web.Transcript.{ViewStatus, wire, idle}

pub data SessionGroupKey : Type 0 where
  awaiting active recent : SessionGroupKey

abbrev pub group_key : ViewStatus → SessionGroupKey
group_key (wire SessionStatus.awaiting_input) = awaiting
group_key (wire SessionStatus.running) = active
group_key (wire SessionStatus.starting) = active
group_key (wire SessionStatus.waiting_local) = active
group_key (wire _) = recent
group_key idle = recent

abbrev pub same_group : SessionGroupKey → SessionGroupKey → Bool
same_group awaiting awaiting = true
same_group active active = true
same_group recent recent = true
same_group _ _ = false

pub record SessionGroups (Row : Type 0) : Type 0 where
  pub awaiting : List Row
  pub active : List Row
  pub recent : List Row

-- The groups are generic in the row, of which they read the status and the last activity.
module _ {Row : Type 0} where
  -- A row sorts before another that was not active later.
  abbrev pub by_activity : (Row → ℕ) → Row → Row → Bool
  by_activity last_activity_at a b = leb (last_activity_at b) (last_activity_at a)

  -- The rows that the loop has pushed to a group.
  abbrev pub in_group : (Row → ViewStatus) → SessionGroupKey → List Row → List Row
  in_group status key rows = filter (λ r. same_group (group_key (status r)) key) rows

  unfoldable pub group_sessions : (Row → ViewStatus) → (Row → ℕ) → List Row → SessionGroups Row
  unfolding sort_by
  group_sessions status last_activity_at rows = record {
    awaiting =
        sort_by (by_activity last_activity_at) (in_group status SessionGroupKey.awaiting rows);
    active = sort_by (by_activity last_activity_at) (in_group status SessionGroupKey.active rows);
    recent = sort_by (by_activity last_activity_at) (in_group status SessionGroupKey.recent rows);
  }

pub record SessionCounts : Type 0 where
  pub running : ℕ
  pub awaiting : ℕ

unfoldable pub session_counts : List ViewStatus → SessionCounts
session_counts [] = record { running = 0; awaiting = 0 }
session_counts (status ∷ rest) =
    let counts = session_counts rest in
    elim status [
      | wire s ↦ elim s [
        | SessionStatus.awaiting_input ↦ record counts { awaiting = suc counts.awaiting }
        | SessionStatus.running ↦ record counts { running = suc counts.running }
        | SessionStatus.starting ↦ record counts { running = suc counts.running }
        | _ ↦ counts
      ]
      | idle ↦ counts
    ]
