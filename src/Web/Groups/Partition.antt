-- ===== src/Web/Groups/Partition.antt =====
-- apps/web/src/lib/session-groups.ts: the groups are a partition of the rows that agrees with the tallies.
use mathlib.Core.List.{Permᴰ}
use mathlib.Core.List.Permᴰ
use telecode.Base.{List, ◌∷◌, if◌then◌else◌}
use telecode.Web.Groups.{SessionGroupKey, same_group}

-- What pushing a row onto the group of its key does.
abbrev push : {Row : Type 0} → SessionGroupKey → SessionGroupKey → Row → List Row → List Row
push k key r rows = if same_group k key then r ∷ rows else rows
