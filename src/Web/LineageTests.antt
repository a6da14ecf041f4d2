-- ===== src/Web/LineageTests.antt =====
-- apps/web/src/lib/lineage.ts: the strip on small data, and an example of what is proved of it.
use telecode.Base.{ℕ, String, Option, none, some, List, [], ◌∷◌, map, ◌≡◌, refl}
use telecode.Protocol.Status.{SessionOrigin}
use telecode.Web.Threads.{ThreadSegment}
use telecode.Web.Lineage.{LineageMember, lineage_segment, lineage_of}
use telecode.Web.Lineage.Linear.{IsStrip, lineage_of_linear}

abbrev member_at : String → Option String → ℕ → LineageMember
member_at id parent at = record {
  id = id;
  parent_session_id = parent;
  origin = SessionOrigin.launched;
  created_at = at;
}

-- Taken over twice, with a cycle and a session whose parent is unknown beside it.
abbrev members : List LineageMember
members =
    member_at "root" none 1
    ∷ member_at "left" (some "root") 2
    ∷ member_at "right" (some "root") 3
    ∷ member_at "end" (some "right") 4
    ∷ member_at "a" (some "b") 5
    ∷ member_at "b" (some "a") 6
    ∷ member_at "lost" (some "gone") 7
    ∷ []

ids_of_strip : Option (List ThreadSegment) → List String
ids_of_strip none = "unfinished" ∷ []
ids_of_strip (some segments) = map (λ s. s.session_id) segments

-- The older take keeps its own line, the newer goes on, and a cycle or a lone session has no strip.
strips :
    map (λ id. ids_of_strip (lineage_of id members)) ("root" ∷ "left" ∷ "a" ∷ "lost" ∷ "none" ∷ [])
    ≡ ("root" ∷ "right" ∷ "end" ∷ []) ∷ ("root" ∷ "left" ∷ []) ∷ [] ∷ [] ∷ [] ∷ []
unfolding lineage_of ids_of_strip
strips = refl

lineage_of_linear_example :
    (chain : List LineageMember) × (lineage_of "right" members
      ≡ some (map (lineage_segment "right") chain))
    × IsStrip members "right" chain
lineage_of_linear_example = lineage_of_linear "right" members
