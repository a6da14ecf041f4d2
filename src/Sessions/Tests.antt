-- ===== src/Sessions/Tests.antt =====
-- The registry on a small table: two users, one shelved session, one continuation.
use telecode.Base.{
  ℕ, String, true, false, ◌≡◌, ◌↔◌, In, refl, List, [], ◌∷◌, ◌++◌, string_eq, map, none, some,
  eq_iff, arith,
}
use telecode.Base.Ranks.{rank, rank-injective}
use telecode.Protocol.Status.{
  SessionStatus, running, awaiting_input, done, turn_limit, launched, external,
}
use telecode.Sessions.{
  Row, Table, NewSession, ok, not_found, not_ended, create_session, mark_running, delete_session,
  set_archived, end_sessions_for_device, count_by_device, set_sealed_title,
}
use telecode.Sessions.Pages.{list_page, newest_first}
use telecode.Sessions.Mutation.{Change, apply}
use telecode.Sessions.Consistent.{IsConsistent}
use telecode.Sessions.Invariant.{apply-IsConsistent}
use telecode.Sessions.Tenancy.{of_user, apply_isolated}
use telecode.Base.Pointwise.{Pointwise}
use telecode.Sessions.Terminal.{IsUnended, HasRow}
use telecode.Sessions.Revocation.{IsRevoked}
use telecode.Sessions.Outcomes.{IsHonest, housekeeping-IsHonest, end_sessions_for_device_complete}
use telecode.Sessions.Paging.{walk, active_rows, section, walk_complete}

abbrev row : String → String → SessionStatus → ℕ → Row
row id user status at = record {
  id = id;
  user_id = user;
  device_id = "laptop";
  title = none;
  status = status;
  origin = launched;
  parent_session_id = none;
  cwd = none;
  sealed_meta = none;
  sealed_meta_nonce = none;
  sealed_title = none;
  sealed_title_nonce = none;
  archived_at = none;
  created_at = at;
  updated_at = at;
  ended_at = none;
}

-- Ann has a running session, a finished one, its continuation and a shelved one; Bob has one.
abbrev sample : Table
sample =
    row "s1" "ann" running 10
    ∷ row "s2" "ann" done 12
    ∷ record (row "s3" "ann" turn_limit 14) { parent_session_id = some "s2" }
    ∷ record (row "s4" "ann" done 11) { archived_at = some 20 }
    ∷ row "s5" "bob" awaiting_input 13
    ∷ []

sample-IsConsistent : IsConsistent sample
sample-IsConsistent = record {
  shelved = (refl, (refl, (refl, (refl, (refl, tt)))));
  linked = (refl, (refl, (refl, (refl, (refl, tt)))));
  unique = (refl, (refl, (refl, (refl, (refl, tt)))));
}

child_of_finished : NewSession
child_of_finished = record {
  user_id = "ann";
  device_id = "laptop";
  origin = some external;
  title = none;
  cwd = none;
  parent_session_id = some "s2";
}

writes : Unit {0}
unfolding create_session mark_running delete_session set_archived end_sessions_for_device
    set_sealed_title count_by_device newest_first apply list_page walk rank child_of_finished
writes = tt

outcome_tests :
    ((delete_session "ann" "s1" sample).1 ≡ not_ended)
    × ((delete_session "ann" "s2" sample).1 ≡ ok)
    × ((delete_session "bob" "s2" sample).1 ≡ not_found)
    × ((set_archived "ann" "s2" true 30 sample).1 ≡ ok)
    × ((set_archived "ann" "s9" true 30 sample).1 ≡ not_found)
    × ((end_sessions_for_device "ann" "laptop" 30 sample).1 ≡ "s1" ∷ [])
    × ((set_sealed_title "bob" "s5" (some "t") (some "n") 30 sample).1 ≡ some "laptop")
    × (count_by_device "ann" sample ≡ ("laptop", 4) ∷ [])
unfolding writes
outcome_tests = (refl, refl, refl, refl, refl, refl, refl, refl)

ids : List Row → List String
ids rows = map (λ r. r.id) rows

-- One page of one ended row, and the walk through all pages.
page_tests :
    (ids (list_page rank "ann" 1 none false sample).sessions ≡ "s1" ∷ "s3" ∷ [])
    × (ids (walk rank 9 "ann" 1 none false sample) ≡ "s1" ∷ "s3" ∷ "s2" ∷ [])
    × (ids (walk rank 9 "ann" 1 none true sample) ≡ "s4" ∷ [])
unfolding writes ids
page_tests = (refl, refl, refl)

apply-IsConsistent_example : IsConsistent (apply "ann" 40 (Change.deletes "s2") sample)
apply-IsConsistent_example =
    apply-IsConsistent "ann" 40 (Change.deletes "s2") sample tt sample-IsConsistent

apply_isolated_example :
    of_user "bob" (apply "ann" 40 (Change.runs "s5") sample) ≡ of_user "bob" sample
apply_isolated_example =
    apply_isolated "ann" "bob" 40 (Change.runs "s5") sample (ground (arith, eq_iff "ann" "bob"))
      sample-IsConsistent

housekeeping-IsHonest_example :
    IsHonest "ann" "s1" sample
      (set_archived "ann" "s1" true 30 sample).0
      (set_archived "ann" "s1" true 30 sample).1
    × IsHonest "ann" "s1" sample
        (delete_session "ann" "s1" sample).0
        (delete_session "ann" "s1" sample).1
housekeeping-IsHonest_example = housekeeping-IsHonest "ann" "s1" true 30 sample

end_sessions_for_device_complete_example :
    let (after, ended) = end_sessions_for_device "ann" "laptop" 30 sample in
    Pointwise (IsRevoked "ann" "laptop" 30) sample after
    × (¬ HasRow (IsUnended "ann" "laptop") after)
    × (In "s1" ended ↔ HasRow (λ r. IsUnended "ann" "laptop" r × (r.id ≡ "s1")) sample)
    × (end_sessions_for_device "ann" "laptop" 31 after ≡ (after, []))
end_sessions_for_device_complete_example =
    end_sessions_for_device_complete "ann" "laptop" 30 31 sample "s1"

walk_complete_example :
    walk rank 9 "ann" 1 none false sample
    ≡ active_rows rank "ann" false sample ++ section rank "ann" false sample
unfolding writes
walk_complete_example =
    walk_complete rank 9 "ann" 1 false sample rank-injective sample-IsConsistent.unique
      (omega arith) (omega arith)
