-- ===== src/Tests/Refreshes.antt =====
-- The refresh of the map in graph_runner.py, below a commit that meets the newer map.
use folioo_ai.Base.{◌≡◌, refl, false, none, some, [], ◌∷◌}
use folioo_ai.Commit.Node.{
  State, Client, to_validate, done, version_conflict, lookup_raised, commit_changes,
}
use folioo_ai.MapContext.Snapshot.{MapBlockRow, Forest, end, block}
use folioo_ai.MapContext.Activity.{get_activity_context, render}
use folioo_ai.MapContext.Owners.{refresh_map, block_contents, activity_alias_of}
use folioo_ai.Tests.Commits.{state}

abbrev group : MapBlockRow
group = record {
  block_id = 100;
  parent_id = none;
  level = 1;
  kind = 0;
  position = 0;
  content = some (71 ∷ []);
  placeholder = none;
  is_text_editable = false;
}

abbrev experience : MapBlockRow
experience = record group { block_id = 101; parent_id = some 100; level = 2; content = none }

abbrev detail : MapBlockRow
detail = record group { block_id = 102; parent_id = some 101; level = 3; content = some (72 ∷ []) }

-- Another activity stands before the one that the state has as its target.
abbrev roots : Forest
roots =
    block group
      (block (record experience { block_id = 99 }) end
        (block experience (block detail end end) end))
      end

owner : activity_alias_of roots 102 ≡ some 4
unfolding activity_alias_of
owner = refl

texts : block_contents roots ≡ (100, 71 ∷ []) ∷ (102, 72 ∷ []) ∷ []
unfolding block_contents
texts = refl

abbrev client : Client
client = record {
  commit = λ user request version items. version_conflict (some 4);
  get_commit = λ request. lookup_raised;
  refresh_map = some (refresh_map 4 roots);
}

-- What the state is after the conflict.
abbrev renamed : State
renamed = elim (commit_changes client state) [ done t ↦ t | _ ↦ state ]

conflict : commit_changes client state ≡ done renamed
unfolding commit_changes refresh_map activity_alias_of get_activity_context render
conflict = refl

asks_validate : renamed.commit_recovery_node ≡ some to_validate
unfolding commit_changes refresh_map activity_alias_of get_activity_context render
asks_validate = refl

retarget : renamed.aliases ≡ (4, 101) ∷ (3, 102) ∷ []
unfolding commit_changes refresh_map activity_alias_of get_activity_context render
retarget = refl

-- The state after the refresh alone.
abbrev moved : State
moved = elim (refresh_map 4 roots state) [ some t ↦ t | none ↦ state ]
