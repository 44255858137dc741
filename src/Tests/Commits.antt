-- ===== src/Tests/Commits.antt =====
-- nodes/commit.py and coordinator.py: a commit that meets a newer map, and then goes through.
use folioo_ai.Base.{ℕ, zero, suc, ◌≡◌, ◌≢◌, ◌≤◌, refl, true, Option, none, some, [], ◌∷◌, arith}
use folioo_ai.Validate.Node.{build_operations}
use folioo_ai.Commit.Remap.{to_commit_items}
use folioo_ai.Commit.Node.{
  State, Client, CommitResult, Recovery, to_validate, done, replied, version_conflict,
  lookup_raised, commit_changes,
}
use folioo_ai.Commit.Suggestion.{ActiveGap, build_suggestion}
use folioo_ai.Commit.Coordinator.{
  World, Run, commit_loop, coordinate, commit_running, commit_completed, commit_result_event,
  message_complete, suggestion_ready, result_of, suggestion_of,
}
use folioo_ai.Commit.Laws.Conflict.{draft_of, commit_changes-build_operations}
use folioo_ai.Commit.Laws.Loop.{commit_loop-ends}
use folioo_ai.Commit.Laws.Script.{Script, coordinate-Script}
use folioo_ai.Tests.Drafts.{draft, operations, activity}

abbrev pub state : State
state = record {
  user_id = some 7;
  session_id = some 70;
  request_id = some 500;
  map_version = some 3;
  aliases = (1, 101) ∷ (2, 102) ∷ [];
  target_experience_alias = some 1;
  structured_items = draft.structured_items;
  gap_update_item = draft.gap_update_item;
  commit_items = operations;
  dropped_items = [];
  commit_conflict_count = 0;
  commit_result = none;
  commit_recovery_node = none;
}

-- In the newer map the two blocks have other aliases.
abbrev refresh : State → State
refresh s = record s { aliases = (1, 102) ∷ (5, 101) ∷ []; map_version = some 4 }

abbrev pub result : CommitResult
result = record {
  request_id = 500;
  previous_version = 4;
  map_version = 5;
  revert_to_version = 4;
  can_revert = true;
  applied = record { item_id = 10; block_id = 110; path = []; action = none } ∷ [];
  dropped = [];
}

-- The first commit meets the newer map.
abbrev client : ℕ → Client
client k = record {
  commit = λ user request version items. elim k [
    | zero ↦ version_conflict (some 4)
    | suc _ ↦ replied result
  ];
  get_commit = λ request. lookup_raised;
  refresh_map = some (λ s. some (refresh s));
}

-- What the state is after the conflict.
abbrev renamed : State
renamed = elim (commit_changes (client 0) state) [ done t ↦ t | _ ↦ state ]

conflict : commit_changes (client 0) state ≡ done renamed
unfolding commit_changes
conflict = refl

asks_validate : renamed.commit_recovery_node ≡ some to_validate
unfolding commit_changes
asks_validate = refl

commit_changes-build_operations_example :
    to_commit_items renamed.aliases
      (build_operations (draft_of renamed draft.refined_items activity)).0
    ≡ to_commit_items state.aliases
        (build_operations (draft_of state draft.refined_items activity)).0
unfolding commit_changes
commit_changes-build_operations_example =
    commit_changes-build_operations (client 0) state renamed draft.refined_items activity activity
      conflict asks_validate refl

-- The graph runs validate again.
abbrev revalidate : State → Recovery → Option State
revalidate t r =
    some
      (record t { commit_items = (build_operations (draft_of t draft.refined_items activity)).0 })

abbrev pub world : World
world = record {
  client = client;
  recover_commit = some revalidate;
  run_gap = λ s. some (record {
    request_id = s.request_id;
    aliases = s.aliases;
    gap_candidate = some (record { well_typed = true; gap_type = 1; anchor_ref = 10 });
    gap_message = some (104 ∷ []);
    commit_result = none;
    active_gap = none;
    suggestion = none;
  });
  build_result_response = λ s r. 100 ∷ [];
  uuid = 900;
  saves_gap = true;
}

keeps_count :
    (f : State → Recovery → Option State) (t u : State) (r : Recovery)
    → some revalidate ≡ some f
    → f t r ≡ some u
    → t.commit_conflict_count ≤ u.commit_conflict_count
keeps_count f t u r p q = ground (arith, p, q)

commit_loop-ends_example : commit_loop 2 world 0 state ≢ none
commit_loop-ends_example = commit_loop-ends world keeps_count 0 state

abbrev pub gap : ActiveGap
gap = record {
  gap_id = 900;
  gap_type = 1;
  anchor_block_id = 110;
  message = 104 ∷ [];
  created_request_id = 500;
}

abbrev pub run : Run
run = record {
  events =
      commit_running
      ∷ commit_completed
      ∷ commit_result_event result
      ∷ message_complete (result_of 500 70 (100 ∷ []) result)
      ∷ suggestion_ready (some gap)
      ∷ message_complete (suggestion_of 500 70 (104 ∷ []))
      ∷ [];
  saved = some gap ∷ [];
  ended = none;
}

pub coordinated : coordinate 2 world state ≡ some run
unfolding coordinate commit_loop commit_changes build_operations build_suggestion
coordinated = refl

coordinate-Script_example : Script world state run.events run.ended
coordinate-Script_example = coordinate-Script 2 world state run coordinated
