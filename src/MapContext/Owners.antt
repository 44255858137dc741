-- ===== src/MapContext/Owners.antt =====
-- The outline, the owners and the contents of `ExperienceMapSnapshot`, and the `refresh_map` of
-- graph_runner.py, which a commit calls when it meets a newer map.
use folioo_ai.Base.{ℕ, suc, Text, Option, none, some, List, [], ◌∷◌, ◌++◌}
use folioo_ai.Commit.Remap.{get, alias_by_id}
use folioo_ai.Commit.Node.{State, required_string}
use folioo_ai.MapContext.Snapshot.{MapBlockRow, Forest, end, block, walk}
use folioo_ai.MapContext.Activity.{
  Activity, activity_alias, activities, activities_among, label, ActivityContext,
  get_activity_context,
}

-- The pairs of an activity's alias with the ids of its blocks.
abbrev pub owned_blocks : ℕ → List MapBlockRow → List (ℕ × ℕ)
owned_blocks alias [] = []
owned_blocks alias (r ∷ rs) = (alias, r.block_id) ∷ owned_blocks alias rs

abbrev pub owners : ℕ → List Activity → List (ℕ × ℕ)
owners k [] = []
owners k (a ∷ rest) =
    (activity_alias k, a.row.block_id)
    ∷ (owned_blocks (activity_alias k) (walk a.children) ++ owners (suc k) rest)

-- `block_id_to_activity_alias().get(id)`: of two entries of one block the last one counts.
unfoldable pub activity_alias_of : Forest → ℕ → Option ℕ
activity_alias_of roots id = alias_by_id id (owners 1 (activities roots))

-- `block_contents()`
abbrev pub put_content : ℕ → Option Text → List (ℕ × Text) → List (ℕ × Text)
put_content id none rest = rest
put_content id (some t) rest = (id, t) ∷ rest

abbrev pub contents : List MapBlockRow → List (ℕ × Text)
contents [] = []
contents (r ∷ rs) = put_content r.block_id r.content (contents rs)

unfoldable pub block_contents : Forest → List (ℕ × Text)
block_contents roots = contents (walk roots)

-- An entry of the outline: a group with its activities, of which each has its alias.
pub record Group : Type 0 where
  pub level : ℕ
  pub title : Text
  pub children : List (ℕ × ℕ × Text)

abbrev pub outlined : ℕ → List Activity → List (ℕ × ℕ × Text)
outlined k [] = []
outlined k (a ∷ rest) = (activity_alias k, a.row.level, label a.row) ∷ outlined (suc k) rest

abbrev pub count_from : ℕ → List Activity → ℕ
count_from k [] = k
count_from k (a ∷ rest) = count_from (suc k) rest

abbrev pub groups : ℕ → Forest → List Group
groups k end = []
groups k (block r children rest) =
    let own = activities_among children [] in
    record { level = r.level; title = label r; children = outlined k own }
    ∷ groups (count_from k own) rest

-- `outline()`. Blocks of different ids are not equal, so that a root has its own activities.
unfoldable pub outline : Forest → List Group
outline roots = groups 1 roots

abbrev pub target_id : State → Option ℕ → Option ℕ
target_id s none = none
target_id s (some alias) = get alias s.aliases

abbrev pub owner_of : Forest → Option ℕ → Option ℕ
owner_of roots none = none
owner_of roots (some id) = activity_alias_of roots id

abbrev pub context_for : Forest → Option ℕ → Option ActivityContext
context_for roots none = none
context_for roots (some alias) = get_activity_context alias roots

-- The keys that the commit reads, under the context of the target's activity in the new map.
abbrev pub with_context : ℕ → State → Option ActivityContext → State
with_context version s (some c) = record s {
  map_version = some version;
  target_experience_alias = some c.activity_alias;
  aliases = c.alias_to_block_id;
}
with_context version s none = record s {
  map_version = some version;
  target_experience_alias = none;
  aliases = [];
}

abbrev pub refresh_for : ℕ → Forest → State → Option ℕ → Option State
refresh_for version roots s none = none
refresh_for version roots s (some user) = some (
    with_context version s
      (context_for roots (owner_of roots (target_id s s.target_experience_alias))))

-- `refresh_map`, from the snapshot that the repository read. `none` is its `ValueError`.
unfoldable pub refresh_map : ℕ → Forest → State → Option State
refresh_map version roots s = refresh_for version roots s (required_string s.user_id)
