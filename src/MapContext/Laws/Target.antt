-- ===== src/MapContext/Laws/Target.antt =====
-- A refresh of the map follows the block that the commit is about.
use folioo_ai.Base.{is_some, ℕ, ◌≤◌, Bool, true, false, ◌||◌, ◌≡◌, some, List, [], ◌∷◌}
use folioo_ai.Commit.Remap.{alias_by_id, target_activity_is_present}
use folioo_ai.Commit.Node.{State}
use folioo_ai.MapContext.Snapshot.{Forest, walk}
use folioo_ai.MapContext.Activity.{Activity, activity_alias, activities, activity_by_alias}
use folioo_ai.MapContext.Owners.{owners}
use folioo_ai.MapContext.Laws.Whole.{has}

-- Is there an activity that is the block of that id, or has it below?
abbrev pub holds : ℕ → List Activity → Bool
holds id [] = false
holds id (a ∷ rest) = has id (a.row ∷ walk a.children) || holds id rest

-- The owner of a block, among the activities counted from the given number.
record IsOwner (id k : ℕ) (l : List Activity) : Type 0 where
  index : ℕ
  activity : Activity
  late : k ≤ index
  owns : alias_by_id id (owners k l) ≡ some (activity_alias index)
  named : activity_by_alias k (activity_alias index) l ≡ some activity
  inside : has id (activity.row ∷ walk activity.children) ≡ true

-- What the refresh has to do for the block of the old target: its activity, where the map has one, is
-- the new target, and its block has an alias again; otherwise there is no target and it has none.
abbrev pub IsFollowed : ℕ → Forest → State → State → Type 0
IsFollowed id roots s t =
    (is_some t.target_experience_alias ≡ holds id (activities roots))
    × (target_activity_is_present s.aliases t.aliases s.target_experience_alias
        ≡ holds id (activities roots))
