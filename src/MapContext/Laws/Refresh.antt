-- ===== src/MapContext/Laws/Refresh.antt =====
-- The refreshed aliases are a dict, as the recovery of a commit wants it.
use folioo_ai.Base.{
  ℕ, Text, true, ◌≡◌, refl, List, Option, none, some, arith, inl, inr, Option-cases, Bool-cases,
  leb,
}
use folioo_ai.Validate.Items.{Aliases}
use folioo_ai.Validate.Node.{build_operations}
use folioo_ai.Commit.Remap.{to_commit_items}
use folioo_ai.Commit.Node.{
  State, Client, Reply, replied, unreachable, refused, version_conflict, done, to_validate,
  required_string, refreshed, after_reply, commit_changes,
}
use folioo_ai.Commit.Laws.Loop.{commit_changes-after_reply}
use folioo_ai.Commit.Laws.Conflict.{
  after_lookup-ends, draft_of, remapping, commit_changes-build_operations,
}
use folioo_ai.Commit.Laws.Remap.{is_dict}
use folioo_ai.MapContext.Snapshot.{Forest}
use folioo_ai.MapContext.Activity.{get_activity_context}
use folioo_ai.MapContext.Owners.{target_id, owner_of, context_for, with_context, refresh_map}
use folioo_ai.MapContext.Laws.Scope.{get_activity_context-IsScoped}

is_dict-with_context :
    (version : ℕ) (roots : Forest) (s : State) (alias : Option ℕ)
    → is_dict (with_context version s (context_for roots alias)).aliases ≡ true
is_dict-with_context version roots s none = refl
is_dict-with_context version roots s (some a) = elim (Option-cases (get_activity_context a roots)) [
  | inl n ↦ ground (arith, n)
  | inr (c, n) ↦ ground (arith, n, (get_activity_context-IsScoped a roots c n).once)
]

-- The aliases of a refreshed state are those of one activity of the new map, or none: a dict.
is_dict-refresh_map :
    (version : ℕ) (roots : Forest) (s t : State)
    → refresh_map version roots s ≡ some t
    → is_dict t.aliases ≡ true
unfolding refresh_map
is_dict-refresh_map version roots s t e = elim (Option-cases (required_string s.user_id)) [
  | inl n ↦ absurd (ground (arith, n))
  | inr (u, n) ↦ ground (
    arith,
    n,
    e,
    is_dict-with_context version roots s (owner_of roots (target_id s s.target_experience_alias)),
  )
]

reenter-is_dict :
    (s fresh t : State) (current : Option ℕ)
    → is_dict fresh.aliases ≡ true
    → refreshed s current (some fresh) ≡ done t
    → t.commit_recovery_node ≡ some to_validate
    → is_dict t.aliases ≡ true
reenter-is_dict s fresh t current d e r = elim (Bool-cases (remapping s fresh).1) [
  | inl b ↦ ground (arith, b)
  | inr b ↦ absurd (ground (arith, b))
]

refreshed-is_dict :
    (version : ℕ) (roots : Forest) (s t : State) (current : Option ℕ)
    → refreshed s current (refresh_map version roots s) ≡ done t
    → t.commit_recovery_node ≡ some to_validate
    → is_dict t.aliases ≡ true
refreshed-is_dict version roots s t current e r =
    elim (Option-cases (refresh_map version roots s)) [
      | inl n ↦ absurd (ground (arith, n))
      | inr (fresh, n) ↦
          reenter-is_dict s fresh t current (is_dict-refresh_map version roots s fresh n)
            (ground (arith, n, e)) r
    ]

after_reply-is_dict :
    (c : Client) (s t : State) (version : ℕ) (roots : Forest) (request : ℕ) (reply : Reply)
    → c.refresh_map ≡ some (refresh_map version roots)
    → after_reply c s request reply ≡ done t
    → t.commit_recovery_node ≡ some to_validate
    → is_dict t.aliases ≡ true
after_reply-is_dict c s t version roots request (replied x) m e r = absurd (ground arith)
after_reply-is_dict c s t version roots request unreachable m e r =
    absurd (after_lookup-ends s t (c.get_commit request) e r)
after_reply-is_dict c s t version roots request refused m e r = absurd (ground arith)
after_reply-is_dict c s t version roots request (version_conflict current) m e r =
    elim (Bool-cases (leb 1 s.commit_conflict_count)) [
      | inl b ↦ absurd (ground (arith, b))
      | inr b ↦ refreshed-is_dict version roots s t current (ground (arith, b, m)) r
    ]

-- Where a commit refreshes the map as the runner does, from any snapshot: if the commit asks for
-- validate after a version conflict, then the operations that validate builds again, from the
-- renamed items and an unchanged refinement, are converted under the new map's aliases to the same
-- items for the main server as the old operations under the old aliases, or refused alike.
commit_changes-refresh_map :
    (c : Client) (s t : State) (version : ℕ) (roots : Forest) (refined : List (ℕ × Option Text))
    (a b : Aliases)
    → c.refresh_map ≡ some (refresh_map version roots)
    → commit_changes c s ≡ done t
    → t.commit_recovery_node ≡ some to_validate
    → to_commit_items t.aliases (build_operations (draft_of t refined a)).0
      ≡ to_commit_items s.aliases (build_operations (draft_of s refined b)).0
commit_changes-refresh_map c s t version roots refined a b m e r =
    let (request, reply, q) = commit_changes-after_reply c s t e in
    commit_changes-build_operations c s t refined a b e r
      (after_reply-is_dict c s t version roots request reply m q r)
