-- ===== src/Commit/Laws/Loop.antt =====
-- How one commit ends, and that the coordinator's loop commits at most twice.
use folioo_ai.Base.{
  ℕ, suc, true, false, Option, none, some, ◌≡◌, ◌≢◌, ◌≤◌, ◌⊎◌, refl, arith, inl, inr, Option-cases,
  Bool-cases, leb, is_some,
}
use folioo_ai.Commit.Remap.{to_commit_items, remap_operations}
use folioo_ai.Commit.Node.{
  State, Client, CommitResult, Outcome, done, raises, Recovery, Lookup, Reply, refreshed,
  after_lookup, after_reply, commit_changes, with_commit_result, required_string, version_conflict,
  lookup_raised, looked_up, replied, unreachable, refused,
}
use folioo_ai.Commit.Coordinator.{World, commit_loop}

-- A commit that raises nothing has its result, or met the first conflict.
abbrev pub Ends : State → State → Type 0
Ends s t =
    ((r : CommitResult) × (t ≡ with_commit_result s r))
    ⊎ ((s.commit_conflict_count ≡ 0)
        × (t.commit_conflict_count ≡ 1)
        × (is_some t.commit_recovery_node ≡ true)
        × (t.commit_result ≡ none))

after_lookup-Ends : (s t : State) (l : Lookup) → after_lookup s l ≡ done t → Ends s t
after_lookup-Ends s t lookup_raised e = absurd (ground arith)
after_lookup-Ends s t (looked_up false x) e = absurd (ground arith)
after_lookup-Ends s t (looked_up true none) e = absurd (ground arith)
after_lookup-Ends s t (looked_up true (some r)) e = inl (r, ground arith)

refreshed-Ends :
    (s t : State) (current : Option ℕ) (o : Option State)
    → s.commit_conflict_count ≡ 0
    → refreshed s current o ≡ done t
    → Ends s t
refreshed-Ends s t current none z e = absurd (ground arith)
refreshed-Ends s t current (some fresh) z e =
    elim (Bool-cases
      (remap_operations s.aliases fresh.aliases s.structured_items s.gap_update_item
        s.target_experience_alias).1) [
          | inl b ↦ inr (z, ground (arith, b), ground (arith, b), ground (arith, b))
          | inr b ↦ inr (z, ground (arith, b), ground (arith, b), ground (arith, b))
        ]

after_reply-Ends :
    (c : Client) (s t : State) (request : ℕ) (reply : Reply)
    → after_reply c s request reply ≡ done t
    → Ends s t
after_reply-Ends c s t request (replied r) e = inl (r, ground arith)
after_reply-Ends c s t request unreachable e = after_lookup-Ends s t (c.get_commit request) e
after_reply-Ends c s t request refused e = absurd (ground arith)
after_reply-Ends c s t request (version_conflict current) e =
    elim (Bool-cases (leb 1 s.commit_conflict_count)) [
      | inl b ↦ absurd (ground (arith, b))
      | inr b ↦ elim (Option-cases c.refresh_map) [
        | inl n ↦ absurd (ground (arith, b, n))
        | inr (f, n) ↦ refreshed-Ends s t current (f s) (ground (arith, b)) (ground (arith, b, n))
      ]
    ]

-- A commit that raises nothing has sent its items, and ends as the answer says.
pub commit_changes-after_reply :
    (c : Client) (s t : State)
    → commit_changes c s ≡ done t
    → (request : ℕ) × (reply : Reply) × (after_reply c s request reply ≡ done t)
unfolding commit_changes
commit_changes-after_reply c s t e =
    elim (Option-cases (to_commit_items s.aliases s.commit_items)) [
      | inl n ↦ absurd (ground (arith, n))
      | inr (items, n) ↦ elim (Option-cases (required_string s.user_id)) [
        | inl m ↦ absurd (ground (arith, n, m))
        | inr (user, m) ↦ elim (Option-cases (required_string s.request_id)) [
          | inl k ↦ absurd (ground (arith, n, m, k))
          | inr (request, k) ↦ elim (Option-cases s.map_version) [
            | inl l ↦ absurd (ground (arith, n, m, k, l))
            | inr (version, l) ↦
                (request, c.commit user request version items, ground (arith, n, m, k, l))
          ]
        ]
      ]
    ]

pub commit_changes-Ends : (c : Client) (s t : State) → commit_changes c s ≡ done t → Ends s t
commit_changes-Ends c s t e =
    let (request, reply, q) = commit_changes-after_reply c s t e in
    after_reply-Ends c s t request reply q

pub Outcome-cases : (o : Outcome) → ((e : _) × (o ≡ raises e)) ⊎ ((t : State) × (o ≡ done t))
Outcome-cases (raises e) = inl (e, refl)
Outcome-cases (done t) = inr (t, refl)

-- After a conflict the next commit is the last one.
commit_loop-second :
    (w : World) (k : ℕ) (s : State) → 1 ≤ s.commit_conflict_count → commit_loop 1 w k s ≢ none
unfolding commit_loop
commit_loop-second w k s h = elim (Outcome-cases (commit_changes (w.client k) s)) [
  | inl (e, o) ↦ ground (arith, o)
  | inr (t, o) ↦ elim (commit_changes-Ends (w.client k) s t o) [
    | inl (r, q) ↦ ground (arith, o, q)
    | inr (z, _, _, _) ↦ absurd (ground arith)
  ]
]

-- If `recover_commit` never lowers `commit_conflict_count`, then the loop of the coordinator ends
-- after at most two runs of the commit node, whatever the main server answers: a second conflict
-- raises.
pub commit_loop-ends :
    (w : World)
    → ((f : State → Recovery → Option State) (t u : State) (r : Recovery)
        → w.recover_commit ≡ some f
        → f t r ≡ some u
        → t.commit_conflict_count ≤ u.commit_conflict_count)
    → (k : ℕ) (s : State) → commit_loop 2 w k s ≢ none
unfolding commit_loop
commit_loop-ends w keeps k s = elim (Outcome-cases (commit_changes (w.client k) s)) [
  | inl (e, o) ↦ ground (arith, o)
  | inr (t, o) ↦ elim (commit_changes-Ends (w.client k) s t o) [
    | inl (r, q) ↦ ground (arith, o, q)
    | inr (z, one, p, _) ↦ elim (Option-cases t.commit_recovery_node) [
      | inl n ↦ absurd (ground (arith, n))
      | inr (r, n) ↦ elim (Option-cases w.recover_commit) [
        | inl m ↦ ground (arith, o, n, m)
        | inr (f, m) ↦ elim (Option-cases (f t r)) [
          | inl i ↦ ground (arith, o, n, m, i)
          | inr (u, i) ↦
              ground (arith, o, n, m, i, keeps f t u r m i, commit_loop-second w (suc k) u)
        ]
      ]
    ]
  ]
]
