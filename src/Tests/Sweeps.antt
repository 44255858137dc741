-- ===== src/Tests/Sweeps.antt =====
-- `_reconcile_stale_requests` of service.py, on a request whose worker died.
use folioo_ai.Base.{ℕ, ◌≡◌, refl, none, some, false, [], ◌∷◌, arith}
use folioo_ai.Repository.Rows.{RequestRow, running, Db}
use folioo_ai.Repository.Recovery.{claim_expired_request_for_recovery, take_over}
use folioo_ai.Repository.Ownership.{mark_request_completed, complete_row}
use folioo_ai.Repository.Invariant.{Consistent}
use folioo_ai.Reconcile.Loop.{Round, committed, reconcile, commit_of}
use folioo_ai.Reconcile.Ends.{IsReconciled, reconcile_ends}

abbrev dead : RequestRow
dead = record {
  user_id = 7;
  session_id = 70;
  request_id = 500;
  request_hash = 5;
  status = running;
  failed_node = none;
  retryable = false;
  retry_expires_at = none;
  lease_expires_at = some 1_000;
  owner_token = some 91;
  base_map_version = none;
  committed_version = none;
  input_meta = "{}";
  result = none;
  suggestion = none;
  error = none;
  fallback_message = none;
  cancel_requested = false;
  created_at = 0;
  updated_at = 0;
}

abbrev tables : Db
tables = record { sessions = []; requests = dead ∷ [] }

-- The main server knows the commit.
abbrev pub rounds : ℕ → Round
rounds k = record {
  lease = 300;
  claimed_at = 2_000;
  token = 92;
  answer = committed (some ("{\"map_version\": 4}", 4));
  closed_at = 3_000;
  retry_ttl = 1_800;
}

closed :
    reconcile 2 rounds 0 none tables
    ≡ some (record {
      sessions = [];
      requests =
          complete_row 3_000 (commit_of "{\"map_version\": 4}" 4) (take_over 300 2_000 92 dead)
          ∷ [];
    })
unfolding reconcile claim_expired_request_for_recovery mark_request_completed
closed = refl

dead-Consistent : Consistent (dead ∷ [])
dead-Consistent = ground arith

reconcile_ends_example : IsReconciled rounds none (reconcile 2 rounds 0 none tables)
reconcile_ends_example = reconcile_ends 2 rounds 0 none tables dead-Consistent (omega arith)
