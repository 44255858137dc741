-- ===== src/Commit/Node.antt =====
-- `commit_changes`, `_recover_map_conflict` and `next_node` of nodes/commit.py.
use folioo_ai.Base.{
  ℕ, zero, suc, Text, Bool, true, false, Option, none, some, List, leb, if◌then◌else◌,
}
use folioo_ai.Validate.Items.{RawItem, Operation, Action}
use folioo_ai.Commit.Remap.{
  Dict, CommitItem, to_commit_items, remap_operations, remap_one_operation, remap_alias,
}

-- `AppliedItem`, without the `delete` that this server never sends.
pub record Applied : Type 0 where
  pub item_id : ℕ
  pub block_id : ℕ
  pub path : Text
  pub action : Option Action

pub record Dropped : Type 0 where
  pub item_id : ℕ
  pub reason : Text

pub record CommitResult : Type 0 where
  pub request_id : ℕ
  pub previous_version : ℕ
  pub map_version : ℕ
  pub revert_to_version : ℕ
  pub can_revert : Bool
  pub applied : List Applied
  pub dropped : List Dropped

-- `commit_recovery_node`
pub data Recovery : Type 0 where
  to_validate to_structure : Recovery

-- The keys of the state that the node and the coordinator read or write. Ids are numbers, and 0 is
-- the empty string.
pub record State : Type 0 where
  pub user_id : Option ℕ
  pub session_id : Option ℕ
  pub request_id : Option ℕ
  pub map_version : Option ℕ
  pub aliases : Dict
  pub target_experience_alias : Option ℕ
  pub structured_items : List RawItem
  pub gap_update_item : Option RawItem
  pub commit_items : List Operation
  pub dropped_items : List Dropped
  pub commit_conflict_count : ℕ
  pub commit_result : Option CommitResult
  pub commit_recovery_node : Option Recovery

pub data Raised : Type 0 where
  value_error commit_conflict network_error lookup_error refresh_error other_error : Raised

-- What `client.commit` did: it answered, or raised a version conflict (with the current version
-- where it is known), or a timeout or network error, or another error.
pub data Reply : Type 0 where
  replied : CommitResult → Reply
  version_conflict : Option ℕ → Reply
  unreachable refused : Reply

-- What `client.get_commit` did: it raised, or answered `committed` and `result`.
pub data Lookup : Type 0 where
  lookup_raised : Lookup
  looked_up : Bool → Option CommitResult → Lookup

-- The main server as one run of the node meets it, and the callback `refresh_map`, which may be
-- missing; its `none` is an error it raises.
pub record Client : Type 0 where
  pub commit : ℕ → ℕ → ℕ → List CommitItem → Reply
  pub get_commit : ℕ → Lookup
  pub refresh_map : Option (State → Option State)

pub data Outcome : Type 0 where
  done : State → Outcome
  raises : Raised → Outcome

-- `_required_string`
abbrev pub required_string : Option ℕ → Option ℕ
required_string none = none
required_string (some zero) = none
required_string (some (suc n)) = some (suc n)

-- `_with_commit_result`
abbrev pub with_commit_result : State → CommitResult → State
with_commit_result s r = record s {
  commit_recovery_node = none;
  commit_result = some (record r { dropped = s.dropped_items });
}

abbrev pub known_version : Option ℕ → Option ℕ → Option ℕ
known_version (some v) current = some v
known_version none current = current

-- The state after a conflict, from the refreshed one and the verdict of `_remap_operations`.
abbrev pub reenter : State → State → Option ℕ → List RawItem → Bool → State
reenter s fresh current remapped true = record fresh {
  commit_conflict_count = suc s.commit_conflict_count;
  commit_result = none;
  map_version = known_version fresh.map_version current;
  structured_items = remapped;
  gap_update_item = (remap_one_operation s.aliases fresh.aliases s.gap_update_item).0;
  target_experience_alias = remap_alias s.aliases fresh.aliases s.target_experience_alias;
  commit_recovery_node = some to_validate;
}
reenter s fresh current remapped false = record fresh {
  commit_conflict_count = suc s.commit_conflict_count;
  commit_result = none;
  map_version = known_version fresh.map_version current;
  commit_recovery_node = some to_structure;
}

abbrev pub refreshed : State → Option ℕ → Option State → Outcome
refreshed s current none = raises refresh_error
refreshed s current (some fresh) =
    let (remapped, maintained) =
      remap_operations s.aliases fresh.aliases s.structured_items s.gap_update_item
        s.target_experience_alias in
    done (reenter s fresh current remapped maintained)

abbrev pub refresh_by : State → Option ℕ → Option (State → Option State) → Outcome
refresh_by s current none = raises commit_conflict
refresh_by s current (some refresh) = refreshed s current (refresh s)

-- `_recover_map_conflict`
abbrev pub recover_map_conflict : Client → State → Option ℕ → Outcome
recover_map_conflict c s current =
    if leb 1 s.commit_conflict_count
    then raises commit_conflict
    else refresh_by s current c.refresh_map

-- The handler of a timeout or network error, which raises it again without a stored result.
abbrev pub after_lookup : State → Lookup → Outcome
after_lookup s lookup_raised = raises lookup_error
after_lookup s (looked_up false result) = raises network_error
after_lookup s (looked_up true none) = raises network_error
after_lookup s (looked_up true (some r)) = done (with_commit_result s r)

abbrev pub after_reply : Client → State → ℕ → Reply → Outcome
after_reply c s request (replied r) = done (with_commit_result s r)
after_reply c s request (version_conflict current) = recover_map_conflict c s current
after_reply c s request unreachable = after_lookup s (c.get_commit request)
after_reply c s request refused = raises other_error

-- The arguments of the call, in their order.
abbrev pub send : Client → State → List CommitItem → Option ℕ → Option ℕ → Option ℕ → Outcome
send c s items none request version = raises value_error
send c s items (some user) none version = raises value_error
send c s items (some user) (some request) none = raises value_error
send c s items (some user) (some request) (some version) =
    after_reply c s request (c.commit user request version items)

abbrev pub commit_with : Client → State → Option (List CommitItem) → Outcome
commit_with c s none = raises value_error
commit_with c s (some items) =
    send c s items (required_string s.user_id) (required_string s.request_id) s.map_version

unfoldable pub commit_changes : Client → State → Outcome
commit_changes c s = commit_with c s (to_commit_items s.aliases s.commit_items)

pub data Next : Type 0 where
  reentry : Recovery → Next
  coordinator fallback : Next

abbrev pub after_commit : Option CommitResult → Next
after_commit (some _) = coordinator
after_commit none = fallback

-- `next_node`
abbrev pub next_node : Option Recovery → Option CommitResult → Next
next_node (some r) result = reentry r
next_node none result = after_commit result
