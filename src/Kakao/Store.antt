-- ===== src/Kakao/Store.antt =====
-- `KakaoTurnStore` of kakao/store.py: each transition is one conditional UPDATE.
use folioo_ai.Base.{
  ℕ, ◌+◌, ◌*◌, String, Bool, true, false, not, ◌&&◌, Option, none, some, List, [], ◌∷◌, map, ltb,
  leb, ◌==◌, if◌then◌else◌, is_some, sql_eq, coalesce, fetchrow, returning, update_where,
  delete_where, select, select_first, length, take,
}
use folioo_ai.Repository.Rows.{seconds}
use folioo_ai.Kakao.Rows.{
  TurnState, accepted, running, commit_unknown, Delivery, not_attempted, Payload, TurnRow, is_open,
  is_free, needs_work, is_turn, get_turn,
}

abbrev pub Turns : Type 0
Turns = List TurnRow

abbrev pub worker_lease_seconds : ℕ
worker_lease_seconds = 60

abbrev pub retention_hours : ℕ
retention_hours = 48

abbrev pub hours : ℕ → ℕ
hours n = n * 3_600_000_000

pub data AcceptOutcome : Type 0 where
  created duplicate mismatch : AcceptOutcome

-- The arguments of `accept`. An id is the number that its text is read as; `plain_user_id` and
-- `plain_session_id` are whether the text is the one that `str` gives for it (no leading zero, lower
-- case and dashes).
pub record Acceptance : Type 0 where
  pub request_id : ℕ
  pub user_id : ℕ
  pub plain_user_id : Bool
  pub session_id : ℕ
  pub plain_session_id : Bool
  pub block_id : String
  pub request_hash : ℕ
  pub utterance : String
  pub callback_url : String
  pub expires_at : ℕ

-- The inserted row, with the defaults of the table.
abbrev pub accepted_row : ℕ → Acceptance → TurnRow
accepted_row now a = record {
  request_id = a.request_id;
  user_id = a.user_id;
  session_id = a.session_id;
  block_id = a.block_id;
  request_hash = a.request_hash;
  utterance = a.utterance;
  expires_at = a.expires_at;
  state = accepted;
  delivery_status = not_attempted;
  usage_reported = false;
  complete_notified = false;
  callback_url = some a.callback_url;
  outcome = none;
  reply_payload = none;
  delivery_claimed_at = none;
  worker_lease_expires_at = none;
  worker_token = none;
  updated_at = now;
}

-- `same`, which compares the `str` of the row's ids with the texts of the request.
abbrev pub is_same : Acceptance → TurnRow → Bool
is_same a r =
    r.request_hash == a.request_hash
    && (r.user_id == a.user_id && a.plain_user_id)
    && (r.session_id == a.session_id && a.plain_session_id)

-- `INSERT … ON CONFLICT (request_id) DO NOTHING`, and the lookup that follows a conflict.
unfoldable pub accept : ℕ → Acceptance → Turns → (AcceptOutcome × TurnRow) × Turns
accept now a turns = elim (get_turn a.request_id turns) [
  | none ↦ ((created, accepted_row now a), accepted_row now a ∷ turns)
  | some r ↦ ((if is_same a r then duplicate else mismatch, r), turns)
]

-- `get`, with the user when the caller names one.
unfoldable pub get : ℕ → Option ℕ → Turns → Option TurnRow
get request user turns = elim user [
  | none ↦ get_turn request turns
  | some u ↦ select_first (λ r. r.request_id == request && r.user_id == u) turns
]

abbrev pub claimable : ℕ → ℕ → TurnRow → Bool
claimable now request r = is_turn request r && needs_work r && is_free now r.worker_lease_expires_at

abbrev pub started : TurnState → TurnState
started accepted = running
started s = s

abbrev pub claim_row : ℕ → ℕ → TurnRow → TurnRow
claim_row now token r = record r {
  state = started r.state;
  worker_token = some token;
  worker_lease_expires_at = some (now + seconds worker_lease_seconds);
  updated_at = now;
}

unfoldable pub claim_worker : ℕ → ℕ → ℕ → Turns → Option TurnRow × Turns
claim_worker now token request turns = (
  fetchrow (returning (claimable now request) (claim_row now token) turns),
  update_where (claimable now request) (claim_row now token) turns,
)

abbrev pub held_by : ℕ → ℕ → TurnRow → Bool
held_by request token r = is_turn request r && sql_eq r.worker_token token

-- An UPDATE whose command tag tells whether a row was changed.
abbrev pub changed : (TurnRow → Bool) → (TurnRow → TurnRow) → Turns → Bool × Turns
changed p f turns = (is_some (fetchrow (returning p f turns)), update_where p f turns)

abbrev pub renew_row : ℕ → TurnRow → TurnRow
renew_row now r = record r {
  worker_lease_expires_at = some (now + seconds worker_lease_seconds);
  updated_at = now;
}

unfoldable pub renew_worker : ℕ → ℕ → ℕ → Turns → Bool × Turns
renew_worker now request token turns = changed (held_by request token) (renew_row now) turns

abbrev pub release_row : ℕ → TurnRow → TurnRow
release_row now r = record r {
  worker_lease_expires_at = none;
  worker_token = none;
  updated_at = now;
}

unfoldable pub release_worker : ℕ → ℕ → ℕ → Turns → Turns
release_worker now request token turns =
    update_where (held_by request token) (release_row now) turns

abbrev pub records_outcome : ℕ → ℕ → TurnRow → Bool
records_outcome request token r = held_by request token r && not (is_some r.outcome)

abbrev pub outcome_row : ℕ → TurnState → Option Payload → TurnRow → TurnRow
outcome_row now outcome payload r = record r {
  outcome = some outcome;
  reply_payload = payload;
  updated_at = now;
}

unfoldable pub record_outcome : ℕ → ℕ → ℕ → TurnState → Option Payload → Turns → Bool × Turns
record_outcome now request token outcome payload turns =
    changed (records_outcome request token) (outcome_row now outcome payload) turns

abbrev pub is_commit_unknown : TurnState → Bool
is_commit_unknown commit_unknown = true
is_commit_unknown _ = false

abbrev pub resolves : ℕ → ℕ → TurnRow → Bool
resolves request token r = held_by request token r && is_commit_unknown r.state

abbrev pub resolve_row : ℕ → TurnState → TurnRow → TurnRow
resolve_row now outcome r = record r {
  outcome = some outcome;
  state = outcome;
  usage_reported = false;
  complete_notified = false;
  updated_at = now;
}

unfoldable pub resolve_commit_unknown : ℕ → ℕ → ℕ → TurnState → Turns → Bool × Turns
resolve_commit_unknown now request token outcome turns =
    changed (resolves request token) (resolve_row now outcome) turns

abbrev pub deliverable : ℕ → TurnRow → Bool
deliverable request r =
    is_turn request r && not (is_some r.delivery_claimed_at) && is_some r.callback_url

abbrev pub claim_delivery_row : ℕ → TurnRow → TurnRow
claim_delivery_row now r = record r { delivery_claimed_at = some now; updated_at = now }

-- `RETURNING callback_url` read by `fetchval`.
abbrev pub url_of : Option TurnRow → Option String
url_of none = none
url_of (some r) = r.callback_url

unfoldable pub claim_delivery : ℕ → ℕ → Turns → Option String × Turns
claim_delivery now request turns = (
  url_of (fetchrow (returning (deliverable request) (claim_delivery_row now) turns)),
  update_where (deliverable request) (claim_delivery_row now) turns,
)

abbrev pub finish_row : ℕ → Delivery → TurnRow → TurnRow
finish_row now status r = record r {
  delivery_status = status;
  callback_url = none;
  delivery_claimed_at = coalesce r.delivery_claimed_at (some now);
  updated_at = now;
}

unfoldable pub finish_delivery : ℕ → ℕ → Delivery → Turns → Turns
finish_delivery now request status turns =
    update_where (is_turn request) (finish_row now status) turns

abbrev pub publishes : ℕ → TurnRow → Bool
publishes request r = is_turn request r && is_open r.state

abbrev pub publish_row : ℕ → TurnState → TurnRow → TurnRow
publish_row now state r = record r { state = state; updated_at = now }

unfoldable pub publish_state : ℕ → ℕ → TurnState → Turns → Turns
publish_state now request state turns =
    update_where (publishes request) (publish_row now state) turns

unfoldable pub mark_usage_reported : ℕ → ℕ → Turns → Turns
mark_usage_reported now request turns =
    update_where (is_turn request) (λ r. record r { usage_reported = true; updated_at = now }) turns

unfoldable pub mark_complete_notified : ℕ → ℕ → Turns → Turns
mark_complete_notified now request turns =
    update_where (is_turn request) (λ r. record r { complete_notified = true; updated_at = now })
      turns

-- `ORDER BY updated_at`, as a stable insertion sort.
insert_by_age : TurnRow → List TurnRow → List TurnRow
insert_by_age r [] = r ∷ []
insert_by_age r (x ∷ xs) =
    if leb r.updated_at x.updated_at then r ∷ x ∷ xs else x ∷ insert_by_age r xs

by_age : List TurnRow → List TurnRow
unfolding insert_by_age
by_age [] = []
by_age (r ∷ rs) = insert_by_age r (by_age rs)

abbrev pub is_recoverable : ℕ → TurnRow → Bool
is_recoverable now r = needs_work r && is_free now r.worker_lease_expires_at

unfoldable pub list_recoverable : ℕ → ℕ → Turns → List ℕ
unfolding by_age
list_recoverable now limit turns =
    map (λ r. r.request_id) (take limit (by_age (select (is_recoverable now) turns)))

abbrev pub is_purged : ℕ → TurnRow → Bool
is_purged now r =
    r.complete_notified && not (is_open r.state) && ltb (r.updated_at + hours retention_hours) now

unfoldable pub purge_old : ℕ → Turns → ℕ × Turns
purge_old now turns = (length (select (is_purged now) turns), delete_where (is_purged now) turns)
