-- ===== src/Service/Prepare/Chat.antt =====
-- `prepare_chat` of service.py.
use folioo_ai.Base.{ℕ, Text, String, false, Option, none, some, List, map}
use folioo_ai.Repository.Rows.{
  SessionRow, RequestRow, Db, Result, returned, raised, ClaimResult, ClaimOutcome, claimed, replay,
  session_busy, hash_mismatch, retry_required,
}
use folioo_ai.Repository.Sessions.{get_session}
use folioo_ai.Repository.Claim.{claim_request}
use folioo_ai.Reconcile.Loop.{Round, reconcile}
use folioo_ai.Service.Errors.{ErrorClass}
use folioo_ai.Service.Prepare.Request.{HashInput, hash_input, StoredFile, Channel, PreparedRequest}

-- The arguments of `prepare_chat`.
pub record ChatRequest : Type 0 where
  pub user_id : ℕ
  pub session_id : ℕ
  pub request_id : ℕ
  pub user_message : Option Text
  pub context_experience_id : Option ℕ
  pub view : Option Text
  pub stored_files : List StoredFile
  pub channel : Channel

-- What the calls meet: SHA-256 of the dumped object, the text of `input_meta`, the rounds of the
-- sweep, the lease, the server's and the worker's time, and a new owner token.
pub record Clock : Type 0 where
  pub hash : HashInput → ℕ
  pub input_meta : ChatRequest → String
  pub rounds : ℕ → Round
  pub lease : ℕ
  pub now : ℕ
  pub worker_now : ℕ
  pub token : ℕ

-- `foreign_key` is asyncpg's error for a session that was deleted in between.
pub data Answer (A : Type 0) : Type 0 where
  ready : A → Answer A
  refused : ErrorClass → Answer A
  foreign_key : Answer A

abbrev pub request_hash : Clock → ChatRequest → ℕ
request_hash c r = c.hash (
    hash_input r.user_message r.context_experience_id r.view
      (map (λ f. StoredFile.sha256 f) r.stored_files))

-- `prepared`, as it is built after the claim.
abbrev pub prepared_chat : Clock → ChatRequest → SessionRow → PreparedRequest
prepared_chat c r session = record {
  user_id = r.user_id;
  session_id = r.session_id;
  request_id = r.request_id;
  request_hash = request_hash c r;
  user_message = r.user_message;
  context_experience_id = r.context_experience_id;
  view = r.view;
  stored_files = r.stored_files;
  replay_of = none;
  is_retry = false;
  owner_token = none;
  channel = r.channel;
  active_gap = session.active_gap;
}

abbrev pub token_of : Option RequestRow → Option ℕ
token_of none = none
token_of (some row) = row.owner_token

abbrev pub hash_of : Option RequestRow → ℕ
hash_of none = 0
hash_of (some row) = row.request_hash

-- The `match` of `prepare_chat`; the outcomes that `claim_request` does not give are its
-- `AssertionError`.
abbrev pub match_claim : PreparedRequest → Option RequestRow → ClaimOutcome → Answer PreparedRequest
match_claim p row claimed = ready (record p { owner_token = token_of row })
match_claim p row replay = ready (record p { replay_of = row })
match_claim p row session_busy = refused ErrorClass.session_busy
match_claim p row hash_mismatch = refused ErrorClass.idempotency_key_reused
match_claim p row retry_required = refused ErrorClass.retry_not_allowed
match_claim p row _ = refused ErrorClass.base_error

abbrev pub answer_chat : PreparedRequest → Result ClaimResult → Answer PreparedRequest
answer_chat p (raised _) = foreign_key
answer_chat p (returned claim) = match_claim p claim.request claim.outcome

abbrev pub claim_chat : Clock → ChatRequest → SessionRow → Db → Answer PreparedRequest × Db
claim_chat c r session db =
    let (claim, db') =
      claim_request c.lease c.now c.token r.user_id r.session_id r.request_id (request_hash c r)
        (c.input_meta r) db in
    (answer_chat (prepared_chat c r session) claim, db')

abbrev pub after_sweep : {A : Type 0} → (Db → A × Db) → Option Db → Option (A × Db)
after_sweep f none = none
after_sweep f (some db) = some (f db)

abbrev pub in_session :
    {A : Type 0}
    → (SessionRow → Db → Answer A × Db)
    → ℕ
    → Clock
    → ℕ
    → Db
    → Option SessionRow
    → Option (Answer A × Db)
in_session f fuel c session db none = some (refused ErrorClass.session_not_found, db)
in_session f fuel c session db (some s) =
    after_sweep (f s) (reconcile fuel c.rounds 0 (some session) db)

-- `none` is out of fuel for the sweep.
unfoldable pub prepare_chat : ℕ → Clock → ChatRequest → Db → Option (Answer PreparedRequest × Db)
prepare_chat fuel c r db =
    in_session (claim_chat c r) fuel c r.session_id db (get_session r.user_id r.session_id db)
