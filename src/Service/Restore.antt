-- ===== src/Service/Restore.antt =====
-- `get_request_state` with `_to_request_state`, and `cancel_request`, of service.py.
use folioo_ai.Base.{ℕ, Text, Bool, true, false, String, Option, none, some, [], ◌∷◌, text_of}
use folioo_ai.Repository.Rows.{RequestRow, Status, Db, get_request}
use folioo_ai.Repository.Ownership.{request_cancellation}
use folioo_ai.Reconcile.Loop.{reconcile}
use folioo_ai.Commit.Node.{CommitResult}
use folioo_ai.Commit.Suggestion.{ActiveGap}
use folioo_ai.Service.Errors.{request_not_found}
use folioo_ai.Service.Payloads.{
  Codec, ResultPayload, SuggestionPayload, loaded, gap_of, message_or_empty, read_text,
}
use folioo_ai.Service.Prepare.Chat.{Answer, ready, refused, Clock, after_sweep}

-- The object in the column `error`; a field is `none` where the key is missing or null.
pub record StoredError : Type 0 where
  pub code : Option Text
  pub failed_node : Option Text
  pub message : Option Text

pub record RequestErrorInfo : Type 0 where
  pub code : Text
  pub failed_node : Option Text
  pub retryable : Bool
  pub message : Text

pub record SuggestionInfo : Type 0 where
  pub gap : Option ActiveGap
  pub message : Text

-- `RequestStateResponse`, of whose result the schema keeps what a commit result has.
pub record RequestState : Type 0 where
  pub request_id : ℕ
  pub status : Status
  pub result : Option CommitResult
  pub suggestion : Option SuggestionInfo
  pub error : Option RequestErrorInfo

-- `row.error.get("code", "internal_error")`
abbrev pub code_or_internal : Option Text → Text
code_or_internal none = text_of "internal_error"
code_or_internal (some t) = t

-- `row.error.get("failed_node") or row.failed_node`
abbrev pub node_or : Option Text → Option Text → Option Text
node_or none row = row
node_or (some []) row = row
node_or (some (c ∷ cs)) row = some (c ∷ cs)

abbrev pub payload_commit : Option ResultPayload → Option CommitResult
payload_commit none = none
payload_commit (some p) = some p.commit

abbrev pub suggestion_info : Option SuggestionPayload → Option SuggestionInfo
suggestion_info none = none
suggestion_info (some p) =
    some (record { gap = gap_of p.gap; message = message_or_empty p.message })

abbrev pub error_info : Bool → Option Text → Option StoredError → Option RequestErrorInfo
error_info retryable row_node none = none
error_info retryable row_node (some e) = some (record {
  code = code_or_internal e.code;
  failed_node = node_or e.failed_node row_node;
  retryable = retryable;
  message = message_or_empty e.message;
})

-- `_to_request_state`. An empty object, which nothing writes, is none.
unfoldable pub to_request_state : Codec → (String → Option StoredError) → RequestRow → RequestState
to_request_state c loads_error row = record {
  request_id = row.request_id;
  status = row.status;
  result = payload_commit (loaded c.loads_result row.result);
  suggestion = suggestion_info (loaded c.loads_suggestion row.suggestion);
  error = error_info row.retryable (read_text c row.failed_node) (loaded loads_error row.error);
}

abbrev pub found : {A : Type 0} → (RequestRow → A) → Option RequestRow → Answer A
found f none = refused request_not_found
found f (some row) = ready (f row)

-- The sweep is over all sessions; `none` is out of fuel for it.
unfoldable pub get_request_state :
    ℕ
    → Clock
    → Codec
    → (String → Option StoredError)
    → ℕ
    → ℕ
    → Db
    → Option (Answer RequestState × Db)
get_request_state fuel clock c loads_error user request db =
    after_sweep (λ d. (found (to_request_state c loads_error) (get_request user request d), d))
      (reconcile fuel clock.rounds 0 none db)

abbrev pub cancelled : Bool → Answer Bool
cancelled true = ready true
cancelled false = refused request_not_found

-- `true` stands for the `None` that is returned.
unfoldable pub cancel_request : ℕ → ℕ → ℕ → Db → Answer Bool × Db
cancel_request now user request db =
    let (stopped, d) = request_cancellation now user request db in (cancelled stopped, d)
