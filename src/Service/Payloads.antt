-- ===== src/Service/Payloads.antt =====
-- What `_execute` keeps of the events of a run, the columns it is written to, and `_replay`.
use folioo_ai.Base.{ℕ, Text, String, false, Option, none, some, List, [], ◌∷◌, ◌++◌, map, text_of}
use folioo_ai.Repository.Rows.{RequestRow}
use folioo_ai.Repository.Ownership.{Completion}
use folioo_ai.Commit.Node.{CommitResult}
use folioo_ai.Commit.Suggestion.{ActiveGap}
use folioo_ai.Commit.Coordinator.{
  Event, commit_running, commit_completed, node_status, commit_result_event, message_complete,
  suggestion_ready, CompletedMessage, Kind, result_kind, suggestion_kind, fallback_kind, result_of,
  suggestion_of,
}
use folioo_ai.Service.Errors.{SseError}

-- `result_payload`: the dump of a commit result, with its text once that is known.
pub record ResultPayload : Type 0 where
  pub commit : CommitResult
  pub ai_response : Option Text

-- `suggestion_payload`: `none` is a missing key, `some none` a gap that is `None`.
pub record SuggestionPayload : Type 0 where
  pub gap : Option (Option ActiveGap)
  pub message : Option Text

pub record Payloads : Type 0 where
  pub result : Option ResultPayload
  pub suggestion : Option SuggestionPayload
  pub fallback : Option Text

abbrev pub no_payloads : Payloads
no_payloads = record { result = none; suggestion = none; fallback = none }

abbrev pub with_response : Text → Option ResultPayload → Option ResultPayload
with_response t none = none
with_response t (some p) = some (record p { ai_response = some t })

-- `{**(suggestion_payload or {}), "message": …}`
abbrev pub with_message : Text → Option SuggestionPayload → SuggestionPayload
with_message t none = record { gap = none; message = some t }
with_message t (some p) = record p { message = some t }

abbrev pub absorb_message : Kind → Text → Payloads → Payloads
absorb_message result_kind t p = record p { result = with_response t p.result }
absorb_message suggestion_kind t p = record p { suggestion = some (with_message t p.suggestion) }
absorb_message fallback_kind t p = record p { fallback = some t }

-- The `if` chain over one event.
abbrev pub absorb : Event → Payloads → Payloads
absorb (commit_result_event r) p = record p {
  result = some (record { commit = r; ai_response = none });
}
absorb (suggestion_ready g) p = record p {
  suggestion = some (record { gap = some g; message = none });
}
absorb (message_complete m) p = absorb_message m.response_kind m.ai_response p
absorb commit_running p = p
absorb commit_completed p = p
absorb (node_status _) p = p

abbrev pub absorb_all : List Event → Payloads → Payloads
absorb_all [] p = p
absorb_all (e ∷ es) p = absorb_all es (absorb e p)

-- How values are written to the text and jsonb columns, and read from them.
pub record Codec : Type 0 where
  pub dumps_result : ResultPayload → String
  pub loads_result : String → Option ResultPayload
  pub dumps_suggestion : SuggestionPayload → String
  pub loads_suggestion : String → Option SuggestionPayload
  pub dumps_error : SseError → String
  pub write : Text → String
  pub read : String → Text

abbrev pub version_of : Option ResultPayload → Option ℕ
version_of none = none
version_of (some p) = some p.commit.map_version

abbrev pub dumped : {A : Type 0} → (A → String) → Option A → Option String
dumped f none = none
dumped f (some a) = some (f a)

-- The arguments of `mark_request_completed`.
abbrev pub completion_of : Codec → Payloads → Completion
completion_of c p = record {
  result = dumped c.dumps_result p.result;
  suggestion = dumped c.dumps_suggestion p.suggestion;
  committed_version = version_of p.result;
  fallback_message = dumped c.write p.fallback;
}

-- The events of `stream`: those of a run between its own.
pub data StreamEvent : Type 0 where
  processing_started : ℕ → StreamEvent
  sent : Event → StreamEvent
  error_event : SseError → StreamEvent
  processing_complete : ℕ → StreamEvent

abbrev pub loaded : {A : Type 0} → (String → Option A) → Option String → Option A
loaded f none = none
loaded f (some s) = f s

-- "정리를 완료했어요."
abbrev pub default_response : Text
default_response = text_of "정리를 완료했어요."

-- `… or "정리를 완료했어요."`
abbrev pub response_or_default : Option Text → Text
response_or_default none = default_response
response_or_default (some []) = default_response
response_or_default (some (c ∷ cs)) = c ∷ cs

abbrev pub replay_result : RequestRow → Option ResultPayload → List Event
replay_result row none = []
replay_result row (some p) =
    commit_result_event p.commit
    ∷ message_complete
        (result_of row.request_id row.session_id (response_or_default p.ai_response) p.commit)
    ∷ []

-- `row.suggestion.get("gap")`
abbrev pub gap_of : Option (Option ActiveGap) → Option ActiveGap
gap_of none = none
gap_of (some g) = g

-- `row.suggestion.get("message", "")`
abbrev pub message_or_empty : Option Text → Text
message_or_empty none = []
message_or_empty (some t) = t

abbrev pub replay_suggestion : RequestRow → Option SuggestionPayload → List Event
replay_suggestion row none = []
replay_suggestion row (some p) =
    suggestion_ready (gap_of p.gap)
    ∷ message_complete (suggestion_of row.request_id row.session_id (message_or_empty p.message))
    ∷ []

abbrev pub fallback_of : ℕ → ℕ → Text → CompletedMessage
fallback_of request session text = record {
  request_id = request;
  session_id = session;
  response_kind = fallback_kind;
  ai_response = text;
  committed = false;
  map_version = none;
  can_revert = false;
}

abbrev pub replay_text : RequestRow → Option Text → List Event
replay_text row none = []
replay_text row (some []) = []
replay_text row (some (c ∷ cs)) =
    message_complete (fallback_of row.request_id row.session_id (c ∷ cs)) ∷ []

-- The fallback counts only without a result and a suggestion.
abbrev pub replay_fallback :
    RequestRow → Option ResultPayload → Option SuggestionPayload → Option Text → List Event
replay_fallback row (some _) s t = []
replay_fallback row none (some _) t = []
replay_fallback row none none t = replay_text row t

abbrev pub read_text : Codec → Option String → Option Text
read_text c none = none
read_text c (some s) = some (c.read s)

abbrev pub replayed :
    RequestRow → Option ResultPayload → Option SuggestionPayload → Option Text → List Event
replayed row r s t = replay_result row r ++ (replay_suggestion row s ++ replay_fallback row r s t)

-- `_replay`, before the event that ends it. An empty object, which nothing writes, is none.
unfoldable pub replay : Codec → RequestRow → List StreamEvent
replay c row =
    map sent (
      replayed row (loaded c.loads_result row.result) (loaded c.loads_suggestion row.suggestion)
        (read_text c row.fallback_message))
    ++ (processing_complete row.request_id ∷ [])
