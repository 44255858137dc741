-- ===== src/Service/Laws/Restore.antt =====
-- What a client restores from a stored request is what the replay of it sends.
use folioo_ai.Base.{String, ◌≡◌, Option, none, some, List, [], ◌∷◌, arith, Option-cases, inl, inr}
use folioo_ai.Repository.Rows.{RequestRow}
use folioo_ai.Commit.Node.{CommitResult}
use folioo_ai.Commit.Suggestion.{ActiveGap}
use folioo_ai.Commit.Coordinator.{commit_result_event, suggestion_ready}
use folioo_ai.Service.Payloads.{Codec, StreamEvent, sent, loaded, read_text, replay}
use folioo_ai.Service.Restore.{StoredError, SuggestionInfo, to_request_state}

-- The first commit result and the first gap among the events of a stream.
abbrev pub result_in : List StreamEvent → Option CommitResult
result_in [] = none
result_in (sent (commit_result_event r) ∷ es) = some r
result_in (_ ∷ es) = result_in es

abbrev pub gap_in : List StreamEvent → Option (Option ActiveGap)
gap_in [] = none
gap_in (sent (suggestion_ready g) ∷ es) = some g
gap_in (_ ∷ es) = gap_in es

abbrev pub gap_shown : Option SuggestionInfo → Option (Option ActiveGap)
gap_shown none = none
gap_shown (some s) = some s.gap

-- For every stored row, the restored result is the commit result that the replay sends, and the
-- restored gap is the gap that it sends.
pub to_request_state-replay :
    (c : Codec) (loads_error : String → Option StoredError) (row : RequestRow)
    → (result_in (replay c row) ≡ (to_request_state c loads_error row).result)
      × (gap_in (replay c row) ≡ gap_shown (to_request_state c loads_error row).suggestion)
unfolding replay to_request_state
to_request_state-replay c loads_error row = elim (Option-cases (loaded c.loads_result row.result)) [
  | inl r ↦ elim (Option-cases (loaded c.loads_suggestion row.suggestion)) [
    | inl s ↦ elim (Option-cases (read_text c row.fallback_message)) [
      | inl t ↦ (ground (arith, r, s, t), ground (arith, r, s, t))
      | inr ([], t) ↦ (ground (arith, r, s, t), ground (arith, r, s, t))
      | inr (x ∷ xs, t) ↦ (ground (arith, r, s, t), ground (arith, r, s, t))
    ]
    | inr (p, s) ↦ (ground (arith, r, s), ground (arith, r, s))
  ]
  | inr (q, r) ↦ elim (Option-cases (loaded c.loads_suggestion row.suggestion)) [
    | inl s ↦ (ground (arith, r, s), ground (arith, r, s))
    | inr (p, s) ↦ (ground (arith, r, s), ground (arith, r, s))
  ]
]
