-- ===== src/Commit/Coordinator.antt =====
-- `coordinate` of coordinator.py: the commit with its recoveries, then the gap analysis, as the
-- events in their order.
use folioo_ai.Base.{
  ℕ, zero, suc, Text, Bool, true, false, Option, none, some, List, [], ◌∷◌, if◌then◌else◌,
}
use folioo_ai.Commit.Node.{
  State, Recovery, CommitResult, Raised, value_error, Client, Outcome, done, raises, commit_changes,
  required_string,
}
use folioo_ai.Commit.Suggestion.{ActiveGap, Suggestion, GapState, build_suggestion}

-- `response_kind`
pub data Kind : Type 0 where
  result_kind suggestion_kind fallback_kind : Kind

pub record CompletedMessage : Type 0 where
  pub request_id : ℕ
  pub session_id : ℕ
  pub response_kind : Kind
  pub ai_response : Text
  pub committed : Bool
  pub map_version : Option ℕ
  pub can_revert : Bool

abbrev pub result_of : ℕ → ℕ → Text → CommitResult → CompletedMessage
result_of request session text r = record {
  request_id = request;
  session_id = session;
  response_kind = result_kind;
  ai_response = text;
  committed = true;
  map_version = some r.map_version;
  can_revert = r.can_revert;
}

abbrev pub suggestion_of : ℕ → ℕ → Text → CompletedMessage
suggestion_of request session text = record {
  request_id = request;
  session_id = session;
  response_kind = suggestion_kind;
  ai_response = text;
  committed = false;
  map_version = none;
  can_revert = false;
}

-- `ExperienceMapEvent`; `node_status` is the status of another node.
pub data Event : Type 0 where
  commit_running commit_completed : Event
  node_status : ℕ → Event
  commit_result_event : CommitResult → Event
  message_complete : CompletedMessage → Event
  suggestion_ready : Option ActiveGap → Event

-- What one run meets: the main server at each run of the commit node, `recover_commit` (whose inner
-- `none` is an error), the gap analysis of a state (`none` is an error), the text of the result, a
-- new UUID, and whether there is a `save_active_gap`.
pub record World : Type 0 where
  pub client : ℕ → Client
  pub recover_commit : Option (State → Recovery → Option State)
  pub run_gap : State → Option GapState
  pub build_result_response : State → CommitResult → Text
  pub uuid : ℕ
  pub saves_gap : Bool

-- How the commit ends: the state that the gap analysis was started on and the committed one, or an
-- error.
pub data Committed : Type 0 where
  committed_from : State → State → Committed
  commit_raised : Raised → Committed

abbrev pub after_recovery : (State → Option Committed) → Option State → Option Committed
after_recovery again none = some (commit_raised Raised.other_error)
after_recovery again (some s) = again s

abbrev pub recover :
    (State → Option Committed)
    → Option (State → Recovery → Option State)
    → State
    → Recovery
    → Option Committed
recover again none t r = some (commit_raised Raised.other_error)
recover again (some f) t r = after_recovery again (f t r)

abbrev pub after_round :
    World → (State → Option Committed) → State → State → Option Recovery → Option Committed
after_round w again s t none = some (committed_from s t)
after_round w again s t (some r) = recover again w.recover_commit t r

abbrev pub after_commit : World → (State → Option Committed) → State → Outcome → Option Committed
after_commit w again s (raises e) = some (commit_raised e)
after_commit w again s (done t) = after_round w again s t t.commit_recovery_node

-- The `while` loop, with the first commit before it. `none` is out of fuel.
unfoldable pub commit_loop : ℕ → World → ℕ → State → Option Committed
commit_loop zero w k s = none
commit_loop (suc fuel) w k s =
    after_commit w (λ t. commit_loop fuel w (suc k) t) s (commit_changes (w.client k) s)

-- The events, the gaps given to `save_active_gap`, and the error that ends the run, if any.
pub record Run : Type 0 where
  pub events : List Event
  pub saved : List (Option ActiveGap)
  pub ended : Option Raised

abbrev pub emit : Event → Run → Run
emit e r = record r { events = e ∷ r.events }

abbrev pub stop_with : Option Raised → Run
stop_with e = record { events = []; saved = []; ended = e }

-- `_required_string(…, "request_id")` and `_required_string(…, "session_id")`.
abbrev pub ids_of : State → Option (ℕ × ℕ)
ids_of s = elim (required_string s.request_id) [
  | none ↦ none
  | some r ↦ elim (required_string s.session_id) [ none ↦ none | some i ↦ some (r, i) ]
]

-- `_save_active_gap_safely`: an error in it, also a missing id, is only logged.
abbrev pub save_active_gap_safely : World → State → Option ActiveGap → Run → Run
save_active_gap_safely w s gap run =
    if w.saves_gap
    then elim (required_string s.user_id) [
      | none ↦ run
      | some _ ↦ elim (required_string s.session_id) [
        | none ↦ run
        | some _ ↦ record run { saved = gap ∷ run.saved }
      ]
    ]
    else run

abbrev pub suggestion_message : Suggestion → Option (ℕ × ℕ) → Run
suggestion_message g none = stop_with (some value_error)
suggestion_message g (some (request, session)) =
    emit (message_complete (suggestion_of request session g.message)) (stop_with none)

-- The last two events. A gap that is no `SuggestionGap` raises outside of the `try`, after the gap was
-- saved.
abbrev pub suggestion_events : Suggestion → Option ActiveGap → Option (ℕ × ℕ) → Run
suggestion_events x none ids = emit (suggestion_ready none) (suggestion_message x ids)
suggestion_events x (some gap) ids =
    if x.is_gap
    then emit (suggestion_ready (some gap)) (suggestion_message x ids)
    else stop_with (some value_error)

-- The end of the run, from the gap state that has its suggestion.
abbrev pub finish_gap : World → State → Option GapState → Run
finish_gap w s none = save_active_gap_safely w s none (stop_with none)
finish_gap w s (some g) = elim g.suggestion [
  | none ↦ stop_with (some value_error)
  | some x ↦ save_active_gap_safely w s g.active_gap (suggestion_events x x.gap (ids_of s))
]

-- The suggestion of the analysis, or the one that is built now.
abbrev pub complete_gap : World → GapState → Option Suggestion → Option GapState
complete_gap w g (some x) = some g
complete_gap w g none = build_suggestion w.uuid g

abbrev pub gap_state : World → State → Option GapState → Option GapState
gap_state w t none = none
gap_state w t (some g) = complete_gap w (record g { commit_result = t.commit_result }) g.suggestion

abbrev pub result_message : World → State → State → State → CommitResult → Option (ℕ × ℕ) → Run
result_message w s from t r none = stop_with (some value_error)
result_message w s from t r (some (request, session)) =
    emit (message_complete (result_of request session (w.build_result_response t r) r))
      (finish_gap w s (gap_state w t (w.run_gap from)))

abbrev pub report : World → State → State → State → Option CommitResult → Run
report w s from t none = stop_with (some value_error)
report w s from t (some r) = emit (commit_result_event r) (result_message w s from t r (ids_of s))

abbrev pub after_loop : World → State → Committed → Run
after_loop w s (commit_raised e) = stop_with (some e)
after_loop w s (committed_from from t) = emit commit_completed (report w s from t t.commit_result)

abbrev pub coordinate_from : World → State → Option Committed → Option Run
coordinate_from w s none = none
coordinate_from w s (some c) = some (emit commit_running (after_loop w s c))

-- `none` is out of fuel.
unfoldable pub coordinate : ℕ → World → State → Option Run
coordinate fuel w s = coordinate_from w s (commit_loop fuel w 0 s)
