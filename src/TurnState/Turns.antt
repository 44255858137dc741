-- ===== src/TurnState/Turns.antt =====
-- `reset_turn_fields`, `start_turn`, `cleanup_after_success` and `record_node_failure` of state.py.
use folioo_ai.Base.{ℕ, ◌+◌, Text, Option, none, some, List, [], ◌∷◌, ◌==◌, if◌then◌else◌}
use folioo_ai.TurnState.Fields.{
  Key, turn_number, request_id, request_hash, user_message, context_experience_id, view,
  failed_node, node_retry_count, Value, null, text, number, counts, is_session_field,
  turn_field_default, is_cleanup_field,
}

-- A dict with these keys: what is under a key, if it is there.
abbrev pub State : Type 0
State = Key → Option Value

unfoldable pub reset_turn_fields : State → State
reset_turn_fields s k = if is_session_field k then s k else some (turn_field_default k)

abbrev pub text_or_null : Option Text → Value
text_or_null none = null
text_or_null (some t) = text t

-- The arguments of `start_turn` beside the state.
pub record Input : Type 0 where
  pub request_id : Text
  pub request_hash : Text
  pub user_message : Option Text
  pub context_experience_id : Option Text
  pub view : Option Text

-- `state.get("turn_number", 0) + 1`. A value that is no number raises in Python.
abbrev pub next_turn : Option Value → Value
next_turn (some (number n)) = number (n + 1)
next_turn _ = number 1

-- What `start_turn` writes under a key, after the reset.
abbrev pub started_field : Input → State → Key → Option Value
started_field i s request_id = some (text i.request_id)
started_field i s request_hash = some (text i.request_hash)
started_field i s user_message = some (text_or_null i.user_message)
started_field i s context_experience_id = some (text_or_null i.context_experience_id)
started_field i s view = some (text_or_null i.view)
started_field i s turn_number = some (next_turn (s turn_number))
started_field i s k = reset_turn_fields s k

unfoldable pub start_turn : Input → State → State
start_turn i s k = started_field i s k

unfoldable pub cleanup_after_success : State → State
cleanup_after_success s k = if is_cleanup_field k then some (turn_field_default k) else s k

-- `counts[node] = counts.get(node, 0) + 1`
abbrev pub count_up : ℕ → List (ℕ × ℕ) → List (ℕ × ℕ)
count_up node [] = (node, 1) ∷ []
count_up node ((k, n) ∷ rest) = if k == node then (k, n + 1) ∷ rest else (k, n) ∷ count_up node rest

-- `dict(state.get("node_retry_count") or {})`
abbrev pub counts_of : Option Value → List (ℕ × ℕ)
counts_of (some (counts l)) = l
counts_of _ = []

abbrev pub recorded : ℕ → Text → State → Key → Option Value
recorded node name s failed_node = some (text name)
recorded node name s node_retry_count =
    some (counts (count_up node (counts_of (s node_retry_count))))
recorded node name s k = s k

-- A node is its number and its name.
unfoldable pub record_node_failure : ℕ → Text → State → State
record_node_failure node name s k = recorded node name s k
