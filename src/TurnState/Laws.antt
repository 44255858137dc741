-- ===== src/TurnState/Laws.antt =====
-- A turn starts from the session alone.
use folioo_ai.Base.{ℕ, Text, Option, ◌≡◌, refl, ◌∙◌, arith}
use folioo_ai.TurnState.Fields.{Key, user_id, session_id, turn_number, active_gap, Value}
use folioo_ai.TurnState.Turns.{
  State, Input, reset_turn_fields, start_turn, cleanup_after_success, record_node_failure,
}

-- Who the state is of, and the count of its turns: the two states agree on them.
pub record SameTurn (s t : State) : Type 0 where
  pub user : s user_id ≡ t user_id
  pub session : s session_id ≡ t session_id
  pub count : s turn_number ≡ t turn_number

-- What happens to the state of a turn: a node writes what it likes beside the user, the session and
-- the count (build_suggestion writes the active gap), a failure is recorded, or the turn is cleaned
-- up.
pub data Works (s : State) : State → Type 0 where
  stays : Works s s
  node_writes : (t u : State) → Works s t → SameTurn u t → Works s u
  fails :
      (t : State) (node : ℕ) (name : Text) → Works s t → Works s (record_node_failure node name t)
  cleans : (t : State) → Works s t → Works s (cleanup_after_success t)

Works-SameTurn : (s t : State) → Works s t → SameTurn t s
unfolding cleanup_after_success record_node_failure
Works-SameTurn s _ stays = record { user = refl; session = refl; count = refl }
Works-SameTurn s _ (node_writes t u w h) =
    let a = Works-SameTurn s t w in
    record { user = h.user ∙ a.user; session = h.session ∙ a.session; count = h.count ∙ a.count }
Works-SameTurn s _ (fails t node name w) =
    let a = Works-SameTurn s t w in record { user = a.user; session = a.session; count = a.count }
Works-SameTurn s _ (cleans t w) =
    let a = Works-SameTurn s t w in record { user = a.user; session = a.session; count = a.count }

-- What the next turn has under a key: the gap that the last turn left, and otherwise the given.
abbrev pub with_gap_of : State → State → Key → Option Value
with_gap_of t fresh active_gap = t active_gap
with_gap_of t fresh k = fresh k

-- Whatever a turn did to the state, by its nodes, which leave the user, the session and the count
-- of turns alone, by the record of failures and by the cleanup: the next turn starts with the gap
-- that it left as the active one, and under every other key with what it would have from the state
-- before, so that nothing else is carried over.
pub start_turn-Works :
    (i : Input) (s t : State)
    → Works s t
    → (k : Key) → start_turn i t k ≡ with_gap_of t (start_turn i s) k
unfolding start_turn reset_turn_fields
start_turn-Works i s t w k =
    let a = Works-SameTurn s t w in ground (arith, a.user, a.session, a.count)
