-- ===== src/Tests/Paths.antt =====
-- Tickets, the tree of a map and the state of a turn, on concrete inputs.
use folioo_ai.Base.{Text, ◌≡◌, refl, true, false, none, some, List, [], ◌∷◌, text_of}
use folioo_ai.RateLimit.Limiter.{check}
use folioo_ai.Ticket.Verify.{TicketPayload, turn, claims, extract_bearer_token, verify_ticket}
use folioo_ai.Ticket.Middleware.{Scope, Guard, calls_app, call, requires_ticket, extract_session_id}
use folioo_ai.MapContext.Snapshot.{
  MapBlockRow, Forest, end, block, forest, build_map_snapshot, by_id, walk,
}
use folioo_ai.MapContext.Activity.{ActivityContext, get_activity_context, render, label}
use folioo_ai.MapContext.Laws.Scope.{IsScoped, get_activity_context-IsScoped}
use folioo_ai.MapContext.Laws.Whole.{build_map_snapshot-walk}
use folioo_ai.TurnState.Fields.{
  active_gap, user_id, turn_number, structured_items, text, number, list,
}
use folioo_ai.TurnState.Turns.{State, Input, start_turn, cleanup_after_success, record_node_failure}
use folioo_ai.TurnState.Laws.{with_gap_of, node_writes, stays, fails, cleans, start_turn-Works}

abbrev session_id : Text
session_id = 55 ∷ 48 ∷ []

abbrev path : Text
path = text_of "/api/v1/experience-map/sessions/70/chat/stream"

abbrev payload : TicketPayload
payload = record {
  well_typed = true;
  sub = 7;
  sid = session_id;
  bid = 51 ∷ [];
  scope = turn;
  rid = some (53 ∷ []);
}

abbrev scope : Scope
scope = record {
  is_http = true;
  is_options = false;
  path = path;
  authorization = some (text_of "Bearer abc");
}

-- Every token is this payload's.
abbrev guard : Guard
guard = record {
  has_secret = true;
  decode = λ token. claims payload;
  limits = record { max_requests = 2; window_seconds = 60 };
  now = 1_000;
}

admits : (call guard scope []).0 ≡ calls_app (some payload)
unfolding call requires_ticket extract_session_id extract_bearer_token verify_ticket check
admits = refl

abbrev root : MapBlockRow
root = record {
  block_id = 1;
  parent_id = none;
  level = 1;
  kind = 0;
  position = 0;
  content = some (71 ∷ []);
  placeholder = none;
  is_text_editable = false;
}

abbrev activity : MapBlockRow
activity = record root { block_id = 2; parent_id = some 1; level = 2 }

abbrev first : MapBlockRow
first = record activity { block_id = 4; parent_id = some 2; level = 3; position = 1 }

abbrev second : MapBlockRow
second = record first { block_id = 3; position = 2; content = none }

abbrev rows : List MapBlockRow
rows = second ∷ activity ∷ first ∷ root ∷ []

abbrev roots : Forest
roots = block root (block activity (block first end (block second end end)) end) end

built : build_map_snapshot rows ≡ some roots
unfolding build_map_snapshot forest
built = refl

build_map_snapshot-walk_example : by_id 3 (walk roots) ≡ by_id 3 rows
build_map_snapshot-walk_example = build_map_snapshot-walk rows roots built 3

-- The activity is `exp_1`, its blocks are `b_1` and `b_2`.
abbrev context : ActivityContext
context = record {
  activity_alias = 2;
  activity_id = 2;
  tree = (0, 2, label activity) ∷ (1, 3, label first) ∷ (1, 5, label second) ∷ [];
  alias_to_block_id = (2, 2) ∷ (3, 4) ∷ (5, 3) ∷ [];
  alias_metadata =
      (
        2,
        record {
          block_id = 2;
          parent_alias = none;
          level = 2;
          kind = 0;
          placeholder = none;
          is_text_editable = false;
        },
      )
      ∷ (
        3,
        record {
          block_id = 4;
          parent_alias = some 2;
          level = 3;
          kind = 0;
          placeholder = none;
          is_text_editable = false;
        },
      )
      ∷ (
        5,
        record {
          block_id = 3;
          parent_alias = some 2;
          level = 3;
          kind = 0;
          placeholder = none;
          is_text_editable = false;
        },
      )
      ∷ [];
}

shown : get_activity_context 2 roots ≡ some context
unfolding get_activity_context render
shown = refl

get_activity_context-IsScoped_example : IsScoped 2 roots context
get_activity_context-IsScoped_example = get_activity_context-IsScoped 2 roots context shown

-- The session's second turn, with drafts of the first one.
abbrev state : State
state user_id = some (text (55 ∷ []))
state turn_number = some (number 1)
state structured_items = some (list ((49 ∷ []) ∷ []))
state _ = none

abbrev input : Input
input = record {
  request_id = 53 ∷ [];
  request_hash = 54 ∷ [];
  user_message = none;
  context_experience_id = none;
  view = none;
}

counted : start_turn input state turn_number ≡ some (number 2)
unfolding start_turn
counted = refl

-- A node asks for more, and the turn fails once and is cleaned up.
abbrev asked : State
asked active_gap = some (text (56 ∷ []))
asked k = state k

abbrev ended : State
ended = cleanup_after_success (record_node_failure 4 (52 ∷ []) asked)

start_turn-Works_example :
    start_turn input ended structured_items
    ≡ with_gap_of ended (start_turn input state) structured_items
start_turn-Works_example =
    start_turn-Works input state ended
      (cleans _ (
        fails asked 4 (52 ∷ [])
          (node_writes state asked stays (record { user = refl; session = refl; count = refl }))))
      structured_items
