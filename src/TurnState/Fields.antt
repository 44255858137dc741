-- ===== src/TurnState/Fields.antt =====
-- The keys of `ExperienceMapState` of state.py, and the defaults of the fields of a turn.
use folioo_ai.Base.{ℕ, Text, Bool, true, false, List, []}

pub data Key : Type 0 where
  user_id session_id turn_number active_gap : Key
  request_id request_hash user_message context_experience_id view : Key
  file_references extracted_files extracted_text file_content_truncated : Key
  intent current_node fallback_reason : Key
  map_version outline target_experience_alias alias_to_block_id alias_metadata : Key
  activity_tree_text block_id_to_experience_alias block_id_to_content activity_contexts : Key
  gap_answer_items new_items excluded_reasons file_lines file_assignments : Key
  file_excluded_count file_requested_excluded_count : Key
  structured_items refined_items gap_update_item commit_items dropped_items commit_result : Key
  commit_conflict_count commit_recovery_node gap_candidate gap_message suggestion : Key
  validation_errors repair_count failed_node node_retry_count : Key

-- A value: `None`, a text, a number, a flag, or a list or dict, of which `counts` are those of
-- `node_retry_count` by the node's number and the other ones are texts of their JSON.
pub data Value : Type 0 where
  null : Value
  text : Text → Value
  number : ℕ → Value
  flag : Bool → Value
  list : List Text → Value
  dict : List (Text × Text) → Value
  counts : List (ℕ × ℕ) → Value

-- `SESSION_FIELDS`
abbrev pub is_session_field : Key → Bool
is_session_field user_id = true
is_session_field session_id = true
is_session_field turn_number = true
is_session_field active_gap = true
is_session_field _ = false

-- `TURN_FIELD_DEFAULTS`. The four fields of the session have none there, and are not asked for.
abbrev pub turn_field_default : Key → Value
turn_field_default request_id = text []
turn_field_default request_hash = text []
turn_field_default file_references = list []
turn_field_default extracted_files = list []
turn_field_default file_content_truncated = flag false
turn_field_default outline = list []
turn_field_default alias_to_block_id = dict []
turn_field_default alias_metadata = dict []
turn_field_default block_id_to_experience_alias = dict []
turn_field_default block_id_to_content = dict []
turn_field_default activity_contexts = dict []
turn_field_default gap_answer_items = list []
turn_field_default new_items = list []
turn_field_default excluded_reasons = list []
turn_field_default file_lines = dict []
turn_field_default file_assignments = dict []
turn_field_default file_excluded_count = number 0
turn_field_default file_requested_excluded_count = number 0
turn_field_default structured_items = list []
turn_field_default refined_items = list []
turn_field_default commit_items = list []
turn_field_default dropped_items = list []
turn_field_default commit_conflict_count = number 0
turn_field_default validation_errors = list []
turn_field_default repair_count = number 0
turn_field_default node_retry_count = counts []
turn_field_default _ = null

-- `CLEANUP_FIELDS`
abbrev pub is_cleanup_field : Key → Bool
is_cleanup_field file_references = true
is_cleanup_field extracted_files = true
is_cleanup_field extracted_text = true
is_cleanup_field outline = true
is_cleanup_field file_lines = true
is_cleanup_field file_assignments = true
is_cleanup_field structured_items = true
is_cleanup_field refined_items = true
is_cleanup_field _ = false
