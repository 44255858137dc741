-- ===== src/Service/Errors.antt =====
-- errors.py: the classes of errors, and their form as an SSE event.
use folioo_ai.Base.{ℕ, Text, String, Bool, true, false, Option, none, some, text_of, [], ◌∷◌}

-- The subclasses of `ExperienceMapError`; `base_error` is the class itself.
pub data ErrorClass : Type 0 where
  unauthorized ticket_invalid ticket_expired session_forbidden : ErrorClass
  ticket_scope_forbidden session_not_found request_not_found : ErrorClass
  map_not_initialized session_busy idempotency_key_reused retry_not_allowed : ErrorClass
  retry_expired file_too_large unsupported_file_type invalid_request : ErrorClass
  validation_failed commit_conflict map_version_conflict request_id_reused : ErrorClass
  unknown_slot_id llm_error node_timeout stream_error lease_lost : ErrorClass
  request_cancelled db_constraint_violation base_error : ErrorClass

-- `SseErrorCode`
pub data SseCode : Type 0 where
  sse_validation_failed sse_commit_conflict sse_llm_error sse_node_timeout : SseCode
  sse_stream_error sse_db_constraint_violation sse_cancelled : SseCode

abbrev pub sse_code : ErrorClass → Option SseCode
sse_code validation_failed = some sse_validation_failed
sse_code commit_conflict = some sse_commit_conflict
sse_code map_version_conflict = some sse_commit_conflict
sse_code request_id_reused = some sse_commit_conflict
sse_code llm_error = some sse_llm_error
sse_code node_timeout = some sse_node_timeout
sse_code stream_error = some sse_stream_error
sse_code request_cancelled = some sse_cancelled
sse_code db_constraint_violation = some sse_db_constraint_violation
sse_code _ = none

-- `SSE_RETRYABLE`
abbrev pub sse_retryable : SseCode → Bool
sse_retryable sse_db_constraint_violation = false
sse_retryable sse_cancelled = false
sse_retryable _ = true

abbrev pub sse_text : SseCode → String
sse_text sse_validation_failed = "validation_failed"
sse_text sse_commit_conflict = "commit_conflict"
sse_text sse_llm_error = "llm_error"
sse_text sse_node_timeout = "node_timeout"
sse_text sse_stream_error = "stream_error"
sse_text sse_db_constraint_violation = "db_constraint_violation"
sse_text sse_cancelled = "cancelled"

abbrev pub status_code : ErrorClass → ℕ
status_code unauthorized = 401
status_code ticket_invalid = 401
status_code ticket_expired = 401
status_code session_forbidden = 403
status_code ticket_scope_forbidden = 403
status_code session_not_found = 404
status_code request_not_found = 404
status_code map_not_initialized = 404
status_code session_busy = 409
status_code idempotency_key_reused = 409
status_code retry_not_allowed = 409
status_code retry_expired = 410
status_code file_too_large = 413
status_code unsupported_file_type = 415
status_code invalid_request = 422
status_code validation_failed = 422
status_code commit_conflict = 409
status_code map_version_conflict = 409
status_code request_id_reused = 409
status_code unknown_slot_id = 422
status_code llm_error = 502
status_code node_timeout = 504
status_code stream_error = 500
status_code lease_lost = 409
status_code request_cancelled = 409
status_code db_constraint_violation = 500
status_code base_error = 500

-- `code`
abbrev pub code : ErrorClass → String
code unauthorized = "unauthorized"
code ticket_invalid = "ticket_invalid"
code ticket_expired = "ticket_expired"
code session_forbidden = "session_forbidden"
code ticket_scope_forbidden = "ticket_scope_forbidden"
code session_not_found = "session_not_found"
code request_not_found = "request_not_found"
code map_not_initialized = "map_not_initialized"
code session_busy = "session_busy"
code idempotency_key_reused = "idempotency_key_reused"
code retry_not_allowed = "retry_not_allowed"
code retry_expired = "retry_expired"
code file_too_large = "file_too_large"
code unsupported_file_type = "unsupported_file_type"
code invalid_request = "invalid_request"
code validation_failed = "validation_failed"
code commit_conflict = "commit_conflict"
code map_version_conflict = "map_version_conflict"
code request_id_reused = "request_id_reused"
code unknown_slot_id = "unknown_slot_id"
code llm_error = "llm_error"
code node_timeout = "node_timeout"
code stream_error = "stream_error"
code lease_lost = "lease_lost"
code request_cancelled = "cancelled"
code db_constraint_violation = "db_constraint_violation"
code base_error = "internal_error"

-- The class's `message`.
abbrev pub class_message : ErrorClass → String
class_message unauthorized = "인증에 실패했습니다."
class_message ticket_invalid = "유효하지 않은 티켓입니다."
class_message ticket_expired = "티켓이 만료되었습니다. 다시 시도해 주세요."
class_message session_forbidden = "해당 세션에 접근할 수 없습니다."
class_message ticket_scope_forbidden = "이 티켓으로는 턴을 실행할 수 없습니다."
class_message session_not_found = "세션을 찾을 수 없습니다."
class_message request_not_found = "요청을 찾을 수 없습니다."
class_message map_not_initialized = "경험 맵이 아직 준비되지 않았습니다."
class_message session_busy = "다른 요청을 처리 중입니다."
class_message idempotency_key_reused = "같은 요청 ID로 다른 내용이 전달되었습니다."
class_message retry_not_allowed = "재시도할 수 없는 요청입니다."
class_message retry_expired = "재시도 가능 시간이 지났습니다."
class_message file_too_large = "파일 크기가 제한을 초과했습니다."
class_message unsupported_file_type = "지원하지 않는 파일 형식입니다."
class_message invalid_request = "요청 형식이 올바르지 않습니다."
class_message validation_failed = "정리 결과 검증에 실패했습니다."
class_message commit_conflict = "경험 맵이 변경되어 반영하지 못했습니다. 다시 시도해 주세요."
class_message map_version_conflict = "경험 맵이 변경되어 반영하지 못했습니다. 다시 시도해 주세요."
class_message request_id_reused = "경험 맵이 변경되어 반영하지 못했습니다. 다시 시도해 주세요."
class_message unknown_slot_id = "템플릿 카탈로그가 최신 상태가 아닙니다."
class_message llm_error = "AI 처리 중 오류가 발생했습니다."
class_message node_timeout = "처리 시간이 초과되었습니다."
class_message stream_error = "응답 스트림 처리 중 오류가 발생했습니다. 다시 시도해 주세요."
class_message lease_lost = "요청 처리가 중단되었습니다. 다시 시도해 주세요."
class_message request_cancelled = "사용자 요청으로 처리가 중단되었습니다."
class_message db_constraint_violation = "데이터 제약 조건을 위반했습니다."
class_message base_error = "요청 처리 중 오류가 발생했습니다."

-- An error as it is raised: its class, and the message and the node given to `__init__`.
pub record Error : Type 0 where
  pub class : ErrorClass
  pub given_message : Option Text
  pub failed_node : Option String

abbrev pub error_of : ErrorClass → Error
error_of c = record { class = c; given_message = none; failed_node = none }

-- `message or self.__class__.message`
abbrev pub message_or : Option Text → Text → Text
message_or none t = t
message_or (some []) t = t
message_or (some (c ∷ cs)) t = c ∷ cs

abbrev pub message_of : Error → Text
message_of e = message_or e.given_message (text_of (class_message e.class))

abbrev pub code_retryable : Option SseCode → Bool
code_retryable none = false
code_retryable (some c) = sse_retryable c

-- `retryable`, which `LeaseLostError` overrides.
abbrev pub retryable : ErrorClass → Bool
retryable lease_lost = true
retryable c = code_retryable (sse_code c)

abbrev pub code_or : Option SseCode → String → String
code_or none s = s
code_or (some c) s = sse_text c

-- `SseErrorPayload`
pub record SseError : Type 0 where
  pub code : String
  pub failed_node : Option String
  pub retryable : Bool
  pub message : Text

abbrev pub to_sse_error : Error → SseError
to_sse_error e = record {
  code = code_or (sse_code e.class) (code e.class);
  failed_node = e.failed_node;
  retryable = retryable e.class;
  message = message_of e;
}
