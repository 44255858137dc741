-- ===== src/Service/Execute/Message.antt =====
-- `_save_message` of service.py.
use folioo_ai.Base.{
  ℕ, Text, String, Bool, true, false, Option, none, some, List, [], ◌∷◌, map, if◌then◌else◌,
  text_of,
}
use folioo_ai.Repository.Rows.{Db}
use folioo_ai.Repository.Messages.{NewMessage, MessageTable, save_message}
use folioo_ai.Kakao.Callback.{build_summary}
use folioo_ai.Service.Payloads.{
  Codec, Payloads, ResultPayload, SuggestionPayload, dumped, StreamEvent,
}
use folioo_ai.Service.Prepare.Request.{PreparedRequest, StoredFile, Channel, web, kakao}

-- What the calls of a run meet: the columns' texts, whether `_build_state` raises nothing, the
-- server's time, the time to live of a retry, and whether the table of messages takes a row.
pub record Env : Type 0 where
  pub codec : Codec
  pub builds_state : Bool
  pub now : ℕ
  pub retry_ttl : ℕ
  pub saves_messages : Bool

-- The tables, and the requests whose usage was reported as failed.
pub record Store : Type 0 where
  pub db : Db
  pub messages : MessageTable
  pub refunds : List (ℕ × ℕ)

-- The events that were sent, and whether an exception that nothing catches ends them.
pub record Sent : Type 0 where
  pub events : List StreamEvent
  pub crashed : Bool

abbrev pub attachments_of : List StoredFile → List (String × String)
attachments_of [] = []
attachments_of (f ∷ fs) = (f.filename, f.content_type) ∷ attachments_of fs

-- `if text`
abbrev pub keep_text : Option Text → List Text → List Text
keep_text none ts = ts
keep_text (some []) ts = ts
keep_text (some (c ∷ cs)) ts = (c ∷ cs) ∷ ts

abbrev pub result_text : Option ResultPayload → Option Text
result_text none = none
result_text (some p) = p.ai_response

abbrev pub suggestion_text : Option SuggestionPayload → Option Text
suggestion_text none = none
suggestion_text (some p) = p.message

abbrev pub ai_responses : Option ResultPayload → Option SuggestionPayload → Option Text → List Text
ai_responses r s extra =
    keep_text (result_text r) (keep_text (suggestion_text s) (keep_text extra []))

-- `FAILURE_TEXT` of kakao/callback.py
abbrev pub failure_text : Text
failure_text = text_of "앗, 작업 중 오류가 발생했어요.\n웹에서 다시 시도해주세요."

-- The history of a KakaoTalk turn has only the summary that was sent.
abbrev pub responses_of : Channel → Bool → List Text → List Text
responses_of web failed ts = ts
responses_of kakao true ts = failure_text ∷ []
responses_of kakao false ts = build_summary (map some ts) ∷ []

abbrev pub channel_text : Channel → String
channel_text web = "WEB"
channel_text kakao = "KAKAO"

abbrev pub status_text : Bool → String
status_text true = "failed"
status_text false = "completed"

abbrev pub new_message : Env → PreparedRequest → Payloads → Bool → Option Bool → NewMessage
new_message v p x failed can_revert = record {
  user_message = dumped v.codec.write p.user_message;
  ai_responses =
      map v.codec.write
        (responses_of p.channel failed (ai_responses x.result x.suggestion x.fallback));
  attachments = some (attachments_of p.stored_files);
  status = status_text failed;
  can_revert = can_revert;
  channel = channel_text p.channel;
}

-- `_save_message`: an error of the table is only logged. `extra_message` is the fallback's place.
abbrev pub save_turn :
    Env → PreparedRequest → Payloads → Bool → Option Bool → MessageTable → MessageTable
save_turn v p x failed can_revert t =
    if v.saves_messages
    then save_message v.now p.user_id p.session_id p.request_id
        (new_message v p x failed can_revert) t
    else t

abbrev pub revert_of : Option ResultPayload → Option Bool
revert_of none = none
revert_of (some p) = some p.commit.can_revert
