-- ===== src/Ticket/Verify.antt =====
-- ticket.py. What PyJWT says of a token is a parameter.
use folioo_ai.Base.{
  same_text, ℕ, zero, suc, ◌+◌, Text, strip, Bool, true, false, not, ◌&&◌, Option, none, some, [],
  ◌∷◌, ◌==◌, leb, if◌then◌else◌, text_of, map,
}
use folioo_ai.Service.Errors.{
  ErrorClass, ticket_invalid, ticket_expired, session_forbidden, Error, error_of,
}

pub data TicketScope : Type 0 where
  turn read : TicketScope

abbrev pub is_turn_scope : TicketScope → Bool
is_turn_scope turn = true
is_turn_scope read = false

-- The claims of a token, and pydantic's verdict on their presence and types. `sub` is the number
-- of a user.
pub record TicketPayload : Type 0 where
  pub well_typed : Bool
  pub sub : ℕ
  pub sid : Text
  pub bid : Text
  pub scope : TicketScope
  pub rid : Option Text

-- `not not self.rid`
abbrev pub has_rid : Option Text → Bool
has_rid none = false
has_rid (some []) = false
has_rid (some (c ∷ cs)) = true

-- `_check_rid_matches_scope`: true where it raises nothing.
abbrev pub check_rid_matches_scope : TicketScope → Option Text → Bool
check_rid_matches_scope turn rid = has_rid rid
check_rid_matches_scope read rid = not (has_rid rid)

-- What `jwt.decode` did: its claims, `ExpiredSignatureError`, another `InvalidTokenError`, or any
-- other exception.
pub data Decoded : Type 0 where
  claims : TicketPayload → Decoded
  expired invalid breaks : Decoded

-- The result of a check: a value, an `ExperienceMapError`, or another exception.
pub data Checked (A : Type 0) : Type 0 where
  passed : A → Checked A
  rejects : Error → Checked A
  crashes : Checked A

-- A letter of `str.lower`, as far as it can meet an ASCII letter.
abbrev pub lower : ℕ → ℕ
lower c = if leb 65 c && leb c 90 then c + 32 else c

abbrev pub starts_with : Text → Text → Bool
starts_with [] t = true
starts_with (p ∷ ps) [] = false
starts_with (p ∷ ps) (c ∷ cs) = p == c && starts_with ps cs

-- `text[n:]`
abbrev pub text_from : ℕ → Text → Text
text_from zero t = t
text_from (suc n) [] = []
text_from (suc n) (c ∷ cs) = text_from n cs

abbrev pub bearer_prefix : Text
bearer_prefix = text_of "bearer "

abbrev pub said : ErrorClass → Text → Error
said c message = record { class = c; given_message = some message; failed_node = none }

abbrev pub nonempty_token : Text → Checked Text
nonempty_token [] = rejects (said ticket_invalid (text_of "티켓이 비어 있습니다."))
nonempty_token (c ∷ cs) = passed (c ∷ cs)

abbrev pub bearer_token : Text → Checked Text
bearer_token header =
    if starts_with bearer_prefix (map lower header)
    then nonempty_token (strip (text_from 7 header))
    else rejects (said ticket_invalid (text_of "Bearer 형식이 아닙니다."))

unfoldable pub extract_bearer_token : Option Text → Checked Text
extract_bearer_token none = rejects (said ticket_invalid (text_of "인증 헤더가 없습니다."))
extract_bearer_token (some []) = rejects (said ticket_invalid (text_of "인증 헤더가 없습니다."))
extract_bearer_token (some (c ∷ cs)) = bearer_token (c ∷ cs)

abbrev pub is_payload : TicketPayload → Bool
is_payload p = p.well_typed && check_rid_matches_scope p.scope p.rid

abbrev pub check_payload : Text → TicketPayload → Checked TicketPayload
check_payload session_id p =
    if is_payload p
    then (if same_text p.sid session_id then passed p else rejects (error_of session_forbidden))
    else rejects (said ticket_invalid (text_of "티켓 payload 형식이 올바르지 않습니다."))

abbrev pub check_decoded : Text → Decoded → Checked TicketPayload
check_decoded session_id expired = rejects (error_of ticket_expired)
check_decoded session_id invalid = rejects (error_of ticket_invalid)
check_decoded session_id breaks = crashes
check_decoded session_id (claims p) = check_payload session_id p

-- `decode` is `jwt.decode` under the secret and the one algorithm.
unfoldable pub verify_ticket : (Text → Decoded) → Text → Text → Checked TicketPayload
verify_ticket decode token session_id = check_decoded session_id (decode token)
