-- ===== src/Ticket/Middleware.antt =====
-- app/middleware/experience_map_ticket.py, over the rate limiter.
use folioo_ai.Base.{
  same_text, ℕ, Text, Bool, true, false, not, ◌&&◌, ◌||◌, Option, none, some, [], ◌∷◌, ◌==◌, String,
  if◌then◌else◌, text_of, length,
}
use folioo_ai.RateLimit.Limiter.{Limits, Hits, Answer, within, over, crashed, check}
use folioo_ai.Service.Errors.{
  ticket_invalid, ticket_scope_forbidden, Error, error_of, status_code, code, message_of,
}
use folioo_ai.Ticket.Verify.{
  is_turn_scope, TicketPayload, Decoded, Checked, passed, rejects, crashes, starts_with, text_from,
  extract_bearer_token, verify_ticket,
}

abbrev pub ticket_path_prefix : Text
ticket_path_prefix = text_of "/api/v1/experience-map/sessions/"

unfoldable pub requires_ticket : Text → Bool
requires_ticket path = starts_with ticket_path_prefix path

abbrev pub ends_with : Text → Text → Bool
ends_with suffix [] = same_text suffix []
ends_with suffix (c ∷ cs) = same_text suffix (c ∷ cs) || ends_with suffix cs

unfoldable pub requires_turn_scope : Text → Bool
requires_turn_scope path =
    ends_with (text_of "/chat/stream") path || ends_with (text_of "/retry/stream") path

-- `remainder.split("/", 1)[0]`
abbrev pub before_slash : Text → Text
before_slash [] = []
before_slash (c ∷ cs) = if c == 47 then [] else c ∷ before_slash cs

abbrev pub or_none : Text → Option Text
or_none [] = none
or_none (c ∷ cs) = some (c ∷ cs)

unfoldable pub extract_session_id : Text → Option Text
extract_session_id path = or_none (before_slash (text_from (length ticket_path_prefix) path))

-- The parts of an ASGI scope that are read; `authorization` is the first header of that name.
pub record Scope : Type 0 where
  pub is_http : Bool
  pub is_options : Bool
  pub path : Text
  pub authorization : Option Text

-- What the server knows: whether there is a secret, `jwt.decode` under it, the limits and the clock.
pub record Guard : Type 0 where
  pub has_secret : Bool
  pub decode : Text → Decoded
  pub limits : Limits
  pub now : ℕ

-- The app is called, without a ticket or with the state of a payload; or a response is sent; or
-- the limiter's `IndexError` leaves the middleware.
pub data Served : Type 0 where
  calls_app : Option TicketPayload → Served
  sends_error : ℕ → String → Text → Served
  too_many : ℕ → Served
  limiter_crashes : Served

abbrev pub send_error : Error → Served
send_error e = sends_error (status_code e.class) (code e.class) (message_of e)

abbrev pub check_scope : Text → TicketPayload → Checked TicketPayload
check_scope path p =
    if not (is_turn_scope p.scope) && requires_turn_scope path
    then rejects (error_of ticket_scope_forbidden)
    else passed p

abbrev pub scope_after : Text → Checked TicketPayload → Checked TicketPayload
scope_after path (rejects e) = rejects e
scope_after path crashes = crashes
scope_after path (passed p) = check_scope path p

-- The body of the `try`.
abbrev pub check_token : Guard → Scope → Text → Checked Text → Checked TicketPayload
check_token g s session (rejects e) = rejects e
check_token g s session crashes = crashes
check_token g s session (passed token) = scope_after s.path (verify_ticket g.decode token session)

abbrev pub limited : TicketPayload → Answer → Served
limited p within = calls_app (some p)
limited p (over n) = too_many n
limited p crashed = limiter_crashes

abbrev pub admit : Guard → Hits → TicketPayload → Served × Hits
admit g hits p = let (answer, hits') = check g.limits p.sub g.now hits in (limited p answer, hits')

abbrev pub after_check : Guard → Hits → Checked TicketPayload → Served × Hits
after_check g hits (rejects e) = (send_error e, hits)
after_check g hits crashes = (send_error (error_of ticket_invalid), hits)
after_check g hits (passed p) = admit g hits p

abbrev pub secret_missing : Served
secret_missing = sends_error 500 "internal_error" (text_of "티켓 검증을 사용할 수 없습니다.")

abbrev pub guard_secret : Guard → Scope → Hits → Text → Bool → Served × Hits
guard_secret g s hits session true =
    after_check g hits (check_token g s session (extract_bearer_token s.authorization))
guard_secret g s hits session false = (secret_missing, hits)

abbrev pub guard_session : Guard → Scope → Hits → Option Text → Served × Hits
guard_session g s hits none = (calls_app none, hits)
guard_session g s hits (some session) = guard_secret g s hits session g.has_secret

-- `__call__`
unfoldable pub call : Guard → Scope → Hits → Served × Hits
call g s hits =
    if not s.is_http || not (requires_ticket s.path) || s.is_options
    then (calls_app none, hits)
    else guard_session g s hits (extract_session_id s.path)
