-- ===== src/Ticket/Laws.antt =====
-- What stands between a path of a session and the app.
use folioo_ai.Base.{ℕ, Text, true, ◌≡◌, ◌≢◌, some, String}
use folioo_ai.RateLimit.Limiter.{Hits, within, check}
use folioo_ai.Ticket.Verify.{
  is_turn_scope, TicketPayload, claims, passed, has_rid, extract_bearer_token,
}
use folioo_ai.Ticket.Middleware.{
  requires_turn_scope, Scope, Guard, Served, calls_app, sends_error, limited,
}

-- The header has a token that decodes to the payload, which is well-formed, names the session, and
-- is a turn's with its request id on the paths that run a turn.
pub record IsValid (g : Guard) (s : Scope) (session : Text) (p : TicketPayload) : Type 0 where
  pub token : Text
  pub sent : extract_bearer_token s.authorization ≡ passed token
  pub signed : g.decode token ≡ claims p
  pub formed : p.well_typed ≡ true
  pub own_session : p.sid ≡ session
  pub may_run :
      requires_turn_scope s.path ≡ true → (is_turn_scope p.scope ≡ true) × (has_rid p.rid ≡ true)

-- The three ends on such a path: the app is called with a valid payload within the user's limit;
-- the user with a valid ticket is over the limit; or the request is refused before it counts.
pub data Guarded (g : Guard) (s : Scope) (hits : Hits) (session : Text)
    : Served × Hits → Type 0 where
  admitted :
      (p : TicketPayload)
      → IsValid g s session p
      → (check g.limits p.sub g.now hits).0 ≡ within
      → Guarded g s hits session (calls_app (some p), (check g.limits p.sub g.now hits).1)
  over_limit :
      (p : TicketPayload) (r : Served)
      → IsValid g s session p
      → r ≡ limited p (check g.limits p.sub g.now hits).0
      → (check g.limits p.sub g.now hits).0 ≢ within
      → Guarded g s hits session (r, (check g.limits p.sub g.now hits).1)
  refused :
      (status : ℕ) (code : String) (message : Text)
      → Guarded g s hits session (sends_error status code message, hits)
