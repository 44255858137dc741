-- ===== src/Repository/Lifecycle.antt =====
-- The life of one request, apart from the tables: what its statuses may become.
use folioo_ai.Base.{ℕ, Bool, true, false, Option, none, some, List, [], ◌∷◌}
use folioo_ai.Repository.Rows.{RequestRow, Status, running, completed, failed, Db, get_request}

-- A request is not there, runs, is completed, or failed, and may be retried if the flag is true.
pub data Phase : Type 0 where
  absent active finished : Phase
  stopped : Bool → Phase

-- What the methods of the repository are to the life of a request: a claim, the loss of earlier
-- retries, a retry, a completion, a failure that may be retried or not, the sweep of stale runs,
-- the purge, and every other method.
pub data Method : Type 0 where
  claims disables retries completes : Method
  fails : Bool → Method
  expires purges keeps : Method

-- What a method may do to the phase of a request: nothing, or the one thing it is for.
pub data Move : Method → Phase → Phase → Type 0 where
  stays : {m : Method} (p : Phase) → Move m p p
  starts : Move claims absent active
  loses_retry : Move disables (stopped true) (stopped false)
  restarts : Move retries (stopped true) active
  finishes : Move completes active finished
  breaks : (retryable : Bool) → Move (fails retryable) active (stopped retryable)
  lapses : Move expires active (stopped true)
  forgets_finished : Move purges finished absent
  forgets_stopped : (retryable : Bool) → Move purges (stopped retryable) absent

-- The phases from the first to the last, where the methods are called in their order, the last one
-- first in the list.
pub data Moves (p : Phase) : List Method → Phase → Type 0 where
  here : Moves p [] p
  next :
      {ms : List Method} {m : Method} {q r : Phase} → Moves p ms q → Move m q r → Moves p (m ∷ ms) r

-- What of a row the life of its request is.
abbrev pub status_phase : Status → Bool → Phase
status_phase running retryable = active
status_phase completed retryable = finished
status_phase failed retryable = stopped retryable

abbrev pub phase_of : Option RequestRow → Phase
phase_of none = absent
phase_of (some r) = status_phase r.status r.retryable

abbrev pub phase : ℕ → ℕ → Db → Phase
phase user request db = phase_of (get_request user request db)
