-- ===== src/Kakao/Laws/Outcome.antt =====
-- What `_execute_turn` concludes: success, failure, or that the commit is in doubt.
use folioo_ai.Base.{◌≡◌, ◌⊎◌, inl, inr, true, false, none, some, arith}
use folioo_ai.Repository.Rows.{Db}
use folioo_ai.Kakao.Rows.{TurnState, succeeded, commit_unknown, TurnRow, is_failure}
use folioo_ai.Kakao.Turn.{
  World, Progress, Ending, finished, timed_out, map_error, run_block, is_late, execute_turn,
}

module _ (w : World) (row : TurnRow) (db : Db) where
  abbrev pub verdict : TurnState
  verdict = (execute_turn w row db).0.0

  abbrev pub block : Progress × Ending
  block = run_block w w.attempts

  -- A failure, for which the user's quota is given back, is concluded only where the main server
  -- said that nothing was committed, or where the request was refused by an `ExperienceMapError`.
  pub failure_confirmed :
      is_failure (some verdict) ≡ true
      → (w.committed ≡ some false) ⊎ ((is_late w row ≡ false) × (block.1 ≡ map_error))
  unfolding execute_turn
  failure_confirmed e = ground arith

  -- A success is concluded only where the main server said that the commit happened, or where the
  -- run came to its end in time without an error event.
  pub success_confirmed :
      verdict ≡ succeeded
      → (w.committed ≡ some true)
        ⊎ ((is_late w row ≡ false) × (block.1 ≡ finished) × (block.0.failed_event ≡ false))
  unfolding execute_turn
  success_confirmed e = ground arith

  -- A run that the deadline stops while the commit node is running is in doubt, whatever the main
  -- server would answer then; so is each one that needs the server's answer and does not get it.
  in_flight_unknown :
      is_late w row ≡ false
      → block.1 ≡ timed_out
      → (block.0.commit_in_flight ≡ true) ⊎ (w.committed ≡ none)
      → verdict ≡ commit_unknown
  unfolding execute_turn
  in_flight_unknown h e (inl f) = ground arith
  in_flight_unknown h e (inr n) = ground arith
