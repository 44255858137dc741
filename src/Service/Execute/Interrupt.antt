-- ===== src/Service/Execute/Interrupt.antt =====
-- `_interrupt_when_lease_lost` of service.py.
use folioo_ai.Base.{Bool, true, false, List, [], ◌∷◌}
use folioo_ai.Repository.Ownership.{Signal, watching, lost, cancelled}
use folioo_ai.Commit.Coordinator.{Event}
use folioo_ai.Service.Errors.{ErrorClass, lease_lost, Error, error_of}

-- What the runner's iterator raises: an `ExperienceMapError`, or another exception.
pub data Thrown : Type 0 where
  experience_error : Error → Thrown
  other_exception : Thrown

-- What the wait of one turn of the loop ends with: the next event, the end of the events, an
-- exception of the runner, or a flag of the lease alone (true for `lost`).
pub data Arrival : Type 0 where
  arrives : Event → Arrival
  stream_ends : Arrival
  stream_raises : Thrown → Arrival
  flagged : Bool → Arrival

-- A turn of the loop: the flags at its start, and its wait.
pub record Turn : Type 0 where
  pub flags : Signal
  pub arrival : Arrival

-- How the loop ends.
pub data End : Type 0 where
  finished : End
  throws : Thrown → End

abbrev pub thrown_class : ErrorClass → End
thrown_class c = throws (experience_error (error_of c))

abbrev pub put_event : Event → List Event × End → List Event × End
put_event e (es, end) = (e ∷ es, end)

abbrev pub at_arrival : List Event × End → Arrival → List Event × End
at_arrival rest (arrives e) = put_event e rest
at_arrival rest stream_ends = ([], finished)
at_arrival rest (stream_raises t) = ([], throws t)
at_arrival rest (flagged true) = ([], thrown_class lease_lost)
at_arrival rest (flagged false) = ([], thrown_class ErrorClass.request_cancelled)

abbrev pub at_turn : List Event × End → Signal → Arrival → List Event × End
at_turn rest watching a = at_arrival rest a
at_turn rest lost a = ([], thrown_class lease_lost)
at_turn rest cancelled a = ([], thrown_class ErrorClass.request_cancelled)

-- `_interrupt_when_lease_lost`. The turns up to the last one; none is an iterator that is done.
unfoldable pub interrupt_when_lease_lost : List Turn → List Event × End
interrupt_when_lease_lost [] = ([], finished)
interrupt_when_lease_lost (t ∷ ts) = at_turn (interrupt_when_lease_lost ts) t.flags t.arrival
