-- ===== src/Receiver.antt =====
-- The receiver's state machine (mobile-web/src/receiver-state.ts), modelled like the sender's: the
-- transition table is a function by clauses, and an event is its type and the fault that some types
-- carry. The proofs are in the modules below.
pub mod Runs
pub mod Session
mod Examples
use deqr.Common.{ℕ, ◌+◌, Bool, true, false, ◌||◌, Option, none, some, List, [], ◌∷◌}
use deqr.Common.{if◌then◌else◌, String}
use deqr.Transfer.{TransferPhase}
use deqr.Transfer

pub data ReceiverState : Type 0 where
  idle preflight camera_warming scanning receiving incomplete recovering interrupted verifying
        complete exporting cancelled failed :
      ReceiverState

pub data ReceiverEventType : Type 0 where
  receive_requested preflight_passed camera_ready camera_failed frame_accepted stalled
        session_complete verified session_failed backgrounded foregrounded export_started
        export_settled cancelled reset worker_fatal :
      ReceiverEventType

pub data FaultKind : Type 0 where
  camera scanner transfer storage : FaultKind

pub record ReceiverFault : Type 0 where
  pub kind : FaultKind
  pub code : String
  pub message : Option String

pub record ReceiverEvent : Type 0 where
  pub type : ReceiverEventType
  pub fault : Option ReceiverFault

pub record ReceiverMachineState : Type 0 where
  pub state : ReceiverState
  pub fault : Option ReceiverFault
  pub epoch : ℕ

unfoldable pub initial_receiver_state : ReceiverMachineState
initial_receiver_state = record { state = idle; fault = none; epoch = 0 }

unfoldable pub transitions : ReceiverState → ReceiverEventType → Option ReceiverState
transitions idle receive_requested = some preflight
transitions preflight preflight_passed = some camera_warming
transitions preflight camera_failed = some failed
transitions preflight worker_fatal = some failed
transitions preflight backgrounded = some interrupted
transitions preflight ReceiverEventType.cancelled = some cancelled
transitions preflight reset = some idle
transitions camera_warming camera_ready = some scanning
transitions camera_warming camera_failed = some failed
transitions camera_warming worker_fatal = some failed
transitions camera_warming backgrounded = some interrupted
transitions camera_warming ReceiverEventType.cancelled = some cancelled
transitions camera_warming reset = some idle
transitions scanning frame_accepted = some receiving
transitions scanning session_complete = some verifying
transitions scanning session_failed = some failed
transitions scanning camera_failed = some failed
transitions scanning worker_fatal = some failed
transitions scanning backgrounded = some interrupted
transitions scanning ReceiverEventType.cancelled = some cancelled
transitions scanning reset = some idle
transitions receiving session_complete = some verifying
transitions receiving stalled = some incomplete
transitions receiving session_failed = some failed
transitions receiving camera_failed = some failed
transitions receiving worker_fatal = some failed
transitions receiving backgrounded = some interrupted
transitions receiving ReceiverEventType.cancelled = some cancelled
transitions receiving reset = some idle
transitions incomplete frame_accepted = some recovering
transitions incomplete session_complete = some verifying
transitions incomplete session_failed = some failed
transitions incomplete camera_failed = some failed
transitions incomplete worker_fatal = some failed
transitions incomplete backgrounded = some interrupted
transitions incomplete ReceiverEventType.cancelled = some cancelled
transitions incomplete reset = some idle
transitions recovering session_complete = some verifying
transitions recovering stalled = some incomplete
transitions recovering session_failed = some failed
transitions recovering camera_failed = some failed
transitions recovering worker_fatal = some failed
transitions recovering backgrounded = some interrupted
transitions recovering ReceiverEventType.cancelled = some cancelled
transitions recovering reset = some idle
transitions verifying verified = some complete
transitions verifying session_failed = some failed
transitions verifying worker_fatal = some failed
transitions verifying backgrounded = some interrupted
transitions verifying ReceiverEventType.cancelled = some cancelled
transitions verifying reset = some idle
transitions complete export_started = some exporting
transitions complete receive_requested = some preflight
transitions complete reset = some idle
transitions complete ReceiverEventType.cancelled = some cancelled
transitions complete backgrounded = some interrupted
transitions exporting export_settled = some idle
transitions exporting verified = some complete
transitions exporting reset = some idle
transitions interrupted foregrounded = some idle
transitions interrupted receive_requested = some preflight
transitions interrupted reset = some idle
transitions cancelled receive_requested = some preflight
transitions cancelled reset = some idle
transitions cancelled foregrounded = some cancelled
transitions failed receive_requested = some preflight
transitions failed reset = some idle
transitions failed foregrounded = some failed
transitions _ _ = none

-- PHASE_OF and receiverPhase
unfoldable pub receiver_phase : ReceiverState → TransferPhase
receiver_phase idle = Transfer.idle
receiver_phase preflight = Transfer.preflighting
receiver_phase camera_warming = Transfer.preparing
receiver_phase scanning = Transfer.ready
receiver_phase receiving = Transfer.transferring
receiver_phase recovering = Transfer.transferring
receiver_phase incomplete = Transfer.interrupted
receiver_phase interrupted = Transfer.interrupted
receiver_phase verifying = Transfer.verifying
receiver_phase complete = Transfer.verified
receiver_phase exporting = Transfer.exporting
receiver_phase cancelled = Transfer.cancelled
receiver_phase failed = Transfer.failed

unfoldable pub camera_should_run : ReceiverState → Bool
camera_should_run camera_warming = true
camera_should_run scanning = true
camera_should_run receiving = true
camera_should_run recovering = true
camera_should_run incomplete = true
camera_should_run _ = false

unfoldable pub session_is_cleared : ReceiverState → Bool
session_is_cleared idle = true
session_is_cleared interrupted = true
session_is_cleared cancelled = true
session_is_cleared failed = true
session_is_cleared _ = false

unfoldable pub is_terminal : ReceiverState → Bool
is_terminal complete = true
is_terminal cancelled = true
is_terminal failed = true
is_terminal _ = false

unfoldable pub can_cancel : ReceiverState → Bool
can_cancel preflight = true
can_cancel camera_warming = true
can_cancel scanning = true
can_cancel receiving = true
can_cancel incomplete = true
can_cancel recovering = true
can_cancel verifying = true
can_cancel _ = false

is_some : Option ReceiverState → Bool
is_some none = false
is_some (some _) = true

unfoldable pub accepts_event : ReceiverState → ReceiverEventType → Bool
unfolding is_some
accepts_event s e = is_some (transitions s e)

unfoldable pub is_failed : ReceiverState → Bool
is_failed failed = true
is_failed _ = false

is_preflight : ReceiverState → Bool
is_preflight preflight = true
is_preflight _ = false

-- `a ?? b`
abbrev pub or_else : Option ReceiverFault → Option ReceiverFault → Option ReceiverFault
or_else none b = b
or_else (some a) b = some a

-- what reduceReceiver returns once the table has been read
enter : ReceiverMachineState → ReceiverEvent → Option ReceiverState → ReceiverMachineState
unfolding is_failed session_is_cleared is_preflight
enter current event none = current
enter current event (some next) = record {
  state = next;
  fault = or_else event.fault (if is_failed next then current.fault else none);
  epoch = if session_is_cleared next || is_preflight next then current.epoch + 1 else current.epoch;
}

unfoldable pub reduce_receiver : ReceiverMachineState → ReceiverEvent → ReceiverMachineState
unfolding enter transitions
reduce_receiver current event = enter current event (transitions current.state event.type)

-- the events of a session, one after another
unfoldable pub run : ReceiverMachineState → List ReceiverEvent → ReceiverMachineState
run s [] = s
run s (e ∷ es) = run (reduce_receiver s e) es
