-- ===== src/Sender.antt =====
-- The sender's state machine (src/renderer/sender-state.ts). The transition table is a function by
-- clauses, a missing entry `none`; an event is its type and the fault that some types carry. The
-- proofs are in the modules below.
pub mod Runs
pub mod Session
mod Examples
use deqr.Common.{ℕ, ◌+◌, Bool, true, false, ◌||◌, Option, none, some, List, [], ◌∷◌}
use deqr.Common.{if◌then◌else◌, String}
use deqr.Transfer.{TransferPhase}
use deqr.Transfer

pub data SenderState : Type 0 where
  idle resume_entry preflighting ready preparing : SenderState
  transferring held stream_complete cancelled failed : SenderState

pub data SenderEventType : Type 0 where
  select_requested resume_requested resume_submitted preflight_ready preflight_empty
        preflight_failed start_requested stream_started hold release stream_finished
        recovery_requested stream_failed cancelled reset :
      SenderEventType

pub data FaultKind : Type 0 where
  resume preflight stream display : FaultKind

pub record SenderFault : Type 0 where
  pub kind : FaultKind
  pub code : String
  pub message : Option String

pub record SenderEvent : Type 0 where
  pub type : SenderEventType
  pub fault : Option SenderFault

pub record SenderMachineState : Type 0 where
  pub state : SenderState
  pub fault : Option SenderFault
  pub epoch : ℕ

unfoldable pub initial_sender_state : SenderMachineState
initial_sender_state = record { state = idle; fault = none; epoch = 0 }

unfoldable pub transitions : SenderState → SenderEventType → Option SenderState
transitions idle select_requested = some preflighting
transitions idle resume_requested = some resume_entry
transitions resume_entry resume_submitted = some preflighting
transitions resume_entry select_requested = some preflighting
transitions resume_entry SenderEventType.cancelled = some idle
transitions resume_entry reset = some idle
transitions preflighting preflight_ready = some ready
transitions preflighting preflight_empty = some idle
transitions preflighting preflight_failed = some failed
transitions preflighting SenderEventType.cancelled = some idle
transitions preflighting reset = some idle
transitions ready start_requested = some preparing
transitions ready select_requested = some preflighting
transitions ready SenderEventType.cancelled = some idle
transitions ready reset = some idle
transitions preparing stream_started = some transferring
transitions preparing stream_failed = some failed
transitions preparing SenderEventType.cancelled = some cancelled
transitions preparing reset = some idle
transitions transferring hold = some held
transitions transferring stream_finished = some stream_complete
transitions transferring stream_failed = some failed
transitions transferring SenderEventType.cancelled = some cancelled
transitions transferring reset = some idle
transitions held release = some transferring
transitions held stream_finished = some stream_complete
transitions held stream_failed = some failed
transitions held SenderEventType.cancelled = some cancelled
transitions held reset = some idle
transitions stream_complete recovery_requested = some transferring
transitions stream_complete select_requested = some preflighting
transitions stream_complete resume_requested = some resume_entry
transitions stream_complete reset = some idle
transitions stream_complete SenderEventType.cancelled = some idle
transitions cancelled select_requested = some preflighting
transitions cancelled resume_requested = some resume_entry
transitions cancelled reset = some idle
transitions failed select_requested = some preflighting
transitions failed resume_requested = some resume_entry
transitions failed reset = some idle
transitions _ _ = none

-- PHASE_OF and senderPhase
unfoldable pub sender_phase : SenderState → TransferPhase
sender_phase idle = Transfer.idle
sender_phase resume_entry = Transfer.idle
sender_phase preflighting = Transfer.preflighting
sender_phase ready = Transfer.ready
sender_phase preparing = Transfer.preparing
sender_phase transferring = Transfer.transferring
sender_phase held = Transfer.interrupted
sender_phase stream_complete = Transfer.completed
sender_phase cancelled = Transfer.cancelled
sender_phase failed = Transfer.failed

unfoldable pub session_exists : SenderState → Bool
session_exists ready = true
session_exists preparing = true
session_exists transferring = true
session_exists held = true
session_exists stream_complete = true
session_exists _ = false

unfoldable pub should_stream : SenderState → Bool
should_stream transferring = true
should_stream _ = false

unfoldable pub is_terminal : SenderState → Bool
is_terminal stream_complete = true
is_terminal cancelled = true
is_terminal failed = true
is_terminal _ = false

unfoldable pub session_is_cleared : SenderState → Bool
session_is_cleared idle = true
session_is_cleared resume_entry = true
session_is_cleared preflighting = true
session_is_cleared cancelled = true
session_is_cleared failed = true
session_is_cleared _ = false

unfoldable pub can_cancel : SenderState → Bool
can_cancel preflighting = true
can_cancel preparing = true
can_cancel transferring = true
can_cancel held = true
can_cancel _ = false

unfoldable pub cancel_needs_confirmation : SenderState → Bool
cancel_needs_confirmation transferring = true
cancel_needs_confirmation held = true
cancel_needs_confirmation _ = false

is_some : Option SenderState → Bool
is_some none = false
is_some (some _) = true

unfoldable pub accepts_event : SenderState → SenderEventType → Bool
unfolding is_some
accepts_event s e = is_some (transitions s e)

unfoldable pub is_failed : SenderState → Bool
is_failed failed = true
is_failed _ = false

-- `a ?? b`
abbrev pub or_else : Option SenderFault → Option SenderFault → Option SenderFault
or_else none b = b
or_else (some a) b = some a

-- what reduceSender returns once the table has an entry
enter : SenderMachineState → SenderEvent → Option SenderState → SenderMachineState
unfolding is_failed session_is_cleared
enter current event none = current
enter current event (some next) = record {
  state = next;
  fault = or_else event.fault (if is_failed next then current.fault else none);
  epoch = if session_is_cleared next then current.epoch + 1 else current.epoch;
}

unfoldable pub reduce_sender : SenderMachineState → SenderEvent → SenderMachineState
unfolding enter transitions
reduce_sender current event = enter current event (transitions current.state event.type)

-- the events of a session, one after another
unfoldable pub run : SenderMachineState → List SenderEvent → SenderMachineState
run s [] = s
run s (e ∷ es) = run (reduce_sender s e) es
