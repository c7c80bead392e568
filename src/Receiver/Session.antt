-- ===== src/Receiver/Session.antt =====
-- The receiver's epoch, its phases, its camera, and what a stall keeps
-- (mobile-web/src/receiver-state.ts).
use deqr.Common.{◌+◌, ◌≤◌, ◌<◌, ◌≡◌, refl, Bool, true, false, arith}
use deqr.Common.{List, [], ◌∷◌, All, ◌⊎◌, inl, inr, ◌↔◌, ap, ◌∙◌}
use deqr.Transfer.{claims_integrity_verified, receiver_phases}
use deqr.Receiver.{
  ReceiverState, receiving, incomplete, recovering, complete, exporting, ReceiverEventType,
  frame_accepted, stalled, export_started, backgrounded, verified, ReceiverEvent,
  ReceiverMachineState, transitions, receiver_phase, camera_should_run, session_is_cleared,
  is_terminal, can_cancel, accepts_event, reduce_receiver, run,
}

epoch-le-reduce_receiver :
    (s : ReceiverMachineState) (e : ReceiverEvent) → s.epoch ≤ (reduce_receiver s e).epoch
unfolding reduce_receiver
epoch-le-reduce_receiver s e = ground arith

epoch-le-run : (s : ReceiverMachineState) (es : List ReceiverEvent) → s.epoch ≤ (run s es).epoch
unfolding run
epoch-le-run s [] = omega arith
epoch-le-run s (e ∷ es) =
    omega (arith, epoch-le-reduce_receiver s e, epoch-le-run (reduce_receiver s e) es)

session_is_cleared-reduce_receiver :
    (s : ReceiverMachineState) (e : ReceiverEvent)
    → session_is_cleared s.state ≡ false
    → (session_is_cleared (reduce_receiver s e).state ≡ false)
      ⊎ (s.epoch < (reduce_receiver s e).epoch)
unfolding session_is_cleared reduce_receiver
session_is_cleared-reduce_receiver s e h = ground arith

-- While the epoch has not changed, a session that was not cleared still is not, whatever events
-- came in between.
pub session_is_cleared-run :
    (s : ReceiverMachineState) (es : List ReceiverEvent)
    → session_is_cleared s.state ≡ false
    → (run s es).epoch ≡ s.epoch
    → session_is_cleared (run s es).state ≡ false
unfolding run
session_is_cleared-run s [] h same = h
session_is_cleared-run s (e ∷ es) h same = elim (session_is_cleared-reduce_receiver s e h) [
  | inl h' ↦
      session_is_cleared-run (reduce_receiver s e) es h'
        (omega (arith, epoch-le-reduce_receiver s e, epoch-le-run (reduce_receiver s e) es))
  | inr lt ↦ absurd (omega (arith, epoch-le-run (reduce_receiver s e) es))
]

-- Frames have been accepted, and the transfer is neither complete nor abandoned.
abbrev pub is_underway : ReceiverState → Bool
is_underway receiving = true
is_underway incomplete = true
is_underway recovering = true
is_underway _ = false

abbrev pub IsStallOrFrame : ReceiverEvent → Type 0
IsStallOrFrame e = (e.type ≡ stalled) ⊎ (e.type ≡ frame_accepted)

is_underway-reduce_receiver :
    (s : ReceiverMachineState) (e : ReceiverEvent)
    → IsStallOrFrame e
    → is_underway s.state ≡ true
    → (is_underway (reduce_receiver s e).state ≡ true) × ((reduce_receiver s e).epoch ≡ s.epoch)
unfolding reduce_receiver
is_underway-reduce_receiver s e t h = ground arith

-- However often a transfer stalls and recovers, it stays underway with the camera on, and its epoch,
-- which is the session that holds the segments received so far, is the same.
pub stalls_keep_session :
    (s : ReceiverMachineState) (es : List ReceiverEvent)
    → All IsStallOrFrame es
    → is_underway s.state ≡ true
    → (is_underway (run s es).state ≡ true)
      × (camera_should_run (run s es).state ≡ true)
      × ((run s es).epoch ≡ s.epoch)
unfolding run camera_should_run
stalls_keep_session s [] t h = (h, ground arith, refl)
stalls_keep_session s (e ∷ es) t h =
    let (h', same) = is_underway-reduce_receiver s e t.0 h in
    let (on, camera, same') = stalls_keep_session (reduce_receiver s e) es t.1 h' in
    (on, camera, omega arith)

-- Every receiver state is in a phase that a receiver may claim, and a state with the camera on is
-- not cleared, not terminal, can be cancelled, listens to backgrounding and claims no verified file.
camera_should_run_sound :
    (s : ReceiverState)
    → camera_should_run s ≡ true
    → (receiver_phases (receiver_phase s) ≡ true)
      × (session_is_cleared s ≡ false)
      × (is_terminal s ≡ false)
      × (can_cancel s ≡ true)
      × (claims_integrity_verified (receiver_phase s) ≡ false)
      × (accepts_event s backgrounded ≡ true)
unfolding receiver_phases receiver_phase claims_integrity_verified is_terminal camera_should_run
    session_is_cleared can_cancel accepts_event transitions
camera_should_run_sound s h = ground arith

-- Where the cancel control is shown, a cancel event is accepted, clears the session, stops the
-- camera, and moves the epoch on by one.
can_cancel-reduce_receiver :
    (s : ReceiverMachineState) (e : ReceiverEvent)
    → e.type ≡ ReceiverEventType.cancelled
    → can_cancel s.state ≡ true
    → (accepts_event s.state ReceiverEventType.cancelled ≡ true)
      × (session_is_cleared (reduce_receiver s e).state ≡ true)
      × (camera_should_run (reduce_receiver s e).state ≡ false)
      × ((reduce_receiver s e).epoch ≡ s.epoch + 1)
unfolding can_cancel accepts_event reduce_receiver session_is_cleared camera_should_run transitions
can_cancel-reduce_receiver s e h c = ground arith

-- EXPORTING after a start, and COMPLETE after a failure.
abbrev attempt_state : ReceiverEventType → ReceiverState
attempt_state export_started = exporting
attempt_state _ = complete

abbrev pub IsExportAttempt : ReceiverEvent → Type 0
IsExportAttempt e = (e.type ≡ export_started) ⊎ (e.type ≡ verified)

-- The state that the last attempt leaves: an export that was started runs, and one that failed, which
-- the shell reports as `verified` again, gives the choice back. With no attempt it is the state given.
abbrev pub last_attempt : ReceiverState → List ReceiverEvent → ReceiverState
last_attempt s [] = s
last_attempt s (e ∷ es) = last_attempt (attempt_state e.type) es

export_attempt :
    (s : ReceiverMachineState) (e : ReceiverEvent)
    → IsExportAttempt e
    → claims_integrity_verified (receiver_phase s.state) ≡ true
    → ((reduce_receiver s e).state ≡ attempt_state e.type)
      × (claims_integrity_verified (receiver_phase (reduce_receiver s e).state) ≡ true)
      × ((reduce_receiver s e).epoch ≡ s.epoch)
unfolding reduce_receiver claims_integrity_verified receiver_phase transitions
export_attempt s e t h = ground arith

-- From COMPLETE or EXPORTING, however often an export is started and fails, the receiver goes on
-- holding the verified file, in the same session; after a failure it is COMPLETE, where the export can
-- be tried again, and after a start it is EXPORTING.
pub export_retries :
    (s : ReceiverMachineState) (es : List ReceiverEvent)
    → All IsExportAttempt es
    → claims_integrity_verified (receiver_phase s.state) ≡ true
    → ((run s es).state ≡ last_attempt s.state es)
      × (claims_integrity_verified (receiver_phase (run s es).state) ≡ true)
      × ((run s es).epoch ≡ s.epoch)
unfolding run
export_retries s [] t h = (refl, h, refl)
export_retries s (e ∷ es) t h =
    let (is, h', same) = export_attempt s e t.0 h in
    let (is', h'', same') = export_retries (reduce_receiver s e) es t.1 h' in
    (is' ∙ ap (λ x. last_attempt x es) is, h'', omega arith)

-- The machine is unchanged by an event exactly when its state does not list the event.
reduce_receiver_unchanged :
    (s : ReceiverMachineState) (e : ReceiverEvent)
    → (reduce_receiver s e ≡ s) ↔ (accepts_event s.state e.type ≡ false)
unfolding accepts_event reduce_receiver transitions
reduce_receiver_unchanged s e = (
  λ p. ground (
    arith,
    ap (λ (m : ReceiverMachineState). m.state) p,
    ap (λ (m : ReceiverMachineState). m.epoch) p,
  ),
  λ h. ground arith,
)
