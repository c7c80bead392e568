-- ===== src/Receiver/Runs.antt =====
-- What holds of the receiver's machine after any events (reduceReceiver of
-- mobile-web/src/receiver-state.ts).
use deqr.Common.{◌≡◌, refl, Bool, true, false, Option, none, some, arith}
use deqr.Common.{List, [], ◌∷◌, ◌++◌, map, All, Occurs, done, Occurs-snoc_skip, Occurs-snoc_keep}
use mathlib.Core.List.{append_assoc, append-nil}
use deqr.Transfer.{claims_integrity_verified}
use deqr.Receiver.{
  ReceiverState, idle, preflight, camera_warming, scanning, receiving, incomplete, recovering,
  interrupted, verifying, complete, exporting, cancelled, failed, ReceiverEventType,
  receive_requested, preflight_passed, camera_ready, camera_failed, session_complete, verified,
  session_failed, worker_fatal, reset, ReceiverFault, ReceiverEvent, ReceiverMachineState,
  initial_receiver_state, transitions, receiver_phase, is_failed, reduce_receiver, run,
}

abbrev pub has_fault : Option ReceiverFault → Bool
has_fault none = false
has_fault (some f) = true

abbrev pub is_faulty : ReceiverEventType → Bool
is_faulty camera_failed = true
is_faulty session_failed = true
is_faulty worker_fatal = true
is_faulty _ = false

-- The type `ReceiverEvent` of the source: a fault comes with the three failure types and no other.
abbrev pub IsTyped : ReceiverEvent → Type 0
IsTyped e = has_fault e.fault ≡ is_faulty e.type

abbrev IsExplained : ReceiverMachineState → Type 0
IsExplained s = has_fault s.fault ≡ is_failed s.state

reduce_receiver-IsExplained :
    (s : ReceiverMachineState) (e : ReceiverEvent)
    → IsTyped e
    → IsExplained s
    → IsExplained (reduce_receiver s e)
unfolding reduce_receiver is_failed
reduce_receiver-IsExplained s e t h = ground arith

run-IsExplained :
    (s : ReceiverMachineState) (es : List ReceiverEvent)
    → All IsTyped es
    → IsExplained s
    → IsExplained (run s es)
unfolding run
run-IsExplained s [] t h = h
run-IsExplained s (e ∷ es) t h =
    run-IsExplained (reduce_receiver s e) es t.1 (reduce_receiver-IsExplained s e t.0 h)

-- After any well-typed events, the machine holds a fault exactly when its state is FAILED.
pub receiver_fault_iff_failed :
    (es : List ReceiverEvent)
    → All IsTyped es
    → has_fault (run initial_receiver_state es).fault
      ≡ is_failed (run initial_receiver_state es).state
receiver_fault_iff_failed es t =
    run-IsExplained initial_receiver_state es t (unfold initial_receiver_state is_failed in refl)

-- The events that a session must have seen before it can be in a state.
abbrev needs : ReceiverState → List ReceiverEventType
needs preflight = receive_requested ∷ []
needs camera_warming = receive_requested ∷ preflight_passed ∷ []
needs scanning = receive_requested ∷ preflight_passed ∷ camera_ready ∷ []
needs receiving = receive_requested ∷ preflight_passed ∷ camera_ready ∷ []
needs incomplete = receive_requested ∷ preflight_passed ∷ camera_ready ∷ []
needs recovering = receive_requested ∷ preflight_passed ∷ camera_ready ∷ []
needs verifying = receive_requested ∷ preflight_passed ∷ camera_ready ∷ session_complete ∷ []
needs complete =
    receive_requested ∷ preflight_passed ∷ camera_ready ∷ session_complete ∷ verified ∷ []
needs exporting =
    receive_requested ∷ preflight_passed ∷ camera_ready ∷ session_complete ∷ verified ∷ []
needs _ = []

abbrev follow : ReceiverState → Option ReceiverState → ReceiverState
follow s none = s
follow s (some t) = t

needs-follow :
    (s : ReceiverState) (t : ReceiverEventType) {seen : List ReceiverEventType}
    → Occurs (needs s) seen
    → Occurs (needs (follow s (transitions s t))) (seen ++ t ∷ [])
unfolding transitions
needs-follow idle reset o = done
needs-follow preflight reset o = done
needs-follow camera_warming reset o = done
needs-follow scanning reset o = done
needs-follow receiving reset o = done
needs-follow incomplete reset o = done
needs-follow recovering reset o = done
needs-follow interrupted reset o = done
needs-follow verifying reset o = done
needs-follow complete reset o = done
needs-follow exporting reset o = done
needs-follow cancelled reset o = done
needs-follow failed reset o = done
needs-follow s receive_requested o = first_of (
  search done,
  search (Occurs-snoc_skip receive_requested o),
  search (Occurs-snoc_keep receive_requested done),
)
needs-follow preflight preflight_passed o = Occurs-snoc_keep preflight_passed o
needs-follow camera_warming camera_ready o = Occurs-snoc_keep camera_ready o
needs-follow scanning session_complete o = Occurs-snoc_keep session_complete o
needs-follow receiving session_complete o = Occurs-snoc_keep session_complete o
needs-follow incomplete session_complete o = Occurs-snoc_keep session_complete o
needs-follow recovering session_complete o = Occurs-snoc_keep session_complete o
needs-follow verifying verified o = Occurs-snoc_keep verified o
needs-follow s t o = first_of (search done, search (Occurs-snoc_skip t o))

state-reduce_receiver :
    (s : ReceiverMachineState) (e : ReceiverEvent)
    → (reduce_receiver s e).state ≡ follow s.state (transitions s.state e.type)
unfolding reduce_receiver
state-reduce_receiver s e = ground arith

needs-run :
    (s : ReceiverMachineState) (es : List ReceiverEvent) (seen : List ReceiverEventType)
    → Occurs (needs s.state) seen
    → Occurs (needs (run s es).state) (seen ++ map (λ e. e.type) es)
unfolding run
needs-run s [] seen o = rw append-nil o
needs-run s (e ∷ es) seen o =
    let o' : Occurs (needs (reduce_receiver s e).state) (seen ++ e.type ∷ []) =
      rw state-reduce_receiver (needs-follow s.state e.type o) in
    rw append_assoc at (needs-run (reduce_receiver s e) es (seen ++ e.type ∷ []) o')

claims-needs :
    (s : ReceiverState)
    → claims_integrity_verified (receiver_phase s) ≡ true
    → needs s
      ≡ receive_requested ∷ preflight_passed ∷ camera_ready ∷ session_complete ∷ verified ∷ []
unfolding claims_integrity_verified receiver_phase
claims-needs complete h = refl
claims-needs exporting h = refl
claims-needs _ h = cc

-- The receiver's screen says that the file was verified only after the user asked to receive, the
-- preflight passed, the camera came up, every unit was recovered and the hash was checked, in this
-- order, whatever else happened in between.
pub claims_verified-Occurs :
    (es : List ReceiverEvent)
    → claims_integrity_verified (receiver_phase (run initial_receiver_state es).state) ≡ true
    → Occurs
        (receive_requested ∷ preflight_passed ∷ camera_ready ∷ session_complete ∷ verified ∷ [])
        (map (λ e. e.type) es)
claims_verified-Occurs es h =
    rw (claims-needs (run initial_receiver_state es).state h) at
      (needs-run initial_receiver_state es [] (unfold initial_receiver_state in done))
