-- ===== src/Receiver/Examples.antt =====
-- Sessions of the receiver's machine, and the theorems at them
-- (mobile-web/src/receiver-state.ts).
use deqr.Common.{◌≡◌, refl, true, false, none, some, inl, inr, List, [], ◌∷◌, map, Occurs}
use deqr.Transfer.{claims_integrity_verified}
use deqr.Receiver.{
  receiving, complete, exporting, ReceiverEventType, receive_requested, preflight_passed,
  camera_ready, camera_failed, frame_accepted, stalled, session_complete, verified, export_started,
  foregrounded, camera, ReceiverEvent, ReceiverMachineState, initial_receiver_state, receiver_phase,
  camera_should_run, session_is_cleared, is_failed, reduce_receiver, run,
}
use deqr.Receiver.Runs.{has_fault, receiver_fault_iff_failed, claims_verified-Occurs}
use deqr.Receiver.Session.{is_underway, session_is_cleared-run, stalls_keep_session, export_retries}

abbrev plain : ReceiverEventType → ReceiverEvent
plain t = record { type = t; fault = none }

abbrev no_camera : ReceiverEvent
no_camera = record {
  type = camera_failed;
  fault = some (record { kind = camera; code = "NotAllowedError"; message = some "denied" });
}

abbrev denied : List ReceiverEvent
denied = plain receive_requested ∷ plain preflight_passed ∷ no_camera ∷ plain foregrounded ∷ []

abbrev whole : List ReceiverEvent
whole =
    plain receive_requested
    ∷ plain preflight_passed
    ∷ plain camera_ready
    ∷ plain frame_accepted
    ∷ plain stalled
    ∷ plain frame_accepted
    ∷ plain session_complete
    ∷ plain verified
    ∷ []

abbrev underway : ReceiverMachineState
underway = record { state = receiving; fault = none; epoch = 1 }

abbrev held : ReceiverMachineState
held = record { state = complete; fault = none; epoch = 1 }

whole_completes : run initial_receiver_state whole ≡ held
unfolding run reduce_receiver initial_receiver_state
whole_completes = refl

receiver_fault_iff_failed_example :
    has_fault (run initial_receiver_state denied).fault
    ≡ is_failed (run initial_receiver_state denied).state
receiver_fault_iff_failed_example =
    receiver_fault_iff_failed denied (refl, (refl, (refl, (refl, tt))))

claims_verified-Occurs_example :
    Occurs
      (receive_requested ∷ preflight_passed ∷ camera_ready ∷ session_complete ∷ verified ∷ [])
      (map (λ e. e.type) whole)
unfolding run reduce_receiver initial_receiver_state claims_integrity_verified receiver_phase
claims_verified-Occurs_example = claims_verified-Occurs whole refl

session_is_cleared-run_example :
    session_is_cleared (run underway (plain stalled ∷ plain session_complete ∷ [])).state ≡ false
unfolding run reduce_receiver session_is_cleared
session_is_cleared-run_example =
    session_is_cleared-run underway (plain stalled ∷ plain session_complete ∷ []) refl refl

abbrev bumpy : List ReceiverEvent
bumpy = plain stalled ∷ plain frame_accepted ∷ plain stalled ∷ []

stalls_keep_session_example :
    (is_underway (run underway bumpy).state ≡ true)
    × (camera_should_run (run underway bumpy).state ≡ true)
    × ((run underway bumpy).epoch ≡ 1)
stalls_keep_session_example =
    stalls_keep_session underway bumpy (inl refl, (inr refl, (inl refl, tt))) refl

abbrev attempts : List ReceiverEvent
attempts = plain export_started ∷ plain verified ∷ plain export_started ∷ []

claimed : claims_integrity_verified (receiver_phase held.state) ≡ true
unfolding claims_integrity_verified receiver_phase
claimed = refl

export_retries_example :
    ((run held attempts).state ≡ exporting)
    × (claims_integrity_verified (receiver_phase (run held attempts).state) ≡ true)
    × ((run held attempts).epoch ≡ 1)
export_retries_example = export_retries held attempts (inl refl, (inr refl, (inl refl, tt))) claimed
