-- ===== src/Sender/Examples.antt =====
-- Sessions of the sender's machine, and the theorems at them (src/renderer/sender-state.ts).
use deqr.Common.{◌≡◌, refl, true, none, some, List, [], ◌∷◌, map, Occurs}
use deqr.Sender.{
  transferring, SenderEventType, select_requested, preflight_ready, start_requested, stream_started,
  hold, release, stream_finished, stream_failed, display, SenderEvent, SenderMachineState,
  initial_sender_state, session_exists, should_stream, is_failed, reduce_sender, run,
}
use deqr.Sender.Runs.{has_fault, sender_fault_iff_failed, should_stream-Occurs}
use deqr.Sender.Session.{session_exists-run}

abbrev plain : SenderEventType → SenderEvent
plain t = record { type = t; fault = none }

abbrev display_lost : SenderEvent
display_lost = record {
  type = stream_failed;
  fault = some (record { kind = display; code = "GPU_LOST"; message = none });
}

abbrev start : List SenderEvent
start =
    plain select_requested
    ∷ plain preflight_ready
    ∷ plain hold
    ∷ plain start_requested
    ∷ plain stream_started
    ∷ []

abbrev lost : List SenderEvent
lost =
    plain select_requested
    ∷ plain preflight_ready
    ∷ plain start_requested
    ∷ plain stream_started
    ∷ display_lost
    ∷ []

abbrev streaming : SenderMachineState
streaming = record { state = transferring; fault = none; epoch = 1 }

start_streams : run initial_sender_state start ≡ streaming
unfolding run reduce_sender initial_sender_state
start_streams = refl

sender_fault_iff_failed_example :
    has_fault (run initial_sender_state lost).fault
    ≡ is_failed (run initial_sender_state lost).state
sender_fault_iff_failed_example =
    sender_fault_iff_failed lost (refl, (refl, (refl, (refl, (refl, tt)))))

should_stream-Occurs_example :
    Occurs (preflight_ready ∷ start_requested ∷ stream_started ∷ []) (map (λ e. e.type) start)
unfolding run reduce_sender initial_sender_state should_stream
should_stream-Occurs_example = should_stream-Occurs start refl

session_exists-run_example :
    session_exists (run streaming (plain hold ∷ plain release ∷ plain stream_finished ∷ [])).state
    ≡ true
unfolding run reduce_sender session_exists
session_exists-run_example =
    session_exists-run streaming (plain hold ∷ plain release ∷ plain stream_finished ∷ []) refl refl
