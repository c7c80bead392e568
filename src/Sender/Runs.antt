-- ===== src/Sender/Runs.antt =====
-- What holds of the sender's machine after any events (reduceSender of
-- src/renderer/sender-state.ts).
use deqr.Common.{◌≡◌, refl, Bool, true, false, Option, none, some, arith}
use deqr.Common.{List, [], ◌∷◌, ◌++◌, map, All, Occurs, done, Occurs-snoc_skip, Occurs-snoc_keep}
use mathlib.Core.List.{append_assoc, append-nil}
use deqr.Sender.{
  SenderState, idle, resume_entry, preflighting, ready, preparing, transferring, held,
  stream_complete, cancelled, failed, SenderEventType, preflight_ready, preflight_failed,
  start_requested, stream_started, stream_failed, reset, SenderFault, SenderEvent,
  SenderMachineState, initial_sender_state, transitions, should_stream, is_failed, reduce_sender,
  run,
}

abbrev pub has_fault : Option SenderFault → Bool
has_fault none = false
has_fault (some f) = true

abbrev pub is_faulty : SenderEventType → Bool
is_faulty preflight_failed = true
is_faulty stream_failed = true
is_faulty _ = false

-- The type `SenderEvent` of the source: a fault comes with the two failure types and no other.
abbrev pub IsTyped : SenderEvent → Type 0
IsTyped e = has_fault e.fault ≡ is_faulty e.type

abbrev IsExplained : SenderMachineState → Type 0
IsExplained s = has_fault s.fault ≡ is_failed s.state

reduce_sender-IsExplained :
    (s : SenderMachineState) (e : SenderEvent)
    → IsTyped e
    → IsExplained s
    → IsExplained (reduce_sender s e)
unfolding reduce_sender is_failed
reduce_sender-IsExplained s e t h = ground arith

run-IsExplained :
    (s : SenderMachineState) (es : List SenderEvent)
    → All IsTyped es
    → IsExplained s
    → IsExplained (run s es)
unfolding run
run-IsExplained s [] t h = h
run-IsExplained s (e ∷ es) t h =
    run-IsExplained (reduce_sender s e) es t.1 (reduce_sender-IsExplained s e t.0 h)

-- After any well-typed events, the machine holds a fault exactly when its state is FAILED.
pub sender_fault_iff_failed :
    (es : List SenderEvent)
    → All IsTyped es
    → has_fault (run initial_sender_state es).fault ≡ is_failed (run initial_sender_state es).state
sender_fault_iff_failed es t =
    run-IsExplained initial_sender_state es t (unfold initial_sender_state is_failed in refl)

-- The events that a session must have seen before it can be in a state.
abbrev needs : SenderState → List SenderEventType
needs ready = preflight_ready ∷ []
needs preparing = preflight_ready ∷ start_requested ∷ []
needs transferring = preflight_ready ∷ start_requested ∷ stream_started ∷ []
needs held = preflight_ready ∷ start_requested ∷ stream_started ∷ []
needs stream_complete = preflight_ready ∷ start_requested ∷ stream_started ∷ []
needs _ = []

abbrev follow : SenderState → Option SenderState → SenderState
follow s none = s
follow s (some t) = t

ruleset occurs_rules = (done, Occurs-snoc_skip, Occurs-snoc_keep)

needs-follow :
    (s : SenderState) (t : SenderEventType) {seen : List SenderEventType}
    → Occurs (needs s) seen
    → Occurs (needs (follow s (transitions s t))) (seen ++ t ∷ [])
unfolding transitions
needs-follow idle reset o = done
needs-follow resume_entry reset o = done
needs-follow preflighting reset o = done
needs-follow ready reset o = done
needs-follow preparing reset o = done
needs-follow transferring reset o = done
needs-follow held reset o = done
needs-follow stream_complete reset o = done
needs-follow cancelled reset o = done
needs-follow failed reset o = done
needs-follow ready start_requested o = Occurs-snoc_keep start_requested o
needs-follow preparing stream_started o = Occurs-snoc_keep stream_started o
needs-follow preflighting preflight_ready o = Occurs-snoc_keep preflight_ready done
needs-follow s t o = first_of (search done, search (Occurs-snoc_skip t o))

state-reduce_sender :
    (s : SenderMachineState) (e : SenderEvent)
    → (reduce_sender s e).state ≡ follow s.state (transitions s.state e.type)
unfolding reduce_sender
state-reduce_sender s e = ground arith

needs-run :
    (s : SenderMachineState) (es : List SenderEvent) (seen : List SenderEventType)
    → Occurs (needs s.state) seen
    → Occurs (needs (run s es).state) (seen ++ map (λ e. e.type) es)
unfolding run
needs-run s [] seen o = rw append-nil o
needs-run s (e ∷ es) seen o =
    let o' : Occurs (needs (reduce_sender s e).state) (seen ++ e.type ∷ []) =
      rw state-reduce_sender (needs-follow s.state e.type o) in
    rw append_assoc at (needs-run (reduce_sender s e) es (seen ++ e.type ∷ []) o')

-- Frames are pulled only after the preflight returned, the user started, and the stream started, in
-- this order, whatever else happened in between.
pub should_stream-Occurs :
    (es : List SenderEvent)
    → should_stream (run initial_sender_state es).state ≡ true
    → Occurs (preflight_ready ∷ start_requested ∷ stream_started ∷ []) (map (λ e. e.type) es)
unfolding should_stream
should_stream-Occurs es h =
    from_needs (run initial_sender_state es).state h
      (needs-run initial_sender_state es [] (unfold initial_sender_state in done))
  where
    from_needs :
        (s : SenderState)
        → should_stream s ≡ true
        → Occurs (needs s) (map (λ e. e.type) es)
        → Occurs (preflight_ready ∷ start_requested ∷ stream_started ∷ []) (map (λ e. e.type) es)
    from_needs transferring p o = o
    from_needs _ p o = cc
