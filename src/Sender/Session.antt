-- ===== src/Sender/Session.antt =====
-- The sender's epoch as a fence against late work, its phases, and cancelling
-- (src/renderer/sender-state.ts).
use deqr.Common.{◌+◌, ◌≤◌, ◌<◌, ◌≡◌, true, false, not, arith}
use deqr.Common.{List, [], ◌∷◌, ◌⊎◌, inl, inr, ◌↔◌, ap}
use deqr.Transfer.{claims_integrity_verified, sender_phases, is_terminal_phase}
use deqr.Sender.{
  SenderState, SenderEvent, SenderMachineState, transitions, sender_phase, should_stream,
  can_cancel, SenderEventType, reduce_sender, run, accepts_event, session_exists,
  session_is_cleared, is_terminal,
}

epoch-le-reduce_sender :
    (s : SenderMachineState) (e : SenderEvent) → s.epoch ≤ (reduce_sender s e).epoch
unfolding reduce_sender
epoch-le-reduce_sender s e = ground arith

pub epoch-le-run : (s : SenderMachineState) (es : List SenderEvent) → s.epoch ≤ (run s es).epoch
unfolding run
epoch-le-run s [] = omega arith
epoch-le-run s (e ∷ es) =
    omega (arith, epoch-le-reduce_sender s e, epoch-le-run (reduce_sender s e) es)

-- One event that keeps the epoch keeps the session.
session_exists-reduce_sender :
    (s : SenderMachineState) (e : SenderEvent)
    → session_exists s.state ≡ true
    → (session_exists (reduce_sender s e).state ≡ true) ⊎ (s.epoch < (reduce_sender s e).epoch)
unfolding session_exists reduce_sender
session_exists-reduce_sender s e h = ground arith

-- While the epoch has not changed, the session that existed still exists, whatever events came in
-- between: a frame that was asked for in one epoch and arrives in the same epoch is still its own.
pub session_exists-run :
    (s : SenderMachineState) (es : List SenderEvent)
    → session_exists s.state ≡ true
    → (run s es).epoch ≡ s.epoch
    → session_exists (run s es).state ≡ true
unfolding run
session_exists-run s [] h same = h
session_exists-run s (e ∷ es) h same = elim (session_exists-reduce_sender s e h) [
  | inl h' ↦
      session_exists-run (reduce_sender s e) es h'
        (omega (arith, epoch-le-reduce_sender s e, epoch-le-run (reduce_sender s e) es))
  | inr lt ↦ absurd (omega (arith, epoch-le-run (reduce_sender s e) es))
]

-- Every sender state is in a phase that a sender may claim, none of them claims a verified file,
-- it is terminal exactly when its phase is, and no session exists exactly when it is cleared.
sender_phase_sound :
    (s : SenderState)
    → (sender_phases (sender_phase s) ≡ true)
      × (claims_integrity_verified (sender_phase s) ≡ false)
      × (is_terminal s ≡ is_terminal_phase (sender_phase s))
      × (session_exists s ≡ not (session_is_cleared s))
unfolding sender_phases sender_phase claims_integrity_verified is_terminal is_terminal_phase
    session_exists session_is_cleared
sender_phase_sound s = ground arith

-- Where the cancel control is shown, a cancel event is accepted, ends the session in a cleared
-- state, stops the frames, and moves the epoch on by one.
can_cancel-reduce_sender :
    (s : SenderMachineState) (e : SenderEvent)
    → e.type ≡ SenderEventType.cancelled
    → can_cancel s.state ≡ true
    → (accepts_event s.state SenderEventType.cancelled ≡ true)
      × (session_is_cleared (reduce_sender s e).state ≡ true)
      × (should_stream (reduce_sender s e).state ≡ false)
      × ((reduce_sender s e).epoch ≡ s.epoch + 1)
unfolding can_cancel accepts_event reduce_sender session_is_cleared should_stream transitions
can_cancel-reduce_sender s e h c = ground arith

-- The machine is unchanged by an event exactly when its state does not list the event.
reduce_sender_unchanged :
    (s : SenderMachineState) (e : SenderEvent)
    → (reduce_sender s e ≡ s) ↔ (accepts_event s.state e.type ≡ false)
unfolding accepts_event reduce_sender transitions
reduce_sender_unchanged s e =
    (λ p. ground (arith, ap (λ (m : SenderMachineState). m.state) p), λ h. ground arith)
