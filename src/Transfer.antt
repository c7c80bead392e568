-- ===== src/Transfer.antt =====
-- The phases that both ends of a transfer are described in (src/shared/transfer-ui-state.ts).
-- A `ReadonlySet` of phases is its membership test.
use deqr.Common.{ℕ, Bool, true, false}

pub data TransferPhase : Type 0 where
  idle preflighting preparing ready transferring interrupted : TransferPhase
  verifying verified exporting completed cancelled failed : TransferPhase

unfoldable pub phase_rank : TransferPhase → ℕ
phase_rank idle = 0
phase_rank preflighting = 1
phase_rank preparing = 2
phase_rank ready = 3
phase_rank transferring = 4
phase_rank interrupted = 4
phase_rank verifying = 5
phase_rank verified = 6
phase_rank exporting = 7
phase_rank completed = 8
phase_rank cancelled = 0
phase_rank failed = 0

unfoldable pub is_terminal_phase : TransferPhase → Bool
is_terminal_phase verified = true
is_terminal_phase completed = true
is_terminal_phase cancelled = true
is_terminal_phase failed = true
is_terminal_phase _ = false

unfoldable pub is_active_phase : TransferPhase → Bool
is_active_phase preflighting = true
is_active_phase preparing = true
is_active_phase ready = true
is_active_phase transferring = true
is_active_phase verifying = true
is_active_phase _ = false

unfoldable pub claims_integrity_verified : TransferPhase → Bool
claims_integrity_verified verified = true
claims_integrity_verified exporting = true
claims_integrity_verified _ = false

-- SENDER_PHASES.has and RECEIVER_PHASES.has
unfoldable pub sender_phases : TransferPhase → Bool
sender_phases idle = true
sender_phases preflighting = true
sender_phases preparing = true
sender_phases ready = true
sender_phases transferring = true
sender_phases interrupted = true
sender_phases completed = true
sender_phases cancelled = true
sender_phases failed = true
sender_phases _ = false

unfoldable pub receiver_phases : TransferPhase → Bool
receiver_phases idle = true
receiver_phases preflighting = true
receiver_phases preparing = true
receiver_phases ready = true
receiver_phases transferring = true
receiver_phases interrupted = true
receiver_phases verifying = true
receiver_phases verified = true
receiver_phases exporting = true
receiver_phases cancelled = true
receiver_phases failed = true
receiver_phases _ = false
