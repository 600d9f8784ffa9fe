-- ===== src/Transport.antt =====
-- reference/coredrp_ref/transport.py: the frames of a stream, the dispositions of errors, and in the
-- modules below the receiver's stream and the sender's drain. TLS and the framing of gRPC are not
-- modelled; the identity in the peer's certificate is an argument.
pub mod Receiver
pub mod Drain
pub mod Batches
pub mod Progress
pub mod Loop
pub mod Drained
pub mod Recovery
use core_drp.Prelude.{ℕ, Bool, true, false, List, Bytes}
use core_drp.Result.{
  Code, event_validator_unavailable, receiver_durability_unavailable, clock_contract_violation,
  resource_limit_exceeded, stream_already_active, sequence_gap, contract_binding_changed,
  admin_action_conflict, split_log, sender_rollback, receiver_rollback, recovery_gap,
  receiver_incarnation_changed, receiver_id_changed, chain_mismatch, checkpoint_backdated_event,
  event_identity_mismatch, invalid_state_transition, epoch_not_approved, semantic_payload_invalid,
}
use core_drp.Wire.Handshake.{ClientHello, ServerHello}
use core_drp.Store.Ingest.{Batch, Ack}

pub data Disposition : Type 0 where
  operator_intervention permanent_configuration stream_retryable event_quarantinable : Disposition

-- code in RETRYABLE_CODES
abbrev pub retryable : Code → Bool
retryable event_validator_unavailable = true
retryable receiver_durability_unavailable = true
retryable clock_contract_violation = true
retryable resource_limit_exceeded = true
retryable stream_already_active = true
retryable _ = false

-- The disposition of a code; the two tables and SEMANTIC_PAYLOAD_INVALID have no code in common.
abbrev pub disposition : Code → Disposition
disposition event_validator_unavailable = stream_retryable
disposition receiver_durability_unavailable = stream_retryable
disposition clock_contract_violation = stream_retryable
disposition resource_limit_exceeded = stream_retryable
disposition stream_already_active = stream_retryable
disposition semantic_payload_invalid = event_quarantinable
disposition sequence_gap = operator_intervention
disposition contract_binding_changed = operator_intervention
disposition admin_action_conflict = operator_intervention
disposition split_log = operator_intervention
disposition sender_rollback = operator_intervention
disposition receiver_rollback = operator_intervention
disposition recovery_gap = operator_intervention
disposition receiver_incarnation_changed = operator_intervention
disposition receiver_id_changed = operator_intervention
disposition chain_mismatch = operator_intervention
disposition checkpoint_backdated_event = operator_intervention
disposition event_identity_mismatch = operator_intervention
disposition invalid_state_transition = operator_intervention
disposition epoch_not_approved = operator_intervention
disposition _ = permanent_configuration

-- The body of a frame from the sender; `no_body` is a frame without one.
pub data ClientFrame : Type 0 where
  client_hello : ClientHello → ClientFrame
  batch : Batch → ClientFrame
  client_heartbeat : ℕ → ℕ → ClientFrame
  chain_probe_response client_goodbye no_body : ClientFrame

-- The body of a frame from the receiver, without the times in it.
pub data ServerFrame : Type 0 where
  server_hello : ServerHello → ServerFrame
  window_update : ℕ → ℕ → ServerFrame
  ack : Ack → ServerFrame
  heartbeat : ℕ → ServerFrame
  goodbye : ServerFrame
  error : Code → Disposition → ServerFrame
  other_frame : ServerFrame
