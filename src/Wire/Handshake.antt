-- ===== src/Wire/Handshake.antt =====
-- The messages ClientHello and ServerHello of protocol/coredrp-v1.proto, without the texts that name
-- an implementation. An optional field is an Option; of the two lists of profiles only whether they
-- are empty is read.
use core_drp.Prelude.{ℕ, Bool, Option, List, Bytes}

pub record ClientHello : Type 0 where
  pub protocol_major : ℕ
  pub protocol_minor : ℕ
  pub sender_id : Bytes
  pub lane_id : ℕ
  pub log_epoch : Bytes
  pub earliest_retained_sequence : ℕ
  pub durable_tail_sequence : ℕ
  pub remembered_ack_sequence : Option ℕ
  pub remembered_ack_chain_hash : Option Bytes
  pub supported_event_types : List ℕ
  pub remembered_contract_binding_digest : Option Bytes
  pub has_profiles : Bool
  pub has_scope_contracts : Bool

pub record ServerHello : Type 0 where
  pub protocol_major : ℕ
  pub protocol_minor : ℕ
  pub receiver_id : Bytes
  pub receiver_database_epoch : Bytes
  pub committed_sequence : ℕ
  pub committed_chain_hash : Bytes
  pub has_profiles : Bool
  pub accepted_event_types : List ℕ
  pub max_event_payload_bytes : ℕ
  pub max_batch_payload_bytes : ℕ
  pub window_events : ℕ
  pub window_bytes : ℕ
  pub contract_binding_digest : Bytes
  pub max_batch_events : ℕ
  pub has_scope_contracts : Bool
