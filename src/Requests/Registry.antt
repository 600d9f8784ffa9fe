-- ===== src/Requests/Registry.antt =====
-- The schemas of docs/coredrp-v1-request-schemas.json that tools/request_encodings.py reads as SCHEMAS.
use core_drp.Prelude.{codes}
use core_drp.Requests.Schema.{
  Scalar, u8, u16, u32, u64, i64, bool, f64, hash32, bytes, utf8, ascii, Fields, optional, array,
  nested, scalar, end, field,
}

-- MiningShareRequestV1
abbrev pub mining_share_request : Fields
mining_share_request = field (codes "block_height") (scalar u64) (
    field (codes "miner") (scalar utf8) (
      field (codes "worker") (scalar utf8) (
        field (codes "user_agent") (scalar utf8) (
          field (codes "difficulty") (scalar f64) (
            field (codes "achieved_share_difficulty") (scalar f64) (
              field (codes "actual_difficulty") (scalar f64) (
                field (codes "network_difficulty") (scalar f64) (
                  field (codes "source_ip") (scalar utf8) (
                    field (codes "source") (scalar utf8) (
                      field (codes "session_id") (scalar utf8) (
                        field (codes "is_block_candidate") (scalar bool) (
                          field (codes "candidate_hash_hex") (optional (scalar bytes)) (
                            field (codes "candidate_kind") (optional (scalar utf8)) (
                              field (codes "transaction_confirmation_data") (optional (scalar utf8))
                                (field (codes "block_reward") (optional (scalar ascii))
                                  end)))))))))))))))

-- ProjectionRequestV1
abbrev pub projection_request : Fields
projection_request = field (codes "scope") (scalar bytes) (
    field (codes "share") (nested mining_share_request) (
      field (codes "accounting_id") (scalar Scalar.uuid16) (
        field (codes "accounting_role") (scalar u8) (
          field (codes "reward_basis_satoshis") (scalar i64) (
            field (codes "pps_calculated_amount") (optional (scalar ascii)) (
              field (codes "block_only") (scalar bool) (
                field (codes "block_record_emitted") (scalar bool) (
                  field (codes "statistical_record_emitted") (scalar bool)
                    (field (codes "preserve_created") (scalar bool) end)))))))))

-- MiningcoreAccountingShareRequestV1
abbrev pub accounting_share_request : Fields
accounting_share_request =
    field (codes "primary") (nested projection_request)
      (field (codes "paired") (optional (nested projection_request)) end)

-- DirectRecipientRequestV1
abbrev pub direct_recipient_request : Fields
direct_recipient_request = field (codes "address") (optional (scalar utf8)) (
    field (codes "script_pub_key") (scalar bytes)
      (field (codes "amount_satoshis") (scalar i64) end))

-- CommitmentRequestV1
abbrev pub commitment_request : Fields
commitment_request =
    field (codes "output_index") (scalar u32) (field (codes "script_pub_key") (scalar bytes) end)

-- BitcoinDirectCoinbaseCandidateRequestV1
abbrev pub direct_coinbase_candidate_request : Fields
direct_coinbase_candidate_request = field (codes "block_height") (scalar u64) (
    field (codes "block_hash") (scalar hash32) (
      field (codes "coinbase_txid") (scalar hash32) (
        field (codes "serialized_block") (scalar bytes) (
          field (codes "gross_reward_satoshis") (scalar i64) (
            field (codes "miner_script_pub_key") (scalar bytes) (
              field (codes "miner_reward_satoshis") (scalar i64) (
                field (codes "recipients")
                  (array (codes "DirectRecipientRequestV1") direct_recipient_request)
                  (field (codes "miner") (scalar utf8) (
                    field (codes "worker") (scalar utf8) (
                      field (codes "candidate_id") (scalar Scalar.uuid16) (
                        field (codes "submission_state") (scalar u8) (
                          field (codes "consensus_commitments")
                            (array (codes "CommitmentRequestV1") commitment_request) end))))))))))))

-- CandidateStateUpdateRequestV1
abbrev pub candidate_state_update_request : Fields
candidate_state_update_request = field (codes "candidate_id") (scalar Scalar.uuid16) (
    field (codes "state") (scalar u8) (
      field (codes "submission_attempts") (scalar u32) (
        field (codes "definitive_misses") (scalar u32)
          (field (codes "last_attempt_unix_ms") (optional (scalar i64)) end))))

-- DeductionV1
abbrev pub deduction : Fields
deduction = field (codes "destination") (scalar bytes) (field (codes "amount") (scalar ascii) end)

-- SettlementInputV1
abbrev pub settlement_input : Fields
settlement_input = field (codes "block_hash") (scalar hash32) (
    field (codes "block_height") (scalar u64) (
      field (codes "gross_reward") (scalar ascii) (
        field (codes "deductions") (array (codes "DeductionV1") deduction) (
          field (codes "distributable_reward") (scalar ascii) (
            field (codes "finder_accounting_id") (optional (scalar Scalar.uuid16))
              (field (codes "finder_percentage") (scalar ascii) end))))))

-- AuditEventV1
abbrev pub audit_event : Fields
audit_event = field (codes "event_time") (scalar i64) (
    field (codes "sender") (scalar Scalar.uuid16) (
      field (codes "sequence") (scalar u64) (
        field (codes "relay") (scalar Scalar.uuid16) (
          field (codes "epoch") (scalar Scalar.uuid16) (
            field (codes "lane") (scalar u8) (
              field (codes "event_type") (scalar u16) (
                field (codes "scope") (scalar bytes) (
                  field (codes "previous_chain_hash") (scalar hash32) (
                    field (codes "chain_hash") (scalar hash32)
                      (field (codes "payload") (scalar bytes) end))))))))))

-- SettlementAuditBundleV1
abbrev pub settlement_audit_bundle : Fields
settlement_audit_bundle = field (codes "summary_hash") (scalar hash32) (
    field (codes "inputs") (nested settlement_input)
      (field (codes "events") (array (codes "AuditEventV1") audit_event) end))

-- ActivatedPolicyEvidenceV1
abbrev pub activated_policy_evidence : Fields
activated_policy_evidence = field (codes "receiver") (scalar Scalar.uuid16) (
    field (codes "incarnation") (scalar Scalar.uuid16) (
      field (codes "sender") (scalar Scalar.uuid16) (
        field (codes "scope") (scalar bytes) (
          field (codes "generation") (scalar u64) (
            field (codes "valid_from") (scalar i64) (
              field (codes "valid_until") (optional (scalar i64)) (
                field (codes "mode") (scalar u8) (
                  field (codes "mining_contract") (scalar hash32) (
                    field (codes "miningcore_contract") (optional (scalar hash32)) (
                      field (codes "admin_id") (scalar Scalar.uuid16) (
                        field (codes "admin_digest") (scalar hash32)
                          (field (codes "state_version") (scalar u64) end))))))))))))
