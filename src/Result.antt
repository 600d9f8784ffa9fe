-- ===== src/Result.antt =====
-- The exceptions of the reference implementation: class Failure and require of
-- reference/coredrp_ref/wire.py, and the Python exceptions that can leave its functions.
use core_drp.Prelude.{◌≡◌, ◌≢◌, ◌⊎◌, inl, inr, refl, Bool, true, false}

-- The codes that the sources pass to Failure.
pub data Code : Type 0 where
  invalid_handshake sequence_out_of_range event_type_out_of_range unadvertised_event_type : Code
  invalid_event_placement event_too_large malformed_frame semantic_payload_invalid : Code
  wal_corruption wal_io_failure wal_reopen_required stream_already_active recovery_gap : Code
  epoch_not_approved invalid_cap_increase idempotency_key_conflict : Code
  checkpoint_backdated_event resource_limit_exceeded sender_rollback split_log : Code
  receiver_id_changed receiver_incarnation_changed contract_binding_changed : Code
  semantic_contract_mismatch receiver_rollback protocol_version_mismatch lane_id_out_of_range : Code
  sequence_gap chain_mismatch event_identity_mismatch admin_action_conflict : Code
  receiver_durability_unavailable invalid_retry_policy tls_authentication_failed : Code
  remote_protocol_failure recovery_retry_exhausted event_validator_unavailable : Code
  isolated_database_required clock_contract_violation invalid_state_transition unauthorized_sender
        unauthorized_scope shadow_invalid_scope shadow_unsupported_policy shadow_policy_coverage
        shadow_duplicate_accounting_id shadow_export_digest_mismatch shadow_unsupported_export :
      Code

pub data Exception : Type 0 where
  failure : Code → Exception
  -- ValueError, and the DecodeError of the protobuf runtime, which is no ValueError
  value_error key_error decode_error os_error type_error : Exception
  -- psycopg.Error
  database_error : Exception
  -- a loop of the model that was given too little fuel; no function of the sources raises it
  out_of_fuel : Exception

pub data Result {ℓ} (A : Type ℓ) : Type ℓ where
  ok : A → Result A
  raise : Exception → Result A

pub ok-inj {ℓ} : {A : Type ℓ} {a b : A} → ok a ≡ ok b → a ≡ b
ok-inj h = cc

-- One statement after another: an exception leaves the rest out.
infixl 5 ◌>>=◌
abbrev pub ◌>>=◌ {ℓ κ} :
    {before : Type ℓ} {after : Type κ} → Result before → (before → Result after) → Result after
raise problem >>= rest = raise problem
ok value >>= rest = rest value

infixl 5 ◌>>◌
abbrev pub ◌>>◌ {ℓ κ} :
    {before : Type ℓ} {after : Type κ} → Result before → Result after → Result after
first >> rest = first >>= λ _. rest

-- require(ok,code)
abbrev pub require : Bool → Code → Result (Unit {0})
require true code = ok tt
require false code = raise (failure code)

-- What a successful chain of steps says of its first one.
pub >>=-eq-ok {ℓ κ} :
    {before : Type ℓ} {after : Type κ} {b : after} (first : Result before)
    (rest : before → Result after)
    → (first >>= rest) ≡ ok b
    → (value : before) × (first ≡ ok value) × (rest value ≡ ok b)
>>=-eq-ok (raise problem) rest h = cc
>>=-eq-ok (ok value) rest h = (value, refl, h)

pub require-eq-ok :
    {B : Type 0} (t : Bool) (code : Code) (k : Result B) {b : B}
    → (require t code >> k) ≡ ok b
    → (t ≡ true) × (k ≡ ok b)
require-eq-ok true code k h = (refl, h)
require-eq-ok false code k h = cc

pub bind-ok {ℓ} : {A : Type ℓ} (m : Result A) → (m >>= λ a. ok a) ≡ m
bind-ok (ok a) = refl
bind-ok (raise x) = refl

pub Result-cases {ℓ} :
    {A : Type ℓ} (r : Result A) → ((a : A) × (r ≡ ok a)) ⊎ ((x : Exception) × (r ≡ raise x))
Result-cases (ok a) = inl (a, refl)
Result-cases (raise x) = inr (x, refl)

pub raise≢ok {ℓ} : {A : Type ℓ} {x : Exception} {a : A} → raise x ≢ ok a
raise≢ok h = cc
