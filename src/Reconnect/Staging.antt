-- ===== src/Reconnect/Staging.antt =====
-- The evidence of a staged policy and the digest of its staging, and the verdicts on producers
-- (tools/verify_freeze_completion_vectors.py). An error of struct.pack counts as a ValueError.
pub mod Injective
use core_drp.Prelude.{
  ℕ, suc, ◌^◌, ◌-◌, ◌≡◌, refl, sym, ap, ◌∙◌, ◌⊎◌, inl, inr, arith, Bool, true, false, not, ◌&&◌,
  leb, ◌==◌, if◌then◌else◌, Option, none, some, List, [], ◌∷◌, ◌++◌, length, append-inj, Bytes,
  bytes_eq, codes, be,
}
use mathlib.Core.List.{append_assoc}
use core_drp.Prelude.Int.{ℤ, pos}
use core_drp.Result.{Result, ok, ok-inj, ◌>>=◌, >>=-eq-ok}
use core_drp.Requests.Schema.{u8, u64, i64, int}
use core_drp.Requests.Encoding.{integer, signed, lp, ascii_of, scalar_value}
use core_drp.Requests.Scalars.{lp-told, ascii_of-eq-ok, scalar_value-Told}
use core_drp.Sha256.{sha256}

-- A producer case, of two scopes, of a registration, of a sequence and of a generation.
pub data ProducerCase : Type 0 where
  same_uuid_different_scope_is_distinct : Bytes → Bytes → ProducerCase
  unregistered_producer : Bool → ProducerCase
  producer_registry_bound : Bool → ℕ → ℕ → ProducerCase
  sequence_max_seals : ℕ → ProducerCase
  generation_max_exhausts_producer : Bool → ℕ → ProducerCase

pub data ProducerVerdict : Type 0 where
  distinct_namespaces same_namespace reject_before_wal admit : ProducerVerdict
  reject_registration accept_registration seal_no_increment increment : ProducerVerdict
  producer_exhausted next_generation : ProducerVerdict

-- producer_idempotency_cases
unfoldable pub producer_verdict : ProducerCase → ProducerVerdict
producer_verdict (same_uuid_different_scope_is_distinct scope_a scope_b) =
    if not (bytes_eq scope_a scope_b) then distinct_namespaces else same_namespace
producer_verdict (unregistered_producer registered) =
    if not registered then reject_before_wal else admit
producer_verdict (producer_registry_bound new_registration registered_count max_registered) =
    if new_registration && leb max_registered registered_count
    then reject_registration
    else accept_registration
producer_verdict (sequence_max_seals admission_sequence) =
    if admission_sequence == 2 ^ 64 - 1 then seal_no_increment else increment
producer_verdict (generation_max_exhausts_producer sealed producer_generation) =
    if sealed && (producer_generation == 2 ^ 64 - 1) then producer_exhausted else next_generation

-- A staged policy. The sender is the bytes of its UUID, or none of them where there is no sender.
pub record StagedPolicy : Type 0 where
  pub policy_kind : ℤ
  pub scope : Bytes
  pub sender : Bytes
  pub effective_unix_ms : ℤ
  pub mode : Option ℤ
  pub policy_generation : ℤ

abbrev pub has_sender : Bytes → Bytes
has_sender [] = 0 ∷ []
has_sender (b ∷ bs) = 1 ∷ []

-- u8(1 if mode else 0)+mode
abbrev pub mode_part : Option ℤ → Result Bytes
mode_part none = ok (0 ∷ [])
mode_part (some m) = integer 1 (int m) >>= λ b. ok (1 ∷ b)

-- staged_evidence
unfoldable pub staged_evidence : StagedPolicy → Result Bytes
unfolding integer signed ascii_of
staged_evidence x = do
  q ← ascii_of x.scope
  kind ← integer 1 (int x.policy_kind)
  size ← integer 2 (int (pos (length q)))
  effective ← signed (int x.effective_unix_ms)
  mode ← mode_part x.mode
  generation ← integer 8 (int x.policy_generation)
  ok (
      be 2 1
      ++ (kind
          ++ (size
              ++ (q
                  ++ (has_sender x.sender ++ (x.sender ++ (effective ++ (mode ++ generation))))))))

-- field, of each value from an identifier on
unfoldable pub fields_from : ℕ → List Bytes → Result Bytes
unfolding lp
fields_from id [] = ok []
fields_from id (v ∷ vs) = do b ← lp v; bs ← fields_from (suc id) vs; ok (be 2 id ++ (b ++ bs))

-- The values of the six fields of the body.
unfoldable pub staging_values : StagedPolicy → Result (List Bytes)
unfolding staged_evidence integer signed ascii_of
staging_values x = do
  evidence ← staged_evidence x
  q ← ascii_of x.scope
  generation ← integer 8 (int x.policy_generation)
  effective ← signed (int x.effective_unix_ms)
  kind ← integer 1 (int x.policy_kind)
  ok (q ∷ generation ∷ effective ∷ kind ∷ x.sender ∷ evidence ∷ [])

-- pre, and its digest
unfoldable pub staging_preimage : StagedPolicy → Result Bytes
unfolding staging_values fields_from lp
staging_preimage x = do
  values ← staging_values x
  fields ← fields_from 1 values
  body ← lp (be 2 1 ++ (be 2 6 ++ fields))
  ok (codes "CoreDRP1-ADMIN" ++ (be 2 0x0106 ++ body))

unfoldable pub staging_digest : StagedPolicy → Result Bytes
unfolding staging_preimage
staging_digest x = staging_preimage x >>= λ pre. ok (sha256 pre)
