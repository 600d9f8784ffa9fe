-- ===== src/Profile.antt =====
-- tools/verify_profile_vectors.py and tools/verify_accounting_schema3_safety.py: what the Mining and
-- Miningcore profiles accept. A protobuf message is a record of its fields; an optional field that
-- HasField does not find is none. A double is its bit pattern.
pub mod Strict
pub mod Bitcoin
pub mod Candidate
use core_drp.Prelude.{
  ℕ, ◌+◌, ◌-◌, ◌*◌, ◌/◌, ◌%◌, ◌^◌, Bool, true, false, not, ◌&&◌, ◌||◌, if◌then◌else◌, ltb, leb,
  ◌==◌, Option, none, some, List, [], ◌∷◌, length, Bytes, bytes_eq, nonzero, codes,
}
use core_drp.Prelude.Int.{ℤ, pos, eq_ℤ, leb_ℤ}
use core_drp.Result.{Result, ok, raise}
use core_drp.Finance.Binary64.{Bits}
use core_drp.Finance.Effects.{is_scope, PpsInputs, validate_pps}

-- math.isfinite
abbrev pub is_finite : ℕ → Bool
is_finite d = not (d / 2 ^ 52 % 2048 == 2047)

-- x>0, of a finite double
abbrev pub is_positive : ℕ → Bool
is_positive d = ltb 0 d && ltb d (2 ^ 63)

-- x>=0, of a finite double: -0.0 is not below zero
abbrev pub is_not_negative : ℕ → Bool
is_not_negative d = leb d (2 ^ 63)

abbrev pub is_nan : ℕ → Bool
is_nan d = not (is_finite d) && not (d % 2 ^ 52 == 0)

-- x==y of doubles: the two zeros are equal, and a NaN equals nothing
abbrev pub double_eq : ℕ → ℕ → Bool
double_eq a b = not (is_nan a) && not (is_nan b) && (a == b || (a % 2 ^ 63 == 0 && b % 2 ^ 63 == 0))

pub record Share : Type 0 where
  pub block_height : ℕ
  pub miner : Bytes
  pub worker : Bytes
  pub user_agent : Bytes
  pub source_ip : Bytes
  pub source : Bytes
  pub session_id : Bytes
  pub created_unix_ms : ℤ
  pub difficulty : ℕ
  pub achieved_share_difficulty : ℕ
  pub actual_difficulty : ℕ
  pub network_difficulty : ℕ
  pub is_block_candidate : Bool
  pub candidate_hash : Option Bytes
  pub has_candidate_kind : Bool
  pub has_transaction_confirmation_data : Bool
  pub has_block_reward : Bool

-- A ShareProjection of the accounting event.
pub record Projection : Type 0 where
  pub scope : Bytes
  pub share : Option Share
  pub accounting_role : ℕ
  pub preserve_created : Bool
  pub accounting_id : Option Bytes
  pub reward_basis_satoshis : Option ℤ
  pub block_only : Bool
  pub block_record_emitted : Bool
  pub statistical_record_emitted : Bool
  pub pps_calculated_amount : Option Bytes

pub record Accounting : Type 0 where
  pub primary : Option Projection
  pub paired : Option Projection

-- bool(b) of a byte string
abbrev pub non_empty : Bytes → Bool
non_empty b = not (length b == 0)

-- A field read with its default, where HasField does not find it.
abbrev pub bytes_or_empty : Option Bytes → Bytes
bytes_or_empty none = []
bytes_or_empty (some b) = b

abbrev pub number_or_zero : Option ℤ → ℤ
number_or_zero none = pos 0
number_or_zero (some n) = n

abbrev pub is_present {ℓ} : {A : Type ℓ} → Option A → Bool
is_present none = false
is_present (some a) = true

-- The scope policy of projection_pps, with the values that policy.get gives.
pub record PpsPolicy : Type 0 where
  pub scheme : ℕ
  pub retained : Bytes
  pub coin : Bytes
  pub eligible_network : Bool

-- {'scheme':1}
abbrev pub non_pps : PpsPolicy
non_pps = record {
  scheme = 1;
  retained = codes "100";
  coin = codes "bitcoin";
  eligible_network = false;
}

-- struct.pack('>d',x).hex()
abbrev pub bits_of : ℕ → Bits
bits_of d = record { width = 16; value = d }

-- projection_pps of tools/financial_semantics.py, which reads the share of the projection
unfoldable pub projection_pps : Projection → Share → PpsPolicy → Result (Unit {0})
unfolding validate_pps
projection_pps p s policy = validate_pps policy.scheme p.pps_calculated_amount (record {
  reward = number_or_zero p.reward_basis_satoshis;
  assigned = bits_of s.difficulty;
  network = bits_of s.network_difficulty;
  retained = policy.retained;
  coin = policy.coin;
  eligible_network = policy.eligible_network;
})

abbrev pub succeeds {ℓ} : {A : Type ℓ} → Result A → Bool
succeeds (ok a) = true
succeeds (raise x) = false

abbrev pub all_finite : Share → Bool
all_finite m =
    is_finite m.difficulty
    && is_finite m.achieved_share_difficulty
    && is_finite m.actual_difficulty
    && is_finite m.network_difficulty

-- The candidate fields of a share agree with its flag.
unfoldable pub candidate_agrees : Share → Bool
candidate_agrees m =
    (m.is_block_candidate
      && is_present m.candidate_hash
      && non_empty (bytes_or_empty m.candidate_hash))
    || (not m.is_block_candidate
        && not (
            is_present m.candidate_hash
            || m.has_candidate_kind
            || m.has_transaction_confirmation_data
            || m.has_block_reward))

-- valid_share
unfoldable pub valid_share : Share → ℤ → ℕ → Bytes → Bool
unfolding candidate_agrees
valid_share m tm lane scope =
    lane == 0
    && is_scope scope
    && eq_ℤ m.created_unix_ms tm
    && non_empty m.miner
    && all_finite m
    && is_positive m.difficulty
    && is_positive m.actual_difficulty
    && is_positive m.network_difficulty
    && is_not_negative m.achieved_share_difficulty
    && candidate_agrees m

-- A test of a field, which fails where HasField does not find it.
abbrev pub with_field {ℓ} : {A : Type ℓ} → (A → Bool) → Option A → Bool
with_field test none = false
with_field test (some a) = test a

abbrev pub role_allows : Bool → ℕ → Bool
role_allows paired role = if paired then role == 3 else role == 1 || role == 2

-- valid_projection
unfoldable pub valid_projection : Projection → ℤ → Bool → Bool
unfolding valid_share projection_pps
valid_projection p tm paired =
    is_scope p.scope
    && with_field (λ s. valid_share s tm 0 p.scope && succeeds (projection_pps p s non_pps)) p.share
    && role_allows paired p.accounting_role
    && p.preserve_created
    && not (is_present p.accounting_id && not (non_empty (bytes_or_empty p.accounting_id)))
    && not (
        is_present p.reward_basis_satoshis
        && leb_ℤ (number_or_zero p.reward_basis_satoshis) (pos 0))
    && not (p.block_only && (not p.block_record_emitted || p.statistical_record_emitted))
    && not (p.statistical_record_emitted && p.block_only)

-- shared(p)==shared(q)
abbrev pub shares_agree : Share → Share → Bool
shares_agree s t =
    bytes_eq s.worker t.worker
    && bytes_eq s.user_agent t.user_agent
    && bytes_eq s.source_ip t.source_ip
    && bytes_eq s.source t.source
    && bytes_eq s.session_id t.session_id
    && eq_ℤ s.created_unix_ms t.created_unix_ms
    && double_eq s.achieved_share_difficulty t.achieved_share_difficulty

-- Both projections have shares that agree.
unfoldable pub shared_agree : Option Share → Option Share → Bool
shared_agree none t = false
shared_agree (some s) none = false
shared_agree (some s) (some t) = shares_agree s t

-- The checks on a paired projection.
abbrev pub valid_pair : ℤ → Projection → Projection → Bool
valid_pair tm primary paired =
    valid_projection paired tm true
    && not (bytes_eq paired.scope primary.scope)
    && is_present primary.accounting_id
    && is_present paired.accounting_id
    && non_empty (bytes_or_empty primary.accounting_id)
    && bytes_eq (bytes_or_empty primary.accounting_id) (bytes_or_empty paired.accounting_id)
    && shared_agree primary.share paired.share

abbrev pub with_pair : (Projection → Bool) → Option Projection → Bool
with_pair test none = true
with_pair test (some paired) = test paired

-- Role 1 stands alone, and role 2 has a paired projection.
abbrev pub role_pairs : ℕ → Bool → Bool
role_pairs role has_paired = not (role == 1 && has_paired) && not (role == 2 && not has_paired)

abbrev pub valid_primary : Accounting → ℤ → Bytes → Projection → Bool
valid_primary m tm outer_scope primary =
    valid_projection primary tm false
    && bytes_eq primary.scope outer_scope
    && role_pairs primary.accounting_role (is_present m.paired)
    && with_pair (valid_pair tm primary) m.paired

-- valid_accounting
unfoldable pub valid_accounting : Accounting → ℤ → Bytes → Bool
unfolding valid_projection shared_agree
valid_accounting m tm outer_scope = with_field (valid_primary m tm outer_scope) m.primary
