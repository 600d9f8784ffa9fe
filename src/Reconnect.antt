-- ===== src/Reconnect.antt =====
-- tools/verify_state_vectors.py: the decisions for a reconnecting sender, for a replaced receiver, and
-- for the change to a new epoch of a log, as functions of a case of the vectors.
pub mod Binding
pub mod Decisions
pub mod Rules
pub mod Completion
pub mod Staging
use core_drp.Prelude.{
  ℕ, ◌+◌, ◌≡◌, Bool, true, false, not, ◌&&◌, ◌||◌, ltb, leb, ◌==◌, if◌then◌else◌,
}
use core_drp.Prelude.Int.{ℤ, pos, ◌+ℤ◌, ltb_ℤ, leb_ℤ, eq_ℤ}

-- C is the receiver's committed sequence, R the remembered acknowledgement, T the durable tail and E
-- the earliest retained sequence.
pub record ReconnectCase : Type 0 where
  pub committed : ℕ
  pub remembered : ℕ
  pub tail : ℕ
  pub earliest : ℕ
  pub same_receiver_id : Bool
  pub same_incarnation : Bool
  pub approved_epoch : Bool
  pub genesis_hash_match : Bool
  pub hash_match : Bool
  pub receiver_hash_verifiable : Bool

pub data ReconnectVerdict : Type 0 where
  receiver_id_changed receiver_incarnation_changed epoch_not_approved : ReconnectVerdict
  sender_rollback receiver_rollback split_log recovery_gap adopt_ack resume : ReconnectVerdict

unfoldable pub reconnect : ReconnectCase → ReconnectVerdict
reconnect x =
    if not x.same_receiver_id
    then receiver_id_changed
    else if not x.same_incarnation
    then receiver_incarnation_changed
    else if not x.approved_epoch
    then epoch_not_approved
    else if ltb x.tail x.committed
    then sender_rollback
    else if ltb x.committed x.remembered
    then receiver_rollback
    else if (x.committed == 0) && (x.remembered == 0) && not x.genesis_hash_match
    then split_log
    else if ltb 0 x.committed && not x.hash_match
    then split_log
    else if ltb (x.committed + 1) x.earliest
    then recovery_gap
    else if ltb x.remembered x.committed
    then if x.receiver_hash_verifiable then adopt_ack else split_log
    else resume

-- A receiver that replaces another one.
pub record ReplacementCase : Type 0 where
  pub approved : Bool
  pub hash_match : Bool
  pub committed : ℕ
  pub remembered : ℕ
  pub tail : ℕ
  pub lost_acked_history_retained : Bool
  pub hash_verifiable : Bool

pub data ReplacementVerdict : Type 0 where
  deny replacement_split_log replacement_sender_rollback : ReplacementVerdict
  replay_and_repin replacement_recovery_gap adopt_and_repin repin : ReplacementVerdict

unfoldable pub replace_receiver : ReplacementCase → ReplacementVerdict
replace_receiver x =
    if not x.approved
    then deny
    else if not x.hash_match
    then replacement_split_log
    else if ltb x.tail x.committed
    then replacement_sender_rollback
    else if ltb x.committed x.remembered
    then if x.lost_acked_history_retained then replay_and_repin else replacement_recovery_gap
    else if ltb x.remembered x.committed
    then if x.hash_verifiable then adopt_and_repin else replacement_split_log
    else repin

-- A change of epoch. `gap_scope_any` is the gap scope '*'.
pub data EpochKind : Type 0 where
  normal exceptional_exact exceptional_wildcard exceptional_missing_atomic_gap retired_import :
      EpochKind

pub record EpochCase : Type 0 where
  pub case_kind : EpochKind
  pub committed : ℕ
  pub remembered : ℕ
  pub tail : ℕ
  pub final_sequence : ℕ
  pub hashes_match : Bool
  pub scope_attribution_complete : Bool
  pub gap_scope_any : Bool
  pub gap_first : ℕ
  pub gap_last : ℕ
  pub atomic_gap_and_retire : Bool
  pub retired_epoch : Bool
  pub chain_verified : Bool
  pub range_verified : Bool
  pub effects_idempotent : Bool

pub data EpochVerdict : Type 0 where
  allow_normal_transition deny_normal_transition : EpochVerdict
  allow_exceptional_transition deny_exceptional_transition : EpochVerdict
  resolved_reconciled deny_import : EpochVerdict

-- scope_ok
abbrev pub scope_ok : EpochKind → EpochCase → Bool
scope_ok exceptional_exact x = x.scope_attribution_complete && not x.gap_scope_any
scope_ok exceptional_wildcard x = not x.scope_attribution_complete && x.gap_scope_any
scope_ok exceptional_missing_atomic_gap x = true
scope_ok normal x = false
scope_ok retired_import x = false

abbrev pub exceptional : EpochKind → EpochCase → EpochVerdict
exceptional k x =
    if (x.remembered == x.committed)
      && (x.gap_first == x.committed + 1)
      && (x.gap_last == x.tail)
      && scope_ok k x
      && x.atomic_gap_and_retire
    then allow_exceptional_transition
    else deny_exceptional_transition

abbrev pub decide_epoch : EpochKind → EpochCase → EpochVerdict
decide_epoch normal x =
    if (x.committed == x.remembered)
      && (x.remembered == x.tail)
      && (x.tail == x.final_sequence)
      && x.hashes_match
    then allow_normal_transition
    else deny_normal_transition
decide_epoch exceptional_exact x = exceptional exceptional_exact x
decide_epoch exceptional_wildcard x = exceptional exceptional_wildcard x
decide_epoch exceptional_missing_atomic_gap x = exceptional exceptional_missing_atomic_gap x
decide_epoch retired_import x =
    if x.retired_epoch && x.chain_verified && x.range_verified && x.effects_idempotent
    then resolved_reconciled
    else deny_import

unfoldable pub epoch_transition : EpochCase → EpochVerdict
epoch_transition x = decide_epoch x.case_kind x
