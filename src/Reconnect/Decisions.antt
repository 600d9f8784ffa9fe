-- ===== src/Reconnect/Decisions.antt =====
-- How the decision for a replaced receiver in tools/verify_state_vectors.py differs from the one for
-- the receiver that the sender knows.
use core_drp.Prelude.{◌+◌, ◌≤◌, ◌≡◌, Bool, true, arith, if◌then◌else◌}
use core_drp.Reconnect.{
  ReconnectCase, ReconnectVerdict, ReplacementCase, ReplacementVerdict, reconnect, replace_receiver,
  adopt_and_repin, repin, replay_and_repin, replacement_recovery_gap, replacement_split_log,
  replacement_sender_rollback,
}
use core_drp.Reconnect

abbrev pub as_replacement : ReconnectCase → Bool → ReplacementCase
as_replacement x retained = record {
  approved = true;
  hash_match = x.hash_match;
  committed = x.committed;
  remembered = x.remembered;
  tail = x.tail;
  lost_acked_history_retained = retained;
  hash_verifiable = x.receiver_hash_verifiable;
}

-- The decision for a replaced receiver from the one for the known receiver: the receiver is pinned
-- again, and a rollback of the receiver is a replay where the lost history is retained.
abbrev pub replaced_verdict : Bool → ReconnectVerdict → ReplacementVerdict
replaced_verdict retained Reconnect.sender_rollback = replacement_sender_rollback
replaced_verdict retained Reconnect.receiver_rollback =
    if retained then replay_and_repin else replacement_recovery_gap
replaced_verdict retained Reconnect.adopt_ack = adopt_and_repin
replaced_verdict retained Reconnect.resume = repin
replaced_verdict retained _ = replacement_split_log

-- With the history from `earliest` on retained, matching hashes and an approved replacement, a
-- replaced receiver is treated as the known receiver would be, but is pinned again, and a rollback
-- that the retained history covers is replayed.
pub replace_receiver-reconnect :
    (x : ReconnectCase) (retained : Bool)
    → (x.same_receiver_id ≡ true) × (x.same_incarnation ≡ true) × (x.approved_epoch ≡ true)
    → (x.genesis_hash_match ≡ true) × (x.hash_match ≡ true)
    → x.earliest ≤ x.committed + 1
    → replace_receiver (as_replacement x retained) ≡ replaced_verdict retained (reconnect x)
unfolding replace_receiver reconnect
replace_receiver-reconnect x retained known matching kept = ground (arith, known, matching)
