-- ===== src/Tests/Decisions.antt =====
-- The theorems on clock evidence, reconnecting and relay policy at concrete cases.
use core_drp.Reconnect.Staging.{StagedPolicy, staging_digest}
use core_drp.Sha256.{sha256}
use core_drp.Prelude.{
  all, some-inj, ◌≡◌, ◌↔◌, ◌⊎◌, refl, arith, true, false, some, none, [], ◌∷◌, replicate, codes,
  Bytes, be,
}
use core_drp.Prelude.Int.{ℤ, pos, negsuc, ◌≤ℤ◌, ◌+ℤ◌, ◌-ℤ◌}
use core_drp.Result.{ok, raise}
use core_drp.Clock.{
  good, bad, unknown, ClockUpdate, probe_evidence, class_between, accepted, fresh_result, judge,
  verify_clock_update,
}
use core_drp.Clock.Interval.{Within, Inside, class_between_lem}
use core_drp.Clock.Grace.{verify_unknown_grace, grace_not_renewed}
use core_drp.Reconnect.{reconnect}
use core_drp.Reconnect.Binding.{case_of, outcome, check_hello-reconnect}
use core_drp.Policy.{
  Sender, Evidence, Pending, no_relay_required, relay_required, admit, admitted, stage_withdrawal,
  records_before, capped,
}
use core_drp.Policy.Receiver.{Receiver, acknowledge_required, commit_required, committed_before}
use core_drp.Policy.Withdrawal.{IsOld, stop, next, admits, withdrawal_final}
use core_drp.Policy.Commitment.{deliver, acked, commit_waits}
use core_drp.Wal.Peer.{check_hello}
use core_drp.Tests.Sender.{fresh, first_answer}

-- A fresh probe with an offset between -3 and 5 milliseconds.
abbrev update : ClockUpdate
update = record {
  generation = pos 2;
  new_stream = false;
  last_generation = pos 1;
  valid_for_ms = pos 1000;
  effective_expiry_ms = pos 5000;
  reported_skew_ms = pos 100;
  bound_skew_ms = pos 100;
  lower = some (negsuc 2);
  upper = some (pos 5);
  probe_present = true;
  probe_valid = true;
  probe_age_ms = pos 4500;
  processing_exceeded = false;
  state = good;
  reason = probe_evidence;
}

update_accepted : verify_clock_update update ≡ accepted good (pos 500)
unfolding class_between fresh_result judge verify_clock_update ◌-ℤ◌
update_accepted = refl

class_between_lem_example :
    ((class_between (pos 100) (negsuc 2) (pos 5) ≡ good)
      ↔ ((t : ℤ) → Inside (negsuc 2) (pos 5) t → Within (pos 100) t))
    × ((class_between (pos 100) (negsuc 2) (pos 5) ≡ bad)
        ↔ ((t : ℤ) → Inside (negsuc 2) (pos 5) t → ¬ Within (pos 100) t))
class_between_lem_example =
    class_between_lem (pos 100) (negsuc 2) (pos 5) (omega arith) (omega arith)

grace_not_renewed_example :
    ((verify_unknown_grace unknown (some (pos 100)) (pos 400) (pos 1000)).0 ≡ pos 100)
    × ((verify_unknown_grace unknown (some (pos 100)) (pos 400) (pos 1000)).1
        ≤ℤ (verify_unknown_grace good none (pos 100) (pos 1000)).1)
    × (((verify_unknown_grace unknown (some (pos 100)) (pos 400) (pos 1000)).1 ≡ pos 0)
        ⊎ (((verify_unknown_grace unknown (some (pos 100)) (pos 400) (pos 1000)).1
              +ℤ (pos 400 -ℤ pos 100))
            ≡ pos 1000))
unfolding verify_unknown_grace
grace_not_renewed_example = grace_not_renewed good none (pos 100) (pos 400) (pos 1000) (omega arith)

check_hello-reconnect_example :
    check_hello fresh.wal first_answer ≡ outcome (reconnect (case_of fresh.wal first_answer))
check_hello-reconnect_example =
    check_hello-reconnect fresh.wal first_answer refl refl refl (refl, refl) refl (refl, refl) refl

abbrev evidence : Evidence
evidence = record {
  activated = true;
  authorized = true;
  contract = true;
  generation = pos 1;
  from = pos 0;
  until = pos 10000;
  mode = no_relay_required;
  member_of_scope = false;
}

abbrev scope : Bytes
scope = codes "pool"

abbrev idle : Sender
idle = record {
  outcomes = [];
  policies = (scope, evidence) ∷ [];
  admission_caps = [];
  admission_history_known = true;
  last_sequence = 0;
  wal = [];
  admitted_through = [];
}

abbrev holder : Bytes
holder = replicate 16 7

abbrev pending : Pending
pending = record {
  required = holder ∷ [];
  members = holder ∷ [];
  effective = pos 5000;
  generation = pos 2;
  digest = codes "digest";
  acks = [];
  scope = scope;
}

admit_first :
    admit (codes "r1") (scope ∷ []) (pos 4000) idle
    ≡ (ok 1, admitted (codes "r1") (scope ∷ []) (pos 4000) idle)
unfolding admit
admit_first = refl

staged :
    stage_withdrawal scope pending idle ≡ (ok (pos 2, codes "digest"), capped scope pending idle)
unfolding stage_withdrawal
staged = refl

idle-IsOld : IsOld scope (pos 2) idle
idle-IsOld p h = rw (← some-inj h) (omega arith)

withdrawal_final_example :
    records_before scope
      (pos 5000)
      (admit (codes "r2") (scope ∷ []) (pos 4000) (capped scope pending idle)).1.wal
    ≡ true
withdrawal_final_example =
    withdrawal_final scope pending idle (capped scope pending idle)
      (admit (codes "r2") (scope ∷ []) (pos 4000) (capped scope pending idle)).1
      (pos 2, codes "digest") idle-IsOld staged
      (next (admits (codes "r2") (scope ∷ []) (pos 4000) (capped scope pending idle)) (stop _))

abbrev receiver : Receiver
receiver = record {
  pending = some pending;
  mode = no_relay_required;
  holders = holder ∷ [];
  holder_skews = [];
  committed_history_known = true;
  committed_through = [];
}

abbrev switched : Receiver
switched = record receiver { pending = none; mode = relay_required }

committed :
    commit_required (deliver ((holder, (pos 2, codes "digest")) ∷ []) receiver) ≡ (ok tt, switched)
unfolding commit_required deliver acknowledge_required
committed = refl

commit_waits_example :
    (all (λ h. acked h pending ((holder, (pos 2, codes "digest")) ∷ [])) receiver.holders ≡ true)
    × (committed_before scope
          (pos 5000)
          (deliver ((holder, (pos 2, codes "digest")) ∷ []) receiver).committed_through
        ≡ true)
    × (switched.mode ≡ relay_required)
commit_waits_example =
    commit_waits ((holder, (pos 2, codes "digest")) ∷ []) receiver switched pending refl refl
      committed

-- A staged policy for one sender, with no mode.
abbrev staged_policy : StagedPolicy
staged_policy = record {
  policy_kind = pos 1;
  scope = codes "btc1";
  sender = replicate 16 7;
  effective_unix_ms = pos 1000;
  mode = none;
  policy_generation = pos 3;
}

abbrev policy_digest : Bytes
policy_digest = elim (staging_digest staged_policy) [ ok d ↦ d | raise x ↦ [] ]

digest_computed : staging_digest staged_policy ≡ ok policy_digest
unfolding staging_digest sha256 be
digest_computed = refl
