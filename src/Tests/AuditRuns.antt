-- ===== src/Tests/AuditRuns.antt =====
-- The audit of a settlement, run on a bundle with one event.
use core_drp.Prelude.{
  ℕ, ◌+◌, ◌≡◌, refl, true, false, some, none, [], ◌∷◌, replicate, Bytes, codes, hex, from_hex, be,
}
use core_drp.Prelude.Int.{pos}
use core_drp.Result.{Result, ok, raise}
use core_drp.Sha256.{sha256}
use core_drp.Finance.Allocation.Conservation.{IsUnits, TotalUnits}
use core_drp.Profile
use core_drp.Profile.{Projection, Accounting}
use core_drp.Audit.{AuditEvent, Bundle, event_hash, bundle_digest}
use core_drp.Audit.Rows.{Terms, no_share}
use core_drp.Audit.Checks.{Allocated, audit}
use core_drp.Audit.Conserved.{amounts_in, audit-conserves}

abbrev bytes_in : Result Bytes → Bytes
bytes_in (ok b) = b
bytes_in (raise x) = []

abbrev unchained : AuditEvent
unchained = record {
  event_time = pos 1000;
  sender = hex (replicate 16 1);
  sequence = pos 1;
  relay = hex (replicate 16 2);
  epoch = hex (replicate 16 3);
  lane = pos 0;
  event_type = pos 512;
  scope = hex (codes "btc1");
  previous_chain_hash = hex (replicate 32 4);
  chain_hash = [];
  payload = hex (codes "share");
}

abbrev chained : AuditEvent
chained = record unchained { chain_hash = bytes_in (event_hash unchained) }

abbrev share : Profile.Share
share = record no_share {
  miner = codes "miner";
  created_unix_ms = pos 1000;
  difficulty = 0x3ff0000000000000;
  network_difficulty = 0x3ff0000000000000;
}

abbrev projection : Projection
projection = record {
  scope = codes "btc1";
  share = some share;
  accounting_role = 1;
  preserve_created = true;
  accounting_id = some (replicate 16 7);
  reward_basis_satoshis = none;
  block_only = false;
  block_record_emitted = false;
  statistical_record_emitted = true;
  pps_calculated_amount = none;
}

abbrev parse : Bytes → Result Accounting
parse payload = ok (record { primary = some projection; paired = none })

abbrev bundle : Bundle
bundle = record {
  summary_hash = hex (replicate 32 5);
  inputs = record {
    block_hash = hex (replicate 32 6);
    block_height = pos 7;
    gross_reward = codes "1.5";
    deductions = (hex (codes "fee"), codes "0.5") ∷ [];
    distributable_reward = codes "1";
    finder_accounting_id = none;
    finder_percentage = codes "0";
  };
  events = chained ∷ [];
}

abbrev terms : Terms
terms = record {
  scope = codes "btc1";
  scheme = 3;
  factor = codes "2";
  adjustment = codes "1";
  finder_percentage = codes "0";
}

abbrev allocated : Allocated
allocated = (hex (replicate 16 7), (codes "miner", codes "1")) ∷ []

audited :
    audit parse bundle terms allocated ≡ ok (allocated, codes "0", bytes_in (bundle_digest bundle))
unfolding audit event_hash bundle_digest sha256 be from_hex
audited = refl

audit-conserves_example :
    (n : ℕ) × (d : ℕ) × (k : ℕ) × TotalUnits (amounts_in allocated) n
    × IsUnits (codes "0") d
    × TotalUnits bundle.inputs.deductions k
    × IsUnits bundle.inputs.gross_reward (n + d + k)
audit-conserves_example =
    audit-conserves parse bundle terms allocated allocated (codes "0")
      (bytes_in (bundle_digest bundle)) audited
