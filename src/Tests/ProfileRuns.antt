-- ===== src/Tests/ProfileRuns.antt =====
-- The theorems on the profiles, on Bitcoin candidates and on carry histories at concrete inputs.
use core_drp.Prelude.{
  ℕ, ◌≡◌, refl, true, false, some, none, List, [], ◌∷◌, ◌++◌, ◌↔◌, replicate, Bytes, codes,
}
use core_drp.Prelude.Int.{ℤ, pos, ◌≤ℤ◌, ◌<ℤ◌}
use core_drp.Result.{ok}
use core_drp.Sha256.{sha256}
use core_drp.Profile.{Share, Projection, Accounting, candidate_agrees, valid_accounting}
use core_drp.Profile.Strict.{strict_accounting, has_agreeing_candidate, strict_accounting-valid}
use core_drp.Profile.Bitcoin.{h2, Transaction, parse_tx}
use core_drp.Profile.Bitcoin.Transactions.{stripped, parse_tx-nonwit}
use core_drp.Profile.Candidate.{
  Parameters, Candidate, direct_payments, reversed, zeros32, validate_candidate,
}
use core_drp.Shadow.{CarryRow, unit, carry_finding}
use core_drp.Shadow.Carry.{Explains, carry_finding-none}
use core_drp.Profile.Candidate.Payments.{total_paid}
use core_drp.Profile.Candidate.Payouts.{PaysOut, IsCoinbaseOf, validate_candidate-PaysOut}

-- The double 1.
abbrev one_double : ℕ
one_double = 0x3ff0000000000000

abbrev share : Share
share = record {
  block_height = 7;
  miner = codes "miner";
  worker = codes "worker";
  user_agent = codes "agent";
  source_ip = codes "192.0.2.1";
  source = codes "pool";
  session_id = codes "session";
  created_unix_ms = pos 1000;
  difficulty = one_double;
  achieved_share_difficulty = one_double;
  actual_difficulty = one_double;
  network_difficulty = one_double;
  is_block_candidate = false;
  candidate_hash = none;
  has_candidate_kind = false;
  has_transaction_confirmation_data = false;
  has_block_reward = false;
}

abbrev parent : Projection
parent = record {
  scope = codes "btc1";
  share = some share;
  accounting_role = 2;
  preserve_created = true;
  accounting_id = some (replicate 16 7);
  reward_basis_satoshis = some (pos 5000000000);
  block_only = false;
  block_record_emitted = false;
  statistical_record_emitted = true;
  pps_calculated_amount = none;
}

abbrev auxiliary : Projection
auxiliary = record parent { scope = codes "nmc1"; accounting_role = 3 }

abbrev pair : Accounting
pair = record { primary = some parent; paired = some auxiliary }

pair_strict : strict_accounting pair (pos 1000) (codes "btc1") ≡ true
unfolding strict_accounting
pair_strict = refl

strict_accounting-valid_example : valid_accounting pair (pos 1000) (codes "btc1") ≡ true
strict_accounting-valid_example =
    strict_accounting-valid pair (pos 1000) (codes "btc1")
      (unfold has_agreeing_candidate candidate_agrees in refl)
      (unfold has_agreeing_candidate candidate_agrees in refl) pair_strict

-- A coinbase with one input and one output of 50 units, whose input script is empty.
abbrev coinbase_bytes : Bytes
coinbase_bytes =
    1
    ∷ 0
    ∷ 0
    ∷ 0
    ∷ 1
    ∷ (zeros32
        ++ replicate 4 255
        ++ 0 ∷ replicate 4 255
        ++ 1 ∷ 50 ∷ replicate 7 0
        ++ 1 ∷ 81 ∷ replicate 4 0)

abbrev coinbase : Transaction
coinbase = record {
  nonwit = coinbase_bytes;
  inputs =
      record { prev = zeros32; index = 0xffffffff; script = []; sequence = replicate 4 255 } ∷ [];
  outs = record { value = 50; script = 81 ∷ [] } ∷ [];
  witnesses = [];
  segwit = false;
}

coinbase_parsed : parse_tx (coinbase_bytes ++ 5 ∷ []) ≡ ok ((coinbase, coinbase_bytes), 5 ∷ [])
unfolding parse_tx
coinbase_parsed = refl

parse_tx-nonwit_example :
    parse_tx (coinbase_bytes ++ 6 ∷ []) ≡ ok ((stripped coinbase, coinbase_bytes), 6 ∷ [])
parse_tx-nonwit_example =
    parse_tx-nonwit (coinbase_bytes ++ 5 ∷ []) coinbase coinbase_bytes (5 ∷ []) coinbase_parsed
      (λ e. cc e) (6 ∷ [])

abbrev candidate_header : Bytes
candidate_header = replicate 36 1 ++ h2 coinbase_bytes ++ replicate 12 2

abbrev candidate : Candidate
candidate = record {
  block_height = 5;
  block_hash = reversed (h2 candidate_header);
  coinbase_txid = reversed (h2 coinbase_bytes);
  serialized_block = candidate_header ++ 1 ∷ coinbase_bytes;
  gross_reward_satoshis = pos 50;
  miner_script_pub_key = 81 ∷ [];
  miner_reward_satoshis = pos 50;
  recipients = [];
  candidate_id = replicate 32 9;
  submission_state = 1;
  consensus_commitments = [];
}

abbrev parameters : Parameters
parameters = record {
  direct_candidate_validation_version = some (pos 2);
  bip34_activation_height = some (pos 227931);
  allowed_consensus_commitment_classes = [];
}

candidate_accepted : validate_candidate candidate (some parameters) (replicate 32 9) ≡ ok true
unfolding validate_candidate sha256
candidate_accepted = refl

validate_candidate-PaysOut_example :
    (coin : Transaction) × IsCoinbaseOf candidate coin
    × PaysOut candidate coin.outs
    × (total_paid (direct_payments candidate) ≡ candidate.gross_reward_satoshis)
validate_candidate-PaysOut_example =
    validate_candidate-PaysOut candidate (some parameters) (replicate 32 9) candidate_accepted

-- Two rows: a remainder of half a unit is carried from the first to the second.
abbrev carried_rows : List CarryRow
carried_rows =
    (codes "a", pos 1500000000000, pos 1000000000000)
    ∷ (codes "b", pos 500000000000, pos 1000000000000)
    ∷ []

carry_finding-none_example : (carry_finding carried_rows ≡ none) ↔ (
    (opening : ℤ) × (pos 0 ≤ℤ opening) × (opening <ℤ unit) × Explains opening (pos 0) carried_rows)
carry_finding-none_example = carry_finding-none carried_rows
