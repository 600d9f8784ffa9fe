-- ===== src/Profile/Candidate.antt =====
-- tools/verify_profile_vectors.py, validate_candidate: a Bitcoin block whose coinbase pays the miner
-- and the recipients directly. The message is what the protobuf runtime parses from the payload.
pub mod Payments
pub mod Payouts
use core_drp.Prelude.{
  ℕ, zero, suc, ◌+◌, ◌-◌, ◌*◌, ◌^◌, Bool, true, false, not, ◌&&◌, ◌||◌, if◌then◌else◌, ltb, leb,
  ◌==◌, Option, none, some, List, [], ◌∷◌, ◌++◌, length, take, drop, get_elem?, replicate, map, all,
  any, Bytes, bytes_eq, codes,
}
use mathlib.Core.Option
use core_drp.Prelude.Int.{ℤ, pos, ◌+ℤ◌, eq_ℤ, leb_ℤ}
use core_drp.Result.{Result, ok, raise, value_error, ◌>>=◌, ◌>>◌}
use core_drp.Policy.{member}
use core_drp.Finance.Sorting.{distinct_by}
use core_drp.Profile.Bitcoin.{
  rv, parse_tx, repeat, h2, Input, Output, Transaction, merkle, scriptnum_minimal,
}

-- network_parameters; a value that is not an int is none
pub record Parameters : Type 0 where
  pub direct_candidate_validation_version : Option ℤ
  pub bip34_activation_height : Option ℤ
  pub allowed_consensus_commitment_classes : List Bytes

-- BitcoinDirectCoinbaseCandidate. A recipient is an amount with a script, and a commitment an index
-- with a script.
pub record Candidate : Type 0 where
  pub block_height : ℕ
  pub block_hash : Bytes
  pub coinbase_txid : Bytes
  pub serialized_block : Bytes
  pub gross_reward_satoshis : ℤ
  pub miner_script_pub_key : Bytes
  pub miner_reward_satoshis : ℤ
  pub recipients : List (ℤ × Bytes)
  pub candidate_id : Bytes
  pub submission_state : ℕ
  pub consensus_commitments : List (ℕ × Bytes)

-- bytes.fromhex('6a24aa21a9ed')
abbrev pub magic : Bytes
magic = 0x6a ∷ 0x24 ∷ 0xaa ∷ 0x21 ∷ 0xa9 ∷ 0xed ∷ []

abbrev pub is_commitment : Bytes → Bool
is_commitment script = leb 38 (length script) && bytes_eq (take 6 script) magic

-- commitment_class
unfoldable pub commitment_class : Bytes → Option Bytes
commitment_class script = if is_commitment script then some (codes "BIP141") else none

abbrev pub reversed_onto : Bytes → Bytes → Bytes
reversed_onto done [] = done
reversed_onto done (x ∷ xs) = reversed_onto (x ∷ done) xs

-- b[::-1]
abbrev pub reversed : Bytes → Bytes
reversed = reversed_onto []

abbrev pub zeros32 : Bytes
zeros32 = replicate 32 0

-- The indices of the outputs that commit, counted from n on.
abbrev pub indices_from : ℕ → List Output → List ℕ
indices_from n [] = []
indices_from n (o ∷ outs) =
    if is_commitment o.script then n ∷ indices_from (n + 1) outs else indices_from (n + 1) outs

-- max(xs) of indices in ascending order
abbrev pub last_index : ℕ → List ℕ → ℕ
last_index n [] = n
last_index n (m ∷ ms) = last_index m ms

abbrev pub is_coinbase_input : List Input → Bool
is_coinbase_input (i ∷ []) = bytes_eq i.prev zeros32 && i.index == 0xffffffff
is_coinbase_input inputs = false

abbrev pub coinbase_script : List Input → Bytes
coinbase_script [] = []
coinbase_script (i ∷ inputs) = i.script

abbrev pub same_number : Option ℤ → ℤ → Bool
same_number none n = false
same_number (some m) n = eq_ℤ m n

-- The checks before the transactions are read.
abbrev pub accepts_header : Candidate → Option Parameters → Bool
accepts_header m none = false
accepts_header m (some params) =
    same_number params.direct_candidate_validation_version (pos 2)
    && (elim params.bip34_activation_height [ none ↦ false | some a ↦ leb_ℤ (pos 0) a ])
    && not (ltb (length m.serialized_block) 81)
    && not (ltb 4000000 (length m.serialized_block))
    && bytes_eq (reversed (h2 (take 80 m.serialized_block))) m.block_hash

-- The value with which the witnesses are salted, where there is one.
abbrev pub witness_nonce : Transaction → Option Bytes
witness_nonce coin = elim coin.witnesses [
  | ((nonce ∷ stack) ∷ witnesses) ↦ if length nonce == 32 then some nonce else none
  | _ ↦ none
]

abbrev pub script_at : List Output → ℕ → Bytes
script_at outs i = elim (get_elem? outs i) [ none ↦ [] | some o ↦ o.script ]

-- The witness commitment in the last output that commits.
abbrev pub accepts_witness : Transaction → List Bytes → List ℕ → Bool
accepts_witness coin later [] = true
accepts_witness coin later (i ∷ indices) = coin.segwit && (elim (witness_nonce coin) [
  | none ↦ false
  | some nonce ↦
      bytes_eq (take 32 (drop 6 (script_at coin.outs (last_index i indices))))
        (h2 (merkle (zeros32 ∷ map h2 later) ++ nonce))
])

abbrev pub is_empty {ℓ} : {A : Type ℓ} → List A → Bool
is_empty [] = true
is_empty (x ∷ xs) = false

-- The declared outputs, by their index.
abbrev pub Declared : Type 0
Declared = List (ℕ × Output)

abbrev pub declares : ℕ → Declared → Bool
declares i = any (λ d. d.0 == i)

abbrev pub is_allowed : List Bytes → Option Bytes → Bool
is_allowed allowed none = false
is_allowed allowed (some cls) = member cls allowed

-- The checks of one commitment on its output.
abbrev pub may_declare : List Bytes → Declared → ℕ × Bytes → Output → Bool
may_declare allowed declared c out =
    not (declares c.0 declared)
    && bytes_eq out.script c.1
    && out.value == 0
    && is_allowed allowed (commitment_class out.script)

abbrev pub declared_output : List Bytes → Declared → ℕ × Bytes → Option Output → Option Output
declared_output allowed declared c none = none
declared_output allowed declared c (some out) =
    if may_declare allowed declared c out then some out else none

-- One round of the loop over the commitments: the output, where it may be declared.
abbrev pub commitment_output : List Output → List Bytes → Declared → ℕ × Bytes → Option Output
commitment_output outs allowed declared c = declared_output allowed declared c (get_elem? outs c.0)

-- for c in m.consensus_commitments
unfoldable pub declare_all :
    List Output → List Bytes → List (ℕ × Bytes) → Declared → Option Declared
unfolding commitment_class
declare_all outs allowed [] declared = some declared
declare_all outs allowed (c ∷ cs) declared = elim (commitment_output outs allowed declared c) [
  | none ↦ none
  | some out ↦ declare_all outs allowed cs (declared ++ (c.0, out) ∷ [])
]

-- A value and a script, as the source compares them.
abbrev pub Payment : Type 0
Payment = ℤ × Bytes

abbrev pub payment_of : Output → Payment
payment_of o = (pos o.value, o.script)

abbrev pub payment_eq : Payment → Payment → Bool
payment_eq p q = eq_ℤ p.0 q.0 && bytes_eq p.1 q.1

-- remaining.remove(o), where it is there
unfoldable pub remove : Payment → List Payment → Option (List Payment)
remove p [] = none
remove p (q ∷ qs) =
    let rest = Option.map (◌∷◌ q) (remove p qs) in if payment_eq q p then some qs else rest

unfoldable pub remove_all : List Payment → List Payment → Option (List Payment)
unfolding remove
remove_all [] remaining = some remaining
remove_all (p ∷ ps) remaining = elim (remove p remaining) [
  | none ↦ none
  | some rest ↦ remove_all ps rest
]

-- direct
abbrev pub direct_payments : Candidate → List Payment
direct_payments m = (m.miner_reward_satoshis, m.miner_script_pub_key) ∷ m.recipients

abbrev pub declared_payments : Declared → List Payment
declared_payments = map (λ d. payment_of d.1)

abbrev pub total_value : List Output → ℕ
total_value [] = 0
total_value (o ∷ outs) = o.value + total_value outs

abbrev pub nothing_left : Option (List Payment) → Bool
nothing_left none = false
nothing_left (some remaining) = is_empty remaining

-- The lines behind the loop over the commitments.
abbrev pub accepts_payments : Candidate → List Output → List ℕ → Option Declared → Bool
accepts_payments m outs indices none = false
accepts_payments m outs indices (some declared) =
    all (λ i. declares i declared) indices
    && nothing_left
        (remove_all (direct_payments m ++ declared_payments declared) (map payment_of outs))

abbrev pub allowed_classes : Option Parameters → List Bytes
allowed_classes none = []
allowed_classes (some params) = params.allowed_consensus_commitment_classes

abbrev pub activation_height : Option Parameters → ℤ
activation_height none = pos 0
activation_height (some params) = elim params.bip34_activation_height [ none ↦ pos 0 | some a ↦ a ]

-- The checks of the identifiers of the transactions and of the witnesses.
unfoldable pub accepts_chain :
    Candidate → Option Parameters → Transaction × Bytes → List (Transaction × Bytes) → Bool
unfolding scriptnum_minimal merkle
accepts_chain m params (coin, coin_full) later =
    let txids = map (λ t. h2 t.0.nonwit) ((coin, coin_full) ∷ later) in
    let indices = indices_from 0 coin.outs in
    is_coinbase_input coin.inputs
    && distinct_by bytes_eq txids
    && bytes_eq (reversed (h2 coin.nonwit)) m.coinbase_txid
    && bytes_eq (merkle txids) (take 32 (drop 36 m.serialized_block))
    && not (
        leb_ℤ (activation_height params) (pos m.block_height)
        && not (same_number (scriptnum_minimal (coinbase_script coin.inputs)) (pos m.block_height)))
    && not ((coin.segwit || any (λ t. t.0.segwit) later) && is_empty indices)
    && accepts_witness coin (map (λ t. t.1) later) indices

-- The checks of the transactions: the coinbase with its bytes, and the others with theirs.
unfoldable pub accepts_transactions :
    Candidate → Option Parameters → Bytes → Transaction × Bytes → List (Transaction × Bytes) → Bool
unfolding accepts_chain declare_all remove_all
accepts_transactions m params candidate_id (coin, coin_full) later =
    accepts_chain m params (coin, coin_full) later
    && eq_ℤ (pos (total_value coin.outs)) m.gross_reward_satoshis
    && accepts_payments m coin.outs (indices_from 0 coin.outs)
        (declare_all coin.outs (allowed_classes params) m.consensus_commitments [])
    && bytes_eq m.candidate_id candidate_id
    && m.submission_state == 1

-- The parsed block: the transactions, and nothing behind them.
abbrev pub accepts_block :
    Candidate → Option Parameters → Bytes → List (Transaction × Bytes) × Bytes → Bool
accepts_block m params candidate_id ([], rest) = false
accepts_block m params candidate_id (coin ∷ later, rest) =
    is_empty rest && accepts_transactions m params candidate_id coin later

-- validate_candidate
unfoldable pub validate_candidate : Candidate → Option Parameters → Bytes → Result Bool
unfolding rv repeat parse_tx accepts_transactions
validate_candidate m params candidate_id = if not (accepts_header m params) then ok false else (do
  (count, b) ← rv (drop 80 m.serialized_block)
  (txs, rest) ← repeat count parse_tx b
  ok (accepts_block m params candidate_id (txs, rest)))
