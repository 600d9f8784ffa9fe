-- ===== src/Finance/Effects.antt =====
-- tools/financial_semantics.py, lines 65 to 157 and 172 to 185: the PPS liability, and the canonical
-- bytes of effects, participants and settlement policies. A text is its UTF-8 bytes: what is not
-- ASCII is refused by the grammars of scopes and decimals, as encode('ascii') would refuse it.
pub mod Injective
use core_drp.Prelude.{
  ℕ, zero, suc, ◌+◌, ◌-◌, ◌*◌, ◌^◌, Bool, true, false, not, ◌&&◌, ◌||◌, if◌then◌else◌, ltb, leb,
  ◌==◌, Option, none, some, List, [], ◌∷◌, ◌++◌, length, map, all, any, Bytes, bytes_eq, nonzero,
  codes, be, join, hex, from_hex,
}
use core_drp.Prelude.Int.{ℤ, pos, pos_part, leb_ℤ, ltb_ℤ, eq_ℤ, ◌+ℤ◌}
use core_drp.Result.{Result, ok, raise, value_error, ◌>>=◌, ◌>>◌}
use core_drp.Sha256.{sha256}
use core_drp.Policy.{Mode, demand, member}
use core_drp.Finance.{Fraction, frac, mul, over, ltb_frac, leb_frac, is_digit, decimal, amount}
use core_drp.Finance.Binary64.{Bits, binary64}
use core_drp.Finance.Sorting.{bytes_lt, sort_by, distinct_by, both}

abbrev pub scope_char : ℕ → Bool
scope_char c =
    (leb 65 c && leb c 90) || (leb 97 c && leb c 122) || is_digit c || c == 46 || c == 95 || c == 45

-- SCOPE.fullmatch
abbrev pub is_scope : Bytes → Bool
is_scope s = leb 1 (length s) && leb (length s) 64 && all scope_char s

-- scope_pool
unfoldable pub scope_pool : Bytes → Bytes → Result (Unit {0})
scope_pool scope pool = demand (is_scope scope && bytes_eq scope pool)

pub record PpsInputs : Type 0 where
  pub reward : ℤ
  pub assigned : Bits
  pub network : Bits
  pub retained : Bytes
  pub coin : Bytes
  pub eligible_network : Bool

-- pps_liability
unfoldable pub pps_liability : PpsInputs → Result Bytes
unfolding decimal amount binary64
pps_liability x = do
  pct ← decimal x.retained
  demand (
      bytes_eq x.coin (codes "bitcoin")
      && x.eligible_network
      && ltb 0 pct.num
      && leb_frac pct (frac 100 1)
      && ltb_ℤ (pos 0) x.reward
      && leb_ℤ x.reward (pos (2 ^ 63 - 1)))
  assigned ← binary64 x.assigned
  network ← binary64 x.network
  let reward = frac (pos_part x.reward) (10 ^ 8)
  result ← amount (over (mul (over (mul reward assigned) network) pct) (frac 100 1))
  demand (not (bytes_eq result (codes "0")))
  ok result

-- validate_pps: the inputs are read for scheme 4 only.
unfoldable pub validate_pps : ℕ → Option Bytes → PpsInputs → Result (Unit {0})
unfolding pps_liability
validate_pps scheme embedded x =
    if not (scheme == 4)
    then elim embedded [ none ↦ ok tt | some _ ↦ raise value_error ]
    else (pps_liability x >>= λ expected. elim embedded [
      | none ↦ raise value_error
      | some s ↦ demand (bytes_eq s expected)
    ])

-- authority_allows
unfoldable pub authority_allows : ℕ → Bool
authority_allows event_type = event_type == 0x0100 || event_type == 0x0200

-- lp: no caller has more than 65535 bytes, so that struct.pack has room for the length.
abbrev pub lp : Bytes → Bytes
lp b = be 2 (length b) ++ b

-- The settlement of an effect, its digests and identifiers in hexadecimal.
pub record Settlement : Type 0 where
  pub scope : Bytes
  pub settlement_id_hex : Bytes
  pub mining_scope_contract_digest32 : Bytes
  pub miningcore_scope_contract_digest32 : Bytes

pub record Effect : Type 0 where
  pub kind : ℕ
  pub identity : Bytes
  pub miner : Bytes
  pub amount : Bytes
  pub lane : ℕ
  pub event_type : ℕ
  pub sequence : ℤ
  pub sender : Bytes
  pub epoch : Bytes
  pub relay : Bytes
  pub payload_hash : Bytes

-- What an effect is, once its texts are read.
pub record EffectParts : Type 0 where
  pub kind : ℕ
  pub scope : Bytes
  pub settlement_id : Bytes
  pub mining_digest : Bytes
  pub miningcore_digest : Bytes
  pub identity : Bytes
  pub sender : Bytes
  pub epoch : Bytes
  pub lane : ℕ
  pub sequence : ℕ
  pub relay : Bytes
  pub event_type : ℕ
  pub payload : Bytes
  pub miner : Bytes
  pub amount : Bytes

-- bytes.fromhex
abbrev pub hex_value : Bytes → Result Bytes
hex_value s = elim (from_hex s) [ none ↦ raise value_error | some b ↦ ok b ]

abbrev pub is_uuid : Bytes → Bool
is_uuid b = length b == 16 && nonzero b

abbrev pub lane_of : ℕ → ℕ
lane_of kind = if kind == 4 then 1 else 0

abbrev pub event_type_of : ℕ → ℕ
event_type_of kind = if kind == 4 then 513 else 512

-- The checks of effect_bytes.
abbrev pub valid_parts : EffectParts → Bool
valid_parts p =
    is_scope p.scope
    && leb 1 (length p.settlement_id)
    && leb (length p.settlement_id) 65535
    && leb 1 (length p.miner)
    && leb (length p.miner) 256
    && leb 1 p.kind
    && leb p.kind 4
    && p.lane == lane_of p.kind
    && p.event_type == event_type_of p.kind
    && leb 1 p.sequence
    && leb p.sequence (2 ^ 63 - 1)
    && is_uuid p.identity
    && is_uuid p.sender
    && is_uuid p.epoch
    && is_uuid p.relay
    && length p.mining_digest == 32
    && length p.miningcore_digest == 32
    && length p.payload == 32

-- A negative sequence counts as 0, which the checks refuse as well.
abbrev pub parts_of :
    Settlement
    → Effect
    → (identity settlement_id sender epoch relay mining_digest miningcore_digest payload : Bytes)
    → EffectParts
parts_of s x identity settlement_id sender epoch relay mining_digest miningcore_digest payload =
    record {
      kind = x.kind;
      scope = s.scope;
      settlement_id = settlement_id;
      mining_digest = mining_digest;
      miningcore_digest = miningcore_digest;
      identity = identity;
      sender = sender;
      epoch = epoch;
      lane = x.lane;
      sequence = pos_part x.sequence;
      relay = relay;
      event_type = x.event_type;
      payload = payload;
      miner = x.miner;
      amount = x.amount;
    }

-- The lines of effect_bytes that read and check.
unfoldable pub effect_parts : Settlement → Effect → Result EffectParts
unfolding decimal
effect_parts s x = do
  identity ← hex_value x.identity
  settlement_id ← hex_value s.settlement_id_hex
  decimal x.amount
  sender ← hex_value x.sender
  epoch ← hex_value x.epoch
  relay ← hex_value x.relay
  mining_digest ← hex_value s.mining_scope_contract_digest32
  miningcore_digest ← hex_value s.miningcore_scope_contract_digest32
  payload ← hex_value x.payload_hash
  let parts =
      parts_of s x identity settlement_id sender epoch relay mining_digest miningcore_digest payload
  demand (valid_parts parts)
  ok parts

-- The bytes that effect_bytes returns.
abbrev pub effect_fields : EffectParts → Bytes
effect_fields p =
    be 2 1
    ++ (be 1 p.kind
        ++ (lp p.scope
            ++ (lp p.settlement_id
                ++ (p.mining_digest
                    ++ (p.miningcore_digest
                        ++ (p.identity
                            ++ (p.sender
                                ++ (p.epoch
                                    ++ (be 1 p.lane
                                        ++ (be 8 p.sequence
                                            ++ (p.relay
                                                ++ (be 2 p.event_type
                                                    ++ (p.payload
                                                        ++ (lp p.miner ++ lp p.amount))))))))))))))

-- effect_bytes
unfoldable pub effect_bytes : Settlement → Effect → Result Bytes
unfolding effect_parts
effect_bytes s x = effect_parts s x >>= λ p. ok (effect_fields p)

-- participant_bytes
unfoldable pub participant_bytes : Settlement → Effect → Result Bytes
unfolding effect_bytes
participant_bytes s x = do
  validated_effect ← effect_bytes s x
  identity ← hex_value x.identity
  ok (
      be 2 1
      ++ (be 1 x.kind ++ (identity ++ (lp x.miner ++ (lp x.amount ++ sha256 validated_effect)))))

abbrev pub same_participant : ℕ × Bytes → ℕ × Bytes → Bool
same_participant = both (◌==◌) bytes_eq

unfoldable pub participant_keys : List Effect → Result (List (ℕ × Bytes))
participant_keys [] = ok []
participant_keys (x ∷ effects) = do
  identity ← hex_value x.identity
  rest ← participant_keys effects
  ok ((x.kind, identity) ∷ rest)

unfoldable pub participant_records : Settlement → List Effect → Result (List Bytes)
unfolding participant_bytes
participant_records s [] = ok []
participant_records s (x ∷ effects) = do
  r ← participant_bytes s x
  rest ← participant_records s effects
  ok (r ∷ rest)

-- struct.pack('>I',len(r))+r
abbrev pub framed : Bytes → Bytes
framed r = be 4 (length r) ++ r

-- What participant_digest hashes, of the sorted records.
abbrev pub participant_list : List Bytes → Bytes
participant_list records = be 2 1 ++ (be 4 (length records) ++ join (map framed records))

-- participant_digest
unfoldable pub participant_digest : Settlement → List Effect → Result Bytes
unfolding participant_keys participant_records
participant_digest s effects = do
  keys ← participant_keys effects
  demand (distinct_by same_participant keys)
  records ← participant_records s effects
  ok (hex (sha256 (participant_list (sort_by bytes_lt records))))
