-- ===== src/Audit.antt =====
-- tools/audit_evidence.py: the arithmetic audit of a settlement from its retained events. The class A
-- of the messages is the argument `parse`, what the protobuf runtime reads from a payload.
pub mod Rows
pub mod Checks
pub mod Conserved
use core_drp.Prelude.{
  ℕ, ◌==◌, Bool, true, false, not, ◌&&◌, ◌||◌, if◌then◌else◌, Option, none, some, List, [], ◌∷◌,
  ◌++◌, length, map, any, all, Bytes, bytes_eq, codes, hex, join,
}
use core_drp.Prelude.Int.{ℤ, pos, eq_ℤ}
use core_drp.Result.{Result, ok, raise, value_error, type_error, ◌>>=◌, ◌>>◌}
use core_drp.Policy.{demand, lookup, member}
use core_drp.Sha256.{sha256}
use core_drp.Finance.{Fraction, frac, add, mul, eq_frac, decimal}
use core_drp.Finance.Binary64.{Bits, binary64, round_binary64}
use core_drp.Finance.Sorting.{distinct_by}
use core_drp.Finance.Window.{Row, Key, tuple_key, key_eq, Share, score_of, select_window}
use core_drp.Finance.Allocation.{sum, decimals_of, allocate}
use core_drp.Finance.Effects.{hex_value}
use core_drp.Profile
use core_drp.Profile.{Projection, Accounting, bytes_or_empty, bits_of}
use core_drp.Requests.Schema.{
  Value, Values, Entries, absent, int, text, list, dict, nil, cons, stop, entry,
}
use core_drp.Requests.Registry.{settlement_audit_bundle}
use core_drp.Requests.Encoding.{integer, signed, lp, encode}

-- An event of a bundle, its byte strings in hexadecimal.
pub record AuditEvent : Type 0 where
  pub event_time : ℤ
  pub sender : Bytes
  pub sequence : ℤ
  pub relay : Bytes
  pub epoch : Bytes
  pub lane : ℤ
  pub event_type : ℤ
  pub scope : Bytes
  pub previous_chain_hash : Bytes
  pub chain_hash : Bytes
  pub payload : Bytes

-- The inputs of a settlement; a deduction is a destination with an amount.
pub record Inputs : Type 0 where
  pub block_hash : Bytes
  pub block_height : ℤ
  pub gross_reward : Bytes
  pub deductions : List (Bytes × Bytes)
  pub distributable_reward : Bytes
  pub finder_accounting_id : Option Bytes
  pub finder_percentage : Bytes

pub record Bundle : Type 0 where
  pub summary_hash : Bytes
  pub inputs : Inputs
  pub events : List AuditEvent

-- The dictionaries that these records stand for.
abbrev pub entries : List (Bytes × Value) → Entries
entries [] = stop
entries ((k, x) ∷ es) = entry k x (entries es)

abbrev pub values {ℓ} : {A : Type ℓ} → (A → Value) → List A → Values
values f [] = nil
values f (x ∷ xs) = cons (f x) (values f xs)

abbrev pub optional_text : Option Bytes → Value
optional_text none = absent
optional_text (some t) = text t

abbrev pub deduction_value : Bytes × Bytes → Value
deduction_value (destination, amount) =
    dict (entries ((codes "destination", text destination) ∷ (codes "amount", text amount) ∷ []))

abbrev pub inputs_value : Inputs → Value
inputs_value x = dict (
    entries (
      (codes "block_hash", text x.block_hash)
      ∷ (codes "block_height", int x.block_height)
      ∷ (codes "gross_reward", text x.gross_reward)
      ∷ (codes "deductions", list (values deduction_value x.deductions))
      ∷ (codes "distributable_reward", text x.distributable_reward)
      ∷ (codes "finder_accounting_id", optional_text x.finder_accounting_id)
      ∷ (codes "finder_percentage", text x.finder_percentage)
      ∷ []))

abbrev pub event_value : AuditEvent → Value
event_value e = dict (
    entries (
      (codes "event_time", int e.event_time)
      ∷ (codes "sender", text e.sender)
      ∷ (codes "sequence", int e.sequence)
      ∷ (codes "relay", text e.relay)
      ∷ (codes "epoch", text e.epoch)
      ∷ (codes "lane", int e.lane)
      ∷ (codes "event_type", int e.event_type)
      ∷ (codes "scope", text e.scope)
      ∷ (codes "previous_chain_hash", text e.previous_chain_hash)
      ∷ (codes "chain_hash", text e.chain_hash)
      ∷ (codes "payload", text e.payload)
      ∷ []))

abbrev pub bundle_value : Bundle → Value
bundle_value b = dict (
    entries (
      (codes "summary_hash", text b.summary_hash)
      ∷ (codes "inputs", inputs_value b.inputs)
      ∷ (codes "events", list (values event_value b.events))
      ∷ []))

-- event_hash
unfoldable pub event_hash : AuditEvent → Result Bytes
unfolding integer signed lp
event_hash e = do
  payload ← hex_value e.payload
  scope ← hex_value e.scope
  previous ← hex_value e.previous_chain_hash
  sender ← hex_value e.sender
  epoch ← hex_value e.epoch
  lane ← integer 1 (int e.lane)
  sequence ← integer 8 (int e.sequence)
  event_type ← integer 2 (int e.event_type)
  relay ← hex_value e.relay
  size ← integer 2 (int (pos (length scope)))
  time ← signed (int e.event_time)
  framed ← lp payload
  ok (
      hex (
        sha256 (
          join (
            codes "CoreDRP1-EVENT"
            ∷ previous
            ∷ sender
            ∷ epoch
            ∷ lane
            ∷ sequence
            ∷ event_type
            ∷ relay
            ∷ size
            ∷ scope
            ∷ time
            ∷ sha256 (codes "CoreDRP1-PAYLOAD" ++ framed)
            ∷ []))))

unfoldable pub bundle_digest : Bundle → Result Bytes
unfolding encode
bundle_digest b = do
  encoded ← encode settlement_audit_bundle (bundle_value b)
  ok (hex (sha256 encoded))
