-- ===== src/Wire.antt =====
-- reference/coredrp_ref/wire.py: identifiers, events, their validation, and the hash chain.
-- The protobuf runtime and the generated classes are a parameter, `Codec`.
pub mod Messages
pub mod Handshake
pub mod Link
pub mod Chain
pub mod Collides
use core_drp.Prelude.{
  ℕ, ◌+◌, ◌-◌, ◌^◌, ◌≡◌, Bool, ◌&&◌, Option, none, some, List, [], ◌∷◌, ◌++◌, leb, ltb, ◌==◌,
  length, if◌then◌else◌, Bytes, bytes_eq, codes, join, nonzero, be,
}
use core_drp.Prelude.Int.{ℤ, pos, negsuc, leb_ℤ}
use core_drp.Result.{
  Code, Result, ok, raise, failure, value_error, require, ◌>>=◌, ◌>>◌, invalid_handshake,
  sequence_out_of_range, event_type_out_of_range, unadvertised_event_type, invalid_event_placement,
  event_too_large, malformed_frame, semantic_payload_invalid,
}
use core_drp.Sha256.{sha256}
use Messages.{Event, Codec}

abbrev pub max_time : ℕ
max_time = 253402300799999

abbrev pub max_payload : ℕ
max_payload = 4096

abbrev pub max_batch : ℕ
max_batch = 32

abbrev pub max_charge : ℕ
max_charge = 131072

abbrev pub max_sequence : ℕ
max_sequence = 2 ^ 63 - 1

-- Core 1.1, lane 0, no profiles or scope contracts, checkpoint only.
unfoldable pub binding : Bytes
unfolding sha256 be
binding = sha256 (
    codes "CoreDRP1-CONTRACT"
    ++ join (be 4 1 ∷ be 4 1 ∷ be 1 0 ∷ be 2 0 ∷ be 2 0 ∷ be 2 1 ∷ be 2 1 ∷ []))

-- uid: sixteen bytes that are not all zero.
unfoldable pub uid : Bytes → Result Bytes
uid raw = do require ((length raw == 16) && nonzero raw) invalid_handshake; ok raw

unfoldable pub genesis : Bytes → Bytes → Result Bytes
unfolding uid
genesis sender epoch = do
  s ← uid sender
  e ← uid epoch
  ok (sha256 (join (codes "CoreDRP1-GENESIS" ∷ s ∷ e ∷ (0 ∷ []) ∷ [])))

unfoldable pub payload_hash : Bytes → Bytes
payload_hash p = sha256 (join (codes "CoreDRP1-PAYLOAD" ∷ be 4 (length p) ∷ p ∷ []))

-- charge
unfoldable pub charge : Event → ℕ
charge e = 32 + length e.scope + length e.payload

-- The eight bytes of struct.pack('>q', t), for t in the range of int64.
unfoldable pub be_signed : ℤ → Bytes
be_signed (pos n) = be 8 n
be_signed (negsuc n) = be 8 (2 ^ 64 - 1 - n)

abbrev pub fits_int64 : ℤ → Bool
fits_int64 t = leb_ℤ (negsuc (2 ^ 63 - 1)) t && leb_ℤ t (pos (2 ^ 63 - 1))

module _ ⦃c : Codec⦄ where
  -- The time up to which a checkpoint payload is complete.
  unfoldable pub payload_boundary : Bytes → Result ℤ
  payload_boundary p = elim (c.parse_checkpoint p) [
    | none ↦ raise (failure semantic_payload_invalid)
    | some through ↦ ok through
  ]

  unfoldable pub validate : Event → Result ℤ
  unfolding payload_boundary
  validate e = do
    require (leb 1 e.sequence && leb e.sequence max_sequence) sequence_out_of_range
    require (leb e.event_type 65535) event_type_out_of_range
    require (e.event_type == 1) unadvertised_event_type
    require (bytes_eq e.scope []) invalid_event_placement
    require (leb (length e.payload) max_payload) event_too_large
    require ((length e.relay_event_id == 16) && nonzero e.relay_event_id) malformed_frame
    require (leb_ℤ (pos 0) e.event_time_unix_ms && leb_ℤ e.event_time_unix_ms (pos max_time))
        malformed_frame
    through ← payload_boundary e.payload
    require (leb_ℤ (pos 0) through && leb_ℤ through e.event_time_unix_ms) semantic_payload_invalid
    ok through

  -- What `chain` hashes.
  unfoldable pub chain_preimage : Bytes → Bytes → Bytes → Event → Bytes
  unfolding be_signed
  chain_preimage previous sender epoch e = join (
      codes "CoreDRP1-EVENT"
      ∷ previous
      ∷ sender
      ∷ epoch
      ∷ (0 ∷ [])
      ∷ be 8 e.sequence
      ∷ be 2 e.event_type
      ∷ e.relay_event_id
      ∷ be 2 (length e.scope)
      ∷ e.scope
      ∷ be_signed e.event_time_unix_ms
      ∷ payload_hash e.payload
      ∷ [])

  unfoldable pub chain : Bytes → Bytes → Bytes → Event → Result Bytes
  chain previous sender epoch e = do
    validate e
    ok (sha256 (chain_preimage previous sender epoch e))

  -- checkpoint. The relay identity is the result of uuid.uuid4; the message classes raise
  -- ValueError for a number that its field cannot hold.
  unfoldable pub checkpoint : ℕ → ℤ → ℤ → Bytes → Result Event
  checkpoint sequence event_time boundary relay =
      if ltb sequence (2 ^ 64) && fits_int64 event_time && fits_int64 boundary
      then ok (record {
        sequence = sequence;
        event_type = 1;
        scope = [];
        event_time_unix_ms = event_time;
        payload = c.checkpoint_bytes boundary;
        relay_event_id = relay;
      })
      else raise value_error
