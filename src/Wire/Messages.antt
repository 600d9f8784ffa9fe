-- ===== src/Wire/Messages.antt =====
-- The messages of protocol/coredrp-v1.proto that the relay exchanges, and the code outside the
-- repository that encodes them: the protobuf runtime with the classes generated from that file, and
-- the json module's text of a record of the write-ahead log.
use core_drp.Prelude.{ℕ, ◌^◌, ◌-◌, ◌≤◌, ◌<◌, ◌≡◌, Option, some, [], length, Bytes, IsBytes}
use core_drp.Prelude.Int.{ℤ, pos, negsuc, ◌≤ℤ◌}

-- message Event
pub record Event : Type 0 where
  pub sequence : ℕ
  pub event_type : ℕ
  pub scope : Bytes
  pub event_time_unix_ms : ℤ
  pub payload : Bytes
  pub relay_event_id : Bytes

-- The dictionary that a record of the log holds: four texts, as their UTF-8 bytes.
pub record LogRecord : Type 0 where
  pub key : Bytes
  pub request : Bytes
  pub event : Bytes
  pub chain : Bytes

-- What reading a record gives: the dictionary; a ValueError or a KeyError; or a TypeError, for JSON of
-- another type.
pub data ParsedRecord : Type 0 where
  parsed : LogRecord → ParsedRecord
  no_record other_json : ParsedRecord

-- The numbers of an event fit the fields of the message, and its bytes are bytes.
pub record FitsFields (e : Event) : Type 0 where
  pub sequence_fits : e.sequence < 2 ^ 64
  pub event_type_fits : e.event_type < 2 ^ 32
  pub time_from : negsuc (2 ^ 63 - 1) ≤ℤ e.event_time_unix_ms
  pub time_to : e.event_time_unix_ms ≤ℤ pos (2 ^ 63 - 1)
  pub scope_is_bytes : IsBytes e.scope
  pub payload_is_bytes : IsBytes e.payload
  pub relay_is_bytes : IsBytes e.relay_event_id

pub record Codec : Type 0 where
  -- SerializeToString and FromString of Event; `none` is a DecodeError
  pub event_bytes : Event → Bytes
  pub parse_event : Bytes → Option Event
  -- the same of CompletenessCheckpoint, by its one field
  pub checkpoint_bytes : ℤ → Bytes
  pub parse_checkpoint : Bytes → Option ℤ
  -- json.dumps with sorted keys and no spaces, and json.loads with the four lookups
  pub record_bytes : LogRecord → Bytes
  pub parse_record : Bytes → ParsedRecord
  -- json.dumps of the list [event_time, boundary]
  pub pair_bytes : ℤ → ℤ → Bytes

-- What the protobuf runtime and the json module document: decoding undoes encoding, and sizes. The
-- bound on a record is for the texts that the log writes: a caller's key of at most 128 bytes, the
-- hexadecimal text of an event of at most 4096 bytes, and two hexadecimal digests.
pub record IsCodec (c : Codec) : Type 0 where
  pub event_decodes : (e : Event) → FitsFields e → c.parse_event (c.event_bytes e) ≡ some e
  pub checkpoint_decodes :
      (t : ℤ)
      → negsuc (2 ^ 63 - 1) ≤ℤ t
      → t ≤ℤ pos (2 ^ 63 - 1)
      → c.parse_checkpoint (c.checkpoint_bytes t) ≡ some t
  pub event_is_bytes : (e : Event) → FitsFields e → IsBytes (c.event_bytes e)
  pub checkpoint_is_bytes : (t : ℤ) → IsBytes (c.checkpoint_bytes t)
  pub checkpoint_size : (t : ℤ) → length (c.checkpoint_bytes t) ≤ 16
  pub event_size :
      (e : Event)
      → FitsFields e
      → e.scope ≡ []
      → length e.payload ≤ 16
      → length e.relay_event_id ≡ 16
      → length (c.event_bytes e) ≤ 4096
  pub record_decodes : (r : LogRecord) → c.parse_record (c.record_bytes r) ≡ parsed r
  pub record_size :
      (r : LogRecord)
      → length r.key ≤ 128
      → length r.request ≤ 64
      → length r.event ≤ 8192
      → length r.chain ≤ 64
      → (0 < length (c.record_bytes r)) × (length (c.record_bytes r) ≤ 16384)
