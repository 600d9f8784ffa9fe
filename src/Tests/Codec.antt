-- ===== src/Tests/Codec.antt =====
-- A codec that satisfies what the protobuf runtime and the json module document (IsCodec): numbers in
-- fields of fixed width, texts behind their length, and byte strings with a mark before each byte.
use mathlib.Core.List.{append-nil}
use core_drp.Prelude.{
  ℕ, zero, suc, ◌+◌, ◌*◌, ◌-◌, ◌^◌, ◌≡◌, refl, sym, ap, Option, none, some, [], ◌∷◌, ◌++◌, arith,
  length, length-append, take, drop, take-append, drop-append, ltb, if◌then◌else◌, Bytes, IsBytes,
  IsBytes-append, be-IsBytes, be, length-be, from_be, from_be-be,
}
use core_drp.Prelude.Int.{ℤ, pos, negsuc, ◌≤ℤ◌}
use core_drp.Wire.{be_signed}
use core_drp.Wire.Collides.{be_signed-IsBytes}
use core_drp.Wire.Messages.{Event, LogRecord, ParsedRecord, parsed, FitsFields, Codec, IsCodec}

-- A mark before each byte, and another at the end.
abbrev marked : Bytes → Bytes
marked [] = 0 ∷ []
marked (x ∷ xs) = 1 ∷ x ∷ marked xs

abbrev prefixed : ℕ → Option (Bytes × Bytes) → Option (Bytes × Bytes)
prefixed x none = none
prefixed x (some (xs, rest)) = some (x ∷ xs, rest)

unfoldable pub unmarked : Bytes → Option (Bytes × Bytes)
unmarked [] = none
unmarked (zero ∷ rest) = some ([], rest)
unmarked (suc m ∷ []) = none
unmarked (suc m ∷ x ∷ rest) = prefixed x (unmarked rest)

unmarked-marked : (b rest : Bytes) → unmarked (marked b ++ rest) ≡ some (b, rest)
unfolding unmarked
unmarked-marked [] rest = refl
unmarked-marked (x ∷ xs) rest = rw (unmarked-marked xs rest)

length-marked : (b : Bytes) → length (marked b) ≡ 1 + 2 * length b
length-marked [] = refl
length-marked (x ∷ xs) = omega (arith, length-marked xs)

marked-IsBytes : (b : Bytes) → IsBytes b → IsBytes (marked b)
marked-IsBytes [] h = (omega arith, tt)
marked-IsBytes (x ∷ xs) h = (omega arith, (h.0, marked-IsBytes xs h.1))

-- The number of eight bytes in two's complement.
abbrev signed_of : ℕ → ℤ
signed_of v = if ltb v (2 ^ 63) then pos v else negsuc (2 ^ 64 - 1 - v)

unfoldable pub signed_be : Bytes → ℤ
signed_be b = signed_of (from_be b)

signed_be-be_signed :
    (t : ℤ) → negsuc (2 ^ 63 - 1) ≤ℤ t → t ≤ℤ pos (2 ^ 63 - 1) → signed_be (be_signed t) ≡ t
unfolding signed_be be_signed
signed_be-be_signed (pos n) lo hi = rw (from_be-be 8 n (omega arith)) (ground arith)
signed_be-be_signed (negsuc n) lo hi =
    rw (from_be-be 8 (2 ^ 64 - 1 - n) (omega arith)) (ground arith)

length-be_signed : (t : ℤ) → length (be_signed t) ≡ 8
unfolding be_signed
length-be_signed (pos n) = length-be 8 n
length-be_signed (negsuc n) = length-be 8 (2 ^ 64 - 1 - n)

-- One text behind its length.
unfoldable pub sized : Bytes → Bytes → Bytes
sized b rest = length b ∷ (b ++ rest)

unfoldable pub unsized : Bytes → Bytes × Bytes
unsized [] = ([], [])
unsized (n ∷ b) = (take n b, drop n b)

unsized-sized : (b rest : Bytes) → unsized (sized b rest) ≡ (b, rest)
unfolding sized unsized
unsized-sized b rest = rw (take-append b rest (length b) refl, drop-append b rest (length b) refl)

length-sized : (b rest : Bytes) → length (sized b rest) ≡ 1 + length b + length rest
unfolding sized
length-sized b rest = omega (arith, length-append b rest)

unfoldable pub record_text : LogRecord → Bytes
record_text r = sized r.key (sized r.request (sized r.event (sized r.chain [])))

unfoldable pub parse_text : Bytes → ParsedRecord
parse_text b =
    let (key, b1) = unsized b in
    let (request, b2) = unsized b1 in
    let (event, b3) = unsized b2 in
    let (chain, b4) = unsized b3 in
    parsed (record { key = key; request = request; event = event; chain = chain })

parse_text-record_text : (r : LogRecord) → parse_text (record_text r) ≡ parsed r
unfolding parse_text record_text
parse_text-record_text r = rw (
  unsized-sized r.key (sized r.request (sized r.event (sized r.chain []))),
  unsized-sized r.request (sized r.event (sized r.chain [])),
  unsized-sized r.event (sized r.chain []),
  unsized-sized r.chain [],
)

length-record_text :
    (r : LogRecord)
    → length (record_text r) ≡ 4 + length r.key + length r.request + length r.event + length r.chain
unfolding record_text
length-record_text r = omega (
  arith,
  length-sized r.key (sized r.request (sized r.event (sized r.chain []))),
  length-sized r.request (sized r.event (sized r.chain [])),
  length-sized r.event (sized r.chain []),
  length-sized r.chain [],
)

-- The numbers first, then the three byte strings.
abbrev numbers_of : Event → Bytes
numbers_of e = be 8 e.sequence ++ (be 4 e.event_type ++ be_signed e.event_time_unix_ms)

abbrev strings_of : Event → Bytes
strings_of e = marked e.scope ++ (marked e.payload ++ marked e.relay_event_id)

unfoldable pub event_text : Event → Bytes
event_text e = numbers_of e ++ strings_of e

abbrev with_strings : Bytes → Option (Bytes × Bytes) → Option Event
with_strings n none = none
with_strings n (some (scope, b1)) = elim (unmarked b1) [
  | none ↦ none
  | some (payload, b2) ↦ elim (unmarked b2) [
    | none ↦ none
    | some (relay, _) ↦ some (record {
      sequence = from_be (take 8 n);
      event_type = from_be (take 4 (drop 8 n));
      scope = scope;
      event_time_unix_ms = signed_be (drop 4 (drop 8 n));
      payload = payload;
      relay_event_id = relay;
    })
  ]
]

unfoldable pub parse_event_text : Bytes → Option Event
parse_event_text b = with_strings (take 20 b) (unmarked (drop 20 b))

length-numbers_of : (e : Event) → length (numbers_of e) ≡ 20
length-numbers_of e = omega (
  arith,
  length-append (be 8 e.sequence) (be 4 e.event_type ++ be_signed e.event_time_unix_ms),
  length-append (be 4 e.event_type) (be_signed e.event_time_unix_ms),
  length-be 8 e.sequence,
  length-be 4 e.event_type,
  length-be_signed e.event_time_unix_ms,
)

numbers_back :
    (e : Event)
    → FitsFields e
    → (from_be (take 8 (numbers_of e)) ≡ e.sequence)
      × (from_be (take 4 (drop 8 (numbers_of e))) ≡ e.event_type)
      × (signed_be (drop 4 (drop 8 (numbers_of e))) ≡ e.event_time_unix_ms)
numbers_back e fits =
    let kind = be 4 e.event_type in
    let time = be_signed e.event_time_unix_ms in
    let first = be 8 e.sequence in
    rw
      (
        take-append first (kind ++ time) 8 (sym (length-be 8 e.sequence)),
        drop-append first (kind ++ time) 8 (sym (length-be 8 e.sequence)),
      )
      (rw
        (
          take-append kind time 4 (sym (length-be 4 e.event_type)),
          drop-append kind time 4 (sym (length-be 4 e.event_type)),
        )
        (
          from_be-be 8 e.sequence (omega (arith, fits.sequence_fits)),
          from_be-be 4 e.event_type (omega (arith, fits.event_type_fits)),
          signed_be-be_signed e.event_time_unix_ms fits.time_from fits.time_to,
        ))

strings_back :
    (n : Bytes) (e : Event)
    → with_strings n (unmarked (strings_of e))
      ≡ some (record {
        sequence = from_be (take 8 n);
        event_type = from_be (take 4 (drop 8 n));
        scope = e.scope;
        event_time_unix_ms = signed_be (drop 4 (drop 8 n));
        payload = e.payload;
        relay_event_id = e.relay_event_id;
      })
strings_back n e = rw (unmarked-marked e.scope (marked e.payload ++ marked e.relay_event_id)) (
    rw (with_strings, unmarked-marked e.payload (marked e.relay_event_id))
      (rw (← append-nil (marked e.relay_event_id)) (rw (unmarked-marked e.relay_event_id []))))

parse_event_text-event_text : (e : Event) → FitsFields e → parse_event_text (event_text e) ≡ some e
unfolding parse_event_text event_text
parse_event_text-event_text e fits =
    let (s, k, t) = numbers_back e fits in
    rw
      (
        take-append (numbers_of e) (strings_of e) 20 (sym (length-numbers_of e)),
        drop-append (numbers_of e) (strings_of e) 20 (sym (length-numbers_of e)),
        strings_back (numbers_of e) e,
      )
      (cc (s, k, t))

event_text-IsBytes : (e : Event) → FitsFields e → IsBytes (event_text e)
unfolding event_text
event_text-IsBytes e fits =
    let kind = be 4 e.event_type in
    let time = be_signed e.event_time_unix_ms in
    IsBytes-append (numbers_of e) (strings_of e)
      (IsBytes-append (be 8 e.sequence) (kind ++ time) (be-IsBytes 8 e.sequence) (
        IsBytes-append kind time (be-IsBytes 4 e.event_type)
          (be_signed-IsBytes e.event_time_unix_ms)))
      (IsBytes-append (marked e.scope) (marked e.payload ++ marked e.relay_event_id)
        (marked-IsBytes e.scope fits.scope_is_bytes)
        (IsBytes-append (marked e.payload) (marked e.relay_event_id)
          (marked-IsBytes e.payload fits.payload_is_bytes)
          (marked-IsBytes e.relay_event_id fits.relay_is_bytes)))

length-event_text :
    (e : Event)
    → length (event_text e)
      ≡ 23 + 2 * length e.scope + 2 * length e.payload + 2 * length e.relay_event_id
unfolding event_text
length-event_text e = omega (
  arith,
  length-append (numbers_of e) (strings_of e),
  length-numbers_of e,
  length-append (marked e.scope) (marked e.payload ++ marked e.relay_event_id),
  length-append (marked e.payload) (marked e.relay_event_id),
  length-marked e.scope,
  length-marked e.payload,
  length-marked e.relay_event_id,
)

abbrev pub codec : Codec
codec = record {
  event_bytes = event_text;
  parse_event = parse_event_text;
  checkpoint_bytes = be_signed;
  parse_checkpoint = λ b. some (signed_be b);
  record_bytes = record_text;
  parse_record = parse_text;
  pair_bytes = λ a b. be_signed a ++ be_signed b;
}

pub codec-IsCodec : IsCodec codec
codec-IsCodec = record {
  event_decodes = parse_event_text-event_text;
  checkpoint_decodes = λ t lo hi. ap some (signed_be-be_signed t lo hi);
  event_is_bytes = event_text-IsBytes;
  checkpoint_is_bytes = be_signed-IsBytes;
  checkpoint_size = λ t. omega (arith, length-be_signed t);
  event_size = λ e fits no_scope small sixteen. ground (arith, no_scope, length-event_text e);
  record_decodes = parse_text-record_text;
  record_size = λ r k q e h. omega (arith, length-record_text r);
}
