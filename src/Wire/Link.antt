-- ===== src/Wire/Link.antt =====
-- One link of the hash chain of reference/coredrp_ref/wire.py, and what it says of the event.
use core_drp.Prelude.{
  ◌-◌, ◌^◌, ◌≤◌, ◌≡◌, ap, ◌⊎◌, inl, inr, List, [], ◌∷◌, map, arith, length, Bytes, bytes_eq_iff,
  codes, join, join-inj, length-append, ◌++◌, be, length-be, be-inj, IsBytes, be-IsBytes, AllBytes,
  join-IsBytes,
}
use core_drp.Prelude.Int.{ℤ, pos, negsuc, ◌≤ℤ◌}
use core_drp.Result.{ok, >>=-eq-ok}
use core_drp.Sha256.{length-sha256, sha256-IsBytes}
use core_drp.Wire.Collides.{Collides, sha256-Collides, be_signed-IsBytes}
use core_drp.Wire.{
  max_time, max_payload, max_sequence, payload_hash, be_signed, validate, chain_preimage, chain,
}
use core_drp.Wire.Messages.{Event, Codec}

abbrev payload_fields : Bytes → List Bytes
payload_fields p = codes "CoreDRP1-PAYLOAD" ∷ be 4 (length p) ∷ p ∷ []

payload_fields-inj : (p q : Bytes) → join (payload_fields p) ≡ join (payload_fields q) → p ≡ q
payload_fields-inj p q e =
    let sizes : length p ≡ length q = omega (
      arith,
      ap length e,
      length-append (be 4 (length p)) (p ++ []),
      length-append (be 4 (length q)) (q ++ []),
      length-append p [],
      length-append q [],
      length-be 4 (length p),
      length-be 4 (length q),
    ) in
    let fields =
      join-inj (payload_fields p) (payload_fields q)
        (cc (length-be 4 (length p), length-be 4 (length q), sizes)) e in
    cc fields

-- What payload_hash hashes.
abbrev pub payload_preimage : Bytes → Bytes
payload_preimage p = join (payload_fields p)

payload_preimage-IsBytes : (p : Bytes) → IsBytes p → IsBytes (payload_preimage p)
payload_preimage-IsBytes p h =
    join-IsBytes (payload_fields p) (ground arith, (be-IsBytes 4 (length p), (h, tt)))

payload_hash-inj :
    (p q : Bytes)
    → IsBytes p
    → IsBytes q
    → payload_hash p ≡ payload_hash q
    → (p ≡ q) ⊎ Collides (payload_preimage p) (payload_preimage q)
unfolding payload_hash
payload_hash-inj p q hp hq e =
    elim (sha256-Collides (payload_preimage p) (payload_preimage q) (payload_preimage-IsBytes p hp)
      (payload_preimage-IsBytes q hq) e) [
        | inl same ↦ inl (payload_fields-inj p q same)
        | inr found ↦ inr found
      ]

be_signed-inj :
    (a b : ℤ)
    → pos 0 ≤ℤ a
    → a ≤ℤ pos max_time
    → pos 0 ≤ℤ b
    → b ≤ℤ pos max_time
    → be_signed a ≡ be_signed b
    → a ≡ b
unfolding be_signed
be_signed-inj (pos a) (pos b) p q r s e = ap pos (be-inj 8 a b (omega arith) (omega arith) e)
be_signed-inj (pos a) (negsuc b) p q r s e = absurd (omega arith)
be_signed-inj (negsuc a) b p q r s e = absurd (omega arith)

-- What `validate` has checked of an event that it accepts.
pub record Checked (e : Event) : Type 0 where
  pub sequence_range : (1 ≤ e.sequence) × (e.sequence ≤ max_sequence)
  pub only_type : e.event_type ≡ 1
  pub no_scope : e.scope ≡ []
  pub payload_range : length e.payload ≤ max_payload
  pub relay_length : length e.relay_event_id ≡ 16
  pub time_range : (pos 0 ≤ℤ e.event_time_unix_ms) × (e.event_time_unix_ms ≤ℤ pos max_time)

module _ ⦃c : Codec⦄ where
  pub validate-Checked : (e : Event) {through : ℤ} → validate e ≡ ok through → Checked e
  unfolding validate
  validate-Checked e h = record {
    sequence_range = ground arith;
    only_type = ground arith;
    no_scope = (bytes_eq_iff e.scope []).0 (ground arith);
    payload_range = ground arith;
    relay_length = ground arith;
    time_range = ground arith;
  }

abbrev chain_fields : Bytes → Bytes → Bytes → Event → List Bytes
chain_fields previous sender epoch e =
    codes "CoreDRP1-EVENT"
    ∷ previous
    ∷ sender
    ∷ epoch
    ∷ (0 ∷ [])
    ∷ be 8 e.sequence
    ∷ be 2 e.event_type
    ∷ e.relay_event_id
    ∷ be 2 (length e.scope)
    ∷ e.scope
    ∷ be_signed e.event_time_unix_ms
    ∷ payload_hash e.payload
    ∷ []

length-be_signed : (t : ℤ) → length (be_signed t) ≡ 8
unfolding be_signed
length-be_signed (pos n) = length-be 8 n
length-be_signed (negsuc n) = length-be 8 (2 ^ 64 - 1 - n)

length-payload_hash : (p : Bytes) → length (payload_hash p) ≡ 32
unfolding payload_hash
length-payload_hash p = length-sha256 _

module _ (sender epoch p q : Bytes) (e f : Event) (he : Checked e) (hf : Checked f) where
  chain_fields_sizes :
      length p ≡ length q
      → map length (chain_fields p sender epoch e) ≡ map length (chain_fields q sender epoch f)
  chain_fields_sizes h = cc (
    h,
    length-be 8 e.sequence,
    length-be 8 f.sequence,
    length-be 2 e.event_type,
    length-be 2 f.event_type,
    he.relay_length,
    hf.relay_length,
    length-be 2 (length e.scope),
    length-be 2 (length f.scope),
    he.no_scope,
    hf.no_scope,
    length-be_signed e.event_time_unix_ms,
    length-be_signed f.event_time_unix_ms,
    length-payload_hash e.payload,
    length-payload_hash f.payload,
  )

  relays :
      chain_fields p sender epoch e ≡ chain_fields q sender epoch f
      → e.relay_event_id ≡ f.relay_event_id
  relays h = cc h

  -- Equal preimages have equal fields; the payloads may be two that one digest stands for.
  same_fields :
      IsBytes e.payload
      → IsBytes f.payload
      → chain_fields p sender epoch e ≡ chain_fields q sender epoch f
      → ((p ≡ q) × (e ≡ f)) ⊎ Collides (payload_preimage e.payload) (payload_preimage f.payload)
  same_fields oe of h = elim (payload_hash-inj e.payload f.payload oe of (cc h)) [
    | inr found ↦ inr found
    | inl same_payload ↦
        let same_sequence =
          be-inj 8 e.sequence f.sequence (omega (arith, he.sequence_range))
            (omega (arith, hf.sequence_range)) (cc h) in
        let same_time =
          be_signed-inj e.event_time_unix_ms f.event_time_unix_ms he.time_range.0 he.time_range.1
            hf.time_range.0 hf.time_range.1 (cc h) in
        let same_event : e ≡ f = ground (
          arith,
          same_payload,
          same_sequence,
          same_time,
          he.only_type,
          hf.only_type,
          he.no_scope,
          hf.no_scope,
          relays h,
        ) in
        inl (cc h, same_event)
  ]

-- The byte fields of an event are bytes.
pub record OfBytes (e : Event) : Type 0 where
  pub payload_is_bytes : IsBytes e.payload
  pub relay_is_bytes : IsBytes e.relay_event_id

chain_fields-AllBytes :
    (previous sender epoch : Bytes) (e : Event)
    → IsBytes previous
    → IsBytes sender
    → IsBytes epoch
    → OfBytes e
    → e.scope ≡ []
    → AllBytes (chain_fields previous sender epoch e)
unfolding payload_hash
chain_fields-AllBytes previous sender epoch e hp hs he h scope =
    let scope_bytes : IsBytes e.scope = rw scope tt in
    (
      ground arith,
      (
        hp,
        (
          hs,
          (
            he,
            (
              (omega arith, tt),
              (
                be-IsBytes 8 e.sequence,
                (
                  be-IsBytes 2 e.event_type,
                  (
                    h.relay_is_bytes,
                    (
                      be-IsBytes 2 (length e.scope),
                      (
                        scope_bytes,
                        (be_signed-IsBytes e.event_time_unix_ms, (sha256-IsBytes _, tt)),
                      ),
                    ),
                  ),
                ),
              ),
            ),
          ),
        ),
      ),
    )

module _ ⦃c : Codec⦄ where
  -- Two collisions that one link of two logs can exhibit: of the two preimages of the link, or of the
  -- preimages of the two payload hashes.
  pub data LinkCollision (sender epoch p q : Bytes) (e f : Event) : Type 0 where
    of_preimages :
        Collides (chain_preimage p sender epoch e) (chain_preimage q sender epoch f)
        → LinkCollision sender epoch p q e f
    of_payloads :
        Collides (payload_preimage e.payload) (payload_preimage f.payload)
        → LinkCollision sender epoch p q e f

  -- One link: with previous hashes of one length, a chain hash determines the previous hash and the
  -- event, or the link exhibits a collision.
  pub chain-inj :
      (sender epoch p q : Bytes) (e f : Event) {digest : Bytes}
      → IsBytes sender × IsBytes epoch × IsBytes p × IsBytes q
      → OfBytes e
      → OfBytes f
      → length p ≡ length q
      → chain p sender epoch e ≡ ok digest
      → chain q sender epoch f ≡ ok digest
      → ((p ≡ q) × (e ≡ f)) ⊎ LinkCollision sender epoch p q e f
  unfolding chain chain_preimage
  chain-inj sender epoch p q e f (hs, ho, hp, hq) oe of h he hf =
      let (_, valid_e, hash_e) = >>=-eq-ok (validate e) _ he in
      let (_, valid_f, hash_f) = >>=-eq-ok (validate f) _ hf in
      let ce = validate-Checked e valid_e in
      let cf = validate-Checked f valid_f in
      let bytes_e = chain_fields-AllBytes p sender epoch e hp hs ho oe ce.no_scope in
      let bytes_f = chain_fields-AllBytes q sender epoch f hq hs ho of cf.no_scope in
      elim (sha256-Collides (join (chain_fields p sender epoch e))
        (join (chain_fields q sender epoch f))
        (join-IsBytes (chain_fields p sender epoch e) bytes_e)
        (join-IsBytes (chain_fields q sender epoch f) bytes_f) (cc (hash_e, hash_f))) [
          | inr found ↦ inr (of_preimages found)
          | inl same ↦
              elim (same_fields sender epoch p q e f ce cf oe.payload_is_bytes of.payload_is_bytes
                (join-inj _ _ (chain_fields_sizes sender epoch p q e f ce cf h) same)) [
                  | inl equal ↦ inl equal
                  | inr found ↦ inr (of_payloads found)
                ]
        ]
