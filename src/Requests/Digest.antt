-- ===== src/Requests/Digest.antt =====
-- The digest of a group of accounting effects (group_digest of tools/request_encodings.py).
use core_drp.Prelude.{
  ◌≡◌, refl, sym, ap, ◌∙◌, ◌⊎◌, inl, inr, [], ◌++◌, append-inj, Bytes, codes, be, IsBytes,
  IsBytes-append, be-IsBytes, Bool-cases, ltb, length, ◌^◌, arith,
}
use core_drp.Prelude.Int.{ℤ}
use core_drp.Result.{Result, raise≢ok, ok, ok-inj, ◌>>=◌, >>=-eq-ok}
use core_drp.Requests.{uuid16}
use core_drp.Requests.Schema.{Value, Entries, i64, int, dict}
use core_drp.Requests.Registry.{accounting_share_request}
use core_drp.Requests.Encoding.{signed, lp, scalar_value, encode}
use core_drp.Requests.Scalars.{lp-told, uuid16-eq-ok, scalar_value-Told}
use core_drp.Requests.Injective.{AgreeFields, encode-AgreeFields}
use core_drp.Sha256.{sha256}
use core_drp.Wire.Collides.{Collides, sha256-Collides}

-- The bytes that the digest covers, behind ph.
abbrev pub group_preimage : Bytes → Value → ℤ → Bytes → Result Bytes
group_preimage accounting_id request event_time ph = do
  key ← uuid16 accounting_id
  body ← encode accounting_share_request request
  framed ← lp body
  time ← signed (int event_time)
  ok (be 2 1 ++ (key ++ (framed ++ (time ++ ph))))

-- What stands under the inner hash, of a framed payload.
abbrev pub payload_bytes : Bytes → Bytes
payload_bytes framed = codes "CoreDRP1-PAYLOAD" ++ framed

-- The bytes that group_digest hashes.
unfoldable pub group_hashed : Bytes → Value → ℤ → Bytes → Result Bytes
unfolding lp uuid16 encode signed
group_hashed accounting_id request event_time payload = do
  framed ← lp payload
  group_preimage accounting_id request event_time (sha256 (payload_bytes framed))

-- group_digest
unfoldable pub group_digest : Bytes → Value → ℤ → Bytes → Result Bytes
unfolding group_hashed
group_digest accounting_id request event_time payload =
    group_hashed accounting_id request event_time payload >>= λ b. ok (sha256 b)

-- The parts of a preimage.
HasParts : Bytes → Value → ℤ → Bytes → Bytes → Type 0
HasParts accounting_id request event_time ph b =
    (key : Bytes) × (body : Bytes) × (framed : Bytes) × (time : Bytes) × (uuid16 accounting_id
      ≡ ok key)
    × (encode accounting_share_request request ≡ ok body)
    × (lp body ≡ ok framed)
    × (signed (int event_time) ≡ ok time)
    × (b ≡ be 2 1 ++ (key ++ (framed ++ (time ++ ph))))

group_preimage-HasParts :
    (accounting_id : Bytes) (request : Value) (event_time : ℤ) (ph b : Bytes)
    → group_preimage accounting_id request event_time ph ≡ ok b
    → HasParts accounting_id request event_time ph b
unfolding HasParts
group_preimage-HasParts accounting_id request event_time ph b h =
    let (key, hk, h1) = >>=-eq-ok (uuid16 accounting_id) _ h in
    let (body, hb, h2) = >>=-eq-ok (encode accounting_share_request request) _ h1 in
    let (framed, hf, h3) = >>=-eq-ok (lp body) _ h2 in
    let (time, ht, h4) = >>=-eq-ok (signed (int event_time)) _ h3 in
    (key, body, framed, time, hk, hb, hf, ht, sym (ok-inj h4))

-- What a preimage tells of the group.
pub SameGroup : Bytes → Bytes → Value → Value → ℤ → ℤ → Type 0
SameGroup accounting_id accounting_id' x y event_time event_time' =
    (uuid16 accounting_id ≡ uuid16 accounting_id')
    × ((es : Entries) × (es' : Entries) × (x ≡ dict es)
        × (y ≡ dict es')
        × AgreeFields accounting_share_request es es')
    × (event_time ≡ event_time')

group_preimage-inj :
    (accounting_id accounting_id' : Bytes) (x y : Value) (event_time event_time' : ℤ)
    (ph ph' b : Bytes)
    → group_preimage accounting_id x event_time ph ≡ ok b
    → group_preimage accounting_id' y event_time' ph' ≡ ok b
    → SameGroup accounting_id accounting_id' x y event_time event_time' × (ph ≡ ph')
unfolding HasParts SameGroup scalar_value
group_preimage-inj accounting_id accounting_id' x y event_time event_time' ph ph' b h h' =
    let (key, body, framed, time, hk, hb, hf, ht, at) =
      group_preimage-HasParts accounting_id x event_time ph b h in
    let (key', body', framed', time', hk', hb', hf', ht', at') =
      group_preimage-HasParts accounting_id' y event_time' ph' b h' in
    let (_, inner) = append-inj (be 2 1) (be 2 1) _ _ refl (sym at ∙ at') in
    let (_, size, _) = uuid16-eq-ok accounting_id key hk in
    let (_, size', _) = uuid16-eq-ok accounting_id' key' hk' in
    let (keys, e1) = append-inj key key' _ _ (size ∙ sym size') inner in
    let (bodies, e2) = lp-told body body' framed framed' (time ++ ph) (time' ++ ph') hf hf' e1 in
    let (times, e3) =
      scalar_value-Told i64 (int event_time) (int event_time') time time' ph ph' ht ht' e2 in
    let encoded : encode accounting_share_request y ≡ ok body = hb' ∙ ap ok (sym bodies) in
    (
      (
        hk ∙ ap ok keys ∙ sym hk',
        encode-AgreeFields accounting_share_request x y body hb encoded,
        cc times,
      ),
      e3,
    )

-- Two payloads for which different strings, of bytes both, with one SHA-256 digest are hashed.
pub Colliding : Bytes → Bytes → Type 0
Colliding p q =
    (framed : Bytes) × (framed' : Bytes) × (lp p ≡ ok framed)
    × (lp q ≡ ok framed')
    × Collides (payload_bytes framed) (payload_bytes framed')

lp-IsBytes : (p framed : Bytes) → IsBytes p → lp p ≡ ok framed → IsBytes framed
unfolding lp
lp-IsBytes p framed bytes h = elim (Bool-cases (ltb (length p) (2 ^ 32))) [
  | inr e ↦ absurd (raise≢ok (rw e at h))
  | inl e ↦
      rw (← ok-inj (rw e at h)) (IsBytes-append (be 4 (length p)) p (be-IsBytes 4 (length p)) bytes)
]

payload_told :
    (p q framed framed' : Bytes)
    → IsBytes p
    → IsBytes q
    → lp p ≡ ok framed
    → lp q ≡ ok framed'
    → sha256 (payload_bytes framed) ≡ sha256 (payload_bytes framed')
    → (p ≡ q) ⊎ Colliding p q
unfolding Colliding
payload_told p q framed framed' bytes_p bytes_q h k e =
    elim (sha256-Collides (payload_bytes framed) (payload_bytes framed')
      (IsBytes-append (codes "CoreDRP1-PAYLOAD") framed (ground arith)
        (lp-IsBytes p framed bytes_p h))
      (IsBytes-append (codes "CoreDRP1-PAYLOAD") framed' (ground arith)
        (lp-IsBytes q framed' bytes_q k))
      e) [
        | inr found ↦ inr (framed, framed', h, k, found)
        | inl same ↦
            let (_, rest) =
              append-inj (codes "CoreDRP1-PAYLOAD") (codes "CoreDRP1-PAYLOAD") framed framed' refl
                same in
            let (is, _) = lp-told p q framed framed' [] [] h k (ap (λ t. t ++ []) rest) in inl is
      ]

-- Two groups, with payloads of bytes, for which group_digest hashes the same bytes have the same
-- accounting identifier, requests that agree in every field of the schema and the same time; and they
-- have the same payload, or the two byte strings that are hashed for their payloads are different and
-- have one SHA-256 digest.
pub group_hashed-SameGroup :
    (accounting_id accounting_id' : Bytes) (x y : Value) (event_time event_time' : ℤ)
    (payload payload' b : Bytes)
    → IsBytes payload
    → IsBytes payload'
    → group_hashed accounting_id x event_time payload ≡ ok b
    → group_hashed accounting_id' y event_time' payload' ≡ ok b
    → SameGroup accounting_id accounting_id' x y event_time event_time'
      × ((payload ≡ payload') ⊎ Colliding payload payload')
unfolding group_hashed
group_hashed-SameGroup accounting_id accounting_id' x y event_time event_time' payload payload' b
      bytes bytes' h h' =
    let (framed, hf, h1) = >>=-eq-ok (lp payload) _ h in
    let (framed', hf', h1') = >>=-eq-ok (lp payload') _ h' in
    let (group, hashes) =
      group_preimage-inj accounting_id accounting_id' x y event_time event_time' _ _ b h1 h1' in
    (group, payload_told payload payload' framed framed' bytes bytes' hf hf' hashes)
