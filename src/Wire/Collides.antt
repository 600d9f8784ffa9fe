-- ===== src/Wire/Collides.antt =====
-- Two byte strings with one SHA-256 digest, for the hashes of reference/coredrp_ref/wire.py and
-- tools/request_encodings.py.
use core_drp.Prelude.{
  ◌-◌, ◌^◌, ◌≡◌, ◌≢◌, ◌⊎◌, inl, inr, Bool-cases, Bytes, bytes_eq, bytes_eq_iff, IsBytes, be-IsBytes,
}
use core_drp.Prelude.Int.{ℤ, pos, negsuc}
use core_drp.Sha256.{sha256}
use core_drp.Wire.{be_signed}

-- Two strings, of bytes both, that are different and have one digest.
pub record Collides (a b : Bytes) : Type 0 where
  pub first_is_bytes : IsBytes a
  pub second_is_bytes : IsBytes b
  pub different : a ≢ b
  pub one_digest : sha256 a ≡ sha256 b

-- Two byte strings with one digest are the same, or they collide.
pub sha256-Collides :
    (a b : Bytes) → IsBytes a → IsBytes b → sha256 a ≡ sha256 b → (a ≡ b) ⊎ Collides a b
sha256-Collides a b ha hb e = elim (Bool-cases (bytes_eq a b)) [
  | inl same ↦ inl ((bytes_eq_iff a b).0 same)
  | inr other ↦ inr (record {
    first_is_bytes = ha;
    second_is_bytes = hb;
    different = λ p. cc ((bytes_eq_iff a b).1 p);
    one_digest = e;
  })
]

pub be_signed-IsBytes : (t : ℤ) → IsBytes (be_signed t)
unfolding be_signed
be_signed-IsBytes (pos n) = be-IsBytes 8 n
be_signed-IsBytes (negsuc n) = be-IsBytes 8 (2 ^ 64 - 1 - n)
