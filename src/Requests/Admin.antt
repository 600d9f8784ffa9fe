-- ===== src/Requests/Admin.antt =====
-- tools/request_encodings.py: the bodies of administrative actions, ADMIN_TYPES, admin_body,
-- validate_admin_body and admin_preimage. A reader keeps the bytes behind the source's offset.
pub mod Validated
pub mod Accepted
use core_drp.Prelude.{
  ℕ, suc, ◌+◌, ◌^◌, Bool, true, false, not, ◌&&◌, ◌||◌, if◌then◌else◌, ltb, leb, ◌==◌, Option, none,
  some, List, [], ◌∷◌, ◌++◌, length, drop, Bytes, bytes_eq, codes, be, from_be, nonzero,
}
use core_drp.Result.{Result, ok, raise, value_error, type_error, key_error, ◌>>=◌, ◌>>◌}
use core_drp.Policy.{demand}
use core_drp.Profile.Bitcoin.{read}
use core_drp.Requests.Schema.{
  Scalar, u8, u16, u32, u64, i64, bool, f64, hash32, bytes, utf8, ascii, Value,
}
use core_drp.Requests.Encoding.{scalar_value, lp}

-- ADMIN_TYPES
abbrev pub admin_types : ℕ → Option (List Scalar)
admin_types action =
    if action == 4
    then some (
        Scalar.uuid16 ∷ u64 ∷ Scalar.uuid16 ∷ u8 ∷ Scalar.uuid16 ∷ u64 ∷ hash32 ∷ Scalar.uuid16
        ∷ i64 ∷ i64 ∷ utf8 ∷ [])
    else if action == 5
    then some
        (Scalar.uuid16 ∷ u64 ∷ Scalar.uuid16 ∷ u8 ∷ Scalar.uuid16 ∷ hash32 ∷ i64 ∷ i64 ∷ utf8 ∷ [])
    else if action == 6
    then some (
        Scalar.uuid16 ∷ u64 ∷ Scalar.uuid16 ∷ u8 ∷ Scalar.uuid16 ∷ u64 ∷ hash32 ∷ u64 ∷ u64 ∷ u64
        ∷ Scalar.uuid16 ∷ u8 ∷ utf8 ∷ [])
    else none

-- A field with its id.
abbrev pub AdminField : Type 0
AdminField = ℕ × Value

-- The ids are 1, 2 and so on, one for each type.
abbrev pub numbered : ℕ → List Scalar → List AdminField → Bool
numbered i [] [] = true
numbered i [] (f ∷ fields) = false
numbered i (t ∷ types) [] = false
numbered i (t ∷ types) ((id, x) ∷ fields) = id == i && numbered (suc i) types fields

-- b[4:] of a text
abbrev pub without_length : Scalar → Bytes → Bytes
without_length utf8 b = drop 4 b
without_length _ b = b

-- The loop of admin_body.
unfoldable pub admin_fields : List Scalar → List AdminField → Result Bytes
unfolding scalar_value lp
admin_fields [] fields = ok []
admin_fields (t ∷ types) [] = ok []
admin_fields (t ∷ types) ((id, x) ∷ fields) = do
  b ← scalar_value t x
  framed ← lp (without_length t b)
  out ← admin_fields types fields
  ok (be 2 id ++ (framed ++ out))

-- admin_body, with the types of the action
unfoldable pub body_of : List Scalar → List AdminField → Result Bytes
unfolding admin_fields
body_of types fields = do
  demand (numbered 1 types fields)
  out ← admin_fields types fields
  ok (be 2 1 ++ (be 2 (length fields) ++ out))

-- An action with no types is a KeyError.
unfoldable pub admin_body : ℕ → List AdminField → Result Bytes
unfolding body_of
admin_body action fields = elim (admin_types action) [
  | none ↦ raise key_error
  | some types ↦ body_of types fields
]

abbrev pub continues : ℕ → Bool
continues c = leb 0x80 c && leb c 0xbf

-- v.decode('utf-8',errors='strict') succeeds: no byte is missing, no form is too long, and there is
-- neither a surrogate nor a number above 0x10ffff.
unfoldable pub is_utf8 : Bytes → Bool
is_utf8 [] = true
is_utf8 (a ∷ []) = ltb a 0x80
is_utf8 (a ∷ b ∷ []) =
    let one = ltb a 0x80 && is_utf8 (b ∷ []) in
    let two = leb 0xc2 a && leb a 0xdf && continues b in if ltb a 0x80 then one else two
is_utf8 (a ∷ b ∷ c ∷ []) =
    let one = ltb a 0x80 && is_utf8 (b ∷ c ∷ []) in
    let two = leb 0xc2 a && leb a 0xdf && continues b && is_utf8 (c ∷ []) in
    let three =
      leb 0xe0 a
      && leb a 0xef
      && continues b
      && continues c
      && (not (a == 0xe0) || leb 0xa0 b)
      && (not (a == 0xed) || leb b 0x9f) in
    if ltb a 0x80 then one else if leb a 0xdf then two else three
is_utf8 (a ∷ b ∷ c ∷ d ∷ r) =
    let one = is_utf8 (b ∷ c ∷ d ∷ r) in
    let two = leb 0xc2 a && continues b && is_utf8 (c ∷ d ∷ r) in
    let three =
      continues b
      && continues c
      && (not (a == 0xe0) || leb 0xa0 b)
      && (not (a == 0xed) || leb b 0x9f)
      && is_utf8 (d ∷ r) in
    let four =
      leb a 0xf4
      && continues b
      && continues c
      && continues d
      && (not (a == 0xf0) || leb 0x90 b)
      && (not (a == 0xf4) || leb b 0x8f)
      && is_utf8 r in
    if ltb a 0x80 then one else if leb a 0xdf then two else if leb a 0xef then three else four

-- The size of a field of a type, where it has one.
abbrev pub size_of : Scalar → Option ℕ
size_of Scalar.uuid16 = some 16
size_of u64 = some 8
size_of i64 = some 8
size_of u8 = some 1
size_of hash32 = some 32
size_of _ = none

abbrev pub has_size : Option ℕ → ℕ → Bool
has_size none n = true
has_size (some size) n = n == size

abbrev pub valid_field : Scalar → Bytes → Bool
valid_field Scalar.uuid16 v = nonzero v
valid_field utf8 v = is_utf8 v
valid_field _ v = true

-- The loop of validate_admin_body, from field i on; what is left stands behind the fields.
unfoldable pub read_fields : ℕ → List Scalar → Bytes → Result Bytes
unfolding read is_utf8
read_fields i [] b = ok b
read_fields i (t ∷ types) b = do
  (id, b1) ← read 2 b
  demand (bytes_eq id (be 2 i))
  (n, b2) ← read 4 b1
  (v, b3) ← read (from_be n) b2
  demand (has_size (size_of t) (from_be n))
  demand (valid_field t v)
  read_fields (suc i) types b3

abbrev pub nothing_behind : Bytes → Bytes → Result Bytes
nothing_behind b [] = ok b
nothing_behind b (x ∷ rest) = raise value_error

unfoldable pub validated : List Scalar → Bytes → Result Bytes
unfolding read_fields
validated types b = do
  (version, b1) ← read 2 b
  demand (bytes_eq version (be 2 1))
  (count, b2) ← read 2 b1
  demand (bytes_eq count (be 2 (length types)))
  rest ← read_fields 1 types b2
  nothing_behind b rest

unfoldable pub validate_admin_body : ℕ → Bytes → Result Bytes
unfolding validated
validate_admin_body action b = elim (admin_types action) [
  | none ↦ raise type_error
  | some types ↦ validated types b
]

-- admin_preimage
unfoldable pub admin_preimage : ℕ → List AdminField → Result Bytes
unfolding admin_body validate_admin_body lp
admin_preimage action fields = do
  b ← admin_body action fields
  validate_admin_body action b
  framed ← lp b
  ok (codes "CoreDRP1-ADMIN" ++ (be 2 action ++ framed))
