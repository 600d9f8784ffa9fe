-- ===== src/Requests/Admin/Validated.antt =====
-- What admin_body builds passes validate_admin_body (tools/request_encodings.py).
use mathlib.Core.Path.{subst}
use mathlib.Core.List.{append_assoc}
use core_drp.Prelude.{
  ℕ, suc, ◌^◌, ◌<◌, ◌≡◌, refl, sym, ap, ◌∙◌, inl, inr, Bool-cases, Option-cases, arith, Bool, true,
  ◌==◌, List, [], ◌∷◌, ◌++◌, length, drop, drop-append, all, Bytes, bytes_eq_refl, be, length-be,
  from_be, from_be-be, and_left, and_right,
}
use core_drp.Result.{ok, raise≢ok, ok-inj, >>=-eq-ok}
use core_drp.Profile.Bitcoin.Prefixes.{read-append}
use core_drp.Requests.{uuid16}
use core_drp.Requests.Schema.{
  Scalar, u8, u16, u32, u64, i64, bool, f64, hash32, bytes, utf8, ascii, Value, text,
}
use core_drp.Requests.Encoding.{scalar_value, integer, text_of, hash_of, lp}
use core_drp.Requests.Scalars.{
  integer-eq-ok, signed-eq-ok, text_of-eq-ok, hash_of-eq-ok, uuid16-eq-ok, lp-eq-ok,
  length-be_signed,
}
use core_drp.Requests.Admin.{
  AdminField, admin_types, numbered, without_length, admin_fields, body_of, admin_body, is_utf8,
  size_of, has_size, valid_field, read_fields, validated, validate_admin_body,
}

-- A text is well-formed UTF-8.
abbrev pub is_text : Value → Bool
is_text (text t) = is_utf8 t
is_text _ = true

abbrev pub all_texts : List AdminField → Bool
all_texts = all (λ f. is_text f.1)

length-integer : (w : ℕ) (x : Value) (b : Bytes) → integer w x ≡ ok b → length b ≡ w
length-integer w x b h = let (n, _, _, at) = integer-eq-ok w x b h in ap length at ∙ length-be w n

Passes : Scalar → Bytes → Type 0
Passes t v = (has_size (size_of t) (length v) ≡ true) × (valid_field t v ≡ true)

scalar-Passes :
    (t : Scalar) (x : Value) (b : Bytes)
    → scalar_value t x ≡ ok b
    → is_text x ≡ true
    → Passes t (without_length t b)
unfolding scalar_value Passes
scalar-Passes u8 x b h w = (ground (arith, length-integer 1 x b h), refl)
scalar-Passes u16 x b h w = (refl, refl)
scalar-Passes u32 x b h w = (refl, refl)
scalar-Passes u64 x b h w = (ground (arith, length-integer 8 x b h), refl)
scalar-Passes i64 x b h w =
    let (n, _, _, at) = signed-eq-ok x b h in
    (ground (arith, ap length at ∙ length-be_signed n), refl)
scalar-Passes bool x b h w = (refl, refl)
scalar-Passes f64 x b h w = (refl, refl)
scalar-Passes Scalar.uuid16 x b h w =
    let (t, _, k) = >>=-eq-ok (text_of x) uuid16 h in
    let (_, size, some_bit) = uuid16-eq-ok t b k in (ground (arith, size), some_bit)
scalar-Passes hash32 x b h w =
    let (t, _, k) = >>=-eq-ok (text_of x) hash_of h in
    let (_, size) = hash_of-eq-ok t b k in (ground (arith, size), refl)
scalar-Passes bytes x b h w = (refl, refl)
scalar-Passes utf8 x b h w =
    let (t, ht, k) = >>=-eq-ok (text_of x) lp h in
    let (_, at) = lp-eq-ok t b k in
    let behind : drop 4 b ≡ t =
      ap (drop 4) at ∙ drop-append (be 4 (length t)) t 4 (sym (length-be 4 (length t))) in
    let well : is_text (text t) ≡ true = subst (λ y. is_text y ≡ true) (text_of-eq-ok x t ht) w in
    (refl, subst (λ u. is_utf8 u ≡ true) (sym behind) well)
scalar-Passes ascii x b h w = (refl, refl)

-- One field of the loop, where all its checks pass.
read_fields-step :
    (i : ℕ) (t : Scalar) (types : List Scalar) (v out : Bytes)
    → length v < 2 ^ 32
    → Passes t v
    → read_fields i (t ∷ types) (be 2 i ++ ((be 4 (length v) ++ v) ++ out))
      ≡ read_fields (suc i) types out
unfolding read_fields Passes
read_fields-step i t types v out small (sized, valid) =
    let n = length v in
    let same : from_be (be 4 n) ≡ n = from_be-be 4 n (omega (arith, small)) in
    rw (
      read-append 2 (be 2 i) ((be 4 n ++ v) ++ out) (length-be 2 i),
      bytes_eq_refl (be 2 i),
      append_assoc (be 4 n) v out,
      read-append 4 (be 4 n) (v ++ out) (length-be 4 n),
      same,
      read-append n v out refl,
      sized,
      valid,
    )

read_fields-admin_fields :
    (i : ℕ) (types : List Scalar) (fields : List AdminField) (out : Bytes)
    → numbered i types fields ≡ true
    → all_texts fields ≡ true
    → admin_fields types fields ≡ ok out
    → read_fields i types out ≡ ok []
unfolding admin_fields
read_fields-admin_fields i [] fields out n w h = unfold read_fields in sym (ap ok (ok-inj h))
read_fields-admin_fields i (t ∷ types) [] out n w h = cc
read_fields-admin_fields i (t ∷ types) ((id, x) ∷ fields) out n w h =
    let (b, hb, h1) = >>=-eq-ok (scalar_value t x) _ h in
    let v = without_length t b in
    let (framed, hf, h2) = >>=-eq-ok (lp v) _ h1 in
    let (rest, hr, h3) = >>=-eq-ok (admin_fields types fields) _ h2 in
    let (small, at) = lp-eq-ok v framed hf in
    let same : id ≡ i = ground (arith, and_left (id == i) (numbered (suc i) types fields) n) in
    let later = and_right (id == i) (numbered (suc i) types fields) n in
    let whole : out ≡ be 2 i ++ ((be 4 (length v) ++ v) ++ rest) =
      sym (ok-inj h3)
      ∙ ap (λ k. be 2 k ++ (framed ++ rest)) same
      ∙ ap (λ u. be 2 i ++ (u ++ rest)) at in
    ap (read_fields i (t ∷ types)) whole
    ∙ read_fields-step i t types v rest small
        (scalar-Passes t x b hb (and_left (is_text x) (all_texts fields) w))
    ∙ read_fields-admin_fields (suc i) types fields rest later
        (and_right (is_text x) (all_texts fields) w) hr

numbered-length :
    (i : ℕ) (types : List Scalar) (fields : List AdminField)
    → numbered i types fields ≡ true
    → length fields ≡ length types
numbered-length i [] [] h = refl
numbered-length i [] (f ∷ fields) h = cc
numbered-length i (t ∷ types) [] h = cc
numbered-length i (t ∷ types) ((id, x) ∷ fields) h =
    ap suc (numbered-length (suc i) types fields (and_right (id == i) _ h))

validated-body_of :
    (types : List Scalar) (fields : List AdminField) (b : Bytes)
    → all_texts fields ≡ true
    → body_of types fields ≡ ok b
    → validated types b ≡ ok b
unfolding body_of validated
validated-body_of types fields b w h = elim (Bool-cases (numbered 1 types fields)) [
  | inr e ↦ absurd (raise≢ok (rw e at h))
  | inl e ↦
      let (out, ho, h1) = >>=-eq-ok (admin_fields types fields) _ (rw e at h) in
      let count = be 2 (length types) in
      let whole : b ≡ be 2 1 ++ (count ++ out) =
        sym (ok-inj h1) ∙ ap (λ n. be 2 1 ++ (be 2 n ++ out)) (numbered-length 1 types fields e) in
      let inner : validated types (be 2 1 ++ (count ++ out)) ≡ ok (be 2 1 ++ (count ++ out)) = rw (
        read-append 2 (be 2 1) (count ++ out) (length-be 2 1),
        bytes_eq_refl (be 2 1),
        read-append 2 count out (length-be 2 (length types)),
        bytes_eq_refl count,
        read_fields-admin_fields 1 types fields out e w ho,
      ) in
      ap (validated types) whole ∙ inner ∙ ap ok (sym whole)
]

-- A body that admin_body builds is accepted by validate_admin_body for the same action, and comes
-- back as it is, where the texts among the values are well-formed UTF-8.
pub validate_admin_body-admin_body :
    (action : ℕ) (fields : List AdminField) (b : Bytes)
    → all_texts fields ≡ true
    → admin_body action fields ≡ ok b
    → validate_admin_body action b ≡ ok b
unfolding admin_body validate_admin_body
validate_admin_body-admin_body action fields b w h = elim (Option-cases (admin_types action)) [
  | inl e ↦ absurd (raise≢ok (rw (e, admin_body) at h))
  | inr (types, e) ↦
      rw (e, validate_admin_body) (validated-body_of types fields b w (rw (e, admin_body) at h))
]
