-- ===== src/Requests/Admin/Accepted.antt =====
-- Which bodies validate_admin_body accepts (tools/request_encodings.py).
use core_drp.Prelude.{
  ℕ, suc, ◌≡◌, ◌↔◌, refl, sym, ap, ◌∙◌, inl, inr, Option-cases, true, some, List, [], ◌∷◌, ◌++◌,
  length, Bytes, bytes_eq, bytes_eq_iff, bytes_eq_refl, be, from_be, length-be,
}
use core_drp.Result.{ok, raise≢ok, ok-inj, >>=-eq-ok}
use core_drp.Policy.{demand-eq-ok}
use core_drp.Profile.Bitcoin.{read}
use core_drp.Profile.Bitcoin.Prefixes.{read-append, read-parts}
use core_drp.Requests.Schema.{Scalar}
use core_drp.Requests.Admin.{
  admin_types, size_of, has_size, valid_field, read_fields, nothing_behind, validated,
  validate_admin_body,
}

-- The fields of some types from a number on: each has its number, the length of its value in four
-- bytes, and a value of the type.
pub data IsFields : ℕ → List Scalar → Bytes → Type 0 where
  no_fields : (i : ℕ) → IsFields i [] []
  one_field :
      (i : ℕ) (t : Scalar) (types : List Scalar) (size v rest : Bytes)
      → length size ≡ 4
      → from_be size ≡ length v
      → has_size (size_of t) (length v) ≡ true
      → valid_field t v ≡ true
      → IsFields (suc i) types rest
      → IsFields i (t ∷ types) (be 2 i ++ (size ++ (v ++ rest)))

-- The body of an action: the version, the number of its fields, and the fields.
abbrev pub IsBody : ℕ → Bytes → Type 0
IsBody action b =
    (types : List Scalar) × (fields : Bytes) × (admin_types action ≡ some types)
    × IsFields 1 types fields
    × (b ≡ be 2 1 ++ (be 2 (length types) ++ fields))

same_bytes : (a b : Bytes) → bytes_eq a b ≡ true → a ≡ b
same_bytes a b h = (bytes_eq_iff a b).0 h

read_fields-IsFields :
    (i : ℕ) (types : List Scalar) (b : Bytes) → read_fields i types b ≡ ok [] → IsFields i types b
unfolding read_fields
read_fields-IsFields i [] b h = rw (ok-inj h) (no_fields i)
read_fields-IsFields i (t ∷ types) b h =
    let (p, h1, h2) = >>=-eq-ok (read 2 b) _ h in
    let (id, h3) = demand-eq-ok (bytes_eq p.0 (be 2 i)) _ h2 in
    let (q, h4, h5) = >>=-eq-ok (read 4 p.1) _ h3 in
    let (r, h6, h7) = >>=-eq-ok (read (from_be q.0) q.1) _ h5 in
    let (sized, h8) = demand-eq-ok (has_size (size_of t) (from_be q.0)) _ h7 in
    let (valid, h9) = demand-eq-ok (valid_field t r.0) _ h8 in
    let (s1, _) = read-parts 2 b p.0 p.1 h1 in
    let (s2, four) = read-parts 4 p.1 q.0 q.1 h4 in
    let (s3, long) = read-parts (from_be q.0) q.1 r.0 r.1 h6 in
    let whole : b ≡ be 2 i ++ (q.0 ++ (r.0 ++ r.1)) =
      s1
      ∙ ap (λ t. t ++ p.1) (same_bytes p.0 (be 2 i) id)
      ∙ ap (λ t. be 2 i ++ t) (s2 ∙ ap (λ t. q.0 ++ t) s3) in
    rw whole (
      one_field i t types q.0 r.0 r.1 four (sym long) (ap (has_size (size_of t)) long ∙ sized) valid
        (read_fields-IsFields (suc i) types r.1 h9))

IsFields-read_fields :
    (i : ℕ) (types : List Scalar) (b : Bytes) → IsFields i types b → read_fields i types b ≡ ok []
unfolding read_fields
IsFields-read_fields _ _ _ (no_fields i) = refl
IsFields-read_fields _ _ _ (one_field i t types size v rest four long sized valid later) =
    rw
      (
        read-append 2 (be 2 i) (size ++ (v ++ rest)) (length-be 2 i),
        bytes_eq_refl (be 2 i),
        read-append 4 size (v ++ rest) four,
        long,
        read-append (length v) v rest refl,
        sized,
        valid,
      )
      (IsFields-read_fields (suc i) types rest later)

nothing_behind-eq-ok : (b rest c : Bytes) → nothing_behind b rest ≡ ok c → (rest ≡ []) × (c ≡ b)
nothing_behind-eq-ok b [] c h = (refl, sym (ok-inj h))
nothing_behind-eq-ok b (x ∷ rest) c h = absurd (raise≢ok h)

validated-IsFields :
    (types : List Scalar) (b c : Bytes)
    → validated types b ≡ ok c
    → (c ≡ b)
      × ((fields : Bytes) × IsFields 1 types fields
          × (b ≡ be 2 1 ++ (be 2 (length types) ++ fields)))
unfolding validated
validated-IsFields types b c h =
    let (p, h1, h2) = >>=-eq-ok (read 2 b) _ h in
    let (version, h3) = demand-eq-ok (bytes_eq p.0 (be 2 1)) _ h2 in
    let (q, h4, h5) = >>=-eq-ok (read 2 p.1) _ h3 in
    let (count, h6) = demand-eq-ok (bytes_eq q.0 (be 2 (length types))) _ h5 in
    let (rest, h7, h8) = >>=-eq-ok (read_fields 1 types q.1) _ h6 in
    let (none_left, is) = nothing_behind-eq-ok b rest c h8 in
    let (s1, _) = read-parts 2 b p.0 p.1 h1 in
    let (s2, _) = read-parts 2 p.1 q.0 q.1 h4 in
    (
      is,
      (
        q.1,
        read_fields-IsFields 1 types q.1 (h7 ∙ ap ok none_left),
        s1
            ∙ ap (λ t. t ++ p.1) (same_bytes p.0 (be 2 1) version)
            ∙ ap (λ t. be 2 1 ++ t)
                (s2 ∙ ap (λ t. t ++ q.1) (same_bytes q.0 (be 2 (length types)) count)),
      ),
    )

IsFields-validated :
    (types : List Scalar) (fields : Bytes)
    → IsFields 1 types fields
    → validated types (be 2 1 ++ (be 2 (length types) ++ fields))
      ≡ ok (be 2 1 ++ (be 2 (length types) ++ fields))
unfolding validated
IsFields-validated types fields h =
    let count = be 2 (length types) in
    rw (
      read-append 2 (be 2 1) (count ++ fields) (length-be 2 1),
      bytes_eq_refl (be 2 1),
      read-append 2 count fields (length-be 2 (length types)),
      bytes_eq_refl count,
      IsFields-read_fields 1 types fields h,
    )

-- validate_admin_body accepts exactly the bodies that are the version, the number of the fields of
-- the action, and these fields, each with its number, the length of its value in four bytes, and a
-- value of the size and the form of its type, with nothing behind them; and it returns them as they
-- are.
pub validate_admin_body-IsBody :
    (action : ℕ) (b c : Bytes) → (validate_admin_body action b ≡ ok c) ↔ ((c ≡ b) × IsBody action b)
unfolding validate_admin_body
validate_admin_body-IsBody action b c = elim (Option-cases (admin_types action)) [
  | inl e ↦ (
    λ h. absurd (raise≢ok (rw (e, validate_admin_body) at h)),
    λ (_, (types, _, at, _, _)). absurd (cc (e, at)),
  )
  | inr (types, e) ↦ (
    λ h.
        let (is, (fields, good, at)) =
          validated-IsFields types b c (rw (e, validate_admin_body) at h) in
        (is, (types, fields, e, good, at)),
    λ (is, (types', fields, at, good, whole)).
        rw (at, validate_admin_body)
          (ap (validated types') whole
            ∙ IsFields-validated types' fields good
            ∙ ap ok (sym whole ∙ sym is)),
  )
]
