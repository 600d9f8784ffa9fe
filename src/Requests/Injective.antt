-- ===== src/Requests/Injective.antt =====
-- The bytes of a request determine its fields (encode and admission of tools/request_encodings.py).
use core_drp.Prelude.{
  ◌^◌, ◌<◌, ◌≡◌, refl, sym, ap, ◌∙◌, ◌⊎◌, inl, inr, Bool-cases, arith, ltb, List, [], ◌∷◌, ◌++◌,
  length, append-inj, Bytes, be,
}
use mathlib.Core.List.{append_assoc}
use core_drp.Result.{Result, ok, raise≢ok, ok-inj, ◌>>=◌, >>=-eq-ok}
use core_drp.Policy.{demand}
use core_drp.Finance.Effects.Injective.{be_field-inj}
use core_drp.Finance.Settlement.{same_set}
use core_drp.Requests.Schema.{
  Kind, Fields, optional, array, nested, scalar, end, field, Value, Entries, absent, int, truth,
  double, text, list, dict, names, keys, get,
}
use core_drp.Requests.Encoding.{
  lp, framed, counted, records_of, request_of, given, value, encode_fields, encode,
}
use core_drp.Requests.Scalars.{Told, SameScalar, scalar_value-Told, lp-told}

framed-told :
    (xs ys : List Bytes) (b c r s : Bytes)
    → length xs ≡ length ys
    → framed xs ≡ ok b
    → framed ys ≡ ok c
    → b ++ r ≡ c ++ s
    → (xs ≡ ys) × (r ≡ s)
unfolding framed
framed-told [] [] b c r s n h k e =
    (refl, ap (λ t. t ++ r) (ok-inj h) ∙ e ∙ ap (λ t. t ++ s) (sym (ok-inj k)))
framed-told [] (y ∷ ys) b c r s n h k e = absurd (omega arith)
framed-told (x ∷ xs) [] b c r s n h k e = absurd (omega arith)
framed-told (x ∷ xs) (y ∷ ys) b c r s n h k e =
    let (b1, h1, h2) = >>=-eq-ok (lp x) _ h in
    let (b2, h3, h4) = >>=-eq-ok (framed xs) _ h2 in
    let (c1, k1, k2) = >>=-eq-ok (lp y) _ k in
    let (c2, k3, k4) = >>=-eq-ok (framed ys) _ k2 in
    let e' : b1 ++ (b2 ++ r) ≡ c1 ++ (c2 ++ s) =
      sym (append_assoc b1 b2 r)
      ∙ ap (λ t. t ++ r) (ok-inj h4)
      ∙ e
      ∙ ap (λ t. t ++ s) (sym (ok-inj k4))
      ∙ append_assoc c1 c2 s in
    let (first, rest) = lp-told x y b1 c1 (b2 ++ r) (c2 ++ s) h1 k1 e' in
    let (others, behind) = framed-told xs ys b2 c2 r s (omega arith) h3 k3 rest in
    (ground (arith, first, others), behind)

counted-eq-ok :
    (xs : List Bytes) (b : Bytes)
    → counted xs ≡ ok b
    → (c : Bytes) × (length xs < 2 ^ 32) × (framed xs ≡ ok c) × (b ≡ be 4 (length xs) ++ c)
unfolding counted
counted-eq-ok xs b h = elim (Bool-cases (ltb (length xs) (2 ^ 32))) [
  | inl e ↦
      let (c, at, k) = >>=-eq-ok (framed xs) _ (rw e at h) in
      (c, ground (arith, e), at, sym (ok-inj k))
  | inr e ↦ absurd (raise≢ok (rw e at h))
]

counted-told :
    (xs ys : List Bytes) (b c r s : Bytes)
    → counted xs ≡ ok b
    → counted ys ≡ ok c
    → b ++ r ≡ c ++ s
    → (xs ≡ ys) × (r ≡ s)
counted-told xs ys b c r s h k e =
    let (b', small, fb, at) = counted-eq-ok xs b h in
    let (c', small', fc, at') = counted-eq-ok ys c k in
    let e' : be 4 (length xs) ++ (b' ++ r) ≡ be 4 (length ys) ++ (c' ++ s) =
      sym (append_assoc (be 4 (length xs)) b' r)
      ∙ ap (λ t. t ++ r) (sym at)
      ∙ e
      ∙ ap (λ t. t ++ s) at'
      ∙ append_assoc (be 4 (length ys)) c' s in
    let (size, rest) =
      be_field-inj 4 (length xs) (length ys) (b' ++ r) (c' ++ s) (omega (arith, small))
        (omega (arith, small')) e' in
    framed-told xs ys b' c' r s size fb fc rest

request_of-eq-ok :
    (expected : List Bytes) (body : Entries → Result Bytes) (x : Value) (b : Bytes)
    → request_of expected body x ≡ ok b
    → (es : Entries) × (c : Bytes) × (x ≡ dict es) × (body es ≡ ok c) × (b ≡ be 2 1 ++ c)
unfolding request_of
request_of-eq-ok expected body (dict es) b h =
    let (_, _, h1) = >>=-eq-ok (demand (same_set (keys es) expected)) _ h in
    let (c, at, h2) = >>=-eq-ok (body es) _ h1 in (es, c, refl, at, sym (ok-inj h2))
request_of-eq-ok expected body _ b h = absurd (raise≢ok h)

-- What equal bytes say of two values of a type: a field that may be left out is left out of both or
-- agrees, the canonical records of two arrays are equal, and requests agree field by field.
mutual
  Agree : Kind → Value → Value → Type 0
  Agree (optional k) x y = ((x ≡ absent) × (y ≡ absent)) ⊎ Agree k x y
  Agree (array child fs) x y =
      (records : List Bytes) × (records_of child (request_of (names fs) (encode_fields fs)) x
        ≡ ok records)
      × (records_of child (request_of (names fs) (encode_fields fs)) y ≡ ok records)
  Agree (nested fs) x y =
      (es : Entries) × (es' : Entries) × (x ≡ dict es) × (y ≡ dict es') × AgreeFields fs es es'
  Agree (scalar s) x y = SameScalar s x y

  pub AgreeFields : Fields → Entries → Entries → Type 0
  AgreeFields end es es' = Unit
  AgreeFields (field n k fs) es es' = Agree k (get n es) (get n es') × AgreeFields fs es es'

-- A value that is there.
IsGiven : Value → Type 0
IsGiven x = (f : Value → Result Bytes) → given f x ≡ (f x >>= λ b. ok (1 ∷ b))

IsGiven-cases : (x : Value) → (x ≡ absent) ⊎ IsGiven x
unfolding IsGiven given
IsGiven-cases absent = inl refl
IsGiven-cases (int n) = inr (λ f. refl)
IsGiven-cases (truth t) = inr (λ f. refl)
IsGiven-cases (double d) = inr (λ f. refl)
IsGiven-cases (text t) = inr (λ f. refl)
IsGiven-cases (list xs) = inr (λ f. refl)
IsGiven-cases (dict es) = inr (λ f. refl)

given-eq-ok :
    (f : Value → Result Bytes) (x : Value) (b : Bytes)
    → given f x ≡ ok b
    → ((x ≡ absent) × (b ≡ 0 ∷ [])) ⊎ ((c : Bytes) × (f x ≡ ok c) × (b ≡ 1 ∷ c))
unfolding IsGiven
given-eq-ok f x b h = elim (IsGiven-cases x) [
  | inl gone ↦
      let at : given f absent ≡ ok b = ap (given f) (sym gone) ∙ h in
      let zero_byte : ok (0 ∷ []) ≡ ok b = unfold given in at in inl (gone, sym (ok-inj zero_byte))
  | inr there ↦
      let (c, at, k) = >>=-eq-ok (f x) (λ b. ok (1 ∷ b)) (sym (there f) ∙ h) in
      inr (c, at, sym (ok-inj k))
]

given-Told :
    (f : Value → Result Bytes) (R : Value → Value → Type 0)
    → Told f R
    → Told (given f) (λ x y. ((x ≡ absent) × (y ≡ absent)) ⊎ R x y)
given-Told f R told x y b c r s h k e = elim (given-eq-ok f x b h) [
  | inl (gone, at) ↦ elim (given-eq-ok f y c k) [
    | inl (gone', at') ↦ (inl (gone, gone'), ground (arith, at, at'))
    | inr (c', _, at') ↦ absurd (ground (arith, at, at'))
  ]
  | inr (b', fb, at) ↦ elim (given-eq-ok f y c k) [
    | inl (gone', at') ↦ absurd (ground (arith, at, at'))
    | inr (c', fc, at') ↦
        let e' : 1 ∷ (b' ++ r) ≡ 1 ∷ (c' ++ s) =
          ap (λ t. t ++ r) (sym at) ∙ e ∙ ap (λ t. t ++ s) at' in
        let tails : b' ++ r ≡ c' ++ s = cc e' in
        let (same, rest) = told x y b' c' r s fb fc tails in (inr same, rest)
  ]
]

version_told : (b c : Bytes) → be 2 1 ++ b ≡ be 2 1 ++ c → b ≡ c
version_told b c e = (append-inj (be 2 1) (be 2 1) b c refl e).1

mutual
  unfolding value Agree

  value-Told : (k : Kind) → Told (value k) (Agree k)
  value-Told (optional k) = given-Told (value k) (Agree k) (value-Told k)
  value-Told (array child fs) = λ x y b c r s h k e.
      let records = records_of child (request_of (names fs) (encode_fields fs)) in
      let (xs, hx, hb) = >>=-eq-ok (records x) counted h in
      let (ys, hy, hc) = >>=-eq-ok (records y) counted k in
      let (same, rest) = counted-told xs ys b c r s hb hc e in
      ((xs, hx, hy ∙ ap ok (sym same)), rest)
  value-Told (nested fs) = λ x y b c r s h k e.
      let request = request_of (names fs) (encode_fields fs) in
      let (p, hp, hb) = >>=-eq-ok (request x) lp h in
      let (q, hq, hc) = >>=-eq-ok (request y) lp k in
      let (same, rest) = lp-told p q b c r s hb hc e in
      let (es, p', at, fp, is) = request_of-eq-ok (names fs) (encode_fields fs) x p hp in
      let (es', q', at', fq, is') = request_of-eq-ok (names fs) (encode_fields fs) y q hq in
      let inner = version_told p' q' (sym is ∙ same ∙ is') in
      let (fields, _) = encode_fields-Told fs es es' p' q' [] [] fp fq (ap (λ t. t ++ []) inner) in
      ((es, es', at, at', fields), rest)
  value-Told (scalar s) = scalar_value-Told s

  encode_fields-Told :
      (fs : Fields) (es es' : Entries) (b c r s : Bytes)
      → encode_fields fs es ≡ ok b
      → encode_fields fs es' ≡ ok c
      → b ++ r ≡ c ++ s
      → AgreeFields fs es es' × (r ≡ s)
  encode_fields-Told end es es' b c r s h k e =
      (tt, ap (λ t. t ++ r) (ok-inj h) ∙ e ∙ ap (λ t. t ++ s) (sym (ok-inj k)))
  encode_fields-Told (field n k fs) es es' b c r s h h' e =
      let (b1, h1, h2) = >>=-eq-ok (value k (get n es)) _ h in
      let (b2, h3, h4) = >>=-eq-ok (encode_fields fs es) _ h2 in
      let (c1, k1, k2) = >>=-eq-ok (value k (get n es')) _ h' in
      let (c2, k3, k4) = >>=-eq-ok (encode_fields fs es') _ k2 in
      let e' : b1 ++ (b2 ++ r) ≡ c1 ++ (c2 ++ s) =
        sym (append_assoc b1 b2 r)
        ∙ ap (λ t. t ++ r) (ok-inj h4)
        ∙ e
        ∙ ap (λ t. t ++ s) (sym (ok-inj k4))
        ∙ append_assoc c1 c2 s in
      let (first, rest) = value-Told k (get n es) (get n es') b1 c1 (b2 ++ r) (c2 ++ s) h1 k1 e' in
      let (others, behind) = encode_fields-Told fs es es' b2 c2 r s h3 k3 rest in
      ((first, others), behind)

-- Two requests of one schema that encode to the same bytes are dictionaries that agree in every field
-- of the schema: numbers, flags and texts are equal, what is written in hexadecimal spells the same
-- bytes, a field is left out of both or of none, and arrays have the same records.
pub encode-AgreeFields :
    (fs : Fields) (x y : Value) (b : Bytes)
    → encode fs x ≡ ok b
    → encode fs y ≡ ok b
    → (es : Entries) × (es' : Entries) × (x ≡ dict es) × (y ≡ dict es') × AgreeFields fs es es'
unfolding encode
encode-AgreeFields fs x y b h k =
    let (es, p, at, fp, is) = request_of-eq-ok (names fs) (encode_fields fs) x b h in
    let (es', q, at', fq, is') = request_of-eq-ok (names fs) (encode_fields fs) y b k in
    let inner = version_told p q (sym is ∙ is') in
    let (fields, _) = encode_fields-Told fs es es' p q [] [] fp fq (ap (λ t. t ++ []) inner) in
    (es, es', at, at', fields)
