-- ===== src/Requests/Arranged.antt =====
-- The encoding of an array forgets the order of its records (value of tools/request_encodings.py).
use mathlib.Core.List.{Permᴰ}
use mathlib.Core.List.Permᴰ
use core_drp.Prelude.{
  ◌≡◌, refl, sym, ap, ◌∙◌, Bool-cases, inl, inr, List, [], ◌∷◌, map, Bytes, bytes_eq, codes,
}
use core_drp.Prelude.Int.{ℤ, ltb_ℤ, eq_ℤ}
use core_drp.Result.{Result, ok, ok-inj, ◌>>=◌, ◌>>◌, >>=-eq-ok}
use core_drp.Policy.{demand}
use core_drp.Finance.Sorting.{
  lex, bytes_lt, sort_by, distinct_by, ltb_ℤ-IsOrder, bytes_lt-IsOrder, lex-IsOrder,
}
use core_drp.Finance.Sorting.Permuted.{distinct_by-Permᴰ, sort_by_arranged, sortable, eq_swapped}
use core_drp.Requests.Schema.{Fields, array, Value, Values, nil, cons, list, names}
use core_drp.Requests.Encoding.{
  each, index_of, indices, zip, sorted_records, counted, records_of, request_of, value,
  encode_fields,
}

abbrev pub elements : Values → List Value
elements nil = []
elements (cons x xs) = x ∷ elements xs

-- The encodings of a list of values.
all_of : (Value → Result Bytes) → List Value → Result (List Bytes)
all_of f [] = ok []
all_of f (x ∷ xs) = f x >>= λ b. all_of f xs >>= λ bs. ok (b ∷ bs)

each-elements : (f : Value → Result Bytes) (xs : Values) → each f xs ≡ all_of f (elements xs)
unfolding each all_of
each-elements f nil = refl
each-elements f (cons x xs) = ap (λ t. f x >>= λ b. t >>= λ bs. ok (b ∷ bs)) (each-elements f xs)

indices-elements : (xs : Values) → indices xs ≡ map index_of (elements xs)
indices-elements nil = refl
indices-elements (cons x xs) = ap (λ t. index_of x ∷ t) (indices-elements xs)

-- The records of a list, with their indices.
HasRecords : (Value → Result Bytes) → List Value → List Bytes → Type 0
HasRecords f xs bs = all_of f xs ≡ ok bs

-- Of values in another order, the records are in another order.
Arranged : (Value → Result Bytes) → List Value → List Value → List Bytes → Type 0
Arranged f xs ys bs =
    (cs : List Bytes) × HasRecords f ys cs
    × Permᴰ bs cs
    × Permᴰ (zip (map index_of xs) bs) (zip (map index_of ys) cs)

HasRecords-cons :
    (f : Value → Result Bytes) (x : Value) (xs : List Value) (bs : List Bytes)
    → HasRecords f (x ∷ xs) bs
    → (c : Bytes) × (cs : List Bytes) × (f x ≡ ok c) × HasRecords f xs cs × (bs ≡ c ∷ cs)
unfolding HasRecords all_of
HasRecords-cons f x xs bs h =
    let (c, hc, h1) = >>=-eq-ok (f x) _ h in
    let (cs, hcs, h2) = >>=-eq-ok (all_of f xs) _ h1 in (c, cs, hc, hcs, sym (ok-inj h2))

cons-HasRecords :
    (f : Value → Result Bytes) (x : Value) (xs : List Value) (c : Bytes) (cs : List Bytes)
    → f x ≡ ok c
    → HasRecords f xs cs
    → HasRecords f (x ∷ xs) (c ∷ cs)
unfolding HasRecords all_of
cons-HasRecords f x xs c cs h k = rw (h, k) refl

Permᴰ-Arranged :
    (f : Value → Result Bytes) (xs ys : List Value) (bs : List Bytes)
    → Permᴰ xs ys
    → HasRecords f xs bs
    → Arranged f xs ys bs
unfolding Arranged
Permᴰ-Arranged f _ _ bs Permᴰ.nil h = (bs, h, Permᴰ.refl bs, Permᴰ.refl [])
Permᴰ-Arranged f _ _ bs (Permᴰ.cons {a} {b} {l₁} {l₂} e g) h =
    let (c, cs, hc, hcs, is) = HasRecords-cons f a l₁ bs h in
    let (ds, hds, p, q) = Permᴰ-Arranged f l₁ l₂ cs g hcs in
    rw is (
      c ∷ ds,
      cons-HasRecords f b l₂ c ds (ap f (sym e) ∙ hc) hds,
      Permᴰ.cons refl p,
      Permᴰ.cons (ap (λ t. (index_of t, c)) e) q,
    )
Permᴰ-Arranged f _ _ bs (Permᴰ.swap {a} {b} {a'} {b'} {l} e g) h =
    let (c, cs, hc, hcs, is) = HasRecords-cons f a (b ∷ l) bs h in
    let (d, ds, hd, hds, is') = HasRecords-cons f b l cs hcs in
    rw (is, is')
      (
        d ∷ c ∷ ds,
        cons-HasRecords f a' (b' ∷ l) d (c ∷ ds) (ap f (sym g) ∙ hd)
            (cons-HasRecords f b' l c ds (ap f (sym e) ∙ hc) hds),
        Permᴰ.swap refl refl,
        Permᴰ.swap (ap (λ t. (index_of t, c)) e) (ap (λ t. (index_of t, d)) g),
      )
Permᴰ-Arranged f _ _ bs (Permᴰ.trans {l₁} {l₂} {l₃} g k) h =
    let (cs, hcs, p, q) = Permᴰ-Arranged f l₁ l₂ bs g h in
    let (ds, hds, p', q') = Permᴰ-Arranged f l₂ l₃ cs k hcs in
    (ds, hds, Permᴰ.trans p p', Permᴰ.trans q q')

map-Permᴰ : {A B : Type 0} (g : A → B) (xs ys : List A) → Permᴰ xs ys → Permᴰ (map g xs) (map g ys)
map-Permᴰ g _ _ Permᴰ.nil = Permᴰ.nil
map-Permᴰ g _ _ (Permᴰ.cons {a} {b} {l₁} {l₂} e h) = Permᴰ.cons (ap g e) (map-Permᴰ g l₁ l₂ h)
map-Permᴰ g _ _ (Permᴰ.swap e f) = Permᴰ.swap (ap g e) (ap g f)
map-Permᴰ g _ _ (Permᴰ.trans {l₁} {l₂} {l₃} h k) =
    Permᴰ.trans (map-Permᴰ g l₁ l₂ h) (map-Permᴰ g l₂ l₃ k)

-- The indices of the values are all different in both orders or in none.
distinct-indices :
    (xs ys : Values)
    → Permᴰ (elements xs) (elements ys)
    → distinct_by eq_ℤ (indices xs) ≡ distinct_by eq_ℤ (indices ys)
distinct-indices xs ys h =
    ap (distinct_by eq_ℤ) (indices-elements xs)
    ∙ distinct_by-Permᴰ (sortable ltb_ℤ-IsOrder) (eq_swapped ltb_ℤ-IsOrder)
        (map index_of (elements xs)) (map index_of (elements ys))
        (map-Permᴰ index_of (elements xs) (elements ys) h)
    ∙ ap (distinct_by eq_ℤ) (sym (indices-elements ys))

by_index : List (ℤ × Bytes) → List (ℤ × Bytes)
by_index = sort_by (lex ltb_ℤ eq_ℤ bytes_lt)

sorted_records-Arranged :
    (child : Bytes) (f : Value → Result Bytes) (xs ys : Values) (bs cs : List Bytes)
    → Permᴰ (elements xs) (elements ys)
    → Permᴰ bs cs
    → Permᴰ (zip (map index_of (elements xs)) bs) (zip (map index_of (elements ys)) cs)
    → sorted_records child xs bs ≡ sorted_records child ys cs
unfolding sorted_records by_index
sorted_records-Arranged child f xs ys bs cs h p q =
    elim (Bool-cases (bytes_eq child (codes "CommitmentRequestV1"))) [
      | inr e ↦ rw e (ap ok (sort_by_arranged bytes_lt-IsOrder bs cs p))
      | inl e ↦
          let pairs : by_index (zip (indices xs) bs) ≡ by_index (zip (indices ys) cs) =
            ap (λ t. by_index (zip t bs)) (indices-elements xs)
            ∙ sort_by_arranged (lex-IsOrder ltb_ℤ-IsOrder bytes_lt-IsOrder) _ _ q
            ∙ ap (λ t. by_index (zip t cs)) (sym (indices-elements ys)) in
          rw e (
            ap (λ t. demand t >> ok (map (λ p. p.1) (by_index (zip (indices xs) bs))))
              (distinct-indices xs ys h)
            ∙ ap (λ t. demand (distinct_by eq_ℤ (indices ys)) >> ok (map (λ p. p.1) t)) pairs)
    ]

records_of-Permᴰ :
    (child : Bytes) (f : Value → Result Bytes) (xs ys : Values) (rs : List Bytes)
    → Permᴰ (elements xs) (elements ys)
    → records_of child f (list xs) ≡ ok rs
    → records_of child f (list ys) ≡ ok rs
unfolding records_of HasRecords Arranged
records_of-Permᴰ child f xs ys rs h k =
    let (bs, hb, h1) = >>=-eq-ok (each f xs) _ k in
    let (cs, hc, p, q) =
      Permᴰ-Arranged f (elements xs) (elements ys) bs h (sym (each-elements f xs) ∙ hb) in
    ap (λ t. t >>= sorted_records child ys) (each-elements f ys ∙ hc)
    ∙ sym (sorted_records-Arranged child f xs ys bs cs h p q)
    ∙ h1

-- An array that encodes to some bytes encodes to the same bytes with its records in any other order,
-- those of commitments included.
pub value-Permᴰ :
    (child : Bytes) (fs : Fields) (xs ys : Values) (b : Bytes)
    → Permᴰ (elements xs) (elements ys)
    → value (array child fs) (list xs) ≡ ok b
    → value (array child fs) (list ys) ≡ ok b
unfolding value
value-Permᴰ child fs xs ys b h k =
    let request = request_of (names fs) (encode_fields fs) in
    let (rs, hr, h1) = >>=-eq-ok (records_of child request (list xs)) counted k in
    ap (λ t. t >>= counted) (records_of-Permᴰ child request xs ys rs h hr) ∙ h1
