-- ===== src/Finance/Sorting.antt =====
-- Python's sorted and its orders, where tools/financial_semantics.py sorts: by the tuples of
-- tuple_key, and by byte strings.
pub mod Permuted
use core_drp.Prelude.{
  ◌≡◌, inl, inr, refl, Bool, true, false, not, ◌&&◌, ◌||◌, Bool-cases, arith, if◌then◌else◌, ltb,
  ◌==◌, List, [], ◌∷◌, any, all, Bytes, bytes_eq, bytes_eq→eq, bytes_eq_refl,
}
use core_drp.Prelude.Int.{ltb_ℤ, eq_ℤ, eq_ℤ→eq}

-- < on pairs: the second parts count where the first are equal.
abbrev pub lex {ℓ κ} :
    {A : Type ℓ} {B : Type κ}
    → (A → A → Bool)
    → (A → A → Bool)
    → (B → B → Bool)
    → A × B
    → A × B
    → Bool
lex lt eq lt' p q = lt p.0 q.0 || (eq p.0 q.0 && lt' p.1 q.1)

-- == on pairs
abbrev pub both {ℓ κ} :
    {A : Type ℓ} {B : Type κ} → (A → A → Bool) → (B → B → Bool) → A × B → A × B → Bool
both eq eq' p q = eq p.0 q.0 && eq' p.1 q.1

-- < on byte strings
abbrev pub bytes_lt : Bytes → Bytes → Bool
bytes_lt [] [] = false
bytes_lt [] (y ∷ ys) = true
bytes_lt (x ∷ xs) [] = false
bytes_lt (x ∷ xs) (y ∷ ys) = ltb x y || (x == y && bytes_lt xs ys)

-- sorted(xs), which keeps equal elements as they stood
abbrev pub insert_by {ℓ} : {A : Type ℓ} → (A → A → Bool) → A → List A → List A
insert_by lt x [] = x ∷ []
insert_by lt x (y ∷ ys) = if lt y x then y ∷ insert_by lt x ys else x ∷ y ∷ ys

abbrev pub sort_by {ℓ} : {A : Type ℓ} → (A → A → Bool) → List A → List A
sort_by lt [] = []
sort_by lt (x ∷ xs) = insert_by lt x (sort_by lt xs)

-- len(set(xs))==len(xs)
abbrev pub distinct_by {ℓ} : {A : Type ℓ} → (A → A → Bool) → List A → Bool
distinct_by eq [] = true
distinct_by eq (x ∷ xs) = not (any (eq x) xs) && distinct_by eq xs

-- lt is a strict total order, and eq decides its equality.
pub record IsOrder {ℓ} {A : Type ℓ} (lt eq : A → A → Bool) : Type ℓ where
  pub asym : (a b : A) → lt a b ≡ true → lt b a ≡ false
  pub trans : (a b c : A) → lt a b ≡ true → lt b c ≡ true → lt a c ≡ true
  pub total : (a b : A) → lt a b ≡ false → lt b a ≡ false → eq a b ≡ true
  pub sound : (a b : A) → eq a b ≡ true → a ≡ b
  pub same : (a : A) → eq a a ≡ true

pub ltb_ℤ-IsOrder : IsOrder ltb_ℤ eq_ℤ
ltb_ℤ-IsOrder = record {
  asym = λ a b h. ground arith;
  trans = λ a b c h k. ground arith;
  total = λ a b h k. ground arith;
  sound = eq_ℤ→eq;
  same = λ a. ground arith;
}

bytes_lt_asym : (a b : Bytes) → bytes_lt a b ≡ true → bytes_lt b a ≡ false
bytes_lt_asym [] [] h = cc
bytes_lt_asym [] (y ∷ ys) h = refl
bytes_lt_asym (x ∷ xs) [] h = cc
bytes_lt_asym (x ∷ xs) (y ∷ ys) h = ground (arith, bytes_lt_asym xs ys)

bytes_lt_trans : (a b c : Bytes) → bytes_lt a b ≡ true → bytes_lt b c ≡ true → bytes_lt a c ≡ true
bytes_lt_trans [] [] c h k = cc
bytes_lt_trans [] (y ∷ ys) [] h k = cc
bytes_lt_trans [] (y ∷ ys) (z ∷ zs) h k = refl
bytes_lt_trans (x ∷ xs) [] c h k = cc
bytes_lt_trans (x ∷ xs) (y ∷ ys) [] h k = cc
bytes_lt_trans (x ∷ xs) (y ∷ ys) (z ∷ zs) h k = ground (arith, bytes_lt_trans xs ys zs)

bytes_lt_total : (a b : Bytes) → bytes_lt a b ≡ false → bytes_lt b a ≡ false → bytes_eq a b ≡ true
bytes_lt_total [] [] h k = refl
bytes_lt_total [] (y ∷ ys) h k = cc
bytes_lt_total (x ∷ xs) [] h k = cc
bytes_lt_total (x ∷ xs) (y ∷ ys) h k = ground (arith, bytes_lt_total xs ys)

pub bytes_lt-IsOrder : IsOrder bytes_lt bytes_eq
bytes_lt-IsOrder = record {
  asym = bytes_lt_asym;
  trans = bytes_lt_trans;
  total = bytes_lt_total;
  sound = bytes_eq→eq;
  same = bytes_eq_refl;
}

pub reverse-IsOrder {ℓ} :
    {A : Type ℓ} {lt eq : A → A → Bool} → IsOrder lt eq → IsOrder (λ a b. lt b a) eq
reverse-IsOrder o = record {
  asym = λ a b h. o.asym b a h;
  trans = λ a b c h k. o.trans c b a k h;
  total = λ a b h k. o.total a b k h;
  sound = o.sound;
  same = o.same;
}

module _ {ℓ κ} {A : Type ℓ} {B : Type κ} {lt eq : A → A → Bool} {lt' eq' : B → B → Bool}
    (o : IsOrder lt eq) (o' : IsOrder lt' eq') where
  lex_asym : (p q : A × B) → lex lt eq lt' p q ≡ true → lex lt eq lt' q p ≡ false
  lex_asym p q h = ground (
    arith,
    o.asym p.0 q.0,
    o.asym p.0 p.0,
    o.asym q.0 q.0,
    o.sound p.0 q.0,
    o.sound q.0 p.0,
    o'.asym p.1 q.1,
  )

  lex_trans :
      (p q r : A × B)
      → lex lt eq lt' p q ≡ true
      → lex lt eq lt' q r ≡ true
      → lex lt eq lt' p r ≡ true
  lex_trans p q r h k =
      ground (arith, o.trans p.0 q.0 r.0, o.sound p.0 q.0, o.sound q.0 r.0, o'.trans p.1 q.1 r.1)

  lex_total :
      (p q : A × B) → lex lt eq lt' p q ≡ false → lex lt eq lt' q p ≡ false → both eq eq' p q ≡ true
  lex_total p q h k = ground (arith, o.total p.0 q.0, o.sound p.0 q.0, o.same q.0, o'.total p.1 q.1)

  lex_sound : (p q : A × B) → both eq eq' p q ≡ true → p ≡ q
  lex_sound p q h = ground (arith, o.sound p.0 q.0, o'.sound p.1 q.1)

  pub lex-IsOrder : IsOrder (lex lt eq lt') (both eq eq')
  lex-IsOrder = record {
    asym = lex_asym;
    trans = lex_trans;
    total = lex_total;
    sound = lex_sound;
    same = λ p. ground (arith, o.same p.0, o'.same p.1);
  }

-- What sorting asks of an order: elements may be equal in their order and still differ.
pub record IsSortable {ℓ} {A : Type ℓ} (lt eq : A → A → Bool) : Type ℓ where
  pub asym : (a b : A) → lt a b ≡ true → lt b a ≡ false
  pub weak : (a b c : A) → lt b a ≡ false → lt c b ≡ false → lt c a ≡ false
  pub total : (a b : A) → lt a b ≡ false → lt b a ≡ false → eq a b ≡ true

-- The order of the keys orders what has the keys.
pub IsOrder-IsSortable {ℓ κ} :
    {A : Type ℓ} {K : Type κ} {lt eq : K → K → Bool} (key : A → K)
    → IsOrder lt eq
    → IsSortable (λ a b. lt (key a) (key b)) (λ a b. eq (key a) (key b))
IsOrder-IsSortable key o = record {
  asym = λ a b. o.asym (key a) (key b);
  weak = λ a b c h k.
      ground
        (arith, o.trans (key b) (key c) (key a), o.total (key c) (key b), o.sound (key c) (key b));
  total = λ a b. o.total (key a) (key b);
}

-- Each element stands before all later ones.
abbrev pub IsStrict {ℓ} : {A : Type ℓ} → (A → A → Bool) → List A → Type 0
IsStrict lt [] = Unit
IsStrict lt (x ∷ xs) = (all (lt x) xs ≡ true) × IsStrict lt xs

-- No later element stands before an earlier one.
abbrev IsWeak {ℓ} : {A : Type ℓ} → (A → A → Bool) → List A → Type 0
IsWeak lt [] = Unit
IsWeak lt (x ∷ xs) = (any (λ y. lt y x) xs ≡ false) × IsWeak lt xs

module _ {ℓ} {A : Type ℓ} {lt eq : A → A → Bool} (o : IsSortable lt eq) where
  before_none :
      (x y : A) (ys : List A)
      → lt y x ≡ false
      → any (λ z. lt z y) ys ≡ false
      → any (λ z. lt z x) ys ≡ false
  before_none x y [] h k = refl
  before_none x y (z ∷ ys) h k = ground (arith, before_none x y ys h, o.weak x y z)

  any-insert_by :
      (x y : A) (ys : List A)
      → lt x y ≡ false
      → any (λ z. lt z y) ys ≡ false
      → any (λ z. lt z y) (insert_by lt x ys) ≡ false
  any-insert_by x y [] h k = ground arith
  any-insert_by x y (z ∷ ys) h k = ground (arith, any-insert_by x y ys h)

  insert_by-IsWeak : (x : A) (xs : List A) → IsWeak lt xs → IsWeak lt (insert_by lt x xs)
  insert_by-IsWeak x [] w = (refl, tt)
  insert_by-IsWeak x (y ∷ ys) w = elim (Bool-cases (lt y x)) [
    | inl e ↦ rw e (any-insert_by x y ys (o.asym y x e) w.0, insert_by-IsWeak x ys w.1)
    | inr e ↦ rw e (ground (arith, before_none x y ys e), w)
  ]

  sort_by-IsWeak : (xs : List A) → IsWeak lt (sort_by lt xs)
  sort_by-IsWeak [] = tt
  sort_by-IsWeak (x ∷ xs) = insert_by-IsWeak x (sort_by lt xs) (sort_by-IsWeak xs)

  all_before :
      (x : A) (xs : List A)
      → any (λ y. lt y x) xs ≡ false
      → any (eq x) xs ≡ false
      → all (lt x) xs ≡ true
  all_before x [] h k = refl
  all_before x (y ∷ xs) h k = ground (arith, all_before x xs, o.total x y)

  IsWeak-IsStrict : (xs : List A) → IsWeak lt xs → distinct_by eq xs ≡ true → IsStrict lt xs
  IsWeak-IsStrict [] w d = tt
  IsWeak-IsStrict (x ∷ xs) w d =
      (all_before x xs w.0 (ground arith), IsWeak-IsStrict xs w.1 (ground arith))

  -- A sorted list without repetition is strictly ascending.
  pub sort_by-IsStrict :
      (xs : List A) → distinct_by eq (sort_by lt xs) ≡ true → IsStrict lt (sort_by lt xs)
  sort_by-IsStrict xs = IsWeak-IsStrict (sort_by lt xs) (sort_by-IsWeak xs)
