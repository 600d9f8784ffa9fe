-- ===== src/Finance/Sorting/Permuted.antt =====
-- Sorting forgets the order of what it sorts.
use mathlib.Core.List.{Permᴰ}
use mathlib.Core.List.Permᴰ
use core_drp.Prelude.{
  suc, ◌≡◌, refl, sym, ap, ◌∙◌, Bool, true, false, not, ◌&&◌, ◌||◌, Bool-cases, inl, inr, arith,
  List, [], ◌∷◌, any, length, and_right,
}
use core_drp.Finance.Sorting.{
  insert_by, sort_by, distinct_by, IsOrder, IsSortable, IsOrder-IsSortable,
}

exchanged : (t u r : Bool) → (t || (u || r)) ≡ (u || (t || r))
exchanged t u r = ground arith

exchanged_distinct :
    (t u v w : Bool) → (not (t || u) && (not v && w)) ≡ (not (t || v) && (not u && w))
exchanged_distinct t u v w = ground arith

module _ {ℓ} {A : Type ℓ} where
  any-Permᴰ : (p : A → Bool) (xs ys : List A) → Permᴰ xs ys → any p xs ≡ any p ys
  any-Permᴰ p _ _ Permᴰ.nil = refl
  any-Permᴰ p _ _ (Permᴰ.cons {a} {b} {l₁} {l₂} e h) = cc (ap p e, any-Permᴰ p l₁ l₂ h)
  any-Permᴰ p _ _ (Permᴰ.swap {a} {b} {a'} {b'} {l} e f) =
      exchanged (p a) (p b) (any p l) ∙ cc (ap p e, ap p f)
  any-Permᴰ p _ _ (Permᴰ.trans {l₁} {l₂} {l₃} g h) = any-Permᴰ p l₁ l₂ g ∙ any-Permᴰ p l₂ l₃ h

  pub length-Permᴰ : (xs ys : List A) → Permᴰ xs ys → length xs ≡ length ys
  length-Permᴰ _ _ Permᴰ.nil = refl
  length-Permᴰ _ _ (Permᴰ.cons {a} {b} {l₁} {l₂} e h) = ap suc (length-Permᴰ l₁ l₂ h)
  length-Permᴰ _ _ (Permᴰ.swap e f) = refl
  length-Permᴰ _ _ (Permᴰ.trans {l₁} {l₂} {l₃} g h) = length-Permᴰ l₁ l₂ g ∙ length-Permᴰ l₂ l₃ h

module _ {ℓ} {A : Type ℓ} {lt eq : A → A → Bool} (o : IsSortable lt eq)
    (eq_sym : (a b : A) → eq a b ≡ eq b a) where
  pub distinct_by-Permᴰ : (xs ys : List A) → Permᴰ xs ys → distinct_by eq xs ≡ distinct_by eq ys
  distinct_by-Permᴰ _ _ Permᴰ.nil = refl
  distinct_by-Permᴰ _ _ (Permᴰ.cons {a} {b} {l₁} {l₂} e h) =
      cc (e, any-Permᴰ (eq a) l₁ l₂ h, distinct_by-Permᴰ l₁ l₂ h)
  distinct_by-Permᴰ _ _ (Permᴰ.swap {a} {b} {a'} {b'} {l} e f) =
      exchanged_distinct (eq a b) (any (eq a) l) (any (eq b) l) (distinct_by eq l)
      ∙ ap (λ t. not (t || any (eq b) l) && (not (any (eq a) l) && distinct_by eq l)) (eq_sym a b)
      ∙ ap (λ t. distinct_by eq (t ∷ a ∷ l)) f
      ∙ ap (λ t. distinct_by eq (a' ∷ t ∷ l)) e
  distinct_by-Permᴰ _ _ (Permᴰ.trans {l₁} {l₂} {l₃} g h) =
      distinct_by-Permᴰ l₁ l₂ g ∙ distinct_by-Permᴰ l₂ l₃ h

  -- Two elements that are not equal in the order may be inserted in either order.
  insert_by_comm :
      (x y : A) (zs : List A)
      → lt x y ≡ true
      → insert_by lt x (insert_by lt y zs) ≡ insert_by lt y (insert_by lt x zs)
  insert_by_comm x y [] h = rw (h, o.asym x y h) refl
  insert_by_comm x y (z ∷ zs) h =
      let not_after = o.asym x y h in
      elim (Bool-cases (lt z y)) [
        | inl before_y ↦ elim (Bool-cases (lt z x)) [
          | inl before_x ↦
              rw (before_y, before_x, before_y) (ap (λ t. z ∷ t) (insert_by_comm x y zs h))
          | inr e ↦ rw (before_y, e, h, before_y) refl
        ]
        | inr e ↦ let also = o.weak x y z not_after e in rw (e, also, not_after, h, e) refl
      ]

  insert_by_swapped :
      (x y : A) (zs : List A)
      → eq x y ≡ false
      → insert_by lt x (insert_by lt y zs) ≡ insert_by lt y (insert_by lt x zs)
  insert_by_swapped x y zs d = elim (Bool-cases (lt x y)) [
    | inl e ↦ insert_by_comm x y zs e
    | inr e ↦ elim (Bool-cases (lt y x)) [
      | inl later ↦ sym (insert_by_comm y x zs later)
      | inr f ↦ absurd (cc (o.total x y e f, d))
    ]
  ]

  -- Of elements that all differ in the order, any arrangement is sorted alike.
  pub sort_by-Permᴰ :
      (xs ys : List A) → Permᴰ xs ys → distinct_by eq xs ≡ true → sort_by lt xs ≡ sort_by lt ys
  sort_by-Permᴰ _ _ Permᴰ.nil d = refl
  sort_by-Permᴰ _ _ (Permᴰ.cons {a} {b} {l₁} {l₂} e h) d =
      ap (insert_by lt a) (sort_by-Permᴰ l₁ l₂ h (and_right _ _ d))
      ∙ ap (λ t. insert_by lt t (sort_by lt l₂)) e
  sort_by-Permᴰ _ _ (Permᴰ.swap {a} {b} {a'} {b'} {l} e f) d =
      insert_by_swapped a b (sort_by lt l) (ground arith)
      ∙ ap (λ t. insert_by lt t (insert_by lt a (sort_by lt l))) f
      ∙ ap (λ t. insert_by lt a' (insert_by lt t (sort_by lt l))) e
  sort_by-Permᴰ _ _ (Permᴰ.trans {l₁} {l₂} {l₃} g h) d =
      sort_by-Permᴰ l₁ l₂ g d ∙ sort_by-Permᴰ l₂ l₃ h (sym (distinct_by-Permᴰ l₁ l₂ g) ∙ d)

  insert_by-Permᴰ : (x : A) (xs : List A) → Permᴰ (insert_by lt x xs) (x ∷ xs)
  insert_by-Permᴰ x [] = Permᴰ.refl (x ∷ [])
  insert_by-Permᴰ x (y ∷ ys) = elim (Bool-cases (lt y x)) [
    | inl e ↦ rw e (Permᴰ.trans (Permᴰ.cons refl (insert_by-Permᴰ x ys)) (Permᴰ.swap refl refl))
    | inr e ↦ rw e (Permᴰ.refl (x ∷ y ∷ ys))
  ]

  pub sorted-Permᴰ : (xs : List A) → Permᴰ (sort_by lt xs) xs
  sorted-Permᴰ [] = Permᴰ.nil
  sorted-Permᴰ (x ∷ xs) =
      Permᴰ.trans (insert_by-Permᴰ x (sort_by lt xs)) (Permᴰ.cons refl (sorted-Permᴰ xs))

module _ {ℓ} {A : Type ℓ} {lt eq : A → A → Bool} (o : IsOrder lt eq) where
  pub sortable : IsSortable lt eq
  sortable = IsOrder-IsSortable (λ a. a) o

  pub eq_swapped : (a b : A) → eq a b ≡ eq b a
  eq_swapped a b = elim (Bool-cases (eq a b)) [
    | inl e ↦ e ∙ sym (ap (λ t. eq t a) (sym (o.sound a b e)) ∙ o.same a)
    | inr e ↦ elim (Bool-cases (eq b a)) [
      | inl f ↦ ap (λ t. eq t b) (sym (o.sound b a f)) ∙ o.same b ∙ sym f
      | inr f ↦ e ∙ sym f
    ]
  ]

  -- Where the order tells all elements apart, they may be inserted in either order.
  insert_by_exchanged :
      (x y : A) (zs : List A)
      → insert_by lt x (insert_by lt y zs) ≡ insert_by lt y (insert_by lt x zs)
  insert_by_exchanged x y zs = elim (Bool-cases (eq x y)) [
    | inl e ↦
        let same : x ≡ y = o.sound x y e in
        ap (λ t. insert_by lt t (insert_by lt y zs)) same
        ∙ ap (λ t. insert_by lt y (insert_by lt t zs)) (sym same)
    | inr e ↦ insert_by_swapped sortable eq_swapped x y zs e
  ]

  -- There, any arrangement is sorted alike.
  pub sort_by_arranged : (xs ys : List A) → Permᴰ xs ys → sort_by lt xs ≡ sort_by lt ys
  sort_by_arranged _ _ Permᴰ.nil = refl
  sort_by_arranged _ _ (Permᴰ.cons {a} {b} {l₁} {l₂} e h) =
      ap (insert_by lt a) (sort_by_arranged l₁ l₂ h) ∙ ap (λ t. insert_by lt t (sort_by lt l₂)) e
  sort_by_arranged _ _ (Permᴰ.swap {a} {b} {a'} {b'} {l} e f) =
      insert_by_exchanged a b (sort_by lt l)
      ∙ ap (λ t. insert_by lt t (insert_by lt a (sort_by lt l))) f
      ∙ ap (λ t. insert_by lt a' (insert_by lt t (sort_by lt l))) e
  sort_by_arranged _ _ (Permᴰ.trans {l₁} {l₂} {l₃} g h) =
      sort_by_arranged l₁ l₂ g ∙ sort_by_arranged l₂ l₃ h
