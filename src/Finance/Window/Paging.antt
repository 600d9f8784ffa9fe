-- ===== src/Finance/Window/Paging.antt =====
-- The pages of select_window (tools/financial_semantics.py) make no difference to what is selected.
use mathlib.Core.Path.{subst}
use mathlib.Core.List.{append_assoc}
use core_drp.Prelude.{
  take-drop, ℕ, zero, suc, ◌+◌, ◌<◌, ◌≡◌, inl, inr, refl, sym, ap, ◌∙◌, Bool, true, false, ◌&&◌,
  Bool-cases, arith, ltb, Option, none, some, List, [], ◌∷◌, ◌++◌, length, length-drop, take, drop,
  all, Bytes,
}
use core_drp.Result.{Result, ok, ◌>>=◌, Result-cases}
use core_drp.Finance.{Fraction, frac, ltb_frac, decimal}
use core_drp.Finance.Amounts.Truncation.{decimal-IsAtoms}
use core_drp.Finance.Sorting.{
  IsOrder, IsSortable, IsOrder-IsSortable, lex-IsOrder, reverse-IsOrder, ltb_ℤ-IsOrder,
  bytes_lt-IsOrder, IsStrict, sort_by-IsStrict, distinct_by, insert_by, sort_by,
}
use core_drp.Finance.Window.{
  Row, tuple_key, key_lt, key_eq, before, same_key, newest_first, Share, Taken, page_loop, older,
  continue_with, last_of, window_loop, checked, select_window,
}
use core_drp.Finance.Window.Selection.{
  select_rows, IsWithin, select_rows-full, page_loop-IsWithin, select_rows-page,
}

all_before-older :
    (c : Row) (rows : List Row) → all (λ r. before r c) rows ≡ true → older (some c) rows ≡ rows
all_before-older c [] h = refl
all_before-older c (r ∷ rows) h =
    let first : before r c ≡ true = ground arith in
    rw first (ap (λ t. r ∷ t) (all_before-older c rows (ground arith)))

pub key_lt-IsOrder : IsOrder key_lt key_eq
key_lt-IsOrder =
    lex-IsOrder ltb_ℤ-IsOrder
      (lex-IsOrder bytes_lt-IsOrder (lex-IsOrder ltb_ℤ-IsOrder bytes_lt-IsOrder))

-- Newer rows stand first.
pub newest-IsSortable : IsSortable (λ (r s : Row). before s r) same_key
newest-IsSortable = IsOrder-IsSortable tuple_key (reverse-IsOrder key_lt-IsOrder)

abbrev IsNewestFirst : List Row → Type 0
IsNewestFirst = IsStrict (λ r s. before s r)

not_before_self : (c : Row) → before c c ≡ false
not_before_self c = elim (Bool-cases (before c c)) [
  | inl e ↦ newest-IsSortable.asym c c e
  | inr e ↦ e
]

all-middle :
    (d c : Row) (ds rest : List Row)
    → all (λ r. before r d) (ds ++ c ∷ rest) ≡ true
    → before c d ≡ true
all-middle d c [] rest h = ground arith
all-middle d c (e ∷ ds) rest h = all-middle d c ds rest (ground arith)

-- What is older than a row in the list is what stands behind it.
older-split :
    (c : Row) (done rest : List Row)
    → IsNewestFirst (done ++ c ∷ rest)
    → older (some c) (done ++ c ∷ rest) ≡ rest
older-split c [] rest s = rw (not_before_self c) (all_before-older c rest s.0)
older-split c (d ∷ ds) rest s =
    let later : before d c ≡ false = newest-IsSortable.asym d c (all-middle d c ds rest s.0) in
    rw later (older-split c ds rest s.1)

last_split :
    (r : Row) (page : List Row) → (front : List Row) × (r ∷ page ≡ front ++ last_of r page ∷ [])
last_split r [] = ([], refl)
last_split r (s ∷ page) = let (front, e) = last_split s page in (r ∷ front, ap (λ t. r ∷ t) e)

-- A page, where the loop selects what is left behind it.
continue_with-select_rows :
    (loop : Option Row → Taken → Result (List Share)) (f : Fraction) (size : ℕ)
    (rows done rest : List Row) (taken : Taken)
    → ((cursor : Option Row) (done' rest' : List Row) (next : Taken)
        → length rest' < length rest
        → rows ≡ done' ++ rest'
        → older cursor rows ≡ rest'
        → IsWithin f next
        → loop cursor next ≡ select_rows f rest' next)
    → 0 < size
    → 0 < f.den
    → IsNewestFirst rows
    → rows ≡ done ++ rest
    → IsWithin f taken
    → ltb_frac taken.1 f ≡ true
    → continue_with loop f taken (take size rest) ≡ select_rows f rest taken
continue_with-select_rows loop f zero rows done rest taken ih z p s split w h = elim z [ ]
continue_with-select_rows loop f (suc k) rows done [] taken ih z p s split w h =
    unfold select_rows in refl
continue_with-select_rows loop f (suc k) rows done (r ∷ rest) taken ih z p s split w h =
    let page = take k rest in
    let later = drop k rest in
    let c = last_of r page in
    let (front, parts) = last_split r page in
    let whole : rows ≡ (done ++ front) ++ c ∷ later =
      split
      ∙ ap (λ t. done ++ r ∷ t) (sym (take-drop k rest))
      ∙ ap (λ t. done ++ (t ++ later)) parts
      ∙ simp append_assoc in
    let cut : older (some c) rows ≡ later =
      ap (older (some c)) whole
      ∙ older-split c (done ++ front) later (subst IsNewestFirst whole s) in
    let again : rows ≡ ((done ++ front) ++ c ∷ []) ++ later = whole ∙ simp append_assoc in
    let back : select_rows f (r ∷ rest) taken ≡ select_rows f ((r ∷ page) ++ later) taken =
      ap (λ t. select_rows f (r ∷ t) taken) (sym (take-drop k rest)) in
    let paged = select_rows-page f (r ∷ page) later taken p w h in
    elim (Result-cases (page_loop f (r ∷ page) taken)) [
      | inr (x, e) ↦
          ap (λ m. m >>= λ next. loop (some c) next) e
          ∙ sym (back ∙ paged ∙ ap (λ m. m >>= λ next. select_rows f later next) e)
      | inl (next, e) ↦
          ap (λ m. m >>= λ t. loop (some c) t) e
          ∙ ih (some c) ((done ++ front) ++ c ∷ []) later next (omega (arith, length-drop k rest))
              again cut (page_loop-IsWithin f (r ∷ page) taken next p e w)
          ∙ sym (back ∙ paged ∙ ap (λ m. m >>= λ t. select_rows f later t) e)
    ]

-- The loop over the pages selects what is left of the rows, whatever the size of a page.
window_loop-select_rows :
    (fuel : ℕ) (f : Fraction) (size : ℕ) (rows done rest : List Row) (cursor : Option Row)
    (taken : Taken)
    → length rest < fuel
    → 0 < size
    → 0 < f.den
    → IsNewestFirst rows
    → rows ≡ done ++ rest
    → older cursor rows ≡ rest
    → IsWithin f taken
    → window_loop fuel f size rows cursor taken ≡ select_rows f rest taken
window_loop-select_rows zero f size rows done rest cursor taken l z p s split left w =
    absurd (omega arith)
window_loop-select_rows (suc fuel) f size rows done rest cursor taken l z p s split left w =
    elim (Bool-cases (ltb_frac taken.1 f)) [
      | inr full ↦
          let stop : window_loop (suc fuel) f size rows cursor taken ≡ ok taken.0 =
            unfold window_loop in rw full in
          stop ∙ sym (select_rows-full f rest taken full)
      | inl open_ ↦
          let start : window_loop (suc fuel) f size rows cursor taken
              ≡ continue_with (window_loop fuel f size rows) f taken
                  (take size (older cursor rows)) =
            unfold window_loop in rw open_ in
          start
          ∙ ap (λ t. continue_with (window_loop fuel f size rows) f taken (take size t)) left
          ∙ continue_with-select_rows (window_loop fuel f size rows) f size rows done rest taken
              (λ cursor' done' rest' next l' split' left' w'.
                window_loop-select_rows fuel f size rows done' rest' cursor' next (omega arith) z p
                  s split' left' w')
              z p s split w open_
    ]

-- The selection over the sorted rows, with no pages.
pub select_all : List Row → Bytes → Result (List Share)
unfolding select_rows
select_all = checked (λ f. ltb 0 f.num) (λ f sorted. select_rows f sorted ([], frac 0 1))

length-insert_by {ℓ} :
    {A : Type ℓ} (lt : A → A → Bool) (x : A) (xs : List A)
    → length (insert_by lt x xs) ≡ suc (length xs)
length-insert_by lt x [] = refl
length-insert_by lt x (y ∷ ys) = elim (Bool-cases (lt y x)) [
  | inl e ↦ rw e (omega (arith, length-insert_by lt x ys))
  | inr e ↦ rw e
]

pub length-sort_by {ℓ} :
    {A : Type ℓ} (lt : A → A → Bool) (xs : List A) → length (sort_by lt xs) ≡ length xs
length-sort_by lt [] = refl
length-sort_by lt (x ∷ xs) = length-insert_by lt x (sort_by lt xs) ∙ ap suc (length-sort_by lt xs)

-- Two selections that agree on what passes the checks agree.
checked-agree :
    (allowed allowed' : Fraction → Bool)
    (select select' : Fraction → List Row → Result (List Share)) (rows : List Row) (factor : Bytes)
    → ((f : Fraction) → allowed f ≡ allowed' f)
    → ((f : Fraction)
        → decimal factor ≡ ok f
        → distinct_by same_key (newest_first rows) ≡ true
        → select f (newest_first rows) ≡ select' f (newest_first rows))
    → checked allowed select rows factor ≡ checked allowed' select' rows factor
checked-agree allowed allowed' select select' rows factor ha hs =
    elim (Result-cases (decimal factor)) [
      | inr (x, e) ↦ rw e
      | inl (f, e) ↦
          rw (e, ha f)
            (elim (Bool-cases (distinct_by same_key (newest_first rows))) [
              | inr d ↦ rw d
              | inl d ↦ rw (hs f e d)
            ])
    ]

decimal-den : (s : Bytes) (f : Fraction) → decimal s ≡ ok f → 0 < f.den
decimal-den s f h = (decimal-IsAtoms s f h).1.0

-- With pages of any size but zero select_window selects, or raises, as the selection that goes
-- through the sorted rows one after another.
pub select_window-select_all :
    (rows : List Row) (factor : Bytes) (page_size : ℕ)
    → 0 < page_size
    → select_window rows factor page_size ≡ select_all rows factor
unfolding select_window select_all
select_window-select_all rows factor page_size z =
    let positive : ltb 0 page_size ≡ true = ground arith in
    checked-agree (λ f. ltb 0 f.num && ltb 0 page_size) (λ f. ltb 0 f.num)
      (λ f sorted. window_loop (length rows + 1) f page_size sorted none ([], frac 0 1))
      (λ f sorted. select_rows f sorted ([], frac 0 1)) rows factor
      (λ f. rw positive (ground arith))
      (λ f e d.
        window_loop-select_rows (length rows + 1) f page_size (newest_first rows) []
          (newest_first rows) none ([], frac 0 1)
          (omega (arith, length-sort_by (λ (r s : Row). before s r) rows)) z
          (decimal-den factor f e) (sort_by-IsStrict newest-IsSortable rows d) refl refl
          (omega arith, omega arith))
