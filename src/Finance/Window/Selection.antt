-- ===== src/Finance/Window/Selection.antt =====
-- The selection of tools/financial_semantics.py, select_window, row after row: the total stays within the
-- factor, and a page with the rows behind it is selected as the rows alone.
use mathlib.Core.Path.{subst}
use native.Mathlib.Nat.{mul-pos, one-le-pow}
use core_drp.Prelude.{
  ℕ, ◌+◌, ◌-◌, ◌*◌, ◌^◌, ◌≤◌, ◌<◌, ◌≡◌, inl, inr, refl, sym, ap, ◌∙◌, true, false, not, ◌||◌,
  Bool-cases, arith, if◌then◌else◌, leb, ◌==◌, List, [], ◌∷◌, ◌++◌,
}
use core_drp.Prelude.Int.{ℤ, pos, negsuc, ◌-ℤ◌}
use core_drp.Result.{Result, Exception, ok, raise, ◌>>=◌, Result-cases, >>=-eq-ok, ok-inj, raise≢ok}
use core_drp.Finance.{Fraction, minus, over, ltb_frac, eq_frac}
use core_drp.Finance.Binary64.{
  Bits, binary64, round_binary64, power, double_value, exponent_of, significand_of,
}
use core_drp.Finance.Window.{Row, Share, Taken, score_of, take_row, page_loop}

-- The selection with no pages: row after row while the total is below the factor.
unfoldable pub select_rows : Fraction → List Row → Taken → Result (List Share)
select_rows f [] taken = ok taken.0
select_rows f (r ∷ rows) taken =
    let rest = score_of r >>= λ score. select_rows f rows (take_row f r taken score) in
    if ltb_frac taken.1 f then rest else ok taken.0

-- The total is a proper fraction, and at most the factor.
abbrev pub IsWithin : Fraction → Taken → Type 0
IsWithin f taken = (0 < taken.1.den) × (taken.1.num * f.den ≤ f.num * taken.1.den)

power-den : (e : ℤ) → 0 < (power e).den
power-den (pos n) = omega arith
power-den (negsuc n) = one-le-pow (n + 1) 2 (omega arith)

double_value-den : (e s : ℕ) → 0 < (double_value e s).den
double_value-den e s = elim (Bool-cases (e == 0)) [
  | inl z ↦ rw z (mul-pos (let one : 0 < 1 = omega arith in one) (power-den (negsuc 1073)))
  | inr z ↦ rw z (mul-pos (let one : 0 < 1 = omega arith in one) (power-den (pos e -ℤ pos 1075)))
]

binary64-den : (b : Bits) (v : Fraction) → binary64 b ≡ ok v → 0 < v.den
unfolding binary64
binary64-den b v h =
    let n = b.value in
    let value = double_value (exponent_of n) (significand_of n) in
    elim (Bool-cases (not (b.width == 16) || leb (2 ^ 63) n || exponent_of n == 2047)) [
      | inl e ↦ absurd (raise≢ok (rw e at h))
      | inr e ↦ elim (Bool-cases (value.num == 0)) [
        | inl z ↦ absurd (raise≢ok (rw z at (rw e at h)))
        | inr z ↦
            subst (λ x. 0 < x.den) (ok-inj (rw z at (rw e at h)))
              (double_value-den (exponent_of n) (significand_of n))
      ]
    ]

fills :
    (fn fd tn td g : ℕ)
    → g + tn * fd ≡ fn * td
    → (tn * (fd * td) + g * td) * fd ≤ fn * (td * (fd * td))
fills fn fd tn td g e = grind (arith, ap (λ (t : ℕ). t * (td * fd)) e)

stays_below :
    (fn fd tn td sn sd g : ℕ)
    → g + tn * fd ≡ fn * td
    → sn * (fd * td) ≤ g * sd
    → (tn * sd + sn * td) * fd ≤ fn * (td * sd)
stays_below fn fd tn td sn sd g e h = grind (arith, ap (λ (t : ℕ). t * sd) e)

take_row-IsWithin :
    (f : Fraction) (r : Row) (taken : Taken) (score : Fraction)
    → 0 < f.den
    → 0 < score.den
    → IsWithin f taken
    → IsWithin f (take_row f r taken score)
take_row-IsWithin f r taken score pf ps w =
    let t = taken.1 in
    let g = f.num * t.den - t.num * f.den in
    let left : g + t.num * f.den ≡ f.num * t.den = omega (arith, w.1) in
    elim (Bool-cases (ltb_frac (minus f t) score)) [
      | inl e ↦ rw e (mul-pos w.0 (mul-pos pf w.0), fills f.num f.den t.num t.den g left)
      | inr e ↦ rw e (
        mul-pos w.0 ps,
        stays_below f.num f.den t.num t.den score.num score.den g left (ground arith),
      )
    ]

score_of-den : (r : Row) (score : Fraction) → score_of r ≡ ok score → 0 < score.den
unfolding score_of
score_of-den r score h =
    let (d, _, h1) = >>=-eq-ok (binary64 r.difficulty) _ h in
    let (n, _, h2) = >>=-eq-ok (binary64 r.network) _ h1 in
    let (b, _, h3) = >>=-eq-ok (round_binary64 (over d n)) binary64 h2 in binary64-den b score h3

-- A total that has reached the factor ends the selection.
pub select_rows-full :
    (f : Fraction) (rows : List Row) (taken : Taken)
    → ltb_frac taken.1 f ≡ false
    → select_rows f rows taken ≡ ok taken.0
unfolding select_rows
select_rows-full f [] taken h = refl
select_rows-full f (r ∷ rows) taken h = rw h

select_rows-raise :
    (f : Fraction) (r : Row) (rows : List Row) (taken : Taken) (x : Exception)
    → ltb_frac taken.1 f ≡ true
    → score_of r ≡ raise x
    → select_rows f (r ∷ rows) taken ≡ raise x
unfolding select_rows
select_rows-raise f r rows taken x h e =
    rw h (ap (λ m. m >>= λ s. select_rows f rows (take_row f r taken s)) e)

-- One row of the selection, where its score is known.
select_rows-step :
    (f : Fraction) (r : Row) (rows : List Row) (taken : Taken) (score : Fraction)
    → ltb_frac taken.1 f ≡ true
    → score_of r ≡ ok score
    → select_rows f (r ∷ rows) taken ≡ select_rows f rows (take_row f r taken score)
unfolding select_rows
select_rows-step f r rows taken score h e =
    rw h (ap (λ m. m >>= λ s. select_rows f rows (take_row f r taken s)) e)

page_loop-raise :
    (f : Fraction) (r : Row) (page : List Row) (taken : Taken) (x : Exception)
    → score_of r ≡ raise x
    → page_loop f (r ∷ page) taken ≡ raise x
unfolding page_loop
page_loop-raise f r page taken x e =
    ap
      (λ m. m >>= λ score.
        let next = take_row f r taken score in
        if eq_frac next.1 f then ok next else page_loop f page next)
      e

page_loop-step :
    (f : Fraction) (r : Row) (page : List Row) (taken : Taken) (score : Fraction)
    → score_of r ≡ ok score
    → page_loop f (r ∷ page) taken ≡ (
        let next = take_row f r taken score in
        if eq_frac next.1 f then ok next else page_loop f page next)
unfolding page_loop
page_loop-step f r page taken score e =
    ap
      (λ m. m >>= λ s.
        let next = take_row f r taken s in
        if eq_frac next.1 f then ok next else page_loop f page next)
      e

pub page_loop-IsWithin :
    (f : Fraction) (page : List Row) (taken next : Taken)
    → 0 < f.den
    → page_loop f page taken ≡ ok next
    → IsWithin f taken
    → IsWithin f next
page_loop-IsWithin f [] taken next p h w =
    let same : ok taken ≡ ok next = unfold page_loop in h in subst (IsWithin f) (ok-inj same) w
page_loop-IsWithin f (r ∷ page) taken next p h w = elim (Result-cases (score_of r)) [
  | inr (problem, e) ↦ absurd (raise≢ok (sym (page_loop-raise f r page taken problem e) ∙ h))
  | inl (score, e) ↦
      let mid = take_row f r taken score in
      let w' = take_row-IsWithin f r taken score p (score_of-den r score e) w in
      let h' = sym (page_loop-step f r page taken score e) ∙ h in
      elim (Bool-cases (eq_frac mid.1 f)) [
        | inl full ↦ subst (IsWithin f) (ok-inj (rw full at h')) w'
        | inr more ↦ page_loop-IsWithin f page mid next p (rw more at h') w'
      ]
]

-- A page and the rows behind it are selected as the rows alone.
pub select_rows-page :
    (f : Fraction) (page rows : List Row) (taken : Taken)
    → 0 < f.den
    → IsWithin f taken
    → ltb_frac taken.1 f ≡ true
    → select_rows f (page ++ rows) taken
      ≡ (page_loop f page taken >>= λ next. select_rows f rows next)
select_rows-page f [] rows taken p w h = unfold page_loop in refl
select_rows-page f (r ∷ page) rows taken p w h = elim (Result-cases (score_of r)) [
  | inr (problem, e) ↦
      select_rows-raise f r (page ++ rows) taken problem h e
      ∙ sym (
          ap (λ m. m >>= λ next. select_rows f rows next)
            (page_loop-raise f r page taken problem e))
  | inl (score, e) ↦
      let next = take_row f r taken score in
      let w' = take_row-IsWithin f r taken score p (score_of-den r score e) w in
      select_rows-step f r (page ++ rows) taken score h e ∙ elim (Bool-cases (eq_frac next.1 f)) [
        | inl full ↦
            let paged : page_loop f (r ∷ page) taken ≡ ok next =
              page_loop-step f r page taken score e ∙ rw full in
            select_rows-full f (page ++ rows) next (ground arith)
            ∙ sym (select_rows-full f rows next (ground arith))
            ∙ sym (ap (λ m. m >>= λ t. select_rows f rows t) paged)
        | inr more ↦
            let paged : page_loop f (r ∷ page) taken ≡ page_loop f page next =
              page_loop-step f r page taken score e ∙ rw more in
            select_rows-page f page rows next p w' (ground arith)
            ∙ sym (ap (λ m. m >>= λ t. select_rows f rows t) paged)
      ]
]
