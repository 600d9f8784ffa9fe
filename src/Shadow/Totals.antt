-- ===== src/Shadow/Totals.antt =====
-- Two totals of reference/coredrp_ref/miningcore_shadow.py that are the same amounts under the same
-- keys are written alike.
use native.Mathlib.Nat.{mul-div_cancel}
use core_drp.Prelude.{
  ℕ, ◌+◌, ◌/◌, ◌≡◌, refl, sym, ap, ◌∙◌, Bool-cases, inl, inr, arith, List, [], ◌∷◌, Bytes, bytes_eq,
}
use core_drp.Result.{ok, ◌>>=◌, ◌>>◌}
use core_drp.Policy.{lookup_or, put}
use core_drp.Finance.{Fraction, frac, add, atoms, atoms_text, amount, decimal}
use core_drp.Finance.Sorting.{bytes_lt, insert_by, sort_by}
use core_drp.Finance.Amounts.Truncation.{IsAtoms}
use core_drp.Finance.Allocation.Conservation.{add-IsAtoms}
use core_drp.Shadow.Compare.{plus, by_key, amounts_of}

-- Two amounts that are equally many units of 10**-24.
unfoldable pub SameAmount : Fraction → Fraction → Type 0
SameAmount x y = (n : ℕ) × IsAtoms x n × IsAtoms y n

-- The same keys in the same order, with equal amounts.
pub data SameTotals : List (Bytes × Fraction) → List (Bytes × Fraction) → Type 0 where
  no_totals : SameTotals [] []
  with_total :
      (k : Bytes) (x y : Fraction) (d e : List (Bytes × Fraction))
      → SameAmount x y
      → SameTotals d e
      → SameTotals ((k, x) ∷ d) ((k, y) ∷ e)

lookup_or-SameAmount :
    (k : Bytes) (d e : List (Bytes × Fraction))
    → SameTotals d e
    → SameAmount (lookup_or (frac 0 1) k d) (lookup_or (frac 0 1) k e)
unfolding SameAmount
lookup_or-SameAmount k _ _ no_totals = (0, (omega arith, omega arith), (omega arith, omega arith))
lookup_or-SameAmount k _ _ (with_total j x y d e a rest) = elim (Bool-cases (bytes_eq j k)) [
  | inl h ↦ rw h a
  | inr h ↦ rw h (lookup_or-SameAmount k d e rest)
]

put-SameTotals :
    (k : Bytes) (v w : Fraction) (d e : List (Bytes × Fraction))
    → SameAmount v w
    → SameTotals d e
    → SameTotals (put k v d) (put k w e)
put-SameTotals k v w _ _ s no_totals = with_total k v w [] [] s no_totals
put-SameTotals k v w _ _ s (with_total j x y d e a rest) = elim (Bool-cases (bytes_eq j k)) [
  | inl h ↦ rw h (with_total j v w d e s rest)
  | inr h ↦ rw h (with_total j x y (put k v d) (put k w e) a (put-SameTotals k v w d e s rest))
]

pub plus-SameTotals :
    (k : Bytes) (v w : Fraction) (d e : List (Bytes × Fraction))
    → SameAmount v w
    → SameTotals d e
    → SameTotals (plus k v d) (plus k w e)
unfolding SameAmount
plus-SameTotals k v w d e (n, vn, wn) same =
    let (m, dm, em) = lookup_or-SameAmount k d e same in
    put-SameTotals k (add (lookup_or (frac 0 1) k d) v) (add (lookup_or (frac 0 1) k e) w) d e
      (
        m + n,
        add-IsAtoms (lookup_or (frac 0 1) k d) v m n dm vn,
        add-IsAtoms (lookup_or (frac 0 1) k e) w m n em wn,
      )
      same

insert_by-SameTotals :
    (k : Bytes) (v w : Fraction) (d e : List (Bytes × Fraction))
    → SameAmount v w
    → SameTotals d e
    → SameTotals (insert_by by_key (k, v) d) (insert_by by_key (k, w) e)
insert_by-SameTotals k v w _ _ s no_totals = with_total k v w [] [] s no_totals
insert_by-SameTotals k v w _ _ s (with_total j x y d e a rest) = elim (Bool-cases (bytes_lt j k)) [
  | inl h ↦ rw h (
      with_total j x y (insert_by by_key (k, v) d) (insert_by by_key (k, w) e) a
        (insert_by-SameTotals k v w d e s rest))
  | inr h ↦ rw h (with_total k v w ((j, x) ∷ d) ((j, y) ∷ e) s (with_total j x y d e a rest))
]

pub sort_by-SameTotals :
    (d e : List (Bytes × Fraction))
    → SameTotals d e
    → SameTotals (sort_by by_key d) (sort_by by_key e)
sort_by-SameTotals _ _ no_totals = no_totals
sort_by-SameTotals _ _ (with_total k x y d e a rest) =
    insert_by-SameTotals k x y (sort_by by_key d) (sort_by by_key e) a (sort_by-SameTotals d e rest)

atoms-IsAtoms : (x : Fraction) (n : ℕ) → IsAtoms x n → atoms x ≡ n
atoms-IsAtoms x n (p, e) = ap (λ (t : ℕ). t / x.den) e ∙ mul-div_cancel n p

-- Equal amounts are written alike.
amount-SameAmount : (x y : Fraction) → SameAmount x y → amount x ≡ amount y
unfolding SameAmount amount
amount-SameAmount x y (n, xn, yn) =
    ap (λ a. decimal (atoms_text a) >> ok (atoms_text a))
      (atoms-IsAtoms x n xn ∙ sym (atoms-IsAtoms y n yn))

pub amounts_of-SameTotals :
    (d e : List (Bytes × Fraction)) → SameTotals d e → amounts_of d ≡ amounts_of e
unfolding amounts_of
amounts_of-SameTotals _ _ no_totals = refl
amounts_of-SameTotals _ _ (with_total k x y d e a rest) =
    ap (λ t. t >>= λ text. amounts_of d >>= λ rest. ok ((k, text) ∷ rest)) (amount-SameAmount x y a)
    ∙ ap (λ t. amount y >>= λ text. t >>= λ rest. ok ((k, text) ∷ rest))
        (amounts_of-SameTotals d e rest)
