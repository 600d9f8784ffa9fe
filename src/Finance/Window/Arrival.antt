-- ===== src/Finance/Window/Arrival.antt =====
-- The order in which the rows of a window arrive does not count (select_window of
-- tools/financial_semantics.py).
use mathlib.Core.List.{Permᴰ}
use core_drp.Prelude.{
  ℕ, ◌+◌, ◌≡◌, refl, sym, ap, ◌∙◌, Bool, true, false, ◌&&◌, ltb, none, List, [], length, map, Bytes,
  bytes_eq,
}
use core_drp.Result.{Result, ok, raise, ◌>>=◌, ◌>>◌}
use core_drp.Policy.{demand}
use core_drp.Finance.{Fraction, frac, decimal}
use core_drp.Finance.Sorting.{distinct_by}
use core_drp.Finance.Sorting.Permuted.{
  length-Permᴰ, distinct_by-Permᴰ, sort_by-Permᴰ, sorted-Permᴰ, eq_swapped,
}
use core_drp.Finance.Window.{
  Row, tuple_key, same_key, newest_first, Share, window_loop, select_window,
}
use core_drp.Finance.Window.Paging.{newest-IsSortable, key_lt-IsOrder}

same_key_sym : (r s : Row) → same_key r s ≡ same_key s r
same_key_sym r s = eq_swapped key_lt-IsOrder (tuple_key r) (tuple_key s)

newest_first-kept :
    (rows : List Row) → distinct_by same_key (newest_first rows) ≡ distinct_by same_key rows
newest_first-kept rows =
    distinct_by-Permᴰ newest-IsSortable same_key_sym (newest_first rows) rows
      (sorted-Permᴰ newest-IsSortable same_key_sym rows)

-- The rows of two arrivals differ in their keys in both or in none.
newest_first-distinct :
    (rows rows' : List Row)
    → Permᴰ rows rows'
    → distinct_by same_key (newest_first rows) ≡ distinct_by same_key (newest_first rows')
newest_first-distinct rows rows' h =
    newest_first-kept rows
    ∙ distinct_by-Permᴰ newest-IsSortable same_key_sym rows rows' h
    ∙ sym (newest_first-kept rows')

-- Two demands that agree, before what agrees where they are met.
demand-agree :
    {B : Type 0} (t u : Bool) (k l : Result B)
    → t ≡ u
    → (t ≡ true → k ≡ l)
    → (demand t >> k) ≡ (demand u >> l)
demand-agree true true k l e h = h refl
demand-agree true false k l e h = cc
demand-agree false true k l e h = cc
demand-agree false false k l e h = refl

bind-agree :
    {A B : Type 0} (r : Result A) (k l : A → Result B)
    → ((a : A) → k a ≡ l a)
    → (r >>= k) ≡ (r >>= l)
bind-agree (raise x) k l h = refl
bind-agree (ok a) k l h = h a

-- The selection of sorted rows, with the check of their identities.
from_sorted : Fraction → ℕ → ℕ → List Row → Result (List Share)
from_sorted f size fuel sorted =
    demand (distinct_by bytes_eq (map (λ r. r.accounting_id) sorted))
    >> window_loop (fuel + 1) f size sorted none ([], frac 0 1)

-- select_window gives the same shares, or raises the same exception, for the rows in any order.
pub select_window-Permᴰ :
    (rows rows' : List Row) (factor : Bytes) (page_size : ℕ)
    → Permᴰ rows rows'
    → select_window rows factor page_size ≡ select_window rows' factor page_size
unfolding select_window from_sorted
select_window-Permᴰ rows rows' factor page_size h = bind-agree (decimal factor) _ _ (λ f.
    demand-agree (ltb 0 f.num && ltb 0 page_size) (ltb 0 f.num && ltb 0 page_size) _ _ refl (λ _.
      demand-agree (distinct_by same_key (newest_first rows))
        (distinct_by same_key (newest_first rows'))
        (from_sorted f page_size (length rows) (newest_first rows))
        (from_sorted f page_size (length rows') (newest_first rows'))
        (newest_first-distinct rows rows' h)
        (λ d.
          ap (λ s. from_sorted f page_size (length rows) s)
            (sort_by-Permᴰ newest-IsSortable same_key_sym rows rows' h
              (sym (newest_first-kept rows) ∙ d))
          ∙ ap (λ n. from_sorted f page_size n (newest_first rows')) (length-Permᴰ rows rows' h))))
