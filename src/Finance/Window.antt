-- ===== src/Finance/Window.antt =====
-- tools/financial_semantics.py, select_window: the PPLNS window over the shares of a scope.
pub mod Selection
pub mod Paging
pub mod Arrival
use core_drp.Prelude.{
  ℕ, zero, suc, ◌+◌, ◌*◌, Bool, true, false, not, ◌&&◌, ◌||◌, if◌then◌else◌, ltb, leb, ◌==◌, Option,
  none, some, List, [], ◌∷◌, ◌++◌, length, take, map, any, Bytes, bytes_eq,
}
use core_drp.Prelude.Int.{ℤ, ltb_ℤ, eq_ℤ}
use core_drp.Result.{Result, ok, raise, value_error, out_of_fuel, ◌>>=◌, ◌>>◌}
use core_drp.Policy.{demand}
use core_drp.Finance.{Fraction, frac, add, minus, over, ltb_frac, eq_frac, min_frac, decimal}
use core_drp.Finance.Sorting.{lex, both, bytes_lt, sort_by, distinct_by}
use core_drp.Finance.Binary64.{Bits, binary64, round_binary64}

-- A row, with the byte strings that bytes.fromhex gives for its sender and its relay.
pub record Row : Type 0 where
  pub time : ℤ
  pub sender : Bytes
  pub sequence : ℤ
  pub relay : Bytes
  pub accounting_id : Bytes
  pub difficulty : Bits
  pub network : Bits

abbrev pub Key : Type 0
Key = ℤ × (Bytes × (ℤ × Bytes))

-- tuple_key
abbrev pub tuple_key : Row → Key
tuple_key r = (r.time, (r.sender, (r.sequence, r.relay)))

abbrev pub key_lt : Key → Key → Bool
key_lt = lex ltb_ℤ eq_ℤ (lex bytes_lt bytes_eq (lex ltb_ℤ eq_ℤ bytes_lt))

abbrev pub key_eq : Key → Key → Bool
key_eq = both eq_ℤ (both bytes_eq (both eq_ℤ bytes_eq))

abbrev pub before : Row → Row → Bool
before r s = key_lt (tuple_key r) (tuple_key s)

abbrev pub same_key : Row → Row → Bool
same_key r s = key_eq (tuple_key r) (tuple_key s)

-- sorted(rows,key=tuple_key,reverse=True)
abbrev pub newest_first : List Row → List Row
newest_first = sort_by (λ r s. before s r)

-- An identity with its contribution, and the share of its score that is taken.
abbrev pub Share : Type 0
Share = Bytes × Fraction × Fraction

abbrev pub Taken : Type 0
Taken = List Share × Fraction

-- binary64(round_binary64(binary64(r['difficulty'])/binary64(r['network'])))
unfoldable pub score_of : Row → Result Fraction
unfolding binary64 round_binary64
score_of r = do
  difficulty ← binary64 r.difficulty
  network ← binary64 r.network
  rounded ← round_binary64 (over difficulty network)
  binary64 rounded

-- One row of a page.
abbrev pub take_row : Fraction → Row → Taken → Fraction → Taken
take_row f r (selected, total) score =
    let contribution = min_frac score (minus f total) in
    (
      selected ++ (r.accounting_id, contribution, over contribution score) ∷ [],
      add total contribution,
    )

-- for r in page
unfoldable pub page_loop : Fraction → List Row → Taken → Result Taken
page_loop f [] taken = ok taken
page_loop f (r ∷ page) taken = score_of r >>= λ score.
    let next = take_row f r taken score in
    let rest = page_loop f page next in if eq_frac next.1 f then ok next else rest

abbrev pub older : Option Row → List Row → List Row
older none rows = rows
older (some cursor) [] = []
older (some cursor) (r ∷ rows) =
    if before r cursor then r ∷ older (some cursor) rows else older (some cursor) rows

abbrev pub last_of : Row → List Row → Row
last_of r [] = r
last_of r (s ∷ rows) = last_of s rows

-- What a page gives: nothing where it is empty.
abbrev pub continue_with :
    (Option Row → Taken → Result (List Share)) → Fraction → Taken → List Row → Result (List Share)
continue_with loop f taken [] = ok taken.0
continue_with loop f taken (r ∷ page) =
    page_loop f (r ∷ page) taken >>= λ next. loop (some (last_of r page)) next

-- while total<f
unfoldable pub window_loop : ℕ → Fraction → ℕ → List Row → Option Row → Taken → Result (List Share)
unfolding page_loop
window_loop zero f size rows cursor taken = raise out_of_fuel
window_loop (suc fuel) f size rows cursor taken =
    let rest =
      continue_with (window_loop fuel f size rows) f taken (take size (older cursor rows)) in
    if ltb_frac taken.1 f then rest else ok taken.0

-- The checks of select_window, and the selection over the sorted rows.
abbrev pub checked :
    (Fraction → Bool)
    → (Fraction → List Row → Result (List Share))
    → List Row
    → Bytes
    → Result (List Share)
checked allowed select rows factor = do
  f ← decimal factor
  demand (allowed f)
  demand (distinct_by same_key (newest_first rows))
  demand (distinct_by bytes_eq (map (λ r. r.accounting_id) (newest_first rows)))
  select f (newest_first rows)

-- The source's select_window. Each page takes a row at least, so the rows bound the pages.
unfoldable pub select_window : List Row → Bytes → ℕ → Result (List Share)
unfolding decimal window_loop
select_window rows factor page_size =
    checked (λ f. ltb 0 f.num && ltb 0 page_size)
      (λ f sorted. window_loop (length rows + 1) f page_size sorted none ([], frac 0 1)) rows factor
