-- ===== src/Shadow/Ledger.antt =====
-- The ledger in compare of reference/coredrp_ref/miningcore_shadow.py: the balance changes by their tag,
-- with the findings on their tags and amounts.
use core_drp.Prelude.{
  ℕ, Bool, ◌&&◌, ◌||◌, if◌then◌else◌, leb, ◌==◌, Option, none, some, List, [], ◌∷◌, ◌++◌, length,
  take, drop, all, Bytes, bytes_eq, codes,
}
use core_drp.Result.{ok, raise}
use core_drp.Policy.{lookup_or, put}
use core_drp.Finance.{Fraction, decimal}
use core_drp.Shadow.{
  LedgerRow, Reason, ambiguous_balance_credit_tags, invalid_balance_credit_tag,
  balance_credit_without_source_rows, balance_credit_mismatch,
}

-- A balance change; tags that are None are no tags.
pub record ChangeRow : Type 0 where
  pub address : Bytes
  pub amount : Bytes
  pub usage : Bytes
  pub tags : List Bytes
  pub created : Bytes

-- A finding with its accounting identity.
abbrev pub Found : Type 0
Found = Option Bytes × Reason

-- The rows of the ledger by their tag.
abbrev pub Ledger : Type 0
Ledger = List (Bytes × List LedgerRow)

abbrev pub is_pps : Bytes → Bool
is_pps t = bytes_eq (take 10 t) (codes "pps-share:")

abbrev pub pps_tags : List Bytes → List Bytes
pps_tags [] = []
pps_tags (t ∷ ts) = let rest = pps_tags ts in if is_pps t then t ∷ rest else rest

abbrev pub lower_hex : ℕ → Bool
lower_hex c = (leb 48 c && leb c 57) || (leb 97 c && leb c 102)

-- re.fullmatch(r'pps-share:[0-9a-f]{32}',t)
abbrev pub is_tag : Bytes → Bool
is_tag t = is_pps t && length t == 42 && all lower_hex (drop 10 t)

-- str(uuid.UUID(hex=h))
abbrev pub dashed : Bytes → Bytes
dashed h =
    take 8 h
    ++ 45
      ∷ (take 4 (drop 8 h)
          ++ 45 ∷ (take 4 (drop 12 h) ++ 45 ∷ (take 4 (drop 16 h) ++ 45 ∷ drop 20 h)))

-- key.replace('-','')
abbrev pub without_dashes : Bytes → Bytes
without_dashes [] = []
without_dashes (c ∷ cs) = let rest = without_dashes cs in if c == 45 then rest else c ∷ rest

-- decimal(change['amount']), or None
unfoldable pub ledger_amount_of : Bytes → Option Fraction
unfolding decimal
ledger_amount_of t = elim (decimal t) [ raise x ↦ none | ok v ↦ some v ]

-- The findings on the amount of a row, where decimal did not read it.
abbrev pub amount_unread : Bytes → Option Fraction → List Found
amount_unread identity none = (some identity, balance_credit_mismatch) ∷ []
amount_unread identity (some v) = []

-- A change with one good tag.
abbrev pub tagged : (Bytes → Bool) → ChangeRow → Bytes → Ledger → List Found × Ledger
tagged known change tag changes =
    let identity : Bytes = dashed (drop 10 tag) in
    let read : Option Fraction = ledger_amount_of change.amount in
    let row : LedgerRow = record {
      address = change.address;
      usage = change.usage;
      created = change.created;
      ledger_amount = read;
    } in
    (
      (if known identity then [] else (some identity, balance_credit_without_source_rows) ∷ [])
          ++ amount_unread identity read,
      put tag (lookup_or [] tag changes ++ row ∷ []) changes,
    )

-- A change, with those of its tags that begin with pps-share:
abbrev pub of_tags : (Bytes → Bool) → ChangeRow → List Bytes → Ledger → List Found × Ledger
of_tags known change (tag ∷ []) changes =
    if is_tag tag
    then tagged known change tag changes
    else ((none, invalid_balance_credit_tag) ∷ [], changes)
of_tags known change tags changes = ((none, ambiguous_balance_credit_tags) ∷ [], changes)

unfoldable pub all_changes : (Bytes → Bool) → List ChangeRow → Ledger → List Found × Ledger
unfolding ledger_amount_of
all_changes known [] changes = ([], changes)
all_changes known (change ∷ rest) changes =
    let first : List Found × Ledger = of_tags known change (pps_tags change.tags) changes in
    let others : List Found × Ledger = all_changes known rest first.1 in
    (first.0 ++ others.0, others.1)
