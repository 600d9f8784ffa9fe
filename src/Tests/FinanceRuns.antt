-- ===== src/Tests/FinanceRuns.antt =====
-- The theorems on decimals, amounts, windows, allocations and effects at concrete inputs.
use mathlib.Core.List.{Permᴰ}
use core_drp.Finance.Window.Arrival.{select_window-Permᴰ}
use core_drp.Prelude.{
  ℕ, ◌+◌, ◌*◌, ◌^◌, ◌≤◌, ◌<◌, ◌≡◌, refl, arith, none, List, [], ◌∷◌, replicate, Bytes, codes, hex,
  from_hex,
}
use core_drp.Prelude.Int.{pos}
use core_drp.Result.{ok}
use core_drp.Finance.{Fraction, frac, decimal, amount, atoms_text, str, digits}
use core_drp.Finance.Amounts.RoundTrip.{amount-decimal}
use core_drp.Finance.Amounts.Truncation.{amount_truncates}
use core_drp.Finance.Binary64.{Bits, round_binary64, floor_log, encode64, bit_length}
use core_drp.Finance.Window.{Row, Share, select_window}
use core_drp.Finance.Window.Paging.{select_all, select_window-select_all}
use core_drp.Finance.Allocation.{allocate, settle, amounts_of, decimals_of}
use core_drp.Finance.Allocation.Conservation.{TotalUnits, IsUnits, allocate-conserves}
use core_drp.Finance.Effects.{
  Settlement, Effect, EffectParts, effect_parts, effect_bytes, effect_fields,
}
use core_drp.Finance.Effects.Injective.{effect_bytes-inj}

abbrev tenth : Fraction
tenth = frac (0 * 10 ^ 1 + 1) (10 ^ 1)

tenth_read : decimal (codes "0.1") ≡ ok tenth
unfolding decimal
tenth_read = refl

amount-decimal_example : amount tenth ≡ ok (codes "0.1")
amount-decimal_example = amount-decimal (codes "0.1") tenth tenth_read

amount_truncates_example :
    (s : Bytes) × (v : Fraction) × (amount (frac 2 3) ≡ ok s)
    × (decimal s ≡ ok v)
    × (v.num * 3 ≤ 2 * v.den)
    × (2 * v.den * 10 ^ 24 < (v.num * 10 ^ 24 + v.den) * 3)
amount_truncates_example = amount_truncates (frac 2 3) (omega arith) (omega arith)

-- The doubles 1 and 2.
abbrev one_bits : Bits
one_bits = record { width = 16; value = 0x3ff0000000000000 }

abbrev two_bits : Bits
two_bits = record { width = 16; value = 0x4000000000000000 }

-- A share of half the network difficulty.
half_rounds : round_binary64 (frac 1 2) ≡ ok (record { width = 16; value = 0x3fe0000000000000 })
unfolding round_binary64 floor_log encode64 bit_length
half_rounds = refl

abbrev row_at : ℕ → Row
row_at t = record {
  time = pos t;
  sender = replicate 16 1;
  sequence = pos t;
  relay = replicate 16 2;
  accounting_id = t ∷ [];
  difficulty = one_bits;
  network = two_bits;
}

abbrev rows : List Row
rows = row_at 1 ∷ row_at 2 ∷ row_at 3 ∷ []

select_window-select_all_example :
    select_window rows (codes "0.75") 2 ≡ select_all rows (codes "0.75")
select_window-select_all_example = select_window-select_all rows (codes "0.75") 2 (omega arith)

-- The rows of the window as they arrive, the first two exchanged.
abbrev arrived : List Row
arrived = row_at 2 ∷ row_at 1 ∷ row_at 3 ∷ []

select_window-Permᴰ_example :
    select_window arrived (codes "0.75") 2 ≡ select_window rows (codes "0.75") 2
select_window-Permᴰ_example =
    select_window-Permᴰ arrived rows (codes "0.75") 2 (Permᴰ.swap refl refl)

-- Two identities share a reward in equal parts, with a finder.
abbrev shares : List Share
shares =
    (codes "a", frac 1 2, frac 1 1)
    ∷ (codes "b", frac 1 2, frac 1 1)
    ∷ (codes "c", frac 1 2, frac 1 1)
    ∷ []

abbrev paid_out : List (Bytes × Bytes)
paid_out =
    (codes "a", codes "3.333333333333333333333333")
    ∷ (codes "b", codes "3.333333333333333333333333")
    ∷ (codes "c", codes "3.333333333333333333333333")
    ∷ []

abbrev left_over : Bytes
left_over = codes "0.000000000000000000000001"

allocated : allocate shares (codes "10") none (codes "0") ≡ ok (paid_out, left_over)
unfolding allocate settle amounts_of decimals_of amount decimal atoms_text str digits
allocated = refl

allocate-conserves_example :
    (n : ℕ) × (d : ℕ) × TotalUnits paid_out n × IsUnits left_over d × IsUnits (codes "10") (n + d)
allocate-conserves_example =
    allocate-conserves shares (codes "10") none (codes "0") paid_out left_over allocated

abbrev settlement : Settlement
settlement = record {
  scope = codes "btc1";
  settlement_id_hex = codes "01";
  mining_scope_contract_digest32 = hex (replicate 32 1);
  miningcore_scope_contract_digest32 = hex (replicate 32 2);
}

abbrev uuid_hex : Bytes
uuid_hex = hex (replicate 16 3)

abbrev effect : Effect
effect = record {
  kind = 1;
  identity = uuid_hex;
  miner = codes "miner1";
  amount = codes "0.5";
  lane = 0;
  event_type = 512;
  sequence = pos 7;
  sender = uuid_hex;
  epoch = uuid_hex;
  relay = uuid_hex;
  payload_hash = hex (replicate 32 4);
}

abbrev effect_read : EffectParts
effect_read = record {
  kind = 1;
  scope = codes "btc1";
  settlement_id = 1 ∷ [];
  mining_digest = replicate 32 1;
  miningcore_digest = replicate 32 2;
  identity = replicate 16 3;
  sender = replicate 16 3;
  epoch = replicate 16 3;
  lane = 0;
  sequence = 7;
  relay = replicate 16 3;
  event_type = 512;
  payload = replicate 32 4;
  miner = codes "miner1";
  amount = codes "0.5";
}

effect_encoded : effect_bytes settlement effect ≡ ok (effect_fields effect_read)
unfolding effect_bytes effect_parts from_hex decimal
effect_encoded = refl

effect_bytes-inj_example :
    (p : EffectParts) × (effect_parts settlement effect ≡ ok p)
    × (effect_parts settlement effect ≡ ok p)
effect_bytes-inj_example =
    effect_bytes-inj settlement settlement effect effect (effect_fields effect_read) effect_encoded
      effect_encoded
