-- ===== src/Tests/ShadowRuns.antt =====
-- The comparison of shares with their credits at a concrete export.
use core_drp.Prelude.{◌≡◌, refl, true, false, some, [], ◌∷◌, ◌++◌, replicate, Bytes, codes, hex}
use core_drp.Prelude.Int.{pos}
use core_drp.Result.{ok}
use core_drp.Shadow.{ShareRow, CreditRow}
use core_drp.Shadow.Ledger.{ChangeRow, dashed}
use core_drp.Shadow.Compare.{
  Export, Report, evidence_unavailable, history_unavailable, remainder_unavailable, compare,
}
use core_drp.Shadow.Matches.{compare-matches}

abbrev identity : Bytes
identity = hex (replicate 16 9)

abbrev share_row : ShareRow
share_row = record {
  miner = codes "m";
  difficulty_bits = record { width = 16; value = 4607182418800017408 };
  networkdifficulty_bits = record { width = 16; value = 4616189618054758400 };
  rewardbasissatoshis = pos 100000000;
  created = codes "1970-01-01T00:00:01Z";
}

abbrev credit_row : CreditRow
credit_row = record {
  address = codes "m";
  calculatedamount = codes "0.25";
  creditedamount = codes "0.25";
  difficulty_bits = record { width = 16; value = 4607182418800017408 };
  networkdifficulty_bits = record { width = 16; value = 4616189618054758400 };
  rewardbasissatoshis = pos 100000000;
  created = codes "1970-01-01T00:00:01Z";
  instant = ok (pos 1000);
}

abbrev change_row : ChangeRow
change_row = record {
  address = codes "m";
  amount = codes "0.25";
  usage = codes "PPS share credit";
  tags = codes "pps" ∷ (codes "pps-share:" ++ identity) ∷ [];
  created = codes "1970-01-01T00:00:01Z";
}

abbrev export : Export
export = record {
  version = pos 1;
  scope = codes "btc1";
  scheme = codes "PPS";
  policy = record {
    scope = codes "btc1";
    scheme = codes "PPS";
    coin = codes "bitcoin";
    retained_percent = codes "100";
    from = pos 0;
    until = pos 5000;
  };
  from_time = pos 0;
  until_time = pos 5000;
  shares = (some (dashed identity), share_row) ∷ [];
  credits = (some (dashed identity), credit_row) ∷ [];
  balance_changes = change_row ∷ [];
}

abbrev matching : Report
matching = record {
  eligible = false;
  accounting_matches = true;
  blocked_reasons = history_unavailable ∷ evidence_unavailable ∷ remainder_unavailable ∷ [];
  differences = [];
  precision_differences = [];
  reference_totals = (codes "m", codes "0.25") ∷ [];
  baseline_totals = (codes "m", codes "0.25") ∷ [];
}

compared : compare true export ≡ ok matching
unfolding compare
compared = refl

compare-matches_example : matching.reference_totals ≡ matching.baseline_totals
compare-matches_example = compare-matches true export matching compared refl
