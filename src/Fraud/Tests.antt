-- ===== src/Fraud/Tests.antt =====
-- Two rules, and an account with one approved transfer.
use neo_bank.Prelude.{◌≡◌, refl, true, [], ◌∷◌, none, some}
use neo_bank.Prelude.Int.{pos, ◌+ℤ◌}
use neo_bank.Prelude.Db.{good, ok}
use neo_bank.Ledger.State.{to_bigint}
use neo_bank.Fraud.Check.{
  FraudDb, FraudRule, amount_threshold, velocity_count, rule_evaluation_order, check_transfer,
  check_row, first_triggered, observe, count_recent_approved_transfers, add_int64,
}
use neo_bank.Fraud.Limits.{Explains, check_transfer-Explains}

abbrev count_rule : FraudRule
count_rule = record {
  rule_type = velocity_count;
  enabled = true;
  threshold_value = pos 1;
  window_seconds = some 60;
}

abbrev rules : FraudDb
rules = record {
  fraud_rules =
      record {
        rule_type = amount_threshold;
        enabled = true;
        threshold_value = pos 1000;
        window_seconds = none;
      }
      ∷ count_rule
      ∷ [];
  fraud_checks =
      record {
        transfer_id = 1;
        account_id = 2;
        amount = pos 10;
        triggered_rule = none;
        created_at = 100;
      }
      ∷ [];
}

-- A second transfer within the window.
too_many : (check_transfer good 130 5 2 (pos 20) rules).0 ≡ ok (some velocity_count)
unfolding check_transfer first_triggered observe count_recent_approved_transfers to_bigint add_int64
    ◌+ℤ◌
too_many = refl

-- Outside the window.
in_time : (check_transfer good 200 5 2 (pos 20) rules).0 ≡ ok none
unfolding check_transfer first_triggered observe count_recent_approved_transfers to_bigint add_int64
    ◌+ℤ◌
in_time = refl

check_transfer-Explains_example :
    Explains good 130 5 2 (pos 20) rules rule_evaluation_order (some velocity_count)
    × ((check_transfer good 130 5 2 (pos 20) rules).1 ≡ record rules {
      fraud_checks = check_row 130 5 2 (pos 20) (some velocity_count) ∷ rules.fraud_checks;
    })
check_transfer-Explains_example = check_transfer-Explains good 130 5 2 (pos 20) rules too_many
