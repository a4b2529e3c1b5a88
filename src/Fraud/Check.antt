-- ===== src/Fraud/Check.antt =====
-- fraud.go: checkTransfer over its two tables. The JSON details of a check and the text of the
-- reason are left out. Times are seconds.
use neo_bank.Prelude.{
  ℕ, Bool, true, false, ◌&&◌, ◌+◌, ◌^◌, List, [], ◌∷◌, Option, none, some, ◌==◌, leb, if◌then◌else◌,
  find, count,
}
use neo_bank.Prelude.Int.{ℤ, pos, neg, ◌+ℤ◌, ltb_ℤ, in_bigint}
use neo_bank.Prelude.Db.{
  Result, ok, err, malformed, ◌>>=◌, ◌>>◌, Conn, stmt, begin, write, transaction,
}
use neo_bank.Ledger.State.{to_bigint}

pub data RuleType : Type 0 where
  amount_threshold velocity_count velocity_sum : RuleType

abbrev pub rule_evaluation_order : List RuleType
rule_evaluation_order = amount_threshold ∷ velocity_count ∷ velocity_sum ∷ []

-- A fraud_rules row; rule_type is its key.
pub record FraudRule : Type 0 where
  pub rule_type : RuleType
  pub enabled : Bool
  pub threshold_value : ℤ
  pub window_seconds : Option ℕ

-- A fraud_checks row: rejected by a rule, or approved.
pub record FraudCheck : Type 0 where
  pub transfer_id : ℕ
  pub account_id : ℕ
  pub amount : ℤ
  pub triggered_rule : Option RuleType
  pub created_at : ℕ

pub record FraudDb : Type 0 where
  pub fraud_rules : List FraudRule
  pub fraud_checks : List FraudCheck

abbrev same_type : RuleType → RuleType → Bool
same_type amount_threshold amount_threshold = true
same_type velocity_count velocity_count = true
same_type velocity_sum velocity_sum = true
same_type _ _ = false

-- loadEnabledRules and the lookup in its map.
abbrev pub is_enabled_rule : RuleType → FraudRule → Bool
is_enabled_rule r rule = rule.enabled && same_type rule.rule_type r

abbrev pub enabled_rule : RuleType → FraudDb → Option FraudRule
enabled_rule r db = find (is_enabled_rule r) db.fraud_rules

abbrev is_none : Option RuleType → Bool
is_none none = true
is_none (some r) = false

-- account_id = $1 AND decision = 'approve' AND created_at >= now() - make_interval(secs => $2)
abbrev pub is_recent : ℕ → ℕ → ℕ → FraudCheck → Bool
is_recent account window now x =
    (x.account_id == account) && is_none x.triggered_rule && leb now (x.created_at + window)

unfoldable pub count_recent_approved_transfers : ℕ → ℕ → ℕ → List FraudCheck → ℕ
count_recent_approved_transfers account window now checks =
    count (is_recent account window now) checks

unfoldable pub sum_recent_approved_transfers : ℕ → ℕ → ℕ → List FraudCheck → ℤ
sum_recent_approved_transfers account window now [] = pos 0
sum_recent_approved_transfers account window now (x ∷ xs) =
    (if is_recent account window now x then x.amount else pos 0)
    +ℤ sum_recent_approved_transfers account window now xs

-- Go's + on int64, which wraps around.
unfoldable pub add_int64 : ℤ → ℤ → ℤ
add_int64 a b =
    let s = a +ℤ b in
    if in_bigint s
    then s
    else if ltb_ℤ s (pos 0)
    then s +ℤ pos (2 ^ 64)
    else s +ℤ neg (pos (2 ^ 64))

abbrev required : {A : Type 0} → Option ℕ → (ℕ → Result A) → Result A
required none k = err malformed
required (some window) k = k window

-- The switch: what a rule observes.
unfoldable pub observe : Conn → ℕ → ℕ → ℤ → List FraudCheck → RuleType → FraudRule → Result ℤ
observe c now account amount checks amount_threshold rule = ok amount
observe c now account amount checks velocity_count rule = required rule.window_seconds λ window. do
  n ← stmt c 2 (to_bigint (pos (count_recent_approved_transfers account window now checks)))
  ok (add_int64 n (pos 1))
observe c now account amount checks velocity_sum rule = required rule.window_seconds λ window. do
  s ← stmt c 3 (to_bigint (sum_recent_approved_transfers account window now checks))
  ok (add_int64 s amount)

abbrev pub decide_rule :
    Conn
    → ℕ
    → ℕ
    → ℤ
    → List FraudCheck
    → RuleType
    → Option FraudRule
    → Result (Option RuleType)
    → Result (Option RuleType)
decide_rule c now account amount checks r none rest = rest
decide_rule c now account amount checks r (some rule) rest =
    observe c now account amount checks r rule >>= λ observed.
    if ltb_ℤ rule.threshold_value observed then ok (some r) else rest

-- The loop over the rule types, to the first that trips.
unfoldable pub first_triggered :
    Conn → ℕ → ℕ → ℤ → FraudDb → List RuleType → Result (Option RuleType)
first_triggered c now account amount db [] = ok none
first_triggered c now account amount db (r ∷ rs) =
    decide_rule c now account amount db.fraud_checks r (enabled_rule r db)
      (first_triggered c now account amount db rs)

abbrev pub check_row : ℕ → ℕ → ℕ → ℤ → Option RuleType → FraudCheck
check_row now transfer account amount triggered = record {
  transfer_id = transfer;
  account_id = account;
  amount = amount;
  triggered_rule = triggered;
  created_at = now;
}

-- none is an approval.
unfoldable pub check_transfer : Conn → ℕ → ℕ → ℕ → ℤ → FraudDb → Result (Option RuleType) × FraudDb
check_transfer c now transfer account amount db = transaction c db (do
  begin c
  stmt c 1 (ok tt)
  triggered ← first_triggered c now account amount db rule_evaluation_order
  stmt c 4 (ok tt)
  ok (
      write triggered (record db {
        fraud_checks = check_row now transfer account amount triggered ∷ db.fraud_checks;
      })))
