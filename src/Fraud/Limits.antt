-- ===== src/Fraud/Limits.antt =====
-- checkTransfer (fraud.go): its decision, the rules and the log of checks.
use neo_bank.Prelude.{
  ℕ, ◌≡◌, refl, ◌⊎◌, inl, inr, Bool, true, false, ◌++◌, if◌then◌else◌, List, [], ◌∷◌, Option, none,
  some, arith, All,
}
use neo_bank.Prelude.Int.{ℤ, ◌≤ℤ◌, ltb_ℤ}
use neo_bank.Prelude.Db.{
  Result, ok, err, ◌>>=◌, ◌>>◌, OnOk, OnOk-bind, OnOk-step, OnOk-apply, Conn, stmt, begin, Work,
  roll_back, write, transaction, commit, CommitFate, committed, rolled_back, ack_lost,
}
use neo_bank.Fraud.Check.{
  RuleType, rule_evaluation_order, FraudRule, FraudDb, enabled_rule, observe, decide_rule,
  first_triggered, check_row, check_transfer,
}

some-injective : {A : Type 0} {a b : A} → some b ≡ some a → b ≡ a
some-injective e = cc

ok-injective : {A : Type 0} {a b : A} → ok a ≡ ok b → b ≡ a
ok-injective e = cc

module _ (c : Conn) (now transfer account : ℕ) (amount : ℤ) (db : FraudDb) where
  -- The rule is not enabled, or what it observes is within its threshold.
  abbrev pub IsPassed : RuleType → Type 0
  IsPassed r =
      (enabled_rule r db ≡ none)
      ⊎ ((rule : FraudRule) × (o : ℤ) × (enabled_rule r db ≡ some rule)
          × (observe c now account amount db.fraud_checks r rule ≡ ok o)
          × (o ≤ℤ rule.threshold_value))

  abbrev pub IsTripped : RuleType → Type 0
  IsTripped r =
      (rule : FraudRule) × (o : ℤ) × (enabled_rule r db ≡ some rule)
      × (observe c now account amount db.fraud_checks r rule ≡ ok o)
      × (ltb_ℤ rule.threshold_value o ≡ true)

  -- All rules pass, or the named one trips and those before it pass.
  abbrev pub Explains : List RuleType → Option RuleType → Type 0
  Explains order triggered =
      ((triggered ≡ none) × All IsPassed order)
      ⊎ ((r : RuleType) × (before : List RuleType) × (after : List RuleType) × (triggered ≡ some r)
          × (order ≡ before ++ r ∷ after)
          × All IsPassed before
          × IsTripped r)

  Explains-cons :
      (r : RuleType) (rs : List RuleType) (triggered : Option RuleType)
      → IsPassed r
      → Explains rs triggered
      → Explains (r ∷ rs) triggered
  Explains-cons r rs triggered p (inl (e, a)) = inl (e, (p, a))
  Explains-cons r rs triggered p (inr (r', before, after, e, f, a, t)) =
      inr (r', r ∷ before, after, e, cc f, (p, a), t)

  decide-Explains :
      (r : RuleType) (rs : List RuleType) (rest : Result (Option RuleType))
      → OnOk (Explains rs) rest
      → OnOk
          (Explains (r ∷ rs))
          (decide_rule c now account amount db.fraud_checks r (enabled_rule r db) rest)
  decide-Explains r rs rest h = by_rule (enabled_rule r db) refl
    where
      passed :
          (m : Result (Option RuleType))
          → OnOk (Explains rs) m
          → IsPassed r
          → OnOk (Explains (r ∷ rs)) m
      passed (ok t) h p = Explains-cons r rs t p h
      passed (err e) h p = tt

      by_threshold :
          (rule : FraudRule) (o : ℤ) (b : Bool)
          → enabled_rule r db ≡ some rule
          → observe c now account amount db.fraud_checks r rule ≡ ok o
          → ltb_ℤ rule.threshold_value o ≡ b
          → OnOk (Explains (r ∷ rs)) (if b then ok (some r) else rest)
      by_threshold rule o true e f g = inr (r, [], rs, refl, refl, tt, (rule, o, e, f, g))
      by_threshold rule o false e f g = passed rest h (inr (rule, o, e, f, ground arith))

      by_rule :
          (found : Option FraudRule)
          → enabled_rule r db ≡ found
          → OnOk (Explains (r ∷ rs)) (decide_rule c now account amount db.fraud_checks r found rest)
      by_rule none e = passed rest h (inl e)
      by_rule (some rule) e =
          OnOk-bind (Explains (r ∷ rs)) (observe c now account amount db.fraud_checks r rule) _
            λ o f. by_threshold rule o (ltb_ℤ rule.threshold_value o) e f refl

  first_triggered-Explains :
      (rs : List RuleType) → OnOk (Explains rs) (first_triggered c now account amount db rs)
  unfolding first_triggered
  first_triggered-Explains [] = inl (refl, tt)
  first_triggered-Explains (r ∷ rs) = decide-Explains r rs _ (first_triggered-Explains rs)

  -- The log after a decision.
  abbrev logged : Option RuleType → FraudDb
  logged triggered = record db {
    fraud_checks = check_row now transfer account amount triggered ∷ db.fraud_checks;
  }

  abbrev IsLogged : Work FraudDb (Option RuleType) → Type 0
  IsLogged (roll_back t) = ⊥
  IsLogged (write t db') = Explains rule_evaluation_order t × (db' ≡ logged t)

  transaction-Logged :
      (w : Result (Work FraudDb (Option RuleType))) (t : Option RuleType)
      → OnOk IsLogged w
      → (transaction c db w).0 ≡ ok t
      → Explains rule_evaluation_order t × ((transaction c db w).1 ≡ logged t)
  transaction-Logged (err e) t h q = cc
  transaction-Logged (ok (roll_back u)) t h q = elim h [ ]
  transaction-Logged (ok (write u db')) t h q = by_fate c.commit_fate q
    where
      by_fate :
          (f : CommitFate)
          → (commit f db db' u).0 ≡ ok t
          → Explains rule_evaluation_order t × ((commit f db db' u).1 ≡ logged t)
      by_fate committed q =
          OnOk-apply (λ v. Explains rule_evaluation_order v × (db' ≡ logged v)) (ok u) h q
      by_fate rolled_back q = cc
      by_fate ack_lost q = cc

  check-IsLogged : OnOk IsLogged (do
    begin c
    stmt c 1 (ok tt)
    triggered ← first_triggered c now account amount db rule_evaluation_order
    stmt c 4 (ok tt)
    ok (write triggered (logged triggered)))
  check-IsLogged = OnOk-bind IsLogged (begin c) _ λ _ _. OnOk-step IsLogged c 1 (ok tt) _ λ _ _.
      OnOk-bind IsLogged (first_triggered c now account amount db rule_evaluation_order) _ λ t e.
        OnOk-step IsLogged c 4 (ok tt) _ λ _ _. (
          OnOk-apply (Explains rule_evaluation_order) _
              (first_triggered-Explains rule_evaluation_order) e,
          refl,
        )

  -- If checkTransfer returns a decision, it is an approval and every enabled rule observed at most
  -- its threshold, or it is a rejection by the first enabled rule, in the fixed order, that
  -- observed more; and the log has gained exactly the check with this decision.
  pub check_transfer-Explains :
      {triggered : Option RuleType}
      → (check_transfer c now transfer account amount db).0 ≡ ok triggered
      → Explains rule_evaluation_order triggered
        × ((check_transfer c now transfer account amount db).1 ≡ record db {
          fraud_checks = check_row now transfer account amount triggered ∷ db.fraud_checks;
        })
  unfolding check_transfer
  check_transfer-Explains {triggered} q = transaction-Logged _ triggered check-IsLogged q
