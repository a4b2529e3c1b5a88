-- ===== src/Ledger/Rebuild.antt =====
-- getBalance, rebuildBalance and getTransactionByReference (ledger.go) against the log.
use neo_bank.Prelude.{ℕ, ◌==◌, Bool-cases, ◌≡◌, refl, ◌⊎◌, inl, inr, none, some, arith, ap}
use neo_bank.Prelude.Int.{ℤ}
use neo_bank.Prelude.Db.{ok, Conn, good}
use neo_bank.Ledger.State.{
  LedgerDb, Ids, ledger_account_id, sum_entries, cached_balance, transaction_of_reference,
}
use neo_bank.Ledger.Balances.{to_bigint_cases, cached-set}
use neo_bank.Ledger.Invariant.{IsCached}
use neo_bank.Ledger.Post.{execute_transfer}
use neo_bank.Ledger.Execute.{Posts, Executed-change, execute_transfer-Executed}
use neo_bank.Ledger.Effects.{reference-Moved}
use neo_bank.Ledger.Reads.{answer, get_balance, rebuild_balance, get_transaction_by_reference}

-- Where the cache agrees with the log, getBalance of an account that exists returns the sum of its
-- entries.
pub get_balance-sum :
    (account l : ℕ) (db : LedgerDb)
    → IsCached db
    → ledger_account_id account db.ledger_accounts ≡ some l
    → get_balance good account db ≡ answer (sum_entries l db.entries)
unfolding get_balance
get_balance-sum account l db h e = rw (e, h l)

-- If rebuildBalance returns a balance it is the sum of the account's entries; the account's cached
-- balance is then that sum, and neither another account's nor the log has changed.
pub rebuild_balance_repairs :
    (c : Conn) (account l : ℕ) (db : LedgerDb) {b : ℤ}
    → ledger_account_id account db.ledger_accounts ≡ some l
    → (rebuild_balance c account db).0 ≡ ok (answer b)
    → let db' = (rebuild_balance c account db).1 in
      (b ≡ sum_entries l db.entries)
      × (cached_balance l db'.account_balances ≡ sum_entries l db.entries)
      × ((j : ℕ)
          → (j ≡ l)
            ⊎ (cached_balance j db'.account_balances ≡ cached_balance j db.account_balances))
      × (db'.entries ≡ db.entries)
unfolding rebuild_balance
rebuild_balance_repairs c account l db {b} e h = (
  ground (arith, to_bigint_cases (sum_entries l db.entries)),
  ground (
    arith,
    to_bigint_cases (sum_entries l db.entries),
    cached-set l l (sum_entries l db.entries) db.account_balances,
  ),
  λ j. elim (Bool-cases (j == l)) [
    | inl q ↦ inl (ground arith)
    | inr q ↦ inr (
        ground (
          arith,
          to_bigint_cases (sum_entries l db.entries),
          cached-set l j (sum_entries l db.entries) db.account_balances,
        ))
  ],
  ground (arith, to_bigint_cases (sum_entries l db.entries)),
)

-- After executeTransfer under a reference that the log did not hold, whatever the call ended in,
-- getTransactionByReference answers with the transaction if it was posted, and with nothing if the
-- ledger is as it was.
pub get_transaction_by_reference_truth :
    (c : Conn) (ids : Ids) (now from to : ℕ) (amount : ℤ) (ref : ℕ) (db : LedgerDb)
    → transaction_of_reference ref db.entries ≡ none
    → let db' = (execute_transfer c ids now from to amount (some ref) db).1 in
      ((get_transaction_by_reference good ref db' ≡ ok none) × (db' ≡ db))
      ⊎ ((get_transaction_by_reference good ref db' ≡ ok (some ids.transaction))
          × Posts ids now from to amount (some ref) db db')
unfolding get_transaction_by_reference
get_transaction_by_reference_truth c ids now from to amount ref db k =
    elim (Executed-change ids now from to amount (some ref) db c.commit_fate
      (execute_transfer-Executed ids now from to amount (some ref) db c)) [
        | inl e ↦ inl (rw (e, k) refl, e)
        | inr p ↦ inr (ap ok (reference-Moved ids now p.l p.l' amount ref db _ p.moved), p)
      ]
