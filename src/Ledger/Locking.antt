-- ===== src/Ledger/Locking.antt =====
-- Which ledger accounts a posting finds and locks, and in which order.
use neo_bank.Prelude.{ℕ, ◌≡◌, ◌⊎◌, none, some, arith}
use neo_bank.Prelude.Db.{OnOk, Conn}
use neo_bank.Ledger.State.{LedgerDb, ledger_account_id}
use neo_bank.Ledger.Post.{Locks, missing, held, lock_order, lock_both, locked}

module _ (from to : ℕ) (db : LedgerDb) where
  -- The locks are on the rows of both accounts, or one of the two has no row.
  abbrev pub Found : Locks → Type 0
  Found (missing a) = (ledger_account_id a db.ledger_accounts ≡ none) × ((a ≡ from) ⊎ (a ≡ to))
  Found (held l l') =
      let second = (lock_order from to).1 in
      (ledger_account_id from db.ledger_accounts ≡ some (locked second l l' from))
      × (ledger_account_id to db.ledger_accounts ≡ some (locked second l l' to))

  pub lock_both-Found :
      (c : Conn) (k : ℕ)
      → OnOk Found (lock_both c k (lock_order from to).0 (lock_order from to).1 db)
  unfolding lock_both lock_order
  lock_both-Found c k = ground arith
