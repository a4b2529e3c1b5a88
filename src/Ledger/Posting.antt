-- ===== src/Ledger/Posting.antt =====
-- The two INSERTs and the two balance updates that a posting of ledger.go makes.
use neo_bank.Prelude.{ℕ, suc, ◌≡◌, ◌∷◌, Option, ◌∙◌}
use neo_bank.Prelude.Int.{ℤ, neg, ◌+ℤ◌}
use neo_bank.Prelude.Db.{ok, OnOk, OnOk-apply, OnOk-stmt, OnOk-step, OnOk-map, Conn}
use neo_bank.Ledger.State.{LedgerDb, Ids, sum_entries, cached_balance}
use neo_bank.Ledger.Balances.{share, sum-cons, Applied, apply-Applied}
use neo_bank.Ledger.Post.{post_pair, logged, credit_entry, debit_entry}

-- From db to db', amount went from ledger account l to l': the log grew by the pair, each cached
-- balance moved by its account's shares, and no account came or went.
pub record Moved (ids : Ids) (now l l' : ℕ) (amount : ℤ) (reference : Option ℕ) (db db' : LedgerDb)
    : Type 0 where
  pub entries :
      db'.entries
      ≡ credit_entry ids now l' amount reference
        ∷ debit_entry ids now l amount reference
        ∷ db.entries
  pub cached :
      (j : ℕ)
      → cached_balance j db'.account_balances
        ≡ share l' j amount +ℤ (share l j (neg amount) +ℤ cached_balance j db.account_balances)
  pub accounts : db'.ledger_accounts ≡ db.ledger_accounts

module _ (ids : Ids) (now l l' : ℕ) (amount : ℤ) (reference : Option ℕ) (db : LedgerDb) where
  abbrev M : LedgerDb → Type 0
  M = Moved ids now l l' amount reference db

  Applied-Moved :
      (db₁ db₂ : LedgerDb)
      → Applied l (neg amount) (logged ids now l l' amount reference db) db₁
      → Applied l' amount db₁ db₂
      → M db₂
  Applied-Moved db₁ db₂ a b = record {
    entries = b.1 ∙ a.1;
    cached = λ j. rw (b.0 j, a.0 j);
    accounts = b.2 ∙ a.2;
  }

  pub post_pair-Moved : (c : Conn) (k : ℕ) → OnOk M (post_pair c k ids now l l' amount reference db)
  unfolding post_pair
  post_pair-Moved c k = OnOk-step M c k (ok tt) _ λ _ _. OnOk-step M c (suc k) (ok tt) _ λ _ _.
      OnOk-step M c (suc (suc k)) _ _ λ db₁ e. OnOk-stmt M c (suc (suc (suc k))) _ (
        OnOk-map _ M _
          (λ db₂. Applied-Moved db₁ db₂ (OnOk-apply _ _ (apply-Applied l (neg amount) _) e))
          (apply-Applied l' amount db₁))

  -- Over the log, an account's balance moves by its shares.
  pub sum-Moved :
      (db' : LedgerDb) (j : ℕ)
      → M db'
      → sum_entries j db'.entries
        ≡ share l' j amount +ℤ (share l j (neg amount) +ℤ sum_entries j db.entries)
  unfolding credit_entry debit_entry
  sum-Moved db' j m = rw (m.entries, sum-cons, sum-cons)
