-- ===== src/Ledger/Execute.antt =====
-- Everything that a call of executeTransfer can end in.
use neo_bank.Prelude.{
  ℕ, ◌≡◌, refl, true, false, ◌==◌, Option, none, some, arith, Bool-cases, ◌⊎◌, inl, inr,
}
use neo_bank.Prelude.Int.{ℤ, pos, ◌≤ℤ◌, ltb_ℤ, leb_ℤ}
use neo_bank.Prelude.Db.{
  Failure, Result, ok, err, connection, OnOk, OnOk-bind, OnOk-step, OnOk-apply, Conn, Work,
  roll_back, write, transaction, CommitFate, committed, rolled_back, ack_lost, commit, begin,
}
use neo_bank.Ledger.State.{LedgerDb, Ids, ledger_account_id, sum_entries}
use neo_bank.Ledger.Balances.{to_bigint-ok}
use neo_bank.Ledger.Posting.{Moved, post_pair-Moved}
use neo_bank.Ledger.Locking.{Found, lock_both-Found}
use neo_bank.Ledger.Post.{
  TransferOutcome, transfer_ok, transfer_invalid_amount, transfer_from_account_not_found,
  transfer_to_account_not_found, transfer_insufficient_funds, Locks, missing, held, lock_order,
  lock_both, post_pair, execute_locked, execute_after, execute_transfer,
}

module _ (ids : Ids) (now from to : ℕ) (amount : ℤ) (reference : Option ℕ) (db : LedgerDb) where
  -- A posting: both accounts exist, the sender's log covers the positive amount, and it moved.
  pub record Posts (db' : LedgerDb) : Type 0 where
    pub l : ℕ
    pub l' : ℕ
    pub sender : ledger_account_id from db.ledger_accounts ≡ some l
    pub recipient : ledger_account_id to db.ledger_accounts ≡ some l'
    pub positive : pos 1 ≤ℤ amount
    pub covered : amount ≤ℤ sum_entries l db.entries
    pub moved : Moved ids now l l' amount reference db db'

  -- Refusals and failures leave the ledger as it was; a posting is acknowledged, or is not.
  pub data Executed (f : CommitFate) : Result (Option ℕ × TransferOutcome) × LedgerDb → Type 0 where
    invalid : amount ≤ℤ pos 0 → Executed f (ok (none, transfer_invalid_amount), db)
    no_sender :
        ledger_account_id from db.ledger_accounts ≡ none
        → Executed f (ok (none, transfer_from_account_not_found), db)
    no_recipient :
        ledger_account_id to db.ledger_accounts ≡ none
        → Executed f (ok (none, transfer_to_account_not_found), db)
    insufficient :
        (l : ℕ)
        → ledger_account_id from db.ledger_accounts ≡ some l
        → ltb_ℤ (sum_entries l db.entries) amount ≡ true
        → Executed f (ok (none, transfer_insufficient_funds), db)
    failed : (e : Failure) → Executed f (err e, db)
    posted : (db' : LedgerDb) → Posts db' → Executed f (ok (some ids.transaction, transfer_ok), db')
    unacknowledged : (db' : LedgerDb) → Posts db' → f ≡ ack_lost → Executed f (err connection, db')

  -- What the transaction's body has worked out when it returns or commits.
  abbrev Ready : CommitFate → Work LedgerDb (Option ℕ × TransferOutcome) → Type 0
  Ready f (roll_back r) = Executed f (ok r, db)
  Ready f (write r db') = (r ≡ (some ids.transaction, transfer_ok)) × Posts db'

  acknowledge :
      (f : CommitFate) {r : Option ℕ × TransferOutcome} (db' : LedgerDb)
      → (r ≡ (some ids.transaction, transfer_ok)) × Posts db'
      → Executed f (commit f db db' r)
  acknowledge committed db' h = rw (h.0) (posted db' h.1)
  acknowledge rolled_back db' h = failed connection
  acknowledge ack_lost db' h = unacknowledged db' h.1 refl

  Ready-Executed :
      (c : Conn) (w : Result (Work LedgerDb (Option ℕ × TransferOutcome)))
      → OnOk (Ready c.commit_fate) w
      → Executed c.commit_fate (transaction c db w)
  Ready-Executed c (err e) h = failed e
  Ready-Executed c (ok (roll_back r)) h = h
  Ready-Executed c (ok (write r db')) h = acknowledge c.commit_fate db' h

  module _ (c : Conn) where
    abbrev IsReady : Work LedgerDb (Option ℕ × TransferOutcome) → Type 0
    IsReady = Ready c.commit_fate

    execute_locked-Ready :
        (l l' : ℕ)
        → pos 1 ≤ℤ amount
        → ledger_account_id from db.ledger_accounts ≡ some l
        → ledger_account_id to db.ledger_accounts ≡ some l'
        → OnOk IsReady (execute_locked c ids now l l' amount reference db)
    unfolding execute_locked
    execute_locked-Ready l l' p f t = OnOk-step IsReady c 3 _ _ λ balance e.
        let same = to_bigint-ok _ _ e in
        elim (Bool-cases (ltb_ℤ balance amount)) [
          | inl short ↦ rw short (insufficient l f (rw same at short))
          | inr enough ↦ rw enough (
              OnOk-bind IsReady (post_pair c 4 ids now l l' amount reference db) _ λ db' e'. (
                refl,
                record {
                  l = l;
                  l' = l';
                  sender = f;
                  recipient = t;
                  positive = p;
                  covered = rw same at (covers balance enough);
                  moved = OnOk-apply _ _ (post_pair-Moved ids now l l' amount reference db c 4) e';
                },
              ))
        ]
      where
        covers : (b : ℤ) → ltb_ℤ b amount ≡ false → amount ≤ℤ b
        covers b h = ground arith

    execute_after-Ready :
        (locks : Locks)
        → pos 1 ≤ℤ amount
        → Found from to db locks
        → OnOk IsReady
            (execute_after c ids now from to (lock_order from to).1 amount reference db locks)
    unfolding execute_after
    execute_after-Ready (missing a) p f = elim (Bool-cases (a == from)) [
      | inl e ↦ rw e (no_sender (ground arith))
      | inr e ↦ rw e (no_recipient (ground arith))
    ]
    execute_after-Ready (held l l') p f = execute_locked-Ready _ _ p f.0 f.1

    pub execute_transfer-Executed :
        Executed c.commit_fate (execute_transfer c ids now from to amount reference db)
    unfolding execute_transfer
    execute_transfer-Executed = elim (Bool-cases (leb_ℤ amount (pos 0))) [
      | inl e ↦ rw e (invalid (ground arith))
      | inr e ↦ rw e (
          Ready-Executed c _ (
            OnOk-bind IsReady (begin c) _ λ _ _.
              OnOk-bind IsReady (lock_both c 1 _ _ db) _ λ locks found.
                execute_after-Ready locks (ground arith)
                  (OnOk-apply (Found from to db) _ (lock_both-Found from to db c 1) found)))
    ]

  -- The ledger is as it was, or the posting is in it.
  pub Executed-change :
      (f : CommitFate) {r : Result (Option ℕ × TransferOutcome) × LedgerDb}
      → Executed f r
      → (r.1 ≡ db) ⊎ Posts r.1
  Executed-change f (invalid h) = inl refl
  Executed-change f (no_sender h) = inl refl
  Executed-change f (no_recipient h) = inl refl
  Executed-change f (insufficient l h s) = inl refl
  Executed-change f (failed e) = inl refl
  Executed-change f (posted db' h) = inr h
  Executed-change f (unacknowledged db' h e) = inr h
