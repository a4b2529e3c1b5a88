-- ===== src/Ledger/Unchecked.antt =====
-- Everything that a call of postUncheckedTransfer can end in.
use neo_bank.Prelude.{ℕ, ◌≡◌, refl, Option, none, some, arith, Bool-cases, ◌⊎◌, inl, inr}
use neo_bank.Prelude.Int.{ℤ, pos, ◌≤ℤ◌, leb_ℤ}
use neo_bank.Prelude.Db.{
  Failure, Result, ok, err, connection, OnOk, OnOk-bind, OnOk-step, OnOk-apply, OnOk-stmt, Conn,
  Work, roll_back, write, transaction, CommitFate, committed, rolled_back, ack_lost, commit, begin,
}
use neo_bank.Ledger.State.{LedgerDb, Ids, ledger_account_id, transaction_of_reference}
use neo_bank.Ledger.Posting.{Moved, post_pair-Moved}
use neo_bank.Ledger.Locking.{Found, lock_both-Found}
use neo_bank.Ledger.Post.{
  DepositOutcome, deposit_ok, deposit_invalid_amount, deposit_account_not_found, Locks, missing,
  held, lock_order, lock_both, post_pair, existing_transaction, post_after, post_unless,
  post_unchecked_transfer,
}

-- The transaction that the log already holds under a reference, none if there is no reference.
abbrev pub known : Option ℕ → LedgerDb → Option ℕ
known none db = none
known (some ref) db = transaction_of_reference ref db.entries

module _ (ids : Ids) (now from to : ℕ) (amount : ℤ) (reference : Option ℕ) (db : LedgerDb) where
  -- A posting: both accounts exist, the reference is new, and the positive amount moved.
  pub record PostsUnchecked (db' : LedgerDb) : Type 0 where
    pub l : ℕ
    pub l' : ℕ
    pub sender : ledger_account_id from db.ledger_accounts ≡ some l
    pub recipient : ledger_account_id to db.ledger_accounts ≡ some l'
    pub positive : pos 1 ≤ℤ amount
    pub fresh : known reference db ≡ none
    pub moved : Moved ids now l l' amount reference db db'

  -- Refusals, replays and failures leave the ledger as it was.
  pub data Deposited (f : CommitFate) : Result (Option ℕ × DepositOutcome) × LedgerDb → Type 0 where
    invalid : amount ≤ℤ pos 0 → Deposited f (ok (none, deposit_invalid_amount), db)
    replayed :
        (transaction : ℕ)
        → known reference db ≡ some transaction
        → Deposited f (ok (some transaction, deposit_ok), db)
    no_account :
        (a : ℕ)
        → ledger_account_id a db.ledger_accounts ≡ none
        → Deposited f (ok (none, deposit_account_not_found), db)
    failed : (e : Failure) → Deposited f (err e, db)
    posted :
        (db' : LedgerDb)
        → PostsUnchecked db'
        → Deposited f (ok (some ids.transaction, deposit_ok), db')
    unacknowledged :
        (db' : LedgerDb) → PostsUnchecked db' → f ≡ ack_lost → Deposited f (err connection, db')

  abbrev Ready : CommitFate → Work LedgerDb (Option ℕ × DepositOutcome) → Type 0
  Ready f (roll_back r) = Deposited f (ok r, db)
  Ready f (write r db') = (r ≡ (some ids.transaction, deposit_ok)) × PostsUnchecked db'

  acknowledge :
      (f : CommitFate) {r : Option ℕ × DepositOutcome} (db' : LedgerDb)
      → (r ≡ (some ids.transaction, deposit_ok)) × PostsUnchecked db'
      → Deposited f (commit f db db' r)
  acknowledge committed db' h = rw (h.0) (posted db' h.1)
  acknowledge rolled_back db' h = failed connection
  acknowledge ack_lost db' h = unacknowledged db' h.1 refl

  Ready-Deposited :
      (c : Conn) (w : Result (Work LedgerDb (Option ℕ × DepositOutcome)))
      → OnOk (Ready c.commit_fate) w
      → Deposited c.commit_fate (transaction c db w)
  Ready-Deposited c (err e) h = failed e
  Ready-Deposited c (ok (roll_back r)) h = h
  Ready-Deposited c (ok (write r db')) h = acknowledge c.commit_fate db' h

  module _ (c : Conn) where
    abbrev IsReady : Work LedgerDb (Option ℕ × DepositOutcome) → Type 0
    IsReady = Ready c.commit_fate

    post_after-Ready :
        (locks : Locks)
        → pos 1 ≤ℤ amount
        → known reference db ≡ none
        → Found from to db locks
        → OnOk IsReady
            (post_after c ids now from to (lock_order from to).1 amount reference db locks)
    unfolding post_after
    post_after-Ready (missing a) p fresh f = no_account a f.0
    post_after-Ready (held l l') p fresh f =
        OnOk-bind IsReady (post_pair c 5 ids now _ _ amount reference db) _ λ db' e. (
          refl,
          record {
            l = _;
            l' = _;
            sender = f.0;
            recipient = f.1;
            positive = p;
            fresh = fresh;
            moved = OnOk-apply _ _ (post_pair-Moved ids now _ _ amount reference db c 5) e;
          },
        )

    post_unless-Ready :
        (existing : Option ℕ)
        → pos 1 ≤ℤ amount
        → known reference db ≡ existing
        → OnOk IsReady (post_unless c ids now from to amount reference db existing)
    unfolding post_unless
    post_unless-Ready (some t) p k = replayed t k
    post_unless-Ready none p k = OnOk-bind IsReady (lock_both c 3 _ _ db) _ λ locks found.
        post_after-Ready locks p k
          (OnOk-apply (Found from to db) _ (lock_both-Found from to db c 3) found)

    existing-known :
        (r : Option ℕ) → OnOk (λ existing. known r db ≡ existing) (existing_transaction c r db)
    unfolding existing_transaction
    existing-known none = refl
    existing-known (some ref) = OnOk-step _ c 1 _ _ λ _ _. OnOk-stmt _ c 2 _ refl

    pub post_unchecked_transfer-Deposited :
        Deposited c.commit_fate (post_unchecked_transfer c ids now from to amount reference db)
    unfolding post_unchecked_transfer
    post_unchecked_transfer-Deposited = elim (Bool-cases (leb_ℤ amount (pos 0))) [
      | inl e ↦ rw e (invalid (ground arith))
      | inr e ↦ rw e (
          Ready-Deposited c _ (
            OnOk-bind IsReady (begin c) _ λ _ _.
              OnOk-bind IsReady (existing_transaction c reference db) _ λ existing found.
                post_unless-Ready existing (ground arith)
                  (OnOk-apply _ _ (existing-known reference) found)))
    ]

  -- The ledger is as it was, or the posting is in it.
  pub Deposited-change :
      (f : CommitFate) {r : Result (Option ℕ × DepositOutcome) × LedgerDb}
      → Deposited f r
      → (r.1 ≡ db) ⊎ PostsUnchecked r.1
  Deposited-change f (invalid h) = inl refl
  Deposited-change f (replayed t h) = inl refl
  Deposited-change f (no_account a h) = inl refl
  Deposited-change f (failed e) = inl refl
  Deposited-change f (posted db' h) = inr h
  Deposited-change f (unacknowledged db' h e) = inr h
