-- ===== src/Ledger/Post.antt =====
-- executeTransfer, postUncheckedTransfer, deposit and reverseDeposit of
-- services/ledger-svc/ledger.go. Each runs in one transaction; the row locks and the advisory lock
-- make the transactions on one account, or on one reference, follow one another.
use neo_bank.Prelude.{ℕ, suc, ◌∷◌, Option, none, some, ltb, ◌==◌, if◌then◌else◌}
use neo_bank.Prelude.Int.{ℤ, pos, neg, ltb_ℤ, leb_ℤ}
use neo_bank.Prelude.Db.{
  Result, ok, ◌>>=◌, ◌>>◌, Conn, stmt, begin, Work, roll_back, write, transaction,
}
use neo_bank.Ledger.State.{
  LedgerDb, Entry, Ids, to_bigint, ledger_account_id, sum_entries, transaction_of_reference,
  apply_balance_delta,
}

pub data TransferOutcome : Type 0 where
  transfer_ok transfer_invalid_amount transfer_from_account_not_found : TransferOutcome
  transfer_to_account_not_found transfer_insufficient_funds : TransferOutcome

pub data DepositOutcome : Type 0 where
  deposit_ok deposit_invalid_amount deposit_account_not_found : DepositOutcome

-- `first, second := ...`
-- A UUID is one number in whichever case it is spelled, so that strings.ToLower has nothing to do.
unfoldable pub lock_order : ℕ → ℕ → ℕ × ℕ
lock_order from to = if ltb to from then (to, from) else (from, to)

-- How the loop over `[2]string{first, second}` ends.
pub data Locks : Type 0 where
  missing : ℕ → Locks
  held : ℕ → ℕ → Locks

-- SELECT id FROM ledger_accounts WHERE account_id = $1 FOR UPDATE
abbrev lock_ledger_account : Conn → ℕ → ℕ → LedgerDb → Result (Option ℕ)
lock_ledger_account c k account_id db =
    stmt c k (ok (ledger_account_id account_id db.ledger_accounts))

abbrev second_locked : ℕ → ℕ → Option ℕ → Locks
second_locked second l none = missing second
second_locked second l (some l') = held l l'

-- The loop's second round, after the first lookup.
abbrev lock_second : Conn → ℕ → ℕ → ℕ → LedgerDb → Option ℕ → Result Locks
lock_second c k first second db none = ok (missing first)
lock_second c k first second db (some l) = do
  found ← lock_ledger_account c (suc k) second db
  ok (second_locked second l found)

-- The loop, its statements numbered from k.
unfoldable pub lock_both : Conn → ℕ → ℕ → ℕ → LedgerDb → Result Locks
lock_both c k first second db = do
  found ← lock_ledger_account c k first db
  lock_second c k first second db found

-- `locked[accountID]`: the second round's write to the map is the later one.
abbrev pub locked : ℕ → ℕ → ℕ → ℕ → ℕ
locked second l l' account_id = if account_id == second then l' else l

unfoldable pub debit_entry : Ids → ℕ → ℕ → ℤ → Option ℕ → Entry
debit_entry ids now l amount reference = record {
  id = ids.debit;
  transaction_id = ids.transaction;
  ledger_account_id = l;
  amount = neg amount;
  reference = reference;
  created_at = now;
}

unfoldable pub credit_entry : Ids → ℕ → ℕ → ℤ → Option ℕ → Entry
credit_entry ids now l amount reference = record {
  id = ids.credit;
  transaction_id = ids.transaction;
  ledger_account_id = l;
  amount = amount;
  reference = reference;
  created_at = now;
}

-- The log after both INSERTs.
abbrev pub logged : Ids → ℕ → ℕ → ℕ → ℤ → Option ℕ → LedgerDb → LedgerDb
logged ids now l l' amount reference db = record db {
  entries =
      credit_entry ids now l' amount reference
      ∷ debit_entry ids now l amount reference
      ∷ db.entries;
}

-- The pair of entries, then the two cached balances, statements k to k + 3.
unfoldable pub post_pair : Conn → ℕ → Ids → ℕ → ℕ → ℕ → ℤ → Option ℕ → LedgerDb → Result LedgerDb
post_pair c k ids now l l' amount reference db = do
  stmt c k (ok tt)
  stmt c (suc k) (ok tt)
  db₁ ←
      stmt c (suc (suc k))
        (apply_balance_delta l (neg amount) (logged ids now l l' amount reference db))
  stmt c (suc (suc (suc k))) (apply_balance_delta l' amount db₁)

abbrev pub Posted : Type 0 → Type 0
Posted O = Work LedgerDb (Option ℕ × O)

-- executeTransfer from the balance check on.
unfoldable pub execute_locked :
    Conn → Ids → ℕ → ℕ → ℕ → ℤ → Option ℕ → LedgerDb → Result (Posted TransferOutcome)
execute_locked c ids now l l' amount reference db = do
  balance ← stmt c 3 (to_bigint (sum_entries l db.entries))
  let posted = post_pair c 4 ids now l l' amount reference db
  if ltb_ℤ balance amount
      then ok (roll_back (none, transfer_insufficient_funds))
      else (do db' ← posted; ok (write (some ids.transaction, transfer_ok) db'))

unfoldable pub execute_after :
    Conn → Ids → ℕ → ℕ → ℕ → ℕ → ℤ → Option ℕ → LedgerDb → Locks → Result (Posted TransferOutcome)
execute_after c ids now from to second amount reference db (missing a) = ok (
    roll_back (
      none,
      (if a == from then transfer_from_account_not_found else transfer_to_account_not_found),
    ))
execute_after c ids now from to second amount reference db (held l l') =
    execute_locked c ids now (locked second l l' from) (locked second l l' to) amount reference db

unfoldable pub execute_transfer :
    Conn
    → Ids
    → ℕ
    → ℕ
    → ℕ
    → ℤ
    → Option ℕ
    → LedgerDb
    → Result (Option ℕ × TransferOutcome) × LedgerDb
execute_transfer c ids now from to amount reference db =
    if leb_ℤ amount (pos 0)
    then (ok (none, transfer_invalid_amount), db)
    else transaction c db (do
      let (first, second) = lock_order from to
      begin c
      locks ← lock_both c 1 first second db
      execute_after c ids now from to second amount reference db locks)

-- The check for an earlier posting under the reference, behind the advisory lock.
unfoldable pub existing_transaction : Conn → Option ℕ → LedgerDb → Result (Option ℕ)
existing_transaction c none db = ok none
existing_transaction c (some ref) db = do
  stmt c 1 (ok tt)
  stmt c 2 (ok (transaction_of_reference ref db.entries))

unfoldable pub post_after :
    Conn → Ids → ℕ → ℕ → ℕ → ℕ → ℤ → Option ℕ → LedgerDb → Locks → Result (Posted DepositOutcome)
post_after c ids now from to second amount reference db (missing a) =
    ok (roll_back (none, deposit_account_not_found))
post_after c ids now from to second amount reference db (held l l') = do
  let lf = locked second l l' from
  let lt = locked second l l' to
  db' ← post_pair c 5 ids now lf lt amount reference db
  ok (write (some ids.transaction, deposit_ok) db')

unfoldable pub post_unless :
    Conn → Ids → ℕ → ℕ → ℕ → ℤ → Option ℕ → LedgerDb → Option ℕ → Result (Posted DepositOutcome)
post_unless c ids now from to amount reference db (some existing) =
    ok (roll_back (some existing, deposit_ok))
post_unless c ids now from to amount reference db none = do
  let (first, second) = lock_order from to
  locks ← lock_both c 3 first second db
  post_after c ids now from to second amount reference db locks

unfoldable pub post_unchecked_transfer :
    Conn → Ids → ℕ → ℕ → ℕ → ℤ → Option ℕ → LedgerDb → Result (Option ℕ × DepositOutcome) × LedgerDb
post_unchecked_transfer c ids now from to amount reference db =
    if leb_ℤ amount (pos 0)
    then (ok (none, deposit_invalid_amount), db)
    else transaction c db (do
      begin c
      existing ← existing_transaction c reference db
      post_unless c ids now from to amount reference db existing)

-- 00000000-0000-0000-0000-000000000001
abbrev pub genesis_account_id : ℕ
genesis_account_id = 1

unfoldable pub deposit :
    Conn → Ids → ℕ → ℕ → ℤ → Option ℕ → LedgerDb → Result (Option ℕ × DepositOutcome) × LedgerDb
deposit c ids now to = post_unchecked_transfer c ids now genesis_account_id to

unfoldable pub reverse_deposit :
    Conn → Ids → ℕ → ℕ → ℤ → Option ℕ → LedgerDb → Result (Option ℕ × DepositOutcome) × LedgerDb
reverse_deposit c ids now from = post_unchecked_transfer c ids now from genesis_account_id
