-- ===== src/Ledger/Reads.antt =====
-- The reads of services/ledger-svc/ledger.go, and createLedgerAccount. Times are seconds.
use neo_bank.Prelude.{
  ℕ, Bool, ◌&&◌, ◌||◌, List, [], ◌∷◌, Option, none, some, ltb, ◌==◌, if◌then◌else◌, select, take,
  drop,
}
use neo_bank.Prelude.Int.{ℤ, pos, pos_part, ltb_ℤ, leb_ℤ}
use neo_bank.Prelude.Db.{
  Failure, Result, ok, err, ◌>>=◌, ◌>>◌, Conn, stmt, begin, Work, roll_back, write, transaction,
}
use neo_bank.Prelude.Sorting.{sort}
use neo_bank.Ledger.State.{
  LedgerDb, LedgerAccount, Entry, ledger_account_id, cached_balance, transaction_of_reference,
  to_bigint, sum_entries, set_balance,
}

-- The errors of ledger.go, a failed query among them.
pub data LedgerError : Type 0 where
  ledger_account_not_found invalid_pagination : LedgerError
  query_failed : Failure → LedgerError

pub data Answer (A : Type 0) : Type 0 where
  answer : A → Answer A
  refuse : LedgerError → Answer A

infixl 5 ◌>>=ᴬ◌
abbrev ◌>>=ᴬ◌ : {A B : Type 0} → Answer A → (A → Answer B) → Answer B
answer a >>=ᴬ f = f a
refuse e >>=ᴬ f = refuse e

abbrev query : {A : Type 0} → Result A → Answer A
query (ok a) = answer a
query (err e) = refuse (query_failed e)

abbrev found : Option ℕ → Answer ℕ
found none = refuse ledger_account_not_found
found (some l) = answer l

-- SELECT id FROM ledger_accounts WHERE account_id = $1
abbrev look_up : Conn → ℕ → ℕ → LedgerDb → Answer ℕ
look_up c k account_id db =
    query (stmt c k (ok (ledger_account_id account_id db.ledger_accounts))) >>=ᴬ found

unfoldable pub get_balance : Conn → ℕ → LedgerDb → Answer ℤ
get_balance c account_id db =
    look_up c 0 account_id db >>=ᴬ λ l. answer (cached_balance l db.account_balances)

abbrev pub find_account : ℕ → List LedgerAccount → Option LedgerAccount
find_account a [] = none
find_account a (r ∷ rs) = if r.account_id == a then some r else find_account a rs

abbrev pub upsert_account : ℕ → ℕ → ℕ → LedgerDb → Option LedgerAccount → Work LedgerDb (ℕ × ℕ)
upsert_account new_id now account_id db none =
    write (account_id, now)
      (record db {
        ledger_accounts =
            record { id = new_id; account_id = account_id; created_at = now } ∷ db.ledger_accounts;
      })
upsert_account new_id now account_id db (some r) = write (r.account_id, r.created_at) db

-- INSERT ... ON CONFLICT (account_id) DO UPDATE SET account_id = EXCLUDED.account_id RETURNING ...
unfoldable pub create_ledger_account : Conn → ℕ → ℕ → ℕ → LedgerDb → Result (ℕ × ℕ) × LedgerDb
create_ledger_account c new_id now account_id db = transaction c db (
    stmt c 0
      (ok (upsert_account new_id now account_id db (find_account account_id db.ledger_accounts))))

-- ORDER BY created_at DESC, id DESC
abbrev pub newer : Entry → Entry → Bool
newer e f = ltb f.created_at e.created_at || (f.created_at == e.created_at && ltb f.id e.id)

abbrev pub own : ℕ → Entry → Bool
own l e = e.ledger_account_id == l

abbrev pub history : ℕ → LedgerDb → List Entry
history l db = sort newer (select (own l) db.entries)

unfoldable pub get_history : Conn → ℕ → ℤ → ℤ → LedgerDb → Answer (List Entry)
get_history c account_id limit offset db =
    if leb_ℤ limit (pos 0)
    then refuse invalid_pagination
    else if ltb_ℤ offset (pos 0)
    then refuse invalid_pagination
    else look_up c 0 account_id db >>=ᴬ λ l.
        query (stmt c 1 (ok (take (pos_part limit) (drop (pos_part offset) (history l db)))))

unfoldable pub get_transaction_by_reference : Conn → ℕ → LedgerDb → Result (Option ℕ)
get_transaction_by_reference c reference db =
    stmt c 0 (ok (transaction_of_reference reference db.entries))

abbrev rebuilt : Conn → LedgerDb → ℕ → Result (Work LedgerDb (Answer ℤ))
rebuilt c db l = do
  balance ← stmt c 2 (to_bigint (sum_entries l db.entries))
  stmt c 3 (ok tt)
  ok (
      write (answer balance)
        (record db { account_balances = set_balance l balance db.account_balances }))

abbrev rebuild_after : Conn → LedgerDb → Option ℕ → Result (Work LedgerDb (Answer ℤ))
rebuild_after c db none = ok (roll_back (refuse ledger_account_not_found))
rebuild_after c db (some l) = rebuilt c db l

unfoldable pub rebuild_balance : Conn → ℕ → LedgerDb → Result (Answer ℤ) × LedgerDb
rebuild_balance c account_id db = transaction c db (do
  begin c
  found ← stmt c 1 (ok (ledger_account_id account_id db.ledger_accounts))
  rebuild_after c db found)
