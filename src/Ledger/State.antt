-- ===== src/Ledger/State.antt =====
-- The tables of services/ledger-svc (migrations 000001 to 000005) and the statements that
-- ledger.go runs on them. A UUID is a number; the text order that decides which account is locked
-- first is the order of these numbers. Rows inserted later stand first.
use neo_bank.Prelude.{ℕ, Bool, false, List, [], ◌∷◌, Option, none, some, ◌==◌, if◌then◌else◌}
use neo_bank.Prelude.Int.{ℤ, pos, ◌+ℤ◌, in_bigint}
use neo_bank.Prelude.Db.{Result, ok, err, out_of_range, ◌>>=◌}

pub record LedgerAccount : Type 0 where
  pub id : ℕ
  pub account_id : ℕ
  pub created_at : ℕ

pub record Entry : Type 0 where
  pub id : ℕ
  pub transaction_id : ℕ
  pub ledger_account_id : ℕ
  pub amount : ℤ
  pub reference : Option ℕ
  pub created_at : ℕ

pub record BalanceRow : Type 0 where
  pub ledger_account_id : ℕ
  pub balance : ℤ

pub record LedgerDb : Type 0 where
  pub ledger_accounts : List LedgerAccount
  pub entries : List Entry
  pub account_balances : List BalanceRow

-- What gen_random_uuid() returns to one posting.
pub record Ids : Type 0 where
  pub transaction : ℕ
  pub debit : ℕ
  pub credit : ℕ

-- The ::bigint cast of a SUM, and the range of a BIGINT column.
unfoldable pub to_bigint : ℤ → Result ℤ
to_bigint a = if in_bigint a then ok a else err out_of_range

-- SELECT id FROM ledger_accounts WHERE account_id = $1
abbrev pub ledger_account_id : ℕ → List LedgerAccount → Option ℕ
ledger_account_id a [] = none
ledger_account_id a (r ∷ rs) = if r.account_id == a then some r.id else ledger_account_id a rs

-- SUM(amount) WHERE ledger_account_id = $1
unfoldable pub sum_entries : ℕ → List Entry → ℤ
sum_entries l [] = pos 0
sum_entries l (e ∷ es) = (if e.ledger_account_id == l then e.amount else pos 0) +ℤ sum_entries l es

-- COALESCE(balance, 0)
unfoldable pub cached_balance : ℕ → List BalanceRow → ℤ
cached_balance l [] = pos 0
cached_balance l (r ∷ rs) = if r.ledger_account_id == l then r.balance else cached_balance l rs

-- reference = $1, which is never true of a NULL
abbrev pub has_reference : ℕ → Option ℕ → Bool
has_reference ref none = false
has_reference ref (some r) = r == ref

-- SELECT transaction_id FROM entries WHERE reference = $1 LIMIT 1
unfoldable pub transaction_of_reference : ℕ → List Entry → Option ℕ
transaction_of_reference ref [] = none
transaction_of_reference ref (e ∷ es) =
    if has_reference ref e.reference then some e.transaction_id else transaction_of_reference ref es

-- INSERT ... ON CONFLICT DO UPDATE SET balance = account_balances.balance + EXCLUDED.balance
unfoldable pub add_to_balance : ℕ → ℤ → List BalanceRow → Result (List BalanceRow)
add_to_balance l delta [] = ok (record { ledger_account_id = l; balance = delta } ∷ [])
add_to_balance l delta (r ∷ rs) =
    let rest = add_to_balance l delta rs in
    if r.ledger_account_id == l
    then (do b ← to_bigint (r.balance +ℤ delta); ok (record r { balance = b } ∷ rs))
    else (do rs' ← rest; ok (r ∷ rs'))

unfoldable pub apply_balance_delta : ℕ → ℤ → LedgerDb → Result LedgerDb
apply_balance_delta l delta db = do
  rows ← add_to_balance l delta db.account_balances
  ok (record db { account_balances = rows })

-- INSERT ... ON CONFLICT DO UPDATE SET balance = EXCLUDED.balance
unfoldable pub set_balance : ℕ → ℤ → List BalanceRow → List BalanceRow
set_balance l b [] = record { ledger_account_id = l; balance = b } ∷ []
set_balance l b (r ∷ rs) =
    if r.ledger_account_id == l then record r { balance = b } ∷ rs else r ∷ set_balance l b rs
