-- ===== src/Ledger/Server.antt =====
-- services/ledger-svc/grpc_server.go: the status code of each outcome. `Execution` and the like
-- gather what one call meets: its connection, the ids it draws and its time.
use neo_bank.Prelude.{ℕ, List, Option}
use neo_bank.Prelude.Int.{ℤ}
use neo_bank.Prelude.Db.{Result, ok, err, Conn}
use neo_bank.Prelude.Rpc.{
  Reply, reply, status, invalid_argument, not_found, failed_precondition, internal,
}
use neo_bank.Ledger.State.{LedgerDb, Entry, Ids}
use neo_bank.Ledger.Post.{
  TransferOutcome, transfer_ok, transfer_invalid_amount, transfer_from_account_not_found,
  transfer_to_account_not_found, transfer_insufficient_funds, DepositOutcome, deposit_ok,
  deposit_invalid_amount, deposit_account_not_found, execute_transfer, deposit, reverse_deposit,
}
use neo_bank.Ledger.Reads.{
  Answer, answer, refuse, ledger_account_not_found, invalid_pagination, query_failed, get_balance,
  get_history, get_transaction_by_reference, create_ledger_account,
}

-- A response's transaction id; the empty id is none.
abbrev pub transfer_status : Result (Option ℕ × TransferOutcome) → Reply (Option ℕ)
transfer_status (err e) = status internal
transfer_status (ok (t, transfer_ok)) = reply t
transfer_status (ok (t, transfer_invalid_amount)) = status invalid_argument
transfer_status (ok (t, transfer_from_account_not_found)) = status not_found
transfer_status (ok (t, transfer_to_account_not_found)) = status not_found
transfer_status (ok (t, transfer_insufficient_funds)) = status failed_precondition

abbrev pub deposit_status : Result (Option ℕ × DepositOutcome) → Reply (Option ℕ)
deposit_status (err e) = status internal
deposit_status (ok (t, deposit_ok)) = reply t
deposit_status (ok (t, deposit_invalid_amount)) = status invalid_argument
deposit_status (ok (t, deposit_account_not_found)) = status not_found

-- What one posting meets on the server.
pub record Execution : Type 0 where
  pub conn : Conn
  pub ids : Ids
  pub now : ℕ

unfoldable pub serve_execute_transfer :
    Execution → ℕ → ℕ → ℤ → Option ℕ → LedgerDb → Reply (Option ℕ) × LedgerDb
serve_execute_transfer x from to amount reference db =
    let (r, db') = execute_transfer x.conn x.ids x.now from to amount reference db in
    (transfer_status r, db')

unfoldable pub serve_deposit : Execution → ℕ → ℤ → Option ℕ → LedgerDb → Reply (Option ℕ) × LedgerDb
serve_deposit x account amount reference db =
    let (r, db') = deposit x.conn x.ids x.now account amount reference db in (deposit_status r, db')

unfoldable pub serve_reverse_deposit :
    Execution → ℕ → ℤ → Option ℕ → LedgerDb → Reply (Option ℕ) × LedgerDb
serve_reverse_deposit x account amount reference db =
    let (r, db') = reverse_deposit x.conn x.ids x.now account amount reference db in
    (deposit_status r, db')

abbrev answer_status : {A : Type 0} → Answer A → Reply A
answer_status (answer a) = reply a
answer_status (refuse ledger_account_not_found) = status not_found
answer_status (refuse invalid_pagination) = status invalid_argument
answer_status (refuse (query_failed e)) = status internal

unfoldable pub serve_get_balance : Conn → ℕ → LedgerDb → Reply ℤ
serve_get_balance c account db = answer_status (get_balance c account db)

unfoldable pub serve_get_history : Conn → ℕ → ℤ → ℤ → LedgerDb → Reply (List Entry)
serve_get_history c account limit offset db = answer_status (get_history c account limit offset db)

abbrev pub result_status : {A : Type 0} → Result A → Reply A
result_status (ok a) = reply a
result_status (err e) = status internal

-- Found, with its transaction id, or not found.
unfoldable pub serve_get_transaction_by_reference : Conn → ℕ → LedgerDb → Reply (Option ℕ)
serve_get_transaction_by_reference c reference db =
    result_status (get_transaction_by_reference c reference db)

unfoldable pub serve_create_ledger_account : Conn → ℕ → ℕ → ℕ → LedgerDb → Reply (ℕ × ℕ) × LedgerDb
serve_create_ledger_account c new_id now account db =
    let (r, db') = create_ledger_account c new_id now account db in (result_status r, db')
