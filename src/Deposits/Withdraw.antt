-- ===== src/Deposits/Withdraw.antt =====
-- withdrawal.go: a simulated payout, from the account to the genesis account.
use neo_bank.Prelude.{ℕ, ◌∷◌, Option, none, some, String, if◌then◌else◌, not}
use neo_bank.Prelude.Int.{ℤ}
use neo_bank.Prelude.Db.{Result, ok, err, remote_call, Conn, stmt, write, transaction}
use neo_bank.Prelude.Rpc.{failed_precondition, Reply, reply, status, Network, remote}
use neo_bank.Ledger.State.{LedgerDb}
use neo_bank.Ledger.Post.{genesis_account_id}
use neo_bank.Ledger.Server.{Execution, serve_execute_transfer}
use neo_bank.Transfers.State.{Withdrawal, WithdrawalStatus, payout_simulated, TransfersDb}
use neo_bank.Transfers.Create.{AccountStatus, is_active, AccountsClient}
use neo_bank.Transfers.Settle.{Bank}
use neo_bank.Transfers.Handler.{resolve_sender_account_id}
use neo_bank.Deposits.Create.{is_out_of_bounds}

pub data CreateWithdrawalOutcome : Type 0 where
  create_withdrawal_payout_simulated create_withdrawal_invalid_amount : CreateWithdrawalOutcome
  create_withdrawal_account_not_active create_withdrawal_insufficient_funds :
      CreateWithdrawalOutcome

abbrev pub CreatedWithdrawal : Type 0
CreatedWithdrawal = Option Withdrawal × CreateWithdrawalOutcome

-- What one withdrawal meets: the ledger call's network and execution, and the row's id, time and
-- connection.
pub record Payout : Type 0 where
  pub network : Network
  pub execution : Execution
  pub id : ℕ
  pub now : ℕ
  pub conn : Conn

abbrev pub new_withdrawal :
    Payout → ℕ → ℤ → WithdrawalStatus → Option ℕ → Option String → Withdrawal
new_withdrawal x account amount s l reason = record {
  id = x.id;
  account_id = account;
  amount = amount;
  status = s;
  ledger_transaction_id = l;
  failure_reason = reason;
  created_at = x.now;
  updated_at = x.now;
}

unfoldable pub insert_withdrawal :
    Payout
    → ℕ
    → ℤ
    → WithdrawalStatus
    → Option ℕ
    → Option String
    → TransfersDb
    → Result Withdrawal × TransfersDb
insert_withdrawal x account amount s l reason db =
    let w = new_withdrawal x account amount s l reason in
    transaction x.conn db
      (stmt x.conn 0 (ok (write w (record db { withdrawals = w ∷ db.withdrawals }))))

abbrev pub recorded :
    CreateWithdrawalOutcome
    → LedgerDb
    → Result Withdrawal × TransfersDb
    → Result CreatedWithdrawal × Bank
recorded o l (ok w, db) = (ok (some w, o), record { ledger = l; service = db })
recorded o l (err e, db) = (err e, record { ledger = l; service = db })

abbrev pub after_debit :
    Payout → ℕ → ℤ → TransfersDb → Reply (Option ℕ) × LedgerDb → Result CreatedWithdrawal × Bank
after_debit x account amount db (reply transaction_id, l) =
    recorded create_withdrawal_payout_simulated l
      (insert_withdrawal x account amount payout_simulated transaction_id none db)
after_debit x account amount db (status failed_precondition, l) =
    recorded create_withdrawal_insufficient_funds l (
      insert_withdrawal x account amount WithdrawalStatus.failed none (some "insufficient_funds")
        db)
after_debit x account amount db (status _, l) =
    (err remote_call, record { ledger = l; service = db })

-- The call carries no reference.
abbrev pub after_account :
    Payout → ℕ → ℤ → Bank → Reply AccountStatus → Result CreatedWithdrawal × Bank
after_account x account amount b (status code) = (err remote_call, b)
after_account x account amount b (reply s) =
    if not (is_active s)
    then (ok (none, create_withdrawal_account_not_active), b)
    else after_debit x account amount b.service (
        remote x.network (serve_execute_transfer x.execution account genesis_account_id amount none)
          b.ledger)

unfoldable pub create_withdrawal :
    Payout → AccountsClient → ℕ → ℤ → Bank → Result CreatedWithdrawal × Bank
create_withdrawal x accounts account amount b =
    if is_out_of_bounds amount
    then (ok (none, create_withdrawal_invalid_amount), b)
    else after_account x account amount b (accounts.get_account_by_id account)

pub data WithdrawalResponse : Type 0 where
  withdrawal_error : ℕ → String → WithdrawalResponse
  withdrawal_created : Withdrawal → WithdrawalResponse

abbrev respond_withdrawal : Result CreatedWithdrawal × Bank → WithdrawalResponse × Bank
respond_withdrawal (err e, b) = (withdrawal_error 500 "internal_error", b)
respond_withdrawal (ok (w, create_withdrawal_invalid_amount), b) =
    (withdrawal_error 400 "invalid_amount", b)
respond_withdrawal (ok (w, create_withdrawal_account_not_active), b) =
    (withdrawal_error 409 "account_not_active", b)
respond_withdrawal (ok (some w, _), b) = (withdrawal_created w, b)
respond_withdrawal (ok (none, _), b) = (withdrawal_error 500 "internal_error", b)

abbrev withdrawal_body : Payout → AccountsClient → ℕ → Option ℤ → Bank → WithdrawalResponse × Bank
withdrawal_body x accounts account none b = (withdrawal_error 400 "invalid_request_body", b)
withdrawal_body x accounts account (some amount) b =
    respond_withdrawal (create_withdrawal x accounts account amount b)

abbrev withdrawal_caller :
    Payout → AccountsClient → Option ℤ → Bank → Result (Option ℕ) → WithdrawalResponse × Bank
withdrawal_caller x accounts body b (err e) = (withdrawal_error 500 "internal_error", b)
withdrawal_caller x accounts body b (ok none) = (withdrawal_error 404 "account_not_found", b)
withdrawal_caller x accounts body b (ok (some account)) = withdrawal_body x accounts account body b

unfoldable pub create_withdrawal_handler :
    Payout → AccountsClient → ℕ → Option ℤ → Bank → WithdrawalResponse × Bank
create_withdrawal_handler x accounts user body b =
    withdrawal_caller x accounts body b (resolve_sender_account_id accounts user)
