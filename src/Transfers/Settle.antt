-- ===== src/Transfers/Settle.antt =====
-- settleTransfer and checkTransferFraud of transfer.go, over the tables of transfers-svc and of
-- ledger-svc at once.
use neo_bank.Prelude.{ℕ, Option, none, some, String}
use neo_bank.Prelude.Db.{Result, ok, err, Conn}
use neo_bank.Prelude.Rpc.{
  Code, Reply, reply, status, invalid_argument, not_found, failed_precondition, resource_exhausted,
  internal, Network, remote,
}
use neo_bank.Ledger.State.{LedgerDb}
use neo_bank.Ledger.Server.{Execution, serve_execute_transfer}
use neo_bank.Outbox.State.{Draw}
use neo_bank.Transfers.State.{Transfer, TransfersDb}
use neo_bank.Transfers.Mark.{mark_transfer_completed, mark_transfer_failed, mark_transfer_rejected}

pub data SettlementOutcome : Type 0 where
  settlement_completed settlement_failed settlement_uncertain : SettlementOutcome

-- The tables of both services.
pub record Bank : Type 0 where
  pub ledger : LedgerDb
  pub service : TransfersDb

-- What a settlement meets: the call's network and its execution on the ledger, then the
-- connection and the draws of the transaction that marks the row.
pub record Settlement : Type 0 where
  pub network : Network
  pub execution : Execution
  pub conn : Conn
  pub draw : Draw

-- The switch over status.Code(err): the reason of a definite failure.
unfoldable pub failure_reason_of : Code → Option String
failure_reason_of failed_precondition = some "insufficient_funds"
failure_reason_of not_found = some "account_not_found"
failure_reason_of invalid_argument = some "invalid_amount"
failure_reason_of internal = some "ledger_internal_error"
failure_reason_of resource_exhausted = none
failure_reason_of Code.unavailable = none
failure_reason_of Code.deadline_exceeded = none
failure_reason_of Code.unknown = none
failure_reason_of Code.other_code = none

abbrev pub marked :
    {O : Type 0} → O → LedgerDb → Result Transfer × TransfersDb → Result (Transfer × O) × Bank
marked o l (ok t, db) = (ok (t, o), record { ledger = l; service = db })
marked o l (err e, db) = (err e, record { ledger = l; service = db })

abbrev pub settle_failure :
    Settlement
    → Transfer
    → LedgerDb
    → TransfersDb
    → Option String
    → Result (Transfer × SettlementOutcome) × Bank
settle_failure s t l db none = (ok (t, settlement_uncertain), record { ledger = l; service = db })
settle_failure s t l db (some reason) =
    marked settlement_failed l (mark_transfer_failed s.conn s.draw t.id reason db)

abbrev pub settle_reply :
    Settlement
    → Transfer
    → TransfersDb
    → Reply (Option ℕ) × LedgerDb
    → Result (Transfer × SettlementOutcome) × Bank
settle_reply s t db (reply transaction_id, l) =
    marked settlement_completed l (mark_transfer_completed s.conn s.draw t.id transaction_id db)
settle_reply s t db (status code, l) = settle_failure s t l db (failure_reason_of code)

-- The call of ledger-svc's ExecuteTransfer, with the transfer's id as the reference.
unfoldable pub call_execute_transfer :
    Settlement → Transfer → LedgerDb → Reply (Option ℕ) × LedgerDb
call_execute_transfer s t = remote s.network (
    serve_execute_transfer s.execution t.sender_account_id t.recipient_account_id t.amount
      (some t.id))

unfoldable pub settle_transfer :
    Settlement → Transfer → Bank → Result (Transfer × SettlementOutcome) × Bank
settle_transfer s t b = settle_reply s t b.service (call_execute_transfer s t b.ledger)

pub data FraudCheckOutcome : Type 0 where
  fraud_check_approved fraud_check_rejected fraud_check_uncertain : FraudCheckOutcome

-- The decision of a CheckTransfer response and, of a reject, its triggered rule.
pub data Decision : Type 0 where
  approve : Decision
  reject : String → Decision
  other : String → Decision

abbrev pub rejected_as :
    Result Transfer × TransfersDb → Result (Transfer × FraudCheckOutcome) × TransfersDb
rejected_as (ok t, db) = (ok (t, fraud_check_rejected), db)
rejected_as (err e, db) = (err e, db)

-- The reply is what fraud-svc answers to this call.
unfoldable pub check_transfer_fraud :
    Conn
    → Draw
    → Reply Decision
    → Transfer
    → TransfersDb
    → Result (Transfer × FraudCheckOutcome) × TransfersDb
check_transfer_fraud c d (status code) t db = (ok (t, fraud_check_uncertain), db)
check_transfer_fraud c d (reply approve) t db = (ok (t, fraud_check_approved), db)
check_transfer_fraud c d (reply (reject rule)) t db =
    rejected_as (mark_transfer_rejected c d t.id rule db)
check_transfer_fraud c d (reply (other decision)) t db = (ok (t, fraud_check_uncertain), db)
