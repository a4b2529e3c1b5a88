-- ===== src/Transfers/State.antt =====
-- The tables of services/transfers-svc (its migrations) and the rows of transfer.go, deposit.go
-- and withdrawal.go. UUIDs, idempotency keys and Stripe's ids are numbers; a missing or empty one
-- is none. Rows inserted later stand first.
use neo_bank.Prelude.{ℕ, Bool, true, false, List, Option, String, ◌==◌}
use neo_bank.Prelude.Int.{ℤ}
use neo_bank.Outbox.State.{OutboxRow}

pub data TransferStatus : Type 0 where
  pending completed failed rejected : TransferStatus

pub record Transfer : Type 0 where
  pub id : ℕ
  pub idempotency_key : ℕ
  pub sender_account_id : ℕ
  pub recipient_account_id : ℕ
  pub amount : ℤ
  pub status : TransferStatus
  pub failure_reason : Option String
  pub ledger_transaction_id : Option ℕ
  pub created_at : ℕ
  pub updated_at : ℕ

pub data DepositStatus : Type 0 where
  pending succeeded failed credited refunded : DepositStatus

pub record Deposit : Type 0 where
  pub id : ℕ
  pub account_id : ℕ
  pub amount : ℤ
  pub status : DepositStatus
  pub stripe_payment_intent_id : Option ℕ
  pub ledger_transaction_id : Option ℕ
  pub failure_reason : Option String
  pub created_at : ℕ
  pub updated_at : ℕ

pub data WithdrawalStatus : Type 0 where
  payout_simulated failed : WithdrawalStatus

pub record Withdrawal : Type 0 where
  pub id : ℕ
  pub account_id : ℕ
  pub amount : ℤ
  pub status : WithdrawalStatus
  pub ledger_transaction_id : Option ℕ
  pub failure_reason : Option String
  pub created_at : ℕ
  pub updated_at : ℕ

-- The outbox payloads (events/v1): transfer id, sender, recipient, amount, and the ledger
-- transaction or the reason; deposit id, account, amount and the ledger transaction.
pub data Event : Type 0 where
  transfer_completed : ℕ → ℕ → ℕ → ℤ → ℕ → Event
  transfer_failed transfer_rejected : ℕ → ℕ → ℕ → ℤ → String → Event
  deposit_credited : ℕ → ℕ → ℤ → ℕ → Event

pub record TransfersDb : Type 0 where
  pub transfers : List Transfer
  pub deposits : List Deposit
  pub withdrawals : List Withdrawal
  pub processed_stripe_events : List ℕ
  pub outbox : List (OutboxRow Event)

-- WHERE id = $1
abbrev pub has_id : ℕ → Transfer → Bool
has_id id t = t.id == id

abbrev pub is_pending : TransferStatus → Bool
is_pending TransferStatus.pending = true
is_pending TransferStatus.completed = false
is_pending TransferStatus.failed = false
is_pending TransferStatus.rejected = false
