-- ===== src/Deposits/Credit.antt =====
-- deposit_reconcile.go: the worker that credits succeeded deposits on the ledger and settles the
-- pending ones by asking Stripe. Stripe is not part of the repository: its answer to Retrieve is an
-- argument.
use neo_bank.Prelude.{ℕ, List, [], ◌∷◌, Option, none, some, ◌-◌}
use neo_bank.Prelude.Db.{Result, ok, err, Conn}
use neo_bank.Prelude.Rpc.{Reply, reply, status, Network, remote}
use neo_bank.Ledger.State.{LedgerDb}
use neo_bank.Ledger.Server.{Execution, serve_deposit}
use neo_bank.Outbox.State.{Draw}
use neo_bank.Transfers.State.{Deposit, TransfersDb}
use neo_bank.Transfers.Settle.{Bank}
use neo_bank.Deposits.Rows.{
  mark_deposit_credited_if_succeeded, mark_deposit_failed_if_pending,
  mark_deposit_succeeded_if_pending, mark_deposit_failed_if_orphaned, get_succeeded_deposits,
  get_pending_deposits_with_intent_before, get_orphaned_pending_deposits,
}

-- What the crediting of one deposit meets.
pub record Crediting : Type 0 where
  pub network : Network
  pub execution : Execution
  pub conn : Conn
  pub draw : Draw

abbrev pub mark_credited : Crediting → Deposit → TransfersDb → Reply (Option ℕ) × LedgerDb → Bank
mark_credited x d db (status code, l) = record { ledger = l; service = db }
mark_credited x d db (reply transaction_id, l) = record {
  ledger = l;
  service = (mark_deposit_credited_if_succeeded x.conn x.draw d.id transaction_id db).1;
}

-- The divergence alert is a log line.
unfoldable pub credit_deposit : Crediting → Deposit → Bank → Bank
credit_deposit x d b =
    mark_credited x d b.service
      (remote x.network (serve_deposit x.execution d.account_id d.amount (some d.id)) b.ledger)

unfoldable pub credit_each : (Deposit → Crediting) → List Deposit → Bank → Bank
credit_each f [] b = b
credit_each f (d ∷ ds) b = credit_each f ds (credit_deposit (f d) d b)

abbrev pub credit_listed : (Deposit → Crediting) → Bank → Result (List Deposit) → Bank
credit_listed f b (err e) = b
credit_listed f b (ok ds) = credit_each f ds b

unfoldable pub credit_succeeded_deposits : Conn → (Deposit → Crediting) → Bank → Bank
credit_succeeded_deposits c f b = credit_listed f b (get_succeeded_deposits c b.service)

pub data IntentStatus : Type 0 where
  intent_succeeded intent_canceled intent_in_progress : IntentStatus

-- What the poll of one pending deposit meets.
pub record Polling : Type 0 where
  pub answer : Reply IntentStatus
  pub conn : Conn
  pub now : ℕ

abbrev pub apply_intent_status :
    Polling → Deposit → ℕ → TransfersDb → Reply IntentStatus → TransfersDb
apply_intent_status p d intent db (status code) = db
apply_intent_status p d intent db (reply intent_succeeded) =
    (mark_deposit_succeeded_if_pending p.conn p.now intent db).1
apply_intent_status p d intent db (reply intent_canceled) =
    (mark_deposit_failed_if_pending p.conn p.now d.id "canceled" db).1
apply_intent_status p d intent db (reply intent_in_progress) = db

abbrev pub poll_intent : Polling → Deposit → TransfersDb → Option ℕ → TransfersDb
poll_intent p d db none = db
poll_intent p d db (some intent) = apply_intent_status p d intent db p.answer

unfoldable pub reconcile_pending_deposit_with_intent : Polling → Deposit → TransfersDb → TransfersDb
reconcile_pending_deposit_with_intent p d db = poll_intent p d db d.stripe_payment_intent_id

unfoldable pub poll_each : (Deposit → Polling) → List Deposit → TransfersDb → TransfersDb
poll_each f [] db = db
poll_each f (d ∷ ds) db = poll_each f ds (reconcile_pending_deposit_with_intent (f d) d db)

abbrev pub poll_listed : (Deposit → Polling) → TransfersDb → Result (List Deposit) → TransfersDb
poll_listed f db (err e) = db
poll_listed f db (ok ds) = poll_each f ds db

unfoldable pub reconcile_pending_deposits_with_intent :
    Conn → ℕ → ℕ → (Deposit → Polling) → TransfersDb → TransfersDb
reconcile_pending_deposits_with_intent c now stale_after f db =
    poll_listed f db (get_pending_deposits_with_intent_before c (now - stale_after) db)

unfoldable pub fail_each : (Deposit → Conn) → ℕ → List Deposit → TransfersDb → TransfersDb
fail_each f now [] db = db
fail_each f now (d ∷ ds) db =
    fail_each f now ds
      (mark_deposit_failed_if_orphaned (f d) now d.id "abandoned_before_payment_intent" db).1

abbrev pub fail_listed : (Deposit → Conn) → ℕ → TransfersDb → Result (List Deposit) → TransfersDb
fail_listed f now db (err e) = db
fail_listed f now db (ok ds) = fail_each f now ds db

unfoldable pub reconcile_orphaned_pending_deposits :
    Conn → ℕ → ℕ → (Deposit → Conn) → TransfersDb → TransfersDb
reconcile_orphaned_pending_deposits c now stale_after f db =
    fail_listed f now db (get_orphaned_pending_deposits c (now - stale_after) db)

-- What one pass meets: its time, the queries' connections, and what each deposit meets.
pub record Pass : Type 0 where
  pub now : ℕ
  pub succeeded_conn : Conn
  pub pending_conn : Conn
  pub orphaned_conn : Conn
  pub crediting : Deposit → Crediting
  pub polling : Deposit → Polling
  pub failing : Deposit → Conn

abbrev pub with_service : Bank → TransfersDb → Bank
with_service b db = record b { service = db }

unfoldable pub reconcile_deposits_once : Pass → ℕ → Bank → Bank
reconcile_deposits_once p stale_after b =
    let credited = credit_succeeded_deposits p.succeeded_conn p.crediting b in
    let polled =
      reconcile_pending_deposits_with_intent p.pending_conn p.now stale_after p.polling
        credited.service in
    with_service credited
      (reconcile_orphaned_pending_deposits p.orphaned_conn p.now stale_after p.failing polled)
