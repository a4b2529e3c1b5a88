-- ===== src/Deposits/Webhook.antt =====
-- webhook.go: Stripe's events, each taken once. Signature verification and JSON decoding are not
-- part of the repository: an event comes decoded, or marked as one whose payload does not decode.
-- The UUID that reversalReference derives by MD5 is a parameter.
use neo_bank.Prelude.{ℕ, Bool, ◌∷◌, Option, none, some, String, ◌==◌, if◌then◌else◌, exists}
use neo_bank.Prelude.Db.{
  Result, ok, err, unique_violation, malformed, remote_call, ◌>>=◌, ◌>>◌, Conn, stmt, begin, write,
  transaction,
}
use neo_bank.Prelude.Rpc.{Reply, reply, status, Network, remote}
use neo_bank.Ledger.State.{LedgerDb}
use neo_bank.Ledger.Server.{Execution, serve_reverse_deposit}
use neo_bank.Transfers.State.{Deposit, DepositStatus, TransfersDb}
use neo_bank.Transfers.Settle.{Bank}
use neo_bank.Deposits.Rows.{
  has_deposit_id, has_intent, succeed, fail, updated, get_deposit_by_stripe_payment_intent_id,
}

-- Of a PaymentIntent its id, of its failure the reason, of a charge its PaymentIntent's id.
pub data StripePayload : Type 0 where
  payment_intent_succeeded : ℕ → StripePayload
  payment_intent_payment_failed : ℕ → String → StripePayload
  charge_refunded : Option ℕ → StripePayload
  undecodable_intent undecodable_charge other_event : StripePayload

pub record StripeEvent : Type 0 where
  pub id : ℕ
  pub payload : StripePayload

-- LastPaymentError, if there is one: its code and its message, empty ones none.
unfoldable pub payment_intent_failure_reason : Option (Option String × Option String) → String
payment_intent_failure_reason none = "unknown"
payment_intent_failure_reason (some (some code, msg)) = code
payment_intent_failure_reason (some (none, some msg)) = msg
payment_intent_failure_reason (some (none, none)) = "unknown"

-- The unique constraint on event_id; its violation is errDuplicateStripeEvent.
abbrev pub is_processed : ℕ → TransfersDb → Bool
is_processed event db = exists (λ e. e == event) db.processed_stripe_events

unfoldable pub record_processed_event : Conn → ℕ → StripeEvent → TransfersDb → Result TransfersDb
record_processed_event c k event db = stmt c k (
    if is_processed event.id db
    then err unique_violation
    else ok (record db { processed_stripe_events = event.id ∷ db.processed_stripe_events }))

unfoldable pub mark_deposit_succeeded : Conn → ℕ → ℕ → TransfersDb → Result TransfersDb
mark_deposit_succeeded c now intent db =
    stmt c 2 (ok (updated (has_intent intent) (succeed now) db))

unfoldable pub mark_deposit_failed : Conn → ℕ → ℕ → String → TransfersDb → Result TransfersDb
mark_deposit_failed c now intent reason db =
    stmt c 2 (ok (updated (has_intent intent) (fail now reason) db))

-- A charge.refunded event never gets here.
unfoldable pub apply_stripe_event : Conn → ℕ → StripePayload → TransfersDb → Result TransfersDb
apply_stripe_event c now (payment_intent_succeeded intent) db =
    mark_deposit_succeeded c now intent db
apply_stripe_event c now (payment_intent_payment_failed intent reason) db =
    mark_deposit_failed c now intent reason db
apply_stripe_event c now undecodable_intent db = err malformed
apply_stripe_event c now _ db = ok db

abbrev pub Done : Type 0
Done = Result (Unit {0}) × TransfersDb

unfoldable pub process_local_event : Conn → ℕ → StripeEvent → TransfersDb → Done
process_local_event c now event db = transaction c db (do
  begin c
  db' ← record_processed_event c 1 event db
  db'' ← apply_stripe_event c now event.payload db'
  ok (write tt db''))

unfoldable pub record_processed_event_standalone : Conn → StripeEvent → TransfersDb → Done
record_processed_event_standalone c event db =
    transaction c db (do begin c; db' ← record_processed_event c 1 event db; ok (write tt db'))

abbrev pub set_status : ℕ → DepositStatus → Option String → Deposit → Deposit
set_status now s reason d = record d { status = s; failure_reason = reason; updated_at = now }

unfoldable pub record_processed_event_and_update_deposit :
    Conn → ℕ → StripeEvent → ℕ → DepositStatus → Option String → TransfersDb → Done
record_processed_event_and_update_deposit c now event id s reason db = transaction c db (do
  begin c
  db' ← record_processed_event c 1 event db
  stmt c 2 (ok tt)
  ok (write tt (updated (has_deposit_id id) (set_status now s reason) db')))

-- What one delivery of an event meets: the lookup's connection, the ledger call's network and
-- execution, and the transaction's connection and time.
pub record Delivery : Type 0 where
  pub lookup_conn : Conn
  pub network : Network
  pub execution : Execution
  pub conn : Conn
  pub now : ℕ

abbrev pub beside : LedgerDb → Done → Result (Unit {0}) × Bank
beside l (r, db) = (r, record { ledger = l; service = db })

abbrev pub after_reversal :
    Delivery
    → StripeEvent
    → ℕ
    → TransfersDb
    → Reply (Option ℕ) × LedgerDb
    → Result (Unit {0}) × Bank
after_reversal x event id db (status code, l) =
    (err remote_call, record { ledger = l; service = db })
after_reversal x event id db (reply transaction_id, l) =
    beside l (
      record_processed_event_and_update_deposit x.conn x.now event id DepositStatus.refunded none
        db)

module _ (reversal_reference : ℕ → ℕ) where
  abbrev pub refund_by_status :
      Delivery → StripeEvent → Deposit → DepositStatus → Bank → Result (Unit {0}) × Bank
  refund_by_status x event d DepositStatus.credited b = after_reversal x event d.id b.service (
      remote x.network
        (serve_reverse_deposit x.execution d.account_id d.amount (some (reversal_reference d.id)))
        b.ledger)
  refund_by_status x event d DepositStatus.succeeded b = beside b.ledger (
      record_processed_event_and_update_deposit x.conn x.now event d.id DepositStatus.failed
        (some "refunded_before_credit") b.service)
  refund_by_status x event d _ b =
      beside b.ledger (record_processed_event_standalone x.conn event b.service)

  abbrev pub refund_found :
      Delivery → StripeEvent → Bank → Result (Option Deposit) → Result (Unit {0}) × Bank
  refund_found x event b (err e) = (err e, b)
  refund_found x event b (ok none) =
      beside b.ledger (record_processed_event_standalone x.conn event b.service)
  refund_found x event b (ok (some d)) = refund_by_status x event d d.status b

  unfoldable pub process_charge_refunded_event :
      Delivery → StripeEvent → Option ℕ → Bank → Result (Unit {0}) × Bank
  process_charge_refunded_event x event none b =
      beside b.ledger (record_processed_event_standalone x.conn event b.service)
  process_charge_refunded_event x event (some intent) b =
      refund_found x event b
        (get_deposit_by_stripe_payment_intent_id x.lookup_conn intent b.service)

  abbrev pub process_payload :
      Delivery → StripeEvent → StripePayload → Bank → Result (Unit {0}) × Bank
  process_payload x event (charge_refunded intent) b =
      process_charge_refunded_event x event intent b
  process_payload x event undecodable_charge b = (err malformed, b)
  process_payload x event _ b = beside b.ledger (process_local_event x.conn x.now event b.service)

  unfoldable pub process_stripe_event : Delivery → StripeEvent → Bank → Result (Unit {0}) × Bank
  process_stripe_event x event b = process_payload x event event.payload b

  abbrev pub webhook_status : Result (Unit {0}) → ℕ
  webhook_status (ok u) = 200
  webhook_status (err unique_violation) = 200
  webhook_status (err _) = 500

  -- The event that the signature check yields, if the signature is valid.
  unfoldable pub stripe_webhook_handler : Delivery → Option StripeEvent → Bank → ℕ × Bank
  stripe_webhook_handler x none b = (400, b)
  stripe_webhook_handler x (some event) b =
      let (r, b') = process_stripe_event x event b in (webhook_status r, b')
