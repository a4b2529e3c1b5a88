-- ===== src/Deposits/Delivered.antt =====
-- processStripeEvent (webhook.go) and the credited deposits.
use neo_bank.Prelude.{
  ℕ, ◌≡◌, refl, inl, Bool, true, false, List, ◌∷◌, Option, none, some, String, if◌then◌else◌,
}
use neo_bank.Prelude.Db.{
  Result, ok, err, unique_violation, OnOk, OnOk-bind, OnOk-step, OnOk-stmt, OnOk-apply, Conn, begin,
}
use neo_bank.Prelude.Rpc.{Reply, reply, status}
use neo_bank.Prelude.Members.{All-map}
use neo_bank.Ledger.State.{LedgerDb, Entry}
use neo_bank.Ledger.Post.{reverse_deposit, genesis_account_id}
use neo_bank.Ledger.Server.{serve_reverse_deposit}
use neo_bank.Transfers.State.{Deposit, DepositStatus, TransfersDb}
use neo_bank.Transfers.Settle.{Bank}
use neo_bank.Deposits.Rows.{has_deposit_id, has_intent, succeed, fail}
use neo_bank.Deposits.Webhook.{
  StripePayload, payment_intent_succeeded, payment_intent_payment_failed, charge_refunded,
  undecodable_intent, undecodable_charge, other_event, StripeEvent, Delivery,
  record_processed_event, is_processed, apply_stripe_event, mark_deposit_succeeded,
  mark_deposit_failed, process_local_event, record_processed_event_standalone,
  record_processed_event_and_update_deposit, set_status, after_reversal, refund_by_status,
  refund_found, process_charge_refunded_event, process_payload, process_stripe_event,
}
use neo_bank.Deposits.Backed.{
  is_credited, IsBackedBy, IsBacked, update-All, BackedWork, transaction-Backed, IsAnswered,
  remote-IsAnswered,
}
use neo_bank.Deposits.Kept.{AllBacked}

module _ (es : List Entry) (c : Conn) (now : ℕ) (event : StripeEvent) (db : TransfersDb)
    (a : AllBacked es db) where
  record-Backed : (k : ℕ) → OnOk (AllBacked es) (record_processed_event c k event db)
  unfolding record_processed_event
  record-Backed k = OnOk-stmt (AllBacked es) c k _ (by_duplicate (is_processed event.id db))
    where
      by_duplicate :
          (b : Bool)
          → OnOk (AllBacked es) (
              if b
              then err unique_violation
              else ok
                  (record db { processed_stripe_events = event.id ∷ db.processed_stripe_events }))
      by_duplicate true = tt
      by_duplicate false = a

  standalone-Backed : AllBacked es (record_processed_event_standalone c event db).1
  unfolding record_processed_event_standalone
  standalone-Backed = transaction-Backed es c db _ a (
      OnOk-bind (BackedWork es) (begin c) _ λ _ _.
        OnOk-bind (BackedWork es) (record_processed_event c 1 event db) _
          λ db' e. OnOk-apply (AllBacked es) _ (record-Backed 1) e)

  status-Backed :
      (id : ℕ) (s : DepositStatus) (reason : Option String)
      → is_credited s ≡ false
      → AllBacked es (record_processed_event_and_update_deposit c now event id s reason db).1
  unfolding record_processed_event_and_update_deposit
  status-Backed id s reason n = transaction-Backed es c db _ a (
      OnOk-bind (BackedWork es) (begin c) _ λ _ _.
        OnOk-bind (BackedWork es) (record_processed_event c 1 event db) _ λ db' e.
          OnOk-step (BackedWork es) c 2 (ok tt) _ λ _ _.
            update-All (IsBackedBy es) (has_deposit_id id) (set_status now s reason) (λ d _. inl n)
              db'.deposits (OnOk-apply (AllBacked es) _ (record-Backed 1) e))

  apply-Backed :
      (payload : StripePayload) (db' : TransfersDb)
      → AllBacked es db'
      → OnOk (AllBacked es) (apply_stripe_event c now payload db')
  unfolding apply_stripe_event mark_deposit_succeeded mark_deposit_failed
  apply-Backed (payment_intent_succeeded intent) db' h = OnOk-stmt (AllBacked es) c 2 _ (
      update-All (IsBackedBy es) (has_intent intent) (succeed now) (λ d _. inl refl) db'.deposits h)
  apply-Backed (payment_intent_payment_failed intent reason) db' h =
      OnOk-stmt (AllBacked es) c 2 _ (
        update-All (IsBackedBy es) (has_intent intent) (fail now reason) (λ d _. inl refl)
          db'.deposits h)
  apply-Backed (charge_refunded intent) db' h = h
  apply-Backed undecodable_intent db' h = tt
  apply-Backed undecodable_charge db' h = h
  apply-Backed other_event db' h = h

  local-Backed : AllBacked es (process_local_event c now event db).1
  unfolding process_local_event
  local-Backed = transaction-Backed es c db _ a (
      OnOk-bind (BackedWork es) (begin c) _ λ _ _.
        OnOk-bind (BackedWork es) (record_processed_event c 1 event db) _ λ db' e.
          OnOk-bind (BackedWork es) (apply_stripe_event c now event.payload db') _ λ db'' e'.
            OnOk-apply (AllBacked es) _
              (apply-Backed event.payload db' (OnOk-apply (AllBacked es) _ (record-Backed 1) e)) e')

module _ (reversal_reference : ℕ → ℕ) (x : Delivery) (event : StripeEvent) (b : Bank)
    (a : IsBacked b) where
  status_found-IsBacked :
      (d : Deposit) (s : DepositStatus)
      → IsBacked (refund_by_status reversal_reference x event d s b).1
  unfolding serve_reverse_deposit reverse_deposit
  status_found-IsBacked d DepositStatus.pending =
      standalone-Backed b.ledger.entries x.conn x.now event b.service a
  status_found-IsBacked d DepositStatus.failed =
      standalone-Backed b.ledger.entries x.conn x.now event b.service a
  status_found-IsBacked d DepositStatus.refunded =
      standalone-Backed b.ledger.entries x.conn x.now event b.service a
  status_found-IsBacked d DepositStatus.succeeded =
      status-Backed b.ledger.entries x.conn x.now event b.service a d.id DepositStatus.failed _ refl
  status_found-IsBacked d DepositStatus.credited = by_reply _ (
      remote-IsAnswered x.execution.ids x.execution.now d.account_id genesis_account_id d.amount
        (reversal_reference d.id) b.ledger x.execution.conn x.network)
    where
      by_reply :
          (q : Reply (Option ℕ) × LedgerDb)
          → IsAnswered (reversal_reference d.id) b.ledger q
          → IsBacked (after_reversal x event d.id b.service q).1
      by_reply (status code, l) h = All-map _ (IsBackedBy l.entries) h.0 b.service.deposits a
      by_reply (reply o, l) h =
          status-Backed l.entries x.conn x.now event b.service
            (All-map _ (IsBackedBy l.entries) h.0 b.service.deposits a) d.id DepositStatus.refunded
            none refl

  found-IsBacked :
      (r : Result (Option Deposit)) → IsBacked (refund_found reversal_reference x event b r).1
  found-IsBacked (err e) = a
  found-IsBacked (ok none) = standalone-Backed b.ledger.entries x.conn x.now event b.service a
  found-IsBacked (ok (some d)) = status_found-IsBacked d d.status

  payload-IsBacked :
      (payload : StripePayload) → IsBacked (process_payload reversal_reference x event payload b).1
  unfolding process_charge_refunded_event
  payload-IsBacked (charge_refunded none) =
      standalone-Backed b.ledger.entries x.conn x.now event b.service a
  payload-IsBacked (charge_refunded (some intent)) = found-IsBacked _
  payload-IsBacked undecodable_charge = a
  payload-IsBacked (payment_intent_succeeded i) =
      local-Backed b.ledger.entries x.conn x.now event b.service a
  payload-IsBacked (payment_intent_payment_failed i r) =
      local-Backed b.ledger.entries x.conn x.now event b.service a
  payload-IsBacked undecodable_intent = local-Backed b.ledger.entries x.conn x.now event b.service a
  payload-IsBacked other_event = local-Backed b.ledger.entries x.conn x.now event b.service a

  -- If the ledger's log holds, for every credited deposit, the transaction that its row names under
  -- the deposit's id, it does so after one delivery of any Stripe event, whatever its calls and
  -- transactions end in.
  pub process_stripe_event-IsBacked : IsBacked (process_stripe_event reversal_reference x event b).1
  unfolding process_stripe_event
  process_stripe_event-IsBacked = payload-IsBacked event.payload
