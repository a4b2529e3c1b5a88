-- ===== src/Deposits/Once.antt =====
-- processStripeEvent (webhook.go) and processed_stripe_events.
use neo_bank.Prelude.{
  ℕ, ◌≡◌, refl, Bool, true, false, ◌∷◌, Option, none, some, String, if◌then◌else◌, arith,
}
use neo_bank.Prelude.Db.{
  Result, ok, err, unique_violation, OnOk, OnOk-bind, OnOk-step, OnOk-stmt, OnOk-apply, Conn, begin,
  Work, roll_back, write, transaction, CommitFate, committed, rolled_back, ack_lost, commit,
}
use neo_bank.Prelude.Rpc.{Reply, reply, status}
use neo_bank.Ledger.State.{LedgerDb}
use neo_bank.Transfers.State.{Deposit, DepositStatus, TransfersDb}
use neo_bank.Transfers.Settle.{Bank}
use neo_bank.Deposits.Webhook.{
  StripePayload, payment_intent_succeeded, payment_intent_payment_failed, charge_refunded,
  undecodable_intent, undecodable_charge, other_event, StripeEvent, Delivery,
  record_processed_event, is_processed, apply_stripe_event, mark_deposit_succeeded,
  mark_deposit_failed, process_local_event, record_processed_event_standalone,
  record_processed_event_and_update_deposit, after_reversal, refund_by_status, refund_found,
  process_charge_refunded_event, process_payload, process_stripe_event, Done,
}

-- A predicate of the tables that a unit of work writes.
abbrev OnWritten : {S A : Type 0} → (S → Type 0) → Work S A → Type 0
OnWritten P (roll_back a) = Unit {0}
OnWritten P (write a s) = P s

transaction-same :
    {S A : Type 0} (c : Conn) (s : S) (w : Result (Work S A))
    → OnOk (OnWritten (λ s'. s' ≡ s)) w
    → (transaction c s w).1 ≡ s
transaction-same c s (err e) h = refl
transaction-same c s (ok (roll_back a)) h = refl
transaction-same c s (ok (write a s')) h = by_fate c.commit_fate
  where
    by_fate : (f : CommitFate) → (commit f s s' a).1 ≡ s
    by_fate committed = h
    by_fate rolled_back = refl
    by_fate ack_lost = h

-- A predicate of the tables that a unit of work leaves behind when it is acknowledged.
abbrev IsLeft : {S A : Type 0} → (S → Type 0) → Work S A → Type 0
IsLeft P (roll_back a) = ⊥
IsLeft P (write a s) = P s

transaction-acknowledged :
    {S A : Type 0} (P : S → Type 0) (c : Conn) (s : S) (w : Result (Work S A)) (a : A)
    → OnOk (IsLeft P) w
    → (transaction c s w).0 ≡ ok a
    → P (transaction c s w).1
transaction-acknowledged P c s (err e) a h q = cc
transaction-acknowledged P c s (ok (roll_back x)) a h q = elim h [ ]
transaction-acknowledged P c s (ok (write x s')) a h q = by_fate c.commit_fate q
  where
    by_fate : (f : CommitFate) → (commit f s s' x).0 ≡ ok a → P (commit f s s' x).1
    by_fate committed q = h
    by_fate rolled_back q = cc
    by_fate ack_lost q = cc

module _ (c : Conn) (now : ℕ) (event : StripeEvent) (db : TransfersDb) where
  -- What recording gives: the event was not there, and now is.
  abbrev IsRecorded : TransfersDb → Type 0
  IsRecorded db' = (is_processed event.id db ≡ false) × (is_processed event.id db' ≡ true)

  record-IsRecorded : OnOk IsRecorded (record_processed_event c 1 event db)
  unfolding record_processed_event
  record-IsRecorded = OnOk-stmt IsRecorded c 1 _ (by_duplicate (is_processed event.id db) refl)
    where
      by_duplicate :
          (b : Bool)
          → is_processed event.id db ≡ b
          → OnOk IsRecorded (
              if b
              then err unique_violation
              else ok
                  (record db { processed_stripe_events = event.id ∷ db.processed_stripe_events }))
      by_duplicate true e = tt
      by_duplicate false e = (e, ground arith)

  apply-events :
      (payload : StripePayload) (db' : TransfersDb)
      → IsRecorded db'
      → OnOk IsRecorded (apply_stripe_event c now payload db')
  unfolding apply_stripe_event mark_deposit_succeeded mark_deposit_failed
  apply-events (payment_intent_succeeded intent) db' h = OnOk-stmt IsRecorded c 2 _ h
  apply-events (payment_intent_payment_failed intent reason) db' h = OnOk-stmt IsRecorded c 2 _ h
  apply-events (charge_refunded intent) db' h = h
  apply-events undecodable_intent db' h = tt
  apply-events undecodable_charge db' h = h
  apply-events other_event db' h = h

  -- A transaction that records the event: it is refused if the event was there, and an
  -- acknowledged one leaves it there.
  abbrev IsOnce : Done → Type 0
  IsOnce r =
      ((is_processed event.id db ≡ true) → r.1 ≡ db)
      × (r.0 ≡ ok tt → is_processed event.id r.1 ≡ true)

  transaction-IsOnce :
      (w : Result (Work TransfersDb (Unit {0})))
      → OnOk (IsLeft IsRecorded) w
      → IsOnce (transaction c db w)
  transaction-IsOnce w h = (
    λ known. transaction-same c db w (refused known w h),
    λ q. (transaction-acknowledged IsRecorded c db w tt h q).1,
  )
    where
      refused :
          is_processed event.id db ≡ true
          → (w : Result (Work TransfersDb (Unit {0}))) → OnOk (IsLeft IsRecorded) w
          → OnOk (OnWritten (λ s'. s' ≡ db)) w
      refused known (err e) h = tt
      refused known (ok (roll_back x)) h = tt
      refused known (ok (write x s')) h = cc (known, h.0)

  standalone-IsOnce : IsOnce (record_processed_event_standalone c event db)
  unfolding record_processed_event_standalone
  standalone-IsOnce = transaction-IsOnce _ (
      OnOk-bind (IsLeft IsRecorded) (begin c) _ λ _ _.
        OnOk-bind (IsLeft IsRecorded) (record_processed_event c 1 event db) _
          λ db' e. OnOk-apply IsRecorded _ record-IsRecorded e)

  status-IsOnce :
      (id : ℕ) (s : DepositStatus) (reason : Option String)
      → IsOnce (record_processed_event_and_update_deposit c now event id s reason db)
  unfolding record_processed_event_and_update_deposit
  status-IsOnce id s reason = transaction-IsOnce _ (
      OnOk-bind (IsLeft IsRecorded) (begin c) _ λ _ _.
        OnOk-bind (IsLeft IsRecorded) (record_processed_event c 1 event db) _ λ db' e.
          OnOk-step (IsLeft IsRecorded) c 2 (ok tt) _
            λ _ _. OnOk-apply IsRecorded _ record-IsRecorded e)

  local-IsOnce : IsOnce (process_local_event c now event db)
  unfolding process_local_event
  local-IsOnce = transaction-IsOnce _ (
      OnOk-bind (IsLeft IsRecorded) (begin c) _ λ _ _.
        OnOk-bind (IsLeft IsRecorded) (record_processed_event c 1 event db) _ λ db' e.
          OnOk-bind (IsLeft IsRecorded) (apply_stripe_event c now event.payload db') _ λ db'' e'.
            OnOk-apply IsRecorded _
              (apply-events event.payload db' (OnOk-apply IsRecorded _ record-IsRecorded e)) e')

module _ (reversal_reference : ℕ → ℕ) (x : Delivery) (event : StripeEvent) (b : Bank) where
  abbrev IsOnceBeside : Result (Unit {0}) × Bank → Type 0
  IsOnceBeside r =
      ((is_processed event.id b.service ≡ true) → r.1.service ≡ b.service)
      × (r.0 ≡ ok tt → is_processed event.id r.1.service ≡ true)

  by_status-IsOnce :
      (d : Deposit) (s : DepositStatus)
      → IsOnceBeside (refund_by_status reversal_reference x event d s b)
  by_status-IsOnce d DepositStatus.pending = standalone-IsOnce x.conn x.now event b.service
  by_status-IsOnce d DepositStatus.failed = standalone-IsOnce x.conn x.now event b.service
  by_status-IsOnce d DepositStatus.refunded = standalone-IsOnce x.conn x.now event b.service
  by_status-IsOnce d DepositStatus.succeeded = status-IsOnce x.conn x.now event b.service d.id _ _
  by_status-IsOnce d DepositStatus.credited = by_reply _
    where
      by_reply :
          (q : Reply (Option ℕ) × LedgerDb) → IsOnceBeside (after_reversal x event d.id b.service q)
      by_reply (status code, l) = (λ _. refl, λ q. cc)
      by_reply (reply o, l) = status-IsOnce x.conn x.now event b.service d.id _ _

  found-IsOnce :
      (r : Result (Option Deposit)) → IsOnceBeside (refund_found reversal_reference x event b r)
  found-IsOnce (err e) = (λ _. refl, λ q. cc)
  found-IsOnce (ok none) = standalone-IsOnce x.conn x.now event b.service
  found-IsOnce (ok (some d)) = by_status-IsOnce d d.status

  payload-IsOnce :
      (payload : StripePayload)
      → IsOnceBeside (process_payload reversal_reference x event payload b)
  unfolding process_charge_refunded_event
  payload-IsOnce (charge_refunded none) = standalone-IsOnce x.conn x.now event b.service
  payload-IsOnce (charge_refunded (some intent)) = found-IsOnce _
  payload-IsOnce undecodable_charge = (λ _. refl, λ q. cc)
  payload-IsOnce (payment_intent_succeeded i) = local-IsOnce x.conn x.now event b.service
  payload-IsOnce (payment_intent_payment_failed i r) = local-IsOnce x.conn x.now event b.service
  payload-IsOnce undecodable_intent = local-IsOnce x.conn x.now event b.service
  payload-IsOnce other_event = local-IsOnce x.conn x.now event b.service

  pub process_stripe_event-IsOnce : IsOnceBeside (process_stripe_event reversal_reference x event b)
  unfolding process_stripe_event
  process_stripe_event-IsOnce = payload-IsOnce event.payload

-- After a delivery of an event that was processed, any later delivery of it, whatever happens to
-- it, leaves every table of the service as it is.
pub process_stripe_event_again :
    (reversal_reference : ℕ → ℕ) (x y : Delivery) (event : StripeEvent) (b : Bank)
    → (process_stripe_event reversal_reference x event b).0 ≡ ok tt
    → let b' = (process_stripe_event reversal_reference x event b).1 in
      (process_stripe_event reversal_reference y event b').1.service ≡ b'.service
process_stripe_event_again reversal_reference x y event b q =
    let b' = (process_stripe_event reversal_reference x event b).1 in
    (process_stripe_event-IsOnce reversal_reference y event b').0
      ((process_stripe_event-IsOnce reversal_reference x event b).1 q)
