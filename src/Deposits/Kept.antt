-- ===== src/Deposits/Kept.antt =====
-- reconcileDepositsOnce (deposit_reconcile.go) and the credited deposits.
use neo_bank.Prelude.{ℕ, refl, inl, List, [], ◌∷◌, ◌-◌, Option, none, some, All}
use neo_bank.Prelude.Db.{Result, ok, err, Conn}
use neo_bank.Prelude.Rpc.{Reply, reply, status}
use neo_bank.Ledger.State.{Entry}
use neo_bank.Transfers.State.{Deposit, TransfersDb}
use neo_bank.Transfers.Settle.{Bank}
use neo_bank.Deposits.Rows.{
  mark_deposit_failed_if_pending, mark_deposit_succeeded_if_pending,
  mark_deposit_failed_if_orphaned, get_succeeded_deposits, get_pending_deposits_with_intent_before,
  get_orphaned_pending_deposits,
}
use neo_bank.Deposits.Credit.{
  credit_listed, credit_succeeded_deposits, Polling, intent_succeeded, intent_canceled,
  intent_in_progress, IntentStatus, apply_intent_status, poll_intent,
  reconcile_pending_deposit_with_intent, poll_each, poll_listed,
  reconcile_pending_deposits_with_intent, fail_each, fail_listed,
  reconcile_orphaned_pending_deposits, Pass, reconcile_deposits_once, Crediting,
}
use neo_bank.Deposits.Backed.{IsBackedBy, IsBacked, exec_update-Backed, credit_each-IsBacked}

module _ (es : List Entry) where
  abbrev pub AllBacked : TransfersDb → Type 0
  AllBacked db = All (IsBackedBy es) db.deposits

  poll_each-Backed :
      (f : Deposit → Polling) (ds : List Deposit) (db : TransfersDb)
      → AllBacked db
      → AllBacked (poll_each f ds db)
  unfolding poll_each reconcile_pending_deposit_with_intent mark_deposit_failed_if_pending
      mark_deposit_succeeded_if_pending
  poll_each-Backed f [] db a = a
  poll_each-Backed f (d ∷ ds) db a =
      poll_each-Backed f ds _ (by_intent (f d) d.stripe_payment_intent_id)
    where
      by_answer :
          (p : Polling) (intent : ℕ) (q : Reply IntentStatus)
          → AllBacked (apply_intent_status p d intent db q)
      by_answer p intent (status code) = a
      by_answer p intent (reply intent_succeeded) =
          exec_update-Backed es p.conn _ _ db (λ d' _. inl refl) a
      by_answer p intent (reply intent_canceled) =
          exec_update-Backed es p.conn _ _ db (λ d' _. inl refl) a
      by_answer p intent (reply intent_in_progress) = a

      by_intent : (p : Polling) (o : Option ℕ) → AllBacked (poll_intent p d db o)
      by_intent p none = a
      by_intent p (some intent) = by_answer p intent p.answer

  fail_each-Backed :
      (f : Deposit → Conn) (now : ℕ) (ds : List Deposit) (db : TransfersDb)
      → AllBacked db
      → AllBacked (fail_each f now ds db)
  unfolding fail_each mark_deposit_failed_if_orphaned
  fail_each-Backed f now [] db a = a
  fail_each-Backed f now (d ∷ ds) db a =
      fail_each-Backed f now ds _ (exec_update-Backed es (f d) _ _ db (λ d' _. inl refl) a)

  poll_listed-Backed :
      (f : Deposit → Polling) (db : TransfersDb) (r : Result (List Deposit))
      → AllBacked db
      → AllBacked (poll_listed f db r)
  poll_listed-Backed f db (err e) a = a
  poll_listed-Backed f db (ok ds) a = poll_each-Backed f ds db a

  fail_listed-Backed :
      (f : Deposit → Conn) (now : ℕ) (db : TransfersDb) (r : Result (List Deposit))
      → AllBacked db
      → AllBacked (fail_listed f now db r)
  fail_listed-Backed f now db (err e) a = a
  fail_listed-Backed f now db (ok ds) a = fail_each-Backed f now ds db a

  polled-Backed :
      (c : Conn) (now stale_after : ℕ) (f : Deposit → Polling) (db : TransfersDb)
      → AllBacked db
      → AllBacked (reconcile_pending_deposits_with_intent c now stale_after f db)
  unfolding reconcile_pending_deposits_with_intent
  polled-Backed c now stale_after f db =
      poll_listed-Backed f db (get_pending_deposits_with_intent_before c (now - stale_after) db)

  failed-Backed :
      (c : Conn) (now stale_after : ℕ) (f : Deposit → Conn) (db : TransfersDb)
      → AllBacked db
      → AllBacked (reconcile_orphaned_pending_deposits c now stale_after f db)
  unfolding reconcile_orphaned_pending_deposits
  failed-Backed c now stale_after f db =
      fail_listed-Backed f now db (get_orphaned_pending_deposits c (now - stale_after) db)

credit_listed-IsBacked :
    (f : Deposit → Crediting) (b : Bank) (r : Result (List Deposit))
    → IsBacked b
    → IsBacked (credit_listed f b r)
credit_listed-IsBacked f b (err e) a = a
credit_listed-IsBacked f b (ok ds) a = credit_each-IsBacked f ds b a

-- If the ledger's log holds, for every credited deposit, the transaction that its row names under
-- the deposit's id, it does so after a pass of the deposit worker, whatever each call and each
-- transaction of the pass ends in.
pub reconcile_deposits_once-IsBacked :
    (p : Pass) (stale_after : ℕ) (b : Bank)
    → IsBacked b
    → IsBacked (reconcile_deposits_once p stale_after b)
unfolding reconcile_deposits_once credit_succeeded_deposits
reconcile_deposits_once-IsBacked p stale_after b a =
    let credited = credit_succeeded_deposits p.succeeded_conn p.crediting b in
    let es = credited.ledger.entries in
    failed-Backed es p.orphaned_conn p.now stale_after p.failing
      (reconcile_pending_deposits_with_intent p.pending_conn p.now stale_after p.polling
        credited.service)
      (polled-Backed es p.pending_conn p.now stale_after p.polling credited.service (
        credit_listed-IsBacked p.crediting b (get_succeeded_deposits p.succeeded_conn b.service) a))
