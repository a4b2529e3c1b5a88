-- ===== src/Deposits/Rows.antt =====
-- The reads and guarded writers of deposit.go. A pool.Exec is a transaction of one statement.
-- Where ORDER BY updated_at leaves ties, the rows keep the table's order, as SQL allows.
use neo_bank.Prelude.{
  ℕ, Bool, true, false, ◌&&◌, List, Option, none, some, String, ◌==◌, ltb, find, select, update,
  count, not,
}
use neo_bank.Prelude.Sorting.{sort}
use neo_bank.Prelude.Db.{
  Result, ok, ◌>>=◌, ◌>>◌, Conn, stmt, begin, Work, roll_back, write, transaction,
}
use neo_bank.Outbox.State.{Draw, insert_event}
use neo_bank.Transfers.State.{Deposit, DepositStatus, Event, deposit_credited, TransfersDb}
use neo_bank.Transfers.Mark.{uuid_text}

abbrev pub is_pending : DepositStatus → Bool
is_pending DepositStatus.pending = true
is_pending _ = false

abbrev pub is_succeeded : DepositStatus → Bool
is_succeeded DepositStatus.succeeded = true
is_succeeded _ = false

abbrev pub has_deposit_id : ℕ → Deposit → Bool
has_deposit_id id d = d.id == id

-- WHERE id = $2 AND status = 'pending', and with 'succeeded'.
abbrev pub is_pending_deposit : ℕ → Deposit → Bool
is_pending_deposit id d = has_deposit_id id d && is_pending d.status

abbrev pub is_succeeded_deposit : ℕ → Deposit → Bool
is_succeeded_deposit id d = has_deposit_id id d && is_succeeded d.status

-- stripe_payment_intent_id = $1: a NULL equals nothing.
abbrev pub intent_is : ℕ → Option ℕ → Bool
intent_is intent none = false
intent_is intent (some n) = n == intent

abbrev pub has_intent : ℕ → Deposit → Bool
has_intent intent d = intent_is intent d.stripe_payment_intent_id

abbrev pub is_null : {A : Type 0} → Option A → Bool
is_null none = true
is_null (some a) = false

abbrev pub credit : ℕ → ℕ → Deposit → Deposit
credit now l d = record d {
  status = DepositStatus.credited;
  ledger_transaction_id = some l;
  updated_at = now;
}

abbrev pub succeed : ℕ → Deposit → Deposit
succeed now d = record d { status = DepositStatus.succeeded; updated_at = now }

abbrev pub fail : ℕ → String → Deposit → Deposit
fail now reason d = record d {
  status = DepositStatus.failed;
  failure_reason = some reason;
  updated_at = now;
}

abbrev pub credited_event : ℕ → Deposit → Event
credited_event l d = deposit_credited d.id d.account_id d.amount l

-- UPDATE deposits, and how many rows it changed.
abbrev pub updated : (Deposit → Bool) → (Deposit → Deposit) → TransfersDb → TransfersDb
updated p change db = record db { deposits = update p change db.deposits }

-- The row that UPDATE ... RETURNING found: none is ErrNoRows, which is no error here.
abbrev pub queue_credited :
    Conn → Draw → ℕ → ℕ → TransfersDb → Option Deposit → Result (Work TransfersDb Bool)
queue_credited c draw id l db none = ok (roll_back false)
queue_credited c draw id l db (some d) = do
  stmt c 2 (ok tt)
  stmt c 3 (ok tt)
  ok (
      write true (record db {
        deposits = update (is_succeeded_deposit id) (credit draw.now l) db.deposits;
        outbox = insert_event draw (credited_event l d) d.account_id db.outbox;
      }))

unfoldable pub mark_deposit_credited_if_succeeded :
    Conn → Draw → ℕ → Option ℕ → TransfersDb → Result Bool × TransfersDb
mark_deposit_credited_if_succeeded c draw id ledger_transaction_id db = transaction c db (do
  begin c
  l ← uuid_text ledger_transaction_id
  d ← stmt c 1 (ok (find (is_succeeded_deposit id) db.deposits))
  queue_credited c draw id l db d)

-- One UPDATE outside a transaction block; `true` if it changed a row.
abbrev pub exec_update :
    Conn → (Deposit → Bool) → (Deposit → Deposit) → TransfersDb → Result Bool × TransfersDb
exec_update c p change db =
    transaction c db (stmt c 0 (ok (write (not (count p db.deposits == 0)) (updated p change db))))

unfoldable pub mark_deposit_failed_if_pending :
    Conn → ℕ → ℕ → String → TransfersDb → Result Bool × TransfersDb
mark_deposit_failed_if_pending c now id reason db =
    exec_update c (is_pending_deposit id) (fail now reason) db

-- WHERE stripe_payment_intent_id = $1 AND status = 'pending'
abbrev pub is_pending_intent : ℕ → Deposit → Bool
is_pending_intent intent d = has_intent intent d && is_pending d.status

unfoldable pub mark_deposit_succeeded_if_pending :
    Conn → ℕ → ℕ → TransfersDb → Result Bool × TransfersDb
mark_deposit_succeeded_if_pending c now intent db =
    exec_update c (is_pending_intent intent) (succeed now) db

-- WHERE id = $2 AND status = 'pending' AND stripe_payment_intent_id IS NULL
abbrev pub is_orphan : ℕ → Deposit → Bool
is_orphan id d = is_pending_deposit id d && is_null d.stripe_payment_intent_id

unfoldable pub mark_deposit_failed_if_orphaned :
    Conn → ℕ → ℕ → String → TransfersDb → Result Bool × TransfersDb
mark_deposit_failed_if_orphaned c now id reason db =
    exec_update c (is_orphan id) (fail now reason) db

abbrev pub earlier : Deposit → Deposit → Bool
earlier a b = ltb a.updated_at b.updated_at

unfoldable pub get_succeeded_deposits : Conn → TransfersDb → Result (List Deposit)
get_succeeded_deposits c db =
    stmt c 0 (ok (sort earlier (select (λ d. is_succeeded d.status) db.deposits)))

unfoldable pub get_pending_deposits_with_intent_before :
    Conn → ℕ → TransfersDb → Result (List Deposit)
get_pending_deposits_with_intent_before c before db = stmt c 0 (
    ok (
      sort earlier (
        select
          (λ d.
            is_pending d.status
            && not (is_null d.stripe_payment_intent_id)
            && ltb d.updated_at before)
          db.deposits)))

unfoldable pub get_orphaned_pending_deposits : Conn → ℕ → TransfersDb → Result (List Deposit)
get_orphaned_pending_deposits c before db = stmt c 0 (
    ok (
      sort earlier (
        select
          (λ d.
            is_pending d.status && is_null d.stripe_payment_intent_id && ltb d.updated_at before)
          db.deposits)))

unfoldable pub get_deposit_by_stripe_payment_intent_id :
    Conn → ℕ → TransfersDb → Result (Option Deposit)
get_deposit_by_stripe_payment_intent_id c intent db =
    stmt c 0 (ok (find (has_intent intent) db.deposits))

-- A text that is no UUID, `none`, is not found.
abbrev find_by_text : Option ℕ → TransfersDb → Option Deposit
find_by_text none db = none
find_by_text (some id) db = find (has_deposit_id id) db.deposits

unfoldable pub get_deposit_by_id : Conn → Option ℕ → TransfersDb → Result (Option Deposit)
get_deposit_by_id c id db = stmt c 0 (ok (find_by_text id db))
