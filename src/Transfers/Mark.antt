-- ===== src/Transfers/Mark.antt =====
-- The writers of transfer.go that give a transfer a terminal status: each changes the row and
-- queues the event in one transaction. Statement 2 is GenerateEventID and the payload.
use neo_bank.Prelude.{
  ℕ, Bool, true, false, ◌&&◌, Option, none, some, String, ◌==◌, if◌then◌else◌, find, update, count,
}
use neo_bank.Prelude.Db.{
  Result, ok, err, no_rows, invalid_text, ◌>>=◌, ◌>>◌, Conn, stmt, begin, Work, roll_back, write,
  transaction,
}
use neo_bank.Outbox.State.{Draw, insert_event}
use neo_bank.Transfers.State.{
  Transfer, completed, failed, rejected, Event, transfer_completed, transfer_failed,
  transfer_rejected, TransfersDb, has_id, is_pending,
}

-- What a UUID column takes: the empty text is refused.
abbrev pub uuid_text : Option ℕ → Result ℕ
uuid_text none = err invalid_text
uuid_text (some n) = ok n

-- The row of UPDATE ... RETURNING.
abbrev pub returned : {A : Type 0} → Option A → Result A
returned none = err no_rows
returned (some a) = ok a

abbrev pub complete : ℕ → ℕ → Transfer → Transfer
complete now l t = record t { status = completed; ledger_transaction_id = some l; updated_at = now }

abbrev pub fail : ℕ → String → Transfer → Transfer
fail now reason t = record t { status = failed; failure_reason = some reason; updated_at = now }

abbrev pub reject : ℕ → String → Transfer → Transfer
reject now rule t = record t { status = rejected; failure_reason = some rule; updated_at = now }

abbrev pub completed_event : ℕ → Transfer → Event
completed_event l t = transfer_completed t.id t.sender_account_id t.recipient_account_id t.amount l

abbrev pub failed_event : String → Transfer → Event
failed_event reason t =
    transfer_failed t.id t.sender_account_id t.recipient_account_id t.amount reason

abbrev pub rejected_event : String → Transfer → Event
rejected_event rule t =
    transfer_rejected t.id t.sender_account_id t.recipient_account_id t.amount rule

-- The transaction that the three unconditional writers share.
unfoldable pub mark :
    Conn
    → Draw
    → ℕ
    → (Transfer → Transfer)
    → (Transfer → Event)
    → TransfersDb
    → Result (Work TransfersDb Transfer)
mark c d id change event db = do
  let rows = update (has_id id) change db.transfers
  t ← stmt c 1 (returned (find (has_id id) rows))
  stmt c 2 (ok tt)
  stmt c 3 (ok tt)
  ok (
      write t (record db {
        transfers = rows;
        outbox = insert_event d (event t) t.sender_account_id db.outbox;
      }))

unfoldable pub mark_transfer_completed :
    Conn → Draw → ℕ → Option ℕ → TransfersDb → Result Transfer × TransfersDb
mark_transfer_completed c d id ledger_transaction_id db = transaction c db (do
  begin c
  l ← uuid_text ledger_transaction_id
  mark c d id (complete d.now l) (completed_event l) db)

unfoldable pub mark_transfer_failed :
    Conn → Draw → ℕ → String → TransfersDb → Result Transfer × TransfersDb
mark_transfer_failed c d id reason db =
    transaction c db (do begin c; mark c d id (fail d.now reason) (failed_event reason) db)

unfoldable pub mark_transfer_rejected :
    Conn → Draw → ℕ → String → TransfersDb → Result Transfer × TransfersDb
mark_transfer_rejected c d id rule db =
    transaction c db (do begin c; mark c d id (reject d.now rule) (rejected_event rule) db)

-- WHERE id = $2 AND status = 'pending'
abbrev pub is_pending_id : ℕ → Transfer → Bool
is_pending_id id t = has_id id t && is_pending t.status

-- The transaction that the two guarded writers share: `false` if no pending row was there.
unfoldable pub mark_if_pending :
    Conn
    → Draw
    → Transfer
    → (Transfer → Transfer)
    → Event
    → TransfersDb
    → Result (Work TransfersDb Bool)
mark_if_pending c d transfer change event db = do
  stmt c 1 (ok tt)
  let queued = do
    stmt c 2 (ok tt)
    stmt c 3 (ok tt)
    ok (
        write true (record db {
          transfers = update (is_pending_id transfer.id) change db.transfers;
          outbox = insert_event d event transfer.sender_account_id db.outbox;
        }))
  if count (is_pending_id transfer.id) db.transfers == 0 then ok (roll_back false) else queued

unfoldable pub mark_transfer_completed_if_pending :
    Conn → Draw → Transfer → Option ℕ → TransfersDb → Result Bool × TransfersDb
mark_transfer_completed_if_pending c d transfer ledger_transaction_id db = transaction c db (do
  begin c
  l ← uuid_text ledger_transaction_id
  mark_if_pending c d transfer (complete d.now l) (completed_event l transfer) db)

unfoldable pub mark_transfer_failed_if_pending :
    Conn → Draw → Transfer → String → TransfersDb → Result Bool × TransfersDb
mark_transfer_failed_if_pending c d transfer reason db =
    transaction c db (do
      begin c
      mark_if_pending c d transfer (fail d.now reason) (failed_event reason transfer) db)
