-- ===== src/Transfers/Tests.antt =====
-- Transfers between the two customers of a small ledger.
use neo_bank.Prelude.{◌≡◌, ◌≢◌, refl, ◌⊎◌, [], ◌∷◌, none, some, arith, count, update}
use neo_bank.Prelude.Int.{pos, neg, ◌+ℤ◌}
use neo_bank.Prelude.Db.{good, ok}
use neo_bank.Prelude.Rpc.{reply, delivered}
use neo_bank.Ledger.State.{
  sum_entries, transaction_of_reference, to_bigint, add_to_balance, apply_balance_delta,
}
use neo_bank.Ledger.Post.{
  lock_order, lock_both, execute_transfer, execute_after, execute_locked, post_pair, debit_entry,
  credit_entry,
}
use neo_bank.Ledger.Execute.{Posts}
use neo_bank.Ledger.Server.{Execution, serve_execute_transfer}
use neo_bank.Ledger.Tests.{books, ids, lossy}
use neo_bank.Outbox.State.{Draw}
use neo_bank.Transfers.State.{Transfer, TransferStatus, TransfersDb}
use neo_bank.Transfers.Mark.{
  complete, fail, is_pending_id, mark, mark_transfer_completed, mark_transfer_failed,
  mark_transfer_rejected, mark_transfer_completed_if_pending, mark_transfer_failed_if_pending,
}
use neo_bank.Transfers.Create.{
  AccountsClient, active, create_transfer, create_transfer_ok, create_transfer_replayed,
  TransferRequest, Insertion, get_transfer_by_idempotency_key, check_request, insert_transfer,
}
use neo_bank.Transfers.Settle.{
  Bank, Settlement, settle_transfer, call_execute_transfer, failure_reason_of, settlement_failed,
  approve,
}
use neo_bank.Transfers.Reconcile.{Resolution, Meanwhile, reconcile_transfer}
use neo_bank.Transfers.Handler.{HttpRequest, Serving, create_transfer_handler}
use neo_bank.Transfers.Announced.{IsAnnounced, mark-IsAnnounced_all}
use neo_bank.Transfers.Settled.{SaysOf, settle_transfer_truth}
use neo_bank.Transfers.Resolved.{reconcile_transfer_truth, smooth}
use neo_bank.Transfers.Requests.{Creates, create_transfer-Creates, create_transfer_again}
use neo_bank.Transfers.FailClosed.{IsSafe, create_transfer_handler-IsSafe}

abbrev t : Transfer
t = record {
  id = 8;
  idempotency_key = 50;
  sender_account_id = 2;
  recipient_account_id = 3;
  amount = pos 40;
  status = TransferStatus.pending;
  failure_reason = none;
  ledger_transaction_id = none;
  created_at = 4;
  updated_at = 4;
}

abbrev pub no_rows_yet : TransfersDb
no_rows_yet = record {
  transfers = [];
  deposits = [];
  withdrawals = [];
  processed_stripe_events = [];
  outbox = [];
}

abbrev tables : TransfersDb
tables = record no_rows_yet { transfers = t ∷ [] }

abbrev draw : Draw
draw = record { serial = 1; event_id = 60; now = 9 }

abbrev execution : Execution
execution = record { conn = good; ids = ids; now = 5 }

abbrev settlement : Settlement
settlement = record { network = delivered; execution = execution; conn = good; draw = draw }

-- The ledger commits and loses the acknowledgement.
abbrev lossy_settlement : Settlement
lossy_settlement = record settlement { execution = record { conn = lossy; ids = ids; now = 5 } }

abbrev bank : Bank
bank = record { ledger = books; service = tables }

-- The transfer is failed although the ledger posted it.
lossy_fails :
    ((settle_transfer lossy_settlement t bank).0
      ≡ ok (fail 9 "ledger_internal_error" t, settlement_failed))
    × (sum_entries 13 (settle_transfer lossy_settlement t bank).1.ledger.entries ≡ pos 40)
unfolding settle_transfer call_execute_transfer serve_execute_transfer failure_reason_of mark
    mark_transfer_failed execute_transfer execute_after execute_locked lock_order lock_both
    sum_entries to_bigint post_pair apply_balance_delta add_to_balance neg ◌+ℤ◌ debit_entry
    credit_entry
lossy_fails = (refl, refl)

-- Witnesses.
settle_transfer_truth_example :
    SaysOf lossy_settlement t bank settlement_failed
      (fail 9 "ledger_internal_error" t)
      (settle_transfer lossy_settlement t bank).1
settle_transfer_truth_example = settle_transfer_truth lossy_settlement t bank lossy_fails.0

no_reference : transaction_of_reference 8 books.entries ≡ none
unfolding transaction_of_reference
no_reference = refl

one_pending : count (is_pending_id 8) tables.transfers ≢ 0
one_pending e = ground arith

reconcile_transfer_truth_example :
    let l = (execute_transfer lossy ids 5 2 3 (pos 40) (some 8) books).1 in
    let rows = (reconcile_transfer (smooth draw) t l tables).transfers in
    ((l ≡ books) × (rows ≡ update (is_pending_id 8) (fail 9 "timeout_unresolved") tables.transfers))
    ⊎ (Posts ids 5 2 3 (pos 40) (some 8) books l
        × (rows ≡ update (is_pending_id 8) (complete 9 30) tables.transfers))
reconcile_transfer_truth_example =
    reconcile_transfer_truth draw t tables lossy ids 5 books no_reference one_pending

abbrev resolution : Transfer → Resolution
resolution t = record { network = delivered; query_conn = good; conn = lossy; draw = draw }

-- Another request settles the transfer after the worker has listed it.
abbrev settles : Meanwhile
settles t (l, db) = (l, (mark_transfer_completed good draw t.id (some 30) db).1)

mark-IsAnnounced_all_example :
    IsAnnounced (mark_transfer_completed lossy draw 8 (some 30) tables).1
    × IsAnnounced (mark_transfer_failed lossy draw 8 "invalid_amount" tables).1
    × IsAnnounced (mark_transfer_rejected lossy draw 8 "invalid_amount" tables).1
    × IsAnnounced (mark_transfer_completed_if_pending lossy draw t (some 30) tables).1
    × IsAnnounced (mark_transfer_failed_if_pending lossy draw t "invalid_amount" tables).1
mark-IsAnnounced_all_example =
    mark-IsAnnounced_all lossy draw 8 t (some 30) "invalid_amount" tables (refl, tt)

-- accounts-svc knows one IBAN and two users, each with one account.
abbrev pub accounts : AccountsClient
accounts = record {
  resolve_account_by_iban = λ iban user. reply (3, active);
  get_account_by_id = λ a. reply active;
  get_account_by_user_id = λ u. reply 2;
}

abbrev request : TransferRequest
request = record {
  idempotency_key = 50;
  sender_account_id = 2;
  user_id = 70;
  recipient_iban = [];
  amount = pos 40;
}

abbrev insertion : Insertion
insertion = record { id = 8; now = 4; conn = good; meanwhile = λ db. db }

created :
    (create_transfer good insertion accounts request no_rows_yet).0
    ≡ ok (some t, create_transfer_ok)
unfolding create_transfer get_transfer_by_idempotency_key check_request insert_transfer
created = refl

create_transfer-Creates_example :
    Creates good insertion accounts request no_rows_yet t
      (create_transfer good insertion accounts request no_rows_yet).1
create_transfer-Creates_example =
    create_transfer-Creates good insertion accounts request no_rows_yet created

abbrev second : Insertion
second = record { id = 9; now = 5; conn = good; meanwhile = λ db. db }

create_transfer_again_example :
    let after = (create_transfer good insertion accounts request no_rows_yet).1 in
    create_transfer good second accounts request after
    ≡ (ok (some t, create_transfer_replayed), after)
create_transfer_again_example =
    create_transfer_again good insertion accounts request no_rows_yet second created

abbrev serving : Serving
serving = record {
  accounts = accounts;
  lookup_conn = good;
  insertion = insertion;
  fraud_reply = reply approve;
  fraud_conn = good;
  fraud_draw = draw;
  settlement = settlement;
}

abbrev http_request : HttpRequest
http_request = record { idempotency_key = some 50; user_id = 70; body = some ([], pos 40) }

abbrev empty_bank : Bank
empty_bank = record { ledger = books; service = no_rows_yet }

create_transfer_handler-IsSafe_example :
    IsSafe serving empty_bank http_request (create_transfer_handler serving http_request empty_bank)
create_transfer_handler-IsSafe_example =
    create_transfer_handler-IsSafe serving empty_bank http_request
