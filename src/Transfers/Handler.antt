-- ===== src/Transfers/Handler.antt =====
-- createTransferHandler of http.go: create the row, ask fraud-svc, settle on the ledger.
use neo_bank.Prelude.{ℕ, List, Option, none, some, String}
use neo_bank.Prelude.Int.{ℤ}
use neo_bank.Prelude.Db.{Result, ok, err, remote_call, Conn}
use neo_bank.Prelude.Rpc.{Reply, reply, status, not_found}
use neo_bank.Ledger.State.{LedgerDb}
use neo_bank.Outbox.State.{Draw}
use neo_bank.Transfers.State.{Transfer, TransfersDb}
use neo_bank.Transfers.Create.{
  AccountsClient, create_transfer_ok, create_transfer_invalid_amount,
  create_transfer_invalid_recipient_iban, create_transfer_unsupported_bank,
  create_transfer_recipient_not_found, create_transfer_self_transfer,
  create_transfer_recipient_closed, create_transfer_sender_not_active,
  create_transfer_resolve_rate_limited, create_transfer_replayed, create_transfer_key_reused,
  Created, Insertion, create_transfer,
}
use neo_bank.Transfers.Settle.{
  Bank, Settlement, SettlementOutcome, settlement_uncertain, settle_transfer, FraudCheckOutcome,
  fraud_check_approved, fraud_check_rejected, fraud_check_uncertain, Decision, check_transfer_fraud,
}

-- The status line, and an error's text or the transfer with an optional message.
pub data Response : Type 0 where
  json_error : ℕ → String → Response
  json_transfer : ℕ → Transfer → Option String → Response

pub record HttpRequest : Type 0 where
  pub idempotency_key : Option ℕ
  pub user_id : ℕ
  pub body : Option (List ℕ × ℤ)

-- What serving one request meets, in the order in which it is met.
pub record Serving : Type 0 where
  pub accounts : AccountsClient
  pub lookup_conn : Conn
  pub insertion : Insertion
  pub fraud_reply : Reply Decision
  pub fraud_conn : Conn
  pub fraud_draw : Draw
  pub settlement : Settlement

abbrev pub sender_of : Reply ℕ → Result (Option ℕ)
sender_of (reply a) = ok (some a)
sender_of (status not_found) = ok none
sender_of (status _) = err remote_call

-- none for a user without an account.
unfoldable pub resolve_sender_account_id : AccountsClient → ℕ → Result (Option ℕ)
resolve_sender_account_id accounts user = sender_of (accounts.get_account_by_user_id user)

abbrev pub internal_error : Response
internal_error = json_error 500 "internal_error"

abbrev pub respond_settled : Result (Transfer × SettlementOutcome) × Bank → Response × Bank
respond_settled (err e, b) = (internal_error, b)
respond_settled (ok (t, settlement_uncertain), b) =
    (json_transfer 202 t (some "transfer status unknown, still processing"), b)
respond_settled (ok (t, _), b) = (json_transfer 201 t none, b)

abbrev pub respond_checked :
    Serving → LedgerDb → Result (Transfer × FraudCheckOutcome) × TransfersDb → Response × Bank
respond_checked s l (err e, db) = (internal_error, record { ledger = l; service = db })
respond_checked s l (ok (t, fraud_check_rejected), db) =
    (json_transfer 201 t none, record { ledger = l; service = db })
respond_checked s l (ok (t, fraud_check_uncertain), db) = (
  json_transfer 202 t (some "fraud check unavailable, transfer still pending"),
  record { ledger = l; service = db },
)
respond_checked s l (ok (t, fraud_check_approved), db) =
    respond_settled (settle_transfer s.settlement t (record { ledger = l; service = db }))

abbrev pub refuse_with : ℕ → String → LedgerDb → TransfersDb → Response × Bank
refuse_with code text l db = (json_error code text, record { ledger = l; service = db })

abbrev pub respond_replayed : Option Transfer → LedgerDb → TransfersDb → Response × Bank
respond_replayed none l db = refuse_with 500 "internal_error" l db
respond_replayed (some t) l db = (json_transfer 200 t none, record { ledger = l; service = db })

abbrev pub respond_new : Serving → LedgerDb → Option Transfer → TransfersDb → Response × Bank
respond_new s l none db = refuse_with 500 "internal_error" l db
respond_new s l (some t) db =
    respond_checked s l (check_transfer_fraud s.fraud_conn s.fraud_draw s.fraud_reply t db)

-- The switch over createTransfer's outcome. Transfer{} never comes with the last two.
abbrev pub respond_created : Serving → LedgerDb → Result Created × TransfersDb → Response × Bank
respond_created s l (err e, db) = refuse_with 500 "internal_error" l db
respond_created s l (ok (t, create_transfer_invalid_amount), db) =
    refuse_with 400 "invalid_amount" l db
respond_created s l (ok (t, create_transfer_invalid_recipient_iban), db) =
    refuse_with 400 "invalid_iban" l db
respond_created s l (ok (t, create_transfer_unsupported_bank), db) =
    refuse_with 400 "unsupported_bank" l db
respond_created s l (ok (t, create_transfer_recipient_not_found), db) =
    refuse_with 404 "recipient_not_found" l db
respond_created s l (ok (t, create_transfer_self_transfer), db) =
    refuse_with 400 "self_transfer_not_allowed" l db
respond_created s l (ok (t, create_transfer_recipient_closed), db) =
    refuse_with 409 "recipient_account_closed" l db
respond_created s l (ok (t, create_transfer_sender_not_active), db) =
    refuse_with 409 "sender_account_not_active" l db
respond_created s l (ok (t, create_transfer_resolve_rate_limited), db) =
    refuse_with 429 "too_many_resolve_attempts" l db
respond_created s l (ok (t, create_transfer_key_reused), db) =
    refuse_with 422 "idempotency_key_conflict" l db
respond_created s l (ok (t, create_transfer_replayed), db) = respond_replayed t l db
respond_created s l (ok (t, create_transfer_ok), db) = respond_new s l t db

abbrev pub handle_body : Serving → ℕ → ℕ → ℕ → Option (List ℕ × ℤ) → Bank → Response × Bank
handle_body s key user sender none b = (json_error 400 "invalid_request_body", b)
handle_body s key user sender (some (iban, amount)) b = respond_created s b.ledger (
    create_transfer s.lookup_conn s.insertion s.accounts
      (record {
        idempotency_key = key;
        sender_account_id = sender;
        user_id = user;
        recipient_iban = iban;
        amount = amount;
      })
      b.service)

abbrev pub handle_sender : Serving → ℕ → HttpRequest → Result (Option ℕ) → Bank → Response × Bank
handle_sender s key r (err e) b = (internal_error, b)
handle_sender s key r (ok none) b = (json_error 404 "account_not_found", b)
handle_sender s key r (ok (some sender)) b = handle_body s key r.user_id sender r.body b

abbrev pub handle_key : Serving → HttpRequest → Option ℕ → Bank → Response × Bank
handle_key s r none b = (json_error 400 "missing_idempotency_key_header", b)
handle_key s r (some key) b =
    handle_sender s key r (resolve_sender_account_id s.accounts r.user_id) b

unfoldable pub create_transfer_handler : Serving → HttpRequest → Bank → Response × Bank
create_transfer_handler s r b = handle_key s r r.idempotency_key b
