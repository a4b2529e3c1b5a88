-- ===== src/Transfers/Create.antt =====
-- createTransfer and reconcileReplay of transfer.go. accounts-svc answers through a client; what
-- other requests write between this request's first SELECT and its INSERT is a function of the
-- tables.
use neo_bank.Prelude.{
  ℕ, Bool, List, Option, none, some, ◌∷◌, ◌==◌, ◌||◌, if◌then◌else◌, find, exists, not,
}
use neo_bank.Prelude.Int.{ℤ, pos, leb_ℤ, eqb_ℤ}
use neo_bank.Prelude.Db.{
  Result, ok, err, remote_call, no_rows, unique_violation, ◌>>=◌, Conn, stmt, write, transaction,
}
use neo_bank.Prelude.Rpc.{
  Code, Reply, reply, status, invalid_argument, not_found, failed_precondition, resource_exhausted,
}
use neo_bank.Transfers.State.{Transfer, TransferStatus, TransfersDb}

pub data AccountStatus : Type 0 where
  active frozen closed : AccountStatus

abbrev pub is_active : AccountStatus → Bool
is_active active = Bool.true
is_active frozen = Bool.false
is_active closed = Bool.false

abbrev pub is_closed : AccountStatus → Bool
is_closed active = Bool.false
is_closed frozen = Bool.false
is_closed closed = Bool.true

-- What accounts-svc replies while one request is served: to ResolveAccountByIban (IBAN, user), to
-- GetAccountByID and to GetAccountByUserID.
pub record AccountsClient : Type 0 where
  pub resolve_account_by_iban : List ℕ → ℕ → Reply (ℕ × AccountStatus)
  pub get_account_by_id : ℕ → Reply AccountStatus
  pub get_account_by_user_id : ℕ → Reply ℕ

pub data CreateTransferOutcome : Type 0 where
  create_transfer_ok create_transfer_invalid_amount : CreateTransferOutcome
  create_transfer_invalid_recipient_iban create_transfer_unsupported_bank : CreateTransferOutcome
  create_transfer_recipient_not_found create_transfer_self_transfer : CreateTransferOutcome
  create_transfer_recipient_closed create_transfer_sender_not_active : CreateTransferOutcome
  create_transfer_resolve_rate_limited create_transfer_replayed : CreateTransferOutcome
  create_transfer_key_reused : CreateTransferOutcome

-- The transfer, none where the code returns Transfer{}, and the outcome.
abbrev pub Created : Type 0
Created = Option Transfer × CreateTransferOutcome

pub record TransferRequest : Type 0 where
  pub idempotency_key : ℕ
  pub sender_account_id : ℕ
  pub user_id : ℕ
  pub recipient_iban : List ℕ
  pub amount : ℤ

-- What the INSERT meets: the row's id and time, its connection, and the writes of other requests
-- since the first SELECT.
pub record Insertion : Type 0 where
  pub id : ℕ
  pub now : ℕ
  pub conn : Conn
  pub meanwhile : TransfersDb → TransfersDb

abbrev pub has_key : ℕ → Transfer → Bool
has_key key t = t.idempotency_key == key

unfoldable pub get_transfer_by_idempotency_key :
    Conn → ℕ → ℕ → TransfersDb → Result (Option Transfer)
get_transfer_by_idempotency_key c k key db = stmt c k (ok (find (has_key key) db.transfers))

abbrev pub replayed_recipient : Transfer → Reply (ℕ × AccountStatus) → Result Created
replayed_recipient existing (status code) = err remote_call
replayed_recipient existing (reply (recipient, _)) =
    if recipient == existing.recipient_account_id
    then ok (some existing, create_transfer_replayed)
    else ok (none, create_transfer_key_reused)

unfoldable pub reconcile_replay : AccountsClient → Transfer → TransferRequest → Result Created
reconcile_replay accounts existing r =
    if not (existing.sender_account_id == r.sender_account_id)
      || not (eqb_ℤ existing.amount r.amount)
    then ok (none, create_transfer_key_reused)
    else replayed_recipient existing (accounts.resolve_account_by_iban r.recipient_iban r.user_id)

abbrev pub resolve_refusal : Code → Result Created
resolve_refusal invalid_argument = ok (none, create_transfer_invalid_recipient_iban)
resolve_refusal failed_precondition = ok (none, create_transfer_unsupported_bank)
resolve_refusal not_found = ok (none, create_transfer_recipient_not_found)
resolve_refusal resource_exhausted = ok (none, create_transfer_resolve_rate_limited)
resolve_refusal _ = err remote_call

-- The recipient's account, or the outcome that refuses the request.
pub data Check : Type 0 where
  refused : CreateTransferOutcome → Check
  accepted : ℕ → Check

abbrev pub check_sender : ℕ → Reply AccountStatus → Result Check
check_sender recipient (status code) = err remote_call
check_sender recipient (reply s) =
    ok (if is_active s then accepted recipient else refused create_transfer_sender_not_active)

abbrev pub refusal : Result Created → Result Check
refusal (err e) = err e
refusal (ok (_, outcome)) = ok (refused outcome)

abbrev pub check_recipient :
    AccountsClient → TransferRequest → Reply (ℕ × AccountStatus) → Result Check
check_recipient accounts r (status code) = refusal (resolve_refusal code)
check_recipient accounts r (reply (recipient, s)) =
    if recipient == r.sender_account_id
    then ok (refused create_transfer_self_transfer)
    else if is_closed s
    then ok (refused create_transfer_recipient_closed)
    else check_sender recipient (accounts.get_account_by_id r.sender_account_id)

unfoldable pub check_request : AccountsClient → TransferRequest → Result Check
check_request accounts r =
    if leb_ℤ r.amount (pos 0)
    then ok (refused create_transfer_invalid_amount)
    else check_recipient accounts r (accounts.resolve_account_by_iban r.recipient_iban r.user_id)

abbrev pub new_transfer : Insertion → TransferRequest → ℕ → Transfer
new_transfer i r recipient = record {
  id = i.id;
  idempotency_key = r.idempotency_key;
  sender_account_id = r.sender_account_id;
  recipient_account_id = recipient;
  amount = r.amount;
  status = TransferStatus.pending;
  failure_reason = none;
  ledger_transaction_id = none;
  created_at = i.now;
  updated_at = i.now;
}

-- INSERT INTO transfers ... RETURNING, under the UNIQUE constraint on the key.
unfoldable pub insert_transfer :
    Insertion → TransferRequest → ℕ → TransfersDb → Result Transfer × TransfersDb
insert_transfer i r recipient db =
    let t = new_transfer i r recipient in
    transaction i.conn db (
      stmt i.conn 0 (
        if exists (has_key r.idempotency_key) db.transfers
        then err unique_violation
        else ok (write t (record db { transfers = t ∷ db.transfers }))))

abbrev pub after_winner : AccountsClient → TransferRequest → Option Transfer → Result Created
after_winner accounts r none = err no_rows
after_winner accounts r (some winner) = reconcile_replay accounts winner r

-- The INSERT's answer: on a unique violation the winner's row is read and compared.
abbrev pub after_insert :
    Conn
    → AccountsClient
    → TransferRequest
    → Result Transfer × TransfersDb
    → Result Created × TransfersDb
after_insert c accounts r (ok t, db) = (ok (some t, create_transfer_ok), db)
after_insert c accounts r (err unique_violation, db) =
    ((get_transfer_by_idempotency_key c 1 r.idempotency_key db >>= after_winner accounts r), db)
after_insert c accounts r (err e, db) = (err e, db)

abbrev pub after_check :
    Conn
    → Insertion
    → AccountsClient
    → TransferRequest
    → TransfersDb
    → Result Check
    → Result Created × TransfersDb
after_check c i accounts r db (err e) = (err e, db)
after_check c i accounts r db (ok (refused outcome)) = (ok (none, outcome), db)
after_check c i accounts r db (ok (accepted recipient)) =
    after_insert c accounts r (insert_transfer i r recipient (i.meanwhile db))

abbrev pub after_lookup :
    Conn
    → Insertion
    → AccountsClient
    → TransferRequest
    → TransfersDb
    → Result (Option Transfer)
    → Result Created × TransfersDb
after_lookup c i accounts r db (err e) = (err e, db)
after_lookup c i accounts r db (ok (some existing)) = (reconcile_replay accounts existing r, db)
after_lookup c i accounts r db (ok none) = after_check c i accounts r db (check_request accounts r)

unfoldable pub create_transfer :
    Conn → Insertion → AccountsClient → TransferRequest → TransfersDb → Result Created × TransfersDb
create_transfer c i accounts r db =
    after_lookup c i accounts r db (get_transfer_by_idempotency_key c 0 r.idempotency_key db)
