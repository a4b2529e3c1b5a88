-- ===== src/Deposits/Create.antt =====
-- createDeposit and its handlers (deposit.go, http.go). Stripe's answer to Create, the id of a
-- PaymentIntent, is an argument; the client secret is left out.
use neo_bank.Prelude.{
  ℕ, Bool, List, ◌∷◌, Option, none, some, String, ◌==◌, ◌||◌, if◌then◌else◌, find, update, not,
}
use neo_bank.Prelude.Int.{ℤ, pos, ltb_ℤ}
use neo_bank.Prelude.Db.{Result, ok, err, remote_call, Conn, stmt, Work, write, transaction}
use neo_bank.Prelude.Rpc.{Reply, reply, status}
use neo_bank.Transfers.State.{Deposit, DepositStatus, TransfersDb}
use neo_bank.Transfers.Create.{AccountStatus, is_active, AccountsClient}
use neo_bank.Transfers.Mark.{returned}
use neo_bank.Transfers.Handler.{resolve_sender_account_id}
use neo_bank.Deposits.Rows.{has_deposit_id, get_deposit_by_id}

abbrev pub deposit_min_amount : ℤ
deposit_min_amount = pos 50

abbrev pub deposit_max_amount : ℤ
deposit_max_amount = pos 1000000

pub data CreateDepositOutcome : Type 0 where
  create_deposit_ok create_deposit_invalid_amount : CreateDepositOutcome
  create_deposit_account_not_active : CreateDepositOutcome

-- Deposit{} is none.
abbrev pub CreatedDeposit : Type 0
CreatedDeposit = Option Deposit × CreateDepositOutcome

-- What creating a deposit meets: the new row's id and time with the INSERT's connection, Stripe's
-- answer, and the UPDATE's connection and time.
pub record Charging : Type 0 where
  pub id : ℕ
  pub now : ℕ
  pub insert_conn : Conn
  pub intent : Reply ℕ
  pub update_conn : Conn
  pub later : ℕ

abbrev pub new_deposit : Charging → ℕ → ℤ → Deposit
new_deposit x account amount = record {
  id = x.id;
  account_id = account;
  amount = amount;
  status = DepositStatus.pending;
  stripe_payment_intent_id = none;
  ledger_transaction_id = none;
  failure_reason = none;
  created_at = x.now;
  updated_at = x.now;
}

unfoldable pub insert_deposit : Charging → ℕ → ℤ → TransfersDb → Result Deposit × TransfersDb
insert_deposit x account amount db =
    let d = new_deposit x account amount in
    transaction x.insert_conn db
      (stmt x.insert_conn 0 (ok (write d (record db { deposits = d ∷ db.deposits }))))

abbrev pub with_intent : ℕ → ℕ → Deposit → Deposit
with_intent now intent d = record d { stripe_payment_intent_id = some intent; updated_at = now }

abbrev write_row : List Deposit → TransfersDb → Deposit → Work TransfersDb Deposit
write_row rows db d = write d (record db { deposits = rows })

abbrev mapped : {A B : Type 0} → (A → B) → Result A → Result B
mapped f (ok a) = ok (f a)
mapped f (err e) = err e

-- UPDATE deposits SET stripe_payment_intent_id = $1 ... RETURNING
unfoldable pub persist_intent : Charging → ℕ → ℕ → TransfersDb → Result Deposit × TransfersDb
persist_intent x id intent db =
    let rows = update (has_deposit_id id) (with_intent x.later intent) db.deposits in
    transaction x.update_conn db
      (stmt x.update_conn 0 (mapped (write_row rows db) (returned (find (has_deposit_id id) rows))))

abbrev after_persist : Result Deposit × TransfersDb → Result CreatedDeposit × TransfersDb
after_persist (err e, db) = (err e, db)
after_persist (ok d, db) = (ok (some d, create_deposit_ok), db)

abbrev after_intent :
    Charging → Deposit → TransfersDb → Reply ℕ → Result CreatedDeposit × TransfersDb
after_intent x d db (status code) = (err remote_call, db)
after_intent x d db (reply intent) = after_persist (persist_intent x d.id intent db)

abbrev after_insert : Charging → Result Deposit × TransfersDb → Result CreatedDeposit × TransfersDb
after_insert x (err e, db) = (err e, db)
after_insert x (ok d, db) = after_intent x d db x.intent

abbrev after_account :
    Charging → ℕ → ℤ → TransfersDb → Reply AccountStatus → Result CreatedDeposit × TransfersDb
after_account x account amount db (status code) = (err remote_call, db)
after_account x account amount db (reply s) =
    if not (is_active s)
    then (ok (none, create_deposit_account_not_active), db)
    else after_insert x (insert_deposit x account amount db)

-- amount < depositMinAmount || amount > depositMaxAmount, withdrawals alike.
abbrev pub is_out_of_bounds : ℤ → Bool
is_out_of_bounds amount = ltb_ℤ amount deposit_min_amount || ltb_ℤ deposit_max_amount amount

unfoldable pub create_deposit :
    Charging → AccountsClient → ℕ → ℤ → TransfersDb → Result CreatedDeposit × TransfersDb
create_deposit x accounts account amount db =
    if is_out_of_bounds amount
    then (ok (none, create_deposit_invalid_amount), db)
    else after_account x account amount db (accounts.get_account_by_id account)

-- An error's status line and text, the created deposit's id, or the deposit.
pub data DepositResponse : Type 0 where
  deposit_error : ℕ → String → DepositResponse
  deposit_created : ℕ → DepositResponse
  deposit_found : Deposit → DepositResponse

abbrev respond_deposit : Result CreatedDeposit × TransfersDb → DepositResponse × TransfersDb
respond_deposit (err e, db) = (deposit_error 500 "internal_error", db)
respond_deposit (ok (d, create_deposit_invalid_amount), db) =
    (deposit_error 400 "invalid_amount", db)
respond_deposit (ok (d, create_deposit_account_not_active), db) =
    (deposit_error 409 "account_not_active", db)
respond_deposit (ok (some d, create_deposit_ok), db) = (deposit_created d.id, db)
respond_deposit (ok (none, create_deposit_ok), db) = (deposit_error 500 "internal_error", db)

abbrev deposit_body :
    Charging → AccountsClient → ℕ → Option ℤ → TransfersDb → DepositResponse × TransfersDb
deposit_body x accounts account none db = (deposit_error 400 "invalid_request_body", db)
deposit_body x accounts account (some amount) db =
    respond_deposit (create_deposit x accounts account amount db)

abbrev deposit_caller :
    Charging
    → AccountsClient
    → Option ℤ
    → TransfersDb
    → Result (Option ℕ)
    → DepositResponse × TransfersDb
deposit_caller x accounts body db (err e) = (deposit_error 500 "internal_error", db)
deposit_caller x accounts body db (ok none) = (deposit_error 404 "account_not_found", db)
deposit_caller x accounts body db (ok (some account)) = deposit_body x accounts account body db

unfoldable pub create_deposit_handler :
    Charging → AccountsClient → ℕ → Option ℤ → TransfersDb → DepositResponse × TransfersDb
create_deposit_handler x accounts user body db =
    deposit_caller x accounts body db (resolve_sender_account_id accounts user)

abbrev respond_found : ℕ → Result (Option Deposit) → DepositResponse
respond_found account (err e) = deposit_error 500 "internal_error"
respond_found account (ok none) = deposit_error 404 "deposit_not_found"
respond_found account (ok (some d)) =
    if d.account_id == account then deposit_found d else deposit_error 404 "deposit_not_found"

abbrev get_for_caller : Conn → Option ℕ → TransfersDb → Result (Option ℕ) → DepositResponse
get_for_caller c id db (err e) = deposit_error 500 "internal_error"
get_for_caller c id db (ok none) = deposit_error 404 "account_not_found"
get_for_caller c id db (ok (some account)) = respond_found account (get_deposit_by_id c id db)

unfoldable pub get_deposit_handler :
    Conn → AccountsClient → ℕ → Option ℕ → TransfersDb → DepositResponse
get_deposit_handler c accounts user id db =
    get_for_caller c id db (resolve_sender_account_id accounts user)
