-- ===== src/History/Tests.antt =====
-- An account with two transfers, one of them received, a deposit and a withdrawal.
use Prim.Native.Nat.{◌<◌}
use neo_bank.Prelude.{
  ℕ, ◌≡◌, refl, true, false, List, [], ◌∷◌, Option, none, some, arith, All, ◌==◌, if◌then◌else◌,
}
use neo_bank.Prelude.Int.{pos}
use neo_bank.Prelude.Sorting.{sort, insert}
use neo_bank.Prelude.Db.{good}
use neo_bank.Prelude.Rpc.{Reply, reply}
use neo_bank.Transfers.State.{
  Transfer, TransferStatus, Deposit, DepositStatus, Withdrawal, WithdrawalStatus, TransfersDb,
}
use neo_bank.History.Rows.{
  CursorId, uuid, PageCursor, fetched, Key, position, transfer_key, get_transfer_history_page,
  get_deposit_history_page, get_withdrawal_history_page,
}
use neo_bank.History.Pages.{
  HistoryEntry, Ibans, entry_key, transfer_entry, deposit_entry, withdrawal_entry,
  resolve_counterparty_ibans, get_operation_history_page,
}
use neo_bank.History.Serve.{
  Base64, std_encoding, url_encoding, raw_std_encoding, raw_url_encoding, Codec, encode_cursor,
  parse_history_query, cursor_of, ListServing, Pools, list_transfers, list_transfers_handler,
}
use neo_bank.History.Complete.{transfers_of, operations_of, IsPage}
use neo_bank.History.Operations.{
  Found, get_transfer_history_page-Found, get_operation_history_page-IsPage,
}
use neo_bank.History.Sequel.{HasUniqueIds, IsOlder, Continues, get_operation_history_page_continued}
use neo_bank.History.Cursors.{IsFaithful, EndsIn, list_transfers_handler-EndsIn}
use neo_bank.Transfers.Create.{AccountsClient, active}
use neo_bank.Transfers.Handler.{resolve_sender_account_id}

abbrev sent : Transfer
sent = record {
  id = 8;
  idempotency_key = 50;
  sender_account_id = 2;
  recipient_account_id = 3;
  amount = pos 40;
  status = TransferStatus.pending;
  failure_reason = none;
  ledger_transaction_id = none;
  created_at = 4;
  updated_at = 4;
}

abbrev received : Transfer
received = record sent {
  id = 9;
  sender_account_id = 3;
  recipient_account_id = 2;
  status = TransferStatus.completed;
}

abbrev paid_in : Deposit
paid_in = record {
  id = 5;
  account_id = 2;
  amount = pos 100;
  status = DepositStatus.credited;
  stripe_payment_intent_id = some 1;
  ledger_transaction_id = some 7;
  failure_reason = none;
  created_at = 3;
  updated_at = 3;
}

abbrev paid_out : Withdrawal
paid_out = record {
  id = 6;
  account_id = 2;
  amount = pos 10;
  status = WithdrawalStatus.payout_simulated;
  ledger_transaction_id = some 9;
  failure_reason = none;
  created_at = 6;
  updated_at = 6;
}

abbrev tables : TransfersDb
tables = record {
  transfers = received ∷ sent ∷ [];
  deposits = paid_in ∷ [];
  withdrawals = paid_out ∷ [];
  processed_stripe_events = [];
  outbox = [];
}

abbrev accounts : List ℕ → Reply Ibans
accounts ids = reply ((3, 77 ∷ []) ∷ [])

abbrev ibans : Ibans
ibans = (3, 77 ∷ []) ∷ []

abbrev first_page : List HistoryEntry
first_page = withdrawal_entry paid_out ∷ transfer_entry 2 ibans received ∷ []

abbrev rest_page : List HistoryEntry
rest_page = transfer_entry 2 ibans sent ∷ deposit_entry paid_in ∷ []

shows_first : get_operation_history_page good accounts 2 2 none tables ≡ fetched (first_page, true)
unfolding get_operation_history_page get_transfer_history_page get_deposit_history_page
    get_withdrawal_history_page resolve_counterparty_ibans sort insert
shows_first = refl

shows_rest :
    get_operation_history_page good accounts 2 2
      (some (cursor_of (transfer_entry 2 ibans received)))
      tables
    ≡ fetched (rest_page, false)
unfolding get_operation_history_page get_transfer_history_page get_deposit_history_page
    get_withdrawal_history_page resolve_counterparty_ibans sort insert
shows_rest = refl

shows_transfers : get_transfer_history_page good 0 2 1 none tables ≡ fetched (received ∷ [], true)
unfolding get_transfer_history_page sort insert
shows_transfers = refl

get_transfer_history_page-Found_example :
    Found transfer_key 1 none
      (λ at_key. transfers_of 2 at_key tables.transfers)
      (received ∷ [], true)
get_transfer_history_page-Found_example =
    get_transfer_history_page-Found good 0 2 1 none tables shows_transfers

get_operation_history_page-IsPage_example :
    (found : Ibans) × (at_key : Option Key) × (position none ≡ fetched at_key)
    × IsPage entry_key 2 (operations_of 2 found at_key tables) (first_page, true)
get_operation_history_page-IsPage_example =
    get_operation_history_page-IsPage good accounts 2 2 none tables shows_first

tables-HasUniqueIds : HasUniqueIds (operations_of 2 [] none tables)
tables-HasUniqueIds id = ground arith

get_operation_history_page_continued_example :
    All (IsOlder (transfer_entry 2 ibans received)) rest_page
    × Continues 2 none tables first_page rest_page false
get_operation_history_page_continued_example =
    get_operation_history_page_continued good good accounts accounts 2 2 2 none none tables
      (withdrawal_entry paid_out ∷ []) rest_page (transfer_entry 2 ibans received) refl
      tables-HasUniqueIds shows_first shows_rest

abbrev write_token : PageCursor → List ℕ
write_token c = elim c.id [
  | CursorId.empty ↦ c.created_at ∷ []
  | CursorId.not_uuid ↦ c.created_at ∷ 1 ∷ []
  | CursorId.uuid n ↦ c.created_at ∷ 2 ∷ n ∷ []
]

abbrev read_token : List ℕ → Option PageCursor
read_token [] = none
read_token (t ∷ []) = some (record { created_at = t; id = CursorId.empty })
read_token (t ∷ k ∷ []) = some (record { created_at = t; id = CursorId.not_uuid })
read_token (t ∷ k ∷ n ∷ token) = some (record { created_at = t; id = uuid n })

abbrev mark : Base64 → ℕ
mark std_encoding = 0
mark url_encoding = 1
mark raw_std_encoding = 2
mark raw_url_encoding = 3

abbrev unmark : Base64 → List ℕ → Option (List ℕ)
unmark b [] = none
unmark b (m ∷ raw) = if m == mark b then some raw else none

abbrev codec : Codec
codec = record {
  encode_to_string = λ b raw. mark b ∷ raw;
  decode_string = unmark;
  marshal = write_token;
  unmarshal = read_token;
}

codec-IsFaithful : IsFaithful codec
codec-IsFaithful = record {
  decodes = λ b raw. unmark-mark b raw;
  encodes = λ b raw ne. λ e. cc;
  unmarshals = λ c. (ground arith);
  marshals = λ c. (ground arith);
}
  where
    unmark-mark : (b : Base64) (raw : List ℕ) → unmark b (mark b ∷ raw) ≡ some raw
    unmark-mark std_encoding raw = refl
    unmark-mark url_encoding raw = refl
    unmark-mark raw_std_encoding raw = refl
    unmark-mark raw_url_encoding raw = refl

abbrev clients : AccountsClient
clients = record {
  resolve_account_by_iban = λ iban user. reply (3, active);
  get_account_by_id = λ a. reply active;
  get_account_by_user_id = λ u. reply 2;
}

abbrev serving : ListServing
serving = record {
  codec = codec;
  accounts = clients;
  resolve_accounts_by_ids = accounts;
  conn = good;
}

abbrev pools : Pools
pools = record { write_pool = tables; read_pool = tables }

lists_first :
    list_transfers_handler serving pools 20 (some (pos 2)) []
    ≡ list_transfers first_page (some (3 ∷ 4 ∷ 2 ∷ 9 ∷ []))
unfolding list_transfers_handler resolve_sender_account_id parse_history_query encode_cursor
    get_operation_history_page get_transfer_history_page get_deposit_history_page
    get_withdrawal_history_page resolve_counterparty_ibans sort insert
lists_first = refl

first_page-timed : All (λ e. 0 < e.created_at) first_page
first_page-timed = (omega arith, (omega arith, tt))

list_transfers_handler-EndsIn_example : EndsIn codec first_page (3 ∷ 4 ∷ 2 ∷ 9 ∷ [])
list_transfers_handler-EndsIn_example =
    list_transfers_handler-EndsIn serving first_page (3 ∷ 4 ∷ 2 ∷ 9 ∷ []) codec-IsFaithful
      first_page-timed pools 20 (some (pos 2)) [] lists_first
