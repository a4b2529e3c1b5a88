-- ===== src/History/Pages.antt =====
-- getOperationHistoryPage and resolveCounterpartyIbans of services/transfers-svc/history.go. The
-- three queries each read the rows that they find in the tables given; accounts-svc answers through
-- an argument.
use neo_bank.Prelude.{
  ℕ, Bool, ◌||◌, List, [], ◌∷◌, ◌++◌, map, Option, none, some, String, ltb, ◌==◌, if◌then◌else◌,
  take, exists, length,
}
use neo_bank.Prelude.Int.{ℤ}
use neo_bank.Prelude.Sorting.{sort}
use neo_bank.Prelude.Db.{Conn, remote_call}
use neo_bank.Prelude.Rpc.{Reply, reply, status}
use neo_bank.Transfers.State.{
  Transfer, TransferStatus, Deposit, DepositStatus, Withdrawal, WithdrawalStatus, TransfersDb,
}
use neo_bank.History.Rows.{
  PageCursor, Fetched, fetched, not_fetched, failed_with, ◌>>=ᶠ◌, Key, in_order,
  get_transfer_history_page, get_deposit_history_page, get_withdrawal_history_page,
}

pub data EntryType : Type 0 where
  transfer deposit withdrawal : EntryType

pub data Direction : Type 0 where
  outgoing incoming : Direction

-- The texts of the three status columns.
pub data EntryStatus : Type 0 where
  of_transfer : TransferStatus → EntryStatus
  of_deposit : DepositStatus → EntryStatus
  of_withdrawal : WithdrawalStatus → EntryStatus

abbrev pub Iban : Type 0
Iban = List ℕ

pub record HistoryEntry : Type 0 where
  pub type : EntryType
  pub id : ℕ
  pub amount : ℤ
  pub entry_status : EntryStatus
  pub failure_reason : Option String
  pub created_at : ℕ
  pub updated_at : ℕ
  pub direction : Option Direction
  pub counterparty_iban : Option Iban

-- ResolveAccountsByIds: the account ids and IBANs that it found.
abbrev pub Ibans : Type 0
Ibans = List (ℕ × Iban)

abbrev iban_of : ℕ → Ibans → Option Iban
iban_of id [] = none
iban_of id ((i, iban) ∷ ibans) = if i == id then some iban else iban_of id ibans

abbrev pub counterparty : ℕ → Transfer → ℕ
counterparty account t =
    if t.sender_account_id == account then t.recipient_account_id else t.sender_account_id

abbrev add_id : ℕ → List ℕ → List ℕ
add_id id ids = if exists (λ i. i == id) ids then ids else id ∷ ids

abbrev pub counterparties : ℕ → List Transfer → List ℕ
counterparties account [] = []
counterparties account (t ∷ ts) = add_id (counterparty account t) (counterparties account ts)

abbrev resolved : Reply Ibans → Fetched Ibans
resolved (reply ibans) = fetched ibans
resolved (status code) = not_fetched (failed_with remote_call)

abbrev resolve_ids : (List ℕ → Reply Ibans) → List ℕ → Fetched Ibans
resolve_ids accounts [] = fetched []
resolve_ids accounts (id ∷ ids) = resolved (accounts (id ∷ ids))

unfoldable pub resolve_counterparty_ibans :
    (List ℕ → Reply Ibans) → ℕ → List Transfer → Fetched Ibans
resolve_counterparty_ibans accounts account ts = resolve_ids accounts (counterparties account ts)

abbrev pub transfer_entry : ℕ → Ibans → Transfer → HistoryEntry
transfer_entry account ibans t = record {
  type = EntryType.transfer;
  id = t.id;
  amount = t.amount;
  entry_status = of_transfer t.status;
  failure_reason = t.failure_reason;
  created_at = t.created_at;
  updated_at = t.updated_at;
  direction = some (if t.sender_account_id == account then outgoing else incoming);
  counterparty_iban = iban_of (counterparty account t) ibans;
}

abbrev pub deposit_entry : Deposit → HistoryEntry
deposit_entry d = record {
  type = EntryType.deposit;
  id = d.id;
  amount = d.amount;
  entry_status = of_deposit d.status;
  failure_reason = d.failure_reason;
  created_at = d.created_at;
  updated_at = d.updated_at;
  direction = none;
  counterparty_iban = none;
}

abbrev pub withdrawal_entry : Withdrawal → HistoryEntry
withdrawal_entry w = record {
  type = EntryType.withdrawal;
  id = w.id;
  amount = w.amount;
  entry_status = of_withdrawal w.status;
  failure_reason = w.failure_reason;
  created_at = w.created_at;
  updated_at = w.updated_at;
  direction = none;
  counterparty_iban = none;
}

abbrev pub entry_key : HistoryEntry → Key
entry_key e = record { created_at = e.created_at; id = e.id }

abbrev pub merged : ℕ → Ibans → List Transfer → List Deposit → List Withdrawal → List HistoryEntry
merged account ibans transfers deposits withdrawals =
    map (transfer_entry account ibans) transfers
    ++ (map deposit_entry deposits ++ map withdrawal_entry withdrawals)

-- sort.Slice, has_more, and the cut to the limit.
abbrev pub merge_pages :
    ℕ
    → ℕ
    → Ibans
    → List Transfer × Bool
    → List Deposit × Bool
    → List Withdrawal × Bool
    → List HistoryEntry × Bool
merge_pages account limit ibans (transfers, more_t) (deposits, more_d) (withdrawals, more_w) =
    let all_rows =
      sort (in_order entry_key) (merged account ibans transfers deposits withdrawals) in
    (
      (if ltb limit (length all_rows) then take limit all_rows else all_rows),
      ltb limit (length all_rows) || (more_t || (more_d || more_w)),
    )

unfoldable pub get_operation_history_page :
    Conn
    → (List ℕ → Reply Ibans)
    → ℕ
    → ℕ
    → Option PageCursor
    → TransfersDb
    → Fetched (List HistoryEntry × Bool)
get_operation_history_page c accounts account limit cursor db =
    get_transfer_history_page c 0 account limit cursor db >>=ᶠ λ transfers.
    get_deposit_history_page c 1 account limit cursor db >>=ᶠ λ deposits.
    get_withdrawal_history_page c 2 account limit cursor db >>=ᶠ λ withdrawals.
    resolve_counterparty_ibans accounts account transfers.0 >>=ᶠ λ ibans.
    fetched (merge_pages account limit ibans transfers deposits withdrawals)
