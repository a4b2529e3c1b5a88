-- ===== src/History/Rows.antt =====
-- The cursor of services/transfers-svc/cursor.go and the three page queries: getTransferHistoryPage
-- (transfer.go), getDepositHistoryPage and getWithdrawalHistoryPage (history.go). UUIDs are ordered
-- as their texts are. limit is an int32 of at most 100, so that limit + 1 does not overflow.
use neo_bank.Prelude.{
  ℕ, suc, Bool, true, false, ◌&&◌, ◌||◌, List, ◌++◌, Option, none, some, ltb, ◌==◌, if◌then◌else◌,
  take, select, length,
}
use neo_bank.Prelude.Sorting.{sort}
use neo_bank.Prelude.Db.{Failure, Conn, connection}
use neo_bank.Transfers.State.{Transfer, TransferStatus, Deposit, Withdrawal, TransfersDb}

-- The id of a cursor is any text: empty, no UUID, or a UUID. The time 0 is time.Time's zero.
pub data CursorId : Type 0 where
  empty not_uuid : CursorId
  uuid : ℕ → CursorId

pub record PageCursor : Type 0 where
  pub created_at : ℕ
  pub id : CursorId

pub data HistoryError : Type 0 where
  invalid_cursor : HistoryError
  failed_with : Failure → HistoryError

pub data Fetched (A : Type 0) : Type 0 where
  fetched : A → Fetched A
  not_fetched : HistoryError → Fetched A

infixl 5 ◌>>=ᶠ◌
abbrev pub ◌>>=ᶠ◌ : {A B : Type 0} → Fetched A → (A → Fetched B) → Fetched B
fetched a >>=ᶠ f = f a
not_fetched e >>=ᶠ f = not_fetched e

-- What a row is ordered by.
pub record Key : Type 0 where
  pub created_at : ℕ
  pub id : ℕ

-- ORDER BY created_at DESC, id DESC
abbrev pub newer : Key → Key → Bool
newer a b = ltb b.created_at a.created_at || (a.created_at == b.created_at && ltb b.id a.id)

abbrev pub in_order : {A : Type 0} → (A → Key) → A → A → Bool
in_order key x y = newer (key x) (key y)

-- The first page, or AND (created_at, id) < ($3, $4).
abbrev pub is_after : {A : Type 0} → (A → Key) → Option Key → A → Bool
is_after key none x = true
is_after key (some c) x = newer c (key x)

abbrev pub transfer_key : Transfer → Key
transfer_key t = record { created_at = t.created_at; id = t.id }

abbrev pub deposit_key : Deposit → Key
deposit_key d = record { created_at = d.created_at; id = d.id }

abbrev pub withdrawal_key : Withdrawal → Key
withdrawal_key w = record { created_at = w.created_at; id = w.id }

abbrev pub is_completed : TransferStatus → Bool
is_completed TransferStatus.completed = true
is_completed _ = false

-- WHERE sender_account_id = $1, and WHERE recipient_account_id = $1 AND status = 'completed'.
abbrev pub is_sender : ℕ → Transfer → Bool
is_sender account t = t.sender_account_id == account

abbrev pub is_recipient : ℕ → Transfer → Bool
is_recipient account t = t.recipient_account_id == account && is_completed t.status

-- One SELECT with its WHERE, ORDER BY and LIMIT.
abbrev pub select_top : {A : Type 0} → (A → Key) → ℕ → Option Key → (A → Bool) → List A → List A
select_top key k cursor test rows =
    take k (sort (in_order key) (select (λ x. test x && is_after key cursor x) rows))

abbrev pub union_all : ℕ → List Transfer → List Transfer → List Transfer
union_all k sent received = take k (sort (in_order transfer_key) (sent ++ received))

-- The cursor as the query compares it; Postgres refuses an id that is no UUID.
abbrev pub position_of_id : ℕ → CursorId → Fetched (Option Key)
position_of_id created_at (uuid id) = fetched (some (record { created_at = created_at; id = id }))
position_of_id created_at _ = not_fetched invalid_cursor

abbrev pub position : Option PageCursor → Fetched (Option Key)
position none = fetched none
position (some c) = position_of_id c.created_at c.id

-- The limit-and-one rows that were fetched, cut back to the limit, and whether there are more.
abbrev pub trim : {A : Type 0} → ℕ → List A → List A × Bool
trim limit rows =
    let has_more = ltb limit (length rows) in
    ((if has_more then take limit rows else rows), has_more)

-- pool.Query and the reading of its rows.
abbrev pub query_page :
    {A : Type 0}
    → Conn
    → ℕ
    → ℕ
    → Option PageCursor
    → (Option Key → List A)
    → Fetched (List A × Bool)
query_page c k limit cursor rows =
    if c.fails k
    then not_fetched (failed_with connection)
    else (position cursor >>=ᶠ λ at_key. fetched (trim limit (rows at_key)))

unfoldable pub get_transfer_history_page :
    Conn → ℕ → ℕ → ℕ → Option PageCursor → TransfersDb → Fetched (List Transfer × Bool)
get_transfer_history_page c k account limit cursor db = query_page c k limit cursor λ at_key.
    union_all (suc limit)
      (select_top transfer_key (suc limit) at_key (is_sender account) db.transfers)
      (select_top transfer_key (suc limit) at_key (is_recipient account) db.transfers)

unfoldable pub get_deposit_history_page :
    Conn → ℕ → ℕ → ℕ → Option PageCursor → TransfersDb → Fetched (List Deposit × Bool)
get_deposit_history_page c k account limit cursor db =
    query_page c k limit cursor
      λ at_key. select_top deposit_key (suc limit) at_key (λ d. d.account_id == account) db.deposits

unfoldable pub get_withdrawal_history_page :
    Conn → ℕ → ℕ → ℕ → Option PageCursor → TransfersDb → Fetched (List Withdrawal × Bool)
get_withdrawal_history_page c k account limit cursor db = query_page c k limit cursor λ at_key.
    select_top withdrawal_key (suc limit) at_key (λ w. w.account_id == account) db.withdrawals
