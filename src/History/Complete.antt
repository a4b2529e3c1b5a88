-- ===== src/History/Complete.antt =====
-- The pages of history.go and transfer.go against the whole history of an account.
use neo_bank.Prelude.{
  ℕ, suc, ◌≡◌, refl, sym, Bool, true, false, ◌&&◌, List, ◌++◌, Option, arith, ltb, ◌==◌,
  if◌then◌else◌, take, select, length,
}
use mathlib.Core.Path.{subst}
use neo_bank.Prelude.Sorting.{sort}
use neo_bank.Prelude.Top.{
  IsTop, IsEnough, IsTop-shrink, IsTop-more, IsTop-IsEnough, IsEnough-append, IsEnough-IsTop,
  take-sort-IsTop, cut-take,
}
use neo_bank.Prelude.Db.{Conn, connection}
use neo_bank.Transfers.State.{Transfer, Deposit, Withdrawal, TransfersDb}
use neo_bank.History.Rows.{
  PageCursor, Fetched, fetched, not_fetched, failed_with, ◌>>=ᶠ◌, Key, in_order, is_after,
  transfer_key, deposit_key, withdrawal_key, is_sender, is_recipient, select_top, union_all,
  position, trim, query_page,
}
use neo_bank.History.Pages.{HistoryEntry, Ibans, merged}

module _ {A : Type 0} (key : A → Key) where
  pub in_order_asym : (x y : A) → in_order key x y ≡ true → in_order key y x ≡ false
  in_order_asym x y h = ground arith

  pub in_order_trans :
      (x y z : A) → in_order key x y ≡ false → in_order key y z ≡ false → in_order key x z ≡ false
  in_order_trans x y z h k = ground arith

-- The account's rows after the cursor, all of them, in no order.
abbrev pub transfers_of : ℕ → Option Key → List Transfer → List Transfer
transfers_of account at_key rows =
    select (λ t. is_sender account t && is_after transfer_key at_key t) rows
    ++ select (λ t. is_recipient account t && is_after transfer_key at_key t) rows

abbrev pub deposits_of : ℕ → Option Key → List Deposit → List Deposit
deposits_of account at_key rows =
    select (λ d. (d.account_id == account) && is_after deposit_key at_key d) rows

abbrev pub withdrawals_of : ℕ → Option Key → List Withdrawal → List Withdrawal
withdrawals_of account at_key rows =
    select (λ w. (w.account_id == account) && is_after withdrawal_key at_key w) rows

abbrev pub operations_of : ℕ → Ibans → Option Key → TransfersDb → List HistoryEntry
operations_of account ibans at_key db =
    merged account ibans (transfers_of account at_key db.transfers)
      (deposits_of account at_key db.deposits) (withdrawals_of account at_key db.withdrawals)

-- A page of these rows, newest first, and whether there are more.
abbrev pub IsPage : {A : Type 0} → (A → Key) → ℕ → List A → List A × Bool → Type 0
IsPage key limit rows (page, more) =
    IsTop (in_order key) limit page rows × (more ≡ ltb limit (length rows))

pub trim-IsPage :
    {A : Type 0} (key : A → Key) (limit : ℕ) (page rows : List A)
    → IsTop (in_order key) (suc limit) page rows
    → IsPage key limit rows (trim limit page)
trim-IsPage key limit page rows t = (
  subst (λ p. IsTop (in_order key) limit p rows) (sym (cut-take (in_order key) limit page))
      (IsTop-shrink (in_order key) limit page rows t),
  IsTop-more (in_order key) limit page rows t,
)

pub union_all-IsTop :
    (k account : ℕ) (at_key : Option Key) (rows : List Transfer)
    → IsTop
        (in_order transfer_key)
        k
        (union_all k
          (select_top transfer_key k at_key (is_sender account) rows)
          (select_top transfer_key k at_key (is_recipient account) rows))
        (transfers_of account at_key rows)
union_all-IsTop k account at_key rows =
    IsEnough-IsTop (in_order transfer_key) (in_order_asym transfer_key)
      (in_order_trans transfer_key) k _ _
      (IsEnough-append (in_order transfer_key) k _ _ _ _
        (branch (λ t. is_sender account t && is_after transfer_key at_key t))
        (branch (λ t. is_recipient account t && is_after transfer_key at_key t)))
  where
    branch :
        (test : Transfer → Bool)
        → IsEnough
            (in_order transfer_key)
            k
            (take k (sort (in_order transfer_key) (select test rows)))
            (select test rows)
    branch test = IsTop-IsEnough (in_order transfer_key) k _ _ (
        take-sort-IsTop (in_order transfer_key) (in_order_asym transfer_key)
          (in_order_trans transfer_key) k (select test rows))

pub fetched-injective : {A : Type 0} {a b : A} → fetched a ≡ fetched b → a ≡ b
fetched-injective e = cc

-- What a query that returns has met.
pub query_page-inverse :
    {A : Type 0} (c : Conn) (k limit : ℕ) (cursor : Option PageCursor) (rows : Option Key → List A)
    {out : List A × Bool}
    → query_page c k limit cursor rows ≡ fetched out
    → (at_key : Option Key) × (position cursor ≡ fetched at_key) × (trim limit (rows at_key) ≡ out)
query_page-inverse c k limit cursor rows {out} h = by_failure (c.fails k) h
  where
    by_position :
        (p : Fetched (Option Key))
        → position cursor ≡ p
        → (p >>=ᶠ λ at_key. fetched (trim limit (rows at_key))) ≡ fetched out
        → (at_key : Option Key) × (position cursor ≡ fetched at_key)
          × (trim limit (rows at_key) ≡ out)
    by_position (fetched at_key) e q = (at_key, e, fetched-injective q)
    by_position (not_fetched e') e q = cc

    by_failure :
        (b : Bool)
        → (if b
            then not_fetched (failed_with connection)
            else (position cursor >>=ᶠ λ at_key. fetched (trim limit (rows at_key))))
          ≡ fetched out
        → (at_key : Option Key) × (position cursor ≡ fetched at_key)
          × (trim limit (rows at_key) ≡ out)
    by_failure true q = cc
    by_failure false q = by_position (position cursor) refl q
