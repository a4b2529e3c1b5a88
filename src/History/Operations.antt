-- ===== src/History/Operations.antt =====
-- getOperationHistoryPage (history.go): the three pages merged.
use neo_bank.Prelude.{
  ℕ, suc, ◌+◌, ◌≤◌, ◌≡◌, refl, sym, ◌∙◌, ◌⊎◌, Bool, ◌||◌, List, ◌++◌, map, Option, arith, ltb, take,
  length, length-append,
}
use mathlib.Core.Path.{subst}
use neo_bank.Prelude.Sorting.{sort}
use neo_bank.Prelude.Members.{length-sort}
use neo_bank.Prelude.Top.{
  IsTop, IsEnough, IsTop-length, IsTop-IsEnough, IsEnough-append, IsEnough-IsTop, take-sort-IsTop,
  cut-take, map-IsEnough, length-map,
}
use neo_bank.Prelude.Db.{Conn}
use neo_bank.Prelude.Rpc.{Reply}
use neo_bank.Transfers.State.{Transfer, Deposit, Withdrawal, TransfersDb}
use neo_bank.History.Rows.{
  PageCursor, Fetched, fetched, not_fetched, ◌>>=ᶠ◌, Key, in_order, transfer_key, deposit_key,
  withdrawal_key, position, get_transfer_history_page, get_deposit_history_page,
  get_withdrawal_history_page,
}
use neo_bank.History.Pages.{
  HistoryEntry, Ibans, transfer_entry, deposit_entry, withdrawal_entry, entry_key, merged,
  merge_pages, resolve_counterparty_ibans, get_operation_history_page,
}
use neo_bank.History.Complete.{
  in_order_asym, in_order_trans, transfers_of, deposits_of, withdrawals_of, operations_of, IsPage,
  trim-IsPage, union_all-IsTop, query_page-inverse, fetched-injective,
}

total-more :
    (limit t d w t' d' w' : ℕ)
    → (t ≡ t') ⊎ ((t ≡ limit) × (limit ≤ t'))
    → (d ≡ d') ⊎ ((d ≡ limit) × (limit ≤ d'))
    → (w ≡ w') ⊎ ((w ≡ limit) × (limit ≤ w'))
    → (ltb limit (t + (d + w)) || (ltb limit t' || (ltb limit d' || ltb limit w')))
      ≡ ltb limit (t' + (d' + w'))
total-more limit t d w t' d' w' h k l = ground arith

length-merged :
    (account : ℕ) (ibans : Ibans) (ts : List Transfer) (ds : List Deposit) (ws : List Withdrawal)
    → length (merged account ibans ts ds ws) ≡ length ts + (length ds + length ws)
length-merged account ibans ts ds ws = omega (
  arith,
  length-append (map (transfer_entry account ibans) ts)
      (map deposit_entry ds ++ map withdrawal_entry ws),
  length-append (map deposit_entry ds) (map withdrawal_entry ws),
  length-map (transfer_entry account ibans) ts,
  length-map deposit_entry ds,
  length-map withdrawal_entry ws,
)

map-IsEnough_of :
    {A : Type 0} (key : A → Key) (f : A → HistoryEntry) (limit : ℕ) (rows : List A)
    (out : List A × Bool)
    → ((x : A) → entry_key (f x) ≡ key x)
    → IsPage key limit rows out
    → IsEnough (in_order entry_key) limit (map f out.0) (map f rows)
map-IsEnough_of key f limit rows out same p =
    map-IsEnough f (in_order key) (in_order entry_key) limit out.0 rows (λ x y. cc (same x, same y))
      (IsTop-IsEnough (in_order key) limit out.0 rows p.0)

merge_pages-IsPage :
    (account limit : ℕ) (ibans : Ibans) (ts : List Transfer) (ds : List Deposit)
    (ws : List Withdrawal) (t : List Transfer × Bool) (d : List Deposit × Bool)
    (w : List Withdrawal × Bool)
    → IsPage transfer_key limit ts t
    → IsPage deposit_key limit ds d
    → IsPage withdrawal_key limit ws w
    → IsPage entry_key limit (merged account ibans ts ds ws) (merge_pages account limit ibans t d w)
merge_pages-IsPage account limit ibans ts ds ws t d w p q r = (
  subst (λ page. IsTop (in_order entry_key) limit page (merged account ibans ts ds ws))
      (sym (
        cut-take (in_order entry_key) limit
          (sort (in_order entry_key) (merged account ibans t.0 d.0 w.0))))
      (IsEnough-IsTop (in_order entry_key) (in_order_asym entry_key) (in_order_trans entry_key)
        limit _ _
        (IsEnough-append (in_order entry_key) limit _ _ _ _
          (map-IsEnough_of transfer_key (transfer_entry account ibans) limit ts t (λ x. refl) p)
          (IsEnough-append (in_order entry_key) limit _ _ _ _
            (map-IsEnough_of deposit_key deposit_entry limit ds d (λ x. refl) q)
            (map-IsEnough_of withdrawal_key withdrawal_entry limit ws w (λ x. refl) r)))),
  more,
)
  where
    found : ℕ
    found = length (sort (in_order entry_key) (merged account ibans t.0 d.0 w.0))

    found_length : found ≡ length t.0 + (length d.0 + length w.0)
    found_length =
        length-sort (in_order entry_key) (merged account ibans t.0 d.0 w.0)
        ∙ length-merged account ibans t.0 d.0 w.0

    more :
        (ltb limit found || (t.1 || (d.1 || w.1)))
        ≡ ltb limit (length (merged account ibans ts ds ws))
    more =
        rw (found_length, length-merged account ibans ts ds ws, p.1, q.1, r.1)
          (total-more limit _ _ _ _ _ _ (IsTop-length (in_order transfer_key) limit t.0 ts p.0)
            (IsTop-length (in_order deposit_key) limit d.0 ds q.0)
            (IsTop-length (in_order withdrawal_key) limit w.0 ws r.0))

abbrev pub Found :
    {A : Type 0}
    → (A → Key)
    → ℕ
    → Option PageCursor
    → (Option Key → List A)
    → List A × Bool
    → Type 0
Found key limit cursor rows out =
    (at_key : Option Key) × (position cursor ≡ fetched at_key) × IsPage key limit (rows at_key) out

-- If getTransferHistoryPage returns, its page holds the newest `limit` of the transfers that the
-- account sent, or received completed, after the cursor, in order; and it says truly whether there
-- are more.
pub get_transfer_history_page-Found :
    (c : Conn) (k account limit : ℕ) (cursor : Option PageCursor) (db : TransfersDb)
    {out : List Transfer × Bool}
    → get_transfer_history_page c k account limit cursor db ≡ fetched out
    → Found transfer_key limit cursor (λ at_key. transfers_of account at_key db.transfers) out
unfolding get_transfer_history_page
get_transfer_history_page-Found c k account limit cursor db {out} h =
    let (at_key, e, t) = query_page-inverse c k limit cursor _ h in
    (
      at_key,
      e,
      subst (IsPage transfer_key limit (transfers_of account at_key db.transfers)) t (
          trim-IsPage transfer_key limit _ _
            (union_all-IsTop (suc limit) account at_key db.transfers)),
    )

sort-IsTop_of :
    {A : Type 0} (key : A → Key) (k : ℕ) (rows : List A)
    → IsTop (in_order key) k (take k (sort (in_order key) rows)) rows
sort-IsTop_of key k rows =
    take-sort-IsTop (in_order key) (in_order_asym key) (in_order_trans key) k rows

get_deposit_history_page-Found :
    (c : Conn) (k account limit : ℕ) (cursor : Option PageCursor) (db : TransfersDb)
    {out : List Deposit × Bool}
    → get_deposit_history_page c k account limit cursor db ≡ fetched out
    → Found deposit_key limit cursor (λ at_key. deposits_of account at_key db.deposits) out
unfolding get_deposit_history_page
get_deposit_history_page-Found c k account limit cursor db {out} h =
    let (at_key, e, t) = query_page-inverse c k limit cursor _ h in
    (
      at_key,
      e,
      subst (IsPage deposit_key limit (deposits_of account at_key db.deposits)) t
          (trim-IsPage deposit_key limit _ _ (sort-IsTop_of deposit_key (suc limit) _)),
    )

get_withdrawal_history_page-Found :
    (c : Conn) (k account limit : ℕ) (cursor : Option PageCursor) (db : TransfersDb)
    {out : List Withdrawal × Bool}
    → get_withdrawal_history_page c k account limit cursor db ≡ fetched out
    → Found withdrawal_key limit cursor (λ at_key. withdrawals_of account at_key db.withdrawals) out
unfolding get_withdrawal_history_page
get_withdrawal_history_page-Found c k account limit cursor db {out} h =
    let (at_key, e, t) = query_page-inverse c k limit cursor _ h in
    (
      at_key,
      e,
      subst (IsPage withdrawal_key limit (withdrawals_of account at_key db.withdrawals)) t
          (trim-IsPage withdrawal_key limit _ _ (sort-IsTop_of withdrawal_key (suc limit) _)),
    )

bind-inverse :
    {A B : Type 0} (m : Fetched A) (f : A → Fetched B) {b : B}
    → (m >>=ᶠ f) ≡ fetched b
    → (a : A) × (m ≡ fetched a) × (f a ≡ fetched b)
bind-inverse (fetched a) f h = (a, refl, h)
bind-inverse (not_fetched e) f h = cc

same_key :
    (cursor : Option PageCursor) {a b : Option Key}
    → position cursor ≡ fetched a
    → position cursor ≡ fetched b
    → b ≡ a
same_key cursor e f = fetched-injective (sym f ∙ e)

-- If getOperationHistoryPage returns, its page holds the newest `limit` of all the account's
-- operations after the cursor: the transfers it sent, the completed transfers it received, its
-- deposits and its withdrawals, newest first; and it says truly whether there are more.
pub get_operation_history_page-IsPage :
    (c : Conn) (accounts : List ℕ → Reply Ibans) (account limit : ℕ) (cursor : Option PageCursor)
    (db : TransfersDb) {out : List HistoryEntry × Bool}
    → get_operation_history_page c accounts account limit cursor db ≡ fetched out
    → (ibans : Ibans) × (at_key : Option Key) × (position cursor ≡ fetched at_key)
      × IsPage entry_key limit (operations_of account ibans at_key db) out
unfolding get_operation_history_page
get_operation_history_page-IsPage c accounts account limit cursor db {out} h =
    let (t, et, ht) = bind-inverse (get_transfer_history_page c 0 account limit cursor db) _ h in
    let (d, ed, hd) = bind-inverse (get_deposit_history_page c 1 account limit cursor db) _ ht in
    let (w, ew, hw) = bind-inverse (get_withdrawal_history_page c 2 account limit cursor db) _ hd in
    let (ibans, ei, hi) = bind-inverse (resolve_counterparty_ibans accounts account t.0) _ hw in
    let (at_key, e, p) = get_transfer_history_page-Found c 0 account limit cursor db et in
    let (at_d, e_d, q) = get_deposit_history_page-Found c 1 account limit cursor db ed in
    let (at_w, e_w, r) = get_withdrawal_history_page-Found c 2 account limit cursor db ew in
    (
      ibans,
      at_key,
      e,
      subst (IsPage entry_key limit (operations_of account ibans at_key db)) (fetched-injective hi)
          (merge_pages-IsPage account limit ibans _ _ _ t d w p
            (subst (λ a. IsPage deposit_key limit (deposits_of account a db.deposits) d)
              (same_key cursor e e_d) q)
            (subst (λ a. IsPage withdrawal_key limit (withdrawals_of account a db.withdrawals) w)
              (same_key cursor e e_w) r)),
    )
