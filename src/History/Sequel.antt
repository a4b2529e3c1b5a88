-- ===== src/History/Sequel.antt =====
-- Two calls of getOperationHistoryPage (services/transfers-svc/history.go), the second with the cursor
-- of the first one's last entry, as listTransfersHandler (http.go) makes it.
use neo_bank.Prelude.{
  ℕ, ◌+◌, ◌≤◌, ◌<◌, ◌≡◌, refl, sym, ◌∙◌, ◌⊎◌, inl, inr, Bool, true, false, List, [], ◌∷◌, ◌++◌, map,
  Option, some, arith, ◌==◌, count, length, All, ltb,
}
use mathlib.Core.Path.{subst}
use neo_bank.Prelude.Db.{Conn}
use neo_bank.Prelude.Rpc.{Reply}
use neo_bank.Prelude.Members.{All-map}
use neo_bank.Prelude.Top.{IsTop, count-le, count-map, count-append, length-count}
use neo_bank.Transfers.State.{Transfer, TransfersDb}
use neo_bank.History.Rows.{uuid, PageCursor, Key, newer, in_order, is_after, fetched, position}
use neo_bank.History.Pages.{
  HistoryEntry, Ibans, entry_key, transfer_entry, deposit_entry, withdrawal_entry,
  get_operation_history_page,
}
use neo_bank.History.Serve.{last_of}
use neo_bank.History.Complete.{
  operations_of, transfers_of, deposits_of, withdrawals_of, IsPage, fetched-injective,
}
use neo_bank.History.Operations.{get_operation_history_page-IsPage}
use neo_bank.History.Follow.{ties}
use neo_bank.History.Continued.{page-holds, operations-after, operations-after_page}

-- The ids of the account's operations after a cursor: they do not depend on the IBANs found.
abbrev pub count_ids : (ℕ → Bool) → List HistoryEntry → ℕ
count_ids q entries = count (λ e. q e.id) entries

ids-of_operations :
    (q : ℕ → Bool) (account : ℕ) (ibans ibans' : Ibans) (at_key : Option Key) (db : TransfersDb)
    → count_ids q (operations_of account ibans at_key db)
      ≡ count_ids q (operations_of account ibans' at_key db)
ids-of_operations q account ibans ibans' at_key db = omega (
  arith,
  count-append (λ e. q e.id) (map (transfer_entry account ibans) ts) others,
  count-append (λ e. q e.id) (map (transfer_entry account ibans') ts) others,
  count-map (transfer_entry account ibans) (λ e. q e.id) ts,
  count-map (transfer_entry account ibans') (λ e. q e.id) ts,
)
  where
    ts : List Transfer
    ts = transfers_of account at_key db.transfers

    others : List HistoryEntry
    others =
        map deposit_entry (deposits_of account at_key db.deposits)
        ++ map withdrawal_entry (withdrawals_of account at_key db.withdrawals)

abbrev pub HasUniqueIds : List HistoryEntry → Type 0
HasUniqueIds entries = (id : ℕ) → count_ids (λ i. i == id) entries ≤ 1

ties_le :
    (l : HistoryEntry) (entries : List HistoryEntry)
    → count (ties (in_order entry_key) l) entries ≤ count_ids (λ i. i == l.id) entries
ties_le l entries =
    count-le (ties (in_order entry_key) l) (λ e. e.id == l.id) entries (λ e h. ground arith)

abbrev pub IsOlder : HistoryEntry → HistoryEntry → Type 0
IsOlder l e = (e.created_at < l.created_at) ⊎ ((e.created_at ≡ l.created_at) × (e.id < l.id))

-- A page that has no more after it is the last.
rest-none :
    (limit : ℕ) (page rows : List HistoryEntry) (more : Bool)
    (t : IsTop (in_order entry_key) limit page rows)
    → more ≡ ltb limit (length rows)
    → more ≡ false
    → t.rest ≡ []
rest-none limit page rows more t e f = by_full t.full
  where
    total : length page + length t.rest ≡ length rows
    total =
        omega (arith, t.same (λ x. true), length-count page, length-count t.rest, length-count rows)

    empty_list : (xs : List HistoryEntry) → length xs ≡ 0 → xs ≡ []
    empty_list [] h = refl
    empty_list (x ∷ xs) h = absurd (omega arith)

    by_full : (t.rest ≡ []) ⊎ (length page ≡ limit) → t.rest ≡ []
    by_full (inl h) = h
    by_full (inr h) = empty_list t.rest (ground (arith, total, e, f))

-- The entries after a cursor are older than it.
page-IsOlder :
    (account limit : ℕ) (ibans : Ibans) (l : HistoryEntry) (db : TransfersDb)
    (page : List HistoryEntry)
    → IsTop (in_order entry_key) limit page (operations_of account ibans (some (entry_key l)) db)
    → All (IsOlder l) page
page-IsOlder account limit ibans l db page t =
    All-map (λ e. newer (entry_key l) (entry_key e) ≡ true) (IsOlder l) (λ e h. ground arith) page
      (page-holds (is_after entry_key (some (entry_key l))) limit page _ t
        (operations-after account ibans (some (entry_key l)) db))

pub last_of-append :
    (init : List HistoryEntry) (l : HistoryEntry) → last_of (init ++ l ∷ []) ≡ some l
last_of-append [] l = refl
last_of-append (x ∷ []) l = refl
last_of-append (x ∷ y ∷ init) l = last_of-append (y ∷ init) l

-- What two pages in succession are of the account's operations after a cursor.
abbrev pub Continues :
    ℕ → Option Key → TransfersDb → List HistoryEntry → List HistoryEntry → Bool → Type 0
Continues account at_key db page page' more' =
    (rest : List HistoryEntry) × ((q : ℕ → Bool)
      → count_ids q page + count_ids q page' + count_ids q rest
        ≡ count_ids q (operations_of account [] at_key db))
    × (more' ≡ false → rest ≡ [])

pages-Continues :
    (account limit limit' : ℕ) (ibans ibans' : Ibans) (at_key : Option Key) (db : TransfersDb)
    (page page' : List HistoryEntry) (more' : Bool) (l : HistoryEntry)
    → HasUniqueIds (operations_of account [] at_key db)
    → IsTop (in_order entry_key) limit page (operations_of account ibans at_key db)
    → last_of page ≡ some l
    → IsPage entry_key limit' (operations_of account ibans' (some (entry_key l)) db) (page', more')
    → Continues account at_key db page page' more'
pages-Continues account limit limit' ibans ibans' at_key db page page' more' l unique t e t' = (
  t'.0.rest,
  (λ q. omega (
    arith,
    t'.0.same (λ x. q x.id),
    operations-after_page account limit ibans at_key db page l t e few (λ x. q x.id),
    ids-of_operations q account ibans ibans' (some (entry_key l)) db,
    ids-of_operations q account ibans [] at_key db,
  )),
  rest-none limit' page' _ more' t'.0 t'.1,
)
  where
    few : count (ties (in_order entry_key) l) (operations_of account ibans at_key db) ≤ 1
    few = omega (
      arith,
      unique l.id,
      ties_le l (operations_of account ibans at_key db),
      ids-of_operations (λ i. i == l.id) account ibans [] at_key db,
    )

-- Following the cursor of a page neither skips nor repeats an operation. Let a page be returned and,
-- from the same rows, the page at the cursor of its last entry, and let no two of the account's
-- operations after the first cursor have the same id. Then every entry of the second page is older
-- than the last of the first, or as old with a smaller id. By their ids, both pages and some rest are
-- together all those operations, each as often as it is there; and the rest is empty if the second
-- page reports that there are no more.
pub get_operation_history_page_continued :
    (c c' : Conn) (accounts accounts' : List ℕ → Reply Ibans) (account limit limit' : ℕ)
    (cursor : Option PageCursor) (at_key : Option Key) (db : TransfersDb)
    (init page' : List HistoryEntry) (l : HistoryEntry) {more more' : Bool}
    → position cursor ≡ fetched at_key
    → HasUniqueIds (operations_of account [] at_key db)
    → get_operation_history_page c accounts account limit cursor db ≡ fetched (init ++ l ∷ [], more)
    → get_operation_history_page c' accounts' account limit'
        (some (record { created_at = l.created_at; id = uuid l.id }))
        db
      ≡ fetched (page', more')
    → All (IsOlder l) page' × Continues account at_key db (init ++ l ∷ []) page' more'
get_operation_history_page_continued c c' accounts accounts' account limit limit' cursor at_key db
      init page' l {more' = more'} k unique first second =
    let (ibans, at_1, e1, p) =
      get_operation_history_page-IsPage c accounts account limit cursor db first in
    let (ibans', at_2, e2, p') =
      get_operation_history_page-IsPage c' accounts' account limit' _ db second in
    let q =
      subst
        (λ a. IsTop (in_order entry_key) limit (init ++ l ∷ []) (operations_of account ibans a db))
        (fetched-injective (sym e1 ∙ k)) p.0 in
    let q' =
      subst (λ a. IsPage entry_key limit' (operations_of account ibans' a db) (page', more'))
        (sym (fetched-injective e2)) p' in
    (
      page-IsOlder account limit' ibans' l db page' q'.0,
      pages-Continues account limit limit' ibans ibans' at_key db _ page' more' l unique q
          (last_of-append init l) q',
    )
