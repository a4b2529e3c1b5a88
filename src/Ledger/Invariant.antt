-- ===== src/Ledger/Invariant.antt =====
-- executeTransfer and postUncheckedTransfer (ledger.go) against the whole log and the cached balances.
use neo_bank.Prelude.{ℕ, ◌≡◌, ◌⊎◌, inl, inr, List, [], ◌∷◌, Option, arith, ◌∙◌, ap}
use neo_bank.Prelude.Int.{ℤ, pos, neg, ◌+ℤ◌, ◌≤ℤ◌, int_laws, neg_parts, +ℤ_parts}
use neo_bank.Prelude.Db.{Conn}
use neo_bank.Ledger.State.{LedgerDb, Entry, Ids, sum_entries, cached_balance}
use neo_bank.Ledger.Balances.{share}
use neo_bank.Ledger.Post.{execute_transfer, post_unchecked_transfer, credit_entry, debit_entry}
use neo_bank.Ledger.Posting.{Moved, sum-Moved}
use neo_bank.Ledger.Execute.{Posts, Executed-change, execute_transfer-Executed}
use neo_bank.Ledger.Unchecked.{Deposited-change, post_unchecked_transfer-Deposited}

-- SUM(amount) over the whole log.
abbrev pub total : List Entry → ℤ
total [] = pos 0
total (e ∷ es) = e.amount +ℤ total es

-- The cache holds what the log sums to, for every account.
abbrev pub IsCached : LedgerDb → Type 0
IsCached db = (l : ℕ) → cached_balance l db.account_balances ≡ sum_entries l db.entries

shares_nonneg :
    (l l' j : ℕ) (a s s' : ℤ)
    → pos 1 ≤ℤ a
    → a ≤ℤ s
    → (l ≡ j → s ≡ s')
    → pos 0 ≤ℤ s'
    → pos 0 ≤ℤ share l' j a +ℤ (share l j (neg a) +ℤ s')
shares_nonneg l l' j a s s' p cover same h = ground (
  arith,
  neg_parts a,
  same,
  +ℤ_parts (neg a) s',
  +ℤ_parts (pos 0) s',
  +ℤ_parts a (neg a +ℤ s'),
  +ℤ_parts a (pos 0 +ℤ s'),
  +ℤ_parts (pos 0) (neg a +ℤ s'),
  +ℤ_parts (pos 0) (pos 0 +ℤ s'),
)

module _ (ids : Ids) (now l l' : ℕ) (amount : ℤ) (reference : Option ℕ) (db db' : LedgerDb)
    (m : Moved ids now l l' amount reference db db') where
  pub Moved-total : total db'.entries ≡ total db.entries
  unfolding credit_entry debit_entry
  Moved-total = rw m.entries (omega int_laws)

  pub Moved-IsCached : IsCached db → IsCached db'
  Moved-IsCached h j = rw (m.cached j, sum-Moved ids now l l' amount reference db db' j m, h j)

  -- An account that is not the sender's keeps a balance at or above zero, and so does the sender's
  -- if it covers the amount.
  pub Moved-nonneg :
      (j : ℕ)
      → pos 1 ≤ℤ amount
      → amount ≤ℤ sum_entries l db.entries
      → pos 0 ≤ℤ sum_entries j db.entries
      → pos 0 ≤ℤ sum_entries j db'.entries
  Moved-nonneg j p cover h =
      rw (sum-Moved ids now l l' amount reference db db' j m)
        (shares_nonneg l l' j amount _ _ p cover (ap (λ k. sum_entries k db.entries)) h)

module _ (c : Conn) (ids : Ids) (now from to : ℕ) (amount : ℤ) (reference : Option ℕ)
    (db : LedgerDb) where
  abbrev after_transfer : LedgerDb
  after_transfer = (execute_transfer c ids now from to amount reference db).1

  transfer_change : (after_transfer ≡ db) ⊎ Posts ids now from to amount reference db after_transfer
  transfer_change =
      Executed-change ids now from to amount reference db c.commit_fate
        (execute_transfer-Executed ids now from to amount reference db c)

  -- Whatever executeTransfer ends in, the log's total stays the same, and an account whose entries
  -- sum to zero or more still does.
  pub execute_transfer-safe :
      (j : ℕ)
      → pos 0 ≤ℤ sum_entries j db.entries
      → (total after_transfer.entries ≡ total db.entries)
        × (pos 0 ≤ℤ sum_entries j after_transfer.entries)
  execute_transfer-safe j h = elim transfer_change [
    | inl e ↦ (rw e, rw e h)
    | inr p ↦ (
      Moved-total ids now p.l p.l' amount reference db _ p.moved,
      Moved-nonneg ids now p.l p.l' amount reference db _ p.moved j p.positive p.covered h,
    )
  ]

  -- If the cached balances agree with the log, they agree after executeTransfer.
  pub execute_transfer-IsCached : IsCached db → IsCached after_transfer
  execute_transfer-IsCached h = elim transfer_change [
    | inl e ↦ rw e h
    | inr p ↦ Moved-IsCached ids now p.l p.l' amount reference db _ p.moved h
  ]

  abbrev after_post : LedgerDb
  after_post = (post_unchecked_transfer c ids now from to amount reference db).1

  -- If the log's total is zero and the cached balances agree with the log, both still hold after
  -- postUncheckedTransfer, whatever it ends in.
  pub post_unchecked_transfer-balanced :
      total db.entries ≡ pos 0
      → IsCached db
      → (total after_post.entries ≡ pos 0) × IsCached after_post
  post_unchecked_transfer-balanced z h =
      elim (Deposited-change ids now from to amount reference db c.commit_fate
        (post_unchecked_transfer-Deposited ids now from to amount reference db c)) [
          | inl e ↦ rw e (z, h)
          | inr p ↦ (
            Moved-total ids now p.l p.l' amount reference db _ p.moved ∙ z,
            Moved-IsCached ids now p.l p.l' amount reference db _ p.moved h,
          )
        ]
