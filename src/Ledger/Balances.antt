-- ===== src/Ledger/Balances.antt =====
-- What the statements on entries and account_balances do to one account's balance.
use neo_bank.Prelude.{ℕ, ◌≡◌, refl, List, [], ◌∷◌, ◌⊎◌, arith, ◌==◌, if◌then◌else◌}
use neo_bank.Prelude.Int.{ℤ, pos, ◌+ℤ◌, +ℤ_comm, +ℤ_zero}
use neo_bank.Prelude.Db.{ok, err, out_of_range, OnOk, OnOk-bind, OnOk-apply}
use neo_bank.Ledger.State.{
  LedgerDb, BalanceRow, Entry, to_bigint, sum_entries, cached_balance, add_to_balance,
  apply_balance_delta, set_balance,
}

-- What an entry of amount d on account l adds to the balance of account j.
abbrev pub share : ℕ → ℕ → ℤ → ℤ
share l j d = if l == j then d else pos 0

pub to_bigint_cases : (a : ℤ) → (to_bigint a ≡ ok a) ⊎ (to_bigint a ≡ err out_of_range)
unfolding to_bigint
to_bigint_cases a = ground arith

pub to_bigint-ok : (a b : ℤ) → to_bigint a ≡ ok b → b ≡ a
to_bigint-ok a b h = ground (arith, to_bigint_cases a)

pub sum-cons :
    (j : ℕ) (e : Entry) (es : List Entry)
    → sum_entries j (e ∷ es) ≡ share e.ledger_account_id j e.amount +ℤ sum_entries j es
unfolding sum_entries
sum-cons j e es = refl

pub cached-add :
    (l j : ℕ) (d : ℤ) (rows : List BalanceRow)
    → OnOk
        (λ rows'. cached_balance j rows' ≡ share l j d +ℤ cached_balance j rows)
        (add_to_balance l d rows)
unfolding add_to_balance cached_balance
cached-add l j d [] = ground (arith, +ℤ_comm (pos 0) (share l j d), +ℤ_zero (share l j d))
cached-add l j d (r ∷ rs) = ground (
  arith,
  to_bigint_cases (r.balance +ℤ d),
  +ℤ_comm r.balance d,
  +ℤ_zero (cached_balance j rs),
  +ℤ_zero r.balance,
  cached-add l j d rs,
)

-- One delta: the cached balances move by its share, and nothing else changes.
abbrev pub Applied : ℕ → ℤ → LedgerDb → LedgerDb → Type 0
Applied l d db db' =
    ((j : ℕ)
      → cached_balance j db'.account_balances ≡ share l j d +ℤ cached_balance j db.account_balances)
    × (db'.entries ≡ db.entries)
    × (db'.ledger_accounts ≡ db.ledger_accounts)

pub apply-Applied :
    (l : ℕ) (d : ℤ) (db : LedgerDb) → OnOk (Applied l d db) (apply_balance_delta l d db)
unfolding apply_balance_delta
apply-Applied l d db =
    OnOk-bind (Applied l d db) (add_to_balance l d db.account_balances) _
      λ rows e. ((λ j. OnOk-apply _ _ (cached-add l j d db.account_balances) e), refl, refl)

pub cached-set :
    (l j : ℕ) (b : ℤ) (rows : List BalanceRow)
    → cached_balance j (set_balance l b rows) ≡ (if l == j then b else cached_balance j rows)
unfolding set_balance cached_balance
cached-set l j b [] = ground arith
cached-set l j b (r ∷ rs) = ground (arith, cached-set l j b rs)
