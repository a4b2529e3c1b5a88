-- ===== src/Transfers/Advances.antt =====
-- reconcileOnce (reconcile.go): the rows before and after a pass of the worker.
use neo_bank.Prelude.{ℕ, ◌+◌, ◌<◌, All, ◌≡◌, ◌⊎◌, Bool, true, false, List, [], ◌∷◌}
use neo_bank.Prelude.Int.{ℤ}
use neo_bank.Prelude.Db.{Work, roll_back, write}
use neo_bank.Prelude.Rpc.{status}
use neo_bank.Ledger.State.{LedgerDb}
use neo_bank.Transfers.State.{Transfer, TransfersDb, is_pending}
use neo_bank.Transfers.Reconcile.{Meanwhile}

-- What never changes of a transfer: its id, key, parties and amount.
abbrev pub order_of : Transfer → ℕ × ℕ × ℕ × ℕ × ℤ
order_of t = (t.id, t.idempotency_key, t.sender_account_id, t.recipient_account_id, t.amount)

-- A row is the same, or it was pending and took a terminal status; its order never changes.
abbrev pub IsAdvanced : Transfer → Transfer → Type 0
IsAdvanced t u =
    (u ≡ t)
    ⊎ ((is_pending t.status ≡ true) × (is_pending u.status ≡ false) × (order_of u ≡ order_of t))

abbrev pub Advances : List Transfer → List Transfer → Type 0
Advances [] [] = Unit {0}
Advances [] (u ∷ us) = ⊥
Advances (t ∷ ts) [] = ⊥
Advances (t ∷ ts) (u ∷ us) = IsAdvanced t u × Advances ts us

abbrev AdvancesWork : TransfersDb → Work TransfersDb Bool → Type 0
AdvancesWork db (roll_back a) = Unit {0}
AdvancesWork db (write a db') = Advances db.transfers db'.transfers

-- A pass over these transfers, from the tables that it finds to those that it leaves: at each one
-- the others write first, and the worker then only advances the rows that it finds.
abbrev pub Alternates : Meanwhile → List Transfer → LedgerDb → TransfersDb → TransfersDb → Type 0
Alternates w [] l db last = last ≡ db
Alternates w (t ∷ ts) l db last =
    let (l', db') = w t (l, db) in
    (next : TransfersDb) × Advances db'.transfers next.transfers × Alternates w ts l' next last

abbrev IsListed : ℕ → ℕ → Transfer → Type 0
IsListed now stale_after t = (is_pending t.status ≡ true) × (t.updated_at + stale_after < now)

abbrev pub Interleaves : Meanwhile → ℕ → ℕ → LedgerDb → TransfersDb → TransfersDb → Type 0
Interleaves w now stale_after l db last =
    (ts : List Transfer) × All (IsListed now stale_after) ts × Alternates w ts l db last
