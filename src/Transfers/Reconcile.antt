-- ===== src/Transfers/Reconcile.antt =====
-- reconcile.go: the worker that resolves transfers left pending from what the ledger holds.
use neo_bank.Prelude.{ℕ, Bool, ◌+◌, ◌&&◌, List, [], ◌∷◌, Option, none, some, ltb, select}
use neo_bank.Prelude.Db.{Result, ok, err, Conn, stmt}
use neo_bank.Prelude.Rpc.{
  Reply, reply, status, Network, delivered, request_lost, reply_lost, transport,
}
use neo_bank.Ledger.State.{LedgerDb}
use neo_bank.Ledger.Server.{serve_get_transaction_by_reference}
use neo_bank.Outbox.State.{Draw}
use neo_bank.Transfers.State.{Transfer, TransfersDb, is_pending}
use neo_bank.Transfers.Mark.{mark_transfer_completed_if_pending, mark_transfer_failed_if_pending}

-- What the resolution of one transfer meets: the query's network and connection, then those of
-- the transaction that marks the row.
pub record Resolution : Type 0 where
  pub network : Network
  pub query_conn : Conn
  pub conn : Conn
  pub draw : Draw

-- WHERE status = 'pending' AND updated_at < now() - stale_after, the seconds not below zero.
abbrev pub is_stale : ℕ → ℕ → Transfer → Bool
is_stale now stale_after t = is_pending t.status && ltb (t.updated_at + stale_after) now

unfoldable pub get_stale_pending_transfers : Conn → ℕ → ℕ → TransfersDb → Result (List Transfer)
get_stale_pending_transfers c now stale_after db =
    stmt c 0 (ok (select (is_stale now stale_after) db.transfers))

-- A query writes nothing: a lost request and a lost reply look the same.
abbrev pub ask_ledger : Resolution → ℕ → LedgerDb → Reply (Option ℕ)
ask_ledger r id l = elim r.network [
  | delivered ↦ serve_get_transaction_by_reference r.query_conn id l
  | request_lost t ↦ status (transport t)
  | reply_lost t ↦ status (transport t)
]

abbrev pub resolve : Resolution → Transfer → TransfersDb → Reply (Option ℕ) → TransfersDb
resolve r t db (status code) = db
resolve r t db (reply none) =
    (mark_transfer_failed_if_pending r.conn r.draw t "timeout_unresolved" db).1
resolve r t db (reply (some transaction_id)) =
    (mark_transfer_completed_if_pending r.conn r.draw t (some transaction_id) db).1

unfoldable pub reconcile_transfer : Resolution → Transfer → LedgerDb → TransfersDb → TransfersDb
reconcile_transfer r t l db = resolve r t db (ask_ledger r t.id l)

-- What others write, to the ledger and to the tables, after the transfers were listed and before the
-- worker asks for this one.
abbrev pub Meanwhile : Type 0
Meanwhile = Transfer → LedgerDb × TransfersDb → LedgerDb × TransfersDb

-- The loop over the stale transfers, each with what its resolution meets.
unfoldable pub reconcile_each :
    Meanwhile → (Transfer → Resolution) → List Transfer → LedgerDb → TransfersDb → TransfersDb
reconcile_each w f [] l db = db
reconcile_each w f (t ∷ ts) l db =
    let (l', db') = w t (l, db) in reconcile_each w f ts l' (reconcile_transfer (f t) t l' db')

abbrev pub reconcile_listed :
    Meanwhile
    → (Transfer → Resolution)
    → LedgerDb
    → TransfersDb
    → Result (List Transfer)
    → TransfersDb
reconcile_listed w f l db (err e) = db
reconcile_listed w f l db (ok stale) = reconcile_each w f stale l db

unfoldable pub reconcile_once :
    Conn → ℕ → ℕ → Meanwhile → (Transfer → Resolution) → LedgerDb → TransfersDb → TransfersDb
reconcile_once c now stale_after w f l db =
    reconcile_listed w f l db (get_stale_pending_transfers c now stale_after db)
